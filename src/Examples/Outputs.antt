-- ===== src/Examples/Outputs.antt =====
-- internal/display/wlr_randr_backend.go: two outputs, of which the second lies at (0, 0).
use waymon.Common.{◌≡◌, refl, String, true, false, some, List, [], ◌∷◌}
use waymon.Common.Int.{ℤ, pos, int32}
use waymon.Float.{whole}
use waymon.Display.Monitor.{Monitor, set_primary, determine_primary_monitor}
use waymon.Display.WlrRandr.{
  Output, read_outputs, monitor_of, get_monitors, has_primary, mark_primary_text, primary_of,
  primary_by_format,
}

abbrev output : String → ℤ → Output ℤ
output name x = record {
  name = name;
  enabled = true;
  x = pos 0;
  y = pos 0;
  width = pos 0;
  height = pos 0;
  scale = pos 1;
  primary = false;
  mode_width = pos 1920;
  mode_height = pos 1080;
  position_x = x;
  position_y = pos 0;
}

abbrev monitor : String → ℤ → Monitor ℤ
monitor name x = record {
  id = "#";
  name = name;
  x = x;
  y = pos 0;
  width = pos 1920;
  height = pos 1080;
  primary = false;
  scale = pos 1;
}

abbrev outputs : List (Output ℤ)
outputs = output "DP-1" (pos 1920) ∷ output "DP-2" (pos 0) ∷ []

primary_by_format_example :
    (primary_of (get_monitors whole (λ i. "#") outputs)
      ≡ some (set_primary true (monitor "DP-1" (pos 1920))))
    × (mark_primary_text (monitor "DP-1" (pos 1920) ∷ monitor "DP-2" (pos 0) ∷ [])
        ≡ determine_primary_monitor (monitor "DP-1" (pos 1920) ∷ monitor "DP-2" (pos 0) ∷ []))
unfolding read_outputs monitor_of has_primary int32
primary_by_format_example =
    primary_by_format whole (λ i. "#") outputs (monitor "DP-1" (pos 1920))
      (monitor "DP-2" (pos 0) ∷ []) refl refl
