-- ===== src/Ui/Base.antt =====
-- internal/ui/base.go: BaseUI, with its log and its shutdown. The context is a flag, the spinner and
-- the formatting are left out, and a text that is made of parts is the list of its parts.
use waymon.Common.{
  ℕ, zero, suc, ◌-◌, ◌≤◌, ◌≡◌, String, Bool, true, false, List, [], ◌∷◌, ◌++◌, arith, ltb, length,
  drop, if◌then◌else◌,
}

pub record LogEntry : Type 0 where
  pub timestamp : ℕ
  pub level : String
  pub message : List String

pub record BaseUi : Type 0 where
  pub is_shutting_down : Bool
  pub shutdown_once : Bool  -- whether `shutdownOnce` has run
  pub cancelled : Bool
  pub window_width : ℕ
  pub window_height : ℕ
  pub log_buffer : List LogEntry
  pub max_log_lines : ℕ

unfoldable pub new_base_ui : BaseUi
new_base_ui = record {
  is_shutting_down = false;
  shutdown_once = false;
  cancelled = false;
  window_width = 0;
  window_height = 0;
  log_buffer = [];
  max_log_lines = 100;
}

-- "Trim buffer if needed"
abbrev pub trimmed : ℕ → List LogEntry → List LogEntry
trimmed max es = if ltb max (length es) then drop (length es - max) es else es

unfoldable pub add_log_entry : LogEntry → BaseUi → BaseUi
add_log_entry entry b = record b {
  log_buffer = trimmed b.max_log_lines (b.log_buffer ++ (entry ∷ []));
}

-- `InitiateShutdown`, and whether it returns the command that quits: only the first call does.
unfoldable pub initiate_shutdown : ℕ → BaseUi → BaseUi × Bool
unfolding add_log_entry
initiate_shutdown now b =
    let entry : LogEntry = record {
      timestamp = now;
      level = "info";
      message = "Shutting down..." ∷ [];
    } in
    if b.shutdown_once then (b, false) else (
      record (add_log_entry entry (record b { shutdown_once = true; is_shutting_down = true })) {
        cancelled = true;
      },
      true,
    )

unfoldable pub update_window_size : ℕ → ℕ → BaseUi → BaseUi
update_window_size width height b = record b { window_width = width; window_height = height }

length-drop : (n : ℕ) (es : List LogEntry) → length (drop n es) ≡ length es - n
length-drop zero es = ground arith
length-drop (suc n) [] = ground arith
length-drop (suc n) (e ∷ es) = ground (arith, length-drop n es)

-- The log has at most as many entries as the limit after every new one.
add_log_entry_bounded :
    (entry : LogEntry) (b : BaseUi) → length (add_log_entry entry b).log_buffer ≤ b.max_log_lines
unfolding add_log_entry
add_log_entry_bounded entry b =
    let all = b.log_buffer ++ (entry ∷ []) in
    ground (arith, length-drop (length all - b.max_log_lines) all)
