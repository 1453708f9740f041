-- ===== src/Server/Release.antt =====
-- internal/server/emergency.go over internal/input/all_devices_capture.go: the devices after an
-- emergency release.
use waymon.Common.{
  ℕ, ◌≡◌, refl, String, Bool, true, Option, none, some, if◌then◌else◌, arith, Bool-cases, ap, ◌∙◌,
  sym, subst₂, if-true, if-false, inl, inr,
}
use waymon.Proto.{InputEvent}
use waymon.Capture.State.{Evdev, AllDevicesCapture}
use waymon.Capture.Target.{set_target}
use waymon.Capture.Grabs.{grabbed_count, Releases, clear_target_releases}
use waymon.Manager.State.{Platform, ClientManager, Error, notify}
use waymon.Manager.Switch.{
  switch_to_local, switch_to_local_internal, release_previous, send_release,
}
use waymon.Manager.Clients.{mark_emergency_release}
use waymon.Server.State.{EmergencyRelease, update_activity}
use waymon.Server.Emergency.{trigger_release, force_release}

-- The manager over the capture of the devices, at a time; the SSH server stays a parameter.
abbrev pub capture_platform :
    (E : Evdev) → ℕ → (S : Type 0) → (String → InputEvent E.float.Value → S → S × Bool) → Platform
capture_platform E now S send = record {
  float = E.float;
  Backend = AllDevicesCapture E;
  set_target = set_target now;
  Ssh = S;
  send_event_to_client = send;
  hostname = none;
}

-- A switch to local passes no device but through `SetTarget("")`.
switch_to_local_internal_backend :
    (P : Platform) (now : ℕ) (cm : ClientManager P)
    → let cm' = (switch_to_local_internal P now cm).0 in
      (cm'.controlling_local ≡ true)
      × (cm'.emergency_release_time ≡ cm.emergency_release_time)
      × (cm'.input_backend ≡ (P.set_target "" (release_previous P now cm).input_backend).0)
unfolding switch_to_local_internal release_previous send_release notify
switch_to_local_internal_backend P now cm = ground arith

module _ (E : Evdev) (now : ℕ) (S : Type 0)
    (send : String → InputEvent E.float.Value → S → S × Bool) where
  -- The manager after the switch: local, in the cooldown from now on, with n devices grabbed.
  abbrev IsFreed : ClientManager (capture_platform E now S send) × Option Error → ℕ → Type 0
  IsFreed o n =
      ((force_release (capture_platform E now S send) o).controlling_local ≡ true)
      × ((force_release (capture_platform E now S send) o).emergency_release_time ≡ some now)
      × (grabbed_count (force_release (capture_platform E now S send) o).input_backend.devices ≡ n)

  switch_to_local-IsFreed :
      Releases E
      → (cm : ClientManager (capture_platform E now S send))
      → IsFreed
          (switch_to_local
            (capture_platform E now S send)
            now
            (mark_emergency_release (capture_platform E now S send) now cm))
          (if cm.controlling_local then grabbed_count cm.input_backend.devices else 0)
  unfolding switch_to_local mark_emergency_release switch_to_local_internal
  switch_to_local-IsFreed r cm = elim (Bool-cases cm.controlling_local) [
    | inl e ↦ subst₂ IsFreed (sym (if-true _ _ _ e)) (sym (if-true _ _ _ e)) (e, refl, refl)
    | inr e ↦
        let marked = mark_emergency_release (capture_platform E now S send) now cm in
        let (l, t, b) =
          switch_to_local_internal_backend (capture_platform E now S send) now marked in
        subst₂ IsFreed (sym (if-false _ _ _ e)) (sym (if-false _ _ _ e)) (
          l,
          t,
          ap (λ (a : AllDevicesCapture E). grabbed_count a.devices) b
              ∙ (clear_target_releases r now _).2,
        )
  ]

  -- Where the devices can be released, an emergency release always ends with local control, starts
  -- the cooldown and restarts the timeout. If a client had control, no device is grabbed any more;
  -- if control was local, the backend is not asked, and a device that was grabbed stays so.
  pub trigger_release_frees :
      Releases E
      → (er : EmergencyRelease) (cm : ClientManager (capture_platform E now S send))
      → let (er', cm') = trigger_release (capture_platform E now S send) now (er, cm) in
        (cm'.controlling_local ≡ true)
        × (cm'.emergency_release_time ≡ some now)
        × (er'.last_activity ≡ now)
        × (grabbed_count cm'.input_backend.devices
            ≡ (if cm.controlling_local then grabbed_count cm.input_backend.devices else 0))
  unfolding trigger_release update_activity
  trigger_release_frees r er cm = let (l, t, g) = switch_to_local-IsFreed r cm in (l, t, refl, g)
