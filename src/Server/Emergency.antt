-- ===== src/Server/Emergency.antt =====
-- internal/server/emergency.go: the emergency release, by a signal, by a file and by a timeout.
-- The handler and the manager that it points to go together. The ticks are those of the three
-- goroutines, which run until `Stop`.
use waymon.Common.{ℕ, ◌-◌, Bool, true, Option, none, some, if◌then◌else◌, ltb}
use waymon.Manager.State.{Platform, ClientManager, Error}
use waymon.Manager.Switch.{switch_to_local}
use waymon.Manager.Clients.{mark_emergency_release}
use waymon.Server.State.{EmergencyRelease, update_activity}

module _ (P : Platform) where
  open P use {set_target}

  -- "Force release at input backend level", where the switch failed.
  abbrev pub force_release : ClientManager P × Option Error → ClientManager P
  force_release (cm, none) = cm
  force_release (cm, some e) = record cm { input_backend = (set_target "" cm.input_backend).0 }

  unfoldable pub trigger_release :
      ℕ → EmergencyRelease × ClientManager P → EmergencyRelease × ClientManager P
  trigger_release now (er, cm) = (
    update_activity P now er,
    force_release (switch_to_local P now (mark_emergency_release P now cm)),
  )

  -- What wakes one of the goroutines: SIGUSR1, the ticks of the activity monitor and of the file
  -- monitor, with whether the file is there, and `Stop`.
  pub data Wake : Type 0 where
    signal activity_tick closing : Wake
    file_tick : Bool → Wake

  -- A turn of `monitorActivity`.
  unfoldable pub monitor_activity :
      ℕ → EmergencyRelease × ClientManager P → EmergencyRelease × ClientManager P
  monitor_activity now (er, cm) =
      if cm.controlling_local
      then (er, cm)
      else if ltb er.activity_timeout (now - er.last_activity)
      then trigger_release now (er, cm)
      else (er, cm)

  abbrev pub handle_wake :
      ℕ → Wake → EmergencyRelease × ClientManager P → EmergencyRelease × ClientManager P
  handle_wake now signal s = trigger_release now s
  handle_wake now activity_tick s = monitor_activity now s
  handle_wake now (file_tick found) s = if found then trigger_release now s else s
  handle_wake now closing (er, cm) = (record er { stopped = true }, cm)

  -- Nothing wakes a goroutine that has returned.
  unfoldable pub wake :
      ℕ → Wake → EmergencyRelease × ClientManager P → EmergencyRelease × ClientManager P
  unfolding trigger_release monitor_activity
  wake now w s = if s.0.stopped then s else handle_wake now w s
