-- ===== src/Manager/Core.antt =====
-- The part of the manager that decides where input goes, and the steps that leave it alone.
use waymon.Common.{ℕ, ◌≡◌, ◌∙◌, String, Bool, false, List, inl, inr, arith, Option-cases}
use waymon.Common.Assoc.{adjust}
use waymon.Proto.{Event, InputEvent, client_being_controlled}
use waymon.Manager.State.{Platform, ClientManager, ConnectedClient, Activity, set_status, notify}
use waymon.Manager.Switch.{announce_control, take_control, send_release}
use waymon.Manager.Route.{track_move, track, log_activity, forward, route}

pub record Core (V : Type 0) : Type 0 where
  pub clients : List (String × ConnectedClient V)
  pub active : String
  pub local : Bool

module _ {P : Platform} where
  abbrev pub core : ClientManager P → Core P.float.Value
  core cm = record {
    clients = cm.clients;
    active = cm.active_client_id;
    local = cm.controlling_local;
  }

module _ (P : Platform) where
  open P use {float, Backend}

  pub core-notify : (a : Activity) (cm : ClientManager P) → core (notify P a cm) ≡ core cm
  unfolding notify
  core-notify a cm = ground arith

  pub core-announce_control :
      (now : ℕ) (id : String) (c : ConnectedClient float.Value) (cm : ClientManager P)
      → core (announce_control P now id c cm) ≡ core cm
  unfolding announce_control
  core-announce_control now id c cm = ground arith

  pub core-send_release :
      (now : ℕ) (c : ConnectedClient float.Value) (cm : ClientManager P)
      → core (send_release P now c cm) ≡ core cm
  unfolding send_release
  core-send_release now c cm = ground arith

  pub core-take_control :
      (now : ℕ) (id : String) (c : ConnectedClient float.Value) (b : Backend) (cm : ClientManager P)
      → core (take_control P now id c b cm) ≡ record {
        clients = adjust id (set_status client_being_controlled) cm.clients;
        active = id;
        local = false;
      }
  unfolding take_control
  core-take_control now id c b cm = simp (core-notify, core-announce_control)

  pub core-log_activity :
      (now : ℕ) (c : ConnectedClient float.Value) (cm : ClientManager P)
      → core (log_activity P now c cm) ≡ core cm
  unfolding log_activity notify
  core-log_activity now c cm = ground arith

  pub core-forward :
      (now : ℕ) (e : InputEvent float.Value) (c : ConnectedClient float.Value)
      (cm : ClientManager P)
      → core (forward P now e c cm) ≡ core cm
  unfolding forward log_activity notify
  core-forward now e c cm = ground arith

  pub core-track :
      (e : Event float.Value) (c : ConnectedClient float.Value) (cm : ClientManager P)
      → core (track P e c cm).0 ≡ core cm
  unfolding track track_move
  core-track e c cm = ground arith

  pub core-route :
      (now : ℕ) (e : InputEvent float.Value) (c : ConnectedClient float.Value)
      (cm : ClientManager P)
      → core (route P now e c cm) ≡ core cm
  unfolding route
  core-route now e c cm = elim (Option-cases (track P e.event c cm).1) [
    | inl dropped ↦ rw (dropped, route) (core-track e.event c cm)
    | inr (e', sent) ↦
        rw (sent, route)
          (core-forward now (record e { event = e' }) c (track P e.event c cm).0
            ∙ core-track e.event c cm)
  ]
