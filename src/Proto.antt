-- ===== src/Proto.antt =====
-- internal/protocol/events.proto: the messages that server and clients exchange. `V` is the type
-- of the `double` fields; int32 fields are ℤ, uint32 and int64 fields are ℕ.
use waymon.Common.{ℕ, String, Bool, Option, List}
use waymon.Common.Int.{ℤ}

pub record Monitor (V : Type 0) : Type 0 where
  pub name : String
  pub x : ℤ
  pub y : ℤ
  pub width : ℤ
  pub height : ℤ
  pub primary : Bool
  pub scale : V
  pub refresh_rate : ℤ

pub record ClientCapabilities : Type 0 where
  pub can_receive_keyboard : Bool
  pub can_receive_mouse : Bool
  pub can_receive_scroll : Bool
  pub wayland_compositor : String
  pub uinput_version : String

-- A message field is a pointer, which may be nil.
pub record ClientConfig (V : Type 0) : Type 0 where
  pub client_id : String
  pub client_name : String
  pub monitors : List (Monitor V)
  pub capabilities : Option ClientCapabilities

pub data ClientStatus : Type 0 where
  client_idle client_being_controlled client_disconnected : ClientStatus

pub data ControlType : Type 0 where
  switch_to_local switch_to_client request_control release_control : ControlType
  client_list_request client_list_response client_config server_shutdown : ControlType

pub record ControlEvent (V : Type 0) : Type 0 where
  pub type : ControlType
  pub target_id : String
  pub config : Option (ClientConfig V)

-- The `oneof event`; `unset` is the nil interface.
pub data Event (V : Type 0) : Type 0 where
  mouse_move : V → V → Event V
  mouse_button : ℕ → Bool → Event V
  mouse_scroll : V → V → Event V
  keyboard : ℕ → Bool → Event V
  control : ControlEvent V → Event V
  mouse_position : ℤ → ℤ → Event V
  unset : Event V

pub record InputEvent (V : Type 0) : Type 0 where
  pub event : Event V
  pub timestamp : ℕ
  pub source_id : String
