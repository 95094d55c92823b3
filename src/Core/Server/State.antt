-- ===== src/Core/Server/State.antt =====
-- crates/smkvm-core/src/server.rs: the server's events, actions and state. A `Duration` and an `Instant`
-- are numbers of one unit, and `duration_since` is 0 for a later moment, as `-` is.
use smkvm.Base.{
  ℕ, Bool, true, false, ◌||◌, if◌then◌else◌, Option, none, some, is_none, List, [], String,
}
use smkvm.Base.Equality.{◌==◌, nat_eq}
use smkvm.Base.Int.{ℤ, pos}
use smkvm.Base.I32
use smkvm.Base.Lists.{find}
use smkvm.Base.Maps
use smkvm.Layout.Model.{DeviceId, Point, Rect, Monitor, EdgeOverflow, Cell, Layout}
use smkvm.Layout.Geometry.{origin}
use smkvm.Layout.Desktop.{device, report_monitors, set_online, cells}
use smkvm.Proto.Keys.{Key, MouseButton, Scroll}
use smkvm.Proto.Msg.{ServerControl, SuspendReason}

-- While the cursor is here, input is let through; else it is swallowed.
pub data PointerMode : Type 0 where
  local captured : PointerMode

pub data Event : Type 0 where
  pointer_at pointer_by : ℤ → ℤ → Event
  button : MouseButton → Bool → Event
  wheel : Scroll → Event
  key : Key → Bool → Bool → Event
  client_up : DeviceId → String → Event
  client_monitors : DeviceId → List Monitor → Event
  client_down : DeviceId → Event
  client_suspended : DeviceId → SuspendReason → Event
  client_resumed : DeviceId → Event
  tick : Event

pub data LocalAction : Type 0 where
  set_pointer_mode : PointerMode → LocalAction
  warp_cursor : ℤ → ℤ → LocalAction
  release_all : LocalAction

pub data Action : Type 0 where
  send : DeviceId → ServerControl → Action
  here : LocalAction → Action

-- Where the configuration says a monitor belongs.
pub record Placement : Type 0 where
  pub machine : String
  pub monitor : String
  pub global : Rect

abbrev pub primary : String
primary = "primary"

pub record Settings : Type 0 where
  pub switch_delay : ℕ
  pub switch_double_tap : ℕ
  pub edge_overflow : EdgeOverflow

pub data ClientHealth : Type 0 where
  ready suspended : ClientHealth

-- A pointer pressed against an edge that it has not yet been allowed through.
pub record Pending : Type 0 where
  pub target : DeviceId
  pub since : ℕ
  pub at : Point

pub record Server : Type 0 where
  pub local : DeviceId
  pub layout : Layout
  pub settings : Settings
  pub cursor : Point
  pub active : DeviceId
  pub mode : PointerMode
  pub clients : List (DeviceId × ClientHealth)
  pub keys : List Key
  pub buttons : List MouseButton
  pub pending : Option Pending
  pub last_tap : Option (ℕ × DeviceId)
  pub placements : List Placement
  pub moves : ℕ
  pub reach : (ℤ × ℤ) × (ℤ × ℤ)

abbrev pub known_layout : DeviceId → String → EdgeOverflow → Layout → Layout
known_layout id name overflow l =
    let known = if is_none (device id l) then (report_monitors id name [] l).0 else l in
    set_online id true (record known { edge_overflow = overflow })

abbrev pub origin_of : Option Cell → Point
origin_of none = record { x = pos 0; y = pos 0 }
origin_of (some c) = origin c.global

-- `Server::new`: the machine's own entry is seeded.
unfoldable pub new : DeviceId → String → Layout → Settings → Server
unfolding report_monitors device set_online cells
new id name l settings =
    let layout = known_layout id name settings.edge_overflow l in
    record {
      local = id;
      layout = layout;
      settings = settings;
      cursor = origin_of (find (λ c. c.device == id) (cells layout));
      active = id;
      mode = local;
      clients = [];
      keys = [];
      buttons = [];
      pending = none;
      last_tap = none;
      placements = [];
      moves = 0;
      reach = ((I32.max_value, I32.max_value), (I32.min_value, I32.min_value));
    }

abbrev pub is_ready : Option ClientHealth → Bool
is_ready (some ready) = true
is_ready _ = false

-- May the cursor go to this machine?
unfoldable pub is_usable : DeviceId → Server → Bool
is_usable id s = id == s.local || is_ready (Maps.get id s.clients)

unfoldable pub client_health : DeviceId → Server → Option ClientHealth
client_health id s = Maps.get id s.clients
