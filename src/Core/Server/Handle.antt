-- ===== src/Core/Server/Handle.antt =====
-- crates/smkvm-core/src/server.rs: keys and buttons, machines coming and going, and `handle`.
use smkvm.Base.{
  ℕ, Bool, true, false, if◌then◌else◌, Option, none, some, is_none, List, [], ◌∷◌, String,
}
use smkvm.Base.Equality.{◌==◌, nat_eq, nat_ord}
use smkvm.Base.Sets
use smkvm.Base.Maps
use smkvm.Layout.Model.{DeviceId, Monitor, Device, Layout}
use smkvm.Layout.Geometry.{Float}
use smkvm.Layout.Hex.{short}
use smkvm.Layout.Desktop.{device, modify, set_online, report_monitors, auto_place}
use smkvm.Proto.Keys.{Key, key_eq, key_ord, MouseButton, button_eq, button_ord, Scroll}
use smkvm.Proto.Msg.{ServerControl}
use smkvm.Core.Server.State.{
  Event, pointer_at, pointer_by, client_up, client_monitors, client_down, client_suspended,
  client_resumed, tick, Action, send, Placement, Settings, ClientHealth, ready, suspended, Pending,
  Server,
}
use smkvm.Core.Server.Placements.{apply_placements, refresh_reserved, set_placements}
use smkvm.Core.Server.Pointer.{pointer_absolute, advance, settle_pending, recall_cursor, resettle}

-- To whoever has the cursor, if that is another machine.
abbrev pub to_active : ServerControl → Server → List Action
to_active msg s = if s.active == s.local then [] else send s.active msg ∷ []

unfoldable pub on_button : MouseButton → Bool → Server → Server × List Action
on_button b down s = (
  record s { buttons = if down then Sets.insert b s.buttons else Sets.remove b s.buttons },
  to_active (ServerControl.button b down) s,
)

unfoldable pub on_wheel : Scroll → Server → Server × List Action
on_wheel w s = (s, to_active (ServerControl.wheel w) s)

unfoldable pub on_key : Key → Bool → Bool → Server → Server × List Action
on_key k down repeat s = (
  record s { keys = if down then Sets.insert k s.keys else Sets.remove k s.keys },
  to_active (ServerControl.key_event k down repeat) s,
)

-- The machine's entry, made if there is none.
abbrev pub introduce : DeviceId → String → Layout → Layout
introduce id name l =
    if is_none (device id l)
    then (report_monitors id name [] l).0
    else record l { devices = modify id (λ d. record d { name = name; online = true }) l.devices }

unfoldable pub on_client_up : DeviceId → String → Server → Server × List Action
unfolding device modify report_monitors
on_client_up id name s = (
  record s { clients = Maps.insert id ready s.clients; layout = introduce id name s.layout },
  send id ServerControl.release_all ∷ [],
)

abbrev pub name_or_short : DeviceId → Option Device → String
name_or_short id none = short id
name_or_short id (some d) = d.name

-- `entry(device).or_insert(Health::Ready)`
abbrev pub or_ready : DeviceId → List (DeviceId × ClientHealth) → List (DeviceId × ClientHealth)
or_ready id cs = if is_none (Maps.get id cs) then Maps.insert id ready cs else cs

-- `client_monitors` up to the place of the cursor.
unfoldable pub take_monitors : DeviceId → List Monitor → Server → Server
unfolding device report_monitors apply_placements auto_place refresh_reserved
take_monitors id monitors s =
    let reported =
      (report_monitors id (name_or_short id (device id s.layout)) monitors s.layout).0 in
    let placed = auto_place (apply_placements id s.placements reported) in
    record (refresh_reserved (record s { layout = placed })) { clients = or_ready id s.clients }

-- `if p.target == device { self.pending = None }`
abbrev pub pending_without : DeviceId → Option Pending → Option Pending
pending_without id none = none
pending_without id (some p) = if p.target == id then none else some p

module _ (f : Float) where
  unfoldable pub on_client_monitors : DeviceId → List Monitor → Server → Server × List Action
  unfolding take_monitors resettle
  on_client_monitors id monitors s = resettle f (take_monitors id monitors s)

  -- The cursor comes back from a machine that has it.
  unfoldable pub recall_from : DeviceId → Server → Server × List Action
  unfolding recall_cursor
  recall_from id s = if s.active == id then recall_cursor f s else (s, [])

  unfoldable pub drop_client : DeviceId → Server → Server
  unfolding set_online refresh_reserved
  drop_client id s =
      let gone : Server = record s {
        clients = Maps.remove id s.clients;
        layout = set_online id false s.layout;
      } in
      record (refresh_reserved gone) { pending = pending_without id s.pending }

  unfoldable pub on_client_down : DeviceId → Server → Server × List Action
  unfolding recall_from drop_client
  on_client_down id s = recall_from id (drop_client id s)

  abbrev pub suspended_client : DeviceId → Server → Server
  suspended_client id s = record s {
    clients = Maps.insert id suspended s.clients;
    pending = pending_without id s.pending;
  }

  unfoldable pub on_client_suspended : DeviceId → Server → Server × List Action
  unfolding recall_from
  on_client_suspended id s = recall_from id (suspended_client id s)

  unfoldable pub on_client_resumed : DeviceId → Server → Server × List Action
  on_client_resumed id s = (
    if is_none (Maps.get id s.clients)
        then s
        else record s { clients = Maps.insert id ready s.clients },
    [],
  )

  unfoldable pub handle : Event → ℕ → Server → Server × List Action
  unfolding pointer_absolute advance on_button on_wheel on_key on_client_up on_client_monitors
      on_client_down on_client_suspended on_client_resumed settle_pending
  handle (pointer_at x y) now s = (pointer_absolute f x y s, [])
  handle (pointer_by dx dy) now s = advance f dx dy now s
  handle (Event.button b down) now s = on_button b down s
  handle (Event.wheel w) now s = on_wheel w s
  handle (Event.key k down repeat) now s = on_key k down repeat s
  handle (client_up id name) now s = on_client_up id name s
  handle (client_monitors id monitors) now s = on_client_monitors id monitors s
  handle (client_down id) now s = on_client_down id s
  handle (client_suspended id reason) now s = on_client_suspended id s
  handle (client_resumed id) now s = on_client_resumed id s
  handle tick now s = settle_pending f now s

  -- What is set before the arrangement is applied.
  abbrev pub with_settings : Settings → Server → Server
  with_settings settings s = record s {
    settings = settings;
    layout = record (s.layout) { edge_overflow = settings.edge_overflow };
    pending = none;
    last_tap = none;
  }

  -- Take a changed configuration into use.
  unfoldable pub reconfigure : List Placement → Settings → Server → Server × List Action
  unfolding set_placements resettle
  reconfigure ps settings s = resettle f (set_placements ps (with_settings settings s))
