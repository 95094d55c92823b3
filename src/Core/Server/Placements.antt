-- ===== src/Core/Server/Placements.antt =====
-- crates/smkvm-core/src/server.rs: the arrangement that the configuration asks for.
use smkvm.Base.{
  Bool, false, not, ◌&&◌, ◌||◌, if◌then◌else◌, Option, none, some, List, [], ◌∷◌, map, String,
}
use smkvm.Base.Equality.{◌==◌, nat_eq, string_eq}
use smkvm.Base.Lists.{find, any, retain}
use smkvm.Layout.Model.{DeviceId, Rect, Monitor, Cell, Layout}
use smkvm.Layout.Desktop.{device, cells, place_rect, set_reserved, auto_place}
use smkvm.Core.Server.State.{Placement, primary, Server}

-- Is the placement's screen among the live cells?
abbrev pub fills : Layout → Placement → Cell → Bool
fills l p c = elim (device c.device l) [
  | none ↦ false
  | some d ↦ d.name == p.machine && (c.monitor == p.monitor || p.monitor == primary)
]

unfoldable pub holes : Layout → List Placement → List Rect
unfolding device cells
holes l ps = map (λ p. p.global) (retain (λ p. not (any (fills l p) (cells l))) ps)

-- Mark the space belonging to screens that are configured but not here.
unfoldable pub refresh_reserved : Server → Server
unfolding set_reserved holes
refresh_reserved s = record s { layout = set_reserved (holes s.layout s.placements) s.layout }

-- The monitor that a placement means.
abbrev pub wanted : Placement → List Monitor → Option Monitor
wanted p ms = find (λ m. m.id == p.monitor || (p.monitor == primary && m.primary)) ms

unfoldable pub apply_one : DeviceId → String → List Monitor → Placement → Layout → Layout
unfolding place_rect
apply_one id name ms p l =
    if not (p.machine == name)
    then l
    else elim (wanted p ms) [ none ↦ l | some m ↦ (place_rect id m.id p.global l).0 ]

unfoldable pub apply_all : DeviceId → String → List Monitor → List Placement → Layout → Layout
unfolding apply_one
apply_all id name ms [] l = l
apply_all id name ms (p ∷ ps) l = apply_all id name ms ps (apply_one id name ms p l)

-- Put this machine's monitors where the configuration says.
unfoldable pub apply_placements : DeviceId → List Placement → Layout → Layout
unfolding apply_all device
apply_placements id ps l = elim (device id l) [
  | none ↦ l
  | some d ↦ apply_all id d.name d.monitors ps l
]

unfoldable pub apply_each : List DeviceId → List Placement → Layout → Layout
unfolding apply_placements
apply_each [] ps l = l
apply_each (id ∷ ids) ps l = apply_each ids ps (apply_placements id ps l)

-- Use the arrangement from the configuration.
unfoldable pub set_placements : List Placement → Server → Server
unfolding apply_each refresh_reserved auto_place
set_placements ps s =
    let l = apply_each (map (λ d. d.id) s.layout.devices) ps s.layout in
    refresh_reserved (record s { placements = ps; layout = auto_place l })
