-- ===== src/Layout/Desktop.antt =====
-- crates/smkvm-layout/src/model.rs: which devices there are, and where their monitors sit.
pub mod Cells
pub mod Places
pub mod Reports
pub mod Identities
use smkvm.Base.{
  ℕ, Bool, true, false, not, ◌&&◌, ◌||◌, if◌then◌else◌, Option, none, some, is_none, List, [], ◌∷◌,
  ◌++◌, map, String,
}
use smkvm.Base.Equality.{◌==◌, nat_eq, string_eq, pair_eq}
use smkvm.Base.Int.{ℤ, pos, int_eq}
use smkvm.Base.I32
use smkvm.Base.Lists.{retain, any, find}
use smkvm.Base.Maps
use smkvm.Layout.Model.{
  DeviceId, Point, Rect, Monitor, Device, EdgeOverflow, clamp, Cell, Reconcile, Key, Layout,
}
use smkvm.Layout.Geometry.{is_empty, right_of, union, overlaps, origin, rect_eq}

-- `Device::new`
unfoldable pub new_device : DeviceId → String → List Monitor → Device
new_device id name monitors = record { id = id; name = name; monitors = monitors; online = false }

unfoldable pub monitor : String → Device → Option Monitor
monitor id d = find (λ m. m.id == id) d.monitors

-- The folds over `union`.
unfoldable pub union_all : Rect → List Rect → Rect
union_all acc [] = acc
union_all acc (r ∷ rs) = union_all (union acc r) rs

abbrev pub no_rect : Rect
no_rect = record { x = pos 0; y = pos 0; w = pos 0; h = pos 0 }

unfoldable pub local_bounds : Device → Rect
unfolding union_all
local_bounds d = union_all no_rect (map (λ m. m.local) d.monitors)

unfoldable pub new : EdgeOverflow → Layout
new overflow = record { edge_overflow = overflow; devices = []; placements = []; reserved = [] }

unfoldable pub set_reserved : List Rect → Layout → Layout
set_reserved rects l = record l { reserved = retain (λ r. not (is_empty r)) rects }

unfoldable pub device : DeviceId → Layout → Option Device
device id l = find (λ d. d.id == id) l.devices

-- A write through `device_mut`: the first device with the id is changed.
unfoldable pub modify : DeviceId → (Device → Device) → List Device → List Device
modify id f [] = []
modify id f (d ∷ ds) = if d.id == id then f d ∷ ds else d ∷ modify id f ds

unfoldable pub set_online : DeviceId → Bool → Layout → Layout
unfolding modify
set_online id online l = record l {
  devices = modify id (λ d. record d { online = online }) l.devices;
}

unfoldable pub placement : DeviceId → String → Layout → Option Rect
placement id m l = Maps.get (id, m) l.placements

-- One monitor of the report, against those that the device had.
unfoldable pub reconcile_one :
    DeviceId
    → List Monitor
    → Monitor
    → List (Key × Rect) × Reconcile
    → List (Key × Rect) × Reconcile
reconcile_one id old m (places, rec) = elim (find (λ o. o.id == m.id) old) [
  | none ↦ (places, record rec { added = rec.added ++ m.id ∷ [] })
  | some prev ↦ if prev.local == m.local then (places, rec) else (
    if prev.local.w == m.local.w && prev.local.h == m.local.h
        then places
        else Maps.remove (id, m.id) places,
    record rec { changed = rec.changed ++ m.id ∷ [] },
  )
]

unfoldable pub reconcile :
    DeviceId
    → List Monitor
    → List Monitor
    → List (Key × Rect) × Reconcile
    → List (Key × Rect) × Reconcile
unfolding reconcile_one
reconcile id old [] r = r
reconcile id old (m ∷ ms) r = reconcile id old ms (reconcile_one id old m r)

abbrev pub gone : List Monitor → List Monitor → List String
gone old new = map (λ o. o.id) (retain (λ o. not (any (λ m. m.id == o.id) new)) old)

-- Record what a device says its monitors are, reporting what changed.
unfoldable pub report_monitors : DeviceId → String → List Monitor → Layout → Layout × Reconcile
unfolding new_device reconcile modify device
report_monitors id name monitors l = elim (device id l) [
  | none ↦ (
    record l { devices = l.devices ++ record (new_device id name monitors) { online = true } ∷ [] },
    record { added = map (λ m. m.id) monitors; removed = []; changed = [] },
  )
  | some d ↦
      let r =
        reconcile id d.monitors monitors
          (l.placements, record { added = []; removed = []; changed = [] }) in
      (
        record l {
          placements = r.0;
          devices =
              modify id (λ d. record d { name = name; monitors = monitors; online = true })
                l.devices;
        },
        record (r.1) { removed = gone d.monitors monitors },
      )
]

-- Forget a device entirely, including its placements.
unfoldable pub remove_device : DeviceId → Layout → Layout
remove_device id l = record l {
  devices = retain (λ d. not (d.id == id)) l.devices;
  placements = retain (λ p. not (p.0.0 == id)) l.placements;
}

-- The monitor of a device, where it has reported it.
unfoldable pub monitor_of : DeviceId → String → Layout → Option Monitor
unfolding device monitor
monitor_of id m l = elim (device id l) [ none ↦ none | some d ↦ monitor m d ]

unfoldable pub place : DeviceId → String → Point → Layout → Layout × Bool
unfolding monitor_of
place id m at l = elim (monitor_of id m l) [
  | none ↦ (l, false)
  | some mon ↦ (
    record l {
      placements =
          Maps.insert (id, m) (record { x = at.x; y = at.y; w = mon.local.w; h = mon.local.h })
            l.placements;
    },
    true,
  )
]

unfoldable pub place_rect : DeviceId → String → Rect → Layout → Layout × Bool
unfolding monitor_of
place_rect id m global l = if is_empty global then (l, false) else elim (monitor_of id m l) [
  | none ↦ (l, false)
  | some mon ↦ (record l { placements = Maps.insert (id, m) global l.placements }, true)
]

unfoldable pub unplace : DeviceId → String → Layout → Layout
unplace id m l = record l { placements = Maps.remove (id, m) l.placements }

-- The monitors of one device that have no spot.
abbrev pub unplaced_of : List (Key × Rect) → Device → List Key
unplaced_of places d =
    retain (λ k. is_none (Maps.get k places)) (map (λ m. (d.id, m.id)) d.monitors)

unfoldable pub unplaced_in : List (Key × Rect) → List Device → List Key
unplaced_in places [] = []
unplaced_in places (d ∷ ds) = unplaced_of places d ++ unplaced_in places ds

-- Every monitor that exists but has not been given a spot.
unfoldable pub unplaced : Layout → List Key
unfolding unplaced_in
unplaced l = unplaced_in l.placements l.devices

-- The cells of one device.
unfoldable pub cells_of : List (Key × Rect) → DeviceId → List Monitor → List Cell
cells_of places id [] = []
cells_of places id (m ∷ ms) =
    let rest = cells_of places id ms in
    elim (Maps.get (id, m.id) places) [
      | none ↦ rest
      | some global ↦
          if is_empty global || is_empty m.local
          then rest
          else record { device = id; monitor = m.id; global = global; local = m.local } ∷ rest
    ]

unfoldable pub cells_in : List (Key × Rect) → List Device → List Cell
unfolding cells_of
cells_in places [] = []
cells_in places (d ∷ ds) =
    (if d.online then cells_of places d.id d.monitors else []) ++ cells_in places ds

-- Monitors that are placed and whose device is online.
unfoldable pub cells : Layout → List Cell
unfolding cells_in
cells l = cells_in l.placements l.devices

-- Bounding box of all placements, online or not.
unfoldable pub bounds : Layout → Rect
unfolding union_all
bounds l = union_all no_rect (map (λ p. p.1) l.placements)

-- The first sibling that is placed: its own rectangle and its place.
unfoldable pub anchor_in : List (Key × Rect) → DeviceId → List Monitor → Option (Rect × Rect)
anchor_in places id [] = none
anchor_in places id (s ∷ ss) =
    let rest = anchor_in places id ss in
    elim (Maps.get (id, s.id) places) [ none ↦ rest | some g ↦ some (s.local, g) ]

-- The sibling's place, shifted as the monitors are to one another.
abbrev pub beside : Monitor → Rect × Rect → Rect
beside mon s = record {
  x = I32.add s.1.x (I32.sub mon.local.x s.0.x);
  y = I32.add s.1.y (I32.sub mon.local.y s.0.y);
  w = mon.local.w;
  h = mon.local.h;
}

abbrev pub clashes : Key → Rect → List (Key × Rect) → Bool
clashes k candidate places = any (λ p. not (p.0 == k) && overlaps p.1 candidate) places

-- To the right of everything placed so far, in the device's own arrangement.
unfoldable pub appended : Device → Monitor → Layout → Point
unfolding bounds local_bounds
appended dev mon l =
    let b = bounds l in
    let base : ℤ = if is_empty b then pos 0 else right_of b in
    record {
      x = I32.add base (I32.sub mon.local.x (local_bounds dev).x);
      y = I32.sub mon.local.y (local_bounds dev).y;
    }

unfoldable pub auto_origin : DeviceId → String → Layout → Point
unfolding device monitor anchor_in appended
auto_origin id m l = elim (device id l) [
  | none ↦ record { x = pos 0; y = pos 0 }
  | some dev ↦ elim (monitor m dev) [
    | none ↦ record { x = pos 0; y = pos 0 }
    | some mon ↦ elim (anchor_in l.placements id dev.monitors) [
      | none ↦ appended dev mon l
      | some s ↦
          if clashes (id, m) (beside mon s) l.placements
          then appended dev mon l
          else origin (beside mon s)
    ]
  ]
]

unfoldable pub auto_place_all : List Key → Layout → Layout
unfolding place auto_origin
auto_place_all [] l = l
auto_place_all (k ∷ ks) l = auto_place_all ks (place k.0 k.1 (auto_origin k.0 k.1 l) l).0

-- Give every unplaced monitor a reasonable spot.
unfoldable pub auto_place : Layout → Layout
unfolding auto_place_all unplaced
auto_place l = auto_place_all (unplaced l) l
