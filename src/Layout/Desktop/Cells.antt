-- ===== src/Layout/Desktop/Cells.antt =====
-- crates/smkvm-layout/src/model.rs: what the cells of a desktop are.
use smkvm.Base.{
  true, false, ◌||◌, ◌≡◌, refl, Option-cases, Bool-cases, inl, inr, some, List, [], ◌∷◌, arith,
}
use smkvm.Base.Equality.{nat_eq, string_eq, pair_eq}
use smkvm.Base.Lists.{All, All-append}
use smkvm.Base.Members.{Member, All_Members}
use smkvm.Base.Maps
use smkvm.Layout.Model.{Monitor, Device, Cell, Key, Rect, Layout}
use smkvm.Layout.Geometry.{is_empty}
use smkvm.Layout.Desktop.{cells_of, cells_in, cells}

-- A cell is a monitor of a machine that is here, with its place, and neither is empty.
abbrev pub IsShown : List (Key × Rect) → List Device → Cell → Type 0
IsShown places ds c =
    (d : Device) × (m : Monitor) × Member d ds
    × (d.online ≡ true)
    × Member m d.monitors
    × (c.device ≡ d.id)
    × (c.monitor ≡ m.id)
    × (c.local ≡ m.local)
    × (Maps.get (d.id, m.id) places ≡ some c.global)
    × (is_empty c.global ≡ false)
    × (is_empty c.local ≡ false)

cells_of-IsShown :
    (places : List (Key × Rect)) (ds : List Device) (d : Device) (ms : List Monitor)
    → Member d ds
    → d.online ≡ true
    → All (λ m. Member m d.monitors) ms
    → All (IsShown places ds) (cells_of places d.id ms)
unfolding cells_of
cells_of-IsShown places ds d [] i on a = tt
cells_of-IsShown places ds d (m ∷ ms) i on a =
    let rest = cells_of-IsShown places ds d ms i on a.1 in
    elim (Option-cases (Maps.get (d.id, m.id) places)) [
      | inl e ↦ rw (e, cells_of) rest
      | inr (g, e) ↦ elim (Bool-cases (is_empty g || is_empty m.local)) [
        | inl b ↦ rw (e, cells_of, b) rest
        | inr b ↦
            rw (e, cells_of, b)
              ((d, m, i, on, a.0, refl, refl, refl, e, ground arith, ground arith), rest)
      ]
    ]

cells_in-IsShown :
    (places : List (Key × Rect)) (all ds : List Device)
    → All (λ d. Member d all) ds
    → All (IsShown places all) (cells_in places ds)
unfolding cells_in
cells_in-IsShown places all [] a = tt
cells_in-IsShown places all (d ∷ ds) a =
    let rest = cells_in-IsShown places all ds a.1 in
    elim (Bool-cases d.online) [
      | inl e ↦ rw e (
          All-append (IsShown places all) (cells_of places d.id d.monitors) (cells_in places ds)
            (cells_of-IsShown places all d d.monitors a.0 e (All_Members d.monitors)) rest)
      | inr e ↦ rw e rest
    ]

-- Every cell is a monitor of a machine that is online, where it was placed, and has room.
pub cells-IsShown : (l : Layout) → All (IsShown l.placements l.devices) (cells l)
unfolding cells
cells-IsShown l = cells_in-IsShown l.placements l.devices l.devices (All_Members l.devices)
