-- ===== src/Layout/Tests.antt =====
-- Runs of the layout on two screens side by side, and instances of its theorems.
use smkvm.Base.{true, false, ◌≡◌, ◌≢◌, ◌↔◌, ◌&&◌, if◌then◌else◌, refl, none, some, [], ◌∷◌, arith}
use smkvm.Base.Int.{pos, ◌+ℤ◌, ◌-ℤ◌}
use mathlib.Core.Option
use smkvm.Base.I32
use smkvm.Base.Lists.{find, any, enumerate, min_by}
use smkvm.Base.Equality.{◌==◌, nat_eq, pair_eq, string_eq}
use smkvm.Base.Maps
use smkvm.Layout.Model.{DeviceId, Key, Point, Rect, Monitor, clamp, Cell, Layout}
use smkvm.Layout.Geometry.{
  contains, clamp_point, map_point, offset, segment_exit, consider, consider_x, consider_y,
  perp_span, is_horizontal,
}
use smkvm.Layout.Geometry.Points.{
  IsSane, Within, contains_iff, contains-clamp_point, contains-map_point, map_point_back,
}
use smkvm.Layout.Desktop.{
  placement, report_monitors, modify, reconcile, reconcile_one, cells, cells_in, cells_of, device,
  unplaced, unplaced_in, auto_place,
}
use smkvm.Layout.Desktop.Places.{HasDistinctIds, IsPlaced, unplaced-auto_place}
use smkvm.Layout.Desktop.Reports.{reported, was_resized, report_monitors_effect}
use smkvm.Layout.Desktop.Identities.{change, arrange, change-HasDistinctIds}
use smkvm.Layout.Resolve.{
  device_of, Motion, finish, locate_in, resolve, off_screen, through_edge, current, settle, slide,
  entry_point, entry_at, beyond_cells, is_beyond, is_beyond_rect, aligned_cell, perp_dist,
  along_gap,
}
use smkvm.Layout.Resolve.Lands.{Lands, HasSaneCells, resolve-Lands}
use smkvm.Layout.Resolve.Back.{resolve_back}
use smkvm.Layout.Rational.{fractions}

abbrev pub screen : Rect
screen = record { x = pos 0; y = pos 0; w = pos 100; h = pos 80 }

abbrev pub beside : Rect
beside = record { x = pos 100; y = pos 0; w = pos 100; h = pos 80 }

abbrev pub whole : Monitor
whole = record { id = "DP-1"; local = screen; scale = 0; primary = true; label = none }

abbrev second : Monitor
second = record { id = "DP-2"; local = beside; scale = 0; primary = false; label = none }

-- The server's machine and another one to its right.
abbrev desk : Layout
desk = record {
  edge_overflow = clamp;
  devices =
      record { id = 1; name = "desk"; monitors = whole ∷ []; online = true }
      ∷ record { id = 2; name = "laptop"; monitors = whole ∷ []; online = true }
      ∷ [];
  placements = ((1, "DP-1"), screen) ∷ ((2, "DP-1"), beside) ∷ [];
  reserved = [];
}

abbrev at : Point
at = record { x = pos 99; y = pos 5 }

abbrev entered : Point
entered = record { x = pos 102; y = pos 5 }

desk-cells :
    cells desk
    ≡ record { device = 1; monitor = "DP-1"; global = screen; local = screen }
      ∷ record { device = 2; monitor = "DP-1"; global = beside; local = screen }
      ∷ []
unfolding cells cells_in cells_of Maps.get
desk-cells = refl

-- A step to the right leads onto the other machine's screen.
resolve_right :
    resolve fractions at (pos 3) (pos 0) desk
    ≡ some (record {
      global = entered;
      located = record { device = 2; monitor = "DP-1"; local = record { x = pos 2; y = pos 5 } };
      crossed_device = true;
      adjusted = false;
    })
unfolding find resolve offset finish locate_in cells cells_in cells_of Maps.get contains map_point
    clamp_point I32.saturating_add I32.add I32.sub I32.wrap ◌+ℤ◌ ◌-ℤ◌
resolve_right = refl

-- Past the bottom of all screens the pointer stays at the edge.
resolve_down :
    Option.map (λ (m : Motion). m.global) (resolve fractions at (pos 0) (pos 500) desk)
    ≡ some (record { x = pos 99; y = pos 79 })
unfolding find resolve offset finish locate_in cells cells_in cells_of Maps.get contains map_point
    clamp_point I32.saturating_add I32.add I32.sub I32.wrap ◌+ℤ◌ ◌-ℤ◌ off_screen through_edge
    current settle slide entry_point entry_at beyond_cells is_beyond is_beyond_rect aligned_cell
    perp_dist along_gap segment_exit consider consider_x consider_y perp_span is_horizontal
    enumerate min_by
resolve_down = refl

screen-IsSane : IsSane screen
unfolding ◌+ℤ◌
screen-IsSane = ground arith

beside-IsSane : IsSane beside
unfolding ◌+ℤ◌
beside-IsSane = ground arith

contains_iff_example :
    (contains screen at ≡ true)
    ↔ (Within (pos 0) (pos 100) (pos 99) × Within (pos 0) (pos 80) (pos 5))
contains_iff_example = contains_iff screen at screen-IsSane

contains-clamp_point_example : contains screen (clamp_point screen entered) ≡ true
contains-clamp_point_example = contains-clamp_point screen entered screen-IsSane refl

contains-map_point_example : contains screen (map_point fractions beside screen at) ≡ true
contains-map_point_example = contains-map_point fractions beside screen at screen-IsSane refl

map_point_back_example :
    map_point fractions beside screen (map_point fractions screen beside at) ≡ at
unfolding contains I32.add I32.wrap ◌+ℤ◌
map_point_back_example =
    map_point_back fractions screen beside at screen-IsSane beside-IsSane refl refl refl

-- A third screen has come.
abbrev docked : Layout
docked = (report_monitors 2 "laptop" (whole ∷ second ∷ []) desk).0

docked-HasDistinctIds : HasDistinctIds docked.devices
unfolding report_monitors modify device find
docked-HasDistinctIds = ((refl, tt), (tt, tt))

docked-unplaced : unplaced docked ≡ (2, "DP-2") ∷ []
unfolding report_monitors modify device find reconcile reconcile_one unplaced unplaced_in Maps.get
docked-unplaced = refl

unplaced-auto_place_example :
    (unplaced (auto_place docked) ≡ [])
    × ((k : Key) → IsPlaced docked k → IsPlaced (auto_place docked) k)
unplaced-auto_place_example = unplaced-auto_place docked docked-HasDistinctIds

report_monitors_effect_example :
    (device 2 docked ≡ some (reported 2 "laptop" (whole ∷ second ∷ [])))
    × ((j : DeviceId) → (2 == j) ≡ false → device j docked ≡ device j desk)
    × ((k : Key)
        → placement k.0 k.1 docked ≡ (
            if any (λ n. k == (2, n.id) && was_resized 2 n desk) (whole ∷ second ∷ [])
            then none
            else placement k.0 k.1 desk))
report_monitors_effect_example = report_monitors_effect 2 "laptop" (whole ∷ second ∷ []) desk

change-HasDistinctIds_example : HasDistinctIds (change arrange docked).devices
change-HasDistinctIds_example = change-HasDistinctIds arrange docked docked-HasDistinctIds

desk-HasSaneCells : HasSaneCells desk
unfolding cells cells_in cells_of Maps.get ◌+ℤ◌
desk-HasSaneCells = ground arith

desk_lit : cells desk ≢ []
unfolding cells cells_in cells_of Maps.get
desk_lit e = cc

resolve-Lands_example :
    (m : Motion) × (resolve fractions at (pos 3) (pos 0) desk ≡ some m)
    × Lands fractions
        (cells desk)
        (offset at (pos 3) (pos 0))
        (device_of (find (λ c. contains c.global at) (cells desk)))
        m
resolve-Lands_example = resolve-Lands fractions desk desk-HasSaneCells at (pos 3) (pos 0) desk_lit

abbrev desk_cell : Cell
desk_cell = record { device = 1; monitor = "DP-1"; global = screen; local = screen }

desk_found : find (λ c. contains c.global at) (cells desk) ≡ some desk_cell
unfolding find cells cells_in cells_of Maps.get contains I32.add I32.wrap ◌+ℤ◌
desk_found = refl

abbrev crossing : Motion
crossing = record {
  global = entered;
  located = record { device = 2; monitor = "DP-1"; local = record { x = pos 2; y = pos 5 } };
  crossed_device = true;
  adjusted = false;
}

resolve_back_example :
    (n : Motion) × (resolve fractions entered (pos 0 -ℤ pos 3) (pos 0 -ℤ pos 0) desk ≡ some n)
    × (n.global ≡ at)
    × (n.adjusted ≡ false)
    × (n.located.device ≡ 1)
unfolding ◌+ℤ◌
resolve_back_example =
    resolve_back fractions desk at (pos 3) (pos 0) desk_cell crossing desk-HasSaneCells
      (ground arith) (ground arith) desk_found resolve_right refl
