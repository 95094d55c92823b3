-- ===== src/Layout/Resolve.antt =====
-- crates/smkvm-layout/src/resolve.rs: from a motion of the pointer to a place on the desktop.
pub mod Lands
pub mod Back
use smkvm.Base.{
  ℕ, Bool, true, false, not, ◌&&◌, ◌||◌, eqb, if◌then◌else◌, Option, none, some, List, [], ◌∷◌, map,
}
use smkvm.Base.Equality.{◌==◌, nat_eq}
use smkvm.Base.Int.{ℤ, pos, int_eq, lt_ℤ, le_ℤ}
use smkvm.Base.I32
use smkvm.Base.Lists.{retain, any, find, enumerate, min_by}
use smkvm.Layout.Model.{DeviceId, Point, Rect, EdgeOverflow, clamp, block, Cell, Located, Layout}
use smkvm.Layout.Geometry.{
  Float, dist2, segment_exit, map_point, Dir, left, right, up, down, is_horizontal, contains,
  clamp_point, offset, perp_span, right_of, bottom_of, point_eq, Exit,
}
use smkvm.Layout.Desktop.{cells}

pub record Motion : Type 0 where
  pub global : Point
  pub located : Located
  pub crossed_device : Bool
  pub adjusted : Bool

-- How far `coord` sits outside a half-open span.
unfoldable pub perp_dist : ℤ × ℤ → ℤ → ℤ
perp_dist (start, end) coord =
    if lt_ℤ coord start
    then I32.sub start coord
    else if le_ℤ end coord
    then I32.sub coord (I32.sub end (pos 1))
    else pos 0

unfoldable pub is_beyond_rect : Rect → Rect → Dir → Bool
is_beyond_rect cur other up = le_ℤ (bottom_of other) cur.y
is_beyond_rect cur other down = le_ℤ (bottom_of cur) other.y
is_beyond_rect cur other left = le_ℤ (right_of other) cur.x
is_beyond_rect cur other right = le_ℤ (right_of cur) other.x

unfoldable pub is_beyond : Cell → Cell → Dir → Bool
unfolding is_beyond_rect
is_beyond cur other dir = is_beyond_rect cur.global other.global dir

-- Gap between `cur`'s edge and `other`, along the axis of travel.
unfoldable pub along_gap : Cell → Cell → Dir → ℤ
along_gap cur other up = I32.sub cur.global.y (bottom_of other.global)
along_gap cur other down = I32.sub other.global.y (bottom_of cur.global)
along_gap cur other left = I32.sub cur.global.x (right_of other.global)
along_gap cur other right = I32.sub other.global.x (right_of cur.global)

unfoldable pub entry_at : Cell → ℤ → Dir → Point
entry_at cell coord up = record { x = coord; y = I32.sub (bottom_of cell.global) (pos 1) }
entry_at cell coord down = record { x = coord; y = cell.global.y }
entry_at cell coord left = record { x = I32.sub (right_of cell.global) (pos 1); y = coord }
entry_at cell coord right = record { x = cell.global.x; y = coord }

-- The point at which the cursor enters `cell`.
unfoldable pub entry_point : Cell → ℤ → Dir → Point
unfolding entry_at clamp_point
entry_point cell coord dir = clamp_point cell.global (entry_at cell coord dir)

-- `Option<DeviceId>::is_some_and(|d| d != …)`
abbrev pub is_other : DeviceId → Option DeviceId → Bool
is_other id none = false
is_other id (some d) = not (d == id)

abbrev pub device_of : Option Cell → Option DeviceId
device_of none = none
device_of (some c) = some c.device

-- `beyond`: the cells other than the current one, on the far side of its edge.
unfoldable pub beyond_cells : ℕ × Cell → Dir → List (ℕ × Cell) → List Cell
unfolding is_beyond
beyond_cells cur dir cs =
    map (λ c. c.1) (retain (λ c. not (eqb c.0 cur.0) && is_beyond cur.1 c.1 dir) cs)

abbrev pub off_line : ℤ → Dir → Cell → ℤ
off_line coord dir c = perp_dist (perp_span c.global dir) coord

unfoldable pub aligned_cell : Cell → Dir → ℤ → List Cell → Option Cell
unfolding perp_dist along_gap
aligned_cell cur dir coord beyond =
    min_by (λ a b. lt_ℤ (along_gap cur a dir) (along_gap cur b dir))
      (retain (λ c. off_line coord dir c == pos 0) beyond)

-- The key of `target` is a pair, compared lexicographically.
unfoldable pub target_cell : Cell → Dir → ℤ → List Cell → Option Cell
unfolding perp_dist along_gap
target_cell cur dir coord beyond =
    min_by
      (λ a b.
        lt_ℤ (off_line coord dir a) (off_line coord dir b)
        || (off_line coord dir a == off_line coord dir b
            && lt_ℤ (along_gap cur a dir) (along_gap cur b dir)))
      beyond

unfoldable pub nearest_hole : Cell → Dir → ℤ → List Rect → Option ℤ
unfolding is_beyond_rect perp_dist
nearest_hole cur dir coord reserved = min_by lt_ℤ (
    map (λ r. perp_dist (perp_span r dir) coord)
      (retain (λ r. is_beyond_rect cur.global r dir) reserved))

-- Is the hole nearer than the cell?
abbrev pub is_nearer : Option ℤ → ℤ → Bool
is_nearer none d = false
is_nearer (some hole) d = lt_ℤ hole d

module _ (f : Float) where
  unfoldable pub locate_in : Cell → Point → Located
  locate_in cell p = record {
    device = cell.device;
    monitor = cell.monitor;
    local = map_point f cell.global cell.local p;
  }

  unfoldable pub finish : Cell → Point → Point → Option DeviceId → Motion
  unfolding locate_in
  finish cell global cand origin = record {
    global = global;
    located = locate_in cell global;
    crossed_device = is_other cell.device origin;
    adjusted = not (global == cand);
  }

  unfoldable pub nearest_index : Point → List (ℕ × Cell) → Option (ℕ × Cell)
  nearest_index p = min_by (λ a b. f.lt (dist2 f a.1.global p) (dist2 f b.1.global p))

  unfoldable pub locate : Point → Layout → Option Located
  unfolding locate_in
  locate p l = elim (find (λ c. contains c.global p) (cells l)) [
    | none ↦ none
    | some c ↦ some (locate_in c p)
  ]

  -- Snap a point onto the nearest monitor.
  unfoldable pub snap : Point → Layout → Option (Point × Located)
  unfolding locate_in nearest_index
  snap p l = elim (find (λ c. contains c.global p) (cells l)) [
    | some c ↦ some (p, locate_in c p)
    | none ↦ elim (nearest_index p (enumerate 0 (cells l))) [
      | none ↦ none
      | some c ↦ let q = clamp_point c.1.global p in some (q, locate_in c.1 q)
    ]
  ]

  -- `let p = cur.global.clamp_point(cand); finish(cur, p, cand, origin_device)`
  unfoldable pub settle : Cell → Point → Option DeviceId → Motion
  unfolding finish
  settle cur cand origin = finish cur (clamp_point cur.global cand) cand origin

  -- `EdgeOverflow::Clamp`: onto the closest monitor in this direction, unless a hole is nearer.
  unfoldable pub slide : Cell → Dir → ℤ → Point → Option DeviceId → List Rect → List Cell → Motion
  unfolding settle finish entry_point nearest_hole target_cell
  slide cur dir coord cand origin reserved beyond = elim (target_cell cur dir coord beyond) [
    | none ↦ settle cur cand origin
    | some cell ↦
        let span = perp_span cell.global dir in
        if is_nearer (nearest_hole cur dir coord reserved) (off_line coord dir cell)
        then settle cur cand origin
        else finish cell (entry_point cell (I32.clamp coord span.0 (I32.sub span.1 (pos 1))) dir)
            cand origin
  ]

  -- `resolve` once the edge is known through which the cursor left.
  unfoldable pub through_edge : Cell → Exit → Point → Option DeviceId → List Cell → Layout → Motion
  unfolding finish entry_point aligned_cell settle slide
  through_edge cur exit cand origin beyond l =
      let coord = if is_horizontal exit.dir then exit.at.y else exit.at.x in
      elim (aligned_cell cur exit.dir coord beyond) [
        | some cell ↦ finish cell (entry_point cell coord exit.dir) cand origin
        | none ↦
            if any (λ r. contains r cand) l.reserved
            then settle cur cand origin
            else elim l.edge_overflow [
              | block ↦ settle cur cand origin
              | clamp ↦ slide cur exit.dir coord cand origin l.reserved beyond
            ]
      ]

  -- `resolve` where the new point is on no monitor; `cur` is the current one with its index.
  unfoldable pub off_screen : ℕ × Cell → Point → Point → Option DeviceId → Layout → Motion
  unfolding settle through_edge beyond_cells
  off_screen cur from cand origin l =
      elim (segment_exit f cur.1.global (clamp_point cur.1.global from) cand) [
        | none ↦ settle cur.1 cand origin
        | some exit ↦
            through_edge cur.1 exit cand origin (beyond_cells cur exit.dir (enumerate 0 (cells l)))
              l
      ]

  -- The cell that holds the point, or else the nearest, with its index.
  unfoldable pub current : Point → List (ℕ × Cell) → Option (ℕ × Cell)
  unfolding nearest_index
  current p cs = elim (find (λ c. contains c.1.global p) cs) [
    | some c ↦ some c
    | none ↦ nearest_index p cs
  ]

  -- Advance the cursor from `from` by `(dx, dy)`.
  unfoldable pub resolve : Point → ℤ → ℤ → Layout → Option Motion
  unfolding finish off_screen current
  resolve from dx dy l =
      let cand = offset from dx dy in
      let origin = device_of (find (λ c. contains c.global from) (cells l)) in
      elim (find (λ c. contains c.global cand) (cells l)) [
        | some cell ↦ some (finish cell cand cand origin)
        | none ↦ elim (current from (enumerate 0 (cells l))) [
          | none ↦ none
          | some cur ↦ some (off_screen cur from cand origin l)
        ]
      ]
