-- ===== src/Layout/Geometry.antt =====
-- crates/smkvm-layout/src/geom.rs: half-open rectangles of `i32`. The `f64` that distances, exits and
-- scaled maps go through is a parameter: a type with the operations that the code uses.
pub mod Points
use smkvm.Base.{
  ℕ, Bool, true, false, not, ◌&&◌, ◌||◌, ◌≡◌, ◌↔◌, if◌then◌else◌, Option, none, some, arith,
}
use smkvm.Base.Equality.{PartialEq, ◌==◌}
use smkvm.Base.Int.{ℤ, pos, int_eq, lt_ℤ, le_ℤ}
use smkvm.Base.I32
use smkvm.Layout.Model.{Point, Rect}

abbrev point_beq : Point → Point → Bool
point_beq p q = p.x == q.x && p.y == q.y

pub point_beq_iff : (p q : Point) → (point_beq p q ≡ true) ↔ (p ≡ q)
point_beq_iff p q = ground (arith, int_eq.same_iff p.x q.x, int_eq.same_iff p.y q.y)

abbrev rect_beq : Rect → Rect → Bool
rect_beq p q = p.x == q.x && p.y == q.y && p.w == q.w && p.h == q.h

pub rect_beq_iff : (p q : Rect) → (rect_beq p q ≡ true) ↔ (p ≡ q)
rect_beq_iff p q = ground (
  arith,
  int_eq.same_iff p.x q.x,
  int_eq.same_iff p.y q.y,
  int_eq.same_iff p.w q.w,
  int_eq.same_iff p.h q.h,
)

instance abbrev pub rect_eq : PartialEq Rect
rect_eq = record { same = rect_beq; same_iff = rect_beq_iff }

instance abbrev pub point_eq : PartialEq Point
point_eq = record { same = point_beq; same_iff = point_beq_iff }

unfoldable pub offset : Point → ℤ → ℤ → Point
offset p dx dy = record { x = I32.saturating_add p.x dx; y = I32.saturating_add p.y dy }

pub data Dir : Type 0 where
  left right up down : Dir

unfoldable pub is_horizontal : Dir → Bool
is_horizontal left = true
is_horizontal right = true
is_horizontal up = false
is_horizontal down = false

unfoldable pub opposite : Dir → Dir
opposite left = right
opposite right = left
opposite up = down
opposite down = up

-- One past the rightmost pixel, and one past the bottommost.
abbrev pub right_of : Rect → ℤ
right_of r = I32.add r.x r.w

abbrev pub bottom_of : Rect → ℤ
bottom_of r = I32.add r.y r.h

abbrev pub is_empty : Rect → Bool
is_empty r = le_ℤ r.w (pos 0) || le_ℤ r.h (pos 0)

abbrev pub origin : Rect → Point
origin r = record { x = r.x; y = r.y }

-- `p.x >= self.left()` and so on.
unfoldable pub contains : Rect → Point → Bool
contains r p =
    not (is_empty r)
    && le_ℤ r.x p.x
    && lt_ℤ p.x (right_of r)
    && le_ℤ r.y p.y
    && lt_ℤ p.y (bottom_of r)

unfoldable pub clamp_point : Rect → Point → Point
clamp_point r p = record {
  x = I32.clamp p.x r.x (I32.sub (right_of r) (pos 1));
  y = I32.clamp p.y r.y (I32.sub (bottom_of r) (pos 1));
}

unfoldable pub perp_span : Rect → Dir → ℤ × ℤ
unfolding is_horizontal
perp_span r dir = if is_horizontal dir then (r.y, bottom_of r) else (r.x, right_of r)

unfoldable pub along_span : Rect → Dir → ℤ × ℤ
unfolding is_horizontal
along_span r dir = if is_horizontal dir then (r.x, right_of r) else (r.y, bottom_of r)

-- Smallest rect covering both.
unfoldable pub union : Rect → Rect → Rect
union a b =
    let x = I32.min a.x b.x in
    let y = I32.min a.y b.y in
    if is_empty a then b else if is_empty b then a else record {
      x = x;
      y = y;
      w = I32.sub (I32.max (right_of a) (right_of b)) x;
      h = I32.sub (I32.max (bottom_of a) (bottom_of b)) y;
    }

unfoldable pub overlaps : Rect → Rect → Bool
overlaps a b =
    not (is_empty a)
    && not (is_empty b)
    && lt_ℤ a.x (right_of b)
    && lt_ℤ b.x (right_of a)
    && lt_ℤ a.y (bottom_of b)
    && lt_ℤ b.y (bottom_of a)

-- What the code does with an `f64`. `floor` and `round` end in `as i32`.
pub record Float : Type 1 where
  pub F : Type 0
  pub from_i32 : ℤ → F
  pub add : F → F → F
  pub sub : F → F → F
  pub mul : F → F → F
  pub div : F → F → F
  pub abs : F → F
  pub lt : F → F → Bool
  pub le : F → F → Bool
  pub eq : F → F → Bool
  pub is_finite : F → Bool
  pub floor : F → ℤ
  pub round : F → ℤ

pub record Exit : Type 0 where
  pub at : Point
  pub dir : Dir

module _ (f : Float) where
  abbrev pub zero : f.F
  zero = f.from_i32 (pos 0)

  abbrev pub one : f.F
  one = f.from_i32 (pos 1)

  -- How far `p` is outside a span, one coordinate of `dist2`.
  abbrev pub outside : ℤ → ℤ → ℤ → f.F
  outside lo hi p =
      if lt_ℤ p lo
      then f.from_i32 (I32.sub lo p)
      else if le_ℤ hi p
      then f.from_i32 (I32.sub p (I32.sub hi (pos 1)))
      else zero

  unfoldable pub dist2 : Rect → Point → f.F
  dist2 r p =
      let dx = outside r.x (right_of r) p.x in
      let dy = outside r.y (bottom_of r) p.y in f.add (f.mul dx dx) (f.mul dy dy)

  -- The closure `consider`, with `best` passed on; `dx` and `dy` are the travel.
  unfoldable pub consider : f.F → f.F → f.F → Dir → f.F → Option (f.F × Dir) → Option (f.F × Dir)
  consider dx dy t dir travel best =
      if not (f.le zero t && f.le t one) || not (f.is_finite t) then best else elim best [
        | none ↦ some (t, dir)
        | some (bt, bdir) ↦
            if f.lt t bt
              || (f.eq t bt && f.lt (if is_horizontal bdir then f.abs dx else f.abs dy) travel)
            then some (t, dir)
            else some (bt, bdir)
      ]

  -- The tests of the horizontal edges, and then of the vertical ones.
  unfoldable pub consider_x : Rect → Point → f.F → f.F → Option (f.F × Dir) → Option (f.F × Dir)
  unfolding consider
  consider_x r from dx dy best =
      if f.lt dx zero
      then consider dx dy (f.div (f.sub (f.from_i32 r.x) (f.from_i32 from.x)) dx) left (f.abs dx)
          best
      else if f.lt zero dx
      then consider dx dy
          (f.div (f.sub (f.from_i32 (I32.sub (right_of r) (pos 1))) (f.from_i32 from.x)) dx) right
          (f.abs dx) best
      else best

  unfoldable pub consider_y : Rect → Point → f.F → f.F → Option (f.F × Dir) → Option (f.F × Dir)
  unfolding consider
  consider_y r from dx dy best =
      if f.lt dy zero
      then consider dx dy (f.div (f.sub (f.from_i32 r.y) (f.from_i32 from.y)) dy) up (f.abs dy) best
      else if f.lt zero dy
      then consider dx dy
          (f.div (f.sub (f.from_i32 (I32.sub (bottom_of r) (pos 1))) (f.from_i32 from.y)) dy) down
          (f.abs dy) best
      else best

  -- The point at `t` of the way, drawn into the rectangle.
  abbrev pub exit_at : Rect → Point → f.F → f.F → f.F × Dir → Exit
  exit_at r from dx dy b = record {
    at = clamp_point r (record {
      x = f.round (f.add (f.from_i32 from.x) (f.mul dx b.0));
      y = f.round (f.add (f.from_i32 from.y) (f.mul dy b.0));
    });
    dir = b.1;
  }

  -- Find where the segment `from -> to` leaves `rect`.
  unfoldable pub segment_exit : Rect → Point → Point → Option Exit
  unfolding consider_x consider_y
  segment_exit r from to =
      let dx = f.from_i32 (I32.sub to.x from.x) in
      let dy = f.from_i32 (I32.sub to.y from.y) in
      if is_empty r || contains r to
      then none
      else if f.eq dx zero && f.eq dy zero
      then none
      else elim (consider_y r from dx dy (consider_x r from dx dy none)) [
        | none ↦ none
        | some b ↦ some (exit_at r from dx dy b)
      ]

  -- One coordinate of `map_point`, before the clamp.
  abbrev pub map_coord : ℤ → ℤ → ℤ → ℤ → ℤ → ℤ
  map_coord src sw dst dw p =
      if sw == dw
      then I32.add dst (I32.sub p src)
      else I32.add dst
          (f.floor (f.mul (f.div (f.from_i32 (I32.sub p src)) (f.from_i32 sw)) (f.from_i32 dw)))

  -- Map a point from one rect's coordinate space into another's.
  unfoldable pub map_point : Rect → Rect → Point → Point
  unfolding clamp_point
  map_point src dst p = clamp_point dst (record {
    x = map_coord src.x src.w dst.x dst.w p.x;
    y = map_coord src.y src.h dst.y dst.h p.y;
  })
