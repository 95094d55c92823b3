-- ===== src/Layout/Geometry/Points.antt =====
-- crates/smkvm-layout/src/geom.rs: points in rectangles whose edges are within an `i32`.
use smkvm.Base.{◌≤◌, true, false, ◌&&◌, ◌≡◌, ◌↔◌, refl, ap, ◌∙◌, arith}
use smkvm.Base.Equality.{◌==◌}
use smkvm.Base.Int.{
  ℤ, pos, int_eq, lt_ℤ, le_ℤ, ◌+ℤ◌, ◌-ℤ◌, ◌≤ℤ◌, ◌<ℤ◌, pos_part, neg_part, add_parts, sub_parts,
  parts_eq, one_part,
}
use smkvm.Base.I32
use smkvm.Layout.Model.{Point, Rect}
use smkvm.Layout.Geometry.{Float, map_point, map_coord, contains, clamp_point, is_empty}

-- The origin, the extent and the far edges are `i32`s.
abbrev pub SpanFits : ℤ → ℤ → Type 0
SpanFits a w = I32.Fits a × (I32.Fits w × I32.Fits (a +ℤ w))

abbrev pub IsSane : Rect → Type 0
IsSane r = SpanFits r.x r.w × SpanFits r.y r.h

-- In a span `[a, a + w)`.
abbrev pub Within : ℤ → ℤ → ℤ → Type 0
Within a w p = (a ≤ℤ p) × (p <ℤ a +ℤ w)

Within-test :
    (a w p : ℤ) → I32.Fits (a +ℤ w) → ((le_ℤ a p && lt_ℤ p (I32.add a w)) ≡ true) ↔ Within a w p
Within-test a w p h = let e = I32.add_exact a w h in rw e (ground arith)

Within-pos : (a w p : ℤ) → Within a w p → le_ℤ w (pos 0) ≡ false
Within-pos a w p h = let q : pos 0 <ℤ w = omega (arith, add_parts a w) in ground arith

-- The test says what it means: the point is in both spans.
pub contains_iff :
    (r : Rect) (p : Point)
    → IsSane r
    → (contains r p ≡ true) ↔ (Within r.x r.w p.x × Within r.y r.h p.y)
unfolding contains
contains_iff r p s = ground (
  arith,
  Within-test r.x r.w p.x s.0.1.1,
  Within-test r.y r.h p.y s.1.1.1,
  Within-pos r.x r.w p.x,
  Within-pos r.y r.h p.y,
)

-- The last pixel of a span.
last-Fits :
    (a w : ℤ)
    → I32.Fits a
    → I32.Fits (a +ℤ w)
    → le_ℤ w (pos 0) ≡ false
    → I32.sub (I32.add a w) (pos 1) ≡ (a +ℤ w) -ℤ pos 1
last-Fits a w s t h =
    let fit : I32.Fits ((a +ℤ w) -ℤ pos 1) = (lower, upper) in
    rw (I32.add_exact a w t) (I32.sub_exact (a +ℤ w) (pos 1) fit)
  where
    lower : neg_part ((a +ℤ w) -ℤ pos 1) ≤ 2147483648
    lower =
        let q : pos 0 <ℤ w = ground arith in
        omega (
          arith,
          add_parts a w,
          sub_parts (a +ℤ w) (pos 1),
          one_part ((a +ℤ w) -ℤ pos 1),
          one_part a,
        )

    upper : pos_part ((a +ℤ w) -ℤ pos 1) ≤ 2147483647
    upper = omega (arith, sub_parts (a +ℤ w) (pos 1), one_part ((a +ℤ w) -ℤ pos 1))

clamp-Within :
    (a w p : ℤ)
    → I32.Fits a
    → I32.Fits (a +ℤ w)
    → le_ℤ w (pos 0) ≡ false
    → Within a w (I32.clamp p a (I32.sub (I32.add a w) (pos 1)))
clamp-Within a w p s t h =
    let q : pos 0 <ℤ w = ground arith in
    rw (last-Fits a w s t h) (ground (arith, add_parts a w, sub_parts (a +ℤ w) (pos 1)))

clamp_same :
    (a w p : ℤ)
    → I32.Fits a
    → I32.Fits (a +ℤ w)
    → le_ℤ w (pos 0) ≡ false
    → Within a w p
    → I32.clamp p a (I32.sub (I32.add a w) (pos 1)) ≡ p
clamp_same a w p s t h i =
    rw (last-Fits a w s t h) (ground (arith, add_parts a w, sub_parts (a +ℤ w) (pos 1)))

-- Drawn into a rectangle that is not empty, a point lies in it.
pub contains-clamp_point :
    (r : Rect) (p : Point) → IsSane r → is_empty r ≡ false → contains r (clamp_point r p) ≡ true
unfolding clamp_point
contains-clamp_point r p s h = (contains_iff r _ s).1 (
  clamp-Within r.x r.w p.x s.0.0 s.0.1.1 (ground arith),
  clamp-Within r.y r.h p.y s.1.0 s.1.1.1 (ground arith),
)

-- A point that is inside stays where it is.
pub clamp_point_inside :
    (r : Rect) (p : Point) → IsSane r → contains r p ≡ true → clamp_point r p ≡ p
unfolding clamp_point
clamp_point_inside r p s h =
    let i = (contains_iff r p s).0 h in
    ground (
      arith,
      clamp_same r.x r.w p.x s.0.0 s.0.1.1 (Within-pos r.x r.w p.x i.0) i.0,
      clamp_same r.y r.h p.y s.1.0 s.1.1.1 (Within-pos r.y r.h p.y i.1) i.1,
    )

pub contains-not-empty : (r : Rect) (p : Point) → contains r p ≡ true → is_empty r ≡ false
unfolding contains
contains-not-empty r p h = ground arith

-- Whatever the arithmetic of `f64`, a mapped point lies in the target.
pub contains-map_point :
    (f : Float) (src dst : Rect) (p : Point)
    → IsSane dst
    → is_empty dst ≡ false
    → contains dst (map_point f src dst p) ≡ true
unfolding map_point
contains-map_point f src dst p s h =
    contains-clamp_point dst
      (record {
        x = map_coord f src.x src.w dst.x dst.w p.x;
        y = map_coord f src.y src.h dst.y dst.h p.y;
      })
      s h

-- A span of the same width: a translation, within the target.
coord_there :
    (f : Float) (a b w p : ℤ) → SpanFits b w → Within a w p → map_coord f a w b w p ≡ b +ℤ (p -ℤ a)
coord_there f a b w p s i =
    let fit : I32.Fits (p -ℤ a) = near a w p s.1.0 i in
    let there : I32.Fits (b +ℤ (p -ℤ a)) = (low, high) in
    let same : (w == w) ≡ true = (int_eq.same_iff w w).1 refl in
    let e = I32.sub_exact p a fit in rw (same, e) (I32.add_exact b (p -ℤ a) there)
  where
    near : (a w p : ℤ) → I32.Fits w → Within a w p → I32.Fits (p -ℤ a)
    near a w p t i = omega (arith, sub_parts p a, add_parts a w, one_part (p -ℤ a), one_part w)

    low : neg_part (b +ℤ (p -ℤ a)) ≤ 2147483648
    low = omega (
      arith,
      sub_parts p a,
      add_parts a w,
      add_parts b w,
      add_parts b (p -ℤ a),
      one_part (b +ℤ (p -ℤ a)),
      one_part (p -ℤ a),
    )

    high : pos_part (b +ℤ (p -ℤ a)) ≤ 2147483647
    high = omega (
      arith,
      sub_parts p a,
      add_parts a w,
      add_parts b w,
      add_parts b (p -ℤ a),
      one_part (b +ℤ (p -ℤ a)),
      one_part (b +ℤ w),
    )

coord_there-Within :
    (f : Float) (a b w p : ℤ) → SpanFits b w → Within a w p → Within b w (map_coord f a w b w p)
coord_there-Within f a b w p s i =
    rw (coord_there f a b w p s i)
      (omega (arith, sub_parts p a, add_parts a w, add_parts b w, add_parts b (p -ℤ a)))

coord_back :
    (f : Float) (a b w p : ℤ)
    → SpanFits a w
    → SpanFits b w
    → Within a w p
    → map_coord f b w a w (map_coord f a w b w p) ≡ p
coord_back f a b w p s t i =
    let m = map_coord f a w b w p in
    let e = coord_there f b a w m s (coord_there-Within f a b w p t i) in
    e
    ∙ parts_eq (a +ℤ (m -ℤ b)) p (
        omega (
          arith,
          ap pos_part (coord_there f a b w p t i),
          ap neg_part (coord_there f a b w p t i),
          sub_parts p a,
          sub_parts m b,
          add_parts b (p -ℤ a),
          add_parts a (m -ℤ b),
        ))

-- One coordinate of `map_point`.
abbrev axis : Float → ℤ → ℤ → ℤ → ℤ → ℤ → ℤ
axis f a w b v p = I32.clamp (map_coord f a w b v p) b (I32.sub (I32.add b v) (pos 1))

axis_same :
    (f : Float) (a b w p : ℤ)
    → SpanFits b w
    → Within a w p
    → axis f a w b w p ≡ map_coord f a w b w p
axis_same f a b w p s i =
    clamp_same b w (map_coord f a w b w p) s.0 s.1.1 (Within-pos a w p i)
      (coord_there-Within f a b w p s i)

axis_back :
    (f : Float) (a b w v p : ℤ)
    → w ≡ v
    → SpanFits a w
    → SpanFits b v
    → Within a w p
    → axis f b v a w (axis f a w b v p) ≡ p
axis_back f a b w v p e s t i =
    let u : SpanFits b w = rw e t in
    rw (← e) (
      let m = map_coord f a w b w p in
      let back = coord_back f a b w p s u i in
      let there = coord_there-Within f a b w p u i in
      let again = axis_same f b a w m s there in rw (axis_same f a b w p u i) (again ∙ back))

-- Between rectangles of one size the map is exactly reversible.
pub map_point_back :
    (f : Float) (src dst : Rect) (p : Point)
    → IsSane src
    → IsSane dst
    → src.w ≡ dst.w
    → src.h ≡ dst.h
    → contains src p ≡ true
    → map_point f dst src (map_point f src dst p) ≡ p
unfolding map_point
map_point_back f src dst p s t ew eh h =
    let i = (contains_iff src p s).0 h in
    let ex = axis_back f src.x dst.x src.w dst.w p.x ew s.0 t.0 i.0 in
    let ey = axis_back f src.y dst.y src.h dst.h p.y eh s.1 t.1 i.1 in
    λ j. record { x = ex j; y = ey j }
