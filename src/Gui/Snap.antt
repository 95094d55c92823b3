-- ===== src/Gui/Snap.antt =====
-- crates/smkvm-gui/src/snap.rs: where a dragged screen comes to rest. An `i64` here is the difference of
-- two `i32`, which no width limits.
pub mod Pulls
pub mod Clear
use smkvm.Base.{
  ℕ, ◌+◌, Bool, true, false, not, ◌&&◌, ◌||◌, leb, ltb, eqb, if◌then◌else◌, Option, none, some,
  List, [], ◌∷◌, map,
}
use smkvm.Base.Int.{ℤ, pos, pos_part, neg_part, ◌-ℤ◌}
use smkvm.Base.I32
use smkvm.Base.Lists.{any}
use smkvm.Layout.Model.{Point, Rect}
use smkvm.Layout.Geometry.{right_of, bottom_of, overlaps}

-- A seam comes before an edge that only looks tidy.
pub data Pull : Type 0 where
  seam aligned : Pull

unfoldable pub comes_before : Pull → Pull → Bool
comes_before seam aligned = true
comes_before _ _ = false

-- `i64::abs`
abbrev pub abs : ℤ → ℕ
abs a = pos_part a + neg_part a

-- The best correction so far: how far it is, its kind, and the correction.
abbrev pub Best : Type 0
Best = Option (ℕ × Pull × ℤ)

-- Is there none, or is the new one nearer, or as near and of the better kind?
unfoldable pub is_better : ℕ → Pull → Best → Bool
unfolding comes_before
is_better off pull none = true
is_better off pull (some (was_off, was_pull, was_delta)) =
    ltb off was_off || (eqb off was_off && comes_before pull was_pull)

unfoldable pub try_pull : ℕ → ℤ × Pull → Best → Best
unfolding is_better
try_pull within (delta, pull) best =
    if ltb within (abs delta)
    then best
    else if is_better (abs delta) pull best
    then some (abs delta, pull, delta)
    else best

unfoldable pub try_all : ℕ → List (ℤ × Pull) → Best → Best
unfolding try_pull
try_all within [] best = best
try_all within (c ∷ cs) best = try_all within cs (try_pull within c best)

-- The four ways to line a span up with another.
unfoldable pub pulls : ℤ × ℤ → ℤ × ℤ → List (ℤ × Pull)
unfolding ◌-ℤ◌
pulls (lo, hi) (olo, ohi) =
    (ohi -ℤ lo, seam) ∷ (olo -ℤ hi, seam) ∷ (olo -ℤ lo, aligned) ∷ (ohi -ℤ hi, aligned) ∷ []

unfoldable pub best_of : ℤ × ℤ → List (ℤ × ℤ) → ℕ → Best → Best
unfolding try_all pulls
best_of span [] within best = best
best_of span (o ∷ os) within best = best_of span os within (try_all within (pulls span o) best)

abbrev pub chosen : Best → ℤ
chosen none = pos 0
chosen (some (off, pull, delta)) = I32.wrap delta

-- The best correction along one axis, comparing a span against every other.
unfoldable pub along : ℤ × ℤ → List (ℤ × ℤ) → ℤ → ℤ
unfolding best_of
along span others within = chosen (best_of span others (pos_part within) none)

-- Pull `dragged` onto the edges of everything around it.
unfoldable pub snap : Rect → List Rect → ℤ → Point
unfolding along
snap dragged others within = record {
  x =
      I32.saturating_add dragged.x
        (along (dragged.x, right_of dragged) (map (λ o. (o.x, right_of o)) others) within);
  y =
      I32.saturating_add dragged.y
        (along (dragged.y, bottom_of dragged) (map (λ o. (o.y, bottom_of o)) others) within);
}

-- Whether a screen placed here would sit on top of another.
unfoldable pub is_clear : Rect → List Rect → Bool
is_clear placed others = not (any (λ o. overlaps o placed) others)

-- The screen moved to a different origin, keeping its size.
unfoldable pub at : Point → Rect → Rect
at origin screen = record { x = origin.x; y = origin.y; w = screen.w; h = screen.h }

-- Where a dragged screen comes to rest.
unfoldable pub settle : Rect → List Rect → ℤ → Point → Point
unfolding snap at is_clear
settle dragged others within was =
    let snapped = snap dragged others within in
    if is_clear (at snapped dragged) others then snapped else was
