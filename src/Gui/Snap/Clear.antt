-- ===== src/Gui/Snap/Clear.antt =====
-- crates/smkvm-gui/src/snap.rs: a screen that is pulled does not land on another.
use smkvm.Base.{
  ℕ, ◌+◌, ◌≤◌, Bool, true, false, ◌&&◌, ◌≡◌, refl, Bool-cases, inl, inr, List, [], ◌∷◌, map, arith,
}
use smkvm.Base.Int.{
  ℤ, pos, negsuc, one_part, pos_part, neg_part, ◌+ℤ◌, ◌-ℤ◌, ◌≤ℤ◌, lt_ℤ, le_ℤ, add_parts, sub_parts,
}
use smkvm.Base.I32
use smkvm.Base.Lists.{All, All-map, All_both}
use smkvm.Layout.Model.{Point, Rect}
use smkvm.Layout.Geometry.{right_of, bottom_of, overlaps, is_empty}
use smkvm.Layout.Geometry.Points.{IsSane, SpanFits}
use smkvm.Gui.Snap.{Pull, abs, pulls, along, snap, is_clear, at, settle}
use smkvm.Gui.Snap.Pulls.{abs-along, within-along}

-- A span that can be moved by as much as `within` and stay within an `i32`.
abbrev pub HasSlack : ℕ → ℤ → ℤ → Type 0
HasSlack within a w =
    (neg_part (a -ℤ pos within) ≤ 2147483648) × (pos_part ((a +ℤ w) +ℤ pos within) ≤ 2147483647)

le_unless : (a b : ℤ) → lt_ℤ a b ≡ false → b ≤ℤ a
le_unless a b h = ground arith

unless_le : (a b : ℤ) → b ≤ℤ a → lt_ℤ a b ≡ false
unless_le a b h = ground arith

and_left : (x y : Bool) → x ≡ false → (x && y) ≡ false
and_left x y h = ground arith

and_right : (x y : Bool) → y ≡ false → (x && y) ≡ false
and_right x y h = ground arith

and_other : (x y : Bool) → (x && y) ≡ false → x ≡ true → y ≡ false
and_other x y h t = ground arith

Fits-if :
    (a : ℤ)
    → neg_part a ≤ pos_part a + 2147483648
    → pos_part a ≤ neg_part a + 2147483647
    → I32.Fits a
Fits-if (pos n) l h = (omega arith, omega arith)
Fits-if (negsuc n) l h = (omega arith, omega arith)

saturating_exact : (a d : ℤ) → I32.Fits (a +ℤ d) → I32.saturating_add a d ≡ a +ℤ d
unfolding I32.saturating_add
saturating_exact a d h = ground arith

module _ (a w d : ℤ) (within : ℕ) (k : HasSlack within a w) (e : le_ℤ w (pos 0) ≡ false)
    (l : abs d ≤ within) where
  wide : neg_part w + 1 ≤ pos_part w
  wide = ground arith

  moved-Fits : I32.Fits (a +ℤ d)
  moved-Fits =
      let low : neg_part (a -ℤ pos within) ≤ 2147483648 = k.0 in
      let high : pos_part ((a +ℤ w) +ℤ pos within) ≤ 2147483647 = k.1 in
      Fits-if (a +ℤ d) (omega (arith, add_parts a d, sub_parts a (pos within), wide))
        (omega (arith, add_parts a d, add_parts (a +ℤ w) (pos within), add_parts a w, wide))

  moved_end-Fits : I32.Fits ((a +ℤ d) +ℤ w)
  moved_end-Fits =
      let low : neg_part (a -ℤ pos within) ≤ 2147483648 = k.0 in
      let high : pos_part ((a +ℤ w) +ℤ pos within) ≤ 2147483647 = k.1 in
      Fits-if ((a +ℤ d) +ℤ w)
        (omega (arith, add_parts (a +ℤ d) w, add_parts a d, sub_parts a (pos within), wide))
        (omega (
          arith,
          add_parts (a +ℤ d) w,
          add_parts a d,
          add_parts (a +ℤ w) (pos within),
          add_parts a w,
          wide,
        ))

  -- The span moves by exactly the correction.
  moved_start : I32.saturating_add a d ≡ a +ℤ d
  moved_start = saturating_exact a d moved-Fits

  moved_end : I32.add (I32.saturating_add a d) w ≡ (a +ℤ d) +ℤ w
  moved_end = rw moved_start (I32.add_exact (a +ℤ d) w moved_end-Fits)

  -- Moved by no more than the gap, it stays before what it is before.
  stays_before :
      (b : ℤ)
      → (a +ℤ w) ≤ℤ b
      → abs d ≤ abs (b -ℤ (a +ℤ w))
      → I32.add (I32.saturating_add a d) w ≤ℤ b
  stays_before b h g = rw moved_end (
      omega (
        arith,
        add_parts (a +ℤ d) w,
        add_parts a d,
        add_parts a w,
        sub_parts b (a +ℤ w),
        one_part (b -ℤ (a +ℤ w)),
      ))

  stays_after : (b : ℤ) → b ≤ℤ a → abs d ≤ abs (b -ℤ a) → b ≤ℤ I32.saturating_add a d
  stays_after b h g =
      rw moved_start (omega (arith, add_parts a d, sub_parts b a, one_part (b -ℤ a)))

  -- Beside a span, it stays beside it.
  beside_still :
      (oa oend : ℤ)
      → SpanFits a w
      → All (λ (c : ℤ × Pull). abs d ≤ abs (c.0)) (pulls (a, I32.add a w) (oa, oend))
      → (lt_ℤ oa (I32.add a w) && lt_ℤ a oend) ≡ false
      → (lt_ℤ oa (I32.add (I32.saturating_add a d) w) && lt_ℤ (I32.saturating_add a d) oend) ≡ false
  unfolding pulls
  beside_still oa oend s near h =
      let end : I32.add a w ≡ a +ℤ w = I32.add_exact a w s.1.1 in
      let gap : abs d ≤ abs (oa -ℤ (a +ℤ w)) = rw end at near.1.0 in
      let apart = rw end at h in
      elim (Bool-cases (lt_ℤ oa (a +ℤ w))) [
        | inr t ↦
            let before = stays_before oa (le_unless oa (a +ℤ w) t) gap in
            and_left _ _ (unless_le oa (I32.add (I32.saturating_add a d) w) before)
        | inl t ↦
            let after = stays_after oend (le_unless a oend (and_other _ _ apart t)) near.0 in
            and_right _ _ (unless_le (I32.saturating_add a d) oend after)
      ]

All_preimage {ℓ κ ι} :
    {A : Type ℓ} {B : Type κ} (P : B → Type ι) (f : A → B) (xs : List A)
    → All P (map f xs)
    → All (λ x. P (f x)) xs
All_preimage P f [] a = tt
All_preimage P f (x ∷ xs) a = (a.0, All_preimage P f xs a.1)

-- If each other screen that is clear of the one is clear of the other, so are all together.
is_clear_each :
    (p q : Rect) (others : List Rect)
    → All (λ o. overlaps o p ≡ false → overlaps o q ≡ false) others
    → is_clear p others ≡ true
    → is_clear q others ≡ true
unfolding is_clear
is_clear_each p q [] a h = refl
is_clear_each p q (o ∷ os) a h = ground (arith, a.0, is_clear_each p q os a.1)

module _ (r : Rect) (within : ℤ) (s : IsSane r) (roomy : is_empty r ≡ false)
    (kx : HasSlack (pos_part within) r.x r.w) (ky : HasSlack (pos_part within) r.y r.h)
    (small : pos_part within ≤ 2147483647) where
  stays_clear :
      (o : Rect) (dx dy : ℤ)
      → abs dx ≤ pos_part within
      → abs dy ≤ pos_part within
      → All (λ (c : ℤ × Pull). abs dx ≤ abs (c.0)) (pulls (r.x, right_of r) (o.x, right_of o))
      → All (λ (c : ℤ × Pull). abs dy ≤ abs (c.0)) (pulls (r.y, bottom_of r) (o.y, bottom_of o))
      → overlaps o r ≡ false
      → overlaps o (record {
        x = I32.saturating_add r.x dx;
        y = I32.saturating_add r.y dy;
        w = r.w;
        h = r.h;
      })
        ≡ false
  unfolding overlaps
  stays_clear o dx dy lx ly nx ny h = ground (
    arith,
    beside_still r.x r.w dx (pos_part within) kx (ground arith) lx o.x (right_of o) s.0 nx,
    beside_still r.y r.h dy (pos_part within) ky (ground arith) ly o.y (bottom_of o) s.1 ny,
  )

  -- For a screen that has room, whose edges are within an `i32` and stay so if it is moved by the
  -- distance of the pull: the pull never puts it on top of another. If it is clear of the others
  -- where it is dropped, it is clear of them where it snaps to.
  pub snap-is_clear :
      (others : List Rect)
      → is_clear r others ≡ true
      → is_clear (at (snap r others within) r) others ≡ true
  unfolding snap at
  snap-is_clear others h =
      let xs = map (λ (o : Rect). (o.x, right_of o)) others in
      let ys = map (λ (o : Rect). (o.y, bottom_of o)) others in
      let dx = along (r.x, right_of r) xs within in
      let dy = along (r.y, bottom_of r) ys within in
      let nx =
        All_preimage (λ o. All (λ (c : ℤ × Pull). abs dx ≤ abs (c.0)) (pulls (r.x, right_of r) o))
          (λ (o : Rect). (o.x, right_of o)) others (abs-along (r.x, right_of r) xs within small) in
      let ny =
        All_preimage (λ o. All (λ (c : ℤ × Pull). abs dy ≤ abs (c.0)) (pulls (r.y, bottom_of r) o))
          (λ (o : Rect). (o.y, bottom_of o)) others
          (abs-along (r.y, bottom_of r) ys within small) in
      is_clear_each r (at (snap r others within) r) others
        (All-map _ _
          (λ o n.
            stays_clear o dx dy (within-along (r.x, right_of r) xs within small)
              (within-along (r.y, bottom_of r) ys within small) n.0 n.1)
          others (All_both _ _ others nx ny))
        h

  -- For such a screen, which sat clear of the others before: it comes to rest clear of them wherever it
  -- is dropped, and where it is dropped clear of them it rests at the place that it snaps to.
  pub settle-is_clear :
      (others : List Rect) (was : Point)
      → is_clear (at was r) others ≡ true
      → (is_clear (at (settle r others within was) r) others ≡ true)
        × (is_clear r others ≡ true → settle r others within was ≡ snap r others within)
  unfolding settle
  settle-is_clear others was h = (
    elim (Bool-cases (is_clear (at (snap r others within) r) others)) [
      | inl e ↦ rw e e
      | inr e ↦ rw e h
    ],
    (λ c. rw (snap-is_clear others c) refl),
  )
