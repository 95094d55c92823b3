-- ===== src/Gui/Snap/Pulls.antt =====
-- crates/smkvm-gui/src/snap.rs: the correction along an axis is the least of those that there are.
use smkvm.Base.{
  ℕ, suc, ◌≤◌, ltb, leb, ◌≡◌, refl, Bool-cases, inl, inr, none, some, List, [], ◌∷◌, arith,
}
use smkvm.Base.Int.{ℤ, pos_part}
use smkvm.Base.I32
use smkvm.Base.Lists.{All, All-map}
use smkvm.Gui.Snap.{Pull, Best, abs, is_better, try_pull, try_all, pulls, best_of, chosen, along}

-- What a correction found so far says of itself.
abbrev IsKept : ℕ → Best → Type 0
IsKept within none = Unit
IsKept within (some (off, pull, delta)) = (off ≡ abs delta) × (off ≤ within)

-- A distance from which on nothing nearer is found.
abbrev limit : ℕ → Best → ℕ
limit within none = suc within
limit within (some (off, pull, delta)) = off

abbrev Beats : ℕ → Best → ℤ × Pull → Type 0
Beats within best c = abs c.0 ≤ within → limit within best ≤ abs c.0

module _ (within : ℕ) where
  try_pull-IsKept :
      (c : ℤ × Pull) (best : Best) → IsKept within best → IsKept within (try_pull within c best)
  unfolding try_pull
  try_pull-IsKept (delta, pull) best h = elim (Bool-cases (ltb within (abs delta))) [
    | inl e ↦ rw e h
    | inr e ↦ elim (Bool-cases (is_better (abs delta) pull best)) [
      | inl b ↦ rw (e, b) (refl, ground arith)
      | inr b ↦ rw (e, b) h
    ]
  ]

  limit-try_pull :
      (c : ℤ × Pull) (best : Best) → limit within (try_pull within c best) ≤ limit within best
  unfolding try_pull is_better
  limit-try_pull (delta, pull) none = ground arith
  limit-try_pull (delta, pull) (some (off, p, d)) = ground arith

  try_pull-Beats : (c : ℤ × Pull) (best : Best) → Beats within (try_pull within c best) c
  unfolding try_pull is_better
  try_pull-Beats (delta, pull) none h = ground arith
  try_pull-Beats (delta, pull) (some (off, p, d)) h = ground arith

  Beats-weaker :
      (old new : Best) (c : ℤ × Pull)
      → limit within new ≤ limit within old
      → Beats within old c
      → Beats within new c
  Beats-weaker old new c h b small = let g = b small in omega arith

  try_all-IsKept :
      (cs : List (ℤ × Pull)) (best : Best)
      → IsKept within best
      → IsKept within (try_all within cs best)
  unfolding try_all
  try_all-IsKept [] best h = h
  try_all-IsKept (c ∷ cs) best h =
      try_all-IsKept cs (try_pull within c best) (try_pull-IsKept c best h)

  limit-try_all :
      (cs : List (ℤ × Pull)) (best : Best)
      → limit within (try_all within cs best) ≤ limit within best
  unfolding try_all
  limit-try_all [] best = omega arith
  limit-try_all (c ∷ cs) best =
      let g = limit-try_all cs (try_pull within c best) in
      let h = limit-try_pull c best in omega arith

  try_all-Beats :
      (cs : List (ℤ × Pull)) (best : Best) → All (Beats within (try_all within cs best)) cs
  unfolding try_all
  try_all-Beats [] best = tt
  try_all-Beats (c ∷ cs) best =
      let next = try_pull within c best in
      (
        Beats-weaker next (try_all within cs next) c (limit-try_all cs next)
            (try_pull-Beats c best),
        try_all-Beats cs next,
      )

  module _ (span : ℤ × ℤ) where
    best_of-IsKept :
        (os : List (ℤ × ℤ)) (best : Best)
        → IsKept within best
        → IsKept within (best_of span os within best)
    unfolding best_of
    best_of-IsKept [] best h = h
    best_of-IsKept (o ∷ os) best h =
        best_of-IsKept os (try_all within (pulls span o) best)
          (try_all-IsKept (pulls span o) best h)

    limit-best_of :
        (os : List (ℤ × ℤ)) (best : Best)
        → limit within (best_of span os within best) ≤ limit within best
    unfolding best_of
    limit-best_of [] best = omega arith
    limit-best_of (o ∷ os) best =
        let next = try_all within (pulls span o) best in
        let g = limit-best_of os next in let h = limit-try_all (pulls span o) best in omega arith

    best_of-Beats :
        (os : List (ℤ × ℤ)) (best : Best)
        → All (λ o. All (Beats within (best_of span os within best)) (pulls span o)) os
    unfolding best_of
    best_of-Beats [] best = tt
    best_of-Beats (o ∷ os) best =
        let next = try_all within (pulls span o) best in
        let last = best_of span os within next in
        (
          All-map (Beats within next) (Beats within last)
              (λ c b. Beats-weaker next last c (limit-best_of os next) b) (pulls span o)
              (try_all-Beats (pulls span o) best),
          best_of-Beats os next,
        )

-- A correction that is kept is exact, since the distance is within an `i32`.
abs-chosen :
    (within : ℕ) (best : Best) (c : ℤ × Pull)
    → within ≤ 2147483647
    → IsKept within best
    → Beats within best c
    → abs (chosen best) ≤ abs c.0
abs-chosen within none c w k b = ground arith
abs-chosen within (some (off, pull, delta)) c w k b =
    let e : off ≡ abs delta = k.0 in
    let l : off ≤ within = k.1 in
    let exact : I32.wrap delta ≡ delta = I32.wrap_exact delta (omega arith, omega arith) in
    rw exact (elim (Bool-cases (leb (abs c.0) within)) [
      | inl t ↦ let g : off ≤ abs c.0 = b (ground arith) in omega arith
      | inr t ↦ ground arith
    ])

pub abs-along :
    (span : ℤ × ℤ) (others : List (ℤ × ℤ)) (within : ℤ)
    → pos_part within ≤ 2147483647
    → All
        (λ o. All (λ (c : ℤ × Pull). abs (along span others within) ≤ abs (c.0)) (pulls span o))
        others
unfolding along
abs-along span others within w =
    let best = best_of span others (pos_part within) none in
    let kept = best_of-IsKept (pos_part within) span others none tt in
    All-map (λ o. All (Beats (pos_part within) best) (pulls span o))
      (λ o. All (λ (c : ℤ × Pull). abs (chosen best) ≤ abs (c.0)) (pulls span o))
      (λ o bs.
        All-map (Beats (pos_part within) best) (λ (c : ℤ × Pull). abs (chosen best) ≤ abs (c.0))
          (λ c b. abs-chosen (pos_part within) best c w kept b) (pulls span o) bs)
      others (best_of-Beats (pos_part within) span others none)

pub within-along :
    (span : ℤ × ℤ) (others : List (ℤ × ℤ)) (within : ℤ)
    → pos_part within ≤ 2147483647
    → abs (along span others within) ≤ pos_part within
unfolding along
within-along span others within w =
    small (best_of span others (pos_part within) none)
      (best_of-IsKept (pos_part within) span others none tt)
  where
    small : (best : Best) → IsKept (pos_part within) best → abs (chosen best) ≤ pos_part within
    small none k = ground arith
    small (some (off, pull, delta)) k =
        let e : off ≡ abs delta = k.0 in
        let l : off ≤ pos_part within = k.1 in
        let exact : I32.wrap delta ≡ delta = I32.wrap_exact delta (omega arith, omega arith) in
        rw exact (omega arith)
