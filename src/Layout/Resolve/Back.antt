-- ===== src/Layout/Resolve/Back.antt =====
-- crates/smkvm-layout/src/resolve.rs: "An unadjusted motion is exactly reversible".
use smkvm.Base.{false, not, ◌≡◌, ◌≢◌, refl, sym, ◌∙◌, ap, some, [], arith}
use smkvm.Base.Equality.{◌==◌, ==_iff, ==_refl, nat_eq}
use smkvm.Base.Int.{ℤ, pos, ◌+ℤ◌, ◌-ℤ◌, add_parts, sub_parts, parts_eq}
use smkvm.Base.I32
use smkvm.Base.Lists.{find}
use smkvm.Layout.Model.{Point, Cell, Layout}
use smkvm.Layout.Geometry.{point_eq, Float, contains, offset}
use smkvm.Layout.Desktop.{cells}
use smkvm.Layout.Resolve.{Motion, device_of, finish, resolve}
use smkvm.Layout.Resolve.Lands.{HasSaneCells, resolve-Lands}

-- A step that stays within an `i32`, and the step back.
step_back :
    (a d : ℤ)
    → I32.Fits a
    → I32.Fits (a +ℤ d)
    → I32.saturating_add (I32.saturating_add a d) (pos 0 -ℤ d) ≡ a
unfolding I32.saturating_add
step_back a d s t =
    let e : I32.clamp (a +ℤ d) I32.min_value I32.max_value ≡ a +ℤ d = ground arith in
    let g : (a +ℤ d) +ℤ (pos 0 -ℤ d) ≡ a =
      parts_eq ((a +ℤ d) +ℤ (pos 0 -ℤ d)) a
        (omega (arith, add_parts a d, sub_parts (pos 0) d, add_parts (a +ℤ d) (pos 0 -ℤ d))) in
    rw (e, g) (ground arith)

abbrev pub FitsAt : Point → Type 0
FitsAt p = I32.Fits p.x × I32.Fits p.y

offset_back :
    (p : Point) (dx dy : ℤ)
    → FitsAt p
    → FitsAt (record { x = p.x +ℤ dx; y = p.y +ℤ dy })
    → offset (offset p dx dy) (pos 0 -ℤ dx) (pos 0 -ℤ dy) ≡ p
unfolding offset
offset_back p dx dy s t =
    let ex = step_back p.x dx s.0 t.0 in
    let ey = step_back p.y dy s.1 t.1 in λ i. record { x = ex i; y = ey i }

module _ (f : Float) (l : Layout) where
  -- Onto a screen the motion is what the pointer did.
  resolve_onto :
      (from : Point) (dx dy : ℤ) (c : Cell)
      → find (λ c. contains c.global (offset from dx dy)) (cells l) ≡ some c
      → resolve f from dx dy l
        ≡ some (
            finish f c
              (offset from dx dy)
              (offset from dx dy)
              (device_of (find (λ c. contains c.global from) (cells l))))
  unfolding resolve
  resolve_onto from dx dy c e = rw (e, resolve) refl

  -- From a point on a screen, a motion that was not adjusted and did not saturate is undone by the
  -- opposite motion, which is not adjusted either.
  pub resolve_back :
      (from : Point) (dx dy : ℤ) (here : Cell) (m : Motion)
      → HasSaneCells l
      → FitsAt from
      → FitsAt (record { x = from.x +ℤ dx; y = from.y +ℤ dy })
      → find (λ c. contains c.global from) (cells l) ≡ some here
      → resolve f from dx dy l ≡ some m
      → m.adjusted ≡ false
      → (n : Motion) × (resolve f m.global (pos 0 -ℤ dx) (pos 0 -ℤ dy) l ≡ some n)
        × (n.global ≡ from)
        × (n.adjusted ≡ false)
        × (n.located.device ≡ here.device)
  unfolding finish find
  resolve_back from dx dy here m sane s t h r u =
      let landed = resolve-Lands f l sane from dx dy (not_nil h) in
      let same : landed.0 ≡ m = some_eq (landed.0) m (sym (landed.1) ∙ r) in
      let stays : landed.0.adjusted ≡ false = ap (λ (m : Motion). m.adjusted) same ∙ u in
      let went : m.global ≡ offset from dx dy =
        ap (λ (m : Motion). m.global) (sym same)
        ∙ (==_iff landed.0.global (offset from dx dy)).0 (ground (arith, landed.2.6, stays)) in
      let back : offset m.global (pos 0 -ℤ dx) (pos 0 -ℤ dy) ≡ from =
        ap (λ p. offset p (pos 0 -ℤ dx) (pos 0 -ℤ dy)) went ∙ offset_back from dx dy s t in
      let at = offset m.global (pos 0 -ℤ dx) (pos 0 -ℤ dy) in
      let found : find (λ c. contains c.global at) (cells l) ≡ some here =
        ap (λ p. find (λ c. contains c.global p) (cells l)) back ∙ h in
      (
        finish f here at at (device_of (find (λ c. contains c.global m.global) (cells l))),
        resolve_onto m.global (pos 0 -ℤ dx) (pos 0 -ℤ dy) here found,
        back,
        unadjusted at,
        refl,
      )
    where
      not_nil : find (λ c. contains c.global from) (cells l) ≡ some here → cells l ≢ []
      not_nil e n = let g = rw n at e in cc

      some_eq : (a b : Motion) → some a ≡ some b → a ≡ b
      some_eq a b e = cc

      unadjusted : (p : Point) → not (p == p) ≡ false
      unadjusted p = rw (==_refl p) refl
