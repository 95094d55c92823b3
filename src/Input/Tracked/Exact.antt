-- ===== src/Input/Tracked/Exact.antt =====
-- crates/smkvm-input/src/lib.rs: `sync` and `release_all` reach the state that they name.
use smkvm.Base.{
  Bool, false, ◌≡◌, refl, ◌∙◌, inl, inr, Option-cases, Bool-cases, not, ◌&&◌, none, some, List, [],
  ◌∷◌, arith, if◌then◌else◌,
}
use smkvm.Base.Equality.{◌==◌}
use smkvm.Base.Lists.{contains, contains-append, retain}
use smkvm.Base.Sets
use smkvm.Proto.Keys.{Key, key_eq, key_ord, is_modifier, MouseButton, button_eq, button_ord}
use smkvm.Input.Inject.{Inject, InputError, Outcome}
use smkvm.Input.Tracked.{
  Tracked, release_order, press_order, keep_first, key, button, set_keys, set_buttons,
}
use smkvm.Input.Tracked.Held.{contains_noted}

pub contains-release_order :
    (ks : List Key) (k : Key) → contains (release_order ks) k ≡ contains ks k
unfolding release_order
contains-release_order ks k = ground (
  arith,
  contains-append (retain (λ k. not (is_modifier k)) ks) (retain is_modifier ks) k,
  Sets.contains-retain (λ k. not (is_modifier k)) ks k,
  Sets.contains-retain is_modifier ks k,
)

pub contains-press_order : (ks : List Key) (k : Key) → contains (press_order ks) k ≡ contains ks k
unfolding press_order
contains-press_order ks k = ground (
  arith,
  contains-append (retain is_modifier ks) (retain (λ k. not (is_modifier k)) ks) k,
  Sets.contains-retain (λ k. not (is_modifier k)) ks k,
  Sets.contains-retain is_modifier ks k,
)

pub keep_first-none : (a b : Outcome) → keep_first a b ≡ none → (a ≡ none) × (b ≡ none)
keep_first-none none b h = (refl, h)
keep_first-none (some e) b h = cc

module _ (J : Inject) where
  pub buttons-key : (k : Key) (down : Bool) (t : Tracked J) → (key J k down t).0.buttons ≡ t.buttons
  unfolding key
  buttons-key k down t = elim (Option-cases ((J.key k down t.inner).1)) [
    | inl e ↦ rw e refl
    | inr (x, e) ↦ rw e refl
  ]

  pub keys-button :
      (b : MouseButton) (down : Bool) (t : Tracked J) → (button J b down t).0.keys ≡ t.keys
  unfolding button
  keys-button b down t = elim (Option-cases ((J.button b down t.inner).1)) [
    | inl e ↦ rw e refl
    | inr (x, e) ↦ rw e refl
  ]

  pub buttons-set_keys :
      (down : Bool) (ks : List Key) (t : Tracked J) (first : Outcome)
      → (set_keys J down ks t first).0.buttons ≡ t.buttons
  unfolding set_keys
  buttons-set_keys down [] t first = refl
  buttons-set_keys down (k ∷ ks) t first =
      buttons-set_keys down ks (key J k down t).0 (keep_first first (key J k down t).1)
      ∙ buttons-key k down t

  pub keys-set_buttons :
      (down : Bool) (bs : List MouseButton) (t : Tracked J) (first : Outcome)
      → (set_buttons J down bs t first).0.keys ≡ t.keys
  unfolding set_buttons
  keys-set_buttons down [] t first = refl
  keys-set_buttons down (b ∷ bs) t first =
      keys-set_buttons down bs (button J b down t).0 (keep_first first (button J b down t).1)
      ∙ keys-button b down t

  -- A key that the device took is noted, and no other.
  key_noted :
      (k j : Key) (down : Bool) (t : Tracked J)
      → (key J k down t).1 ≡ none
      → contains (key J k down t).0.keys j ≡ (if k == j then down else contains t.keys j)
  unfolding key
  key_noted k j down t h = elim (Option-cases ((J.key k down t.inner).1)) [
    | inl e ↦ rw e (contains_noted k j down t.keys)
    | inr (x, e) ↦ absurd (let g = rw e at h in cc)
  ]

  button_noted :
      (b c : MouseButton) (down : Bool) (t : Tracked J)
      → (button J b down t).1 ≡ none
      → contains (button J b down t).0.buttons c ≡ (if b == c then down else contains t.buttons c)
  unfolding button
  button_noted b c down t h = elim (Option-cases ((J.button b down t.inner).1)) [
    | inl e ↦ rw e (contains_noted b c down t.buttons)
    | inr (x, e) ↦ absurd (let g = rw e at h in cc)
  ]

  -- Without an error, the keys of the list are as told and the others as before.
  pub set_keys_done :
      (down : Bool) (ks : List Key) (t : Tracked J) (first : Outcome)
      → (set_keys J down ks t first).1 ≡ none
      → (first ≡ none)
        × ((j : Key)
            → contains (set_keys J down ks t first).0.keys j
              ≡ (if contains ks j then down else contains t.keys j))
  unfolding set_keys
  set_keys_done down [] t first h = (h, λ j. refl)
  set_keys_done down (k ∷ ks) t first h =
      let rest = set_keys_done down ks (key J k down t).0 (keep_first first (key J k down t).1) h in
      let p = keep_first-none first ((key J k down t).1) (rest.0) in
      (p.0, λ j. ground (arith, rest.1 j, key_noted k j down t p.1))

  pub set_buttons_done :
      (down : Bool) (bs : List MouseButton) (t : Tracked J) (first : Outcome)
      → (set_buttons J down bs t first).1 ≡ none
      → (first ≡ none)
        × ((c : MouseButton)
            → contains (set_buttons J down bs t first).0.buttons c
              ≡ (if contains bs c then down else contains t.buttons c))
  unfolding set_buttons
  set_buttons_done down [] t first h = (h, λ c. refl)
  set_buttons_done down (b ∷ bs) t first h =
      let rest =
        set_buttons_done down bs (button J b down t).0 (keep_first first (button J b down t).1) h in
      let p = keep_first-none first ((button J b down t).1) (rest.0) in
      (p.0, λ c. ground (arith, rest.1 c, button_noted b c down t p.1))

  refused_twice :
      (k j : Key) (t : Tracked J) (x : InputError)
      → (J.key k false t.inner).1 ≡ some x
      → k ≡ j
      → (J.key j false t.inner).1 ≡ none
      → ⊥
  refused_twice k j t x e q h = cc

  -- A key that the device always lets go of is let go of, whatever happens to the others.
  key_frees :
      (k j : Key) (t : Tracked J)
      → ((d : J.Device) → (J.key j false d).1 ≡ none)
      → contains (key J k false t).0.keys j ≡ (not (k == j) && contains t.keys j)
  unfolding key
  key_frees k j t h = elim (Option-cases ((J.key k false t.inner).1)) [
    | inl e ↦ rw e (ground (arith, contains_noted k j false t.keys))
    | inr (x, e) ↦ rw e (elim (Bool-cases (k == j)) [
      | inl s ↦ absurd (refused_twice k j t x e ((key_eq.same_iff k j).0 s) (h t.inner))
      | inr s ↦ ground arith
    ])
  ]

  pub set_keys_frees :
      (ks : List Key) (t : Tracked J) (first : Outcome) (j : Key)
      → ((d : J.Device) → (J.key j false d).1 ≡ none)
      → contains (set_keys J false ks t first).0.keys j ≡ (not (contains ks j) && contains t.keys j)
  unfolding set_keys
  set_keys_frees [] t first j h = refl
  set_keys_frees (k ∷ ks) t first j h =
      let rest = set_keys_frees ks (key J k false t).0 (keep_first first (key J k false t).1) j h in
      ground (arith, rest, key_frees k j t h)
