-- ===== src/Input/Tracked/Held.antt =====
-- crates/smkvm-input/src/lib.rs: what a `Tracked` remembers is what is down on the device.
use smkvm.Base.{Bool, true, false, ◌≡◌, inl, inr, Option-cases, List, [], ◌∷◌, arith, if◌then◌else◌}
use smkvm.Base.Equality.{◌==◌, PartialEq, Ord}
use smkvm.Base.Lists.{contains}
use smkvm.Base.Sets
use smkvm.Proto.Keys.{Key, key_eq, key_ord, MouseButton, button_eq, button_ord}
use smkvm.Input.Inject.{Inject, Outcome, IsObedient}
use smkvm.Input.Tracked.{
  Tracked, key, button, set_keys, set_buttons, sync, flush, flushed, press_missing_buttons,
  press_missing, release_unwanted_buttons, release_unwanted, keep_first,
}

pub contains_noted :
    {A : Type 0} ⦃e : PartialEq A⦄ ⦃d : Ord A⦄ (k j : A) (down : Bool) (ks : List A)
    → contains (if down then Sets.insert k ks else Sets.remove k ks) j
      ≡ (if k == j then down else contains ks j)
contains_noted ⦃e⦄ k j true ks = ground (arith, Sets.contains-insert k j ks, e.same_iff k j)
contains_noted ⦃e⦄ k j false ks =
    ground (arith, Sets.contains-remove k j ks, e.same_iff k j, e.same_iff j k)

module _ (J : Inject) (o : IsObedient J) where
  -- The two sets name exactly what the device holds.
  abbrev pub Matches : Tracked J → Type 0
  Matches t =
      ((k : Key) → contains t.keys k ≡ o.holds_key t.inner k)
      × ((b : MouseButton) → contains t.buttons b ≡ o.holds_button t.inner b)

  pub key-Matches : (k : Key) (down : Bool) (t : Tracked J) → Matches t → Matches (key J k down t).0
  unfolding key
  key-Matches k down t m = elim (Option-cases ((J.key k down t.inner).1)) [
    | inl e ↦ rw e (
      (λ j. ground (arith, contains_noted k j down t.keys, o.key_done k j down t.inner e, m.0 j)),
      (λ b. ground (arith, o.key_buttons k b down t.inner, m.1 b)),
    )
    | inr (x, e) ↦ rw e (
      (λ j. ground (arith, o.key_refused k j down t.inner x e, m.0 j)),
      (λ b. ground (arith, o.key_buttons k b down t.inner, m.1 b)),
    )
  ]

  pub button-Matches :
      (b : MouseButton) (down : Bool) (t : Tracked J) → Matches t → Matches (button J b down t).0
  unfolding button
  button-Matches b down t m = elim (Option-cases ((J.button b down t.inner).1)) [
    | inl e ↦ rw e (
      (λ k. ground (arith, o.button_keys b k down t.inner, m.0 k)),
      (λ c.
          ground
            (arith, contains_noted b c down t.buttons, o.button_done b c down t.inner e, m.1 c)),
    )
    | inr (x, e) ↦ rw e (
      (λ k. ground (arith, o.button_keys b k down t.inner, m.0 k)),
      (λ c. ground (arith, o.button_refused b c down t.inner x e, m.1 c)),
    )
  ]

  pub set_keys-Matches :
      (down : Bool) (ks : List Key) (t : Tracked J) (first : Outcome)
      → Matches t
      → Matches (set_keys J down ks t first).0
  unfolding set_keys
  set_keys-Matches down [] t first m = m
  set_keys-Matches down (k ∷ ks) t first m =
      set_keys-Matches down ks (key J k down t).0 (keep_first first (key J k down t).1)
        (key-Matches k down t m)

  pub set_buttons-Matches :
      (down : Bool) (bs : List MouseButton) (t : Tracked J) (first : Outcome)
      → Matches t
      → Matches (set_buttons J down bs t first).0
  unfolding set_buttons
  set_buttons-Matches down [] t first m = m
  set_buttons-Matches down (b ∷ bs) t first m =
      set_buttons-Matches down bs (button J b down t).0 (keep_first first (button J b down t).1)
        (button-Matches b down t m)

  pub flush-Matches : (t : Tracked J) → Matches t → Matches (flush J t).0
  unfolding flush
  flush-Matches t m = (
    (λ k. ground (arith, o.flush_keys t.inner k, m.0 k)),
    (λ b. ground (arith, o.flush_buttons t.inner b, m.1 b)),
  )

  pub sync-Matches :
      (ks : List Key) (bs : List MouseButton) (t : Tracked J)
      → Matches t
      → Matches (sync J ks bs t).0
  unfolding sync flushed press_missing_buttons press_missing release_unwanted_buttons
      release_unwanted
  sync-Matches ks bs t m = flush-Matches _ (
      set_buttons-Matches true _ _ _ (
        set_keys-Matches true _ _ _
          (set_buttons-Matches false _ _ _ (set_keys-Matches false _ _ _ m))))
