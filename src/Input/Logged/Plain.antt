-- ===== src/Input/Logged/Plain.antt =====
-- crates/smkvm-input/src/lib.rs: the log changes nothing of what `Tracked` does.
use smkvm.Base.{
  Bool, true, false, ◌≡◌, refl, ap, ◌∙◌, inl, inr, Option-cases, none, some, List, [], ◌∷◌,
}
use smkvm.Base.Sets
use smkvm.Proto.Keys.{Key, key_eq, key_ord, MouseButton, button_eq, button_ord}
use smkvm.Input.Inject.{Inject, Outcome}
use smkvm.Input.Tracked.{
  Tracked, release_order, key, button, set_keys, set_buttons, sync, flush, flushed,
  press_missing_buttons, press_missing, release_unwanted_buttons, release_unwanted, keep_first,
  release_all, release_buttons, cleared,
}
use smkvm.Input.Logged.{logged}
use smkvm.Input.Logged.Notes.{device-log_key, device-log_button}

module _ (J : Inject) where
  abbrev pub unlog : Tracked (logged J) → Tracked J
  unlog t = record { inner = t.inner.device; keys = t.keys; buttons = t.buttons }

  abbrev pub plain : Tracked (logged J) × Outcome → Tracked J × Outcome
  plain r = (unlog r.0, r.1)

  pub plain-key :
      (k : Key) (down : Bool) (t : Tracked (logged J))
      → plain (key (logged J) k down t) ≡ key J k down (unlog t)
  unfolding key
  plain-key k down t =
      let same =
        device-log_key J k down (J.key k down t.inner.device).1
          (record (t.inner) { device = (J.key k down t.inner.device).0 }) in
      elim (Option-cases ((J.key k down t.inner.device).1)) [
        | inl e ↦ rw e refl
        | inr (x, e) ↦
            rw e (ap (λ (d : J.Device). (record (unlog t) { inner = d }, some x)) (rw e at same))
      ]

  pub plain-button :
      (b : MouseButton) (down : Bool) (t : Tracked (logged J))
      → plain (button (logged J) b down t) ≡ button J b down (unlog t)
  unfolding button
  plain-button b down t =
      let same =
        device-log_button J b down (J.button b down t.inner.device).1
          (record (t.inner) { device = (J.button b down t.inner.device).0 }) in
      elim (Option-cases ((J.button b down t.inner.device).1)) [
        | inl e ↦ rw e refl
        | inr (x, e) ↦
            rw e (ap (λ (d : J.Device). (record (unlog t) { inner = d }, some x)) (rw e at same))
      ]

  plain-set_keys :
      (down : Bool) (ks : List Key) (t : Tracked (logged J)) (first : Outcome)
      → plain (set_keys (logged J) down ks t first) ≡ set_keys J down ks (unlog t) first
  unfolding set_keys
  plain-set_keys down [] t first = refl
  plain-set_keys down (k ∷ ks) t first =
      let r = key (logged J) k down t in
      plain-set_keys down ks r.0 (keep_first first r.1)
      ∙ ap (λ (q : Tracked J × Outcome). set_keys J down ks q.0 (keep_first first q.1))
          (plain-key k down t)

  plain-set_buttons :
      (down : Bool) (bs : List MouseButton) (t : Tracked (logged J)) (first : Outcome)
      → plain (set_buttons (logged J) down bs t first) ≡ set_buttons J down bs (unlog t) first
  unfolding set_buttons
  plain-set_buttons down [] t first = refl
  plain-set_buttons down (b ∷ bs) t first =
      let r = button (logged J) b down t in
      plain-set_buttons down bs r.0 (keep_first first r.1)
      ∙ ap (λ (q : Tracked J × Outcome). set_buttons J down bs q.0 (keep_first first q.1))
          (plain-button b down t)

  pub plain-release_all :
      (t : Tracked (logged J)) → plain (release_all (logged J) t) ≡ release_all J (unlog t)
  unfolding release_all flushed flush release_buttons
  plain-release_all t =
      let r = set_keys (logged J) false (release_order t.keys) t none in
      ap (λ (q : Tracked J × Outcome). flushed J (cleared J q))
        (plain-set_buttons false r.0.buttons r.0 r.1)
      ∙ ap (λ (q : Tracked J × Outcome). flushed J (cleared J (release_buttons J q)))
          (plain-set_keys false (release_order t.keys) t none)

  plain-release_unwanted :
      (w : List Key) (r : Tracked (logged J) × Outcome)
      → plain (release_unwanted (logged J) w r) ≡ release_unwanted J w (plain r)
  unfolding release_unwanted
  plain-release_unwanted w r = plain-set_keys false _ r.0 r.1

  plain-release_unwanted_buttons :
      (w : List MouseButton) (r : Tracked (logged J) × Outcome)
      → plain (release_unwanted_buttons (logged J) w r) ≡ release_unwanted_buttons J w (plain r)
  unfolding release_unwanted_buttons
  plain-release_unwanted_buttons w r = plain-set_buttons false _ r.0 r.1

  plain-press_missing :
      (w : List Key) (r : Tracked (logged J) × Outcome)
      → plain (press_missing (logged J) w r) ≡ press_missing J w (plain r)
  unfolding press_missing
  plain-press_missing w r = plain-set_keys true _ r.0 r.1

  plain-press_missing_buttons :
      (w : List MouseButton) (r : Tracked (logged J) × Outcome)
      → plain (press_missing_buttons (logged J) w r) ≡ press_missing_buttons J w (plain r)
  unfolding press_missing_buttons
  plain-press_missing_buttons w r = plain-set_buttons true _ r.0 r.1

  pub plain-sync :
      (ks : List Key) (bs : List MouseButton) (t : Tracked (logged J))
      → plain (sync (logged J) ks bs t) ≡ sync J ks bs (unlog t)
  unfolding sync flushed flush
  plain-sync ks bs t =
      let L = logged J in
      let w = Sets.collect ks in
      let wb = Sets.collect bs in
      let r1 = release_unwanted L w (t, none) in
      let r2 = release_unwanted_buttons L wb r1 in
      let r3 = press_missing L w r2 in
      ap (flushed J) (
        plain-press_missing_buttons wb r3
        ∙ ap (press_missing_buttons J wb) (
            plain-press_missing w r2
            ∙ ap (press_missing J w) (
                plain-release_unwanted_buttons wb r1
                ∙ ap (release_unwanted_buttons J wb) (plain-release_unwanted w (t, none)))))
