-- ===== src/Input/Logged/Keeps.antt =====
-- crates/smkvm-input/src/lib.rs: a press or a release, and the agreement of the record with the device.
use smkvm.Base.{ap, sym, ◌∙◌, Bool, false, ◌≡◌, inl, inr, Option-cases, some, arith}
use smkvm.Proto.Keys.{Key, key_eq, key_ord, MouseButton, button_eq, button_ord}
use smkvm.Input.Inject.{Inject, IsObedient}
use smkvm.Input.Tracked.{Tracked, key, button}
use smkvm.Input.Tracked.Held.{contains_noted}
use smkvm.Input.Logged.{Item, a_key, a_button, Logged, logged, refused, has, holds}
use smkvm.Input.Logged.Notes.{
  refused-device, refused-log_key, refused-log_button, device-log_key, device-log_button,
}

module _ (J : Inject) (o : IsObedient J) (i : Item) where
  -- The record and the device agree on the item.
  abbrev pub Same : Tracked (logged J) → Type 0
  Same t = has (logged J) i t ≡ holds J o i t.inner.device

  -- What was refused stays in the log, and the agreement is kept.
  abbrev pub Keeps : Tracked (logged J) → Tracked (logged J) → Type 0
  Keeps t u =
      ((w : Bool) → refused J i w u.inner ≡ false → refused J i w t.inner ≡ false)
      × (Same t → Same u)

  pub Keeps-after : (t u v : Tracked (logged J)) → Keeps t u → Keeps u v → Keeps t v
  Keeps-after t u v a b = ((λ w r. a.0 w (b.0 w r)), (λ h. b.1 (a.1 h)))

module _ (J : Inject) (o : IsObedient J) where
  -- A change of one key, as the device takes it or refuses it.
  holds-key :
      (i : Item) (k : Key) (down : Bool) (d : Logged J)
      → holds J o i ((logged J).key k down d).0.device ≡ holds J o i (J.key k down d.device).0
  holds-key i k down d = ap (holds J o i) (device-log_key J k down (J.key k down d.device).1 _)

  holds-button :
      (i : Item) (b : MouseButton) (down : Bool) (d : Logged J)
      → holds J o i ((logged J).button b down d).0.device ≡ holds J o i (J.button b down d.device).0
  holds-button i b down d =
      ap (holds J o i) (device-log_button J b down (J.button b down d.device).1 _)

  key-Same :
      (i : Item) (k : Key) (down : Bool) (t : Tracked (logged J))
      → Same J o i t
      → Same J o i (key (logged J) k down t).0
  unfolding key
  key-Same (a_key j) k down t m = elim (Option-cases ((J.key k down t.inner.device).1)) [
    | inl e ↦
        rw e
          (ground (arith, contains_noted k j down t.keys, o.key_done k j down t.inner.device e, m))
    | inr (x, e) ↦
        let same = holds-key (a_key j) k down t.inner in
        rw e (m ∙ sym (rw e at same ∙ o.key_refused k j down t.inner.device x e))
  ]
  key-Same (a_button b) k down t m =
      let same = holds-key (a_button b) k down t.inner in
      elim (Option-cases ((J.key k down t.inner.device).1)) [
        | inl e ↦ rw e (m ∙ sym (o.key_buttons k b down t.inner.device))
        | inr (x, e) ↦ rw e (m ∙ sym (rw e at same ∙ o.key_buttons k b down t.inner.device))
      ]

  button-Same :
      (i : Item) (b : MouseButton) (down : Bool) (t : Tracked (logged J))
      → Same J o i t
      → Same J o i (button (logged J) b down t).0
  unfolding button
  button-Same (a_button c) b down t m = elim (Option-cases ((J.button b down t.inner.device).1)) [
    | inl e ↦ rw e (
        ground
          (arith, contains_noted b c down t.buttons, o.button_done b c down t.inner.device e, m))
    | inr (x, e) ↦
        let same = holds-button (a_button c) b down t.inner in
        rw e (m ∙ sym (rw e at same ∙ o.button_refused b c down t.inner.device x e))
  ]
  button-Same (a_key k) b down t m =
      let same = holds-button (a_key k) b down t.inner in
      elim (Option-cases ((J.button b down t.inner.device).1)) [
        | inl e ↦ rw e (m ∙ sym (o.button_keys b k down t.inner.device))
        | inr (x, e) ↦ rw e (m ∙ sym (rw e at same ∙ o.button_keys b k down t.inner.device))
      ]

  refused-key :
      (i : Item) (w : Bool) (k : Key) (down : Bool) (t : Tracked (logged J))
      → refused J i w (key (logged J) k down t).0.inner ≡ false
      → refused J i w t.inner ≡ false
  unfolding key
  refused-key i w k down t = elim (Option-cases ((J.key k down t.inner.device).1)) [
    | inl e ↦ rw e (λ r. sym (refused-device J i w t.inner _) ∙ r)
    | inr (x, e) ↦
        rw e (λ r. sym (refused-device J i w t.inner _) ∙ refused-log_key J i w k down (some x) _ r)
  ]

  refused-button :
      (i : Item) (w : Bool) (b : MouseButton) (down : Bool) (t : Tracked (logged J))
      → refused J i w (button (logged J) b down t).0.inner ≡ false
      → refused J i w t.inner ≡ false
  unfolding button
  refused-button i w b down t = elim (Option-cases ((J.button b down t.inner.device).1)) [
    | inl e ↦ rw e (λ r. sym (refused-device J i w t.inner _) ∙ r)
    | inr (x, e) ↦
        rw e
          (λ r. sym (refused-device J i w t.inner _) ∙ refused-log_button J i w b down (some x) _ r)
  ]

  pub key-Keeps :
      (i : Item) (k : Key) (down : Bool) (t : Tracked (logged J))
      → Keeps J o i t (key (logged J) k down t).0
  key-Keeps i k down t = ((λ w. refused-key i w k down t), key-Same i k down t)

  pub button-Keeps :
      (i : Item) (b : MouseButton) (down : Bool) (t : Tracked (logged J))
      → Keeps J o i t (button (logged J) b down t).0
  button-Keeps i b down t = ((λ w. refused-button i w b down t), button-Same i b down t)
