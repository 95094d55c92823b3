-- ===== src/Input/Logged/Notes.antt =====
-- crates/smkvm-input/src/lib.rs: `Tracked` on a platform with a log, one key or button at a time.
use smkvm.Base.{
  Bool, true, false, ◌≡◌, refl, inl, inr, Option-cases, none, some, arith, if◌then◌else◌,
}
use smkvm.Base.Sets
use smkvm.Proto.Keys.{Key, key_eq, key_ord, MouseButton, button_eq, button_ord}
use smkvm.Input.Inject.{Inject, InputError, Outcome}
use smkvm.Input.Tracked.{Tracked, key, button}
use smkvm.Input.Tracked.Held.{contains_noted}
use smkvm.Input.Logged.{
  Item, a_key, a_button, Logged, log_key, log_button, logged, refused, has, is_key, is_button,
}

module _ (J : Inject) where
  pub has-inner :
      (i : Item) (t : Tracked (logged J)) (d : Logged J)
      → has (logged J) i (record t { inner = d }) ≡ has (logged J) i t
  has-inner (a_key k) t d = refl
  has-inner (a_button b) t d = refl

  pub refused-device :
      (i : Item) (w : Bool) (d : Logged J) (e : J.Device)
      → refused J i w (record d { device = e }) ≡ refused J i w d
  refused-device (a_key k) true d e = refl
  refused-device (a_key k) false d e = refl
  refused-device (a_button b) true d e = refl
  refused-device (a_button b) false d e = refl

  pub refused-log_key :
      (i : Item) (w : Bool) (k : Key) (down : Bool) (x : Outcome) (d : Logged J)
      → refused J i w (log_key J k down x d) ≡ false
      → refused J i w d ≡ false
  refused-log_key i w k down none d h = h
  refused-log_key (a_key j) true k true (some e) d h = ground (arith, h)
  refused-log_key (a_key j) false k true (some e) d h = h
  refused-log_key (a_key j) true k false (some e) d h = h
  refused-log_key (a_key j) false k false (some e) d h = ground (arith, h)
  refused-log_key (a_button b) true k true (some e) d h = h
  refused-log_key (a_button b) false k true (some e) d h = h
  refused-log_key (a_button b) true k false (some e) d h = h
  refused-log_key (a_button b) false k false (some e) d h = h

  pub refused-log_button :
      (i : Item) (w : Bool) (b : MouseButton) (down : Bool) (x : Outcome) (d : Logged J)
      → refused J i w (log_button J b down x d) ≡ false
      → refused J i w d ≡ false
  refused-log_button i w b down none d h = h
  refused-log_button (a_button c) true b true (some e) d h = ground (arith, h)
  refused-log_button (a_button c) false b true (some e) d h = h
  refused-log_button (a_button c) true b false (some e) d h = h
  refused-log_button (a_button c) false b false (some e) d h = ground (arith, h)
  refused-log_button (a_key k) true b true (some e) d h = h
  refused-log_button (a_key k) false b true (some e) d h = h
  refused-log_button (a_key k) true b false (some e) d h = h
  refused-log_button (a_key k) false b false (some e) d h = h

  pub device-log_key :
      (k : Key) (down : Bool) (x : Outcome) (d : Logged J)
      → (log_key J k down x d).device ≡ d.device
  device-log_key k down none d = refl
  device-log_key k true (some e) d = refl
  device-log_key k false (some e) d = refl

  pub device-log_button :
      (b : MouseButton) (down : Bool) (x : Outcome) (d : Logged J)
      → (log_button J b down x d).device ≡ d.device
  device-log_button b down none d = refl
  device-log_button b true (some e) d = refl
  device-log_button b false (some e) d = refl

  -- What is refused is in the log.
  is_key-log_key :
      (i : Item) (k : Key) (down : Bool) (e : InputError) (d : Logged J)
      → refused J i down (log_key J k down (some e) d) ≡ false
      → is_key i k ≡ false
  is_key-log_key (a_key j) k true e d h = ground (arith, h)
  is_key-log_key (a_key j) k false e d h = ground (arith, h)
  is_key-log_key (a_button b) k down e d h = refl

  is_button-log_button :
      (i : Item) (b : MouseButton) (down : Bool) (e : InputError) (d : Logged J)
      → refused J i down (log_button J b down (some e) d) ≡ false
      → is_button i b ≡ false
  is_button-log_button (a_button c) b true e d h = ground (arith, h)
  is_button-log_button (a_button c) b false e d h = ground (arith, h)
  is_button-log_button (a_key k) b down e d h = refl

  -- What is done is in the record, unless it was refused.
  pub has-key :
      (i : Item) (k : Key) (down : Bool) (t : Tracked (logged J))
      → refused J i down (key (logged J) k down t).0.inner ≡ false
      → has (logged J) i (key (logged J) k down t).0
        ≡ (if is_key i k then down else has (logged J) i t)
  unfolding key
  has-key i k down t = elim (Option-cases ((J.key k down t.inner.device).1)) [
    | inl e ↦ rw e (λ r. noted i _)
    | inr (x, e) ↦ rw e (λ r. rw (is_key-log_key i k down x _ r) (has-inner i t _))
  ]
    where
      noted :
          (i : Item) (d : Logged J)
          → has (logged J) i (record t {
            inner = d;
            keys = if down then Sets.insert k t.keys else Sets.remove k t.keys;
          })
            ≡ (if is_key i k then down else has (logged J) i t)
      noted (a_key j) d = contains_noted k j down t.keys
      noted (a_button b) d = refl

  pub has-button :
      (i : Item) (b : MouseButton) (down : Bool) (t : Tracked (logged J))
      → refused J i down (button (logged J) b down t).0.inner ≡ false
      → has (logged J) i (button (logged J) b down t).0
        ≡ (if is_button i b then down else has (logged J) i t)
  unfolding button
  has-button i b down t = elim (Option-cases ((J.button b down t.inner.device).1)) [
    | inl e ↦ rw e (λ r. noted i _)
    | inr (x, e) ↦ rw e (λ r. rw (is_button-log_button i b down x _ r) (has-inner i t _))
  ]
    where
      noted :
          (i : Item) (d : Logged J)
          → has (logged J) i (record t {
            inner = d;
            buttons = if down then Sets.insert b t.buttons else Sets.remove b t.buttons;
          })
            ≡ (if is_button i b then down else has (logged J) i t)
      noted (a_button c) d = contains_noted b c down t.buttons
      noted (a_key k) d = refl
