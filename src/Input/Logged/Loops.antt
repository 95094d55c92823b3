-- ===== src/Input/Logged/Loops.antt =====
-- crates/smkvm-input/src/lib.rs: the loops of `Tracked` on a platform with a log.
use smkvm.Base.{
  Bool, true, false, ◌≡◌, refl, sym, ◌∙◌, ◌||◌, none, List, [], ◌∷◌, arith, if◌then◌else◌,
}
use smkvm.Base.Int.{ℤ}
use smkvm.Proto.Keys.{Key, key_eq, key_ord, MouseButton, button_eq, button_ord, Scroll}
use smkvm.Input.Inject.{Inject, Outcome, IsObedient}
use smkvm.Input.Tracked.{
  Tracked, key, button, set_keys, set_buttons, sync, flush, flushed, press_missing_buttons,
  press_missing, release_unwanted_buttons, release_unwanted, move_to, wheel, keep_first, on_inner,
}
use smkvm.Input.Logged.{
  Item, a_key, a_button, logged, on_device, refused, has, holds, is_key, is_button, in_keys,
  in_buttons,
}
use smkvm.Input.Logged.Keeps.{Keeps, Keeps-after, key-Keeps, button-Keeps}
use smkvm.Input.Logged.Notes.{has-key, has-button, has-inner, refused-device}

module _ (J : Inject) (o : IsObedient J) where
  pub set_keys-Keeps :
      (i : Item) (down : Bool) (ks : List Key) (t : Tracked (logged J)) (first : Outcome)
      → Keeps J o i t (set_keys (logged J) down ks t first).0
  unfolding set_keys
  set_keys-Keeps i down [] t first = ((λ w r. r), (λ m. m))
  set_keys-Keeps i down (k ∷ ks) t first =
      let r = key (logged J) k down t in
      Keeps-after J o i t r.0 _ (key-Keeps J o i k down t)
        (set_keys-Keeps i down ks r.0 (keep_first first r.1))

  pub set_buttons-Keeps :
      (i : Item) (down : Bool) (bs : List MouseButton) (t : Tracked (logged J)) (first : Outcome)
      → Keeps J o i t (set_buttons (logged J) down bs t first).0
  unfolding set_buttons
  set_buttons-Keeps i down [] t first = ((λ w r. r), (λ m. m))
  set_buttons-Keeps i down (b ∷ bs) t first =
      let r = button (logged J) b down t in
      Keeps-after J o i t r.0 _ (button-Keeps J o i b down t)
        (set_buttons-Keeps i down bs r.0 (keep_first first r.1))

  -- A call that moves neither keys nor buttons.
  pub on_device-Keeps :
      (i : Item) (f : J.Device → J.Device × Outcome) (t : Tracked (logged J))
      → ((k : Key) → o.holds_key (f t.inner.device).0 k ≡ o.holds_key t.inner.device k)
      → ((b : MouseButton)
          → o.holds_button (f t.inner.device).0 b ≡ o.holds_button t.inner.device b)
      → Keeps J o i t (on_inner (logged J) (on_device J f) t).0
  on_device-Keeps i f t hk hb = (
    (λ w r. sym (refused-device J i w t.inner _) ∙ r),
    (λ m. has-inner J i t _ ∙ m ∙ sym (held i)),
  )
    where
      held : (i : Item) → holds J o i (f t.inner.device).0 ≡ holds J o i t.inner.device
      held (a_key k) = hk k
      held (a_button b) = hb b

  pub flush-Keeps : (i : Item) (t : Tracked (logged J)) → Keeps J o i t (flush (logged J) t).0
  unfolding flush
  flush-Keeps i t =
      on_device-Keeps i J.flush t (o.flush_keys t.inner.device) (o.flush_buttons t.inner.device)

  pub move_to-Keeps :
      (i : Item) (x y : ℤ) (t : Tracked (logged J)) → Keeps J o i t (move_to (logged J) x y t).0
  unfolding move_to
  move_to-Keeps i x y t =
      on_device-Keeps i (J.move_to x y) t (o.move_keys x y t.inner.device)
        (o.move_buttons x y t.inner.device)

  pub wheel-Keeps :
      (i : Item) (s : Scroll) (t : Tracked (logged J)) → Keeps J o i t (wheel (logged J) s t).0
  unfolding wheel
  wheel-Keeps i s t =
      on_device-Keeps i (J.wheel s) t (o.wheel_keys s t.inner.device)
        (o.wheel_buttons s t.inner.device)

  pub sync-Keeps :
      (i : Item) (ks : List Key) (bs : List MouseButton) (t : Tracked (logged J))
      → Keeps J o i t (sync (logged J) ks bs t).0
  unfolding sync flushed press_missing_buttons press_missing release_unwanted_buttons
      release_unwanted
  sync-Keeps i ks bs t = Keeps-after J o i t _ _ (set_keys-Keeps i false _ t none) (
      Keeps-after J o i _ _ _ (set_buttons-Keeps i false _ _ _) (
        Keeps-after J o i _ _ _ (set_keys-Keeps i true _ _ _)
          (Keeps-after J o i _ _ _ (set_buttons-Keeps i true _ _ _) (flush-Keeps i _))))

  -- The items of the list are as told, unless one was refused.
  pub has-set_keys :
      (i : Item) (down : Bool) (ks : List Key) (t : Tracked (logged J)) (first : Outcome)
      → refused J i down (set_keys (logged J) down ks t first).0.inner ≡ false
      → has (logged J) i (set_keys (logged J) down ks t first).0
        ≡ (if in_keys i ks then down else has (logged J) i t)
  unfolding set_keys
  has-set_keys i down [] t first r = sym (none_in i)
    where
      none_in :
          (i : Item) → (if in_keys i [] then down else has (logged J) i t) ≡ has (logged J) i t
      none_in (a_key k) = refl
      none_in (a_button b) = refl
  has-set_keys i down (k ∷ ks) t first r =
      let u = key (logged J) k down t in
      let before = (set_keys-Keeps i down ks u.0 (keep_first first u.1)).0 down r in
      let rest = has-set_keys i down ks u.0 (keep_first first u.1) r in
      let one = has-key J i k down t before in ground (arith, rest, one, either i)
    where
      either : (i : Item) → in_keys i (k ∷ ks) ≡ is_key i k || in_keys i ks
      either (a_key j) = ground arith
      either (a_button b) = refl

  pub has-set_buttons :
      (i : Item) (down : Bool) (bs : List MouseButton) (t : Tracked (logged J)) (first : Outcome)
      → refused J i down (set_buttons (logged J) down bs t first).0.inner ≡ false
      → has (logged J) i (set_buttons (logged J) down bs t first).0
        ≡ (if in_buttons i bs then down else has (logged J) i t)
  unfolding set_buttons
  has-set_buttons i down [] t first r = sym (none_in i)
    where
      none_in :
          (i : Item) → (if in_buttons i [] then down else has (logged J) i t) ≡ has (logged J) i t
      none_in (a_key k) = refl
      none_in (a_button b) = refl
  has-set_buttons i down (b ∷ bs) t first r =
      let u = button (logged J) b down t in
      let before = (set_buttons-Keeps i down bs u.0 (keep_first first u.1)).0 down r in
      let rest = has-set_buttons i down bs u.0 (keep_first first u.1) r in
      let one = has-button J i b down t before in ground (arith, rest, one, either i)
    where
      either : (i : Item) → in_buttons i (b ∷ bs) ≡ is_button i b || in_buttons i bs
      either (a_button c) = ground arith
      either (a_key k) = refl
