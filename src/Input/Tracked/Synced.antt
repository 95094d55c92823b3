-- ===== src/Input/Tracked/Synced.antt =====
-- crates/smkvm-input/src/lib.rs: the loops of `sync`, and what is remembered after them.
use smkvm.Base.{true, false, ◌≡◌, ap, not, ◌&&◌, ◌||◌, none, List, arith}
use smkvm.Base.Lists.{contains, retain}
use smkvm.Base.Sets
use smkvm.Proto.Keys.{Key, key_eq, key_ord, MouseButton, button_eq, button_ord}
use smkvm.Input.Inject.{Inject, Outcome}
use smkvm.Input.Tracked.{
  Tracked, release_order, press_order, sync, flush, flushed, press_missing_buttons, press_missing,
  release_unwanted_buttons, release_unwanted,
}
use smkvm.Input.Tracked.Exact.{
  contains-release_order, contains-press_order, keep_first-none, buttons-set_keys, keys-set_buttons,
  set_keys_done, set_buttons_done,
}

module _ (J : Inject) where
  keys-release_unwanted :
      (wanted : List Key) (r : Tracked J × Outcome)
      → (release_unwanted J wanted r).1 ≡ none
      → (r.1 ≡ none)
        × ((j : Key)
            → contains (release_unwanted J wanted r).0.keys j
              ≡ (contains wanted j && contains r.0.keys j))
  unfolding release_unwanted
  keys-release_unwanted wanted r h =
      let unwanted = retain (λ k. not (contains wanted k)) r.0.keys in
      let done = set_keys_done J false (release_order unwanted) r.0 r.1 h in
      (
        done.0,
        λ j. ground (
          arith,
          done.1 j,
          contains-release_order unwanted j,
          Sets.contains-retain (λ k. not (contains wanted k)) r.0.keys j,
        ),
      )

  keys-press_missing :
      (wanted : List Key) (r : Tracked J × Outcome)
      → (press_missing J wanted r).1 ≡ none
      → (r.1 ≡ none)
        × ((j : Key)
            → contains (press_missing J wanted r).0.keys j
              ≡ (contains wanted j || contains r.0.keys j))
  unfolding press_missing
  keys-press_missing wanted r h =
      let missing = retain (λ k. not (contains r.0.keys k)) wanted in
      let done = set_keys_done J true (press_order missing) r.0 r.1 h in
      (
        done.0,
        λ j. ground (
          arith,
          done.1 j,
          contains-press_order missing j,
          Sets.contains-retain (λ k. not (contains r.0.keys k)) wanted j,
        ),
      )

  buttons-release_unwanted_buttons :
      (wanted : List MouseButton) (r : Tracked J × Outcome)
      → (release_unwanted_buttons J wanted r).1 ≡ none
      → (r.1 ≡ none)
        × ((c : MouseButton)
            → contains (release_unwanted_buttons J wanted r).0.buttons c
              ≡ (contains wanted c && contains r.0.buttons c))
  unfolding release_unwanted_buttons
  buttons-release_unwanted_buttons wanted r h =
      let unwanted = retain (λ b. not (contains wanted b)) r.0.buttons in
      let done = set_buttons_done J false unwanted r.0 r.1 h in
      (
        done.0,
        λ c.
            ground
              (arith, done.1 c, Sets.contains-retain (λ b. not (contains wanted b)) r.0.buttons c),
      )

  buttons-press_missing_buttons :
      (wanted : List MouseButton) (r : Tracked J × Outcome)
      → (press_missing_buttons J wanted r).1 ≡ none
      → (r.1 ≡ none)
        × ((c : MouseButton)
            → contains (press_missing_buttons J wanted r).0.buttons c
              ≡ (contains wanted c || contains r.0.buttons c))
  unfolding press_missing_buttons
  buttons-press_missing_buttons wanted r h =
      let missing = retain (λ b. not (contains r.0.buttons b)) wanted in
      let done = set_buttons_done J true missing r.0 r.1 h in
      (
        done.0,
        λ c.
            ground
              (arith, done.1 c, Sets.contains-retain (λ b. not (contains r.0.buttons b)) wanted c),
      )

  keys-press_missing_buttons :
      (wanted : List MouseButton) (r : Tracked J × Outcome)
      → (press_missing_buttons J wanted r).0.keys ≡ r.0.keys
  unfolding press_missing_buttons
  keys-press_missing_buttons wanted r =
      keys-set_buttons J true (retain (λ b. not (contains r.0.buttons b)) wanted) r.0 r.1

  keys-release_unwanted_buttons :
      (wanted : List MouseButton) (r : Tracked J × Outcome)
      → (release_unwanted_buttons J wanted r).0.keys ≡ r.0.keys
  unfolding release_unwanted_buttons
  keys-release_unwanted_buttons wanted r =
      keys-set_buttons J false (retain (λ b. not (contains wanted b)) r.0.buttons) r.0 r.1

  buttons-press_missing :
      (wanted : List Key) (r : Tracked J × Outcome)
      → (press_missing J wanted r).0.buttons ≡ r.0.buttons
  unfolding press_missing
  buttons-press_missing wanted r =
      buttons-set_keys J true (press_order (retain (λ k. not (contains r.0.keys k)) wanted)) r.0 r.1

  -- Without an error, what is remembered afterwards is what was asked for.
  pub sync_exact :
      (ks : List Key) (bs : List MouseButton) (t : Tracked J)
      → (sync J ks bs t).1 ≡ none
      → ((k : Key) → contains (sync J ks bs t).0.keys k ≡ contains ks k)
        × ((b : MouseButton) → contains (sync J ks bs t).0.buttons b ≡ contains bs b)
  unfolding sync flushed flush
  sync_exact ks bs t h =
      let wanted = Sets.collect ks in
      let wanted_buttons = Sets.collect bs in
      let r1 = release_unwanted J wanted (t, none) in
      let r2 = release_unwanted_buttons J wanted_buttons r1 in
      let r3 = press_missing J wanted r2 in
      let r4 = press_missing_buttons J wanted_buttons r3 in
      let h4 = (keep_first-none r4.1 (J.flush r4.0.inner).1 h).0 in
      let d4 = buttons-press_missing_buttons wanted_buttons r3 h4 in
      let d3 = keys-press_missing wanted r2 d4.0 in
      let d2 = buttons-release_unwanted_buttons wanted_buttons r1 d3.0 in
      let d1 = keys-release_unwanted wanted (t, none) d2.0 in
      (
        (λ k. ground (
          arith,
          ap (λ l. contains l k) (keys-press_missing_buttons wanted_buttons r3),
          d3.1 k,
          ap (λ l. contains l k) (keys-release_unwanted_buttons wanted_buttons r1),
          d1.1 k,
          Sets.contains-collect ks k,
        )),
        (λ b. ground (
          arith,
          d4.1 b,
          ap (λ l. contains l b) (buttons-press_missing wanted r2),
          d2.1 b,
          Sets.contains-collect bs b,
        )),
      )
