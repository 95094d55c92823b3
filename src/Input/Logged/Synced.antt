-- ===== src/Input/Logged/Synced.antt =====
-- crates/smkvm-input/src/lib.rs: `sync` on a platform with a log.
use smkvm.Base.{Bool, true, false, ◌≡◌, ◌∙◌, not, ◌&&◌, ◌||◌, none, List, [], arith}
use smkvm.Base.Lists.{contains, retain}
use smkvm.Base.Sets
use smkvm.Proto.Keys.{Key, key_eq, key_ord, MouseButton, button_eq, button_ord}
use smkvm.Input.Inject.{Inject, Outcome, IsObedient}
use smkvm.Input.Tracked.{
  Tracked, release_order, press_order, sync, flush, flushed, press_missing_buttons, press_missing,
  release_unwanted_buttons, release_unwanted,
}
use smkvm.Input.Tracked.Exact.{contains-release_order, contains-press_order}
use smkvm.Input.Logged.{Item, a_key, a_button, logged, refused, has}
use smkvm.Input.Logged.Keeps.{Keeps}
use smkvm.Input.Logged.Notes.{has-inner}
use smkvm.Input.Logged.Loops.{
  set_keys-Keeps, set_buttons-Keeps, flush-Keeps, has-set_keys, has-set_buttons,
}

module _ (J : Inject) (o : IsObedient J) where
  -- Whether the two lists of `sync` have the item.
  abbrev pub wanted : Item → List Key → List MouseButton → Bool
  wanted (a_key k) ks bs = contains ks k
  wanted (a_button b) ks bs = contains bs b

  -- The loops that let go of what is not wanted.
  has-release_unwanted :
      (i : Item) (ks : List Key) (r : Tracked (logged J) × Outcome)
      → refused J i false (release_unwanted (logged J) ks r).0.inner ≡ false
      → has (logged J) i (release_unwanted (logged J) ks r).0
        ≡ (wanted i ks r.0.buttons && has (logged J) i r.0)
  unfolding release_unwanted
  has-release_unwanted (a_key k) ks r h =
      let unwanted = retain (λ k. not (contains ks k)) r.0.keys in
      ground (
        arith,
        has-set_keys J o (a_key k) false (release_order unwanted) r.0 r.1 h,
        contains-release_order unwanted k,
        Sets.contains-retain (λ k. not (contains ks k)) r.0.keys k,
      )
  has-release_unwanted (a_button b) ks r h =
      let unwanted = retain (λ k. not (contains ks k)) r.0.keys in
      ground (arith, has-set_keys J o (a_button b) false (release_order unwanted) r.0 r.1 h)

  has-release_unwanted_buttons :
      (i : Item) (bs : List MouseButton) (r : Tracked (logged J) × Outcome)
      → refused J i false (release_unwanted_buttons (logged J) bs r).0.inner ≡ false
      → has (logged J) i (release_unwanted_buttons (logged J) bs r).0
        ≡ (wanted i r.0.keys bs && has (logged J) i r.0)
  unfolding release_unwanted_buttons
  has-release_unwanted_buttons (a_button b) bs r h =
      let unwanted = retain (λ b. not (contains bs b)) r.0.buttons in
      ground (
        arith,
        has-set_buttons J o (a_button b) false unwanted r.0 r.1 h,
        Sets.contains-retain (λ b. not (contains bs b)) r.0.buttons b,
      )
  has-release_unwanted_buttons (a_key k) bs r h =
      let unwanted = retain (λ b. not (contains bs b)) r.0.buttons in
      ground (arith, has-set_buttons J o (a_key k) false unwanted r.0 r.1 h)

  -- The loops that press what is missing.
  has-press_missing :
      (i : Item) (ks : List Key) (r : Tracked (logged J) × Outcome)
      → refused J i true (press_missing (logged J) ks r).0.inner ≡ false
      → has (logged J) i (press_missing (logged J) ks r).0
        ≡ (wanted i ks [] || has (logged J) i r.0)
  unfolding press_missing
  has-press_missing (a_key k) ks r h =
      let missing = retain (λ k. not (contains r.0.keys k)) ks in
      ground (
        arith,
        has-set_keys J o (a_key k) true (press_order missing) r.0 r.1 h,
        contains-press_order missing k,
        Sets.contains-retain (λ k. not (contains r.0.keys k)) ks k,
      )
  has-press_missing (a_button b) ks r h =
      let missing = retain (λ k. not (contains r.0.keys k)) ks in
      ground (arith, has-set_keys J o (a_button b) true (press_order missing) r.0 r.1 h)

  has-press_missing_buttons :
      (i : Item) (bs : List MouseButton) (r : Tracked (logged J) × Outcome)
      → refused J i true (press_missing_buttons (logged J) bs r).0.inner ≡ false
      → has (logged J) i (press_missing_buttons (logged J) bs r).0
        ≡ (wanted i [] bs || has (logged J) i r.0)
  unfolding press_missing_buttons
  has-press_missing_buttons (a_button b) bs r h =
      let missing = retain (λ b. not (contains r.0.buttons b)) bs in
      ground (
        arith,
        has-set_buttons J o (a_button b) true missing r.0 r.1 h,
        Sets.contains-retain (λ b. not (contains r.0.buttons b)) bs b,
      )
  has-press_missing_buttons (a_key k) bs r h =
      let missing = retain (λ b. not (contains r.0.buttons b)) bs in
      ground (arith, has-set_buttons J o (a_key k) true missing r.0 r.1 h)

  release_unwanted_buttons-Keeps :
      (i : Item) (want : List MouseButton) (r : Tracked (logged J) × Outcome)
      → Keeps J o i r.0 (release_unwanted_buttons (logged J) want r).0
  unfolding release_unwanted_buttons
  release_unwanted_buttons-Keeps i want r = set_buttons-Keeps J o i false _ r.0 r.1

  press_missing-Keeps :
      (i : Item) (want : List Key) (r : Tracked (logged J) × Outcome)
      → Keeps J o i r.0 (press_missing (logged J) want r).0
  unfolding press_missing
  press_missing-Keeps i want r = set_keys-Keeps J o i true _ r.0 r.1

  press_missing_buttons-Keeps :
      (i : Item) (want : List MouseButton) (r : Tracked (logged J) × Outcome)
      → Keeps J o i r.0 (press_missing_buttons (logged J) want r).0
  unfolding press_missing_buttons
  press_missing_buttons-Keeps i want r = set_buttons-Keeps J o i true _ r.0 r.1

  -- After `sync` the record has the item if the lists do, unless the platform refused it.
  pub has-sync :
      (i : Item) (ks : List Key) (bs : List MouseButton) (t : Tracked (logged J))
      → refused J i false (sync (logged J) ks bs t).0.inner ≡ false
      → refused J i true (sync (logged J) ks bs t).0.inner ≡ false
      → has (logged J) i (sync (logged J) ks bs t).0 ≡ wanted i ks bs
  unfolding sync flushed flush
  has-sync i ks bs t h g =
      let L = logged J in
      let want = Sets.collect ks in
      let want_buttons = Sets.collect bs in
      let r1 = release_unwanted L want (t, none) in
      let r2 = release_unwanted_buttons L want_buttons r1 in
      let r3 = press_missing L want r2 in
      let r4 = press_missing_buttons L want_buttons r3 in
      let h4 = (flush-Keeps J o i r4.0).0 false h in
      let h3 = (press_missing_buttons-Keeps i want_buttons r3).0 false h4 in
      let h2 = (press_missing-Keeps i want r2).0 false h3 in
      let h1 = (release_unwanted_buttons-Keeps i want_buttons r1).0 false h2 in
      let g4 = (flush-Keeps J o i r4.0).0 true g in
      let g3 = (press_missing_buttons-Keeps i want_buttons r3).0 true g4 in
      has-inner J i r4.0 _
      ∙ together i r1.0 r2.0 r3.0 r4.0 (has-release_unwanted i want (t, none) h1)
          (has-release_unwanted_buttons i want_buttons r1 h2) (has-press_missing i want r2 g3)
          (has-press_missing_buttons i want_buttons r3 g4)
    where
      together :
          (i : Item) (r1 r2 r3 r4 : Tracked (logged J))
          → has (logged J) i r1 ≡ (wanted i (Sets.collect ks) t.buttons && has (logged J) i t)
          → has (logged J) i r2 ≡ (wanted i r1.keys (Sets.collect bs) && has (logged J) i r1)
          → has (logged J) i r3 ≡ (wanted i (Sets.collect ks) [] || has (logged J) i r2)
          → has (logged J) i r4 ≡ (wanted i [] (Sets.collect bs) || has (logged J) i r3)
          → has (logged J) i r4 ≡ wanted i ks bs
      together (a_key k) r1 r2 r3 r4 e1 e2 e3 e4 = ground (arith, Sets.contains-collect ks k)
      together (a_button b) r1 r2 r3 r4 e1 e2 e3 e4 = ground (arith, Sets.contains-collect bs b)
