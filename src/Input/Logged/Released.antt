-- ===== src/Input/Logged/Released.antt =====
-- crates/smkvm-input/src/lib.rs: `release_all` and `sync` on a platform with a log.
use smkvm.Base.{Bool, false, ◌≡◌, refl, sym, ◌∙◌, none, [], arith}
use smkvm.Proto.Keys.{key_eq, key_ord, button_eq, button_ord}
use smkvm.Input.Inject.{Inject, Outcome, IsObedient}
use smkvm.Input.Tracked.{
  Tracked, release_order, set_keys, flush, flushed, release_all, release_buttons,
}
use smkvm.Input.Tracked.Exact.{contains-release_order}
use smkvm.Input.Logged.{Item, a_key, a_button, Logged, logged, refused, has, holds}
use smkvm.Input.Logged.Keeps.{Same, Keeps, Keeps-after}
use smkvm.Input.Logged.Notes.{has-inner}
use smkvm.Input.Logged.Loops.{
  set_keys-Keeps, set_buttons-Keeps, flush-Keeps, has-set_keys, has-set_buttons,
}

module _ (J : Inject) (o : IsObedient J) where
  -- What `release_all` has done when it clears the record.
  abbrev tried : Tracked (logged J) → Tracked (logged J) × Outcome
  tried t = release_buttons (logged J) (set_keys (logged J) false (release_order t.keys) t none)

  tried-Keeps : (i : Item) (t : Tracked (logged J)) → Keeps J o i t (tried t).0
  unfolding release_buttons
  tried-Keeps i t =
      let r = set_keys (logged J) false (release_order t.keys) t none in
      Keeps-after J o i t r.0 _ (set_keys-Keeps J o i false (release_order t.keys) t none)
        (set_buttons-Keeps J o i false r.0.buttons r.0 r.1)

  has-tried :
      (i : Item) (t : Tracked (logged J))
      → refused J i false (tried t).0.inner ≡ false
      → has (logged J) i (tried t).0 ≡ false
  unfolding release_buttons
  has-tried (a_key k) t h =
      let r = set_keys (logged J) false (release_order t.keys) t none in
      let before = (set_buttons-Keeps J o (a_key k) false r.0.buttons r.0 r.1).0 false h in
      ground (
        arith,
        has-set_buttons J o (a_key k) false r.0.buttons r.0 r.1 h,
        has-set_keys J o (a_key k) false (release_order t.keys) t none before,
        contains-release_order t.keys k,
      )
  has-tried (a_button b) t h =
      let r = set_keys (logged J) false (release_order t.keys) t none in
      ground (arith, has-set_buttons J o (a_button b) false r.0.buttons r.0 r.1 h)

  -- An item that the platform has not refused to let go of, and of which the record and the device
  -- agreed, is not held after `release_all`, and the record says so.
  pub release_all-frees :
      (i : Item) (t : Tracked (logged J))
      → Same J o i t
      → refused J i false (release_all (logged J) t).0.inner ≡ false
      → (has (logged J) i (release_all (logged J) t).0 ≡ false)
        × (holds J o i (release_all (logged J) t).0.inner.device ≡ false)
  unfolding release_all flushed flush
  release_all-frees i t m h =
      let u = (tried t).0 in
      let flushed_too = flush-Keeps J o i u in
      let gone = has-tried i t (flushed_too.0 false h) in
      (nothing i _, sym (flushed_too.1 ((tried-Keeps i t).1 m)) ∙ has-inner J i u _ ∙ gone)
    where
      nothing :
          (i : Item) (d : Logged J)
          → has (logged J) i (record { inner = d; keys = []; buttons = [] }) ≡ false
      nothing (a_key k) d = refl
      nothing (a_button b) d = refl

  pub refused-release_all :
      (i : Item) (w : Bool) (t : Tracked (logged J))
      → refused J i w (release_all (logged J) t).0.inner ≡ false
      → refused J i w t.inner ≡ false
  unfolding release_all flushed flush
  refused-release_all i w t h = (tried-Keeps i t).0 w ((flush-Keeps J o i (tried t).0).0 w h)
