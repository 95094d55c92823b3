-- ===== src/Core/Client/Runs.antt =====
-- crates/smkvm-core/src/client.rs: the record of what is held stays right over a run.
use smkvm.Base.{
  ap, sym, ◌∙◌, not, ◌||◌, refl, Bool, true, false, ◌≡◌, inl, inr, Option-cases, Bool-cases, Option,
  List, [], ◌∷◌, arith, if◌then◌else◌,
}
use smkvm.Base.Lists.{contains}
use smkvm.Proto.Keys.{Key, key_eq, key_ord, button_eq}
use smkvm.Proto.Msg.{
  ServerControl, enter, leave, move_to, button, wheel, key_event, sync_keys, release_all, ping,
  pong, goodbye, hello, rejected, bulk,
}
use smkvm.Input.Inject.{Inject, InputError, Outcome, IsObedient}
use smkvm.Input.Tracked
use smkvm.Input.Tracked.{Tracked, on_inner}
use smkvm.Input.Logged.{Item, a_key, a_button, Logged, logged, is_key, refused, has, holds}
use smkvm.Input.Logged.Keeps.{Keeps, Keeps-after, key-Keeps, button-Keeps}
use smkvm.Input.Logged.Notes.{has-inner}
use smkvm.Input.Logged.Loops.{flush-Keeps, move_to-Keeps, wheel-Keeps, sync-Keeps}
use smkvm.Core.Client.{
  Client, note, refusal, key_refusal, deliverable, inject, type_key, arrive, handle,
}
use smkvm.Core.Client.Session.{Event, said, stopped, works, lost, step, run, is_typed, all_typed}
use smkvm.Input.Tracked.Held.{contains_noted}
use smkvm.Core.Client.Kept.{
  Agrees, Agrees-after, Keeps-Agrees, released, show-Keeps, hide-Keeps, suspend-Agrees,
  resume-Agrees, disconnected-Agrees,
}

module _ (J : Inject) (o : IsObedient J) where
  inner-key :
      (k : Key) (down : Bool) (t : Tracked (logged J))
      → (Tracked.key (logged J) k down t).0.inner ≡ ((logged J).key k down t.inner).0
  unfolding Tracked.key
  inner-key k down t = elim (Option-cases ((J.key k down t.inner.device).1)) [
    | inl e ↦ rw e refl
    | inr (x, e) ↦ rw e refl
  ]

  -- A key that is down goes down again, and the record has it already.
  has-key_again :
      (i : Item) (k : Key) (t : Tracked (logged J))
      → (not (is_key i k) || contains t.keys k) ≡ true
      → has (logged J) i (Tracked.key (logged J) k true t).0 ≡ has (logged J) i t
  unfolding Tracked.key
  has-key_again (a_key j) k t h = elim (Option-cases ((J.key k true t.inner.device).1)) [
    | inl e ↦ rw e (ground (arith, contains_noted k j true t.keys, h, key_eq.same_iff k j))
    | inr (x, e) ↦ rw e refl
  ]
  has-key_again (a_button b) k t h = elim (Option-cases ((J.key k true t.inner.device).1)) [
    | inl e ↦ rw e refl
    | inr (x, e) ↦ rw e refl
  ]

  repeat-Keeps :
      (i : Item) (k : Key) (t : Tracked (logged J))
      → (not (is_key i k) || contains t.keys k) ≡ true
      → Keeps J o i t (on_inner (logged J) ((logged J).key k true) t).0
  repeat-Keeps i k t h =
      let kept = key-Keeps J o i k true t in
      let inner = inner-key k true t in
      (
        (λ w r. kept.0 w (ap (refused J i w) inner ∙ r)),
        (λ m.
            has-inner J i t _
            ∙ sym (has-key_again i k t h)
            ∙ kept.1 m
            ∙ ap (λ (d : Logged J). holds J o i d.device) inner),
      )

  type_key-Keeps :
      (i : Item) (k : Key) (down repeat : Bool) (c : Client (logged J))
      → is_typed (logged J) i (said (key_event k down repeat)) c ≡ true
      → Keeps J o i c.input (type_key (logged J) k down repeat c.input).0
  unfolding is_typed
  type_key-Keeps i k true true c h = repeat-Keeps i k c.input h
  type_key-Keeps i k false true c h = key-Keeps J o i k false c.input
  type_key-Keeps i k true false c h = key-Keeps J o i k true c.input
  type_key-Keeps i k false false c h = key-Keeps J o i k false c.input

  -- What was refused stays in the log, typed or not.
  pub refused-type_key :
      (i : Item) (w : Bool) (k : Key) (down repeat : Bool) (t : Tracked (logged J))
      → refused J i w (type_key (logged J) k down repeat t).0.inner ≡ false
      → refused J i w t.inner ≡ false
  refused-type_key i w k true true t r =
      (key-Keeps J o i k true t).0 w (ap (refused J i w) (inner-key k true t) ∙ r)
  refused-type_key i w k false true t r = (key-Keeps J o i k false t).0 w r
  refused-type_key i w k true false t r = (key-Keeps J o i k true t).0 w r
  refused-type_key i w k false false t r = (key-Keeps J o i k false t).0 w r

  -- An input event that may be put on the screen or not.
  delivered-Agrees :
      (i : Item) (c : Client (logged J)) (noted : Outcome → Option InputError → Option InputError)
      (f : Tracked (logged J) → Tracked (logged J) × Outcome)
      → Keeps J o i c.input (f c.input).0
      → Agrees J o i c.input
          (if deliverable (logged J) c then inject (logged J) noted f c else c).input
  delivered-Agrees i c noted f n = elim (Bool-cases (deliverable (logged J) c)) [
    | inl e ↦ rw e (
        Keeps-Agrees J o i c.input _
          (Keeps-after J o i c.input (f c.input).0 _ n (flush-Keeps J o i (f c.input).0)))
    | inr e ↦ rw e ((λ w r. r), (λ r m. m))
  ]

  pub handle-Agrees :
      (i : Item) (msg : ServerControl) (c : Client (logged J))
      → is_typed (logged J) i (said msg) c ≡ true
      → Agrees J o i c.input (handle (logged J) msg c).0.input
  unfolding handle arrive note is_typed
  handle-Agrees i (enter at ks bs) c h =
      let moved = (Tracked.move_to (logged J) at.x at.y c.input).0 in
      Keeps-Agrees J o i c.input _ (
        Keeps-after J o i c.input moved _ (move_to-Keeps J o i at.x at.y c.input)
          (Keeps-after J o i moved _ _ (show-Keeps J o i moved) (sync-Keeps J o i ks bs _)))
  handle-Agrees i leave c h =
      let t = (Tracked.release_all (logged J) c.input).0 in
      Agrees-after J o i c.input t _ (released J o i c.input)
        (Keeps-Agrees J o i t _ (hide-Keeps J o i t))
  handle-Agrees i (move_to x y) c h =
      delivered-Agrees i c refusal (Tracked.move_to (logged J) x y)
        (move_to-Keeps J o i x y c.input)
  handle-Agrees i (button b down) c h =
      delivered-Agrees i c refusal (Tracked.button (logged J) b down)
        (button-Keeps J o i b down c.input)
  handle-Agrees i (wheel s) c h =
      delivered-Agrees i c refusal (Tracked.wheel (logged J) s) (wheel-Keeps J o i s c.input)
  handle-Agrees i (key_event k down repeat) c h =
      delivered-Agrees i c key_refusal (type_key (logged J) k down repeat)
        (type_key-Keeps i k down repeat c h)
  handle-Agrees i (sync_keys ks bs) c h =
      Keeps-Agrees J o i c.input _ (sync-Keeps J o i ks bs c.input)
  handle-Agrees i release_all c h = released J o i c.input
  handle-Agrees i (ping id) c h = ((λ w r. r), (λ r m. m))
  handle-Agrees i (pong id) c h = ((λ w r. r), (λ r m. m))
  handle-Agrees i goodbye c h = disconnected-Agrees J o i c
  handle-Agrees i (hello x) c h = ((λ w r. r), (λ r m. m))
  handle-Agrees i (rejected r) c h = ((λ w r. r), (λ r m. m))
  handle-Agrees i (bulk b) c h = ((λ w r. r), (λ r m. m))

  pub step-Agrees :
      (i : Item) (e : Event) (c : Client (logged J))
      → is_typed (logged J) i e c ≡ true
      → Agrees J o i c.input (step (logged J) e c).input
  unfolding step
  step-Agrees i (said msg) c h = handle-Agrees i msg c h
  step-Agrees i (stopped reason) c h = suspend-Agrees J o i reason c
  step-Agrees i works c h = resume-Agrees J o i c
  step-Agrees i lost c h = disconnected-Agrees J o i c

  pub run-Agrees :
      (i : Item) (es : List Event) (c : Client (logged J))
      → all_typed (logged J) i es c ≡ true
      → Agrees J o i c.input (run (logged J) es c).input
  unfolding run all_typed
  run-Agrees i [] c h = ((λ w r. r), (λ r m. m))
  run-Agrees i (e ∷ es) c h =
      let d = step (logged J) e c in
      Agrees-after J o i c.input d.input _ (step-Agrees i e c (ground arith))
        (run-Agrees i es d (ground arith))
