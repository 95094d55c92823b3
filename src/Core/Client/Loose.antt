-- ===== src/Core/Client/Loose.antt =====
-- crates/smkvm-core/src/client.rs: nothing stays held on a machine that the cursor has left.
use smkvm.Base.{sym, true, false, ◌≡◌, ◌∙◌, inl, inr, Bool-cases, List, arith}
use smkvm.Proto.Keys.{key_eq, button_eq}
use smkvm.Proto.Msg.{
  SuspendReason, enter, leave, move_to, button, wheel, key_event, sync_keys, release_all, ping,
  pong, goodbye, hello, rejected, bulk,
}
use smkvm.Input.Inject.{Inject, IsObedient}
use smkvm.Input.Tracked
use smkvm.Input.Tracked.{Tracked, on_inner}
use smkvm.Input.Logged.{Item, logged, refused, has, holds}
use smkvm.Input.Logged.Keeps.{Same, Keeps}
use smkvm.Input.Logged.Notes.{has-inner}
use smkvm.Input.Logged.Released.{release_all-frees, refused-release_all}
use smkvm.Core.Client.{Client, is_reason, suspend, disconnected, handle}
use smkvm.Core.Client.Session.{Event, said, stopped, works, lost, step, run, all_typed, lets_go}
use smkvm.Core.Client.Kept.{show-Keeps, hide-Keeps}
use smkvm.Core.Client.Runs.{run-Agrees}

module _ (J : Inject) (o : IsObedient J) where
  loosed :
      (i : Item) (t : Tracked (logged J))
      → (refused J i false t.inner ≡ false → Same J o i t)
      → refused J i false (Tracked.release_all (logged J) t).0.inner ≡ false
      → (has (logged J) i (Tracked.release_all (logged J) t).0 ≡ false)
        × (holds J o i (Tracked.release_all (logged J) t).0.inner.device ≡ false)
  loosed i t m r = release_all-frees J o i t (m (refused-release_all J o i false t r)) r

  -- After letting go, and a call that moves no key and no button.
  freed :
      (i : Item) (t u : Tracked (logged J))
      → (refused J i false t.inner ≡ false → Same J o i t)
      → Keeps J o i (Tracked.release_all (logged J) t).0 u
      → refused J i false u.inner ≡ false
      → has (logged J) i u ≡ has (logged J) i (Tracked.release_all (logged J) t).0
      → holds J o i u.inner.device ≡ false
  freed i t u m k r same =
      let e = loosed i t m (k.0 false r) in sym (k.1 (e.0 ∙ sym e.1)) ∙ same ∙ e.0

  suspend-holds :
      (i : Item) (reason : SuspendReason) (c : Client (logged J))
      → (refused J i false c.input.inner ≡ false → Same J o i c.input)
      → lets_go (logged J) (stopped reason) c ≡ true
      → refused J i false (suspend (logged J) reason c).0.input.inner ≡ false
      → holds J o i (suspend (logged J) reason c).0.input.inner.device ≡ false
  unfolding lets_go suspend
  suspend-holds i reason c m h = elim (Bool-cases (is_reason reason c.suspended)) [
    | inl e ↦ absurd (ground (arith, e, h))
    | inr e ↦ rw (e, suspend) (λ r. (loosed i c.input m r).1)
  ]

  -- Each event on which a client lets go leaves the item free.
  step-holds :
      (i : Item) (e : Event) (c : Client (logged J))
      → (refused J i false c.input.inner ≡ false → Same J o i c.input)
      → lets_go (logged J) e c ≡ true
      → refused J i false (step (logged J) e c).input.inner ≡ false
      → holds J o i (step (logged J) e c).input.inner.device ≡ false
  unfolding step lets_go disconnected handle
  step-holds i (said leave) c m h r =
      let t = (Tracked.release_all (logged J) c.input).0 in
      freed i c.input _ m (hide-Keeps J o i t) r (has-inner J i t _)
  step-holds i (said release_all) c m h r = (loosed i c.input m r).1
  step-holds i (said goodbye) c m h r =
      let t = (Tracked.release_all (logged J) c.input).0 in
      freed i c.input _ m (show-Keeps J o i t) r (has-inner J i t _)
  step-holds i (stopped reason) c m h r = suspend-holds i reason c m h r
  step-holds i lost c m h r =
      let t = (Tracked.release_all (logged J) c.input).0 in
      freed i c.input _ m (show-Keeps J o i t) r (has-inner J i t _)
  step-holds i (said (enter at ks bs)) c m h r = cc
  step-holds i (said (move_to x z)) c m h r = cc
  step-holds i (said (button b down)) c m h r = cc
  step-holds i (said (wheel s)) c m h r = cc
  step-holds i (said (key_event k down repeat)) c m h r = cc
  step-holds i (said (sync_keys ks bs)) c m h r = cc
  step-holds i (said (ping id)) c m h r = cc
  step-holds i (said (pong id)) c m h r = cc
  step-holds i (said (hello x)) c m h r = cc
  step-holds i (said (rejected x)) c m h r = cc
  step-holds i (said (bulk b)) c m h r = cc
  step-holds i works c m h r = cc

  -- The same after a sequence of events.
  pub holds-step-logged :
      (i : Item) (es : List Event) (e : Event) (c : Client (logged J))
      → has (logged J) i c.input ≡ holds J o i c.input.inner.device
      → all_typed (logged J) i es c ≡ true
      → lets_go (logged J) e (run (logged J) es c) ≡ true
      → refused J i false (step (logged J) e (run (logged J) es c)).input.inner ≡ false
      → holds J o i (step (logged J) e (run (logged J) es c)).input.inner.device ≡ false
  holds-step-logged i es e c m h g r =
      step-holds i e (run (logged J) es c) (λ q. (run-Agrees J o i es c h).1 q m) g r
