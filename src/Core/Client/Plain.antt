-- ===== src/Core/Client/Plain.antt =====
-- crates/smkvm-core/src/client.rs: the log of refusals changes nothing of what a client does.
use smkvm.Base.{
  Bool, true, false, ◌≡◌, refl, ap, ◌∙◌, inl, inr, Bool-cases, Option-cases, Option, some, List, [],
  ◌∷◌, if◌then◌else◌,
}
use smkvm.Base.Int.{ℤ}
use smkvm.Proto.Keys.{Key, MouseButton}
use smkvm.Proto.Msg.{
  SuspendReason, ServerControl, enter, leave, move_to, button, wheel, key_event, sync_keys,
  release_all, ping, pong, goodbye, hello, rejected, bulk,
}
use smkvm.Input.Inject.{Inject, InputError, Outcome}
use smkvm.Input.Tracked
use smkvm.Input.Tracked.{Tracked, on_inner}
use smkvm.Input.Logged.{Item, a_key, a_button, unlogged, logged, has}
use smkvm.Input.Logged.Notes.{device-log_key}
use smkvm.Input.Logged.Plain.{unlog, plain, plain-key, plain-button, plain-release_all, plain-sync}
use smkvm.Core.Client.{
  Client, is_reason, refusal, key_refusal, deliverable, suspend, resume, disconnected, inject,
  type_key, arrive, note, handle,
}
use smkvm.Core.Client.Session.{
  Event, said, stopped, works, lost, step, run, lets_go, is_typed, all_typed,
}

module _ (J : Inject) where
  abbrev pub unlog_client : Client (logged J) → Client J
  unlog_client c = record {
    input = unlog J c.input;
    active = c.active;
    suspended = c.suspended;
    refused = c.refused;
  }

  plain-type_key :
      (k : Key) (down repeat : Bool) (t : Tracked (logged J))
      → plain J (type_key (logged J) k down repeat t) ≡ type_key J k down repeat (unlog J t)
  plain-type_key k true true t =
      let r = J.key k true t.inner.device in
      ap (λ (d : J.Device). (record (unlog J t) { inner = d }, r.1))
        (device-log_key J k true r.1 (record (t.inner) { device = r.0 }))
  plain-type_key k false true t = plain-key J k false t
  plain-type_key k true false t = plain-key J k true t
  plain-type_key k false false t = plain-key J k false t

  plain-suspend :
      (reason : SuspendReason) (c : Client (logged J))
      → unlog_client (suspend (logged J) reason c).0 ≡ (suspend J reason (unlog_client c)).0
  unfolding suspend
  plain-suspend reason c = elim (Bool-cases (is_reason reason c.suspended)) [
    | inl e ↦ rw (e, suspend) refl
    | inr e ↦
        rw (e, suspend)
          (ap
            (λ (q : Tracked J × Outcome). record (unlog_client c) {
              input = q.0;
              suspended = some reason;
              active = false;
            })
            (plain-release_all J c.input))
  ]

  plain-resume :
      (c : Client (logged J)) → unlog_client (resume (logged J) c).0 ≡ (resume J (unlog_client c)).0
  unfolding resume
  plain-resume c = elim (Option-cases c.suspended) [
    | inl e ↦ rw (e, resume) refl
    | inr (r, e) ↦ rw (e, resume) refl
  ]

  plain-disconnected :
      (c : Client (logged J))
      → unlog_client (disconnected (logged J) c) ≡ disconnected J (unlog_client c)
  unfolding disconnected
  plain-disconnected c =
      ap
        (λ (q : Tracked J × Outcome). record (unlog_client c) {
          input = (on_inner J J.show_cursor q.0).0;
          active = false;
        })
        (plain-release_all J c.input)

  plain-delivered :
      (c : Client (logged J)) (noted : Outcome → Option InputError → Option InputError)
      (f : Tracked (logged J) → Tracked (logged J) × Outcome) (g : Tracked J → Tracked J × Outcome)
      → plain J (f c.input) ≡ g (unlog J c.input)
      → unlog_client (if deliverable (logged J) c then inject (logged J) noted f c else c) ≡ (
          if deliverable J (unlog_client c)
          then inject J noted g (unlog_client c)
          else unlog_client c)
  unfolding deliverable Tracked.flush
  plain-delivered c noted f g same = elim (Bool-cases (deliverable (logged J) c)) [
    | inl e ↦
        rw (e, deliverable)
          (ap
            (λ (q : Tracked J × Outcome). record (unlog_client c) {
              input = (Tracked.flush J q.0).0;
              refused = noted q.1 c.refused;
            })
            same)
    | inr e ↦ rw (e, deliverable) refl
  ]

  plain-arrive :
      (x y : ℤ) (ks : List Key) (bs : List MouseButton) (c : Client (logged J))
      → unlog_client (arrive (logged J) x y ks bs c) ≡ arrive J x y ks bs (unlog_client c)
  unfolding arrive note Tracked.move_to
  plain-arrive x y ks bs c =
      let moved = (Tracked.move_to (logged J) x y c.input).0 in
      let shown = (on_inner (logged J) (logged J).show_cursor moved).0 in
      ap
        (λ (q : Tracked J × Outcome). record (unlog_client c) {
          input = q.0;
          active = true;
          refused = refusal (J.move_to x y c.input.inner.device).1 c.refused;
        })
        (plain-sync J ks bs shown)

  pub plain-handle :
      (msg : ServerControl) (c : Client (logged J))
      → unlog_client (handle (logged J) msg c).0 ≡ (handle J msg (unlog_client c)).0
  unfolding handle arrive note Tracked.move_to Tracked.wheel
  plain-handle (enter at ks bs) c = plain-arrive at.x at.y ks bs c
  plain-handle leave c =
      ap
        (λ (q : Tracked J × Outcome). record (unlog_client c) {
          input = (on_inner J J.hide_cursor q.0).0;
          active = false;
        })
        (plain-release_all J c.input)
  plain-handle (move_to x y) c =
      plain-delivered c refusal (Tracked.move_to (logged J) x y) (Tracked.move_to J x y) refl
  plain-handle (button b down) c =
      plain-delivered c refusal (Tracked.button (logged J) b down) (Tracked.button J b down)
        (plain-button J b down c.input)
  plain-handle (wheel s) c =
      plain-delivered c refusal (Tracked.wheel (logged J) s) (Tracked.wheel J s) refl
  plain-handle (key_event k down repeat) c =
      plain-delivered c key_refusal (type_key (logged J) k down repeat) (type_key J k down repeat)
        (plain-type_key k down repeat c.input)
  plain-handle (sync_keys ks bs) c =
      ap (λ (q : Tracked J × Outcome). record (unlog_client c) { input = q.0 })
        (plain-sync J ks bs c.input)
  plain-handle release_all c =
      ap (λ (q : Tracked J × Outcome). record (unlog_client c) { input = q.0 })
        (plain-release_all J c.input)
  plain-handle (ping id) c = refl
  plain-handle (pong id) c = refl
  plain-handle goodbye c = plain-disconnected c
  plain-handle (hello h) c = refl
  plain-handle (rejected r) c = refl
  plain-handle (bulk b) c = refl

  pub plain-step :
      (e : Event) (c : Client (logged J))
      → unlog_client (step (logged J) e c) ≡ step J e (unlog_client c)
  unfolding step
  plain-step (said msg) c = plain-handle msg c
  plain-step (stopped reason) c = plain-suspend reason c
  plain-step works c = plain-resume c
  plain-step lost c = plain-disconnected c

  -- Over every sequence of events, a client on a platform with a log goes through what the client on
  -- the platform alone goes through.
  pub plain-run :
      (es : List Event) (c : Client (logged J))
      → unlog_client (run (logged J) es c) ≡ run J es (unlog_client c)
  unfolding run
  plain-run [] c = refl
  plain-run (e ∷ es) c = plain-run es (step (logged J) e c) ∙ ap (run J es) (plain-step e c)

  pub lets_go_plain :
      (e : Event) (c : Client (logged J)) → lets_go (logged J) e c ≡ lets_go J e (unlog_client c)
  unfolding lets_go
  lets_go_plain (said (enter at ks bs)) c = refl
  lets_go_plain (said leave) c = refl
  lets_go_plain (said (move_to x y)) c = refl
  lets_go_plain (said (button b down)) c = refl
  lets_go_plain (said (wheel s)) c = refl
  lets_go_plain (said (sync_keys ks bs)) c = refl
  lets_go_plain (said release_all) c = refl
  lets_go_plain (said (ping id)) c = refl
  lets_go_plain (said (pong id)) c = refl
  lets_go_plain (said goodbye) c = refl
  lets_go_plain (said (hello h)) c = refl
  lets_go_plain (said (rejected r)) c = refl
  lets_go_plain (said (bulk b)) c = refl
  lets_go_plain (said (key_event k down repeat)) c = refl
  lets_go_plain (stopped reason) c = refl
  lets_go_plain works c = refl
  lets_go_plain lost c = refl

  is_typed_plain :
      (i : Item) (e : Event) (c : Client (logged J))
      → is_typed (logged J) i e c ≡ is_typed J i e (unlog_client c)
  unfolding is_typed
  is_typed_plain i (said (enter at ks bs)) c = refl
  is_typed_plain i (said leave) c = refl
  is_typed_plain i (said (move_to x y)) c = refl
  is_typed_plain i (said (button b down)) c = refl
  is_typed_plain i (said (wheel s)) c = refl
  is_typed_plain i (said (sync_keys ks bs)) c = refl
  is_typed_plain i (said release_all) c = refl
  is_typed_plain i (said (ping id)) c = refl
  is_typed_plain i (said (pong id)) c = refl
  is_typed_plain i (said goodbye) c = refl
  is_typed_plain i (said (hello h)) c = refl
  is_typed_plain i (said (rejected r)) c = refl
  is_typed_plain i (said (bulk b)) c = refl
  is_typed_plain i (said (key_event k true true)) c = refl
  is_typed_plain i (said (key_event k true false)) c = refl
  is_typed_plain i (said (key_event k false repeat)) c = refl
  is_typed_plain i (stopped reason) c = refl
  is_typed_plain i works c = refl
  is_typed_plain i lost c = refl

  pub all_typed_plain :
      (i : Item) (es : List Event) (c : Client (logged J))
      → all_typed (logged J) i es c ≡ all_typed J i es (unlog_client c)
  unfolding all_typed
  all_typed_plain i [] c = refl
  all_typed_plain i (e ∷ es) c =
      let rest =
        all_typed_plain i es (step (logged J) e c) ∙ ap (all_typed J i es) (plain-step e c) in
      rw (is_typed_plain i e c, rest) refl

  -- A client with an empty log.
  abbrev pub with_log : Client J → Client (logged J)
  with_log c = record {
    input = record {
      inner = unlogged J c.input.inner;
      keys = c.input.keys;
      buttons = c.input.buttons;
    };
    active = c.active;
    suspended = c.suspended;
    refused = c.refused;
  }

  pub has_plain : (i : Item) (t : Tracked (logged J)) → has (logged J) i t ≡ has J i (unlog J t)
  has_plain (a_key k) t = refl
  has_plain (a_button b) t = refl
