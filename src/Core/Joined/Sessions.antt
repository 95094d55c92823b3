-- ===== src/Core/Joined/Sessions.antt =====
-- crates/smkvm-core: the server and a client over a sequence of events.
use smkvm.Base.{
  not, ◌||◌, ◌&&◌, arith, Bool, false, true, List, [], ◌∷◌, sym, ◌∙◌, is_none, ℕ, ◌≡◌, refl,
  Bool-cases, inl, inr, ap, none,
}
use smkvm.Base.Equality.{◌==◌, ==_iff, nat_eq}
use smkvm.Layout.Model.{DeviceId}
use smkvm.Layout.Geometry.{Float, point_eq}
use smkvm.Proto.Msg.{release_all, button, wheel, key_event}
use smkvm.Core.Server.State.{
  Action, send, here, Event, pointer_at, pointer_by, client_up, client_monitors, client_down,
  client_suspended, client_resumed, tick, Server,
}
use smkvm.Core.Server.Placements.{refresh_reserved}
use smkvm.Core.Server.Pointer.{pointer_absolute}
use smkvm.Core.Server.Handle.{
  take_monitors, on_client_up, on_client_monitors, drop_client, on_client_down, suspended_client,
  on_client_suspended, on_client_resumed, on_button, on_wheel, on_key, handle,
}
use smkvm.Core.Server.Invariant.{pointer_absolute-Moves}
use smkvm.Core.Server.Routed.{same_holder}
use smkvm.Base.Maps
use smkvm.Proto.Keys.{Key, key_eq, button_eq}
use smkvm.Input.Inject.{Inject, IsObedient}
use smkvm.Input.Logged.{Item, logged, is_key, refused, has, holds}
use smkvm.Input.Logged.Synced.{wanted}
use smkvm.Core.Client.Plain.{unlog_client, with_log, has_plain, plain-handle}
use smkvm.Core.Client.Session.{is_typed}
use smkvm.Core.Client
use smkvm.Core.Client.{Client}
use smkvm.Core.Joined.{
  feed, Follows, Settles, Settles-after, Settles-refl, handle-Settles, Follows-Calm, feed-suspended,
  Calm-refl,
}
use smkvm.Core.Joined.Told.{Known, key_event-Mirrors, key_event-Settles, button-Mirrors, wheel-Calm}
use smkvm.Core.Joined.Follows.{Joins}
use smkvm.Core.Joined.Steps.{
  advance-Joins, settle_pending-Joins, resettle-Joins, recall_from-Joins, to_active-Joins,
}

-- The server handles the events, and the client `d` takes what each makes the server say to it.
module _ (f : Float) (J : Inject) (d : DeviceId) where
  unfoldable pub run : List (Event × ℕ) → Server × Client J → Server × Client J
  unfolding feed
  run [] p = p
  run ((e, now) ∷ rest) p = let r = handle f e now p.0 in run rest (r.0, feed J d r.1 p.1)

module _ (f : Float) (J : Inject) (o : IsObedient J) (i : Item) (d : DeviceId) where
  -- The events that say nothing new of the item: its key repeats only while it is down, and a machine
  -- does not arrive while the cursor is with it.
  unfoldable pub is_ordinary : Event → Server → Bool
  is_ordinary (Event.key k true true) s = not (is_key i k) || wanted J o i s.keys s.buttons
  is_ordinary (client_up id name) s = not (id == s.active)
  is_ordinary _ s = true

  handle-Joins :
      (event : Event) (now : ℕ) (s : Server) (c : Client (logged J))
      → is_ordinary event s ≡ true
      → c.suspended ≡ none
      → Follows J o i d s c
      → Joins f J o i d c (handle f event now s)
  unfolding handle pointer_absolute on_button on_wheel on_key on_client_up on_client_monitors
      take_monitors refresh_reserved on_client_down drop_client on_client_suspended
      on_client_resumed feed is_ordinary is_typed
  handle-Joins (pointer_at x y) now s c g z h =
      let t = pointer_absolute f x y s in
      (
        Follows-Calm J o i d s t c c (same_holder s t (pointer_absolute-Moves f x y s))
            (Calm-refl J o i d c) h,
        Settles-refl J o i d c,
      )
  handle-Joins (pointer_by dx dy) now s c g z h = advance-Joins f J o i d dx dy now s c h
  handle-Joins (Event.button b down) now s c g z h =
      to_active-Joins f J o i d (button b down) s (on_button b down s).0 c refl refl (λ at away. (
        button-Mirrors J o i d b down s c z (h at away),
        handle-Settles J o i d (button b down) c refl,
      ))
  handle-Joins (Event.wheel x) now s c g z h =
      let calm = wheel-Calm J o i d x c in
      to_active-Joins f J o i d (wheel x) s s c refl refl (λ at away. (
        Follows-Calm J o i d s s c (Client.handle (logged J) (wheel x) c).0 (refl, refl, refl, refl)
            calm h at away,
        calm.2,
      ))
  handle-Joins (Event.key k down repeat) now s c g z h =
      to_active-Joins f J o i d (key_event k down repeat) s (on_key k down repeat s).0 c refl refl
        (λ at away. (
          key_event-Mirrors J o i d k down repeat s c (known k down repeat g) z (h at away),
          key_event-Settles J o i d k down repeat s c (known k down repeat g) (h at away),
        ))
    where
      known :
          (k : Key) (down repeat : Bool)
          → is_ordinary (Event.key k down repeat) s ≡ true
          → Known J o i d k down repeat s
      known k true true g x y = g
      known k false repeat g x y = cc
      known k true false g x y = cc
  handle-Joins (client_up id name) now s c g z h = elim (Bool-cases (id == d)) [
    | inl e ↦ rw e (
      (λ at away. absurd (
          let p = (==_iff id d).0 e in
          let q = (==_iff id s.active).1 (p ∙ sym at) in ground (arith, q, g))),
      handle-Settles J o i d release_all c refl,
    )
    | inr e ↦ rw e (h, Settles-refl J o i d c)
  ]
  handle-Joins (client_monitors id ms) now s c g z h =
      resettle-Joins f J o i d (take_monitors id ms s) c h
  handle-Joins (client_down id) now s c g z h =
      recall_from-Joins f J o i d id (drop_client f id s) c h
  handle-Joins (client_suspended id reason) now s c g z h =
      recall_from-Joins f J o i d id (suspended_client f id s) c h
  handle-Joins (client_resumed id) now s c g z h =
      elim (Bool-cases (is_none (Maps.get id s.clients))) [
        | inl e ↦ rw e (h, Settles-refl J o i d c)
        | inr e ↦ rw e (h, Settles-refl J o i d c)
      ]
  handle-Joins tick now s c g z h = settle_pending-Joins f J o i d now s c h

  unfoldable pub all_ordinary : List (Event × ℕ) → Server → Bool
  all_ordinary [] s = true
  all_ordinary ((e, now) ∷ rest) s =
      let others = all_ordinary rest (handle f e now s).0 in is_ordinary e s && others

  run-Joins :
      (events : List (Event × ℕ)) (s : Server) (c : Client (logged J))
      → all_ordinary events s ≡ true
      → c.suspended ≡ none
      → Follows J o i d s c
      → Follows J o i d (run f (logged J) d events (s, c)).0 (run f (logged J) d events (s, c)).1
        × Settles J o i d c (run f (logged J) d events (s, c)).1
  unfolding run all_ordinary
  run-Joins [] s c g z h = (h, Settles-refl J o i d c)
  run-Joins ((e, now) ∷ rest) s c g z h =
      let r = handle f e now s in
      let e1 = feed (logged J) d r.1 c in
      let first = handle-Joins e now s c (ground arith) z h in
      let others =
        run-Joins rest r.0 e1 (ground arith) (feed-suspended (logged J) d r.1 c z) first.0 in
      (others.0, Settles-after J o i d c e1 (run f (logged J) d rest (r.0, e1)).1 first.1 others.1)

  plain-feed :
      (acts : List Action) (c : Client (logged J))
      → unlog_client J (feed (logged J) d acts c) ≡ feed J d acts (unlog_client J c)
  unfolding feed
  plain-feed [] c = refl
  plain-feed (send id msg ∷ rest) c = elim (Bool-cases (id == d)) [
    | inl e ↦
        rw (e, feed)
          (plain-feed rest (Client.handle (logged J) msg c).0
            ∙ ap (feed J d rest) (plain-handle J msg c))
    | inr e ↦ rw (e, feed) (plain-feed rest c)
  ]
  plain-feed (here a ∷ rest) c = plain-feed rest c

  unlog_both : Server × Client (logged J) → Server × Client J
  unlog_both p = (p.0, unlog_client J p.1)

  -- The log of refusals changes nothing of the server and the client.
  plain-run :
      (events : List (Event × ℕ)) (s : Server) (c : Client (logged J))
      → unlog_both (run f (logged J) d events (s, c)) ≡ run f J d events (s, unlog_client J c)
  unfolding run unlog_both
  plain-run [] s c = refl
  plain-run ((e, now) ∷ rest) s c =
      let r = handle f e now s in
      plain-run rest r.0 (feed (logged J) d r.1 c)
      ∙ ap (λ (c : Client J). run f J d rest (r.0, c)) (plain-feed r.1 c)

  -- A key or a button, the server, and a client that is not suspended, whose record agrees with its
  -- device on it, over any sequence of the server's events, from a moment at which the cursor is not
  -- with the client's machine, in which for a key it repeats only while the server has it down, and
  -- no machine arrives while the cursor is with it. If in all this the platform has refused neither
  -- to press the item nor to let go of it: when the cursor is with the client's machine at the end,
  -- the client takes input, and its record has the item, and its device holds it, just when the
  -- server has it down. The platform may refuse anything else.
  pub holds-run :
      (events : List (Event × ℕ)) (s : Server) (c : Client J)
      → all_ordinary events s ≡ true
      → c.suspended ≡ none
      → has J i c.input ≡ holds J o i c.input.inner
      → (s.active == d) ≡ false
      → refused J i false (run f (logged J) d events (s, with_log J c)).1.input.inner ≡ false
      → refused J i true (run f (logged J) d events (s, with_log J c)).1.input.inner ≡ false
      → (run f J d events (s, c)).0.active ≡ d
      → (d == (run f J d events (s, c)).0.local) ≡ false
      → ((run f J d events (s, c)).1.active ≡ true)
        × (has J i (run f J d events (s, c)).1.input
            ≡ wanted J o i (run f J d events (s, c)).0.keys (run f J d events (s, c)).0.buttons)
        × (holds J o i (run f J d events (s, c)).1.input.inner
            ≡ wanted J o i (run f J d events (s, c)).0.keys (run f J d events (s, c)).0.buttons)
  unfolding unlog_both
  holds-run events s c g z m elsewhere r q at away =
      let start = with_log J c in
      let end = run f (logged J) d events (s, start) in
      let end_too = plain-run events s start in
      let both =
        run-Joins events s start g z
          (λ a b. absurd (let p = (==_iff s.active d).1 a in ground (arith, p, elsewhere))) in
      let servers = ap (λ (p : Server × Client J). p.0) end_too in
      let mirrored =
        both.0 (ap (λ (t : Server). t.active) servers ∙ at)
          (ap (λ (t : Server). d == t.local) servers ∙ away) in
      let same = both.1.1 r q (has_plain J i start.input ∙ m) in
      let told = ap (λ (t : Server). wanted J o i t.keys t.buttons) servers in
      (
        ap (λ (p : Server × Client J). p.1.active) (sym end_too) ∙ mirrored.0,
        ap (λ (p : Server × Client J). has J i p.1.input) (sym end_too)
            ∙ sym (has_plain J i end.1.input)
            ∙ mirrored.1 r q
            ∙ told,
        ap (λ (p : Server × Client J). holds J o i p.1.input.inner) (sym end_too)
            ∙ sym same
            ∙ mirrored.1 r q
            ∙ told,
      )
