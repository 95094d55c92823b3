-- ===== src/Core/Joined.antt =====
-- crates/smkvm-core: the server and one of its clients, which takes what the server says to it.
pub mod Told
pub mod Follows
pub mod Steps
pub mod Sessions
pub mod Tests
use smkvm.Base.{
  ℕ, Bool, true, false, ◌&&◌, ◌≡◌, refl, ap, sym, ◌∙◌, if◌then◌else◌, Bool-cases, inl, inr, Option,
  none, some, List, [], ◌∷◌,
}
use smkvm.Base.Equality.{◌==◌, ==_iff, nat_eq}
use smkvm.Base.Int.{ℤ}
use smkvm.Base.Lists.{contains}
use smkvm.Base.Sets
use smkvm.Proto.Keys.{Key, key_eq, key_ord, MouseButton, button_eq, button_ord, Scroll}
use smkvm.Proto.Msg.{
  ServerControl, enter, leave, move_to, button, wheel, key_event, release_all, hello, rejected,
  sync_keys, ping, pong, goodbye, bulk,
}
use smkvm.Input.Inject.{Inject, Outcome, IsObedient}
use smkvm.Input.Logged.{Item, logged, refused, has}
use smkvm.Input.Logged.Keeps.{Same}
use smkvm.Input.Logged.Notes.{has-inner}
use smkvm.Input.Logged.Synced.{wanted}
use smkvm.Core.Client.Session.{said, is_typed}
use smkvm.Core.Client.Runs.{handle-Agrees}
use smkvm.Input.Tracked
use smkvm.Input.Tracked.Synced.{sync_exact}
use smkvm.Input.Tracked.Held.{contains_noted}
use smkvm.Layout.Model.{DeviceId, Point}
use smkvm.Core.Client.{Client, deliverable, arrive, note, disconnected}
use smkvm.Core.Client
use smkvm.Core.Server.State.{Action, send, here, Server}
use smkvm.Core.Server.Handle.{on_key, on_button}
use smkvm.Core.Server.Routed.{IsAway, SameHolder}

module _ (J : Inject) (d : DeviceId) where
  -- The client `d` takes the actions that are for it, in order.
  unfoldable pub feed : List Action → Client J → Client J
  feed [] c = c
  feed (send id msg ∷ rest) c = feed rest (if id == d then (Client.handle J msg c).0 else c)
  feed (here a ∷ rest) c = feed rest c

  -- Nothing that the server says suspends the client or resumes it.
  handle-suspended :
      (msg : ServerControl) (c : Client J) → (Client.handle J msg c).0.suspended ≡ c.suspended
  unfolding Client.handle arrive disconnected note
  handle-suspended (enter at ks bs) c = refl
  handle-suspended leave c = refl
  handle-suspended (move_to x y) c = elim (Bool-cases (deliverable J c)) [
    | inl e ↦ rw e refl
    | inr e ↦ rw e refl
  ]
  handle-suspended (button b down) c = elim (Bool-cases (deliverable J c)) [
    | inl e ↦ rw e refl
    | inr e ↦ rw e refl
  ]
  handle-suspended (wheel w) c = elim (Bool-cases (deliverable J c)) [
    | inl e ↦ rw e refl
    | inr e ↦ rw e refl
  ]
  handle-suspended (key_event k down repeat) c = elim (Bool-cases (deliverable J c)) [
    | inl e ↦ rw e refl
    | inr e ↦ rw e refl
  ]
  handle-suspended (sync_keys ks bs) c = refl
  handle-suspended release_all c = refl
  handle-suspended (ping id) c = refl
  handle-suspended (pong id) c = refl
  handle-suspended goodbye c = refl
  handle-suspended (hello x) c = refl
  handle-suspended (rejected r) c = refl
  handle-suspended (bulk b) c = refl

  pub feed-suspended :
      (rest : List Action) (c : Client J) → c.suspended ≡ none → (feed rest c).suspended ≡ none
  unfolding feed
  feed-suspended [] c h = h
  feed-suspended (send id msg ∷ rest) c h = elim (Bool-cases (id == d)) [
    | inl e ↦
        rw (e, feed) (feed-suspended rest (Client.handle J msg c).0 (rw (handle-suspended msg c) h))
    | inr e ↦ rw (e, feed) (feed-suspended rest c h)
  ]
  feed-suspended (here a ∷ rest) c h = feed-suspended rest c h

module _ (J : Inject) (o : IsObedient J) (i : Item) (d : DeviceId) where
  -- The client takes input, and its record has the item if the server has it down, unless the
  -- platform has refused it.
  abbrev pub Mirrors : Server → Client (logged J) → Type 0
  Mirrors s c =
      (c.active ≡ true)
      × (refused J i false c.input.inner ≡ false
          → refused J i true c.input.inner ≡ false
          → has (logged J) i c.input ≡ wanted J o i s.keys s.buttons)

  -- So it is if the cursor is with it.
  abbrev pub Follows : Server → Client (logged J) → Type 0
  Follows s c = s.active ≡ d → IsAway s d → Mirrors s c

  -- What was refused stays in the log, and the record and the device go on agreeing.
  abbrev pub Settles : Client (logged J) → Client (logged J) → Type 0
  Settles c e =
      ((w : Bool) → refused J i w e.input.inner ≡ false → refused J i w c.input.inner ≡ false)
      × (refused J i false e.input.inner ≡ false
          → refused J i true e.input.inner ≡ false
          → Same J o i c.input
          → Same J o i e.input)

  pub Settles-refl : (c : Client (logged J)) → Settles c c
  Settles-refl c = ((λ w r. r), (λ r q m. m))

  pub Settles-after : (a b c : Client (logged J)) → Settles a b → Settles b c → Settles a c
  Settles-after a b c x y =
      ((λ w r. x.0 w (y.0 w r)), (λ r q m. y.1 r q (x.1 (y.0 false r) (y.0 true q) m)))

  pub handle-Settles :
      (msg : ServerControl) (c : Client (logged J))
      → is_typed (logged J) i (said msg) c ≡ true
      → Settles c (Client.handle (logged J) msg c).0
  handle-Settles msg c h = let a = handle-Agrees J o i msg c h in (a.0, (λ r q m. a.1 r m))

  -- The record keeps the item as it is.
  abbrev pub Calm : Client (logged J) → Client (logged J) → Type 0
  Calm c e =
      (e.active ≡ c.active) × (has (logged J) i e.input ≡ has (logged J) i c.input) × Settles c e

  pub Calm-refl : (c : Client (logged J)) → Calm c c
  Calm-refl c = (refl, refl, Settles-refl c)

  pub Follows-Calm :
      (s t : Server) (c e : Client (logged J))
      → SameHolder s t
      → Calm c e
      → Follows s c
      → Follows t e
  Follows-Calm s t c e (l, a, k, b) calm h at away =
      let m = h (rw a at at) (rw l at away) in
      (calm.0 ∙ m.0, (λ r q. calm.1 ∙ m.1 (calm.2.0 false r) (calm.2.0 true q) ∙ rw (k, b) refl))

  pub handle-move_to-Calm :
      (x y : ℤ) (c : Client (logged J)) → Calm c (Client.handle (logged J) (move_to x y) c).0
  unfolding Client.handle Tracked.move_to Tracked.flush is_typed
  handle-move_to-Calm x y c =
      let k = handle-Settles (move_to x y) c refl in
      elim (Bool-cases (deliverable (logged J) c)) [
        | inl e ↦ rw e (refl, has-inner J i c.input _, rw e at k)
        | inr e ↦ rw e (Calm-refl c)
      ]
