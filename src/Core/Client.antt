-- ===== src/Core/Client.antt =====
-- crates/smkvm-core/src/client.rs: the machine that receives the cursor. The platform is the
-- parameter `J`; what is logged is left out, and `input_mut` and `input` are the field.
pub mod Session
pub mod Kept
pub mod Loose
pub mod Plain
pub mod Held
pub mod Runs
mod Tests
use smkvm.Base.{
  Bool, true, false, not, ◌&&◌, if◌then◌else◌, Option, none, some, is_none, List, [], ◌∷◌,
}
use smkvm.Base.Equality.{◌==◌}
use smkvm.Base.Int.{ℤ}
use smkvm.Layout.Model.{Monitor}
use smkvm.Proto.Keys.{Key, MouseButton}
use smkvm.Proto.Msg.{
  SuspendReason, reason_eq, ClientControl, ServerControl, hello, monitors, suspended, resumed,
  rejected, enter, leave, move_to, button, wheel, key_event, sync_keys, release_all, ping, pong,
  goodbye, bulk,
}
use smkvm.Input.Inject.{Inject, InputError, Outcome, unmapped_key}
use smkvm.Input.Tracked
use smkvm.Input.Tracked.{Tracked, on_inner}

pub data ClientAction : Type 0 where
  send : ClientControl → ClientAction

pub record Client (J : Inject) : Type 0 where
  pub input : Tracked J
  pub active : Bool
  pub suspended : Option SuspendReason
  pub refused : Option InputError

-- `self.suspended == Some(reason)`
abbrev pub is_reason : SuspendReason → Option SuspendReason → Bool
is_reason reason none = false
is_reason reason (some r) = r == reason

-- The slot of refusals after a result.
abbrev pub refusal : Outcome → Option InputError → Option InputError
refusal none was = was
refusal (some e) was = some e

-- A key that the platform cannot send is not noted.
abbrev pub key_refusal : Outcome → Option InputError → Option InputError
key_refusal (some (unmapped_key code)) was = was
key_refusal r was = refusal r was

module _ (J : Inject) where
  unfoldable pub new : J.Device → Client J
  new d = record { input = Tracked.new J d; active = false; suspended = none; refused = none }

  unfoldable pub take_refusal : Client J → Client J × Option InputError
  take_refusal c = (record c { refused = none }, c.refused)

  unfoldable pub note : Outcome → Client J → Client J
  note r c = record c { refused = refusal r c.refused }

  unfoldable pub is_suspended : Client J → Bool
  is_suspended c = not (is_none c.suspended)

  unfoldable pub report_monitors : List Monitor → ClientAction
  report_monitors ms = send (monitors ms)

  -- Should input actually be put on this screen right now?
  unfoldable pub deliverable : Client J → Bool
  deliverable c = c.active && is_none c.suspended

  -- `let _ = self.input.…`
  abbrev pub on_input : (Tracked J → Tracked J × Outcome) → Client J → Client J
  on_input f c = record c { input = (f c.input).0 }

  -- Injection has stopped reaching the screen.
  unfoldable pub suspend : SuspendReason → Client J → Client J × List ClientAction
  suspend reason c = if is_reason reason c.suspended then (c, []) else (
    record (on_input (Tracked.release_all J) c) { suspended = some reason; active = false },
    send (suspended reason) ∷ [],
  )

  unfoldable pub resume : Client J → Client J × List ClientAction
  resume c =
      if is_none c.suspended then (c, []) else (record c { suspended = none }, send resumed ∷ [])

  -- The link went away.
  unfoldable pub disconnected : Client J → Client J
  disconnected c =
      on_input (on_inner J J.show_cursor)
        (on_input (Tracked.release_all J) (record c { active = false }))

  -- An input event: what the platform answers is noted, and the display is flushed.
  abbrev pub inject :
      (Outcome → Option InputError → Option InputError)
      → (Tracked J → Tracked J × Outcome)
      → Client J
      → Client J
  inject noted f c =
      on_input (Tracked.flush J)
        (record c { input = (f c.input).0; refused = noted ((f c.input).1) c.refused })

  -- A repeat is the same physical key going down again; it goes past the tracking.
  abbrev pub type_key : Key → Bool → Bool → Tracked J → Tracked J × Outcome
  type_key k down repeat =
      if repeat && down then on_inner J (J.key k true) else Tracked.key J k down

  -- The cursor arrives: position first, then the keys.
  unfoldable pub arrive : ℤ → ℤ → List Key → List MouseButton → Client J → Client J
  unfolding note
  arrive x y ks bs c =
      let moved = Tracked.move_to J x y c.input in
      let placed = note moved.1 (record c { input = moved.0; active = true }) in
      on_input (Tracked.sync J ks bs) (on_input (on_inner J J.show_cursor) placed)

  unfoldable pub handle : ServerControl → Client J → Client J × List ClientAction
  unfolding deliverable arrive disconnected
  handle (enter at ks bs) c = (arrive at.x at.y ks bs c, [])
  handle leave c = (
    on_input (on_inner J J.hide_cursor)
        (on_input (Tracked.release_all J) (record c { active = false })),
    [],
  )
  handle (move_to x y) c =
      (if deliverable c then inject refusal (Tracked.move_to J x y) c else c, [])
  handle (button b down) c =
      (if deliverable c then inject refusal (Tracked.button J b down) c else c, [])
  handle (wheel s) c = (if deliverable c then inject refusal (Tracked.wheel J s) c else c, [])
  handle (key_event k down repeat) c =
      (if deliverable c then inject key_refusal (type_key k down repeat) c else c, [])
  handle (sync_keys ks bs) c = (on_input (Tracked.sync J ks bs) c, [])
  handle release_all c = (on_input (Tracked.release_all J) c, [])
  handle (ping id) c = (c, send (pong id) ∷ [])
  handle (pong id) c = (c, [])
  handle goodbye c = (disconnected c, [])
  handle (hello h) c = (c, [])
  handle (rejected r) c = (c, [])
  handle (bulk b) c = (c, [])
