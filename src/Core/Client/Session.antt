-- ===== src/Core/Client/Session.antt =====
-- crates/smkvm-core/src/client.rs: a client over a sequence of events.
use smkvm.Base.{◌||◌, ◌&&◌, Bool, true, false, not, List, [], ◌∷◌}
use smkvm.Base.Lists.{contains}
use smkvm.Proto.Keys.{key_eq, button_eq}
use smkvm.Proto.Msg.{SuspendReason, ServerControl, leave, key_event, release_all, goodbye}
use smkvm.Input.Inject.{Inject}
use smkvm.Input.Logged.{Item, is_key}
use smkvm.Core.Client.{Client, is_reason, suspend, resume, disconnected, handle}

-- What happens to a client: a message, the platform's word that injection fails or works again, and
-- the loss of the link.
pub data Event : Type 0 where
  said : ServerControl → Event
  stopped : SuspendReason → Event
  works lost : Event

module _ (J : Inject) where
  unfoldable pub step : Event → Client J → Client J
  step (said msg) c = (handle J msg c).0
  step (stopped reason) c = (suspend J reason c).0
  step works c = (resume J c).0
  step lost c = disconnected J c

  unfoldable pub run : List Event → Client J → Client J
  run [] c = c
  run (e ∷ es) c = run es (step e c)

  -- Whether the event is not a repeat of the item's key while the record does not have it.
  unfoldable pub is_typed : Item → Event → Client J → Bool
  is_typed i (said (key_event k true true)) c = not (is_key i k) || contains c.input.keys k
  is_typed i e c = true

  unfoldable pub all_typed : Item → List Event → Client J → Bool
  unfolding step
  all_typed i [] c = true
  all_typed i (e ∷ es) c = let rest = all_typed i es (step e c) in is_typed i e c && rest

  -- The events on which a client lets go.
  unfoldable pub lets_go : Event → Client J → Bool
  lets_go (said leave) c = true
  lets_go (said release_all) c = true
  lets_go (said goodbye) c = true
  lets_go (stopped reason) c = not (is_reason reason c.suspended)
  lets_go lost c = true
  lets_go _ c = false
