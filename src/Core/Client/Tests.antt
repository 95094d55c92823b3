-- ===== src/Core/Client/Tests.antt =====
-- Runs of a client on concrete events, and instances of its theorems.
use smkvm.Base.{true, false, refl, ◌≡◌, none, List, [], ◌∷◌}
use smkvm.Base.Int.{pos}
use smkvm.Base.Sets
use smkvm.Proto.Keys.{Key, key_eq, key_ord, is_modifier, left, button_eq, button_ord}
use smkvm.Proto.Msg.{locked, reason_eq, enter, key_event}
use smkvm.Input.Board.{empty, stiff, stiff_obeys, unnamed}
use smkvm.Input.Tracked
use smkvm.Input.Logged.{a_key, logged, refused, has, holds}
use smkvm.Core.Client.{Client, new, suspend, deliverable, handle, arrive, note}
use smkvm.Core.Client.Session.{Event, said, stopped, step, run, is_typed, all_typed, lets_go}
use smkvm.Core.Client.Plain.{with_log}
use smkvm.Core.Client.Held.{has-run, holds-step}

abbrev ctrl : Key
ctrl = record { usage = 0xE0 }

abbrev letter_c : Key
letter_c = record { usage = 0x06 }

-- The cursor arrives with Ctrl and a key that the platform refuses down, and another key goes down
-- and repeats.
abbrev visit : List Event
visit =
    said (enter (record { x = pos 3; y = pos 4 }) (unnamed ∷ ctrl ∷ []) (left ∷ []))
    ∷ said (key_event letter_c true false)
    ∷ said (key_event letter_c true true)
    ∷ []

abbrev fresh : Client stiff
fresh = record {
  input = record { inner = empty; keys = []; buttons = [] };
  active = false;
  suspended = none;
  refused = none;
}

-- The refused key is in the log, and not in the record.
visit-refused :
    (refused stiff
        (a_key unnamed)
        true
        (run (logged stiff) visit (with_log stiff fresh)).input.inner
      ≡ true)
    × (has (logged stiff) (a_key unnamed) (run (logged stiff) visit (with_log stiff fresh)).input
        ≡ false)
unfolding new run step handle arrive note deliverable Tracked.new Tracked.key Tracked.button
    Tracked.flush Tracked.sync Tracked.flushed Tracked.release_unwanted
    Tracked.release_unwanted_buttons Tracked.press_missing Tracked.press_missing_buttons
    Tracked.set_keys Tracked.set_buttons Tracked.release_order Tracked.press_order is_modifier
    Tracked.move_to Sets.insert Sets.collect
visit-refused = (refl, refl)

has-run_example :
    has stiff (a_key letter_c) (run stiff visit fresh).input
    ≡ holds stiff stiff_obeys (a_key letter_c) (run stiff visit fresh).input.inner
unfolding is_typed all_typed new run step handle arrive note deliverable Tracked.new Tracked.key
    Tracked.button Tracked.flush Tracked.sync Tracked.flushed Tracked.release_unwanted
    Tracked.release_unwanted_buttons Tracked.press_missing Tracked.press_missing_buttons
    Tracked.set_keys Tracked.set_buttons Tracked.release_order Tracked.press_order is_modifier
    Tracked.move_to Sets.insert Sets.collect
has-run_example = has-run stiff stiff_obeys (a_key letter_c) visit fresh refl refl refl

holds-step_example :
    holds stiff stiff_obeys
      (a_key letter_c)
      (step stiff (stopped locked) (run stiff visit fresh)).input.inner
    ≡ false
unfolding is_typed all_typed lets_go suspend Tracked.release_all Tracked.release_buttons Sets.remove
    new run step handle arrive note deliverable Tracked.new Tracked.key Tracked.button Tracked.flush
    Tracked.sync Tracked.flushed Tracked.release_unwanted Tracked.release_unwanted_buttons
    Tracked.press_missing Tracked.press_missing_buttons Tracked.set_keys Tracked.set_buttons
    Tracked.release_order Tracked.press_order is_modifier Tracked.move_to Sets.insert Sets.collect
holds-step_example =
    holds-step stiff stiff_obeys (a_key letter_c) visit (stopped locked) fresh refl refl refl refl
