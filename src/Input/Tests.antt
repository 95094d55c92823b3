-- ===== src/Input/Tests.antt =====
-- Runs of `Tracked` on concrete input, and instances of its theorems.
use smkvm.Base.{false, refl, ◌≡◌, [], ◌∷◌}
use smkvm.Base.Lists.{contains}
use smkvm.Proto.Keys.{
  Key, key_eq, key_ord, is_modifier, MouseButton, left, right, button_eq, button_ord,
}
use smkvm.Base.Sets
use smkvm.Input.Board.{board, board_obeys}
use smkvm.Input.Tracked.{
  Tracked, key, button, set_keys, set_buttons, release_order, press_order, sync, release_all, flush,
  flushed, release_buttons, release_unwanted, release_unwanted_buttons, press_missing,
  press_missing_buttons,
}
use smkvm.Input.Tracked.Held.{Matches}
use smkvm.Input.Tracked.Settled.{sync-holds, holds-release_all, release_all-holds}

abbrev ctrl : Key
ctrl = record { usage = 0xE0 }

abbrev letter_c : Key
letter_c = record { usage = 0x06 }

-- Ctrl and the left button are down.
abbrev chord : Tracked board
chord = record {
  inner = record { keys = ctrl ∷ []; buttons = left ∷ [] };
  keys = ctrl ∷ [];
  buttons = left ∷ [];
}

chord-Matches : Matches board board_obeys chord
chord-Matches = ((λ k. refl), (λ b. refl))

-- Modifiers go down first and come up last.
press_order_run : press_order (letter_c ∷ ctrl ∷ []) ≡ ctrl ∷ letter_c ∷ []
unfolding press_order is_modifier
press_order_run = refl

release_order_run : release_order (ctrl ∷ letter_c ∷ []) ≡ letter_c ∷ ctrl ∷ []
unfolding release_order is_modifier
release_order_run = refl

sync-holds_example :
    ((k : Key)
      → contains (sync board (letter_c ∷ ctrl ∷ []) (right ∷ []) chord).0.inner.keys k
        ≡ contains (letter_c ∷ ctrl ∷ []) k)
    × ((b : MouseButton)
        → contains (sync board (letter_c ∷ ctrl ∷ []) (right ∷ []) chord).0.inner.buttons b
          ≡ contains (right ∷ []) b)
unfolding sync flushed flush release_unwanted release_unwanted_buttons press_missing
    press_missing_buttons set_keys set_buttons release_order press_order is_modifier key button
    Sets.insert Sets.collect Sets.remove
sync-holds_example =
    sync-holds board board_obeys (letter_c ∷ ctrl ∷ []) (right ∷ []) chord chord-Matches refl

holds-release_all_example : contains (release_all board chord).0.inner.keys ctrl ≡ false
holds-release_all_example = holds-release_all board board_obeys chord ctrl chord-Matches (λ d. refl)

release_all-holds_example :
    ((k : Key) → contains (release_all board chord).0.inner.keys k ≡ false)
    × ((b : MouseButton) → contains (release_all board chord).0.inner.buttons b ≡ false)
unfolding release_all flushed flush release_buttons set_keys set_buttons release_order is_modifier
    key button
release_all-holds_example = release_all-holds board board_obeys chord chord-Matches refl
