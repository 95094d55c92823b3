-- ===== src/Input/Board.antt =====
-- Platforms for the tests: two sets, of which one platform refuses nothing and the other one key.
use smkvm.Base.{Bool, sym, Bool-cases, inl, inr, refl, ◌≡◌, none, some, List, [], if◌then◌else◌}
use smkvm.Base.Equality.{◌==◌}
use smkvm.Base.Lists.{contains}
use smkvm.Base.Sets
use smkvm.Proto.Keys.{Key, key_eq, key_ord, MouseButton, button_eq, button_ord}
use smkvm.Input.Inject.{Inject, InputError, unmapped_key, Outcome, IsObedient}
use smkvm.Input.Tracked.Held.{contains_noted}

pub record Board : Type 0 where
  pub keys : List Key
  pub buttons : List MouseButton

abbrev pub empty : Board
empty = record { keys = []; buttons = [] }

pub not_refused : (e : InputError) → ◌≡◌ {A = Outcome} none (some e) → ⊥
not_refused e h = cc

abbrev pub board : Inject
board = record {
  Device = Board;
  move_to = λ x y d. (d, none);
  button = λ b down d. (
    record d { buttons = if down then Sets.insert b d.buttons else Sets.remove b d.buttons },
    none,
  );
  wheel = λ s d. (d, none);
  key = λ k down d.
      (record d { keys = if down then Sets.insert k d.keys else Sets.remove k d.keys }, none);
  flush = λ d. (d, none);
  hide_cursor = λ d. (d, none);
  show_cursor = λ d. (d, none);
}

abbrev pub board_obeys : IsObedient board
board_obeys = record {
  holds_key = λ d. contains d.keys;
  holds_button = λ d. contains d.buttons;
  key_done = λ k j down d h. contains_noted k j down d.keys;
  key_refused = λ k j down d e h. absurd (not_refused e h);
  key_buttons = λ k b down d. refl;
  button_done = λ b c down d h. contains_noted b c down d.buttons;
  button_refused = λ b c down d e h. absurd (not_refused e h);
  button_keys = λ b k down d. refl;
  move_keys = λ x y d k. refl;
  move_buttons = λ x y d b. refl;
  wheel_keys = λ s d k. refl;
  wheel_buttons = λ s d b. refl;
  flush_keys = λ d k. refl;
  flush_buttons = λ d b. refl;
  hide_keys = λ d k. refl;
  hide_buttons = λ d b. refl;
  show_keys = λ d k. refl;
  show_buttons = λ d b. refl;
}

-- One key that the stiff platform has no name for.
abbrev pub unnamed : Key
unnamed = record { usage = 0x39 }

abbrev pub stiff_key : Key → Bool → Board → Board × Outcome
stiff_key k down d = if k == unnamed then (d, some (unmapped_key 0x39)) else board.key k down d

-- A platform that refuses that key.
abbrev pub stiff : Inject
stiff = record {
  Device = Board;
  move_to = board.move_to;
  button = board.button;
  wheel = board.wheel;
  key = stiff_key;
  flush = board.flush;
  hide_cursor = board.hide_cursor;
  show_cursor = board.show_cursor;
}

pub stiff_key_done :
    (k j : Key) (down : Bool) (d : Board)
    → (stiff_key k down d).1 ≡ none
    → contains (stiff_key k down d).0.keys j ≡ (if k == j then down else contains d.keys j)
stiff_key_done k j down d = elim (Bool-cases (k == unnamed)) [
  | inl e ↦ rw e (λ h. absurd (not_refused (unmapped_key 0x39) (sym h)))
  | inr e ↦ rw e (λ h. contains_noted k j down d.keys)
]

pub stiff_key_refused :
    (k j : Key) (down : Bool) (d : Board) (x : InputError)
    → (stiff_key k down d).1 ≡ some x
    → contains (stiff_key k down d).0.keys j ≡ contains d.keys j
stiff_key_refused k j down d x = elim (Bool-cases (k == unnamed)) [
  | inl e ↦ rw e (λ h. refl)
  | inr e ↦ rw e (λ h. absurd (not_refused x h))
]

pub stiff_key_buttons :
    (k : Key) (b : MouseButton) (down : Bool) (d : Board)
    → contains (stiff_key k down d).0.buttons b ≡ contains d.buttons b
stiff_key_buttons k b down d = elim (Bool-cases (k == unnamed)) [
  | inl e ↦ rw e refl
  | inr e ↦ rw e refl
]

abbrev pub stiff_obeys : IsObedient stiff
stiff_obeys = record {
  holds_key = λ d. contains d.keys;
  holds_button = λ d. contains d.buttons;
  key_done = stiff_key_done;
  key_refused = stiff_key_refused;
  key_buttons = stiff_key_buttons;
  button_done = λ b c down d h. contains_noted b c down d.buttons;
  button_refused = λ b c down d e h. absurd (not_refused e h);
  button_keys = λ b k down d. refl;
  move_keys = λ x y d k. refl;
  move_buttons = λ x y d b. refl;
  wheel_keys = λ s d k. refl;
  wheel_buttons = λ s d b. refl;
  flush_keys = λ d k. refl;
  flush_buttons = λ d b. refl;
  hide_keys = λ d k. refl;
  hide_buttons = λ d b. refl;
  show_keys = λ d k. refl;
  show_buttons = λ d b. refl;
}
