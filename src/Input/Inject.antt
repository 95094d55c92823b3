-- ===== src/Input/Inject.antt =====
-- crates/smkvm-input/src/lib.rs: the primitives that a platform provides (`Inject`), as a parameter.
-- Its state and its operations are the platform's; what the tracking relies on is that a key or
-- button goes to the state it is told, that a refused change changes nothing, and that nothing
-- else moves a key or a button ("Implementations do exactly what they are told").
use smkvm.Base.{ℕ, ◌≡◌, Bool, if◌then◌else◌, Option, none, some, String}
use smkvm.Base.Equality.{◌==◌}
use smkvm.Base.Int.{ℤ}
use smkvm.Proto.Keys.{Key, key_eq, MouseButton, button_eq, Scroll}

pub data InputError : Type 0 where
  unmapped_key : ℕ → InputError
  unmapped_button : MouseButton → InputError
  display : String → InputError
  unsupported : String → InputError

-- `Result<()>`: `none` is `Ok(())`.
abbrev pub Outcome : Type 0
Outcome = Option InputError

pub record Inject : Type 1 where
  pub Device : Type 0
  pub move_to : ℤ → ℤ → Device → Device × Outcome
  pub button : MouseButton → Bool → Device → Device × Outcome
  pub wheel : Scroll → Device → Device × Outcome
  pub key : Key → Bool → Device → Device × Outcome
  pub flush : Device → Device × Outcome
  pub hide_cursor : Device → Device × Outcome
  pub show_cursor : Device → Device × Outcome

-- What is down on a device, and how the operations move it.
pub record IsObedient (J : Inject) : Type 0 where
  pub holds_key : J.Device → Key → Bool
  pub holds_button : J.Device → MouseButton → Bool
  pub key_done :
      (k j : Key) (down : Bool) (d : J.Device)
      → (J.key k down d).1 ≡ none
      → holds_key (J.key k down d).0 j ≡ (if k == j then down else holds_key d j)
  pub key_refused :
      (k j : Key) (down : Bool) (d : J.Device) (e : InputError)
      → (J.key k down d).1 ≡ some e
      → holds_key (J.key k down d).0 j ≡ holds_key d j
  pub key_buttons :
      (k : Key) (b : MouseButton) (down : Bool) (d : J.Device)
      → holds_button (J.key k down d).0 b ≡ holds_button d b
  pub button_done :
      (b c : MouseButton) (down : Bool) (d : J.Device)
      → (J.button b down d).1 ≡ none
      → holds_button (J.button b down d).0 c ≡ (if b == c then down else holds_button d c)
  pub button_refused :
      (b c : MouseButton) (down : Bool) (d : J.Device) (e : InputError)
      → (J.button b down d).1 ≡ some e
      → holds_button (J.button b down d).0 c ≡ holds_button d c
  pub button_keys :
      (b : MouseButton) (k : Key) (down : Bool) (d : J.Device)
      → holds_key (J.button b down d).0 k ≡ holds_key d k
  pub move_keys :
      (x y : ℤ) (d : J.Device) (k : Key) → holds_key (J.move_to x y d).0 k ≡ holds_key d k
  pub move_buttons :
      (x y : ℤ) (d : J.Device) (b : MouseButton)
      → holds_button (J.move_to x y d).0 b ≡ holds_button d b
  pub wheel_keys :
      (s : Scroll) (d : J.Device) (k : Key) → holds_key (J.wheel s d).0 k ≡ holds_key d k
  pub wheel_buttons :
      (s : Scroll) (d : J.Device) (b : MouseButton)
      → holds_button (J.wheel s d).0 b ≡ holds_button d b
  pub flush_keys : (d : J.Device) (k : Key) → holds_key (J.flush d).0 k ≡ holds_key d k
  pub flush_buttons :
      (d : J.Device) (b : MouseButton) → holds_button (J.flush d).0 b ≡ holds_button d b
  pub hide_keys : (d : J.Device) (k : Key) → holds_key (J.hide_cursor d).0 k ≡ holds_key d k
  pub hide_buttons :
      (d : J.Device) (b : MouseButton) → holds_button (J.hide_cursor d).0 b ≡ holds_button d b
  pub show_keys : (d : J.Device) (k : Key) → holds_key (J.show_cursor d).0 k ≡ holds_key d k
  pub show_buttons :
      (d : J.Device) (b : MouseButton) → holds_button (J.show_cursor d).0 b ≡ holds_button d b
