-- ===== src/Proto/Keys.antt =====
-- crates/smkvm-proto/src/keys.rs: keys by their USB HID usage, mouse buttons and scroll amounts.
use smkvm.Base.{ℕ, ◌≡◌, ◌↔◌, Bool, true, ◌&&◌, ◌||◌, leb, eqb, ltb, arith}
use smkvm.Base.Int.{ℤ}
use smkvm.Base.Equality.{PartialEq, Ord}

-- `Key(u16)`.
pub record Key : Type 0 where
  pub usage : ℕ

-- Usage IDs 0xE0..=0xE7.
unfoldable pub is_modifier : Key → Bool
is_modifier k = leb 0xE0 k.usage && leb k.usage 0xE7

abbrev key_beq : Key → Key → Bool
key_beq a b = eqb a.usage b.usage

pub key_beq_iff : (a b : Key) → (key_beq a b ≡ true) ↔ (a ≡ b)
key_beq_iff a b = ground arith

instance abbrev pub key_eq : PartialEq Key
key_eq = record { same = key_beq; same_iff = key_beq_iff }

instance abbrev pub key_ord : Ord Key
key_ord = record { lt = λ a b. ltb a.usage b.usage }

-- `Other` holds a byte.
pub data MouseButton : Type 0 where
  left middle right back forward : MouseButton
  other : ℕ → MouseButton

-- The variant's place in the declaration, by which the derived order goes first.
abbrev button_rank : MouseButton → ℕ
button_rank left = 0
button_rank middle = 1
button_rank right = 2
button_rank back = 3
button_rank forward = 4
button_rank (other n) = 5

abbrev button_payload : MouseButton → ℕ
button_payload (other n) = n
button_payload _ = 0

abbrev button_beq : MouseButton → MouseButton → Bool
button_beq a b = eqb (button_rank a) (button_rank b) && eqb (button_payload a) (button_payload b)

pub button_beq_iff : (a b : MouseButton) → (button_beq a b ≡ true) ↔ (a ≡ b)
button_beq_iff a b = ground arith

instance abbrev pub button_eq : PartialEq MouseButton
button_eq = record { same = button_beq; same_iff = button_beq_iff }

instance abbrev pub button_ord : Ord MouseButton
button_ord = record {
  lt = λ a b.
      ltb (button_rank a) (button_rank b)
      || (eqb (button_rank a) (button_rank b) && ltb (button_payload a) (button_payload b));
}

-- In units of 1/120 of a notch.
pub record Scroll : Type 0 where
  pub dx : ℤ
  pub dy : ℤ
