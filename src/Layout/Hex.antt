-- ===== src/Layout/Hex.antt =====
-- crates/smkvm-layout/src/model.rs: a machine's identity as hexadecimal text.
use smkvm.Base.{ℕ, zero, suc, ◌+◌, ◌*◌, ◌/◌, ◌%◌, ◌^◌, String, ◌≡◌, refl}
use Prim.Native.String.{◌++◌, slice}
use smkvm.Layout.Model.{DeviceId}

-- The digits of a number in base 16, so many of them.
unfoldable pub digits : ℕ → ℕ → String
digits zero n = ""
digits (suc k) n = digits k (n / 16) ++ slice "0123456789abcdef" (n % 16) (n % 16 + 1)

-- Two digits for each of 32 bytes.
unfoldable pub to_hex : DeviceId → String
unfolding digits
to_hex id = digits 64 id

-- `self.to_hex()[..12]`
unfoldable pub short : DeviceId → String
unfolding to_hex
short id = slice (to_hex id) 0 12

short_run : short (0xab * 16 ^ 62 + 7) ≡ "ab0000000000"
unfolding short
short_run = refl
