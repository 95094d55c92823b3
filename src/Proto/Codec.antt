-- ===== src/Proto/Codec.antt =====
-- crates/smkvm-proto/src/codec.rs: frames, a little-endian `u32` byte count before that many bytes.
-- A byte slice is a list of numbers. The bytes of a message come from postcard, a crate that the
-- code only calls: `to_stdvec` and `from_bytes` are parameters.
pub mod Parse
pub mod Stream
mod Tests
use smkvm.Base.{
  ℕ, suc, ◌+◌, ◌-◌, ◌*◌, ◌/◌, ◌%◌, ◌^◌, Bool, ◌&&◌, Option, none, some, List, [], ◌∷◌, ◌++◌, ltb,
  leb, if◌then◌else◌,
}
use smkvm.Base.Lists.{length, take, drop}

abbrev pub max_frame_len : ℕ
max_frame_len = 1024 * 1024

abbrev pub max_chunk_data : ℕ
max_chunk_data = 128 * 1024

abbrev pub header_len : ℕ
header_len = 4

-- The postcard errors carry what that crate says.
pub data ProtoError : Type 0 where
  frame_too_large : ℕ → ℕ → ProtoError
  decode_failed encode_failed : ProtoError

pub data Result {ℓ} (A : Type ℓ) : Type ℓ where
  ok : A → Result A
  err : ProtoError → Result A

infixl 5 ◌>>=◌
abbrev pub ◌>>=◌ {ℓ κ} : {A : Type ℓ} {B : Type κ} → Result A → (A → Result B) → Result B
ok a >>= f = f a
err e >>= f = err e

-- `map_err(ProtoError::…)` on what postcard returns.
abbrev pub map_err {ℓ} : {A : Type ℓ} → ProtoError → Option A → Result A
map_err e none = err e
map_err e (some a) = ok a

-- `(n as u32).to_le_bytes()`
unfoldable pub to_le_bytes : ℕ → List ℕ
to_le_bytes n =
    let v = n % 2 ^ 32 in v % 256 ∷ v / 256 % 256 ∷ v / 65536 % 256 ∷ v / 16777216 % 256 ∷ []

-- `u32::from_le_bytes` on the first four bytes; the callers have checked that they are there.
unfoldable pub from_le_bytes : List ℕ → ℕ
from_le_bytes (a ∷ b ∷ c ∷ d ∷ rest) = a + 256 * b + 65536 * c + 16777216 * d
from_le_bytes _ = 0

-- The frame of an encoded body.
unfoldable pub frame : List ℕ → ℕ → Result (List ℕ)
frame body max =
    if ltb max (length body)
    then err (frame_too_large (length body) max)
    else ok (to_le_bytes (length body) ++ body)

module _ {A : Type 0} (to_stdvec : A → Option (List ℕ)) where
  unfoldable pub encode_with_limit : A → ℕ → Result (List ℕ)
  unfolding frame
  encode_with_limit msg max = do body ← map_err encode_failed (to_stdvec msg); frame body max

  unfoldable pub encode : A → Result (List ℕ)
  unfolding encode_with_limit
  encode msg = encode_with_limit msg max_frame_len

  unfoldable pub encode_bare : A → Result (List ℕ)
  encode_bare msg = map_err encode_failed (to_stdvec msg)

unfoldable pub decode : {A : Type 0} → (List ℕ → Option A) → List ℕ → Result A
decode from_bytes body = map_err decode_failed (from_bytes body)

pub record FrameDecoder : Type 0 where
  pub buf : List ℕ
  pub start : ℕ
  pub max : ℕ

unfoldable pub with_limit : ℕ → FrameDecoder
with_limit max = record { buf = []; start = 0; max = max }

unfoldable pub new : FrameDecoder
unfolding with_limit
new = with_limit max_frame_len

unfoldable pub pending : FrameDecoder → ℕ
pending d = length d.buf - d.start

unfoldable pub buffered : FrameDecoder → ℕ
buffered d = length d.buf

unfoldable pub extend : List ℕ → FrameDecoder → FrameDecoder
extend bytes d = record d { buf = d.buf ++ bytes }

abbrev pub threshold : ℕ
threshold = 64 * 1024

unfoldable pub compact : FrameDecoder → FrameDecoder
compact d =
    if leb threshold d.start && leb (length d.buf) (d.start * 2)
    then record d { buf = drop d.start d.buf; start = 0 }
    else d

-- The body of `next_frame` behind `self.compact()`.
unfoldable pub take_frame : FrameDecoder → FrameDecoder × Result (Option (List ℕ))
take_frame d =
    let avail = drop d.start d.buf in
    let len = from_le_bytes avail in
    let body = d.start + header_len in
    if ltb (length avail) header_len
    then (d, ok none)
    else if ltb d.max len
    then (d, err (frame_too_large len d.max))
    else if ltb (length avail) (header_len + len)
    then (d, ok none)
    else (record d { start = body + len }, ok (some (take len (drop body d.buf))))

unfoldable pub next_frame : FrameDecoder → FrameDecoder × Result (Option (List ℕ))
unfolding compact take_frame
next_frame d = take_frame (compact d)
