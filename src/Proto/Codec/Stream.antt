-- ===== src/Proto/Codec/Stream.antt =====
-- Frames in a stream that arrives in pieces.
use smkvm.Base.{
  ℕ, ◌+◌, ◌^◌, ◌≤◌, ◌<◌, ◌≡◌, refl, sym, ap, ◌∙◌, none, some, List, [], ◌∷◌, ◌++◌, inl, inr, arith,
  ◌⊎◌,
}
use native.Mathlib.Decide.{dec_lt}
use mathlib.Core.List.{append_assoc}
use mathlib.Core.Path.{ap₂}
use smkvm.Base.Lists.{
  length, take, drop, length-append, length-drop, drop-append, take-append, drop-length_append,
  take-length_append,
}
use smkvm.Proto.Codec.{
  ok, err, ProtoError, FrameDecoder, header_len, to_le_bytes, from_le_bytes, extend, next_frame,
}
use smkvm.Proto.Codec.Parse.{
  unread, IsValid, parse, next_frame-parse, unread-extend, extend-IsValid,
}

-- The bytes of a frame that is not too large.
abbrev pub framed : List ℕ → List ℕ
framed body = to_le_bytes (length body) ++ body

from_le_bytes-to_le_bytes :
    (n : ℕ) (rest : List ℕ) → n < 2 ^ 32 → from_le_bytes (to_le_bytes n ++ rest) ≡ n
unfolding from_le_bytes to_le_bytes
from_le_bytes-to_le_bytes n rest h = omega arith

from_le_bytes-append :
    (xs ys : List ℕ) → header_len ≤ length xs → from_le_bytes (xs ++ ys) ≡ from_le_bytes xs
unfolding from_le_bytes
from_le_bytes-append (a ∷ b ∷ c ∷ d ∷ xs) ys h = refl
from_le_bytes-append [] ys h = absurd (omega arith)
from_le_bytes-append (a ∷ []) ys h = absurd (omega arith)
from_le_bytes-append (a ∷ b ∷ []) ys h = absurd (omega arith)
from_le_bytes-append (a ∷ b ∷ c ∷ []) ys h = absurd (omega arith)

drop-framed : (body rest : List ℕ) → drop header_len (framed body ++ rest) ≡ body ++ rest
unfolding to_le_bytes
drop-framed body rest = refl

-- A front of a stream that begins with a frame: the frame is there whole, or nothing is found yet.
pub parse_front :
    (max : ℕ) (body rest xs ys : List ℕ)
    → length body ≤ max
    → max < 2 ^ 32
    → xs ++ ys ≡ framed body ++ rest
    → (parse max xs ≡ (ok none, xs)) × (length xs < header_len + length body)
      ⊎ ((zs : List ℕ) × (parse max xs ≡ (ok (some body), zs)) × (zs ++ ys ≡ rest))
unfolding parse
parse_front max body rest xs ys fits small e = elim (dec_lt (length xs) header_len) [
  | yes short ↦ inl (ground arith, omega arith)
  | no long ↦
      let declared : from_le_bytes xs ≡ length body =
        sym (from_le_bytes-append xs ys (omega arith))
        ∙ ap from_le_bytes (e ∙ regroup)
        ∙ from_le_bytes-to_le_bytes (length body) (body ++ rest) (omega arith) in
      elim (dec_lt (length xs) (header_len + length body)) [
        | yes part ↦ inl (ground (arith, declared), part)
        | no whole ↦
            let behind : drop header_len xs ++ ys ≡ body ++ rest =
              sym (drop-append header_len xs ys (omega arith))
              ∙ ap (drop header_len) e
              ∙ drop-framed body rest in
            let enough : length body ≤ length (drop header_len xs) =
              omega (arith, length-drop header_len xs) in
            let found : take (length body) (drop header_len xs) ≡ body =
              sym (take-append (length body) (drop header_len xs) ys enough)
              ∙ ap (take (length body)) behind
              ∙ take-length_append body rest in
            let left : drop (length body) (drop header_len xs) ++ ys ≡ rest =
              sym (drop-append (length body) (drop header_len xs) ys enough)
              ∙ ap (drop (length body)) behind
              ∙ drop-length_append body rest in
            inr (drop (length body) (drop header_len xs), ground (arith, declared, found), left)
      ]
]
  where
    regroup : framed body ++ rest ≡ to_le_bytes (length body) ++ (body ++ rest)
    regroup = append_assoc (to_le_bytes (length body)) body rest

-- An oversized length is final: whatever arrives after it, the parser repeats the error.
parse_terminal :
    (max : ℕ) (bytes more : List ℕ) {e : ProtoError}
    → (parse max bytes).0 ≡ err e
    → ((parse max (bytes ++ more)).0 ≡ err e) × ((parse max bytes).1 ≡ bytes)
unfolding parse
parse_terminal max bytes more h =
    ground (arith, from_le_bytes-append bytes more, length-append bytes more)

-- A length over the limit is an error that no later bytes undo, and it consumes nothing.
pub next_frame_terminal :
    (d : FrameDecoder) (more : List ℕ) {e : ProtoError}
    → IsValid d
    → (next_frame d).1 ≡ err e
    → ((next_frame (extend more (next_frame d).0)).1 ≡ err e) × (unread (next_frame d).0 ≡ unread d)
unfolding extend
next_frame_terminal d more {e} v h =
    let (valid, limit, result, rest) = next_frame-parse d v in
    let (again, kept) = parse_terminal d.max (unread d) more (sym result ∙ h) in
    let later = next_frame-parse (extend more (next_frame d).0) (extend-IsValid more _ valid) in
    (
      later.2
          ∙ ap₂ (λ (m : ℕ) (bs : List ℕ). (parse m bs).0) limit
              (unread-extend more _ valid ∙ ap (λ (bs : List ℕ). bs ++ more) (rest ∙ kept))
          ∙ again,
      rest ∙ kept,
    )
