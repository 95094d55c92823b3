-- ===== src/Proto/Codec/Parse.antt =====
-- The decoder against its specification: a parser of the bytes not yet consumed.
use smkvm.Base.{
  ℕ, ◌+◌, ◌≤◌, ◌≡◌, ap, ◌∙◌, Option, none, some, List, ◌++◌, ltb, if◌then◌else◌, arith,
}
use smkvm.Base.Lists.{length, take, drop, length-append, length-drop, drop-append, drop-drop}
use smkvm.Proto.Codec.{
  Result, ok, err, frame_too_large, FrameDecoder, header_len, threshold, from_le_bytes, extend,
  compact, take_frame, next_frame, pending, buffered,
}

-- What the decoder still has to read.
abbrev pub unread : FrameDecoder → List ℕ
unread d = drop d.start d.buf

-- The position never passes the end of the buffer, so that the slices do not panic.
pub record IsValid (d : FrameDecoder) : Type 0 where
  pub within : d.start ≤ length d.buf

-- One frame at the front of some bytes: what is found, and what is left.
unfoldable pub parse : ℕ → List ℕ → Result (Option (List ℕ)) × List ℕ
parse max bytes =
    let len = from_le_bytes bytes in
    let body = drop header_len bytes in
    if ltb (length bytes) header_len
    then (ok none, bytes)
    else if ltb max len
    then (err (frame_too_large len max), bytes)
    else if ltb (length bytes) (header_len + len)
    then (ok none, bytes)
    else (ok (some (take len body)), drop len body)

pub unread-compact : (d : FrameDecoder) → unread (compact d) ≡ unread d
unfolding compact
unread-compact d = ground arith

pub compact-IsValid : (d : FrameDecoder) → IsValid d → IsValid (compact d)
unfolding compact
compact-IsValid d v = ground arith

compact-max : (d : FrameDecoder) → (compact d).max ≡ d.max
unfolding compact
compact-max d = ground arith

take_frame-parse :
    (d : FrameDecoder)
    → IsValid d
    → IsValid (take_frame d).0
      × ((take_frame d).0.max ≡ d.max)
      × ((take_frame d).1 ≡ (parse d.max (unread d)).0)
      × (unread (take_frame d).0 ≡ (parse d.max (unread d)).1)
unfolding take_frame parse
take_frame-parse d v = ground (
  arith,
  length-drop d.start d.buf,
  drop-drop header_len d.start d.buf,
  drop-drop (from_le_bytes (unread d)) (d.start + header_len) d.buf,
)

-- `next_frame` parses the unread bytes, and what it leaves unread is what the parser leaves.
pub next_frame-parse :
    (d : FrameDecoder)
    → IsValid d
    → IsValid (next_frame d).0
      × ((next_frame d).0.max ≡ d.max)
      × ((next_frame d).1 ≡ (parse d.max (unread d)).0)
      × (unread (next_frame d).0 ≡ (parse d.max (unread d)).1)
unfolding next_frame
next_frame-parse d v =
    let (valid, limit, result, rest) = take_frame-parse (compact d) (compact-IsValid d v) in
    (
      valid,
      limit ∙ compact-max d,
      result ∙ ap (λ (p : ℕ × List ℕ). (parse p.0 p.1).0) same,
      rest ∙ ap (λ (p : ℕ × List ℕ). (parse p.0 p.1).1) same,
    )
  where
    same : ◌≡◌ {A = ℕ × List ℕ} ((compact d).max, unread (compact d)) (d.max, unread d)
    same = λ i. (compact-max d i, unread-compact d i)

pub unread-extend :
    (bytes : List ℕ) (d : FrameDecoder) → IsValid d → unread (extend bytes d) ≡ unread d ++ bytes
unfolding extend
unread-extend bytes d v = drop-append d.start d.buf bytes v.within

pub extend-IsValid : (bytes : List ℕ) (d : FrameDecoder) → IsValid d → IsValid (extend bytes d)
unfolding extend
extend-IsValid bytes d v = omega (arith, length-append d.buf bytes, v.within)

compact_bound :
    (d : FrameDecoder) → IsValid d → buffered (compact d) ≤ pending d + pending d + threshold
unfolding buffered compact pending
compact_bound d v = ground (arith, v.within, length-drop d.start d.buf)

-- On every call of `next_frame` the buffer is cut back: what it holds afterwards is at most twice
-- what was still to be read, and the threshold.
pub buffered_bound :
    (d : FrameDecoder) → IsValid d → buffered (next_frame d).0 ≤ pending d + pending d + threshold
buffered_bound d v = rw kept (compact_bound d v)
  where
    kept : buffered (next_frame d).0 ≡ buffered (compact d)
    kept = unfold next_frame buffered in (ground arith)
