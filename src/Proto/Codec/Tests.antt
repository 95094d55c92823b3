-- ===== src/Proto/Codec/Tests.antt =====
-- Concrete frames, and the decoder's theorems at concrete inputs.
use smkvm.Base.{◌+◌, ◌≤◌, ◌≡◌, refl, some, [], ◌∷◌, arith}
use smkvm.Proto.Codec.{
  ok, err, frame_too_large, FrameDecoder, threshold, frame, to_le_bytes, from_le_bytes, extend,
  next_frame, buffered, pending,
}
use smkvm.Proto.Codec.Parse.{IsValid, parse, unread, next_frame-parse, buffered_bound}
use smkvm.Proto.Codec.Stream.{next_frame_terminal}

-- A decoder with two consumed bytes and a frame of two behind them.
abbrev primed : FrameDecoder
primed = record { buf = 9 ∷ 9 ∷ 2 ∷ 0 ∷ 0 ∷ 0 ∷ 7 ∷ 8 ∷ 1 ∷ []; start = 2; max = 16 }

abbrev hostile : FrameDecoder
hostile = record { buf = 0 ∷ 0 ∷ 0 ∷ 1 ∷ []; start = 0; max = 16 }

frame_two : frame (7 ∷ 8 ∷ []) 16 ≡ ok (2 ∷ 0 ∷ 0 ∷ 0 ∷ 7 ∷ 8 ∷ [])
unfolding frame to_le_bytes
frame_two = refl

primed-IsValid : IsValid primed
primed-IsValid = record { within = omega arith }

hostile-IsValid : IsValid hostile
hostile-IsValid = record { within = omega arith }

next_frame-parse_example :
    IsValid (next_frame primed).0
    × ((next_frame primed).0.max ≡ 16)
    × ((next_frame primed).1 ≡ ok (some (7 ∷ 8 ∷ [])))
    × (unread (next_frame primed).0 ≡ 1 ∷ [])
unfolding parse from_le_bytes
next_frame-parse_example = next_frame-parse primed primed-IsValid

buffered_bound_example :
    buffered (next_frame primed).0 ≤ pending primed + pending primed + threshold
buffered_bound_example = buffered_bound primed primed-IsValid

hostile_refused : (next_frame hostile).1 ≡ err (frame_too_large 16777216 16)
unfolding next_frame from_le_bytes
hostile_refused = refl

next_frame_terminal_example :
    ((next_frame (extend (5 ∷ 5 ∷ []) (next_frame hostile).0)).1
      ≡ err (frame_too_large 16777216 16))
    × (unread (next_frame hostile).0 ≡ unread hostile)
next_frame_terminal_example =
    next_frame_terminal hostile (5 ∷ 5 ∷ []) hostile-IsValid hostile_refused
