-- ===== src/Core/Exchange/Conversation.antt =====
-- A whole fetch: the owner answers each request with one chunk, and the fetcher asks for the next.
pub mod Turns
pub mod Completes
use smkvm.Base.{
  ℕ, zero, suc, ◌+◌, ◌-◌, ◌*◌, ◌≤◌, ◌<◌, ◌≡◌, refl, ◌∙◌, sym, ap, Bool, true, false, not, ◌&&◌, eqb,
  leb, ltb, if◌then◌else◌, Option, none, some, List, [], ◌∷◌, ◌++◌, map, min, arith, inl, inr,
  Bool-cases,
}
use native.Mathlib.Decide.{dec_le}
use mathlib.Core.Path.{ap₂}
use smkvm.Base.Equality.{pair_eq, nat_eq, ◌==◌, ==_refl}
use smkvm.Base.Lists.{retain, length, take, drop, length-take, take-take-drop, take_all}
use smkvm.Base.Maps
use smkvm.Layout.Model.{DeviceId}
use smkvm.Proto.Msg.{
  seq_eq, format_eq, ClipSeq, ClipFormat, Bulk, clip_request, clip_chunk, clip_cancel, seq_beq_iff,
  format_beq_iff,
}
use smkvm.Proto.Codec.{max_chunk_data}
use smkvm.Core.Exchange.State.{
  Input, from_peer, Output, send, Key, Exchange, Run, Fetching, Waiter, ticket, relay, Waiting,
}
use smkvm.Core.Exchange.Serve.{push, with_self, chunk, awaits, serve_one, serve_waiters, drop_fetch}
use smkvm.Core.Exchange.Fetches.{store_chunk, absorb_chunk, chunk_arrived}
use smkvm.Core.Exchange.Handle.{peer_said, dispatch, handle}

-- The request for `k` that a message to the owner makes.
unfoldable pub request_in : DeviceId → Key → List Output → Option ℕ
request_in owner k (send to (clip_request seq format offset) ∷ []) =
    if to == owner && seq == k.0 && format == k.1 then some offset else none
request_in owner k _ = none

-- The fetcher's machine `x` is told the chunk at `offset` of what the owner has, and its own
-- request, if it makes one, is answered in turn. Fuel counts the chunks.
unfoldable pub converse : ℕ → DeviceId → Key → List ℕ → ℕ → ℕ → Exchange → Run
converse zero owner k bytes now offset x = record { self = x; out = [] }
converse (suc fuel) owner k bytes now offset x =
    let r = handle (from_peer owner (chunk k.0 k.1 bytes offset)) now x in
    elim (request_in owner k r.out) [
      | none ↦ r
      | some next ↦ converse fuel owner k bytes now next r.self
    ]

abbrev pub fetch_at : DeviceId → List ℕ → Fetching
fetch_at owner bytes = record { from = owner; buf = bytes }

abbrev pub quiet : Exchange → Run
quiet x = record { self = x; out = [] }

-- The fetcher's machine when the contents are there.
unfoldable pub completed : Key → List ℕ → Exchange → Run
completed k bytes x = record {
  self = record x {
    waiting = retain (λ w. not (awaits k w)) x.waiting;
    fetching = Maps.remove k x.fetching;
    cache = Maps.insert k bytes x.cache;
  };
  out = map (λ w. serve_one k bytes w.who) (retain (awaits k) x.waiting);
}
