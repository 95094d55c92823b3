-- ===== src/Core/Exchange/Conversation/Turns.antt =====
-- One chunk of the conversation, handled by the fetcher.
use smkvm.Base.{
  ℕ, ◌+◌, ◌-◌, ◌≤◌, ◌<◌, ◌≡◌, refl, ◌∙◌, sym, ap, Bool, true, false, leb, some, List, ◌++◌, min,
  arith,
}
use smkvm.Base.Equality.{pair_eq, nat_eq}
use smkvm.Base.Lists.{length, take, drop, length-take, take-take-drop, take_all}
use smkvm.Base.Maps
use smkvm.Layout.Model.{DeviceId}
use smkvm.Proto.Msg.{seq_eq, format_eq, clip_request, clip_chunk}
use smkvm.Proto.Codec.{max_chunk_data}
use smkvm.Core.Exchange.State.{from_peer, send, Key, Exchange, Run, Fetching}
use smkvm.Core.Exchange.Serve.{push, with_self, chunk, serve_waiters, drop_fetch}
use smkvm.Core.Exchange.Fetches.{store_chunk, absorb_chunk, chunk_arrived}
use smkvm.Core.Exchange.Handle.{peer_said, dispatch, handle}
use smkvm.Core.Exchange.Conversation.{fetch_at, quiet}

chunk_at :
    (k : Key) (bytes : List ℕ) (n e : ℕ) (last : Bool)
    → n ≤ length bytes
    → e ≡ min (n + max_chunk_data) (length bytes)
    → leb (length bytes) e ≡ last
    → chunk k.0 k.1 bytes n ≡ clip_chunk k.0 k.1 n (take (e - n) (drop n bytes)) last
unfolding chunk
chunk_at k bytes n e last within here h =
    let start : min n (length bytes) ≡ n = omega arith in rw (start, ← here, h)

absorb_more :
    (owner : DeviceId) (k : Key) (have piece : List ℕ) (r : Run)
    → length (have ++ piece) ≤ r.self.max_bytes
    → absorb_chunk owner k (length have) piece false (fetch_at owner have) r
      ≡ push
          (send owner (clip_request k.0 k.1 (length (have ++ piece))))
          (store_chunk owner k (have ++ piece) r)
unfolding absorb_chunk
absorb_more owner k have piece r fits = ground arith

absorb_last :
    (owner : DeviceId) (k : Key) (have piece : List ℕ) (r : Run)
    → length (have ++ piece) ≤ r.self.max_bytes
    → absorb_chunk owner k (length have) piece true (fetch_at owner have) r
      ≡ serve_waiters k
          (have ++ piece)
          (with_self (drop_fetch k) (store_chunk owner k (have ++ piece) r))
unfolding absorb_chunk
absorb_last owner k have piece r fits = ground arith

chunk_arrived_found :
    (owner : DeviceId) (k : Key) (offset : ℕ) (piece : List ℕ) (last : Bool) (f : Fetching)
    (r : Run)
    → Maps.get k r.self.fetching ≡ some f
    → chunk_arrived owner k offset piece last r ≡ absorb_chunk owner k offset piece last f r
unfolding chunk_arrived
chunk_arrived_found owner k offset piece last f r e = rw (e, chunk_arrived)

-- One turn of the conversation, as far as `absorb_chunk`.
module _ (owner : DeviceId) (k : Key) (bytes : List ℕ) (now n e : ℕ) (x : Exchange) where
  abbrev piece : List ℕ
  piece = take (e - n) (drop n bytes)

  joined : n ≤ e → take n bytes ++ piece ≡ take e bytes
  joined h =
      let sum : n + (e - n) ≡ e = omega arith in
      take-take-drop n (e - n) bytes ∙ ap (λ (m : ℕ). take m bytes) sum

  turn :
      (last : Bool)
      → n ≤ length bytes
      → e ≡ min (n + max_chunk_data) (length bytes)
      → leb (length bytes) e ≡ last
      → Maps.get k x.fetching ≡ some (fetch_at owner (take n bytes))
      → handle (from_peer owner (chunk k.0 k.1 bytes n)) now x
        ≡ absorb_chunk owner k
            (length (take n bytes))
            piece
            last
            (fetch_at owner (take n bytes))
            (quiet x)
  turn last within here h found =
      let whole : length (take n bytes) ≡ n = omega (arith, length-take n bytes) in
      ap (λ msg. handle (from_peer owner msg) now x) (chunk_at k bytes n e last within here h)
      ∙ (heard
          ∙ (chunk_arrived_found owner k n piece last _ (quiet x) found
              ∙ ap
                  (λ (m : ℕ).
                    absorb_chunk owner k m piece last (fetch_at owner (take n bytes)) (quiet x))
                  (sym whole)))
    where
      heard :
          handle (from_peer owner (clip_chunk k.0 k.1 n piece last)) now x
          ≡ chunk_arrived owner k n piece last (quiet x)
      heard = unfold handle dispatch peer_said in refl

  -- More is to come: what is stored grows, and the next chunk is asked for.
  pub turn_more :
      e ≡ n + max_chunk_data
      → e < length bytes
      → length bytes ≤ x.max_bytes
      → Maps.get k x.fetching ≡ some (fetch_at owner (take n bytes))
      → handle (from_peer owner (chunk k.0 k.1 bytes n)) now x
        ≡ push (send owner (clip_request k.0 k.1 e)) (store_chunk owner k (take e bytes) (quiet x))
  turn_more here short fits found =
      let grown = joined (omega arith) in
      let size : length (take e bytes) ≡ e = omega (arith, length-take e bytes) in
      turn false (omega arith) (omega arith) (ground arith) found
      ∙ (absorb_more owner k (take n bytes) piece (quiet x) (rw grown (omega arith))
          ∙ (ap
                (λ (bs : List ℕ).
                  push (send owner (clip_request k.0 k.1 (length bs)))
                    (store_chunk owner k bs (quiet x)))
                grown
              ∙ ap
                  (λ (m : ℕ).
                    push (send owner (clip_request k.0 k.1 m))
                      (store_chunk owner k (take e bytes) (quiet x)))
                  size))

  -- The last chunk: everything is there, and everyone is served.
  pub turn_last :
      e ≡ length bytes
      → n ≤ length bytes
      → length bytes ≤ n + max_chunk_data
      → length bytes ≤ x.max_bytes
      → Maps.get k x.fetching ≡ some (fetch_at owner (take n bytes))
      → handle (from_peer owner (chunk k.0 k.1 bytes n)) now x
        ≡ serve_waiters k bytes (with_self (drop_fetch k) (store_chunk owner k bytes (quiet x)))
  turn_last here within enough fits found =
      let grown : take n bytes ++ piece ≡ bytes =
        joined (omega arith) ∙ take_all e bytes (omega arith) in
      turn true within (omega arith) (ground arith) found
      ∙ (absorb_last owner k (take n bytes) piece (quiet x) (rw grown fits)
          ∙ ap
              (λ (bs : List ℕ).
                serve_waiters k bs (with_self (drop_fetch k) (store_chunk owner k bs (quiet x))))
              grown)
