-- ===== src/Core/Exchange/Conversation/Completes.antt =====
-- The conversation as a whole.
use smkvm.Base.{
  ℕ, zero, suc, ◌+◌, ◌*◌, ◌≤◌, ◌≡◌, refl, ◌∙◌, ap, not, if◌then◌else◌, none, some, List, [], ◌∷◌,
  map, arith,
}
use native.Mathlib.Decide.{dec_le}
use smkvm.Base.Equality.{pair_eq, nat_eq, ==_refl}
use smkvm.Base.Lists.{retain, length, take}
use smkvm.Base.Maps
use smkvm.Layout.Model.{DeviceId}
use smkvm.Proto.Msg.{seq_eq, format_eq, clip_request, seq_beq_iff, format_beq_iff}
use smkvm.Proto.Codec.{max_chunk_data}
use smkvm.Core.Exchange.State.{from_peer, send, Key, Exchange, Run, Waiter, ticket, relay, Waiting}
use smkvm.Core.Exchange.Serve.{push, with_self, chunk, awaits, serve_one, serve_waiters, drop_fetch}
use smkvm.Core.Exchange.Fetches.{store_chunk}
use smkvm.Core.Exchange.Handle.{handle}
use smkvm.Core.Exchange.Conversation.{request_in, converse, fetch_at, quiet, completed}
use smkvm.Core.Exchange.Conversation.Turns.{turn_more, turn_last}

served :
    (owner : DeviceId) (k : Key) (bytes have : List ℕ) (x : Exchange)
    → serve_waiters k bytes (with_self (drop_fetch k) (store_chunk owner k have (quiet x)))
      ≡ completed k bytes x
unfolding serve_waiters drop_fetch store_chunk completed
served owner k bytes have x =
    ap
      (λ F. record (completed k bytes x) {
        self = record x {
          waiting = retain (λ w. not (awaits k w)) x.waiting;
          fetching = F;
          cache = Maps.insert k bytes x.cache;
        };
      })
      (Maps.remove-insert k (fetch_at owner have) x.fetching)

request_in-served :
    (owner : DeviceId) (k : Key) (bytes : List ℕ) (ws : List Waiting)
    → request_in owner k (map (λ w. serve_one k bytes w.who) ws) ≡ none
unfolding request_in chunk
request_in-served owner k bytes [] = refl
request_in-served owner k bytes (w ∷ ws) = served_one w.who ws
  where
    served_one :
        (who : Waiter) (rest : List Waiting)
        → request_in owner k (serve_one k bytes who ∷ map (λ w. serve_one k bytes w.who) rest)
          ≡ none
    served_one (ticket t) rest = refl
    served_one (relay to offset) [] = refl
    served_one (relay to offset) (v ∷ rest) = refl

request_in-push :
    (owner : DeviceId) (k : Key) (e : ℕ) (r : Run)
    → r.out ≡ []
    → request_in owner k (push (send owner (clip_request k.0 k.1 e)) r).out ≡ some e
unfolding request_in push
request_in-push owner k e r h =
    rw h (ground (arith, seq_beq_iff (k.0) (k.0), format_beq_iff (k.1) (k.1)))

completed-store_chunk :
    (owner : DeviceId) (k : Key) (bytes have : List ℕ) (x : Exchange)
    → completed k bytes (store_chunk owner k have (quiet x)).self ≡ completed k bytes x
unfolding completed store_chunk serve_waiters drop_fetch
completed-store_chunk owner k bytes have x = served owner k bytes have x

-- What `converse` does once the messages of a turn are known.
converse_step :
    (fuel : ℕ) (owner : DeviceId) (k : Key) (bytes : List ℕ) (now offset next : ℕ) (x : Exchange)
    (r : Run)
    → handle (from_peer owner (chunk k.0 k.1 bytes offset)) now x ≡ r
    → request_in owner k r.out ≡ some next
    → converse (suc fuel) owner k bytes now offset x ≡ converse fuel owner k bytes now next r.self
unfolding converse
converse_step fuel owner k bytes now offset next x r h q =
    rw (h, converse, q) (ap (λ (s : Run). converse fuel owner k bytes now next s.self) h)

converse_end :
    (fuel : ℕ) (owner : DeviceId) (k : Key) (bytes : List ℕ) (now offset : ℕ) (x : Exchange)
    (r : Run)
    → handle (from_peer owner (chunk k.0 k.1 bytes offset)) now x ≡ r
    → request_in owner k r.out ≡ none
    → converse (suc fuel) owner k bytes now offset x ≡ r
unfolding converse
converse_end fuel owner k bytes now offset x r h q = rw (h, converse, q) h

converse_last :
    (fuel : ℕ) (owner : DeviceId) (k : Key) (bytes : List ℕ) (now n : ℕ) (x : Exchange)
    → Maps.get k x.fetching ≡ some (fetch_at owner (take n bytes))
    → n ≤ length bytes
    → length bytes ≤ x.max_bytes
    → length bytes ≤ n + max_chunk_data
    → converse (suc fuel) owner k bytes now n x ≡ completed k bytes x
converse_last fuel owner k bytes now n x found within fits enough =
    converse_end fuel owner k bytes now n x (completed k bytes x)
      (turn_last owner k bytes now n (length bytes) x refl within enough fits found
        ∙ served owner k bytes bytes x)
      (unfold completed in (request_in-served owner k bytes (retain (awaits k) x.waiting)))

stored_found :
    (owner : DeviceId) (k : Key) (have : List ℕ) (x : Exchange)
    → Maps.get k (store_chunk owner k have (quiet x)).self.fetching ≡ some (fetch_at owner have)
unfolding store_chunk
stored_found owner k have x =
    Maps.get-insert k k (fetch_at owner have) x.fetching
    ∙ ap (λ b. if b then some (fetch_at owner have) else Maps.get k x.fetching) (==_refl k)

-- A fetch runs to its end. From a machine that has the first `n` bytes, enough chunks later, the
-- contents are in the cache, the fetch is over, nobody waits for them any more, and each of those
-- who did has been given exactly the owner's bytes, or for a relay its own chunk of them.
pub fetch_completes :
    (fuel : ℕ) (owner : DeviceId) (k : Key) (bytes : List ℕ) (now n : ℕ) (x : Exchange)
    → Maps.get k x.fetching ≡ some (record { from = owner; buf = take n bytes })
    → n ≤ length bytes
    → length bytes ≤ x.max_bytes
    → length bytes ≤ n + suc fuel * max_chunk_data
    → converse (suc fuel) owner k bytes now n x ≡ completed k bytes x
unfolding push
fetch_completes zero owner k bytes now n x found within fits enough =
    converse_last zero owner k bytes now n x found within fits (omega arith)
fetch_completes (suc fuel) owner k bytes now n x found within fits enough =
    elim (dec_le (length bytes) (n + max_chunk_data)) [
      | yes last ↦ converse_last (suc fuel) owner k bytes now n x found within fits last
      | no more ↦
          let e = n + max_chunk_data in
          let grown = store_chunk owner k (take e bytes) (quiet x) in
          let room : length bytes ≤ grown.self.max_bytes = unfold store_chunk in fits in
          let asked = push (send owner (clip_request k.0 k.1 e)) grown in
          let turned = turn_more owner k bytes now n e x refl (omega arith) fits found in
          converse_step (suc fuel) owner k bytes now n e x asked turned
            (request_in-push owner k e grown (unfold store_chunk in refl))
          ∙ (fetch_completes fuel owner k bytes now e asked.self
                (unfold push in (stored_found owner k (take e bytes) x)) (omega arith)
                (unfold push in room) (omega arith)
              ∙ completed-store_chunk owner k bytes (take e bytes) x)
    ]
