-- ===== src/Core/Exchange/Fetches.antt =====
-- Asking for contents and receiving them (exchange.rs: `requested`, `wanted`, `chunk_arrived`,
-- `ClipUnavailable` in `peer_said`, `read_done`).
use smkvm.Base.{
  ℕ, Bool, false, not, ◌&&◌, ltb, if◌then◌else◌, Option, none, some, List, [], ◌∷◌, ◌++◌,
}
use smkvm.Base.Equality.{◌==◌, nat_eq, nat_ord, pair_eq, pair_ord}
use smkvm.Base.Lists.{length, contains}
use smkvm.Base.Sets
use smkvm.Base.Maps
use smkvm.Layout.Model.{DeviceId}
use smkvm.Proto.Msg.{
  ClipSeq, seq_eq, seq_ord, ClipFormat, format_eq, format_ord, ClipError, stale, cancelled,
  too_large, clip_request, clip_unavailable, clip_cancel,
}
use smkvm.Core.Exchange.State.{
  Exchange, Contents, ok, err, send, read_local, deliver, Held, Fetching, Waiter, ticket, relay,
  Key, Run,
}
use smkvm.Core.Exchange.Serve.{
  with_self, push, chunk, serve_waiters, fail_waiters, start_fetch, drop_fetch,
}

unfoldable pub wait_for : Key → Waiter → Run → Run
wait_for k who =
    with_self
      (λ x. record x { waiting = x.waiting ++ record { seq = k.0; format = k.1; who = who } ∷ [] })

-- `self.reading.insert(key)` says whether the key is new.
unfoldable pub start_read : Key → Run → Run
unfolding push
start_read k r =
    if contains r.self.reading k
    then r
    else push (read_local k.0 k.1)
        (with_self (λ x. record x { reading = Sets.insert k x.reading }) r)

abbrev pub is_ours : Key → Option (ClipSeq × List ClipFormat) → Bool
is_ours k none = false
is_ours k (some p) = p.0 == k.0 && contains (p.1) (k.1)

-- The machine to fetch `k` from, if the offer held has it.
abbrev pub owner_of : Key → Option Held → Option DeviceId
owner_of k none = none
owner_of k (some h) = if h.seq == k.0 && contains h.formats (k.1) then some h.from else none

-- The same for another machine's request, which is not sent back where it came from.
abbrev pub owner_for : DeviceId → Key → Option Held → Option DeviceId
owner_for from k none = none
owner_for from k (some h) =
    if h.seq == k.0 && contains h.formats (k.1) && not (h.from == from) then some h.from else none

-- What `requested` does where the cache has nothing.
unfoldable pub relay_request : DeviceId → Key → ℕ → Run → Run
unfolding wait_for start_read start_fetch push
relay_request from k offset r =
    if is_ours k r.self.local
    then start_read k (wait_for k (relay from offset) r)
    else elim (owner_for from k r.self.remote) [
      | some owner ↦ start_fetch owner k (wait_for k (relay from offset) r)
      | none ↦ push (send from (clip_unavailable k.0 k.1 stale)) r
    ]

unfoldable pub requested : DeviceId → Key → ℕ → Run → Run
unfolding push relay_request
requested from k offset r = elim (Maps.get k r.self.cache) [
  | some bytes ↦ push (send from (chunk k.0 k.1 bytes offset)) r
  | none ↦ relay_request from k offset r
]

-- What `wanted` does where the cache has nothing.
unfoldable pub fetch_wanted : ℕ → Key → Run → Run
unfolding wait_for start_fetch push
fetch_wanted t k r = elim (owner_of k r.self.remote) [
  | none ↦ push (deliver t (err stale)) r
  | some owner ↦ start_fetch owner k (wait_for k (ticket t) r)
]

unfoldable pub on_wanted : ℕ → Key → Run → Run
unfolding push fetch_wanted
on_wanted t k r = elim (Maps.get k r.self.cache) [
  | some bytes ↦ push (deliver t (ok bytes)) r
  | none ↦ fetch_wanted t k r
]

-- The fetch is given up: the owner is told, and everyone waiting for it.
unfoldable pub give_up : DeviceId → Key → ClipError → Run → Run
unfolding push drop_fetch fail_waiters
give_up from k why r =
    fail_waiters k why (push (send from (clip_cancel k.0 k.1)) (with_self (drop_fetch k) r))

-- `fetching.buf.extend_from_slice(&data)` on the entry of `k`.
unfoldable pub store_chunk : DeviceId → Key → List ℕ → Run → Run
store_chunk from k bytes =
    with_self
      (λ x. record x { fetching = Maps.insert k (record { from = from; buf = bytes }) x.fetching })

-- `chunk_arrived` behind its look at `self.fetching`; `f` is the entry found.
unfoldable pub absorb_chunk : DeviceId → Key → ℕ → List ℕ → Bool → Fetching → Run → Run
unfolding give_up store_chunk push serve_waiters drop_fetch
absorb_chunk from k offset bytes last f r =
    let have = f.buf ++ bytes in
    let r1 = store_chunk from k have r in
    let limit = r.self.max_bytes in
    if not (f.from == from)
    then r
    else if not (offset == length f.buf)
    then give_up from k cancelled r
    else if ltb limit (length have)
    then give_up from k (too_large (length have) limit) r1
    else if not last
    then push (send from (clip_request k.0 k.1 (length have))) r1
    else serve_waiters k have (with_self (drop_fetch k) r1)

unfoldable pub chunk_arrived : DeviceId → Key → ℕ → List ℕ → Bool → Run → Run
unfolding absorb_chunk
chunk_arrived from k offset bytes last r = elim (Maps.get k r.self.fetching) [
  | none ↦ r
  | some f ↦ absorb_chunk from k offset bytes last f r
]

unfoldable pub unavailable : DeviceId → Key → ClipError → Run → Run
unfolding fail_waiters drop_fetch
unavailable from k reason r = elim (Maps.get k r.self.fetching) [
  | none ↦ r
  | some f ↦ if f.from == from then fail_waiters k reason (with_self (drop_fetch k) r) else r
]

abbrev pub is_local_seq : ClipSeq → Option (ClipSeq × List ClipFormat) → Bool
is_local_seq seq none = false
is_local_seq seq (some p) = p.0 == seq

-- `self.reading.remove(&key)`
abbrev pub end_read : Key → Exchange → Exchange
end_read k x = record x { reading = Sets.remove k x.reading }

unfoldable pub on_read_done : Key → Contents → Run → Run
unfolding fail_waiters serve_waiters
on_read_done k result r =
    let r1 = with_self (end_read k) r in
    let limit = r.self.max_bytes in
    elim result [
      | err e ↦ fail_waiters k e r1
      | ok bytes ↦
          if not (is_local_seq (k.0) r.self.local)
          then fail_waiters k stale r1
          else if ltb limit (length bytes)
          then fail_waiters k (too_large (length bytes) limit) r1
          else serve_waiters k bytes r1
    ]
