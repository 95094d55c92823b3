-- ===== src/Core/Exchange/Serve.antt =====
-- The helpers of exchange.rs: answering those who wait, fetching, and forgetting an offer.
use smkvm.Base.{ℕ, ◌+◌, ◌-◌, min, Bool, not, ◌&&◌, leb, none, some, List, [], ◌∷◌, ◌++◌, map}
use smkvm.Base.Equality.{◌==◌, pair_eq}
use smkvm.Base.Lists.{length, take, drop, retain}
use smkvm.Base.Sets
use smkvm.Base.Maps
use smkvm.Layout.Model.{DeviceId}
use smkvm.Proto.Msg.{
  ClipSeq, seq_eq, ClipFormat, format_eq, format_ord, ClipEntry, ClipOffer, ClipError, Bulk, stale,
  clip_request, clip_chunk, clip_unavailable, clip_cancel,
}
use smkvm.Proto.Codec.{max_chunk_data}
use smkvm.Core.Exchange.State.{
  ok, err, Output, send, deliver, Waiter, ticket, relay, Waiting, Key, Exchange, Run,
}

-- `out.push(o)`
unfoldable pub push : Output → Run → Run
push o r = record r { out = r.out ++ o ∷ [] }

abbrev pub with_self : (Exchange → Exchange) → Run → Run
with_self f r = record r { self = f r.self }

abbrev pub entry : ClipFormat → ClipEntry
entry f = record { format = f; bytes = none; hash = none }

unfoldable pub offer : ClipSeq → List ClipFormat → ClipOffer
offer seq formats = record { seq = seq; entries = map entry formats }

-- The one chunk that answers a request for `offset`.
unfoldable pub chunk : ClipSeq → ClipFormat → List ℕ → ℕ → Bulk
chunk seq format bytes offset =
    let start = min offset (length bytes) in
    let end = min (start + max_chunk_data) (length bytes) in
    clip_chunk seq format start (take (end - start) (drop start bytes)) (leb (length bytes) end)

-- `w.seq == seq && w.format == format`
abbrev pub awaits : Key → Waiting → Bool
awaits k w = w.seq == k.0 && w.format == k.1

abbrev pub serve_one : Key → List ℕ → Waiter → Output
serve_one k bytes (ticket t) = deliver t (ok bytes)
serve_one k bytes (relay to offset) = send to (chunk k.0 k.1 bytes offset)

abbrev pub fail_one : Key → ClipError → Waiter → Output
fail_one k why (ticket t) = deliver t (err why)
fail_one k why (relay to offset) = send to (clip_unavailable k.0 k.1 why)

-- Contents have arrived: keep them, and answer everyone waiting.
unfoldable pub serve_waiters : Key → List ℕ → Run → Run
serve_waiters k bytes r = record {
  self = record x {
    waiting = retain (λ w. not (awaits k w)) x.waiting;
    cache = Maps.insert k bytes x.cache;
  };
  out = r.out ++ map (λ w. serve_one k bytes w.who) (retain (awaits k) x.waiting);
}
  where
    open r use {self as x}

unfoldable pub fail_waiters : Key → ClipError → Run → Run
fail_waiters k why r = record {
  self = record x { waiting = retain (λ w. not (awaits k w)) x.waiting };
  out = r.out ++ map (λ w. fail_one k why w.who) (retain (awaits k) x.waiting);
}
  where
    open r use {self as x}

unfoldable pub start_fetch : DeviceId → Key → Run → Run
unfolding push
start_fetch from k r = elim (Maps.get k r.self.fetching) [
  | some f ↦ r
  | none ↦ push (send from (clip_request k.0 k.1 0)) (record r {
    self = record x { fetching = Maps.insert k (record { from = from; buf = [] }) x.fetching };
  })
]
  where
    open r use {self as x}

unfoldable pub drop_fetch : Key → Exchange → Exchange
drop_fetch k x = record x { fetching = Maps.remove k x.fetching }

-- One turn of the loop over the fetches of a forgotten offer.
unfoldable pub cancel_fetch : ClipSeq → Key → Run → Run
unfolding push drop_fetch
cancel_fetch seq k r = elim (Maps.get k r.self.fetching) [
  | none ↦ r
  | some f ↦ push (send f.from (clip_cancel seq k.1)) (record r { self = drop_fetch k r.self })
]

unfoldable pub cancel_fetches : ClipSeq → List Key → Run → Run
cancel_fetches seq [] r = r
cancel_fetches seq (k ∷ ks) r = cancel_fetches seq ks (cancel_fetch seq k r)

unfoldable pub fail_formats : ClipSeq → List ClipFormat → Run → Run
fail_formats seq [] r = r
fail_formats seq (f ∷ fs) r = fail_formats seq fs (fail_waiters (seq, f) stale r)

-- What the cache and the reads hold of an offer goes.
unfoldable pub drop_stored : ClipSeq → Run → Run
drop_stored seq r = record r {
  self = record x {
    cache = retain (λ p. not (p.0.0 == seq)) x.cache;
    reading = retain (λ k. not (k.0 == seq)) x.reading;
  };
}
  where
    open r use {self as x}

abbrev pub fetches_of : ClipSeq → Exchange → List Key
fetches_of seq x = retain (λ k. k.0 == seq) (Maps.keys x.fetching)

abbrev pub stale_formats : ClipSeq → Exchange → List ClipFormat
stale_formats seq x = Sets.collect (map (λ w. w.format) (retain (λ w. w.seq == seq) x.waiting))

unfoldable pub fail_stale : ClipSeq → Run → Run
unfolding fail_formats
fail_stale seq r = fail_formats seq (stale_formats seq r.self) r

unfoldable pub cancel_all : ClipSeq → Run → Run
unfolding cancel_fetches
cancel_all seq r = cancel_fetches seq (fetches_of seq r.self) r

-- An offer is over: nothing about it will be asked for or answered again.
unfoldable pub forget : ClipSeq → Run → Run
unfolding drop_stored cancel_all fail_stale
forget seq r = fail_stale seq (cancel_all seq (drop_stored seq r))
