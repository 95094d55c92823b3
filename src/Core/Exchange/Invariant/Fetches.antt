-- ===== src/Core/Exchange/Invariant/Fetches.antt =====
-- Requests, pastes and chunks keep the invariant.
use smkvm.Base.{ℕ, ◌≡◌, true, Option, none, some, List, Option-cases, Bool-cases, inl, inr, arith}
use smkvm.Base.Equality.{pair_eq, pair_ord, nat_eq, nat_ord}
use smkvm.Base.Maps
use smkvm.Layout.Model.{DeviceId}
use smkvm.Proto.Msg.{seq_eq, seq_ord, format_eq, format_ord, ClipSeq, ClipFormat, seq_beq_iff}
use smkvm.Core.Exchange.State.{
  Waiter, ticket, relay, Held, Key, Run, local_offer, held_offer, held_seq, local_seq,
}
use smkvm.Core.Exchange.Serve.{push, start_fetch}
use smkvm.Core.Exchange.Fetches.{
  wait_for, start_read, relay_request, requested, fetch_wanted, on_wanted, owner_of, owner_for,
  is_ours,
}
use smkvm.Core.Exchange.Invariant.{Inv, Keeps, Keeps-Inv}
use smkvm.Core.Exchange.Tidy.Steps.{start_fetch-Tidy, start_read-Tidy}

self-start_fetch :
    (owner : DeviceId) (k : Key) (who : Waiter) (r : Run)
    → Keeps r.self (start_fetch owner k (wait_for k who r)).self
unfolding start_fetch wait_for
self-start_fetch owner k who r = ground arith

self-start_read :
    (k : Key) (who : Waiter) (r : Run) → Keeps r.self (start_read k (wait_for k who r)).self
unfolding start_read wait_for
self-start_read k who r = ground arith

owner_of-held :
    (k : Key) (o : Option Held) {owner : DeviceId}
    → owner_of k o ≡ some owner
    → held_seq o ≡ some (k.0)
owner_of-held k none e = cc
owner_of-held k (some h) e = ground (arith, seq_beq_iff h.seq (k.0))

owner_for-held :
    (from : DeviceId) (k : Key) (o : Option Held) {owner : DeviceId}
    → owner_for from k o ≡ some owner
    → held_seq o ≡ some (k.0)
owner_for-held from k none e = cc
owner_for-held from k (some h) e = ground (arith, seq_beq_iff h.seq (k.0))

is_ours-local :
    (k : Key) (o : Option (ClipSeq × List ClipFormat))
    → is_ours k o ≡ true
    → local_seq o ≡ some (k.0)
is_ours-local k none e = cc
is_ours-local k (some p) e = ground (arith, seq_beq_iff (p.0) (k.0))

fetch_for-Inv :
    (owner : DeviceId) (k : Key) (who : Waiter) (r : Run)
    → held_offer r.self ≡ some (k.0)
    → Inv r.self
    → Inv (start_fetch owner k (wait_for k who r)).self
fetch_for-Inv owner k who r held v =
    Keeps-Inv (self-start_fetch owner k who r) v (start_fetch-Tidy owner k who r held v.tidy)

read_for-Inv :
    (k : Key) (who : Waiter) (r : Run)
    → local_offer r.self ≡ some (k.0)
    → Inv r.self
    → Inv (start_read k (wait_for k who r)).self
read_for-Inv k who r ours v =
    Keeps-Inv (self-start_read k who r) v (start_read-Tidy k who r ours v.tidy)

relay_request-Inv :
    (from : DeviceId) (k : Key) (offset : ℕ) (r : Run)
    → Inv r.self
    → Inv (relay_request from k offset r).self
relay_request-Inv from k offset r v = elim (Bool-cases (is_ours k r.self.local)) [
  | inl ours ↦
      let who = relay from offset in
      let read = read_for-Inv k who r (is_ours-local k r.self.local ours) v in
      unfold relay_request in rw ours read
  | inr other ↦ elim (Option-cases (owner_for from k r.self.remote)) [
    | inl n ↦ unfold relay_request push in rw (other, n) v
    | inr (owner, s) ↦
        let fetched =
          fetch_for-Inv owner k (relay from offset) r (owner_for-held from k r.self.remote s) v in
        unfold relay_request in rw (other, s) fetched
  ]
]

pub requested-Inv :
    (from : DeviceId) (k : Key) (offset : ℕ) (r : Run)
    → Inv r.self
    → Inv (requested from k offset r).self
requested-Inv from k offset r v = elim (Option-cases (Maps.get k r.self.cache)) [
  | inl e ↦
      let relayed = relay_request-Inv from k offset r v in
      unfold requested in rw (e, requested) relayed
  | inr (bytes, e) ↦ unfold requested in rw (e, requested) v
]

fetch_wanted-Inv : (t : ℕ) (k : Key) (r : Run) → Inv r.self → Inv (fetch_wanted t k r).self
fetch_wanted-Inv t k r v = elim (Option-cases (owner_of k r.self.remote)) [
  | inl n ↦ unfold fetch_wanted in rw (n, fetch_wanted) v
  | inr (owner, s) ↦
      let fetched = fetch_for-Inv owner k (ticket t) r (owner_of-held k r.self.remote s) v in
      unfold fetch_wanted in rw (s, fetch_wanted) fetched
]

pub on_wanted-Inv : (t : ℕ) (k : Key) (r : Run) → Inv r.self → Inv (on_wanted t k r).self
on_wanted-Inv t k r v = elim (Option-cases (Maps.get k r.self.cache)) [
  | inl e ↦ let fetched = fetch_wanted-Inv t k r v in unfold on_wanted in rw (e, on_wanted) fetched
  | inr (bytes, e) ↦ unfold on_wanted in rw (e, on_wanted) v
]
