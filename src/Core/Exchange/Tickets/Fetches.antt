-- ===== src/Core/Exchange/Tickets/Fetches.antt =====
-- The count of tickets over requests, pastes, chunks and reads.
use smkvm.Base.{
  ℕ, ◌+◌, ◌≡◌, Bool, eqb, if◌then◌else◌, List, ◌++◌, Option-cases, Bool-cases, inl, inr, arith,
}
use smkvm.Base.Equality.{pair_eq, nat_eq, nat_ord}
use smkvm.Base.Sets
use smkvm.Base.Maps
use smkvm.Layout.Model.{DeviceId}
use smkvm.Proto.Msg.{seq_eq, format_eq, ClipError, Bulk}
use smkvm.Core.Exchange.State.{Contents, Fetching, Waiter, ticket, relay, Key, Run, send}
use smkvm.Core.Exchange.Serve.{push, with_self, drop_fetch}
use smkvm.Core.Exchange.Fetches.{
  wait_for, start_read, relay_request, requested, fetch_wanted, on_wanted, give_up, store_chunk,
  absorb_chunk, chunk_arrived, unavailable, on_read_done, owner_of, owner_for, is_ours,
}
use smkvm.Core.Exchange.Tickets.{
  is_ticket, answers-append, held_tickets-append, balance, balance-push, balance-serve_waiters,
  balance-fail_waiters, balance-start_fetch,
}

module _ (t : ℕ) where
  balance-wait_for :
      (k : Key) (who : Waiter) (r : Run)
      → balance t (wait_for k who r) ≡ balance t r + is_ticket t who
  unfolding wait_for
  balance-wait_for k who r = grind (arith, held_tickets-append)

  balance-start_read : (k : Key) (r : Run) → balance t (start_read k r) ≡ balance t r
  unfolding start_read
  balance-start_read k r = grind (arith, answers-append)

  balance-relay_request :
      (from : DeviceId) (k : Key) (offset : ℕ) (r : Run)
      → balance t (relay_request from k offset r) ≡ balance t r
  balance-relay_request from k offset r =
      let w = wait_for k (relay from offset) r in
      let waited = balance-wait_for k (relay from offset) r in
      elim (Bool-cases (is_ours k r.self.local)) [
        | inl e ↦ unfold relay_request in rw e (ground (arith, waited, balance-start_read k w))
        | inr e ↦ elim (Option-cases (owner_for from k r.self.remote)) [
          | inl n ↦ unfold relay_request in rw (e, n) (grind (arith, answers-append))
          | inr (owner, s) ↦
              unfold relay_request in
              rw (e, s) (ground (arith, waited, balance-start_fetch t owner k w))
        ]
      ]

  pub balance-requested :
      (from : DeviceId) (k : Key) (offset : ℕ) (r : Run)
      → balance t (requested from k offset r) ≡ balance t r
  balance-requested from k offset r = elim (Option-cases (Maps.get k r.self.cache)) [
    | inl e ↦ unfold requested in rw (e, requested) (balance-relay_request from k offset r)
    | inr (bytes, e) ↦ unfold requested in rw (e, requested) (grind (arith, answers-append))
  ]

  balance-fetch_wanted :
      (s : ℕ) (k : Key) (r : Run)
      → balance t (fetch_wanted s k r) ≡ balance t r + (if eqb s t then 1 else 0)
  balance-fetch_wanted s k r = elim (Option-cases (owner_of k r.self.remote)) [
    | inl n ↦ unfold fetch_wanted in rw (n, fetch_wanted) (grind (arith, answers-append))
    | inr (owner, o) ↦
        let w = wait_for k (ticket s) r in
        let waited = balance-wait_for k (ticket s) r in
        unfold fetch_wanted in
        rw (o, fetch_wanted) (ground (arith, waited, balance-start_fetch t owner k w))
  ]

  -- A paste adds its ticket, answered at once or left waiting.
  pub balance-on_wanted :
      (s : ℕ) (k : Key) (r : Run)
      → balance t (on_wanted s k r) ≡ balance t r + (if eqb s t then 1 else 0)
  balance-on_wanted s k r = elim (Option-cases (Maps.get k r.self.cache)) [
    | inl e ↦ unfold on_wanted in rw (e, on_wanted) (balance-fetch_wanted s k r)
    | inr (bytes, e) ↦ unfold on_wanted in rw (e, on_wanted) (grind (arith, answers-append))
  ]

  balance-give_up :
      (from : DeviceId) (k : Key) (why : ClipError) (r : Run)
      → balance t (give_up from k why r) ≡ balance t r
  balance-give_up from k why r =
      let told = push (send from (Bulk.clip_cancel k.0 k.1)) (with_self (drop_fetch k) r) in
      let failed = balance-fail_waiters t k why told in
      let pushed =
        balance-push t (send from (Bulk.clip_cancel k.0 k.1)) (with_self (drop_fetch k) r) in
      unfold give_up in (ground (arith, failed, pushed))

  balance-absorb_chunk :
      (from : DeviceId) (k : Key) (offset : ℕ) (bytes : List ℕ) (last : Bool) (f : Fetching)
      (r : Run)
      → balance t (absorb_chunk from k offset bytes last f r) ≡ balance t r
  balance-absorb_chunk from k offset bytes last f r =
      let have = f.buf ++ bytes in
      let r1 = store_chunk from k have r in
      unfold absorb_chunk in
      (grind (
        arith,
        answers-append,
        balance-give_up from k ClipError.cancelled r,
        balance-give_up from k _ r1,
        balance-serve_waiters t k have (with_self (drop_fetch k) r1),
      ))

  pub balance-chunk_arrived :
      (from : DeviceId) (k : Key) (offset : ℕ) (bytes : List ℕ) (last : Bool) (r : Run)
      → balance t (chunk_arrived from k offset bytes last r) ≡ balance t r
  balance-chunk_arrived from k offset bytes last r =
      elim (Option-cases (Maps.get k r.self.fetching)) [
        | inl e ↦ unfold chunk_arrived in rw (e, chunk_arrived)
        | inr (f, e) ↦
            unfold chunk_arrived in
            rw (e, chunk_arrived) (balance-absorb_chunk from k offset bytes last f r)
      ]

  pub balance-unavailable :
      (from : DeviceId) (k : Key) (reason : ClipError) (r : Run)
      → balance t (unavailable from k reason r) ≡ balance t r
  balance-unavailable from k reason r =
      let failed = balance-fail_waiters t k reason (with_self (drop_fetch k) r) in
      unfold unavailable in (ground (arith, failed))

  pub balance-on_read_done :
      (k : Key) (result : Contents) (r : Run) → balance t (on_read_done k result r) ≡ balance t r
  balance-on_read_done k result r =
      let r1 = with_self (λ x. record x { reading = Sets.remove k x.reading }) r in
      unfold on_read_done in
      (grind (
        arith,
        λ (e : ClipError). balance-fail_waiters t k e r1,
        λ (b : List ℕ). balance-serve_waiters t k b r1,
      ))
