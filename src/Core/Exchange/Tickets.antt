-- ===== src/Core/Exchange/Tickets.antt =====
-- Every paste is answered exactly once: tickets that wait and tickets delivered, counted.
pub mod Offers
pub mod Fetches
use smkvm.Base.{
  ℕ, ◌+◌, ◌≡◌, refl, ◌∙◌, Bool, not, eqb, if◌then◌else◌, List, [], ◌∷◌, ◌++◌, map, Option-cases,
  inl, inr, arith,
}
use smkvm.Base.Lists.{retain}
use smkvm.Base.Equality.{pair_eq}
use smkvm.Base.Maps
use smkvm.Layout.Model.{DeviceId}
use smkvm.Proto.Msg.{seq_eq, format_eq, ClipSeq, ClipFormat, ClipError, Bulk}
use smkvm.Core.Exchange.State.{Output, deliver, Waiter, ticket, relay, Waiting, Key, Run}
use smkvm.Core.Exchange.Serve.{
  push, awaits, serve_one, fail_one, serve_waiters, fail_waiters, start_fetch, cancel_fetch,
  cancel_fetches, fail_formats, drop_stored, cancel_all, fail_stale, fetches_of, stale_formats,
  forget,
}
use smkvm.Core.Exchange.Machines.{is_relay_to}
use smkvm.Core.Exchange.Offers.{send_each}

abbrev pub is_ticket : ℕ → Waiter → ℕ
is_ticket t (ticket s) = if eqb s t then 1 else 0
is_ticket t (relay to offset) = 0

-- How many waiters hold the ticket `t`.
abbrev pub held_tickets : ℕ → List Waiting → ℕ
held_tickets t [] = 0
held_tickets t (w ∷ ws) = is_ticket t w.who + held_tickets t ws

abbrev pub is_answer : ℕ → Output → ℕ
is_answer t (deliver s c) = if eqb s t then 1 else 0
is_answer t o = 0

-- How many of the outputs answer the ticket `t`.
abbrev pub answers : ℕ → List Output → ℕ
answers t [] = 0
answers t (o ∷ os) = is_answer t o + answers t os

pub answers-append :
    (t : ℕ) (xs ys : List Output) → answers t (xs ++ ys) ≡ answers t xs + answers t ys
answers-append t [] ys = omega arith
answers-append t (o ∷ xs) ys = omega (arith, answers-append t xs ys)

pub held_tickets-append :
    (t : ℕ) (xs ys : List Waiting)
    → held_tickets t (xs ++ ys) ≡ held_tickets t xs + held_tickets t ys
held_tickets-append t [] ys = omega arith
held_tickets-append t (w ∷ xs) ys = omega (arith, held_tickets-append t xs ys)

abbrev pub balance : ℕ → Run → ℕ
balance t r = held_tickets t r.self.waiting + answers t r.out

split_tickets :
    (t : ℕ) (p : Waiting → Bool) (ws : List Waiting)
    → held_tickets t (retain (λ w. not (p w)) ws) + held_tickets t (retain p ws) ≡ held_tickets t ws
split_tickets t p [] = omega arith
split_tickets t p (w ∷ ws) = ground (arith, split_tickets t p ws)

answers-serve :
    (t : ℕ) (k : Key) (bytes : List ℕ) (ws : List Waiting)
    → answers t (map (λ w. serve_one k bytes w.who) ws) ≡ held_tickets t ws
answers-serve t k bytes [] = refl
answers-serve t k bytes (w ∷ ws) = ground (arith, answers-serve t k bytes ws)

answers-fail :
    (t : ℕ) (k : Key) (why : ClipError) (ws : List Waiting)
    → answers t (map (λ w. fail_one k why w.who) ws) ≡ held_tickets t ws
answers-fail t k why [] = refl
answers-fail t k why (w ∷ ws) = ground (arith, answers-fail t k why ws)

pub answers-send_each : (t : ℕ) (msg : Bulk) (ps : List DeviceId) → answers t (send_each msg ps) ≡ 0
answers-send_each t msg [] = refl
answers-send_each t msg (p ∷ ps) = omega (arith, answers-send_each t msg ps)

pub held_tickets-drop_relays :
    (t : ℕ) (peer : DeviceId) (ws : List Waiting)
    → held_tickets t (retain (λ w. not (is_relay_to peer w.who)) ws) ≡ held_tickets t ws
held_tickets-drop_relays t peer [] = refl
held_tickets-drop_relays t peer (w ∷ ws) = ground (arith, held_tickets-drop_relays t peer ws)

module _ (t : ℕ) where
  pub balance-push : (o : Output) (r : Run) → balance t (push o r) ≡ balance t r + is_answer t o
  unfolding push
  balance-push o r = omega (arith, answers-append t r.out (o ∷ []))

  pub balance-serve_waiters :
      (k : Key) (bytes : List ℕ) (r : Run) → balance t (serve_waiters k bytes r) ≡ balance t r
  unfolding serve_waiters
  balance-serve_waiters k bytes r =
      let ready = retain (awaits k) r.self.waiting in
      omega (
        arith,
        split_tickets t (awaits k) r.self.waiting,
        answers-serve t k bytes ready,
        answers-append t r.out (map (λ w. serve_one k bytes w.who) ready),
      )

  pub balance-fail_waiters :
      (k : Key) (why : ClipError) (r : Run) → balance t (fail_waiters k why r) ≡ balance t r
  unfolding fail_waiters
  balance-fail_waiters k why r =
      let failed = retain (awaits k) r.self.waiting in
      omega (
        arith,
        split_tickets t (awaits k) r.self.waiting,
        answers-fail t k why failed,
        answers-append t r.out (map (λ w. fail_one k why w.who) failed),
      )

  pub balance-start_fetch :
      (from : DeviceId) (k : Key) (r : Run) → balance t (start_fetch from k r) ≡ balance t r
  unfolding start_fetch
  balance-start_fetch from k r = elim (Option-cases (Maps.get k r.self.fetching)) [
    | inl e ↦ rw (e, start_fetch) (omega (arith, answers-append t r.out))
    | inr (f, e) ↦ rw (e, start_fetch)
  ]

  balance-cancel_fetch :
      (seq : ClipSeq) (k : Key) (r : Run) → balance t (cancel_fetch seq k r) ≡ balance t r
  unfolding cancel_fetch
  balance-cancel_fetch seq k r = elim (Option-cases (Maps.get k r.self.fetching)) [
    | inl e ↦ rw (e, cancel_fetch)
    | inr (f, e) ↦ rw (e, cancel_fetch) (omega (arith, answers-append t r.out))
  ]

  balance-cancel_fetches :
      (seq : ClipSeq) (ks : List Key) (r : Run) → balance t (cancel_fetches seq ks r) ≡ balance t r
  unfolding cancel_fetches
  balance-cancel_fetches seq [] r = refl
  balance-cancel_fetches seq (k ∷ ks) r =
      balance-cancel_fetches seq ks (cancel_fetch seq k r) ∙ balance-cancel_fetch seq k r

  balance-fail_formats :
      (seq : ClipSeq) (fs : List ClipFormat) (r : Run)
      → balance t (fail_formats seq fs r) ≡ balance t r
  unfolding fail_formats
  balance-fail_formats seq [] r = refl
  balance-fail_formats seq (f ∷ fs) r =
      balance-fail_formats seq fs _ ∙ balance-fail_waiters (seq, f) _ r

  balance-cancel_all : (seq : ClipSeq) (r : Run) → balance t (cancel_all seq r) ≡ balance t r
  unfolding cancel_all
  balance-cancel_all seq r = balance-cancel_fetches seq (fetches_of seq r.self) r

  balance-fail_stale : (seq : ClipSeq) (r : Run) → balance t (fail_stale seq r) ≡ balance t r
  unfolding fail_stale
  balance-fail_stale seq r = balance-fail_formats seq (stale_formats seq r.self) r

  balance-drop_stored : (seq : ClipSeq) (r : Run) → balance t (drop_stored seq r) ≡ balance t r
  unfolding drop_stored
  balance-drop_stored seq r = refl

  pub balance-forget : (seq : ClipSeq) (r : Run) → balance t (forget seq r) ≡ balance t r
  balance-forget seq r =
      unfold forget in
      (balance-fail_stale seq (cancel_all seq (drop_stored seq r))
        ∙ (balance-cancel_all seq (drop_stored seq r) ∙ balance-drop_stored seq r))
