-- ===== src/Core/Exchange/Answers.antt =====
-- The count of `Tickets` over every input.
use smkvm.Base.{ℕ, ◌+◌, ◌≡◌, refl, eqb, if◌then◌else◌, [], arith}
use smkvm.Base.Equality.{pair_eq, nat_eq, nat_ord}
use smkvm.Layout.Model.{DeviceId}
use smkvm.Proto.Msg.{
  seq_eq, format_eq, Bulk, clip_offer, clip_request, clip_chunk, clip_unavailable,
}
use smkvm.Core.Exchange.State.{
  Input, peer_up, peer_gone, local_changed, from_peer, wanted, read_done, Exchange, Run,
}
use smkvm.Core.Exchange.Handle.{peer_said, dispatch, handle}
use smkvm.Core.Exchange.Tickets.{held_tickets, answers, balance}
use smkvm.Core.Exchange.Tickets.Offers.{
  balance-on_peer_up, balance-on_peer_gone, balance-on_local_changed, balance-offered,
}
use smkvm.Core.Exchange.Tickets.Fetches.{
  balance-requested, balance-on_wanted, balance-chunk_arrived, balance-unavailable,
  balance-on_read_done,
}

-- Whether the input asks for an answer to the ticket `t`.
abbrev pub asks : ℕ → Input → ℕ
asks t (wanted s seq format) = if eqb s t then 1 else 0
asks t _ = 0

module _ (t : ℕ) where
  balance-peer_said :
      (from : DeviceId) (msg : Bulk) (now : ℕ) (r : Run)
      → balance t (peer_said from msg now r) ≡ balance t r
  unfolding peer_said
  balance-peer_said from (clip_offer o) now r = balance-offered t from o now r
  balance-peer_said from (clip_request seq format offset) now r =
      balance-requested t from (seq, format) offset r
  balance-peer_said from (clip_chunk seq format offset bytes last) now r =
      balance-chunk_arrived t from (seq, format) offset bytes last r
  balance-peer_said from (clip_unavailable seq format reason) now r =
      balance-unavailable t from (seq, format) reason r
  balance-peer_said from _ now r = refl

  balance-dispatch :
      (input : Input) (now : ℕ) (r : Run)
      → balance t (dispatch input now r) ≡ balance t r + asks t input
  unfolding dispatch
  balance-dispatch (peer_up peer) now r = omega (arith, balance-on_peer_up t peer r)
  balance-dispatch (peer_gone peer) now r = omega (arith, balance-on_peer_gone t peer r)
  balance-dispatch (local_changed formats) now r =
      omega (arith, balance-on_local_changed t formats now r)
  balance-dispatch (from_peer from msg) now r = omega (arith, balance-peer_said from msg now r)
  balance-dispatch (wanted s seq format) now r = balance-on_wanted t s (seq, format) r
  balance-dispatch (read_done seq format result) now r =
      omega (arith, balance-on_read_done t (seq, format) result r)

-- Whatever the input and the state, the tickets that wait afterwards and those answered by the
-- outputs are together those that waited before and, for a paste, its own: none is lost, and
-- none is answered twice.
pub handle-answers_once :
    (t : ℕ) (input : Input) (now : ℕ) (x : Exchange)
    → let r = handle input now x in
      held_tickets t r.self.waiting + answers t r.out ≡ held_tickets t x.waiting + asks t input
unfolding handle
handle-answers_once t input now x =
    omega (arith, balance-dispatch t input now (record { self = x; out = [] }))
