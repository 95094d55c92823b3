-- ===== src/Core/Exchange/Invariant/Histories.antt =====
-- Sessions: what holds after any list of inputs.
use smkvm.Base.{ℕ, ◌+◌, ◌≡◌, refl, ap, true, List, [], ◌∷◌, ◌++◌, arith}
use smkvm.Base.Equality.{pair_eq, pair_ord, nat_eq, nat_ord}
use smkvm.Base.Lists.{All}
use smkvm.Base.Maps
use smkvm.Layout.Model.{DeviceId}
use smkvm.Proto.Msg.{
  seq_eq, seq_ord, format_eq, format_ord, ClipFormat, Bulk, clip_offer, clip_request, clip_chunk,
  clip_unavailable,
}
use smkvm.Core.Exchange.State.{
  Input, peer_up, peer_gone, local_changed, from_peer, wanted, read_done, Waiting, Exchange, Run,
  Fetching, new, Output,
}
use smkvm.Core.Exchange.Offers.{announce}
use smkvm.Core.Exchange.Handle.{peer_said, dispatch, handle}
use smkvm.Core.Exchange.Tidy.{key_of, outstanding}
use smkvm.Core.Exchange.Invariant.{Inv, new-Inv, on_peer_up-Inv, on_peer_gone-Inv}
use smkvm.Core.Exchange.Tickets.{held_tickets, answers, answers-append}
use smkvm.Core.Exchange.Answers.{asks, handle-answers_once}
use smkvm.Core.Exchange.Invariant.Offers.{on_local_changed-Inv, offered-Inv}
use smkvm.Core.Exchange.Invariant.Fetches.{requested-Inv, on_wanted-Inv}
use smkvm.Core.Exchange.Invariant.Chunks.{chunk_arrived-Inv, unavailable-Inv, on_read_done-Inv}

peer_said-Inv :
    (from : DeviceId) (msg : Bulk) (now : ℕ) (r : Run)
    → Inv r.self
    → Inv (peer_said from msg now r).self
unfolding peer_said
peer_said-Inv from (clip_offer o) now r v = offered-Inv from o now r v
peer_said-Inv from (clip_request seq format offset) now r v =
    requested-Inv from (seq, format) offset r v
peer_said-Inv from (clip_chunk seq format offset bytes last) now r v =
    chunk_arrived-Inv from (seq, format) offset bytes last r v
peer_said-Inv from (clip_unavailable seq format reason) now r v =
    unavailable-Inv from (seq, format) reason r v
peer_said-Inv from _ now r v = v

dispatch-Inv : (input : Input) (now : ℕ) (r : Run) → Inv r.self → Inv (dispatch input now r).self
unfolding dispatch
dispatch-Inv (peer_up peer) now r v = on_peer_up-Inv peer r v
dispatch-Inv (peer_gone peer) now r v = on_peer_gone-Inv peer r v
dispatch-Inv (local_changed formats) now r v = on_local_changed-Inv formats now r v
dispatch-Inv (from_peer from msg) now r v = peer_said-Inv from msg now r v
dispatch-Inv (wanted s seq format) now r v = on_wanted-Inv s (seq, format) r v
dispatch-Inv (read_done seq format result) now r v = on_read_done-Inv (seq, format) result r v

-- Every input keeps the invariant: one offer at most is on the clipboard, reads, fetches and cached
-- contents belong to it, none of them is over the size limit, and for everyone who waits a
-- read or a fetch is under way.
pub handle-Inv : (input : Input) (now : ℕ) (x : Exchange) → Inv x → Inv (handle input now x).self
unfolding handle
handle-Inv input now x v = dispatch-Inv input now (record { self = x; out = [] }) v

-- So does an announcement of dragged files.
announce-Inv :
    (formats : List ClipFormat) (now : ℕ) (x : Exchange) → Inv x → Inv (announce formats now x).0
announce-Inv formats now x v =
    let start : Run = record { self = x; out = [] } in
    let changed = on_local_changed-Inv formats now start v in unfold announce in changed

-- The inputs of a session, with their times.
unfoldable pub run : List (Input × ℕ) → Exchange → Exchange × List Output
run [] x = (x, [])
run ((input, now) ∷ rest) x =
    let r = handle input now x in let (y, out) = run rest r.self in (y, r.out ++ out)

pub run-Inv : (inputs : List (Input × ℕ)) (x : Exchange) → Inv x → Inv (run inputs x).0
unfolding run
run-Inv [] x v = v
run-Inv ((input, now) ∷ rest) x v =
    run-Inv rest (handle input now x).self (handle-Inv input now x v)

abbrev pub asked : ℕ → List (Input × ℕ) → ℕ
asked t [] = 0
asked t ((input, now) ∷ rest) = asks t input + asked t rest

-- Over any session the answers to a ticket and the waiters that still hold it are together the
-- pastes that were made under it, with those that waited at the start.
run-answers_once :
    (t : ℕ) (inputs : List (Input × ℕ)) (x : Exchange)
    → held_tickets t (run inputs x).0.waiting + answers t (run inputs x).1
      ≡ held_tickets t x.waiting + asked t inputs
unfolding run
run-answers_once t [] x = omega arith
run-answers_once t ((input, now) ∷ rest) x =
    let r = handle input now x in
    omega (
      arith,
      handle-answers_once t input now x,
      run-answers_once t rest r.self,
      answers-append t r.out (run rest r.self).1,
    )

nobody_waits :
    (ws : List Waiting)
    → All (λ (w : Waiting). outstanding {V = Fetching} [] [] (key_of w) ≡ true) ws
    → ws ≡ []
unfolding Maps.get
nobody_waits [] a = refl
nobody_waits (w ∷ ws) a = absurd (ground (arith, a.0))

-- A session from the start: when no read and no fetch is under way, every paste has been answered,
-- as often as it was made.
pub quiet_answered :
    (t : ℕ) (inputs : List (Input × ℕ)) (me : DeviceId) (allowed : List ClipFormat) (max : ℕ)
    → (run inputs (new me allowed max)).0.reading ≡ []
    → (run inputs (new me allowed max)).0.fetching ≡ []
    → answers t (run inputs (new me allowed max)).1 ≡ asked t inputs
quiet_answered t inputs me allowed max no_reads no_fetches =
    let start = new me allowed max in
    let end = (run inputs start).0 in
    let v = run-Inv inputs start (new-Inv me allowed max) in
    let nobody = nobody_waits end.waiting (rw (no_reads, no_fetches) at v.tidy.covered) in
    let counted = run-answers_once t inputs start in
    let none_held = ap (held_tickets t) nobody in unfold new in (omega (arith, none_held, counted))
