-- ===== src/Core/Transfer/Pulls.antt =====
-- crates/smkvm-core/src/transfer.rs: a piece is handed over once for each time that it was asked for.
use smkvm.Base.{
  ℕ, ◌+◌, ◌≤◌, Bool, true, false, not, ◌&&◌, ◌≡◌, refl, Option-cases, Bool-cases, inl, inr, Option,
  List, [], ◌∷◌, ◌++◌, map, String, arith,
}
use smkvm.Base.Equality.{◌==◌, nat_eq, nat_ord, pair_eq, pair_ord}
use smkvm.Base.Lists.{contains, retain}
use smkvm.Base.Sets
use smkvm.Base.Maps
use smkvm.Layout.Model.{DeviceId}
use smkvm.Proto.Msg.{
  TransferId, id_eq, id_ord, Bulk, file_request, file_chunk, file_abort, clip_offer, clip_request,
  clip_chunk, clip_unavailable, clip_cancel, file_offer, file_done, dragging,
}
use smkvm.Core.Transfer.{
  Input, peer_up, peer_gone, from_peer, pull, dropped, Output, send, read_file, chunk, failed,
  Piece, Transfer, new, source_of, unless_from, comes_from, stop_pulling, on_pull, relay_request,
  requested, take_chunk, chunk_arrived, waiting_for, aborted, peer_said, orphaned, tell, lost_from,
  stop_all, on_peer_gone, handle,
}

abbrev flag : Bool → ℕ
flag true = 1
flag false = 0

-- Whether the piece is awaited, as a number.
abbrev pub held : Piece → Transfer → ℕ
held p x = flag (contains x.awaiting p)

-- How often the piece is handed over.
unfoldable pub delivered : Piece → List Output → ℕ
delivered p [] = 0
delivered p (chunk id index offset bytes last ∷ os) =
    flag ((id, (index, offset)) == p) + delivered p os
delivered p (send to msg ∷ os) = delivered p os
delivered p (read_file to id index offset ∷ os) = delivered p os
delivered p (failed id ∷ os) = delivered p os

-- How often the input asks for it.
abbrev pub asks : Piece → Input → ℕ
asks p (pull id index offset) = flag ((id, (index, offset)) == p)
asks p _ = 0

delivered-append :
    (p : Piece) (os us : List Output) → delivered p (os ++ us) ≡ delivered p os + delivered p us
unfolding delivered
delivered-append p [] us = omega arith
delivered-append p (chunk id index offset bytes last ∷ os) us =
    omega (arith, delivered-append p os us)
delivered-append p (send to msg ∷ os) us = delivered-append p os us
delivered-append p (read_file to id index offset ∷ os) us = delivered-append p os us
delivered-append p (failed id ∷ os) us = delivered-append p os us

delivered_failed : (p : Piece) (ids : List TransferId) → delivered p (map failed ids) ≡ 0
unfolding delivered
delivered_failed p [] = refl
delivered_failed p (id ∷ ids) = delivered_failed p ids

delivered_sends :
    (p : Piece) (msg : Bulk) (ds : List DeviceId) → delivered p (map (λ d. send d msg) ds) ≡ 0
unfolding delivered
delivered_sends p msg [] = refl
delivered_sends p msg (d ∷ ds) = delivered_sends p msg ds

delivered-tell :
    (p : Piece) (told os : List (TransferId × DeviceId)) → delivered p (tell told os) ≡ 0
unfolding delivered tell
delivered-tell p told [] = refl
delivered-tell p told (o ∷ os) = elim (Bool-cases (contains told o)) [
  | inl e ↦ rw e (delivered-tell p (Sets.insert o told) os)
  | inr e ↦ rw e (delivered-tell p (Sets.insert o told) os)
]

held-stop_pulling :
    (p : Piece) (id : TransferId) (x : Transfer) → held p (stop_pulling id x) ≤ held p x
unfolding stop_pulling
held-stop_pulling p id x = ground (arith, Sets.contains-retain (λ q. not (q.0 == id)) x.awaiting p)

held-stop_all :
    (p : Piece) (ids : List TransferId) (x : Transfer) → held p (stop_all ids x) ≤ held p x
unfolding stop_all
held-stop_all p [] x = omega arith
held-stop_all p (id ∷ ids) x =
    omega (arith, held-stop_all p ids (stop_pulling id x), held-stop_pulling p id x)

-- What a handler hands over and still awaits is at most what was awaited.
abbrev Spends : Piece → ℕ → Transfer → Transfer × List Output → Type 0
Spends p asked x r = delivered p r.1 + held p r.0 ≤ asked + held p x

on_pull-Spends : (p q : Piece) (x : Transfer) → Spends p (flag (q == p)) x (on_pull q x)
unfolding on_pull delivered
on_pull-Spends p q x = elim (Option-cases (source_of q.0 x)) [
  | inl e ↦ rw (e, on_pull) (omega arith)
  | inr (s, e) ↦ rw (e, on_pull) (ground (arith, Sets.contains-insert q p x.awaiting))
]

requested-Spends :
    (p q : Piece) (from : DeviceId) (x : Transfer) → Spends p 0 x (requested from q x)
unfolding requested relay_request delivered
requested-Spends p q from x = elim (Bool-cases (q.0.device == x.me)) [
  | inl e ↦ rw e (omega arith)
  | inr e ↦ rw e (elim (Option-cases (unless_from from (source_of q.0 x))) [
    | inl n ↦ rw (n, relay_request) (omega arith)
    | inr (s, n) ↦ rw (n, relay_request) (omega arith)
  ])
]

take_chunk-Spends :
    (p q : Piece) (from : DeviceId) (bytes : List ℕ) (last : Bool) (x : Transfer)
    → Spends p 0 x (take_chunk from q bytes last x)
unfolding take_chunk delivered
take_chunk-Spends p q from bytes last x =
    elim (Bool-cases (comes_from from (Maps.get q.0 x.pulling) && contains x.awaiting q)) [
      | inl e ↦ rw e (
          let h : contains x.awaiting q ≡ true = ground arith in
          ground (arith, Sets.contains-remove q p x.awaiting, h))
      | inr e ↦ rw e (omega arith)
    ]

chunk_arrived-Spends :
    (p q : Piece) (from : DeviceId) (bytes : List ℕ) (last : Bool) (x : Transfer)
    → Spends p 0 x (chunk_arrived from q bytes last x)
unfolding chunk_arrived delivered
chunk_arrived-Spends p q from bytes last x = elim (Option-cases (Maps.get q x.relays)) [
  | inl e ↦ rw (e, chunk_arrived) (take_chunk-Spends p q from bytes last x)
  | inr (to, e) ↦ rw (e, chunk_arrived) (omega arith)
]

aborted-Spends :
    (p : Piece) (from : DeviceId) (id : TransferId) (reason : String) (x : Transfer)
    → Spends p 0 x (aborted from id reason x)
unfolding aborted delivered stop_pulling
aborted-Spends p from id reason x =
    let told = delivered_sends p (file_abort id reason) (waiting_for id x) in
    elim (Bool-cases (comes_from from (Maps.get id x.pulling))) [
      | inl e ↦
          rw (e, aborted)
            (omega (
              arith,
              told,
              delivered-append p (map (λ d. send d (file_abort id reason)) (waiting_for id x))
                  (failed id ∷ []),
              held-stop_pulling p id x,
            ))
      | inr e ↦ rw (e, aborted) (omega (arith, told))
    ]

peer_said-Spends :
    (p : Piece) (from : DeviceId) (msg : Bulk) (x : Transfer) → Spends p 0 x (peer_said from msg x)
unfolding peer_said delivered
peer_said-Spends p from (file_request id index offset) x =
    requested-Spends p (id, (index, offset)) from x
peer_said-Spends p from (file_chunk id index offset bytes last) x =
    chunk_arrived-Spends p (id, (index, offset)) from bytes last x
peer_said-Spends p from (file_abort id reason) x = aborted-Spends p from id reason x
peer_said-Spends p from (clip_offer o) x = omega arith
peer_said-Spends p from (clip_request s f i) x = omega arith
peer_said-Spends p from (clip_chunk s f i b l) x = omega arith
peer_said-Spends p from (clip_unavailable s f e) x = omega arith
peer_said-Spends p from (clip_cancel s f) x = omega arith
peer_said-Spends p from (file_offer o) x = omega arith
peer_said-Spends p from (file_done id) x = omega arith
peer_said-Spends p from (dragging s) x = omega arith

on_peer_gone-Spends :
    (p : Piece) (peer : DeviceId) (x : Transfer) → Spends p 0 x (on_peer_gone peer x)
unfolding on_peer_gone
on_peer_gone-Spends p peer x =
    let lost = lost_from peer x in
    omega (
      arith,
      delivered-append p (tell [] (orphaned peer x)) (map failed lost),
      delivered-tell p [] (orphaned peer x),
      delivered_failed p lost,
      held-stop_all p lost (record x {
        peers = Sets.remove peer x.peers;
        relays = retain (λ r. not (r.0.0.device == peer) && not (r.1 == peer)) x.relays;
      }),
    )

-- On every input, what is handed over of a piece, with whether it is awaited afterwards, is at most
-- what the input asks for, with whether it was awaited before.
pub delivered-handle :
    (p : Piece) (i : Input) (x : Transfer)
    → delivered p (handle i x).1 + held p (handle i x).0 ≤ asks p i + held p x
unfolding handle delivered
delivered-handle p (peer_up peer) x = omega arith
delivered-handle p (peer_gone peer) x = on_peer_gone-Spends p peer x
delivered-handle p (from_peer from msg) x = peer_said-Spends p from msg x
delivered-handle p (pull id index offset) x = on_pull-Spends p (id, (index, offset)) x
delivered-handle p (dropped id) x = omega (arith, held-stop_pulling p id x)

-- A session: the inputs in order, with all that is put out.
unfoldable pub session : List Input → Transfer → Transfer × List Output
session [] x = (x, [])
session (i ∷ is) x =
    let first = handle i x in let rest = session is first.0 in (rest.0, first.1 ++ rest.1)

abbrev pub asked : Piece → List Input → ℕ
asked p [] = 0
asked p (i ∷ is) = asks p i + asked p is

delivered-session-held :
    (p : Piece) (is : List Input) (x : Transfer)
    → delivered p (session is x).1 + held p (session is x).0 ≤ asked p is + held p x
unfolding session delivered
delivered-session-held p [] x = omega arith
delivered-session-held p (i ∷ is) x = omega (
  arith,
  delivered-append p (handle i x).1 (session is (handle i x).0).1,
  delivered-handle p i x,
  delivered-session-held p is (handle i x).0,
)

-- Over any session from the start, a piece of a file is handed over at most as often as this machine
-- asked for it.
pub delivered-session :
    (p : Piece) (me : DeviceId) (is : List Input) (hub : Option DeviceId)
    → delivered p (session is (new me hub)).1 ≤ asked p is
unfolding new
delivered-session p me is hub = omega (arith, delivered-session-held p is (new me hub))
