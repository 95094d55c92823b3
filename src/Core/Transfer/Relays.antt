-- ===== src/Core/Transfer/Relays.antt =====
-- crates/smkvm-core/src/transfer.rs: a request that was passed on is answered or stays remembered.
use smkvm.Base.{
  ℕ, Bool, true, false, not, ◌&&◌, ◌⊎◌, ◌≡◌, refl, sym, ◌∙◌, ap, Option-cases, Bool-cases, inl, inr,
  some, List, [], ◌∷◌, map, String, arith,
}
use smkvm.Base.Equality.{◌==◌, ==_iff, nat_eq, nat_ord, pair_eq, pair_ord}
use smkvm.Base.Lists.{contains, retain, any}
use smkvm.Base.Sets
use smkvm.Base.Maps
use smkvm.Layout.Model.{DeviceId}
use smkvm.Proto.Msg.{
  TransferId, id_eq, id_ord, Bulk, file_request, file_chunk, file_abort, clip_offer, clip_request,
  clip_chunk, clip_unavailable, clip_cancel, file_offer, file_done, dragging,
}
use smkvm.Core.Transfer.{
  Input, peer_up, peer_gone, from_peer, pull, dropped, Output, send, failed, Piece, Transfer,
  source_of, unless_from, comes_from, stop_pulling, on_pull, relay_request, requested, take_chunk,
  chunk_arrived, waiting_for, aborted, peer_said, orphaned, tell, lost_from, stop_all, on_peer_gone,
  handle,
}
use smkvm.Core.Transfer.Told.{
  answers, excused, any-append, get-retain_kept, contains-map-retain, told_answers, tell-answers,
}

-- What is left of a request that was passed on for `to`.
abbrev Settles : Piece → DeviceId → Transfer × List Output → Type 0
Settles p to r = (Maps.get p r.0.relays ≡ some to) ⊎ (any (answers p to) r.1 ≡ true)

relays-stop_pulling : (id : TransferId) (x : Transfer) → (stop_pulling id x).relays ≡ x.relays
unfolding stop_pulling
relays-stop_pulling id x = refl

pub relays-stop_all : (ids : List TransferId) (x : Transfer) → (stop_all ids x).relays ≡ x.relays
unfolding stop_all
relays-stop_all [] x = refl
relays-stop_all (id ∷ ids) x = relays-stop_all ids (stop_pulling id x) ∙ relays-stop_pulling id x

relays-on_pull : (q : Piece) (x : Transfer) → (on_pull q x).0.relays ≡ x.relays
unfolding on_pull
relays-on_pull q x = elim (Option-cases (source_of q.0 x)) [
  | inl e ↦ rw (e, on_pull) refl
  | inr (s, e) ↦ rw (e, on_pull) refl
]

relays-take_chunk :
    (q : Piece) (from : DeviceId) (bytes : List ℕ) (last : Bool) (x : Transfer)
    → (take_chunk from q bytes last x).0.relays ≡ x.relays
unfolding take_chunk
relays-take_chunk q from bytes last x =
    elim (Bool-cases (comes_from from (Maps.get q.0 x.pulling) && contains x.awaiting q)) [
      | inl e ↦ rw (e, take_chunk) refl
      | inr e ↦ rw (e, take_chunk) refl
    ]

requested-Settles :
    (p q : Piece) (to from : DeviceId) (x : Transfer)
    → Maps.get p x.relays ≡ some to
    → (q == p) ≡ false
    → Settles p to (requested from q x)
unfolding requested relay_request
requested-Settles p q to from x g n = elim (Bool-cases (q.0.device == x.me)) [
  | inl e ↦ rw (e, requested) (inl g)
  | inr e ↦
      rw (e, requested)
        (elim (Option-cases (unless_from from (source_of q.0 x))) [
          | inl u ↦ rw (u, relay_request) (inl g)
          | inr (s, u) ↦
              rw (u, relay_request) (inl (ground (arith, Maps.get-insert q p from x.relays)))
        ])
]

chunk_answers :
    (p q : Piece) (to d : DeviceId) (bytes : List ℕ) (last : Bool) (x : Transfer)
    → (p == q) ≡ true
    → Maps.get p x.relays ≡ some to
    → Maps.get q x.relays ≡ some d
    → any (answers p to) (send d (file_chunk q.0 q.1.0 q.1.1 bytes last) ∷ []) ≡ true
unfolding answers
chunk_answers p q to d bytes last x s g e =
    let same : p ≡ q = (==_iff p q).0 s in
    let td : d ≡ to = cc in ground (arith, td, (==_iff q p).1 (sym same))

chunk_arrived-Settles :
    (p q : Piece) (to from : DeviceId) (bytes : List ℕ) (last : Bool) (x : Transfer)
    → Maps.get p x.relays ≡ some to
    → Settles p to (chunk_arrived from q bytes last x)
unfolding chunk_arrived
chunk_arrived-Settles p q to from bytes last x g = elim (Option-cases (Maps.get q x.relays)) [
  | inl e ↦
      rw (e, chunk_arrived) (inl (ap (Maps.get p) (relays-take_chunk q from bytes last x) ∙ g))
  | inr (d, e) ↦
      rw (e, chunk_arrived)
        (elim (Bool-cases (p == q)) [
          | inl s ↦ inr (chunk_answers p q to d bytes last x s g e)
          | inr s ↦ inl (ground (arith, Maps.get-remove q p x.relays))
        ])
]

aborted-Settles :
    (p : Piece) (to from : DeviceId) (id : TransferId) (reason : String) (x : Transfer)
    → Maps.get p x.relays ≡ some to
    → Settles p to (aborted from id reason x)
unfolding aborted stop_pulling
aborted-Settles p to from id reason x g =
    let sends = map (λ d. send d (file_abort id reason)) (waiting_for id x) in
    elim (Bool-cases (p.0 == id)) [
      | inl s ↦
          let listed =
            Sets.contains-collect (map (λ r. r.1) (retain (λ r. r.0.0 == id) x.relays)) to
            ∙ contains-map-retain (λ r. r.1) (λ r. r.0.0 == id) p to x.relays g s in
          let h =
            told_answers p to id reason (waiting_for id x)
              (ground (arith, id_eq.same_iff p.0 id, id_eq.same_iff id p.0)) listed in
          elim (Bool-cases (comes_from from (Maps.get id x.pulling))) [
            | inl e ↦
                rw (e, aborted)
                  (inr (ground (arith, h, any-append (answers p to) sends (failed id ∷ []))))
            | inr e ↦ rw (e, aborted) (inr h)
          ]
      | inr s ↦
          let kept = get-retain_kept (λ r. not (r.0.0 == id)) p to x.relays g (ground arith) in
          elim (Bool-cases (comes_from from (Maps.get id x.pulling))) [
            | inl e ↦ rw (e, aborted) (inl kept)
            | inr e ↦ rw (e, aborted) (inl kept)
          ]
    ]

on_peer_gone-Settles :
    (p : Piece) (to peer : DeviceId) (x : Transfer)
    → Maps.get p x.relays ≡ some to
    → (peer == to) ≡ false
    → Settles p to (on_peer_gone peer x)
unfolding on_peer_gone
on_peer_gone-Settles p to peer x g n = elim (Bool-cases (p.0.device == peer)) [
  | inl s ↦
      let h =
        tell-answers p to [] (orphaned peer x) refl
          (contains-map-retain (λ r. (r.0.0, r.1)) (λ r. r.0.0.device == peer) p to x.relays g s) in
      inr (
        ground (
          arith,
          h,
          any-append (answers p to) (tell [] (orphaned peer x)) (map failed (lost_from peer x)),
        ))
  | inr s ↦
      let kept =
        get-retain_kept (λ r. not (r.0.0.device == peer) && not (r.1 == peer)) p to x.relays g
          (ground arith) in
      inl (ap (Maps.get p) (relays-stop_all (lost_from peer x) _) ∙ kept)
]

peer_said-Settles :
    (p : Piece) (to from : DeviceId) (msg : Bulk) (x : Transfer)
    → Maps.get p x.relays ≡ some to
    → excused p to (from_peer from msg) ≡ false
    → Settles p to (peer_said from msg x)
unfolding peer_said
peer_said-Settles p to from (file_request id index offset) x g n =
    requested-Settles p (id, (index, offset)) to from x g n
peer_said-Settles p to from (file_chunk id index offset bytes last) x g n =
    chunk_arrived-Settles p (id, (index, offset)) to from bytes last x g
peer_said-Settles p to from (file_abort id reason) x g n = aborted-Settles p to from id reason x g
peer_said-Settles p to from (clip_offer o) x g n = inl g
peer_said-Settles p to from (clip_request s f i) x g n = inl g
peer_said-Settles p to from (clip_chunk s f i b l) x g n = inl g
peer_said-Settles p to from (clip_unavailable s f e) x g n = inl g
peer_said-Settles p to from (clip_cancel s f) x g n = inl g
peer_said-Settles p to from (file_offer o) x g n = inl g
peer_said-Settles p to from (file_done id) x g n = inl g
peer_said-Settles p to from (dragging s) x g n = inl g

-- Where a request for a piece was passed on for a machine, an input other than that machine's
-- departure or a new request for the same piece leaves the request remembered for that machine, or
-- sends it an answer: the piece, or that the transfer is over.
pub handle-answers :
    (p : Piece) (to : DeviceId) (i : Input) (x : Transfer)
    → Maps.get p x.relays ≡ some to
    → excused p to i ≡ false
    → (Maps.get p (handle i x).0.relays ≡ some to) ⊎ (any (answers p to) (handle i x).1 ≡ true)
unfolding handle
handle-answers p to (peer_up peer) x g n = inl g
handle-answers p to (peer_gone peer) x g n = on_peer_gone-Settles p to peer x g n
handle-answers p to (from_peer from msg) x g n = peer_said-Settles p to from msg x g n
handle-answers p to (pull id index offset) x g n =
    inl (ap (Maps.get p) (relays-on_pull (id, (index, offset)) x) ∙ g)
handle-answers p to (dropped id) x g n = inl (ap (Maps.get p) (relays-stop_pulling id x) ∙ g)
