-- ===== src/Core/Transfer/Sources.antt =====
-- crates/smkvm-core/src/transfer.rs: on the server, nothing is waited for from a machine that is gone.
use smkvm.Base.{
  ℕ, Bool, true, not, ◌&&◌, ◌||◌, ◌≡◌, refl, Option-cases, Bool-cases, inl, inr, none, some, List,
  [], ◌∷◌, String, arith, if◌then◌else◌,
}
use smkvm.Base.Equality.{◌==◌, ==_iff, PartialEq, nat_eq, nat_ord, pair_eq, pair_ord}
use smkvm.Base.Lists.{contains, retain, All, All-map, All-retain}
use smkvm.Base.Sets
use smkvm.Base.Maps
use smkvm.Layout.Model.{DeviceId}
use smkvm.Proto.Msg.{
  TransferId, id_eq, id_ord, Bulk, file_request, file_chunk, file_abort, clip_offer, clip_request,
  clip_chunk, clip_unavailable, clip_cancel, file_offer, file_done, dragging,
}
use smkvm.Core.Transfer.{
  Piece, Transfer, source_of, comes_from, stop_pulling, on_pull, relay_request, requested,
  take_chunk, chunk_arrived, aborted, peer_said,
}

module _ {ℓ κ} {K : Type ℓ} {V : Type κ} ⦃e : PartialEq K⦄ where
  contains-keys-remove :
      (k j : K) (m : List (K × V))
      → contains (Maps.keys (Maps.remove k m)) j ≡ (not (j == k) && contains (Maps.keys m) j)
  unfolding Maps.remove
  contains-keys-remove k j [] = ground arith
  contains-keys-remove k j ((i, w) ∷ m) =
      ground (arith, e.same_iff i k, e.same_iff i j, e.same_iff j k, contains-keys-remove k j m)

  contains-keys-insert :
      (k j : K) (v : V) (m : List (K × V))
      → contains (Maps.keys (Maps.insert k v m)) j ≡ (k == j || contains (Maps.keys m) j)
  unfolding Maps.insert
  contains-keys-insert k j v [] = ground arith
  contains-keys-insert k j v ((i, w) ∷ m) =
      ground (arith, e.same_iff i k, e.same_iff i j, e.same_iff k j, contains-keys-insert k j v m)

  -- An entry that passes the test has its key among the keys of those that do.
  pub keys-retain_all :
      (q : K × V → Bool) (ks : List K) (m : List (K × V))
      → ((k : K) → contains (Maps.keys (retain q m)) k ≡ true → contains ks k ≡ true)
      → All (λ (p : K × V). q p ≡ true → contains ks (p.0) ≡ true) m
  keys-retain_all q ks [] h = tt
  keys-retain_all q ks ((k, v) ∷ m) h = (
    (λ t. h k (ground (arith, e.same_iff k k))),
    keys-retain_all q ks m (λ j c. h j (ground arith)),
  )

abbrev pub IsAwaitedPulled : Transfer → Type 0
IsAwaitedPulled x = All (λ (p : Piece). contains (Maps.keys x.pulling) (p.0) ≡ true) x.awaiting

-- Requests were passed on to machines that are up, pulls come from machines that are up, and what is
-- awaited is pulled.
abbrev pub IsLinked : Transfer → Type 0
IsLinked x =
    All (λ (r : Piece × DeviceId). contains x.peers (r.0.0.device) ≡ true) x.relays
    × (All (λ (s : TransferId × DeviceId). contains x.peers (s.1) ≡ true) x.pulling
        × IsAwaitedPulled x)

pub stop_pulling-IsAwaitedPulled :
    (id : TransferId) (x : Transfer) → IsAwaitedPulled x → IsAwaitedPulled (stop_pulling id x)
unfolding stop_pulling
stop_pulling-IsAwaitedPulled id x a =
    All-retain _ _ (λ p. not (p.0 == id)) x.awaiting
      (λ p t h. ground (arith, contains-keys-remove id p.0 x.pulling)) a

pub stop_pulling-IsLinked :
    (id : TransferId) (x : Transfer) → IsLinked x → IsLinked (stop_pulling id x)
unfolding stop_pulling Maps.remove
stop_pulling-IsLinked id x l = (
  l.0,
  (
    All-retain _ _ (λ s. not (s.0 == id)) x.pulling (λ s t h. h) l.1.0,
    stop_pulling-IsAwaitedPulled id x l.1.1,
  ),
)

server_source :
    (id : TransferId) (x : Transfer)
    → x.hub ≡ none
    → source_of id x ≡ (if contains x.peers id.device then some id.device else none)
unfolding source_of
server_source id x n = rw (n, source_of) refl

source_of_up :
    (id : TransferId) (s : DeviceId) (x : Transfer)
    → x.hub ≡ none
    → source_of id x ≡ some s
    → (s ≡ id.device) × (contains x.peers id.device ≡ true)
source_of_up id s x n h = ground (arith, server_source id x n)

pub on_pull-IsLinked :
    (p : Piece) (x : Transfer) → x.hub ≡ none → IsLinked x → IsLinked (on_pull p x).0
unfolding on_pull
on_pull-IsLinked p x n l = elim (Option-cases (source_of p.0 x)) [
  | inl e ↦ rw (e, on_pull) l
  | inr (s, e) ↦
      let up = source_of_up p.0 s x n e in
      rw (e, on_pull)
        (
          l.0,
          (
            Maps.All-insert _ p.0 s x.pulling (ground (arith, up)) l.1.0,
            Sets.All-insert _ p x.awaiting
                (ground (arith, contains-keys-insert p.0 p.0 s x.pulling, (==_iff p.0 p.0).1 refl))
                (All-map _ _ (λ q h. ground (arith, contains-keys-insert p.0 q.0 s x.pulling))
                  x.awaiting l.1.1),
          ),
        )
]

requested-IsLinked :
    (p : Piece) (from : DeviceId) (x : Transfer)
    → x.hub ≡ none
    → IsLinked x
    → IsLinked (requested from p x).0
unfolding requested relay_request
requested-IsLinked p from x n l = elim (Bool-cases (p.0.device == x.me)) [
  | inl e ↦ rw (e, requested) l
  | inr e ↦
      rw (e, requested)
        (elim (Option-cases (source_of p.0 x)) [
          | inl u ↦ rw (u, relay_request) l
          | inr (s, u) ↦
              let up = source_of_up p.0 s x n u in
              rw (u, relay_request)
                (elim (Bool-cases (s == from)) [
                  | inl b ↦ rw (b, relay_request) l
                  | inr b ↦ rw (b, relay_request) (Maps.All-insert _ p from x.relays up.1 l.0, l.1)
                ])
        ])
]

take_chunk-IsLinked :
    (p : Piece) (from : DeviceId) (bytes : List ℕ) (last : Bool) (x : Transfer)
    → IsLinked x
    → IsLinked (take_chunk from p bytes last x).0
unfolding take_chunk Sets.remove
take_chunk-IsLinked p from bytes last x l =
    elim (Bool-cases (comes_from from (Maps.get p.0 x.pulling) && contains x.awaiting p)) [
      | inl e ↦
          rw (e, take_chunk)
            (l.0, (l.1.0, All-retain _ _ (λ q. not (q == p)) x.awaiting (λ q t h. h) l.1.1))
      | inr e ↦ rw (e, take_chunk) l
    ]

chunk_arrived-IsLinked :
    (p : Piece) (from : DeviceId) (bytes : List ℕ) (last : Bool) (x : Transfer)
    → IsLinked x
    → IsLinked (chunk_arrived from p bytes last x).0
unfolding chunk_arrived Maps.remove
chunk_arrived-IsLinked p from bytes last x l = elim (Option-cases (Maps.get p x.relays)) [
  | inl e ↦ rw (e, chunk_arrived) (take_chunk-IsLinked p from bytes last x l)
  | inr (d, e) ↦
      rw (e, chunk_arrived) (All-retain _ _ (λ r. not (r.0 == p)) x.relays (λ r t h. h) l.0, l.1)
]

aborted-IsLinked :
    (from : DeviceId) (id : TransferId) (reason : String) (x : Transfer)
    → IsLinked x
    → IsLinked (aborted from id reason x).0
unfolding aborted
aborted-IsLinked from id reason x l =
    let x1 : Transfer = record x { relays = retain (λ r. not (r.0.0 == id)) x.relays } in
    let l1 : IsLinked x1 =
      (All-retain _ _ (λ r. not (r.0.0 == id)) x.relays (λ r t h. h) l.0, l.1) in
    elim (Bool-cases (comes_from from (Maps.get id x.pulling))) [
      | inl e ↦ rw (e, aborted) (stop_pulling-IsLinked id x1 l1)
      | inr e ↦ rw (e, aborted) l1
    ]

pub peer_said-IsLinked :
    (from : DeviceId) (msg : Bulk) (x : Transfer)
    → x.hub ≡ none
    → IsLinked x
    → IsLinked (peer_said from msg x).0
unfolding peer_said
peer_said-IsLinked from (file_request id index offset) x n l =
    requested-IsLinked (id, (index, offset)) from x n l
peer_said-IsLinked from (file_chunk id index offset bytes last) x n l =
    chunk_arrived-IsLinked (id, (index, offset)) from bytes last x l
peer_said-IsLinked from (file_abort id reason) x n l = aborted-IsLinked from id reason x l
peer_said-IsLinked from (clip_offer o) x n l = l
peer_said-IsLinked from (clip_request s f i) x n l = l
peer_said-IsLinked from (clip_chunk s f i b z) x n l = l
peer_said-IsLinked from (clip_unavailable s f e) x n l = l
peer_said-IsLinked from (clip_cancel s f) x n l = l
peer_said-IsLinked from (file_offer o) x n l = l
peer_said-IsLinked from (file_done id) x n l = l
peer_said-IsLinked from (dragging s) x n l = l
