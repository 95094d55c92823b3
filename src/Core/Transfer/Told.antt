-- ===== src/Core/Transfer/Told.antt =====
-- crates/smkvm-core/src/transfer.rs: who is told what about a request that was passed on.
use smkvm.Base.{
  Bool, true, false, ◌&&◌, ◌||◌, ◌≡◌, refl, some, List, [], ◌∷◌, ◌++◌, map, String, arith,
}
use smkvm.Base.Equality.{◌==◌, PartialEq, nat_eq, nat_ord, pair_eq, pair_ord}
use smkvm.Base.Lists.{contains, retain, any}
use smkvm.Base.Sets
use smkvm.Base.Maps
use smkvm.Layout.Model.{DeviceId}
use smkvm.Proto.Msg.{TransferId, id_eq, id_ord, file_request, file_chunk, file_abort}
use smkvm.Core.Transfer.{Input, peer_gone, from_peer, Output, send, Piece, tell}

-- An answer to `to` about the piece: its bytes, or that the transfer is over.
unfoldable pub answers : Piece → DeviceId → Output → Bool
answers p to (send d (file_chunk id index offset bytes last)) =
    d == to && (id, (index, offset)) == p
answers p to (send d (file_abort id reason)) = d == to && id == p.0
answers p to _ = false

-- The inputs after which `to` waits no more without an answer: it left, or the piece was asked for
-- again.
abbrev pub excused : Piece → DeviceId → Input → Bool
excused p to (peer_gone peer) = peer == to
excused p to (from_peer from (file_request id index offset)) = (id, (index, offset)) == p
excused p to _ = false

pub any-append {ℓ} :
    {A : Type ℓ} (q : A → Bool) (xs ys : List A) → any q (xs ++ ys) ≡ (any q xs || any q ys)
any-append q [] ys = refl
any-append q (x ∷ xs) ys = ground (arith, any-append q xs ys)

module _ {ℓ κ} {K : Type ℓ} {V : Type κ} ⦃e : PartialEq K⦄ where
  pub get-retain_kept :
      (q : K × V → Bool) (k : K) (v : V) (m : List (K × V))
      → Maps.get k m ≡ some v
      → q (k, v) ≡ true
      → Maps.get k (retain q m) ≡ some v
  unfolding Maps.get
  get-retain_kept q k v [] g h = cc
  get-retain_kept q k v ((j, w) ∷ m) g h = ground (arith, e.same_iff j k, get-retain_kept q k v m)

  pub contains-map-retain {ι} :
      {B : Type ι} ⦃d : PartialEq B⦄ (f : K × V → B) (q : K × V → Bool) (k : K) (v : V)
      (m : List (K × V))
      → Maps.get k m ≡ some v
      → q (k, v) ≡ true
      → contains (map f (retain q m)) (f (k, v)) ≡ true
  unfolding Maps.get
  contains-map-retain ⦃d⦄ f q k v [] g h = cc
  contains-map-retain ⦃d⦄ f q k v ((j, w) ∷ m) g h =
      ground
        (arith, e.same_iff j k, d.same_iff (f (k, v)) (f (k, v)), contains-map-retain f q k v m)

pub told_answers :
    (p : Piece) (to : DeviceId) (id : TransferId) (reason : String) (ds : List DeviceId)
    → (id == p.0) ≡ true
    → contains ds to ≡ true
    → any (answers p to) (map (λ d. send d (file_abort id reason)) ds) ≡ true
unfolding answers
told_answers p to id reason [] h c = cc
told_answers p to id reason (d ∷ ds) h c = ground (arith, told_answers p to id reason ds h)

pub tell-answers :
    (p : Piece) (to : DeviceId) (told os : List (TransferId × DeviceId))
    → contains told (p.0, to) ≡ false
    → contains os (p.0, to) ≡ true
    → any (answers p to) (tell told os) ≡ true
unfolding answers tell
tell-answers p to told [] n h = cc
tell-answers p to told (o ∷ os) n h =
    let rest = tell-answers p to (Sets.insert o told) os in
    ground (
      arith,
      rest,
      pair_eq.same_iff o (p.0, to),
      id_eq.same_iff p.0 p.0,
      Sets.contains-insert o (p.0, to) told,
    )
