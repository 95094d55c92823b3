-- ===== src/Core/Transfer.antt =====
-- crates/smkvm-core/src/transfer.rs: files a piece at a time, through the server. A `HashSet` is kept
-- as an ordered list; the code never reads its order.
pub mod Pulls
pub mod Told
pub mod Relays
pub mod Sources
pub mod Departures
mod Tests
use smkvm.Base.{
  ℕ, Bool, true, false, not, ◌&&◌, ◌||◌, if◌then◌else◌, Option, none, some, List, [], ◌∷◌, ◌++◌,
  map, String,
}
use smkvm.Base.Equality.{◌==◌, nat_eq, nat_ord, pair_eq, pair_ord}
use smkvm.Base.Lists.{contains, retain}
use smkvm.Base.Sets
use smkvm.Base.Maps
use smkvm.Layout.Model.{DeviceId}
use smkvm.Proto.Msg.{TransferId, id_eq, id_ord, Bulk, file_request, file_chunk, file_abort}

pub data Input : Type 0 where
  peer_up peer_gone : DeviceId → Input
  from_peer : DeviceId → Bulk → Input
  pull : TransferId → ℕ → ℕ → Input
  dropped : TransferId → Input

pub data Output : Type 0 where
  send : DeviceId → Bulk → Output
  read_file : DeviceId → TransferId → ℕ → ℕ → Output
  chunk : TransferId → ℕ → ℕ → List ℕ → Bool → Output
  failed : TransferId → Output

-- `(TransferId, u32, u64)`: the transfer, the file in it and the offset.
abbrev pub Piece : Type 0
Piece = TransferId × (ℕ × ℕ)

pub record Transfer : Type 0 where
  pub me : DeviceId
  pub hub : Option DeviceId
  pub peers : List DeviceId
  pub relays : List (Piece × DeviceId)
  pub pulling : List (TransferId × DeviceId)
  pub awaiting : List Piece

unfoldable pub new : DeviceId → Option DeviceId → Transfer
new me hub = record { me = me; hub = hub; peers = []; relays = []; pulling = []; awaiting = [] }

unfoldable pub set_hub : Option DeviceId → Transfer → Transfer
set_hub hub x = record x { hub = hub }

-- Where a request about this transfer goes from here.
unfoldable pub source_of : TransferId → Transfer → Option DeviceId
source_of id x = elim x.hub [
  | some hub ↦ some hub
  | none ↦ if contains x.peers id.device then some id.device else none
]

-- `.filter(|s| *s != from)`
abbrev pub unless_from : DeviceId → Option DeviceId → Option DeviceId
unless_from from none = none
unless_from from (some s) = if s == from then none else some s

-- `self.pulling.get(&id) == Some(&from)`
abbrev pub comes_from : DeviceId → Option DeviceId → Bool
comes_from from none = false
comes_from from (some s) = s == from

-- Nothing more is pulled of a transfer.
unfoldable pub stop_pulling : TransferId → Transfer → Transfer
stop_pulling id x = record x {
  pulling = Maps.remove id x.pulling;
  awaiting = retain (λ p. not (p.0 == id)) x.awaiting;
}

unfoldable pub on_pull : Piece → Transfer → Transfer × List Output
unfolding source_of
on_pull p x = elim (source_of p.0 x) [
  | none ↦ (x, failed p.0 ∷ [])
  | some source ↦ (
    record x { pulling = Maps.insert p.0 source x.pulling; awaiting = Sets.insert p x.awaiting },
    send source (file_request p.0 p.1.0 p.1.1) ∷ [],
  )
]

abbrev pub no_holder : String
no_holder = "the machine holding the files is not connected here"

abbrev pub holder_gone : String
holder_gone = "the machine holding the files went away"

-- A request that is not for this machine's own files is passed on.
unfoldable pub relay_request : DeviceId → Piece → Transfer → Transfer × List Output
unfolding source_of
relay_request from p x = elim (unless_from from (source_of p.0 x)) [
  | some owner ↦ (
    record x { relays = Maps.insert p from x.relays },
    send owner (file_request p.0 p.1.0 p.1.1) ∷ [],
  )
  | none ↦ (x, send from (file_abort p.0 no_holder) ∷ [])
]

unfoldable pub requested : DeviceId → Piece → Transfer → Transfer × List Output
unfolding relay_request
requested from p x =
    if p.0.device == x.me then (x, read_file from p.0 p.1.0 p.1.1 ∷ []) else relay_request from p x

-- Only a chunk this machine asked for, from where it asked.
unfoldable pub take_chunk : DeviceId → Piece → List ℕ → Bool → Transfer → Transfer × List Output
take_chunk from p bytes last x =
    if comes_from from (Maps.get p.0 x.pulling) && contains x.awaiting p
    then (record x { awaiting = Sets.remove p x.awaiting }, chunk p.0 p.1.0 p.1.1 bytes last ∷ [])
    else (x, [])

unfoldable pub chunk_arrived : DeviceId → Piece → List ℕ → Bool → Transfer → Transfer × List Output
unfolding take_chunk
chunk_arrived from p bytes last x = elim (Maps.get p x.relays) [
  | some to ↦ (
    record x { relays = Maps.remove p x.relays },
    send to (file_chunk p.0 p.1.0 p.1.1 bytes last) ∷ [],
  )
  | none ↦ take_chunk from p bytes last x
]

-- Those for whom a request about this transfer was passed on, each once.
abbrev pub waiting_for : TransferId → Transfer → List DeviceId
waiting_for id x = Sets.collect (map (λ r. r.1) (retain (λ r. r.0.0 == id) x.relays))

unfoldable pub aborted : DeviceId → TransferId → String → Transfer → Transfer × List Output
unfolding stop_pulling
aborted from id reason x =
    let told = map (λ to. send to (file_abort id reason)) (waiting_for id x) in
    let x1 : Transfer = record x { relays = retain (λ r. not (r.0.0 == id)) x.relays } in
    if comes_from from (Maps.get id x.pulling)
    then (stop_pulling id x1, told ++ failed id ∷ [])
    else (x1, told)

unfoldable pub peer_said : DeviceId → Bulk → Transfer → Transfer × List Output
unfolding requested chunk_arrived aborted
peer_said from (file_request id index offset) x = requested from (id, (index, offset)) x
peer_said from (file_chunk id index offset bytes last) x =
    chunk_arrived from (id, (index, offset)) bytes last x
peer_said from (file_abort id reason) x = aborted from id reason x
peer_said from _ x = (x, [])

abbrev pub orphaned : DeviceId → Transfer → List (TransferId × DeviceId)
orphaned peer x = map (λ r. (r.0.0, r.1)) (retain (λ r. r.0.0.device == peer) x.relays)

-- The loop over the orphans, with the set of those told.
unfoldable pub tell : List (TransferId × DeviceId) → List (TransferId × DeviceId) → List Output
tell told [] = []
tell told (o ∷ os) =
    let rest = tell (Sets.insert o told) os in
    if contains told o then rest else send o.1 (file_abort o.0 holder_gone) ∷ rest

abbrev pub lost_from : DeviceId → Transfer → List TransferId
lost_from peer x = Maps.keys (retain (λ p. p.1 == peer) x.pulling)

-- The loop over the pulls that came through the machine that left.
unfoldable pub stop_all : List TransferId → Transfer → Transfer
unfolding stop_pulling
stop_all [] x = x
stop_all (id ∷ ids) x = stop_all ids (stop_pulling id x)

unfoldable pub on_peer_gone : DeviceId → Transfer → Transfer × List Output
unfolding tell stop_all
on_peer_gone peer x =
    let x1 : Transfer = record x {
      peers = Sets.remove peer x.peers;
      relays = retain (λ r. not (r.0.0.device == peer) && not (r.1 == peer)) x.relays;
    } in
    (stop_all (lost_from peer x1) x1, tell [] (orphaned peer x) ++ map failed (lost_from peer x1))

unfoldable pub handle : Input → Transfer → Transfer × List Output
unfolding on_peer_gone peer_said on_pull stop_pulling
handle (peer_up peer) x = (record x { peers = Sets.insert peer x.peers }, [])
handle (peer_gone peer) x = on_peer_gone peer x
handle (from_peer from msg) x = peer_said from msg x
handle (pull id index offset) x = on_pull (id, (index, offset)) x
handle (dropped id) x = (stop_pulling id x, [])
