-- ===== src/Core/Transfer/Departures.antt =====
-- crates/smkvm-core/src/transfer.rs: what a machine leaves behind when it goes (`peer_gone`).
use smkvm.Base.{true, not, ◌&&◌, ◌≡◌, refl, sym, ◌∙◌, none, List, [], ◌∷◌, arith}
use smkvm.Base.Equality.{◌==◌, nat_eq, nat_ord, pair_eq, pair_ord}
use smkvm.Base.Lists.{contains, retain, All, All-map, All-retain, All_both}
use smkvm.Base.Sets
use smkvm.Base.Maps
use smkvm.Layout.Model.{DeviceId}
use smkvm.Proto.Msg.{TransferId, id_eq, id_ord}
use smkvm.Core.Transfer.{
  Input, peer_up, peer_gone, from_peer, pull, dropped, Transfer, stop_pulling, lost_from, stop_all,
  on_peer_gone, handle,
}
use smkvm.Core.Transfer.Relays.{relays-stop_all}
use smkvm.Core.Transfer.Sources.{
  IsLinked, IsAwaitedPulled, stop_pulling-IsAwaitedPulled, stop_pulling-IsLinked,
  peer_said-IsLinked, on_pull-IsLinked, keys-retain_all,
}

stop_all-IsAwaitedPulled :
    (ids : List TransferId) (x : Transfer) → IsAwaitedPulled x → IsAwaitedPulled (stop_all ids x)
unfolding stop_all
stop_all-IsAwaitedPulled [] x a = a
stop_all-IsAwaitedPulled (id ∷ ids) x a =
    stop_all-IsAwaitedPulled ids (stop_pulling id x) (stop_pulling-IsAwaitedPulled id x a)

peers-stop_all : (ids : List TransferId) (x : Transfer) → (stop_all ids x).peers ≡ x.peers
unfolding stop_all stop_pulling
peers-stop_all [] x = refl
peers-stop_all (id ∷ ids) x = peers-stop_all ids (stop_pulling id x)

pulling-stop_all :
    (ids : List TransferId) (x : Transfer) → (stop_all ids x).pulling ≡ Maps.without ids x.pulling
unfolding stop_all stop_pulling
pulling-stop_all [] x = sym (Maps.without-nil x.pulling)
pulling-stop_all (id ∷ ids) x =
    pulling-stop_all ids (stop_pulling id x) ∙ Maps.without-remove id ids x.pulling

-- What is pulled once the pulls from `peer` are over comes from the others.
left_pulling :
    (peer : DeviceId) (peers : List DeviceId) (m : List (TransferId × DeviceId))
    → All (λ (s : TransferId × DeviceId). contains peers (s.1) ≡ true) m
    → All
        (λ (s : TransferId × DeviceId). contains (Sets.remove peer peers) (s.1) ≡ true)
        (Maps.without (Maps.keys (retain (λ s. s.1 == peer) m)) m)
left_pulling peer peers m a =
    let lost = Maps.keys (retain (λ s. s.1 == peer) m) in
    All-retain _ _ (λ s. not (contains lost s.0)) m
      (λ s t h. ground (arith, h.0, h.1, Sets.contains-remove peer s.1 peers))
      (All_both _ _ m (keys-retain_all (λ s. s.1 == peer) lost m (λ k c. c)) a)

on_peer_gone-IsLinked :
    (peer : DeviceId) (x : Transfer) → IsLinked x → IsLinked (on_peer_gone peer x).0
unfolding on_peer_gone
on_peer_gone-IsLinked peer x l =
    let lost = lost_from peer x in
    let x1 : Transfer = record x {
      peers = Sets.remove peer x.peers;
      relays = retain (λ r. not (r.0.0.device == peer) && not (r.1 == peer)) x.relays;
    } in
    (
      rw (relays-stop_all lost x1, peers-stop_all lost x1)
          (All-retain _ _ (λ r. not (r.0.0.device == peer) && not (r.1 == peer)) x.relays
            (λ r t h. ground (arith, Sets.contains-remove peer r.0.0.device x.peers)) l.0),
      (
        rw (pulling-stop_all lost x1, peers-stop_all lost x1)
            (left_pulling peer x.peers x.pulling l.1.0),
        stop_all-IsAwaitedPulled lost x1 l.1.1,
      ),
    )

-- On the server every input keeps this: the requests it passed on went to machines that are up, what
-- it pulls comes from machines that are up, and it awaits no piece of what it does not pull.
pub handle-IsLinked :
    (i : Input) (x : Transfer) → x.hub ≡ none → IsLinked x → IsLinked (handle i x).0
unfolding handle
handle-IsLinked (peer_up peer) x n l =
    let up : (d : DeviceId)
        → contains x.peers d ≡ true
        → contains (Sets.insert peer x.peers) d ≡ true =
      λ d h. ground (arith, Sets.contains-insert peer d x.peers) in
    (
      All-map _ _ (λ r h. up r.0.0.device h) x.relays l.0,
      (All-map _ _ (λ s h. up s.1 h) x.pulling l.1.0, l.1.1),
    )
handle-IsLinked (peer_gone peer) x n l = on_peer_gone-IsLinked peer x l
handle-IsLinked (from_peer from msg) x n l = peer_said-IsLinked from msg x n l
handle-IsLinked (pull id index offset) x n l = on_pull-IsLinked (id, (index, offset)) x n l
handle-IsLinked (dropped id) x n l = stop_pulling-IsLinked id x l
