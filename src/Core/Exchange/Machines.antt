-- ===== src/Core/Exchange/Machines.antt =====
-- Machines that come and go (exchange.rs: `peer_up`, `peer_gone`).
use smkvm.Base.{Bool, false, not, if◌then◌else◌, Option, none, some, List, [], ◌∷◌}
use smkvm.Base.Equality.{◌==◌, nat_eq, nat_ord, pair_eq, pair_ord}
use smkvm.Base.Lists.{retain}
use smkvm.Base.Sets
use smkvm.Base.Maps
use smkvm.Layout.Model.{DeviceId}
use smkvm.Proto.Msg.{seq_eq, seq_ord, format_eq, format_ord, ClipOffer, cancelled, clip_offer}
use smkvm.Core.Exchange.State.{
  send, release_locally, Held, Waiter, ticket, relay, Key, Exchange, Run,
}
use smkvm.Core.Exchange.Serve.{with_self, push, offer, fail_waiters, drop_fetch, forget}

unfoldable pub current_offer : Exchange → Option ClipOffer
unfolding offer
current_offer x = elim x.local [
  | some (seq, formats) ↦ some (offer seq formats)
  | none ↦ elim x.remote [ some h ↦ some (offer h.seq h.formats) | none ↦ none ]
]

abbrev pub is_from : DeviceId → Option Held → Bool
is_from peer none = false
is_from peer (some h) = h.from == peer

unfoldable pub on_peer_up : DeviceId → Run → Run
unfolding push current_offer
on_peer_up peer r =
    let r1 = with_self (λ x. record x { peers = Sets.insert peer x.peers }) r in
    if not r.self.enabled then r1 else elim (current_offer r1.self) [
      | none ↦ r1
      | some o ↦ if is_from peer r1.self.remote then r1 else push (send peer (clip_offer o)) r1
    ]

-- One turn of the loop over the fetches from a machine that has gone.
unfoldable pub lose_fetch : Key → Run → Run
unfolding fail_waiters drop_fetch
lose_fetch k r = fail_waiters k cancelled (with_self (drop_fetch k) r)

unfoldable pub lose_fetches : List Key → Run → Run
lose_fetches [] r = r
lose_fetches (k ∷ ks) r = lose_fetches ks (lose_fetch k r)

abbrev pub fetches_from : DeviceId → Exchange → List Key
fetches_from peer x = Maps.keys (retain (λ p. p.1.from == peer) x.fetching)

abbrev pub is_relay_to : DeviceId → Waiter → Bool
is_relay_to peer (relay to offset) = to == peer
is_relay_to peer (ticket t) = false

unfoldable pub drop_relays : DeviceId → Run → Run
drop_relays peer =
    with_self (λ x. record x { waiting = retain (λ w. not (is_relay_to peer w.who)) x.waiting })

unfoldable pub release_held : DeviceId → Run → Run
unfolding push forget
release_held peer r = elim r.self.remote [
  | none ↦ r
  | some h ↦
      if h.from == peer
      then push release_locally (forget h.seq (with_self (λ x. record x { remote = none }) r))
      else r
]

unfoldable pub on_peer_gone : DeviceId → Run → Run
unfolding lose_fetches drop_relays release_held
on_peer_gone peer r =
    let r1 = with_self (λ x. record x { peers = Sets.remove peer x.peers }) r in
    release_held peer (drop_relays peer (lose_fetches (fetches_from peer r1.self) r1))
