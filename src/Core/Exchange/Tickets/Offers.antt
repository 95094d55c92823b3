-- ===== src/Core/Exchange/Tickets/Offers.antt =====
-- The count of tickets over machines that come and go, and over new offers.
use smkvm.Base.{ℕ, ◌≡◌, refl, ◌∙◌, Option, none, some, List, [], ◌∷◌, Option-cases, inl, inr, arith}
use smkvm.Base.Equality.{pair_eq, nat_eq, nat_ord}
use smkvm.Base.Sets
use smkvm.Layout.Model.{DeviceId}
use smkvm.Proto.Msg.{seq_eq, format_eq, ClipSeq, ClipFormat, ClipOffer}
use smkvm.Core.Exchange.State.{Output, Key, Run}
use smkvm.Core.Exchange.Serve.{with_self, drop_fetch, forget}
use smkvm.Core.Exchange.Machines.{
  on_peer_up, lose_fetch, lose_fetches, fetches_from, drop_relays, release_held, on_peer_gone,
}
use smkvm.Core.Exchange.Offers.{
  drop_local, drop_remote, place_local, on_local_changed, place_remote, offered,
}
use smkvm.Core.Exchange.Tickets.{
  answers-append, balance, answers-send_each, held_tickets-drop_relays, balance-push,
  balance-fail_waiters, balance-forget,
}

module _ (t : ℕ) where
  pub balance-on_peer_up : (peer : DeviceId) (r : Run) → balance t (on_peer_up peer r) ≡ balance t r
  unfolding on_peer_up
  balance-on_peer_up peer r = grind (arith, answers-append)

  balance-lose_fetch : (k : Key) (r : Run) → balance t (lose_fetch k r) ≡ balance t r
  unfolding lose_fetch drop_fetch
  balance-lose_fetch k r = balance-fail_waiters t k _ (with_self (drop_fetch k) r)

  balance-lose_fetches : (ks : List Key) (r : Run) → balance t (lose_fetches ks r) ≡ balance t r
  unfolding lose_fetches
  balance-lose_fetches [] r = refl
  balance-lose_fetches (k ∷ ks) r =
      balance-lose_fetches ks (lose_fetch k r) ∙ balance-lose_fetch k r

  balance-drop_relays : (peer : DeviceId) (r : Run) → balance t (drop_relays peer r) ≡ balance t r
  unfolding drop_relays
  balance-drop_relays peer r = omega (arith, held_tickets-drop_relays t peer r.self.waiting)

  balance-release_held : (peer : DeviceId) (r : Run) → balance t (release_held peer r) ≡ balance t r
  balance-release_held peer r = elim (Option-cases r.self.remote) [
    | inl e ↦ unfold release_held in rw e
    | inr (h, e) ↦
        let gone = with_self (λ x. record x { remote = none }) r in
        let known = balance-forget t h.seq gone in
        let pushed = balance-push t Output.release_locally (forget h.seq gone) in
        unfold release_held in rw e (ground (arith, known, pushed))
  ]

  pub balance-on_peer_gone :
      (peer : DeviceId) (r : Run) → balance t (on_peer_gone peer r) ≡ balance t r
  balance-on_peer_gone peer r =
      unfold on_peer_gone in
      (balance-release_held peer (drop_relays peer (lose_fetches keys start))
        ∙ (balance-drop_relays peer (lose_fetches keys start) ∙ balance-lose_fetches keys start))
    where
      start : Run
      start = with_self (λ x. record x { peers = Sets.remove peer x.peers }) r

      keys : List Key
      keys = fetches_from peer start.self

  balance-drop_local : (r : Run) → balance t (drop_local r) ≡ balance t r
  balance-drop_local r = elim (Option-cases r.self.local) [
    | inl e ↦ unfold drop_local in rw e
    | inr ((old, formats), e) ↦
        let known = balance-forget t old (with_self (λ x. record x { local = none }) r) in
        unfold drop_local in rw e known
  ]

  balance-drop_remote :
      (kept : Option ClipSeq) (r : Run) → balance t (drop_remote kept r) ≡ balance t r
  balance-drop_remote kept r = elim (Option-cases r.self.remote) [
    | inl e ↦ unfold drop_remote in rw e
    | inr (h, e) ↦
        let known = balance-forget t h.seq (with_self (λ x. record x { remote = none }) r) in
        unfold drop_remote in rw e (ground (arith, known))
  ]

  balance-place_local :
      (formats : List ClipFormat) (r : Run) → balance t (place_local formats r) ≡ balance t r
  unfolding place_local
  balance-place_local formats r = grind (arith, answers-append, answers-send_each)

  pub balance-on_local_changed :
      (formats : List ClipFormat) (now : ℕ) (r : Run)
      → balance t (on_local_changed formats now r) ≡ balance t r
  balance-on_local_changed formats now r =
      let r1 = drop_local r in
      let r2 = drop_remote none r1 in
      unfold on_local_changed in
      (grind (arith, balance-place_local _ r2, balance-drop_remote none r1, balance-drop_local r))

  balance-place_remote :
      (from : DeviceId) (seq : ClipSeq) (formats : List ClipFormat) (now : ℕ) (r : Run)
      → balance t (place_remote from seq formats now r) ≡ balance t r
  unfolding place_remote
  balance-place_remote from seq formats now r = grind (arith, answers-append, answers-send_each)

  pub balance-offered :
      (from : DeviceId) (o : ClipOffer) (now : ℕ) (r : Run)
      → balance t (offered from o now r) ≡ balance t r
  balance-offered from o now r =
      let r1 = drop_local r in
      let r2 = drop_remote (some o.seq) r1 in
      unfold offered in
      (grind (
        arith,
        balance-place_remote from o.seq _ now r2,
        balance-drop_remote (some o.seq) r1,
        balance-drop_local r,
      ))
