-- ===== src/Core/Exchange/Offers.antt =====
-- Copies made here and elsewhere (exchange.rs: `local_changed`, `announce`, `offered`).
use smkvm.Base.{
  ℕ, ◌+◌, ◌-◌, ◌%◌, ◌^◌, Bool, true, false, not, ◌&&◌, leb, if◌then◌else◌, Option, none, some, List,
  [], ◌∷◌, ◌++◌, map,
}
use smkvm.Base.Equality.{◌==◌, nat_eq, nat_ord, pair_eq, pair_ord}
use smkvm.Base.Lists.{retain, contains, all}
use smkvm.Layout.Model.{DeviceId}
use smkvm.Proto.Msg.{
  ClipSeq, seq_eq, seq_ord, ClipFormat, format_eq, format_ord, ClipOffer, Bulk, clip_offer,
}
use smkvm.Core.Exchange.State.{Output, send, offer_locally, Exchange, Run, echo_window}
use smkvm.Core.Exchange.Serve.{with_self, offer, forget}

-- `if let Some((old, _)) = self.local.take() { self.forget(old, out) }`
unfoldable pub drop_local : Run → Run
unfolding forget
drop_local r = elim r.self.local [
  | none ↦ r
  | some (old, formats) ↦ forget old (with_self (λ x. record x { local = none }) r)
]

-- The same of what is held from elsewhere, unless it goes by the sequence that is kept.
unfoldable pub drop_remote : Option ClipSeq → Run → Run
unfolding forget
drop_remote kept r = elim r.self.remote [
  | none ↦ r
  | some h ↦
      let r1 = with_self (λ x. record x { remote = none }) r in
      elim kept [ none ↦ forget h.seq r1 | some seq ↦ if h.seq == seq then r1 else forget h.seq r1 ]
]

abbrev pub send_each : Bulk → List DeviceId → List Output
send_each msg peers = map (λ p. send p msg) peers

-- Our own offer coming back round as a change.
unfoldable pub is_echo : Exchange → List ClipFormat → ℕ → Bool
is_echo x formats now = elim x.remote [
  | none ↦ false
  | some held ↦ leb (now - held.placed) echo_window && all (contains held.formats) formats
]

abbrev pub seq_of : DeviceId → ℕ → ClipSeq
seq_of device counter = record { device = device; counter = counter }

-- The counter is a `u64`, whose `+= 1` wraps in a release build.
unfoldable pub place_local : List ClipFormat → Run → Run
unfolding offer
place_local formats r =
    let counter = (x.counter + 1) % 2 ^ 64 in
    let seq = seq_of x.me counter in
    record {
      self = record x { counter = counter; local = some (seq, formats) };
      out = r.out ++ send_each (clip_offer (offer seq formats)) x.peers;
    }
  where
    open r use {self as x}

abbrev pub is_empty : List ClipFormat → Bool
is_empty [] = true
is_empty (f ∷ fs) = false

unfoldable pub on_local_changed : List ClipFormat → ℕ → Run → Run
unfolding is_echo drop_local drop_remote place_local
on_local_changed all_formats now r =
    let formats = retain (contains r.self.allowed) all_formats in
    if not r.self.enabled
    then r
    else if is_empty formats
    then r
    else if is_echo r.self formats now
    then r
    else place_local formats (drop_remote none (drop_local r))

unfoldable pub announce : List ClipFormat → ℕ → Exchange → Exchange × Option ClipSeq × List Output
unfolding on_local_changed
announce formats now x =
    let r = on_local_changed formats now (record { self = x; out = [] }) in
    let seq = seq_of x.me r.self.counter in
    (r.self, if r.self.counter == x.counter then none else some seq, r.out)

-- The hub passes the offer on to every machine but the one it came from.
unfoldable pub place_remote : DeviceId → ClipSeq → List ClipFormat → ℕ → Run → Run
unfolding offer
place_remote from seq formats now r = record {
  self = record x {
    remote = some (record { seq = seq; from = from; formats = formats; placed = now });
  };
  out =
      r.out
      ++ offer_locally seq formats
        ∷ send_each (clip_offer (offer seq formats)) (retain (λ p. not (p == from)) x.peers);
}
  where
    open r use {self as x}

unfoldable pub offered : DeviceId → ClipOffer → ℕ → Run → Run
unfolding drop_local drop_remote place_remote
offered from o now r =
    let formats = retain (contains r.self.allowed) (map (λ e. e.format) o.entries) in
    if not r.self.enabled
    then r
    else if is_empty formats
    then r
    else place_remote from o.seq formats now (drop_remote (some o.seq) (drop_local r))
