-- ===== src/Core/Exchange/Invariant/Offers.antt =====
-- New offers keep the invariant.
use smkvm.Base.{
  ℕ, ◌≡◌, refl, ap, not, if◌then◌else◌, Option, none, some, List, map, Option-cases, Bool-cases,
  inl, inr, arith,
}
use smkvm.Base.Equality.{pair_eq, pair_ord, nat_eq, nat_ord, ◌==◌}
use smkvm.Base.Lists.{retain, contains, All-map}
use smkvm.Layout.Model.{DeviceId}
use smkvm.Proto.Msg.{
  seq_eq, seq_ord, format_eq, format_ord, ClipSeq, ClipFormat, ClipOffer, ClipEntry, seq_beq_iff,
}
use smkvm.Core.Exchange.State.{
  Waiting, Held, Key, Exchange, Run, Fetching, held_offer, held_seq, local_seq,
}
use smkvm.Core.Exchange.Serve.{with_self, forget}
use smkvm.Core.Exchange.Offers.{
  drop_local, drop_remote, place_local, on_local_changed, place_remote, offered, is_empty, is_echo,
}
use smkvm.Core.Exchange.Effects.{forgotten, forget_effect}
use smkvm.Core.Exchange.Tidy.{Tidy, TidyAt}
use smkvm.Core.Exchange.Invariant.{Inv, if_Inv}
use smkvm.Core.Exchange.Tidy.Forget.{forget_local-Tidy, forget_held-Tidy}

-- Both offers gone but for the stores of `kept`, as a new offer finds them.
record IsCleared (kept : Option ClipSeq) (x : Exchange) : Type 0 where
  no_local : x.local ≡ none
  no_remote : x.remote ≡ none
  tidy : TidyAt none kept x

-- After `drop_local`.
record IsDropped (remote : Option Held) (x : Exchange) : Type 0 where
  no_local : x.local ≡ none
  same : x.remote ≡ remote
  tidy : TidyAt none (held_offer x) x

drop_local-IsDropped : (r : Run) → Inv r.self → IsDropped r.self.remote (drop_local r).self
drop_local-IsDropped r v = elim (Option-cases r.self.local) [
  | inl e ↦
      unfold drop_local in
      rw (e, drop_local) (record { no_local = e; same = refl; tidy = rw e at v.tidy })
  | inr ((old, formats), e) ↦
      let clean = forget_local-Tidy old r.self (rw e at v.tidy) in
      unfold drop_local in
      rw (e, drop_local, forget_effect)
        (unfold forgotten in (record { no_local = refl; same = refl; tidy = clean }))
]

-- Without any offer nothing is stored, whatever sequence comes next.
Tidy-any :
    (l h : Option ClipSeq) {max : ℕ} {R : List Key} {F : List (Key × Fetching)}
    {C : List (Key × List ℕ)} {W : List Waiting}
    → Tidy none none max R F C W
    → Tidy l h max R F C W
Tidy-any l h {R} {F} {C} t = record {
  reads = All-map _ _ (λ k q. absurd (ground (arith, q))) R t.reads;
  fetches = All-map _ _ (λ p q. absurd (ground (arith, q))) F t.fetches;
  cached =
      All-map _ _ (λ p q. absurd (elim q [ inl a ↦ ground (arith, a) | inr b ↦ ground (arith, b) ]))
        C t.cached;
  buffered = t.buffered;
  sized = t.sized;
  covered = t.covered;
}

forget_held-IsCleared :
    (k : Option ClipSeq) (h : Held) (r : Run) {g : Option Held}
    → IsDropped g r.self
    → r.self.remote ≡ some h
    → IsCleared k (forget h.seq (with_self (λ x. record x { remote = none }) r)).self
forget_held-IsCleared k h r d e =
    let clean = forget_held-Tidy h.seq r.self (rw e at d.tidy) in
    rw forget_effect (
      unfold forgotten in
      (record { no_local = d.no_local; no_remote = refl; tidy = Tidy-any none k clean }))

drop_held-IsCleared :
    (k : Option ClipSeq) (h : Held) (r : Run) {g : Option Held}
    → IsDropped g r.self
    → r.self.remote ≡ some h
    → IsCleared k (drop_remote k r).self
drop_held-IsCleared none h r d e =
    let known = forget_held-IsCleared none h r d e in
    unfold drop_remote in rw (e, drop_remote) known
drop_held-IsCleared (some s) h r d e =
    let known = forget_held-IsCleared (some s) h r d e in
    elim (Bool-cases (h.seq == s)) [
      | inl b ↦
          let same : h.seq ≡ s = (seq_beq_iff h.seq s).0 b in
          let left : IsCleared (some s) (record (r.self) { remote = none }) = record {
            no_local = d.no_local;
            no_remote = refl;
            tidy = rw (e, same) at d.tidy;
          } in
          unfold drop_remote in rw (e, drop_remote, b) left
      | inr b ↦ unfold drop_remote in rw (e, drop_remote, b) known
    ]

drop_remote-IsCleared :
    (kept : Option ClipSeq) (r : Run) {h : Option Held}
    → IsDropped h r.self
    → IsCleared kept (drop_remote kept r).self
drop_remote-IsCleared kept r d = elim (Option-cases r.self.remote) [
  | inl e ↦
      let left : IsCleared kept r.self = record {
        no_local = d.no_local;
        no_remote = e;
        tidy = Tidy-any none kept (rw e at d.tidy);
      } in
      unfold drop_remote in rw (e, drop_remote) left
  | inr (h, e) ↦ drop_held-IsCleared kept h r d e
]

place_local-Inv :
    (formats : List ClipFormat) (r : Run) → IsCleared none r.self → Inv (place_local formats r).self
place_local-Inv formats r c =
    unfold place_local in
    (record { alone = inr (ap held_seq c.no_remote); tidy = Tidy-any _ (held_offer r.self) c.tidy })

pub on_local_changed-Inv :
    (formats : List ClipFormat) (now : ℕ) (r : Run)
    → Inv r.self
    → Inv (on_local_changed formats now r).self
on_local_changed-Inv formats now r v =
    let dropped = drop_local-IsDropped r v in
    let cleared = drop_remote-IsCleared none (drop_local r) dropped in
    let kept = retain (contains r.self.allowed) formats in
    let next = place_local kept (drop_remote none (drop_local r)) in
    let placed = place_local-Inv kept (drop_remote none (drop_local r)) cleared in
    let fresh = if_Inv (is_echo r.self kept now) r next v placed in
    let after = if is_echo r.self kept now then r else next in
    let useful = if_Inv (is_empty kept) r after v fresh in
    let sharing = if_Inv (not r.self.enabled) r (if is_empty kept then r else after) v useful in
    unfold on_local_changed in sharing

place_remote-Inv :
    (from : DeviceId) (seq : ClipSeq) (formats : List ClipFormat) (now : ℕ) (r : Run)
    → IsCleared (some seq) r.self
    → Inv (place_remote from seq formats now r).self
place_remote-Inv from seq formats now r c =
    unfold place_remote in
    (record { alone = inl (ap local_seq c.no_local); tidy = rw (c.no_local) c.tidy })

pub offered-Inv :
    (from : DeviceId) (o : ClipOffer) (now : ℕ) (r : Run)
    → Inv r.self
    → Inv (offered from o now r).self
offered-Inv from o now r v =
    let dropped = drop_local-IsDropped r v in
    let cleared = drop_remote-IsCleared (some o.seq) (drop_local r) dropped in
    let kept = retain (contains r.self.allowed) (map (λ (e : ClipEntry). e.format) o.entries) in
    let base = drop_remote (some o.seq) (drop_local r) in
    let next = place_remote from o.seq kept now base in
    let placed = place_remote-Inv from o.seq kept now base cleared in
    let useful = if_Inv (is_empty kept) r next v placed in
    let sharing = if_Inv (not r.self.enabled) r (if is_empty kept then r else next) v useful in
    unfold offered in sharing
