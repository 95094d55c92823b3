-- ===== src/Core/Exchange/Invariant.antt =====
-- The invariant of the exchange: no input breaks it, so nobody is left waiting for nothing.
pub mod Offers
pub mod Fetches
pub mod Chunks
pub mod Histories
use smkvm.Base.{
  ℕ, ◌≤◌, ◌+◌, ◌≡◌, refl, ◌∙◌, sym, ap, Bool, true, false, not, ◌&&◌, ◌||◌, eqb, leb, ltb,
  if◌then◌else◌, Option, none, some, List, [], ◌∷◌, ◌++◌, map, ◌⊎◌, Option-cases, Bool-cases, inl,
  inr, arith,
}
use smkvm.Base.Equality.{pair_eq, pair_ord, nat_eq, nat_ord, ◌==◌}
use smkvm.Base.Lists.{retain, contains, length, All, All-map}
use smkvm.Base.Sets
use smkvm.Base.Maps
use smkvm.Layout.Model.{DeviceId}
use smkvm.Proto.Msg.{
  seq_eq, seq_ord, format_eq, format_ord, ClipSeq, ClipFormat, ClipError, ClipOffer, Bulk,
  clip_offer, clip_request, clip_chunk, clip_unavailable, seq_beq_iff,
}
use smkvm.Core.Exchange.State.{
  Contents, ok, err, Input, peer_up, peer_gone, local_changed, from_peer, wanted, read_done,
  Waiting, Waiter, ticket, relay, Held, Key, Exchange, Run, Fetching, local_offer, held_offer,
  held_seq, local_seq, new, Output,
}
use smkvm.Core.Exchange.Serve.{
  push, with_self, serve_waiters, fail_waiters, start_fetch, drop_fetch, forget,
}
use smkvm.Core.Exchange.Machines.{
  on_peer_up, lose_fetch, lose_fetches, fetches_from, drop_relays, release_held, on_peer_gone,
}
use smkvm.Core.Exchange.Offers.{
  drop_local, drop_remote, place_local, on_local_changed, place_remote, offered, announce, is_empty,
  is_echo,
}
use smkvm.Core.Exchange.Fetches.{
  wait_for, start_read, end_read, relay_request, requested, fetch_wanted, on_wanted, give_up,
  store_chunk, absorb_chunk, chunk_arrived, unavailable, on_read_done, owner_of, owner_for, is_ours,
  is_local_seq,
}
use smkvm.Core.Exchange.Handle.{peer_said, dispatch, handle}
use smkvm.Core.Exchange.Effects.{forgotten, forget_effect}
use smkvm.Core.Exchange.Tidy.{Tidy, TidyAt, key_of, outstanding}
use smkvm.Core.Exchange.Tidy.Steps.{
  fail_fetch-Tidy, serve_fetch-Tidy, fail_read-Tidy, serve_read-Tidy, start_fetch-Tidy,
  start_read-Tidy,
}
use smkvm.Core.Exchange.Tidy.Forget.{
  forget_local-Tidy, forget_held-Tidy, drop_relays-Tidy, store_chunk-Tidy, give_up-Tidy,
  give_up_stored,
}

pub record Inv (x : Exchange) : Type 0 where
  -- The clipboard holds one offer at most.
  pub alone : (local_offer x ≡ none) ⊎ (held_offer x ≡ none)
  pub tidy : TidyAt (local_offer x) (held_offer x) x

-- A step that leaves both offers alone keeps the invariant if it keeps the stores tidy.
abbrev pub Keeps : Exchange → Exchange → Type 0
Keeps x y = (y.local ≡ x.local) × (y.remote ≡ x.remote)

pub Keeps-Inv :
    {x y : Exchange} → Keeps x y → Inv x → TidyAt (local_offer x) (held_offer x) y → Inv y
Keeps-Inv k v t = record { alone = rw (k.0, k.1) v.alone; tidy = rw (k.0, k.1) t }

pub new-Inv : (me : DeviceId) (allowed : List ClipFormat) (max : ℕ) → Inv (new me allowed max)
unfolding new
new-Inv me allowed max = record {
  alone = inl refl;
  tidy = record { reads = tt; fetches = tt; cached = tt; buffered = tt; sized = tt; covered = tt };
}

self-on_peer_up :
    (peer : DeviceId) (r : Run)
    → (on_peer_up peer r).self ≡ record (r.self) { peers = Sets.insert peer r.self.peers }
unfolding on_peer_up
self-on_peer_up peer r = ground arith

pub on_peer_up-Inv : (peer : DeviceId) (r : Run) → Inv r.self → Inv (on_peer_up peer r).self
on_peer_up-Inv peer r v = rw self-on_peer_up (record { alone = v.alone; tidy = v.tidy })

lose_fetch-Inv : (k : Key) (r : Run) → Inv r.self → Inv (lose_fetch k r).self
lose_fetch-Inv k r v =
    unfold lose_fetch in
    (record { alone = v.alone; tidy = fail_fetch-Tidy k ClipError.cancelled r v.tidy })

lose_fetches-Inv : (ks : List Key) (r : Run) → Inv r.self → Inv (lose_fetches ks r).self
unfolding lose_fetches
lose_fetches-Inv [] r v = v
lose_fetches-Inv (k ∷ ks) r v = lose_fetches-Inv ks (lose_fetch k r) (lose_fetch-Inv k r v)

drop_relays-Inv : (peer : DeviceId) (r : Run) → Inv r.self → Inv (drop_relays peer r).self
drop_relays-Inv peer r v =
    let t = drop_relays-Tidy peer r v.tidy in
    unfold drop_relays in (record { alone = v.alone; tidy = t })

-- Either branch of a test.
pub if_Inv : (b : Bool) (p q : Run) → Inv p.self → Inv q.self → Inv (if b then p else q).self
if_Inv true p q v w = v
if_Inv false p q v w = w

-- The offer that is held goes, with all that belongs to it.
forget_held-Inv :
    (h : Held) (r : Run)
    → r.self.remote ≡ some h
    → Inv r.self
    → Inv (forget h.seq (with_self (λ x. record x { remote = none }) r)).self
forget_held-Inv h r e v =
    rw forget_effect (unfold forgotten in (record { alone = inr refl; tidy = clean }))
  where
    clean : TidyAt (local_offer r.self) none (forgotten h.seq r.self)
    clean = forget_held-Tidy h.seq r.self (rw e at v.tidy)

release_held-Inv : (peer : DeviceId) (r : Run) → Inv r.self → Inv (release_held peer r).self
release_held-Inv peer r v = elim (Option-cases r.self.remote) [
  | inl e ↦ unfold release_held in rw (e, release_held) v
  | inr (h, e) ↦
      let known = forget_held-Inv h r e v in
      elim (Bool-cases (eqb h.from peer)) [
        | inl b ↦ unfold release_held push in rw (e, release_held, b) known
        | inr b ↦ unfold release_held push in rw (e, release_held, b) v
      ]
]

pub on_peer_gone-Inv : (peer : DeviceId) (r : Run) → Inv r.self → Inv (on_peer_gone peer r).self
on_peer_gone-Inv peer r v =
    unfold on_peer_gone in
    (release_held-Inv peer (drop_relays peer (lose_fetches keys start)) (
      drop_relays-Inv peer (lose_fetches keys start)
        (lose_fetches-Inv keys start (record { alone = v.alone; tidy = v.tidy }))))
  where
    start : Run
    start = with_self (λ x. record x { peers = Sets.remove peer x.peers }) r

    keys : List Key
    keys = fetches_from peer start.self
