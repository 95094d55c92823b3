-- ===== src/Core/Exchange/Tidy/Forget.antt =====
-- Forgetting an offer, and the steps of a fetch, keep the stores tidy.
use smkvm.Base.{ℕ, ◌≤◌, ◌≡◌, ap, not, Option, none, some, List, inl, inr, arith}
use smkvm.Base.Equality.{pair_eq, pair_ord, ◌==◌}
use smkvm.Base.Lists.{retain, length, All-map, All-retain}
use smkvm.Base.Maps
use smkvm.Layout.Model.{DeviceId}
use smkvm.Proto.Msg.{seq_eq, seq_ord, format_eq, format_ord, ClipSeq, ClipError, seq_beq_iff}
use smkvm.Core.Exchange.State.{Key, Exchange, Run}
use smkvm.Core.Exchange.Serve.{awaits}
use smkvm.Core.Exchange.Machines.{drop_relays}
use smkvm.Core.Exchange.Fetches.{give_up, store_chunk}
use smkvm.Core.Exchange.Tidy.Steps.{Tidy-waiters, fail_fetch-Tidy}
use smkvm.Core.Exchange.Tidy.{TidyAt, key_of, outstanding-insert_fetch, outstanding-retain}
use smkvm.Core.Exchange.Effects.{forgotten}

module _ {h : Option ClipSeq} where
  -- The local offer is over.
  pub forget_local-Tidy :
      (s : ClipSeq) (x : Exchange) → TidyAt (some s) h x → TidyAt none h (forgotten s x)
  unfolding forgotten
  forget_local-Tidy s x t = record {
    reads =
        All-retain _ _ _ x.reading (λ k n q. absurd (ground (arith, n, q, seq_beq_iff (k.0) s)))
          t.reads;
    fetches = All-retain _ _ _ x.fetching (λ p _ q. q) t.fetches;
    cached =
        All-retain _ _ _ x.cache
          (λ p n q. elim q [
            | inl a ↦ absurd (ground (arith, n, a, seq_beq_iff (p.0.0) s))
            | inr b ↦ inr b
          ])
          t.cached;
    buffered = All-retain _ _ _ x.fetching (λ p _ q. q) t.buffered;
    sized = All-retain _ _ _ x.cache (λ p _ q. q) t.sized;
    covered =
        All-retain _ _ _ x.waiting
          (λ w n c.
            outstanding-retain (λ (k : Key). not (k.0 == s)) (key_of w) x.reading x.fetching n c)
          t.covered;
  }

module _ {l : Option ClipSeq} where
  -- The offer held from elsewhere is over.
  pub forget_held-Tidy :
      (s : ClipSeq) (x : Exchange) → TidyAt l (some s) x → TidyAt l none (forgotten s x)
  unfolding forgotten
  forget_held-Tidy s x t = record {
    reads = All-retain _ _ _ x.reading (λ p _ q. q) t.reads;
    fetches =
        All-retain _ _ _ x.fetching (λ p n q. absurd (ground (arith, n, q, seq_beq_iff (p.0.0) s)))
          t.fetches;
    cached =
        All-retain _ _ _ x.cache
          (λ p n q. elim q [
            | inl a ↦ inl a
            | inr b ↦ absurd (ground (arith, n, b, seq_beq_iff (p.0.0) s))
          ])
          t.cached;
    buffered = All-retain _ _ _ x.fetching (λ p _ q. q) t.buffered;
    sized = All-retain _ _ _ x.cache (λ p _ q. q) t.sized;
    covered =
        All-retain _ _ _ x.waiting
          (λ w n c.
            outstanding-retain (λ (k : Key). not (k.0 == s)) (key_of w) x.reading x.fetching n c)
          t.covered;
  }

module _ {l h : Option ClipSeq} where
  pub drop_relays-Tidy :
      (peer : DeviceId) (r : Run) → TidyAt l h r.self → TidyAt l h (drop_relays peer r).self
  unfolding drop_relays
  drop_relays-Tidy peer r t =
      Tidy-waiters _ t (All-retain _ _ _ r.self.waiting (λ w _ c. c) t.covered)

  -- A chunk joins what has been fetched, within the limit.
  pub store_chunk-Tidy :
      (from : DeviceId) (k : Key) (bytes : List ℕ) (r : Run)
      → h ≡ some (k.0)
      → length bytes ≤ r.self.max_bytes
      → TidyAt l h r.self
      → TidyAt l h (store_chunk from k bytes r).self
  unfolding store_chunk
  store_chunk-Tidy from k bytes r held fits t = record {
    reads = t.reads;
    fetches = Maps.All-insert _ k _ x.fetching held t.fetches;
    cached = t.cached;
    buffered = Maps.All-insert _ k _ x.fetching fits t.buffered;
    sized = t.sized;
    covered =
        All-map _ _
          (λ w c. outstanding-insert_fetch k (key_of w) _ x.reading x.fetching (ground arith))
          x.waiting t.covered;
  }
    where
      open r use {self as x}

  pub give_up-Tidy :
      (from : DeviceId) (k : Key) (why : ClipError) (r : Run)
      → TidyAt l h r.self
      → TidyAt l h (give_up from k why r).self
  give_up-Tidy from k why r t = unfold give_up in (fail_fetch-Tidy k why r t)

-- What was stored last goes with the fetch that is given up.
pub give_up_stored :
    (from : DeviceId) (k : Key) (why : ClipError) (bytes : List ℕ) (r : Run)
    → (give_up from k why (store_chunk from k bytes r)).self ≡ (give_up from k why r).self
unfolding give_up store_chunk
give_up_stored from k why bytes r =
    ap (λ F. record x { fetching = F; waiting = retain (λ w. not (awaits k w)) x.waiting })
      (Maps.remove-insert k _ x.fetching)
  where
    open r use {self as x}
