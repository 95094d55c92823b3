-- ===== src/Core/Exchange/Tidy/Steps.antt =====
-- Each step of the exchange keeps its stores tidy.
use smkvm.Base.{
  ℕ, ◌≤◌, ◌≡◌, refl, true, Option, some, List, Option-cases, Bool-cases, inl, inr, arith,
}
use smkvm.Base.Equality.{pair_eq, pair_ord, ==_refl}
use smkvm.Base.Lists.{contains, length, All, All-map, All-retain, All-append}
use smkvm.Base.Sets
use smkvm.Base.Maps
use smkvm.Layout.Model.{DeviceId}
use smkvm.Proto.Msg.{seq_eq, seq_ord, format_eq, format_ord, ClipSeq, ClipError}
use smkvm.Core.Exchange.State.{Waiting, Waiter, Key, Run, Fetching}
use smkvm.Core.Exchange.Serve.{with_self, serve_waiters, fail_waiters, start_fetch, drop_fetch}
use smkvm.Core.Exchange.Fetches.{wait_for, start_read, end_read}
use smkvm.Core.Exchange.Tidy.{
  Tidy, TidyAt, key_of, outstanding, outstanding-remove_fetch, outstanding-remove_read,
  outstanding-insert_fetch, outstanding-insert_read,
}

-- The same stores with other waiters.
pub Tidy-waiters :
    {l h : Option ClipSeq} {max : ℕ} {R : List Key} {F : List (Key × Fetching)}
    {C : List (Key × List ℕ)} {W : List Waiting} (V : List Waiting)
    → Tidy l h max R F C W
    → All (λ (w : Waiting). outstanding R F (key_of w) ≡ true) V
    → Tidy l h max R F C V
Tidy-waiters V t c = record {
  reads = t.reads;
  fetches = t.fetches;
  cached = t.cached;
  buffered = t.buffered;
  sized = t.sized;
  covered = c;
}

module _ {l h : Option ClipSeq} where
  pub fail_fetch-Tidy :
      (k : Key) (why : ClipError) (r : Run)
      → TidyAt l h r.self
      → TidyAt l h (fail_waiters k why (with_self (drop_fetch k) r)).self
  unfolding fail_waiters drop_fetch Maps.remove
  fail_fetch-Tidy k why r t = record {
    reads = t.reads;
    fetches = All-retain _ _ _ x.fetching (λ p _ q. q) t.fetches;
    cached = t.cached;
    buffered = All-retain _ _ _ x.fetching (λ p _ q. q) t.buffered;
    sized = t.sized;
    covered =
        All-retain _ _ _ x.waiting
          (λ w n c. outstanding-remove_fetch k (key_of w) x.reading x.fetching n c) t.covered;
  }
    where
      open r use {self as x}

  pub serve_fetch-Tidy :
      (k : Key) (bytes : List ℕ) (r : Run)
      → h ≡ some (k.0)
      → length bytes ≤ r.self.max_bytes
      → TidyAt l h r.self
      → TidyAt l h (serve_waiters k bytes (with_self (drop_fetch k) r)).self
  unfolding serve_waiters drop_fetch Maps.remove
  serve_fetch-Tidy k bytes r held fits t = record {
    reads = t.reads;
    fetches = All-retain _ _ _ x.fetching (λ p _ q. q) t.fetches;
    cached = Maps.All-insert _ k bytes x.cache (inr held) t.cached;
    buffered = All-retain _ _ _ x.fetching (λ p _ q. q) t.buffered;
    sized = Maps.All-insert _ k bytes x.cache fits t.sized;
    covered =
        All-retain _ _ _ x.waiting
          (λ w n c. outstanding-remove_fetch k (key_of w) x.reading x.fetching n c) t.covered;
  }
    where
      open r use {self as x}

  pub fail_read-Tidy :
      (k : Key) (why : ClipError) (r : Run)
      → TidyAt l h r.self
      → TidyAt l h (fail_waiters k why (with_self (end_read k) r)).self
  unfolding fail_waiters Sets.remove
  fail_read-Tidy k why r t = record {
    reads = All-retain _ _ _ x.reading (λ p _ q. q) t.reads;
    fetches = t.fetches;
    cached = t.cached;
    buffered = t.buffered;
    sized = t.sized;
    covered =
        All-retain _ _ _ x.waiting
          (λ w n c. outstanding-remove_read k (key_of w) x.reading x.fetching n c) t.covered;
  }
    where
      open r use {self as x}

  pub serve_read-Tidy :
      (k : Key) (bytes : List ℕ) (r : Run)
      → l ≡ some (k.0)
      → length bytes ≤ r.self.max_bytes
      → TidyAt l h r.self
      → TidyAt l h (serve_waiters k bytes (with_self (end_read k) r)).self
  unfolding serve_waiters Sets.remove
  serve_read-Tidy k bytes r ours fits t = record {
    reads = All-retain _ _ _ x.reading (λ p _ q. q) t.reads;
    fetches = t.fetches;
    cached = Maps.All-insert _ k bytes x.cache (inl ours) t.cached;
    buffered = t.buffered;
    sized = Maps.All-insert _ k bytes x.cache fits t.sized;
    covered =
        All-retain _ _ _ x.waiting
          (λ w n c. outstanding-remove_read k (key_of w) x.reading x.fetching n c) t.covered;
  }
    where
      open r use {self as x}

  -- A new waiter joins a fetch that is under way, or starts it.
  pub start_fetch-Tidy :
      (owner : DeviceId) (k : Key) (who : Waiter) (r : Run)
      → h ≡ some (k.0)
      → TidyAt l h r.self
      → TidyAt l h (start_fetch owner k (wait_for k who r)).self
  unfolding start_fetch wait_for
  start_fetch-Tidy owner k who r held t = elim (Option-cases (Maps.get k x.fetching)) [
    | inl e ↦
        rw (e, start_fetch)
          (record {
            reads = t.reads;
            fetches = Maps.All-insert _ k _ x.fetching held t.fetches;
            cached = t.cached;
            buffered = Maps.All-insert _ k _ x.fetching (omega arith) t.buffered;
            sized = t.sized;
            covered =
                All-append _ x.waiting _
                  (All-map _ _
                    (λ w c.
                      outstanding-insert_fetch k (key_of w) _ x.reading x.fetching (ground arith))
                    x.waiting t.covered)
                  (outstanding-insert_fetch k k _ x.reading x.fetching (rw ==_refl), tt);
          })
    | inr (f, e) ↦
        rw (e, start_fetch)
          (Tidy-waiters _ t (All-append _ x.waiting _ t.covered (rw e (ground arith), tt)))
  ]
    where
      open r use {self as x}

  pub start_read-Tidy :
      (k : Key) (who : Waiter) (r : Run)
      → l ≡ some (k.0)
      → TidyAt l h r.self
      → TidyAt l h (start_read k (wait_for k who r)).self
  unfolding start_read wait_for
  start_read-Tidy k who r ours t = elim (Bool-cases (contains x.reading k)) [
    | inl e ↦ rw e (Tidy-waiters _ t (All-append _ x.waiting _ t.covered (rw e refl, tt)))
    | inr e ↦ rw e (record {
      reads = Sets.All-insert _ k x.reading ours t.reads;
      fetches = t.fetches;
      cached = t.cached;
      buffered = t.buffered;
      sized = t.sized;
      covered =
          All-append _ x.waiting _
            (All-map _ _
              (λ w c. outstanding-insert_read k (key_of w) x.reading x.fetching (ground arith))
              x.waiting t.covered)
            (outstanding-insert_read k k x.reading x.fetching (rw ==_refl), tt);
    })
  ]
    where
      open r use {self as x}
