-- ===== src/Core/Exchange/Tidy.antt =====
-- What the exchange's stores hold between two inputs, and how each step keeps it.
pub mod Steps
pub mod Forget
use smkvm.Base.{
  ℕ, ◌≤◌, ◌+◌, ◌≡◌, refl, ◌∙◌, sym, ap, Bool, true, false, not, ◌&&◌, ◌||◌, if◌then◌else◌, Option,
  none, some, List, [], ◌∷◌, ◌++◌, map, ◌⊎◌, Option-cases, Bool-cases, inl, inr, arith,
}
use smkvm.Base.Equality.{PartialEq, pair_eq, pair_ord, Ord, ◌==◌, ==_refl}
use smkvm.Base.Lists.{retain, contains, length, All, All-map, All_of, All-retain, All-append}
use smkvm.Base.Sets
use smkvm.Base.Maps
use smkvm.Layout.Model.{DeviceId}
use smkvm.Proto.Msg.{
  seq_eq, seq_ord, format_eq, format_ord, ClipSeq, ClipFormat, ClipError, seq_beq_iff,
}
use smkvm.Core.Exchange.State.{Waiting, Waiter, Key, Exchange, Run, Fetching}
use smkvm.Core.Exchange.Serve.{
  push, with_self, awaits, serve_waiters, fail_waiters, start_fetch, drop_fetch,
}
use smkvm.Core.Exchange.Machines.{drop_relays, is_relay_to}
use smkvm.Core.Exchange.Fetches.{wait_for, start_read, store_chunk}
use smkvm.Core.Exchange.Effects.{forgotten}

abbrev pub is_some {ℓ} : {A : Type ℓ} → Option A → Bool
is_some none = false
is_some (some a) = true

module _ {ℓ κ} {K : Type ℓ} {V : Type κ} ⦃e : PartialEq K⦄ where
  -- Something is under way that will answer those who wait for `k`.
  abbrev pub outstanding : List K → List (K × V) → K → Bool
  outstanding reading fetching k = contains reading k || is_some (Maps.get k fetching)

  pub outstanding-remove_fetch :
      (k j : K) (R : List K) (F : List (K × V))
      → not (j == k) ≡ true
      → outstanding R F j ≡ true
      → outstanding R (Maps.remove k F) j ≡ true
  outstanding-remove_fetch k j R F n h = ground (arith, Maps.get-remove k j F)

  pub outstanding-remove_read :
      (k j : K) (R : List K) (F : List (K × V))
      → not (j == k) ≡ true
      → outstanding R F j ≡ true
      → outstanding (Sets.remove k R) F j ≡ true
  outstanding-remove_read k j R F n h = ground (arith, Sets.contains-remove k j R)

  pub outstanding-insert_fetch :
      (k j : K) (v : V) (R : List K) (F : List (K × V))
      → (k == j || outstanding R F j) ≡ true
      → outstanding R (Maps.insert k v F) j ≡ true
  outstanding-insert_fetch k j v R F h = ground (arith, Maps.get-insert k j v F)

  pub outstanding-insert_read :
      ⦃o : Ord K⦄ (k j : K) (R : List K) (F : List (K × V))
      → (k == j || outstanding R F j) ≡ true
      → outstanding (Sets.insert k R) F j ≡ true
  outstanding-insert_read k j R F h = ground (arith, Sets.contains-insert k j R)

  pub outstanding-retain :
      (p : K → Bool) (j : K) (R : List K) (F : List (K × V))
      → p j ≡ true
      → outstanding R F j ≡ true
      → outstanding (retain p R) (retain (λ x. p x.0) F) j ≡ true
  outstanding-retain p j R F n h = ground (arith, Sets.contains-retain p R j, Maps.get-retain p j F)

abbrev pub key_of : Waiting → Key
key_of w = (w.seq, w.format)

-- `l` and `h` are the sequences offered locally and held from elsewhere.
pub record Tidy (l h : Option ClipSeq) (max : ℕ) (R : List Key) (F : List (Key × Fetching))
    (C : List (Key × List ℕ)) (W : List Waiting) : Type 0 where
  -- Reads are of the local offer, fetches of the one held, and the cache of either.
  pub reads : All (λ (k : Key). l ≡ some (k.0)) R
  pub fetches : All (λ (p : Key × Fetching). h ≡ some (p.0.0)) F
  pub cached : All (λ (p : Key × List ℕ). (l ≡ some (p.0.0)) ⊎ (h ≡ some (p.0.0))) C
  -- Nothing larger than the limit is kept.
  pub buffered : All (λ (p : Key × Fetching). length p.1.buf ≤ max) F
  pub sized : All (λ (p : Key × List ℕ). length p.1 ≤ max) C
  -- For everyone who waits a read or a fetch is under way.
  pub covered : All (λ (w : Waiting). outstanding R F (key_of w) ≡ true) W

abbrev pub TidyAt : Option ClipSeq → Option ClipSeq → Exchange → Type 0
TidyAt l h x = Tidy l h x.max_bytes x.reading x.fetching x.cache x.waiting
