-- ===== src/Core/Exchange/Effects.antt =====
-- What the loops of exchange.rs amount to: forgetting an offer is a filter by its sequence.
use smkvm.Base.{
  ◌≡◌, refl, ◌∙◌, sym, ap, true, not, ◌&&◌, List, [], ◌∷◌, map, Option-cases, inl, inr, arith,
}
use smkvm.Base.Equality.{pair_eq, ◌==◌}
use smkvm.Base.Lists.{retain, contains, All, All-map, All_of, retain_congr, retain-retain}
use smkvm.Base.Sets
use smkvm.Base.Maps
use smkvm.Proto.Msg.{seq_eq, format_eq, format_ord, ClipSeq, ClipFormat, ClipError, format_beq_iff}
use smkvm.Core.Exchange.State.{Waiting, Key, Exchange, Run, Fetching}
use smkvm.Core.Exchange.Serve.{
  awaits, fail_waiters, drop_fetch, cancel_fetch, cancel_fetches, fail_formats, drop_stored,
  cancel_all, fail_stale, fetches_of, stale_formats, forget,
}

-- The exchange with nothing left of the offer `seq`.
unfoldable pub forgotten : ClipSeq → Exchange → Exchange
forgotten seq x = record x {
  cache = retain (λ p. not (p.0.0 == seq)) x.cache;
  reading = retain (λ k. not (k.0 == seq)) x.reading;
  fetching = retain (λ p. not (p.0.0 == seq)) x.fetching;
  waiting = retain (λ w. not (w.seq == seq)) x.waiting;
}

abbrev with_fetching : List (Key × Fetching) → Exchange → Exchange
with_fetching m x = record x { fetching = m }

abbrev with_waiting : List Waiting → Exchange → Exchange
with_waiting ws x = record x { waiting = ws }

self-cancel_fetch :
    (seq : ClipSeq) (k : Key) (r : Run) → (cancel_fetch seq k r).self ≡ drop_fetch k r.self
self-cancel_fetch seq k r = elim (Option-cases (Maps.get k r.self.fetching)) [
  | inl e ↦
      unfold cancel_fetch in
      rw (e, cancel_fetch)
        (ap (λ m. with_fetching m r.self) (sym (Maps.remove_absent k r.self.fetching e)))
  | inr (f, e) ↦ unfold cancel_fetch in rw (e, cancel_fetch)
]

self-cancel_fetches :
    (seq : ClipSeq) (ks : List Key) (r : Run)
    → (cancel_fetches seq ks r).self ≡ with_fetching (Maps.without ks r.self.fetching) r.self
unfolding cancel_fetches drop_fetch
self-cancel_fetches seq [] r =
    ap (λ m. with_fetching m r.self) (sym (Maps.without-nil r.self.fetching))
self-cancel_fetches seq (k ∷ ks) r =
    self-cancel_fetches seq ks (cancel_fetch seq k r)
    ∙ (ap (λ x. with_fetching (Maps.without ks x.fetching) x) (self-cancel_fetch seq k r)
        ∙ ap (λ m. with_fetching m r.self) (Maps.without-remove k ks r.self.fetching))

-- The keys of an offer's fetches are those that go by its sequence.
without-fetches_of :
    (seq : ClipSeq) (x : Exchange)
    → Maps.without (fetches_of seq x) x.fetching ≡ retain (λ p. not (p.0.0 == seq)) x.fetching
without-fetches_of seq x = retain_congr _ _ x.fetching (
    Maps.keys_all (λ k. not (contains (fetches_of seq x) k) ≡ not (k.0 == seq)) x.fetching
      (λ k c.
        rw (Sets.contains-retain (λ (j : Key). j.0 == seq) (Maps.keys x.fetching) k, c)
          (ground arith)))

self-cancel_all :
    (seq : ClipSeq) (r : Run)
    → (cancel_all seq r).self
      ≡ with_fetching (retain (λ p. not (p.0.0 == seq)) r.self.fetching) r.self
self-cancel_all seq r =
    unfold cancel_all in
    (self-cancel_fetches seq (fetches_of seq r.self) r
      ∙ ap (λ m. with_fetching m r.self) (without-fetches_of seq r.self))

abbrev unanswered : ClipSeq → List ClipFormat → List Waiting → List Waiting
unanswered seq fs ws = retain (λ w. not (w.seq == seq && contains fs w.format)) ws

unanswered-nil : (seq : ClipSeq) (ws : List Waiting) → unanswered seq [] ws ≡ ws
unanswered-nil seq [] = refl
unanswered-nil seq (w ∷ ws) = ground (arith, unanswered-nil seq ws)

unanswered-cons :
    (seq : ClipSeq) (f : ClipFormat) (fs : List ClipFormat) (ws : List Waiting)
    → unanswered seq fs (retain (λ w. not (awaits (seq, f) w)) ws) ≡ unanswered seq (f ∷ fs) ws
unanswered-cons seq f fs ws =
    retain-retain (λ w. not (w.seq == seq && contains fs w.format)) (λ w. not (awaits (seq, f) w))
      ws
    ∙ retain_congr _ _ ws (All_of _ flip ws)
  where
    flip :
        (w : Waiting)
        → (not (awaits (seq, f) w) && not (w.seq == seq && contains fs w.format))
          ≡ not (w.seq == seq && contains (f ∷ fs) w.format)
    flip w = ground (arith, format_beq_iff w.format f, format_beq_iff f w.format)

self-fail_formats :
    (seq : ClipSeq) (fs : List ClipFormat) (r : Run)
    → (fail_formats seq fs r).self ≡ with_waiting (unanswered seq fs r.self.waiting) r.self
unfolding fail_formats fail_waiters
self-fail_formats seq [] r =
    ap (λ ws. with_waiting ws r.self) (sym (unanswered-nil seq r.self.waiting))
self-fail_formats seq (f ∷ fs) r =
    self-fail_formats seq fs (fail_waiters (seq, f) ClipError.stale r)
    ∙ ap (λ ws. with_waiting ws r.self) (unanswered-cons seq f fs r.self.waiting)

-- Every waiter of an offer waits for a format that is collected from the waiters.
formats_all :
    (seq : ClipSeq) (P : ClipFormat → Type 0) (ws : List Waiting)
    → ((f : ClipFormat)
        → contains (map (λ w. w.format) (retain (λ w. w.seq == seq) ws)) f ≡ true
        → P f)
    → All (λ w. (w.seq == seq) ≡ true → P w.format) ws
formats_all seq P [] h = tt
formats_all seq P (w ∷ ws) h = (
  λ e. h w.format (rw e (ground (arith, format_beq_iff w.format w.format))),
  formats_all seq P ws (λ f c. h f (ground (arith, c))),
)

unanswered-stale :
    (seq : ClipSeq) (x : Exchange)
    → unanswered seq (stale_formats seq x) x.waiting ≡ retain (λ w. not (w.seq == seq)) x.waiting
unanswered-stale seq x = retain_congr _ _ x.waiting (
    All-map _ _ (λ w h. ground (arith, h)) x.waiting
      (formats_all seq (λ f. contains (stale_formats seq x) f ≡ true) x.waiting
        (λ f c. Sets.contains-collect _ f ∙ c)))

self-fail_stale :
    (seq : ClipSeq) (r : Run)
    → (fail_stale seq r).self
      ≡ with_waiting (retain (λ w. not (w.seq == seq)) r.self.waiting) r.self
self-fail_stale seq r =
    unfold fail_stale in
    (self-fail_formats seq (stale_formats seq r.self) r
      ∙ ap (λ ws. with_waiting ws r.self) (unanswered-stale seq r.self))

-- The loops of `forget` leave of the exchange all that does not go by the sequence, and only that.
pub forget_effect : (seq : ClipSeq) (r : Run) → (forget seq r).self ≡ forgotten seq r.self
forget_effect seq r =
    let stored = drop_stored seq r in
    let step = self-fail_stale seq (cancel_all seq stored) in
    unfold forget forgotten drop_stored in
    (step
      ∙ ap (λ x. with_waiting (retain (λ w. not (w.seq == seq)) x.waiting) x)
          (self-cancel_all seq stored))
