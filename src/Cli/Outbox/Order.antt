-- ===== src/Cli/Outbox/Order.antt =====
-- crates/smkvm-cli/src/secure/outbox.rs: no message gets lost between `post` and `next`.
use smkvm.Base.{
  zero, ℕ, suc, ltb, ◌<◌, ◌≡◌, refl, sym, ap, ◌∙◌, Bool-cases, inl, inr, none, some, List, [], ◌∷◌,
  ◌++◌,
}
use mathlib.Core.List.{append-nil, append_assoc}
use smkvm.Base.Lists.{length}
use smkvm.Cli.Outbox.{Posted, sent, with_room_for, try_send, count, recv, uncount}
use smkvm.Cli.Outbox.Threads.{
  Shared, Act, sends, counts, takes, discounts, misses, puts_back, start, act, answered, run,
  one_if_some,
}

module _ {T : Type 0} where
  abbrev one_if_sent : T → Posted → List T
  one_if_sent m sent = m ∷ []
  one_if_sent m _ = []

  -- The messages for which `post` answers that they were sent, over a run.
  unfoldable pub accepted : List (Act T) → Shared T → List T
  unfolding act
  accepted [] s = []
  accepted (sends m ∷ rest) s =
      one_if_sent m (try_send m s.outbox).1 ++ accepted rest (act (sends m) s)
  accepted (a ∷ rest) s = accepted rest (act a s)

  -- All that `next` has returned, has in its hand, or will find.
  abbrev kept : Shared T → List T
  kept s = s.returned ++ one_if_some s.in_hand ++ s.outbox.queue

  kept-sends :
      (m : T) (s : Shared T)
      → kept (act (sends m) s) ≡ kept s ++ one_if_sent m (try_send m s.outbox).1
  unfolding act try_send answered count
  kept-sends m s = elim (Bool-cases s.outbox.draining) [
    | inr e ↦ rw e (sym (append-nil (kept s)))
    | inl e ↦ elim (Bool-cases (ltb (length s.outbox.queue) s.outbox.room)) [
      | inr f ↦ rw (e, f) (sym (append-nil (kept s)))
      | inl f ↦
          let front = s.returned ++ one_if_some s.in_hand in
          rw (e, f) (sym (append_assoc front s.outbox.queue (m ∷ [])))
    ]
  ]

  kept-counts : (s : Shared T) → kept (act counts s) ≡ kept s
  unfolding act count
  kept-counts s =
      elim s.uncounted as (λ n. kept (act counts (record s { uncounted = n })) ≡ kept s) [
        | zero ↦ refl
        | suc n ↦ refl
      ]

  kept-discounts : (s : Shared T) → kept (act discounts s) ≡ kept s
  unfolding act uncount
  kept-discounts s =
      elim s.in_hand
        as (λ h.
          kept (act discounts (record s { in_hand = h })) ≡ kept (record s { in_hand = h })) [
            | none ↦ refl
            | some m ↦ ap (λ l. l ++ s.outbox.queue) (append-nil (s.returned ++ m ∷ []))
          ]

  kept-takes : (s : Shared T) → kept (act takes s) ≡ kept s
  unfolding act recv
  kept-takes s =
      elim s.in_hand
        as (λ h. kept (act takes (record s { in_hand = h })) ≡ kept (record s { in_hand = h })) [
          | some m ↦ refl
          | none ↦ from_queue s.outbox.queue
        ]
    where
      from_queue :
          (q : List T)
          → kept (act takes (record s { in_hand = none; outbox = record (s.outbox) { queue = q } }))
            ≡ s.returned ++ [] ++ q
      from_queue [] = refl
      from_queue (m ∷ q) =
          append_assoc s.returned (m ∷ []) q ∙ ap (λ l. l ++ m ∷ q) (sym (append-nil s.returned))

  kept-run : (acts : List (Act T)) (s : Shared T) → kept (run acts s) ≡ kept s ++ accepted acts s
  unfolding accepted run
  kept-run [] s = sym (append-nil (kept s))
  kept-run (sends m ∷ rest) s =
      let one = one_if_sent m (try_send m s.outbox).1 in
      let t = act (sends m) s in
      kept-run rest t
      ∙ ap (λ l. l ++ accepted rest t) (kept-sends m s)
      ∙ append_assoc (kept s) one (accepted rest t)
  kept-run (takes ∷ rest) s =
      let t = act takes s in kept-run rest t ∙ ap (λ l. l ++ accepted rest t) (kept-takes s)
  kept-run (counts ∷ rest) s =
      let t = act counts s in kept-run rest t ∙ ap (λ l. l ++ accepted rest t) (kept-counts s)
  kept-run (discounts ∷ rest) s =
      let t = act discounts s in kept-run rest t ∙ ap (λ l. l ++ accepted rest t) (kept-discounts s)
  kept-run (misses ∷ rest) s = kept-run rest (act misses s)
  kept-run (puts_back n ∷ rest) s = kept-run rest (act (puts_back n) s)

  -- For a channel with room for one message at least, whatever the posters and the drain do, in any
  -- order: the messages for which `post` has answered that they were sent are, each once and in the
  -- order in which they were sent, those that `next` has returned, the one that it is about to
  -- return, and those in the channel. A refused message is none of them.
  pub returned-run :
      (room : ℕ) (acts : List (Act T))
      → 0 < room
      → accepted acts (start room)
        ≡ (run acts (start room)).returned
          ++ one_if_some (run acts (start room)).in_hand
          ++ (run acts (start room)).outbox.queue
  unfolding start with_room_for
  returned-run room acts some_room = sym (kept-run acts (start room))
