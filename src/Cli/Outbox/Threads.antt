-- ===== src/Cli/Outbox/Threads.antt =====
-- crates/smkvm-cli/src/secure/outbox.rs: posters and the drain at once, each step of theirs by itself.
use smkvm.Base.{
  zero, ℕ, suc, ◌+◌, ◌%◌, ◌^◌, ◌≤◌, ◌<◌, ltb, ◌≡◌, refl, Bool-cases, ap, inl, inr, Option, none,
  some, List, [], ◌∷◌, ◌++◌, arith,
}
use smkvm.Base.Lists.{length}
use smkvm.Cli.Outbox.{
  Posted, sent, no_room, gone, Outbox, with_room_for, try_send, count, missed, put_back, recv,
  uncount,
}

-- The outbox, how many posters have their message in and have not counted it, the message that the
-- drain has taken out and not counted, which there is one of at most since a `Receiver` stays with
-- one thread, and what `next` has returned, in order.
pub record Shared (T : Type 0) : Type 0 where
  pub outbox : Outbox T
  pub uncounted : ℕ
  pub in_hand : Option T
  pub returned : List T

pub data Act (T : Type 0) : Type 0 where
  sends : T → Act T
  counts takes discounts misses : Act T
  puts_back : ℕ → Act T

module _ {T : Type 0} where
  unfoldable pub start : ℕ → Shared T
  unfolding with_room_for
  start room = record { outbox = with_room_for room; uncounted = 0; in_hand = none; returned = [] }

  -- After `try_send`, a refusal is counted; a success is counted by a step of its own.
  unfoldable pub answered : Posted → Outbox T → Shared T → Shared T
  unfolding count
  answered sent o s = record s { outbox = o; uncounted = suc s.uncounted }
  answered (no_room n) o s = record s { outbox = count (no_room n) o }
  answered gone o s = s

  -- One step of some thread. `next` is two: it takes a message out, then counts it and returns it. A
  -- step whose thread is not there to make it does nothing.
  unfoldable pub act : Act T → Shared T → Shared T
  unfolding try_send answered count recv uncount missed put_back
  act (sends m) s = let r = try_send m s.outbox in answered r.1 r.0 s
  act counts s = elim s.uncounted [
    | zero ↦ s
    | suc n ↦ record s { outbox = count sent s.outbox; uncounted = n }
  ]
  act takes s = elim s.in_hand [
    | some held ↦ s
    | none ↦ record s { outbox = (recv s.outbox).0; in_hand = (recv s.outbox).1 }
  ]
  act discounts s = elim s.in_hand [
    | none ↦ s
    | some m ↦ record s {
      outbox = uncount s.outbox;
      in_hand = none;
      returned = s.returned ++ m ∷ [];
    }
  ]
  act misses s = record s { outbox = (missed s.outbox).0 }
  act (puts_back n) s = record s { outbox = put_back n s.outbox }

  unfoldable pub run : List (Act T) → Shared T → Shared T
  unfolding act
  run [] s = s
  run (a ∷ rest) s = run rest (act a s)

  abbrev pub one_if_some : Option T → List T
  one_if_some none = []
  one_if_some (some m) = m ∷ []

  -- The messages that posters have put in and that `next` has not counted.
  abbrev depth : Shared T → ℕ
  depth s = length s.outbox.queue + length (one_if_some s.in_hand)

  -- What is counted is what is in the channel, up to what the threads have still to count.
  abbrev IsCounted : Shared T → Type 0
  IsCounted s =
      (length s.outbox.queue ≤ s.outbox.room)
      × ((s.outbox.waiting + s.uncounted) % 2 ^ 64 ≡ depth s % 2 ^ 64)
      × (s.outbox.waiting < 2 ^ 64)
      × (s.outbox.room < 2 ^ 64)

  length-append_one : (xs : List T) (x : T) → length (xs ++ x ∷ []) ≡ length xs + 1
  length-append_one [] x = refl
  length-append_one (y ∷ ys) x = omega (arith, length-append_one ys x)

  sends-IsCounted : (m : T) (s : Shared T) → IsCounted s → IsCounted (act (sends m) s)
  unfolding act try_send answered count
  sends-IsCounted m s h = elim (Bool-cases s.outbox.draining) [
    | inr e ↦ rw e h
    | inl e ↦ elim (Bool-cases (ltb (length s.outbox.queue) s.outbox.room)) [
      | inr f ↦ rw (e, f) h
      | inl f ↦
          let fits : length s.outbox.queue ≤ s.outbox.room = h.0 in
          let same : (s.outbox.waiting + s.uncounted) % 2 ^ 64 ≡ depth s % 2 ^ 64 = h.1 in
          rw (e, f, length-append_one s.outbox.queue m) (ground arith, omega arith, h.2, h.3)
    ]
  ]

  act-IsCounted : (a : Act T) (s : Shared T) → IsCounted s → IsCounted (act a s)
  unfolding act count recv uncount missed put_back
  act-IsCounted (sends m) s h = sends-IsCounted m s h
  act-IsCounted counts s h =
      elim s.uncounted
          as (λ n.
            IsCounted (record s { uncounted = n })
            → IsCounted (act counts (record s { uncounted = n }))) [
              | zero ↦ λ k. k
              | suc n ↦ λ k.
                  let same : (s.outbox.waiting + suc n) % 2 ^ 64 ≡ depth s % 2 ^ 64 = k.1 in
                  (k.0, omega arith, omega arith, k.3)
            ]
        h
  act-IsCounted takes s h =
      elim s.in_hand
          as (λ n.
            IsCounted (record s { in_hand = n })
            → IsCounted (act takes (record s { in_hand = n }))) [
              | some held ↦ λ k. k
              | none ↦ λ k. counted_takes s.outbox.queue k
            ]
        h
    where
      counted_takes :
          (q : List T)
          → IsCounted (record s { in_hand = none; outbox = record (s.outbox) { queue = q } })
          → IsCounted
              (act takes (record s { in_hand = none; outbox = record (s.outbox) { queue = q } }))
      counted_takes [] k = k
      counted_takes (m ∷ q) k =
          let fits : suc (length q) ≤ s.outbox.room = k.0 in
          let same : (s.outbox.waiting + s.uncounted) % 2 ^ 64 ≡ (suc (length q) + 0) % 2 ^ 64 =
            k.1 in
          (omega arith, omega arith, k.2, k.3)
  act-IsCounted discounts s h =
      elim s.in_hand
          as (λ n.
            IsCounted (record s { in_hand = n })
            → IsCounted (act discounts (record s { in_hand = n }))) [
              | none ↦ λ k. k
              | some m ↦ λ k.
                  let same : (s.outbox.waiting + s.uncounted) % 2 ^ 64
                      ≡ (length s.outbox.queue + 1) % 2 ^ 64 =
                    k.1 in
                  (k.0, omega arith, omega arith, k.3)
            ]
        h
  act-IsCounted misses s h = h
  act-IsCounted (puts_back n) s h = h

  run-IsCounted : (acts : List (Act T)) (s : Shared T) → IsCounted s → IsCounted (run acts s)
  unfolding run
  run-IsCounted [] s h = h
  run-IsCounted (a ∷ rest) s h = run-IsCounted rest (act a s) (act-IsCounted a s h)

start-IsCounted : (T : Type 0) (room : ℕ) → room < 2 ^ 64 → IsCounted (start {T = T} room)
unfolding start
start-IsCounted T room small = (omega arith, refl, omega arith, small)

module _ {T : Type 0} where
  -- For a channel with room for one message at least, whatever the posters and the drain do, in any
  -- order: the channel never has more messages than it has room for, and whenever none of them is
  -- between a message and its count, the depth that the outbox tells is the number of messages in
  -- the channel.
  pub waiting-run :
      (room : ℕ) (acts : List (Act T))
      → 0 < room
      → room < 2 ^ 64
      → (length (run acts (start room)).outbox.queue ≤ (run acts (start room)).outbox.room)
        × ((run acts (start room)).uncounted ≡ 0
            → (run acts (start room)).in_hand ≡ none
            → (run acts (start room)).outbox.waiting ≡ length (run acts (start room)).outbox.queue)
  waiting-run room acts some_room small =
      let k = run-IsCounted acts (start room) (start-IsCounted T room small) in
      (k.0, (λ u t. settled (run acts (start room)) k u t))
    where
      settled :
          (s : Shared T)
          → IsCounted s
          → s.uncounted ≡ 0
          → s.in_hand ≡ none
          → s.outbox.waiting ≡ length s.outbox.queue
      settled s k u t =
          let fits : length s.outbox.queue ≤ s.outbox.room = k.0 in
          let none_held : length (one_if_some s.in_hand) ≡ 0 = ap (λ n. length (one_if_some n)) t in
          let same : (s.outbox.waiting + s.uncounted) % 2 ^ 64 ≡ depth s % 2 ^ 64 = k.1 in
          let a : s.outbox.waiting < 2 ^ 64 = k.2 in
          let b : s.outbox.room < 2 ^ 64 = k.3 in omega arith
