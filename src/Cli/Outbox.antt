-- ===== src/Cli/Outbox.antt =====
-- crates/smkvm-cli/src/secure/outbox.rs: posting from a thread that must not wait. The channel is the
-- standard library's bounded queue for a room of one message at least; with no room the library
-- has the sender meet the receiver, which is left out. A `usize` has 64 bits and `fetch_add` and
-- `fetch_sub` wrap round.
pub mod Threads
pub mod Order
use smkvm.Base.{
  ℕ, suc, ◌+◌, ◌%◌, ◌^◌, Bool, true, false, not, ltb, if◌then◌else◌, Option, none, some, List, [],
  ◌∷◌, ◌++◌,
}
use smkvm.Base.Lists.{length}

pub data Posted : Type 0 where
  sent : Posted
  no_room : ℕ → Posted
  gone : Posted

unfoldable pub arrived : Posted → Bool
arrived sent = true
arrived _ = false

-- The channel with both ends, and the counters beside it.
pub record Outbox (T : Type 0) : Type 0 where
  pub room : ℕ
  pub queue : List T
  pub draining : Bool
  pub dropped : ℕ
  pub waiting : ℕ

abbrev pub up : ℕ → ℕ
up n = (n + 1) % 2 ^ 64

abbrev pub down : ℕ → ℕ
down n = (n + 18446744073709551615) % 2 ^ 64

module _ {T : Type 0} where
  unfoldable pub with_room_for : ℕ → Outbox T
  with_room_for room = record { room = room; queue = []; draining = true; dropped = 0; waiting = 0 }

  -- `self.send.try_send(message)` as it finds the channel.
  unfoldable pub try_send : T → Outbox T → Outbox T × Posted
  try_send m o =
      if not o.draining
      then (o, gone)
      else if ltb (length o.queue) o.room
      then (record o { queue = o.queue ++ m ∷ [] }, sent)
      else (o, no_room (up o.dropped))

  -- What `post` counts once the channel has answered.
  unfoldable pub count : Posted → Outbox T → Outbox T
  count sent o = record o { waiting = up o.waiting }
  count (no_room n) o = record o { dropped = up o.dropped }
  count gone o = o

  -- Hand over a message, with nobody between the two.
  unfoldable pub post : T → Outbox T → Outbox T × Posted
  unfolding try_send count
  post m o = let r = try_send m o in (count r.1 r.0, r.1)

  unfoldable pub missed : Outbox T → Outbox T × ℕ
  missed o = (record o { dropped = 0 }, o.dropped)

  unfoldable pub put_back : ℕ → Outbox T → Outbox T
  put_back n o = record o { dropped = (o.dropped + n) % 2 ^ 64 }

  -- `self.receive.recv()`, which waits where there is no message.
  unfoldable pub recv : Outbox T → Outbox T × Option T
  recv o = elim o.queue [ [] ↦ (o, none) | m ∷ q ↦ (record o { queue = q }, some m) ]

  -- `self.waiting.fetch_sub(1)`
  unfoldable pub uncount : Outbox T → Outbox T
  uncount o = record o { waiting = down o.waiting }
