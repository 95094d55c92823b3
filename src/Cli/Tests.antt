-- ===== src/Cli/Tests.antt =====
-- A run of an outbox with a poster and the drain, and instances of its theorems.
use smkvm.Base.{true, false, ℕ, ◌-◌, ◌^◌, ◌≤◌, ◌≡◌, refl, none, List, [], ◌∷◌, ◌++◌, arith}
use smkvm.Base.Lists.{length}
use smkvm.Cli.Plan.{
  by_service, Present, NeverBoth, install, apply_all, only, install-NeverBoth, is_daemon,
}
use smkvm.Cli.Outbox.{with_room_for, try_send, count, recv, uncount}
use smkvm.Cli.Outbox.Order.{accepted, returned-run}
use smkvm.Cli.Outbox.Threads.{
  Act, sends, counts, takes, discounts, start, run, act, answered, one_if_some, waiting-run,
}

-- The drain takes a message out and counts it before the poster has counted it.
abbrev hasty : List (Act ℕ)
hasty = sends 7 ∷ takes ∷ discounts ∷ []

-- Then the outbox tells a depth that cannot be, with nothing in the channel.
hasty_waiting :
    ((run hasty (start 4)).outbox.waiting ≡ 2 ^ 64 - 1) × ((run hasty (start 4)).outbox.queue ≡ [])
unfolding run act start with_room_for try_send answered count recv uncount
hasty_waiting = (refl, refl)

-- Once the poster has counted too, the depth is right.
abbrev finished : List (Act ℕ)
finished = sends 7 ∷ takes ∷ discounts ∷ counts ∷ sends 8 ∷ counts ∷ []

finished_idle : ((run finished (start 4)).uncounted ≡ 0) × ((run finished (start 4)).in_hand ≡ none)
unfolding run act start with_room_for try_send answered count recv uncount
finished_idle = (refl, refl)

waiting-run_example :
    (length (run finished (start 4)).outbox.queue ≤ (run finished (start 4)).outbox.room)
    × ((run finished (start 4)).uncounted ≡ 0
        → (run finished (start 4)).in_hand ≡ none
        → (run finished (start 4)).outbox.waiting ≡ length (run finished (start 4)).outbox.queue)
waiting-run_example = waiting-run 4 finished (omega arith) (omega arith)

returned-run_example :
    accepted finished (start 4)
    ≡ (run finished (start 4)).returned
      ++ one_if_some (run finished (start 4)).in_hand
      ++ (run finished (start 4)).outbox.queue
returned-run_example = returned-run 4 finished (omega arith)

abbrev task_there : Present
task_there = record { task = true; service = false }

install-NeverBoth_example :
    NeverBoth (install by_service task_there) task_there
    × (apply_all (install by_service task_there) task_there ≡ only by_service)
install-NeverBoth_example = install-NeverBoth by_service task_there refl

-- The value of a flag is not taken for the command.
logged_run : is_daemon false ("--log-file" ∷ "status" ∷ "run" ∷ []) ≡ true
unfolding is_daemon
logged_run = refl
