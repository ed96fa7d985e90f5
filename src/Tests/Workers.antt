-- ===== src/Tests/Workers.antt =====
-- The theorems on the queue, the reduction and the scan at concrete inputs.
use plaidlaylib.Prelude.{
  ℕ, ◌+◌, ◌≤◌, ◌<◌, ◌≡◌, refl, false, some, List, [], ◌∷◌, arith, length, ◌++◌,
}
use plaidlaylib.Chunk.{contents}
use plaidlaylib.Reduce.{chunk_reduce}
use plaidlaylib.Reduce.Fold.{IsMonoid, fold_left, chunk_reduce-fold_left}
use plaidlaylib.SimpleQueue.{Action, pushes, polls, closes, at_once, run, new_queue, push, poll}
use plaidlaylib.SimpleQueue.Fifo.{pushed_in, run-fifo}
use plaidlaylib.SimpleQueue.Waits.{Waiters, push_turn, poll_notify, WaitReach, arrives}
use plaidlaylib.SimpleQueue.Waits.Awake.{no_lost_wakeup}
use mathlib.Core.List.Permᴰ
use plaidlaylib.Tests.Fixtures.{small, stored, five}

abbrev some_actions : List (Action ℕ)
some_actions = pushes 7 ∷ pushes 8 ∷ polls at_once ∷ closes ∷ []

run-some_actions :
    run some_actions (new_queue 2)
    ≡ some (record { queue = 8 ∷ []; size_limit = 2; is_open = false }, 7 ∷ [])
unfolding run
run-some_actions = refl

run-fifo_example : [] ++ pushed_in some_actions ≡ (7 ∷ []) ++ (8 ∷ [])
run-fifo_example =
    run-fifo some_actions (new_queue 2) (record { queue = 8 ∷ []; size_limit = 2; is_open = false })
      (7 ∷ []) run-some_actions

-- One pusher sleeps on a queue of one element; a poll wakes it.
abbrev one_sleeper : Waiters ℕ
one_sleeper = push_turn 6 (push_turn 5 (record { q = new_queue 1; asleep = []; woken = [] }))

one_sleeper-WaitReach : WaitReach 1 one_sleeper
one_sleeper-WaitReach = WaitReach.next (WaitReach.next WaitReach.nobody (arrives 5)) (arrives 6)

one_sleeper-asleep : one_sleeper.asleep ≡ 6 ∷ []
unfolding push_turn push
one_sleeper-asleep = refl

awoken : (poll_notify at_once 0 one_sleeper).woken ≡ 6 ∷ []
unfolding poll_notify push_turn push poll
awoken = refl

no_lost_wakeup_example :
    (0 < 1 → length one_sleeper.q.queue ≤ 1)
    × (0 < length one_sleeper.asleep
        → length one_sleeper.woken ≡ 0
        → (0 < 1) × (length one_sleeper.q.queue ≡ 1))
no_lost_wakeup_example = no_lost_wakeup 1 one_sleeper-WaitReach

pub add-IsMonoid : IsMonoid ◌+◌ 0
add-IsMonoid = record {
  assoc = λ a b c. omega arith;
  left = λ a. omega arith;
  right = λ a. omega arith;
}

chunk_reduce-fold_left_example :
    chunk_reduce small ◌+◌ 0 stored fold_left (five ∷ [] ∷ [])
    ≡ fold_left ◌+◌ 0 (contents small stored five)
chunk_reduce-fold_left_example =
    chunk_reduce-fold_left ◌+◌ 0 add-IsMonoid small stored fold_left (λ xs. refl)
      (λ a b. omega arith) (five ∷ [] ∷ []) five (Permᴰ.refl five)
