-- ===== src/SimpleQueue/Waits.antt =====
-- The pushers that wait on `writer_cond` of `SimpleQueue`, ChunkSequence/Primitives/chunk_seq.h. Each
-- step is what one thread does while it holds the mutex. A sleeping pusher runs again only once a
-- notification, or a spurious wake-up, lets it; then it repeats its test. The limit is set before the
-- threads start: `SetSizeLimit` takes no mutex and notifies nobody, so it is no step here.
use plaidlaylib.Prelude.{
  ℕ, zero, suc, ◌+◌, ◌<◌, ◌≡◌, ◌⊎◌, Option, none, some, List, [], ◌∷◌, ◌++◌, ltb, if◌then◌else◌,
  length,
}
use plaidlaylib.SimpleQueue.{
  SimpleQueue, new_queue, Timeout, Polled, finish, timed_out, success, waits, push, poll, close,
  reopen,
}
pub mod Awake

-- The queue, the values of the pushers that sleep, and of those that have been woken and have not
-- got the mutex yet.
pub record Waiters (T : Type 0) : Type 0 where
  pub q : SimpleQueue T
  pub asleep : List T
  pub woken : List T

module _ {T : Type 0} where
  -- Entry `i`, if there is one, and the others.
  pub pick : ℕ → List T → List T × List T
  pick i [] = ([], [])
  pick zero (x ∷ xs) = (x ∷ [], xs)
  pick (suc i) (x ∷ xs) = let (taken, rest) = pick i xs in (taken, x ∷ rest)

  -- What the test of `Push` leads to: sleep, or the push.
  pub turn_after : T → Waiters T → Option (SimpleQueue T) → Waiters T
  turn_after x s none = record s { asleep = s.asleep ++ (x ∷ []) }
  turn_after x s (some after) = record s { q = after }

  -- One turn of the loop of `Push`.
  unfoldable pub push_turn : T → Waiters T → Waiters T
  unfolding turn_after
  push_turn x s = turn_after x s (push x s.q)

  pub turns : List T → Waiters T → Waiters T
  unfolding push_turn
  turns [] s = s
  turns (x ∷ xs) s = turns xs (push_turn x s)

  -- `writer_cond.notify_one()`; which sleeper it wakes is up to the library.
  pub notify_one : ℕ → Waiters T → Waiters T
  unfolding pick
  notify_one i s =
      let (taken, rest) = pick i s.asleep in record s { asleep = rest; woken = s.woken ++ taken }

  -- The end of `Poll`.
  pub notify_after : Polled T → ℕ → Waiters T → Waiters T
  unfolding notify_one
  notify_after finish i s = s
  notify_after timed_out i s = s
  notify_after (success x) i s = if ltb 0 s.q.size_limit then notify_one i s else s
  notify_after waits i s = s

  unfoldable pub poll_notify : Timeout → ℕ → Waiters T → Waiters T
  unfolding notify_after
  poll_notify timeout i s =
      let (result, after) = poll timeout s.q in notify_after result i (record s { q = after })

  -- A woken pusher gets the mutex.
  pub retry : ℕ → Waiters T → Waiters T
  unfolding pick turns
  retry i s = let (taken, rest) = pick i s.woken in turns taken (record s { woken = rest })

  pub data WaitStep (s : Waiters T) : Waiters T → Type 0 where
    arrives : (x : T) → WaitStep s (push_turn x s)
    retries : (i : ℕ) → i < length s.woken → WaitStep s (retry i s)
    wakes : (i : ℕ) → i < length s.asleep → WaitStep s (notify_one i s)
    polls :
        (timeout : Timeout) (i : ℕ)
        → (i < length s.asleep) ⊎ (s.asleep ≡ [])
        → WaitStep s (poll_notify timeout i s)
    closes : WaitStep s (record s { q = close s.q })
    reopens :
        (after : SimpleQueue T) → reopen s.q ≡ some after → WaitStep s (record s { q = after })

  pub data WaitReach (size_limit : ℕ) : Waiters T → Type 0 where
    nobody : WaitReach size_limit (record { q = new_queue size_limit; asleep = []; woken = [] })
    next : {s t : Waiters T} → WaitReach size_limit s → WaitStep s t → WaitReach size_limit t
