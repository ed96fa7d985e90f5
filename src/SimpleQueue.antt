-- ===== src/SimpleQueue.antt =====
-- `SimpleQueue` of ChunkSequence/Primitives/chunk_seq.h, the bounded queue between readers, workers
-- and writers. `Push`, `Poll`, `Close` and `Reopen` hold the mutex from their test to their change,
-- so each of their turns is one step; `SetSizeLimit` holds none, and is the one store that it does.
-- A turn that ends in a wait on a condition variable changes nothing; Waits has the pushers that
-- sleep there and the notifications that let them run again.
use plaidlaylib.Prelude.{
  ℕ, zero, suc, ◌+◌, Bool, true, false, not, ◌&&◌, Option, none, some, List, [], ◌∷◌, ◌++◌, ltb,
  leb, if◌then◌else◌, length,
}
pub mod Fifo
pub mod Waits

pub record SimpleQueue (T : Type 0) : Type 0 where
  pub queue : List T
  pub size_limit : ℕ
  pub is_open : Bool

-- `timeout`: -1 waits for ever, 0 does not wait, and else the clock may run out.
pub data Timeout : Type 0 where
  forever : Timeout
  at_once : Timeout
  microseconds : Bool → Timeout

-- The value and code that `Poll` returns, or that it waits.
pub data Polled (T : Type 0) : Type 0 where
  finish : Polled T
  timed_out : Polled T
  success : T → Polled T
  waits : Polled T

module _ {T : Type 0} where
  -- The queue that `size_limit` makes.
  abbrev pub new_queue : ℕ → SimpleQueue T
  new_queue size_limit = record { queue = []; size_limit = size_limit; is_open = true }

  -- One turn of the loop of `Push`: `none` where it waits on `writer_cond`.
  unfoldable pub push : T → SimpleQueue T → Option (SimpleQueue T)
  push data_in q =
      if ltb 0 q.size_limit && leb q.size_limit (length q.queue)
      then none
      else some (record q { queue = q.queue ++ (data_in ∷ []) })

  -- On an empty queue.
  pub poll_empty : Timeout → Bool → Polled T
  poll_empty timeout false = finish
  poll_empty forever true = waits
  poll_empty at_once true = timed_out
  poll_empty (microseconds expired) true = if expired then timed_out else waits

  pub poll_queue : Timeout → SimpleQueue T → List T → Polled T × SimpleQueue T
  unfolding poll_empty
  poll_queue timeout q [] = (poll_empty timeout q.is_open, q)
  poll_queue timeout q (ret ∷ rest) = (success ret, record q { queue = rest })

  unfoldable pub poll : Timeout → SimpleQueue T → Polled T × SimpleQueue T
  unfolding poll_queue
  poll timeout q = poll_queue timeout q q.queue

  pub close : SimpleQueue T → SimpleQueue T
  close q = record q { is_open = false }

  -- `none` is the failed CHECK.
  pub reopen : SimpleQueue T → Option (SimpleQueue T)
  reopen q = if ltb 0 (length q.queue) then none else some (record q { is_open = true })

  pub set_size_limit : ℕ → SimpleQueue T → SimpleQueue T
  set_size_limit new_limit q = record q { size_limit = new_limit }

-- One operation of some thread.
pub data Action (T : Type 0) : Type 0 where
  pushes : T → Action T
  polls : Timeout → Action T
  closes : Action T
  reopens : Action T
  limits : ℕ → Action T

module _ {T : Type 0} where
  -- What a poll hands out.
  abbrev pub delivered : Polled T → List T
  delivered finish = []
  delivered timed_out = []
  delivered (success x) = x ∷ []
  delivered waits = []

  -- An operation that hands out nothing.
  abbrev pub quietly : Option (SimpleQueue T) → Option (SimpleQueue T × List T)
  quietly none = none
  quietly (some after) = some (after, [])

  pub step : Action T → SimpleQueue T → Option (SimpleQueue T × List T)
  unfolding push poll close reopen set_size_limit
  step (pushes x) q = quietly (push x q)
  step (polls timeout) q = let (result, after) = poll timeout q in some (after, delivered result)
  step closes q = some (close q, [])
  step reopens q = quietly (reopen q)
  step (limits n) q = some (set_size_limit n q, [])

  -- A sequence of operations, in the order in which they get the mutex.
  unfoldable pub run : List (Action T) → SimpleQueue T → Option (SimpleQueue T × List T)
  unfolding step
  run [] q = some (q, [])
  run (a ∷ actions) q = elim (step a q) [
    | none ↦ none
    | some (after, out) ↦ elim (run actions after) [
      | none ↦ none
      | some (last, outs) ↦ some (last, out ++ outs)
    ]
  ]
