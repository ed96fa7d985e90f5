-- ===== src/SimpleQueue/Waits/Awake.antt =====
-- No notification of `SimpleQueue` is lost.
use plaidlaylib.Prelude.{
  ℕ, zero, suc, ◌+◌, ◌≤◌, ◌<◌, ◌≡◌, refl, sym, ap, subst, Bool, true, false, ◌⊎◌, inl, inr, none,
  some, List, [], ◌∷◌, ◌++◌, ltb, leb, ◌&&◌, Bool-cases, length, length-append, arith,
}
use mathlib.Core.Option.{some-injective, none-ne-some}
use plaidlaylib.SimpleQueue.{
  SimpleQueue, Timeout, forever, at_once, microseconds, push, poll, poll_queue, poll_empty, close,
  reopen,
}
use plaidlaylib.SimpleQueue.Waits.{
  Waiters, pick, turn_after, push_turn, turns, notify_one, notify_after, poll_notify, retry,
  WaitStep, arrives, retries, wakes, polls, closes, reopens, WaitReach, nobody, next,
}

module _ {T : Type 0} where
  length-pick : (i : ℕ) (xs : List T) → length (pick i xs).0 + length (pick i xs).1 ≡ length xs
  unfolding pick
  length-pick i [] = omega arith
  length-pick zero (x ∷ xs) = omega arith
  length-pick (suc i) (x ∷ xs) = omega (arith, length-pick i xs)

  length-picked : (i : ℕ) (xs : List T) → i < length xs → length (pick i xs).0 ≡ 1
  unfolding pick
  length-picked i [] h = absurd (omega arith)
  length-picked zero (x ∷ xs) h = omega arith
  length-picked (suc i) (x ∷ xs) h = length-picked i xs (omega arith)

  turn-full :
      (x : T) (s : Waiters T)
      → (ltb 0 s.q.size_limit && leb s.q.size_limit (length s.q.queue)) ≡ true
      → push_turn x s ≡ record s { asleep = s.asleep ++ (x ∷ []) }
  unfolding push_turn turn_after push
  turn-full x s full = ap (turn_after x s) {x = push x s.q} {y = none} (rw full refl)

  turn-free :
      (x : T) (s : Waiters T)
      → (ltb 0 s.q.size_limit && leb s.q.size_limit (length s.q.queue)) ≡ false
      → push_turn x s ≡ record s { q = record s.q { queue = s.q.queue ++ (x ∷ []) } }
  unfolding push_turn turn_after push
  turn-free x s free =
      ap (turn_after x s) {x = push x s.q} {y = some (record s.q { queue = s.q.queue ++ (x ∷ []) })}
        (rw free refl)

  poll_empty-quiet :
      (timeout : Timeout) (is_open : Bool) (i : ℕ) (s : Waiters T)
      → notify_after (poll_empty timeout is_open) i s ≡ s
  unfolding poll_empty notify_after
  poll_empty-quiet timeout false i s = refl
  poll_empty-quiet forever true i s = refl
  poll_empty-quiet at_once true i s = refl
  poll_empty-quiet (microseconds true) true i s = refl
  poll_empty-quiet (microseconds false) true i s = refl

  module _ (size_limit : ℕ) where
    -- A bounded queue is within its limit, and where a pusher sleeps, the queue, the woken pushers
    -- and `others` more fill it.
    record IsAwake (others : ℕ) (s : Waiters T) : Type 0 where
      limit : s.q.size_limit ≡ size_limit
      within : 0 < size_limit → length s.q.queue ≤ size_limit
      bounded : 0 < length s.asleep → 0 < size_limit
      filled : 0 < length s.asleep → size_limit ≤ length s.q.queue + length s.woken + others

    more : {s : Waiters T} → IsAwake 0 s → IsAwake 1 s
    more v = record {
      limit = v.limit;
      within = v.within;
      bounded = v.bounded;
      filled = λ h. omega (arith, v.filled h);
    }

    -- The turn of a pusher that was woken, or has just come.
    push_turn-IsAwake : (x : T) (s : Waiters T) → IsAwake 1 s → IsAwake 0 (push_turn x s)
    push_turn-IsAwake x s v =
        elim (Bool-cases (ltb 0 s.q.size_limit && leb s.q.size_limit (length s.q.queue))) [
          | inl full ↦ subst (IsAwake 0) (sym (turn-full x s full)) (record {
            limit = v.limit;
            within = v.within;
            bounded = λ h. ground (arith, full, v.limit);
            filled = λ h. ground (arith, full, v.limit);
          })
          | inr free ↦ subst (IsAwake 0) (sym (turn-free x s free)) (record {
            limit = v.limit;
            within = λ h. ground (arith, free, v.limit, length-append s.q.queue (x ∷ []));
            bounded = v.bounded;
            filled = λ h. omega (arith, v.filled h, length-append s.q.queue (x ∷ []));
          })
        ]

    turns-IsAwake :
        (taken : List T) (s : Waiters T)
        → length taken ≡ 1
        → IsAwake 1 s
        → IsAwake 0 (turns taken s)
    unfolding turns
    turns-IsAwake [] s e v = absurd (omega arith)
    turns-IsAwake (x ∷ []) s e v = push_turn-IsAwake x s v
    turns-IsAwake (x ∷ y ∷ taken) s e v = absurd (omega arith)

    retry-IsAwake :
        (i : ℕ) (s : Waiters T) → i < length s.woken → IsAwake 0 s → IsAwake 0 (retry i s)
    unfolding retry
    retry-IsAwake i s h v =
        turns-IsAwake (pick i s.woken).0 (record s { woken = (pick i s.woken).1 })
          (length-picked i s.woken h)
          (record {
            limit = v.limit;
            within = v.within;
            bounded = v.bounded;
            filled = λ sleeping.
                omega (arith, v.filled sleeping, length-picked i s.woken h, length-pick i s.woken);
          })

    -- A notification wakes a sleeper, if there is one.
    notify_one-IsAwake :
        (i : ℕ) (s : Waiters T)
        → (i < length s.asleep) ⊎ (s.asleep ≡ [])
        → IsAwake 1 s
        → IsAwake 0 (notify_one i s)
    unfolding notify_one
    notify_one-IsAwake i s (inl some_sleeper) v = record {
      limit = v.limit;
      within = v.within;
      bounded = λ h. v.bounded (omega arith);
      filled = λ h. omega (
        arith,
        v.filled (omega arith),
        length-picked i s.asleep some_sleeper,
        length-append s.woken (pick i s.asleep).0,
      );
    }
    notify_one-IsAwake i s (inr nobody_sleeps) v = record {
      limit = v.limit;
      within = v.within;
      bounded = λ h. absurd (omega (arith, h, length-pick i s.asleep, ap length nobody_sleeps));
      filled = λ h. absurd (omega (arith, h, length-pick i s.asleep, ap length nobody_sleeps));
    }

    poll_queue-IsAwake :
        (timeout : Timeout) (i : ℕ) (s : Waiters T) (xs : List T)
        → s.q.queue ≡ xs
        → (i < length s.asleep) ⊎ (s.asleep ≡ [])
        → IsAwake 0 s
        → IsAwake 0 (
            notify_after
              (poll_queue timeout s.q xs).0
              i
              (record s { q = (poll_queue timeout s.q xs).1 }))
    unfolding poll_queue notify_after
    poll_queue-IsAwake timeout i s [] e h v =
        subst (IsAwake 0) (sym (poll_empty-quiet timeout s.q.is_open i s)) v
    poll_queue-IsAwake timeout i s (x ∷ xs) e h v =
        let one_less = ap length e in
        elim (Bool-cases (ltb 0 s.q.size_limit)) [
          | inl some_limit ↦ rw some_limit (
              notify_one-IsAwake i (record s { q = record s.q { queue = xs } }) h
                (record {
                  limit = v.limit;
                  within = λ pos. omega (arith, v.within pos, one_less);
                  bounded = v.bounded;
                  filled = λ sleeping. omega (arith, v.filled sleeping, one_less);
                }))
          | inr no_limit ↦ rw no_limit (record {
            limit = v.limit;
            within = λ pos. omega (arith, v.within pos, one_less);
            bounded = v.bounded;
            filled = λ sleeping. ground (arith, no_limit, v.limit);
          })
        ]

    poll-IsAwake :
        (timeout : Timeout) (i : ℕ) (s : Waiters T)
        → (i < length s.asleep) ⊎ (s.asleep ≡ [])
        → IsAwake 0 s
        → IsAwake 0 (poll_notify timeout i s)
    unfolding poll_notify poll
    poll-IsAwake timeout i s h v = poll_queue-IsAwake timeout i s s.q.queue refl h v

    reopen-IsAwake :
        (s : Waiters T) (after : SimpleQueue T)
        → reopen s.q ≡ some after
        → IsAwake 0 s
        → IsAwake 0 (record s { q = after })
    unfolding reopen
    reopen-IsAwake s after e v = elim (Bool-cases (ltb 0 (length s.q.queue))) [
      | inl left_over ↦ absurd (none-ne-some after (rw left_over at e))
      | inr drained ↦
          subst (λ (z : SimpleQueue T). IsAwake 0 (record s { q = z }))
            (some-injective _ _ (rw drained at e))
            (record { limit = v.limit; within = v.within; bounded = v.bounded; filled = v.filled })
    ]

    WaitStep-IsAwake : {s t : Waiters T} → WaitStep s t → IsAwake 0 s → IsAwake 0 t
    unfolding close
    WaitStep-IsAwake {s} (arrives x) v = push_turn-IsAwake x s (more v)
    WaitStep-IsAwake {s} (retries i h) v = retry-IsAwake i s h v
    WaitStep-IsAwake {s} (wakes i h) v = notify_one-IsAwake i s (inl h) (more v)
    WaitStep-IsAwake {s} (polls timeout i h) v = poll-IsAwake timeout i s h v
    WaitStep-IsAwake closes v = record {
      limit = v.limit;
      within = v.within;
      bounded = v.bounded;
      filled = v.filled;
    }
    WaitStep-IsAwake {s} (reopens after e) v = reopen-IsAwake s after e v

    WaitReach-IsAwake : {s : Waiters T} → WaitReach size_limit s → IsAwake 0 s
    WaitReach-IsAwake nobody = record {
      limit = refl;
      within = λ h. omega arith;
      bounded = λ h. absurd (omega arith);
      filled = λ h. absurd (omega arith);
    }
    WaitReach-IsAwake (next r step) = WaitStep-IsAwake step (WaitReach-IsAwake r)

    -- However pushes, polls, wake-ups and notifications interleave, under a limit that does not
    -- change, a bounded queue stays within it, and where a pusher sleeps and every woken one has
    -- run, the queue is bounded and exactly full: no notification is lost.
    pub no_lost_wakeup :
        {s : Waiters T}
        → WaitReach size_limit s
        → (0 < size_limit → length s.q.queue ≤ size_limit)
          × (0 < length s.asleep
              → length s.woken ≡ 0
              → (0 < size_limit) × (length s.q.queue ≡ size_limit))
    no_lost_wakeup r =
        let v = WaitReach-IsAwake r in
        (
          v.within,
          λ sleeping all_ran.
              let pos = v.bounded sleeping in
              (pos, omega (arith, v.within pos, v.filled sleeping, all_ran)),
        )
