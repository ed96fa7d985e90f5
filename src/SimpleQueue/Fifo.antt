-- ===== src/SimpleQueue/Fifo.antt =====
-- The queue delivers what is pushed, once, in order.
use plaidlaylib.Prelude.{
  ◌≡◌, refl, sym, ap, ◌∙◌, Bool, true, false, ◌&&◌, Option, none, some, Option-cases, List, [], ◌∷◌,
  ◌++◌, append_assoc, append-nil, ltb, leb, if◌then◌else◌, length, inl, inr,
}
use mathlib.Core.Option.{some-injective, none-ne-some}
use plaidlaylib.SimpleQueue.{
  SimpleQueue, Timeout, forever, at_once, microseconds, Action, pushes, polls, closes, reopens,
  limits, delivered, quietly, poll_empty, poll_queue, step, run,
}

module _ {T : Type 0} where
  -- What an operation adds.
  abbrev pub pushed_by : Action T → List T
  pushed_by (pushes x) = x ∷ []
  pushed_by (polls t) = []
  pushed_by closes = []
  pushed_by reopens = []
  pushed_by (limits n) = []

  abbrev pub pushed_in : List (Action T) → List T
  pushed_in [] = []
  pushed_in (a ∷ actions) = pushed_by a ++ pushed_in actions

  -- An operation that is guarded by a test.
  guarded :
      (s after : SimpleQueue T) (out : List T) (b : Bool)
      → quietly (if b then none else some s) ≡ some (after, out)
      → s.queue ≡ out ++ after.queue
  guarded s after out true e = absurd (none-ne-some _ e)
  guarded s after out false e =
      ap (λ (z : SimpleQueue T × List T). z.1 ++ z.0.queue) (some-injective _ _ e)

  delivered-poll_empty : (t : Timeout) (b : Bool) → delivered (poll_empty {T = T} t b) ≡ []
  unfolding poll_empty
  delivered-poll_empty t false = refl
  delivered-poll_empty forever true = refl
  delivered-poll_empty at_once true = refl
  delivered-poll_empty (microseconds true) true = refl
  delivered-poll_empty (microseconds false) true = refl

  poll_queue-fifo :
      (t : Timeout) (q : SimpleQueue T) (xs : List T)
      → q.queue ≡ xs
      → q.queue ++ [] ≡ delivered (poll_queue t q xs).0 ++ (poll_queue t q xs).1.queue
  unfolding poll_queue
  poll_queue-fifo t q [] e =
      append-nil q.queue ∙ ap (λ out. out ++ q.queue) (sym (delivered-poll_empty t q.is_open))
  poll_queue-fifo t q (x ∷ xs) e = append-nil q.queue ∙ e

  -- One operation: what was in the queue or came in is in it or went out.
  step-fifo :
      (a : Action T) (q after : SimpleQueue T) (out : List T)
      → step a q ≡ some (after, out)
      → q.queue ++ pushed_by a ≡ out ++ after.queue
  unfolding step
  step-fifo (pushes x) q after out e =
      guarded (record q { queue = q.queue ++ (x ∷ []) }) after out
        (ltb 0 q.size_limit && leb q.size_limit (length q.queue)) e
  step-fifo (polls t) q after out e =
      poll_queue-fifo t q q.queue refl
      ∙ ap (λ (z : SimpleQueue T × List T). z.1 ++ z.0.queue) (some-injective _ _ e)
  step-fifo closes q after out e =
      append-nil q.queue
      ∙ ap (λ (z : SimpleQueue T × List T). z.1 ++ z.0.queue) (some-injective _ _ e)
  step-fifo reopens q after out e =
      append-nil q.queue
      ∙ guarded (record q { is_open = true }) after out (ltb 0 (length q.queue)) e
  step-fifo (limits n) q after out e =
      append-nil q.queue
      ∙ ap (λ (z : SimpleQueue T × List T). z.1 ++ z.0.queue) (some-injective _ _ e)

  -- Whatever operations the threads do in whatever order, what the polls deliver and then what is
  -- left in the queue is what was in it and then what was pushed: nothing is lost, doubled or
  -- overtaken.
  pub run-fifo :
      (actions : List (Action T)) (q last : SimpleQueue T) (out : List T)
      → run actions q ≡ some (last, out)
      → q.queue ++ pushed_in actions ≡ out ++ last.queue
  unfolding run
  run-fifo [] q last out e =
      append-nil q.queue
      ∙ ap (λ (z : SimpleQueue T × List T). z.1 ++ z.0.queue) (some-injective _ _ e)
  run-fifo (a ∷ actions) q last out e = elim (Option-cases (step a q)) [
    | inl stuck ↦ absurd (none-ne-some _ (sym (ap (then_run actions) stuck) ∙ e))
    | inr ((after, now), ok) ↦ elim (Option-cases (run actions after)) [
      | inl stuck ↦
          absurd (none-ne-some _ (sym (ap (then_run actions) ok ∙ ap (then_out now) stuck) ∙ e))
      | inr ((end, later), done) ↦
          let both = sym (ap (then_run actions) ok ∙ ap (then_out now) done) ∙ e in
          sym (append_assoc q.queue (pushed_by a) (pushed_in actions))
          ∙ ap (λ t. t ++ pushed_in actions) (step-fifo a q after now ok)
          ∙ append_assoc now after.queue (pushed_in actions)
          ∙ ap (λ t. now ++ t) (run-fifo actions after end later done)
          ∙ sym (append_assoc now later end.queue)
          ∙ ap (λ (z : SimpleQueue T × List T). z.1 ++ z.0.queue) (some-injective _ _ both)
    ]
  ]
    where
      then_out : List T → Option (SimpleQueue T × List T) → Option (SimpleQueue T × List T)
      then_out now none = none
      then_out now (some (end, later)) = some (end, now ++ later)

      then_run : List (Action T) → Option (SimpleQueue T × List T) → Option (SimpleQueue T × List T)
      then_run actions none = none
      then_run actions (some (after, now)) = then_out now (run actions after)
