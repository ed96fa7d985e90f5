-- ===== src/DensePack/Buffers.antt =====
-- The input buffers of `DensePackStream`, ChunkSequence/Primitives/chunk_seq.h, and the workers that
-- consume and drop them. A worker takes a chunk that the dispatcher has released, computes its run
-- from its own buffer and the next, and drops both; the workers' steps interleave in any way.
use plaidlaylib.Prelude.{
  ℕ, zero, suc, ◌+◌, ◌-◌, ◌≤◌, ◌<◌, ◌≡◌, Bool, true, false, ◌&&◌, ◌==◌, ltb, leb, if◌then◌else◌,
}
pub mod Alive
pub mod Drained

-- How far the worker of a chunk has come.
pub data Stage : Type 0 where
  waiting : Stage
  computed : Stage
  dropped_own : Stage
  finished : Stage

-- `in_rc`, and how often each buffer has been freed.
pub record BufferState : Type 0 where
  pub stage : ℕ → Stage
  pub in_rc : ℕ → ℕ
  pub freed : ℕ → ℕ

abbrev pub set_stage : (ℕ → Stage) → ℕ → Stage → ℕ → Stage
set_stage stage i st j = if j == i then st else stage j

-- `if (in_rc[j].fetch_sub(1) == 1) reader.allocator.Free(inbuf[j])`
unfoldable pub drop_input : ℕ → BufferState → BufferState
drop_input j s = record s {
  in_rc = λ k. if k == j then s.in_rc j - 1 else s.in_rc k;
  freed = λ k. if k == j && s.in_rc j == 1 then s.freed j + 1 else s.freed k;
}

module _ (n_in halo : ℕ) where
  -- The consumers of a buffer: its own chunk, and the chunk before as its halo, if any.
  abbrev pub consumers : ℕ → ℕ
  consumers j = 1 + (if ltb 0 halo && leb 1 j then 1 else 0)

  abbrev pub all_read : BufferState
  all_read = record { stage = λ i. waiting; in_rc = consumers; freed = λ j. 0 }

  -- `if (halo > 0 && i + 1 < n_in) drop_input(i + 1)`
  unfoldable pub drop_halo_input : ℕ → BufferState → BufferState
  unfolding drop_input
  drop_halo_input i s = if ltb 0 halo && ltb (i + 1) n_in then drop_input (i + 1) s else s

  -- One step of a worker.
  pub data Step (s : BufferState) : BufferState → Type 0 where
    compute :
        (i : ℕ)
        → i < n_in
        → s.stage i ≡ waiting
        → Step s (record s { stage = set_stage s.stage i computed })
    drop_own :
        (i : ℕ)
        → s.stage i ≡ computed
        → Step s (drop_input i (record s { stage = set_stage s.stage i dropped_own }))
    drop_halo :
        (i : ℕ)
        → s.stage i ≡ dropped_own
        → Step s (drop_halo_input i (record s { stage = set_stage s.stage i finished }))

  -- The states that the workers reach from the start, with the number of their steps.
  pub data Reach : ℕ → BufferState → Type 0 where
    all_waiting : Reach 0 all_read
    next : {k : ℕ} {s t : BufferState} → Reach k s → Step s t → Reach (suc k) t
