-- ===== src/DensePack/Buffers/Drained.antt =====
-- When the workers are done, every buffer has been freed.
use plaidlaylib.Prelude.{ℕ, ◌-◌, ◌<◌, ◌≡◌, refl, arith}
use plaidlaylib.DensePack.Buffers.{
  Stage, waiting, computed, dropped_own, finished, BufferState, Step, compute, drop_own, drop_halo,
  Reach,
}
use plaidlaylib.DensePack.Buffers.Alive.{IsCounted, Reach-IsCounted}

module _ (n_in halo : ℕ) where
  stuck-finished :
      {s : BufferState}
      → IsCounted n_in halo s
      → ((t : BufferState) → ¬ Step n_in halo s t)
      → (i : ℕ) → i < n_in
      → s.stage i ≡ finished
  stuck-finished {s} v stuck i below = go (s.stage i) refl
    where
      go : (st : Stage) → s.stage i ≡ st → s.stage i ≡ finished
      go waiting e = absurd (stuck _ (compute i below e))
      go computed e = absurd (stuck _ (drop_own i e))
      go dropped_own e = absurd (stuck _ (drop_halo i e))
      go finished e = e

  -- When no worker has a step left, every input buffer has been freed, once.
  pub stuck-freed :
      {k : ℕ} {s : BufferState} (j : ℕ)
      → Reach n_in halo k s
      → ((t : BufferState) → ¬ Step n_in halo s t)
      → j < n_in
      → s.freed j ≡ 1
  stuck-freed j r stuck below =
      let v = Reach-IsCounted n_in halo r in
      let own = stuck-finished v stuck j below in
      let before = stuck-finished v stuck (j - 1) (omega arith) in
      ground (arith, v.counted j below, v.frees j below)
