-- ===== src/DensePack/Buffers/Alive.antt =====
-- No buffer is freed while a worker still needs it.
use plaidlaylib.Prelude.{
  ℕ, ◌+◌, ◌-◌, ◌≤◌, ◌<◌, ◌≡◌, refl, ◌&&◌, ◌==◌, ltb, leb, if◌then◌else◌, arith, ◌⊎◌, inl, inr,
}
use plaidlaylib.DensePack.Buffers.{
  Stage, waiting, computed, dropped_own, finished, BufferState, drop_input, consumers,
  drop_halo_input, Step, compute, drop_own, drop_halo, Reach, all_waiting, next,
}

abbrev pub own_drops : Stage → ℕ
own_drops waiting = 0
own_drops computed = 0
own_drops dropped_own = 1
own_drops finished = 1

abbrev pub halo_drops : Stage → ℕ
halo_drops waiting = 0
halo_drops computed = 0
halo_drops dropped_own = 0
halo_drops finished = 1

module _ (n_in halo : ℕ) where
  -- Each counter is what its consumers have not dropped yet, and a buffer is freed, once, when its
  -- counter is 0.
  pub record IsCounted (s : BufferState) : Type 0 where
    pub counted :
        (j : ℕ)
        → j < n_in
        → s.in_rc j
            + own_drops (s.stage j)
            + (if ltb 0 halo && leb 1 j then halo_drops (s.stage (j - 1)) else 0)
          ≡ consumers n_in halo j
    pub frees : (j : ℕ) → j < n_in → s.freed j ≡ (if s.in_rc j == 0 then 1 else 0)
    pub idle : (j : ℕ) → n_in ≤ j → s.stage j ≡ waiting

  Step-IsCounted : {s t : BufferState} → Step n_in halo s t → IsCounted s → IsCounted t
  unfolding drop_input drop_halo_input
  Step-IsCounted {s} (compute i h e) v = record {
    counted = λ j below. ground (arith, v.counted j below);
    frees = v.frees;
    idle = λ j past. ground (arith, v.idle j past);
  }
  Step-IsCounted {s} (drop_own i e) v = record {
    counted = λ j below. ground (arith, v.counted j below, v.counted i);
    frees = λ j below. ground (arith, v.counted i, v.frees i, v.frees j below);
    idle = λ j past. ground (arith, v.idle j past);
  }
  Step-IsCounted {s} (drop_halo i e) v = record {
    counted = λ j below. ground (arith, v.counted j below, v.counted i, v.counted (i + 1));
    frees = λ j below. ground (arith, v.counted (i + 1), v.frees (i + 1), v.frees j below);
    idle = λ j past. ground (arith, v.idle j past);
  }

  -- Reachable states are counted.
  pub Reach-IsCounted : {k : ℕ} {s : BufferState} → Reach n_in halo k s → IsCounted s
  Reach-IsCounted all_waiting = record {
    counted = λ j below. ground arith;
    frees = λ j below. ground arith;
    idle = λ j past. refl;
  }
  Reach-IsCounted (next r step) = Step-IsCounted step (Reach-IsCounted r)

  -- However the workers' steps interleave, the buffers that the worker of chunk `i` reads, its own
  -- and with a halo the next, are not freed before it has computed its run.
  pub compute-alive :
      {k : ℕ} {s : BufferState} (i j : ℕ)
      → Reach n_in halo k s
      → i < n_in
      → j < n_in
      → (s.stage i ≡ waiting) ⊎ (s.stage i ≡ computed)
      → (j ≡ i) ⊎ ((0 < halo) × (j ≡ i + 1))
      → s.freed j ≡ 0
  compute-alive i j r below within early (inl own) =
      let v = Reach-IsCounted r in ground (arith, v.counted j within, v.frees j within)
  compute-alive i j r below within early (inr beside) =
      let v = Reach-IsCounted r in ground (arith, v.counted j within, v.frees j within)
