-- ===== src/DensePack/Dispatch.antt =====
-- The dispatcher thread of `DensePackStream`, ChunkSequence/Primitives/chunk_seq.h: it releases a
-- chunk to the workers as soon as the chunk and, with a halo, its right neighbour have landed.
use plaidlaylib.Prelude.{
  ℕ, zero, suc, ◌+◌, ◌-◌, Bool, true, false, ◌&&◌, ◌||◌, not, Option, none, some, List, [], ◌∷◌,
  ◌++◌, ◌==◌, ltb, leb, if◌then◌else◌,
}
pub mod Released

-- `present`, `pushed`, and what was pushed to the queue `ready`.
pub record DispatchState : Type 0 where
  pub present : ℕ → Bool
  pub pushed : ℕ → Bool
  pub ready : List ℕ

abbrev pub nothing_landed : DispatchState
nothing_landed = record { present = λ i. false; pushed = λ i. false; ready = [] }

-- `flags[i] = 1`
abbrev pub set_flag : (ℕ → Bool) → ℕ → ℕ → Bool
set_flag flags i j = if j == i then true else flags j

module _ (n_in halo : ℕ) where
  pub halo_ready : (ℕ → Bool) → ℕ → Bool
  halo_ready present i = halo == 0 || (i + 1 == n_in) || present (i + 1)

  pub try_push : ℕ → DispatchState → DispatchState
  unfolding halo_ready
  try_push i s =
      if s.pushed i || not (s.present i)
      then s
      else if not (halo_ready s.present i)
      then s
      else record { present = s.present; pushed = set_flag s.pushed i; ready = s.ready ++ (i ∷ []) }

  -- The body of the loop, for the chunk that `Poll` hands over.
  pub land_chunk : ℕ → DispatchState → DispatchState
  unfolding try_push
  land_chunk cidx s =
      let own = try_push cidx (record s { present = set_flag s.present cidx }) in
      if ltb 0 halo && leb 1 cidx then try_push (cidx - 1) own else own

  -- The loop has `k` turns left. `none` is the CHECK on a `Poll` with no buffer.
  pub dispatch : ℕ → List ℕ → DispatchState → Option DispatchState
  unfolding land_chunk
  dispatch zero polled s = some s
  dispatch (suc k) [] s = none
  dispatch (suc k) (cidx ∷ polled) s = dispatch k polled (land_chunk cidx s)
