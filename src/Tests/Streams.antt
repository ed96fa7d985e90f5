-- ===== src/Tests/Streams.antt =====
-- The theorems on the dispatcher and the input buffers at small inputs.
use plaidlaylib.Prelude.{ℕ, ◌≡◌, refl, some, inr, [], ◌∷◌, arith, ◌==◌, ltb, if◌then◌else◌}
use plaidlaylib.DensePack.Dispatch.{DispatchState, nothing_landed, dispatch}
use plaidlaylib.DensePack.Dispatch.Released.{times_in, dispatch-releases_all}
use plaidlaylib.DensePack.Buffers.{
  waiting, computed, dropped_own, finished, BufferState, Step, Reach, all_read, all_waiting, next,
  compute, drop_own, drop_halo, drop_input, drop_halo_input,
}
use plaidlaylib.DensePack.Buffers.Alive.{compute-alive}
use plaidlaylib.DensePack.Buffers.Drained.{stuck-freed}
use plaidlaylib.DensePack.Dispatch.Released.{is_ready, dispatch-releases_ready}
use plaidlaylib.Writer.{occurs}

dispatch-releases_ready_example :
    (t : DispatchState) × (dispatch 3 1 2 (2 ∷ 1 ∷ []) nothing_landed ≡ some t)
    × ((i : ℕ)
        → times_in i t.ready ≡ (if is_ready 3 1 (λ j. occurs j (2 ∷ 1 ∷ [])) i then 1 else 0))
dispatch-releases_ready_example = dispatch-releases_ready 3 1 (2 ∷ 1 ∷ [])

dispatch-releases_all_example :
    (t : DispatchState) × (dispatch 3 1 3 (2 ∷ 0 ∷ 1 ∷ []) nothing_landed ≡ some t)
    × ((i : ℕ) → times_in i t.ready ≡ (if ltb i 3 then 1 else 0))
dispatch-releases_all_example =
    dispatch-releases_all 3 1 (2 ∷ 0 ∷ 1 ∷ []) refl (omega arith, (omega arith, (omega arith, tt)))
      (λ i h. ground arith)

-- Two chunks with a halo: chunk 0 is computed.
one_computed :
    Reach 2 1 1 (record (all_read 2 1) { stage = λ j. if j == 0 then computed else waiting })
one_computed = next all_waiting (compute 0 (omega arith) refl)

compute-alive_example : (all_read 2 1).freed 1 ≡ 0
compute-alive_example =
    compute-alive 2 1 0 1 one_computed (omega arith) (omega arith) (inr refl)
      (inr (omega arith, refl))

-- One chunk, done.
abbrev done : BufferState
done =
    drop_halo_input 1 0 0
      (record (drop_input 0 (record (all_read 1 0) {
        stage = λ j. if j == 0 then dropped_own else (if j == 0 then computed else waiting);
      })) {
        stage = λ j.
            if j == 0
            then finished
            else (if j == 0 then dropped_own else (if j == 0 then computed else waiting));
      })

done-Reach : Reach 1 0 3 done
unfolding drop_input drop_halo_input
done-Reach =
    next (next (next all_waiting (compute 0 (omega arith) refl)) (drop_own 0 refl))
      (drop_halo 0 refl)

done-stuck : (t : BufferState) → ¬ Step 1 0 done t
unfolding drop_input drop_halo_input
done-stuck t (compute i h e) = ground arith
done-stuck t (drop_own i e) = ground arith
done-stuck t (drop_halo i e) = ground arith

stuck-freed_example : done.freed 0 ≡ 1
stuck-freed_example = stuck-freed 1 0 0 done-Reach done-stuck (omega arith)
