-- ===== src/Primitives/FlatTabulate.antt =====
-- What `ChunkFlatTabulate` returns.
use Prim.Native.String.{String}
use plaidlaylib.Prelude.{
  ℕ, zero, suc, ◌+◌, ◌≤◌, ◌<◌, ◌≡◌, refl, sym, ap, ◌∙◌, subst, List, ◌∷◌, length, take, drop, arith,
  concat, tabulate_from, ◌==◌, false, length-tabulate_from,
}
use plaidlaylib.Layout.{Layout, IsLayout, epc, grid_num_chunks}
use plaidlaylib.Disk.{Disk}
use plaidlaylib.Chunk.{contents, IsWellFormed}
use plaidlaylib.Tabulate.{Run, IsRun}
use plaidlaylib.DensePack.Batch.{dense_pack, pack_all}
use plaidlaylib.DensePack.Batch.Contents.{dense_pack-contents}
use plaidlaylib.Primitives.{chunk_flat_tabulate, virtual_run}

module _ {A : Type 0} (f : ℕ → A) where
  take-tabulate_from : (s n k : ℕ) → n ≤ k → take n (tabulate_from s k f) ≡ tabulate_from s n f
  take-tabulate_from s zero k h = refl
  take-tabulate_from s (suc n) zero h = absurd (omega arith)
  take-tabulate_from s (suc n) (suc k) h =
      ap (◌∷◌ (f s)) (take-tabulate_from (s + 1) n k (omega arith))

  -- A stretch of a tabulated list is tabulated.
  pub slice-tabulate_from :
      (s base n k : ℕ)
      → base + n ≤ k
      → tabulate_from (s + base) n f ≡ take n (drop base (tabulate_from s k f))
  slice-tabulate_from s zero n k h =
      ap (λ t. tabulate_from t n f) {x = s + 0} {y = s} (omega arith)
      ∙ sym (take-tabulate_from s n k (omega arith))
  slice-tabulate_from s (suc base) n zero h = absurd (omega arith)
  slice-tabulate_from s (suc base) n (suc k) h =
      ap (λ t. tabulate_from t n f) {x = s + suc base} {y = s + 1 + base} (omega arith)
      ∙ slice-tabulate_from (s + 1) base n k (omega arith)

module _ (l : Layout) (w : IsLayout l) {R : Type 0} (zero_elem : R) (r : Run)
    (prefix : String) where
  -- `ChunkFlatTabulate` of a range that is not empty returns a well-formed sequence that reads back
  -- as the results of its virtual chunks, one behind the other, if draws are in range and
  -- every write lands.
  pub chunk_flat_tabulate-contents :
      (n : ℕ) (f : ℕ → ℕ → List R) (d : Disk R)
      → 0 < n
      → IsRun r (
          length
            (pack_all l zero_elem r prefix
              (λ base batch_n. tabulate_from base batch_n (virtual_run l n f))
              (grid_num_chunks (epc l) n)).out_chunks)
      → let (out, d') = chunk_flat_tabulate l zero_elem r n prefix f d in
        (contents l d' out
          ≡ concat (tabulate_from 0 (grid_num_chunks (epc l) n) (virtual_run l n f)))
        × IsWellFormed l d' out
  unfolding chunk_flat_tabulate
  chunk_flat_tabulate-contents n f d pos run =
      let produce = λ (base batch_n : ℕ). tabulate_from base batch_n (virtual_run l n f) in
      let runs = tabulate_from 0 (grid_num_chunks (epc l) n) (virtual_run l n f) in
      let size : length runs ≡ grid_num_chunks (epc l) n =
        length-tabulate_from 0 (grid_num_chunks (epc l) n) (virtual_run l n f) in
      let some_left : (n == 0) ≡ false = ground arith in
      rw some_left (
        subst
          (λ k.
            let (out, d') = dense_pack l zero_elem r prefix k produce d in
            (contents l d' out ≡ concat runs) × IsWellFormed l d' out)
          size
          (dense_pack-contents l w zero_elem r prefix produce runs d
            (λ base k h.
              ap (λ t. tabulate_from t k (virtual_run l n f)) {x = base} {y = 0 + base}
                (omega arith)
              ∙ slice-tabulate_from (virtual_run l n f) 0 base k (grid_num_chunks (epc l) n)
                  (omega (arith, size)))
            (subst (λ k. IsRun r (length (pack_all l zero_elem r prefix produce k).out_chunks))
              (sym size) run)))
