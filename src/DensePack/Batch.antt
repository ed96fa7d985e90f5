-- ===== src/DensePack/Batch.antt =====
-- `DensePack` of ChunkSequence/Primitives/chunk_seq.h: the producer's runs are packed batch by
-- batch, with the elements that fill no chunk carried to the next batch. The output blocks of a
-- batch are modelled as one buffer, the blocks end to end, where block `k`, offset `off` is position
-- `k * epct + off`; what `aligned_alloc` leaves in them is `zero_elem`.
use Prim.Native.String.{String}
use plaidlaylib.Prelude.{
  ℕ, zero, suc, ◌+◌, ◌-◌, ◌*◌, ◌/◌, ◌%◌, min, List, [], ◌∷◌, ◌==◌, ltb, if◌then◌else◌, length, take,
  drop, replicate, get_or,
}
use plaidlaylib.Layout.{Layout, epc}
use plaidlaylib.Disk.{Disk}
use plaidlaylib.Chunk.{ChunkSeq, copy_at}
use plaidlaylib.Writer.{land}
use plaidlaylib.Tabulate.{Run}
use plaidlaylib.DensePack.{PackState, start, nothing, push_chunk, pack_last, truncate_files}
pub mod Contents

abbrev pub dense_pack_batch_size : ℕ
dense_pack_batch_size = 128

-- The scatter: each run to its prefix-sum offset.
pub scatter : {R : Type 0} → List (List R) → ℕ → List R → List R
scatter [] offset obuf = obuf
scatter (run ∷ runs) offset obuf = scatter runs (offset + length run) (copy_at obuf offset run)

-- `offset[batch_n]`
pub batch_total : {R : Type 0} → List (List R) → ℕ → ℕ
batch_total [] offset = offset
batch_total (run ∷ runs) offset = batch_total runs (offset + length run)

module _ (l : Layout) {R : Type 0} (zero_elem : R) (r : Run) (prefix : String) where
  -- Steps 2 to 4: the filled buffers of a batch.
  pub batch_buffer : List (List R) → List R → List R
  unfolding scatter batch_total
  batch_buffer runs carry =
      let total = batch_total runs (length carry) in
      let num_alloc = total / epc l + (if ltb 0 (total % epc l) then 1 else 0) in
      scatter runs (length carry) (copy_at (replicate (num_alloc * epc l) zero_elem) 0 carry)

  -- Step 5: the first `num_out` blocks of the buffer are pushed.
  pub push_blocks : ℕ → List R → PackState R → PackState R
  unfolding push_chunk
  push_blocks zero obuf s = s
  push_blocks (suc num_out) obuf s =
      push_blocks num_out (drop (epc l) obuf)
        (push_chunk l zero_elem r prefix (take (epc l) obuf) l.chunk_size s)

  -- One batch; step 6 sets the carry.
  pub pack_batch : List (List R) → PackState R → PackState R
  unfolding batch_buffer push_blocks
  pack_batch runs s =
      let total = batch_total runs (length s.cur) in
      let num_out = total / epc l in
      let obuf = batch_buffer runs s.cur in
      let out = push_blocks num_out obuf s in
      record out { cur = take (total % epc l) (drop (num_out * epc l) obuf) }

  -- The loop over `base`; a batch has at least one run, so `num_virtual` turns are enough.
  pub pack_batches : (ℕ → ℕ → List (List R)) → ℕ → ℕ → ℕ → PackState R → PackState R
  unfolding pack_batch
  pack_batches produce num_virtual zero base s = s
  pack_batches produce num_virtual (suc fuel) base s =
      let batch_n = min dense_pack_batch_size (num_virtual - base) in
      let rest =
        pack_batches produce num_virtual fuel (base + dense_pack_batch_size)
          (pack_batch (produce base batch_n) s) in
      if ltb base num_virtual then rest else s

  -- All that is pushed.
  unfoldable pub pack_all : (ℕ → ℕ → List (List R)) → ℕ → PackState R
  unfolding pack_batches pack_last
  pack_all produce num_virtual =
      pack_last l zero_elem r prefix (pack_batches produce num_virtual num_virtual 0 start)

  pub dense_pack : ℕ → (ℕ → ℕ → List (List R)) → Disk R → ChunkSeq × Disk R
  unfolding pack_all truncate_files
  dense_pack num_virtual produce d =
      let s = pack_all produce num_virtual in
      if num_virtual == 0 then ([], d) else (
        s.out_chunks,
        land (λ i. get_or s.pushed i nothing) r.order
            (truncate_files l zero_elem r prefix (length r.ssd_list) d),
      )
