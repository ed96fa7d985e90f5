-- ===== src/Reduce.antt =====
-- `RemoveWorker` of ChunkSequence/Primitives/chunk_seq.h and `ChunkReduce` of
-- ChunkSequence/Primitives/primitives.h, and pass 1 and step 2 of `ChunkScan`. The reader hands its
-- chunks to the workers in any order: a run is the list of the chunks that each worker polled.
-- `parlay::reduce` is a parameter.
use plaidlaylib.Prelude.{ℕ, ◌+◌, List, [], ◌∷◌, map, set}
use plaidlaylib.Layout.{Layout}
use plaidlaylib.Disk.{Disk}
use plaidlaylib.Chunk.{Chunk, read_chunk}
pub mod Fold
pub mod Offsets
pub mod Seeds

-- One accumulator per worker, from the chunks that it polled.
unfoldable pub remove_worker : {A : Type 0} → (List Chunk → A) → List (List Chunk) → List A
remove_worker worker polled = map worker polled

module _ (l : Layout) {R : Type 0} (op : R → R → R) (identity : R) (d : Disk R) where
  -- `for (i < n) local = monoid(local, ptr[i])`
  pub fold_buffer : R → List R → R
  fold_buffer acc [] = acc
  fold_buffer acc (x ∷ buf) = fold_buffer (op acc x) buf

  -- A worker's loop of `ChunkReduce`.
  pub reduce_worker : R → List Chunk → R
  unfolding fold_buffer
  reduce_worker acc [] = acc
  reduce_worker acc (c ∷ polled) = reduce_worker (fold_buffer acc (read_chunk l d c)) polled

  pub chunk_reduce : ((R → R → R) → R → List R → R) → List (List Chunk) → R
  unfolding reduce_worker remove_worker
  chunk_reduce parlay_reduce polled =
      parlay_reduce op identity (remove_worker (reduce_worker identity) polled)

  -- Pass 1 of `ChunkScan`: `chunk_sums[chunk_idx] = local`, in the order in which chunks arrive.
  pub sum_chunks : List Chunk → List R → List R
  unfolding fold_buffer
  sum_chunks [] chunk_sums = chunk_sums
  sum_chunks (c ∷ polled) chunk_sums =
      sum_chunks polled (set chunk_sums c.index (fold_buffer identity (read_chunk l d c)))

  -- Step 2: `offset[i] = run; run = monoid(run, chunk_sums[i])`, and the total.
  pub prefix_sums : List R → R → List R × R
  prefix_sums [] acc = ([], acc)
  prefix_sums (s ∷ chunk_sums) acc =
      let (offset, total) = prefix_sums chunk_sums (op acc s) in (acc ∷ offset, total)
