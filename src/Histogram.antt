-- ===== src/Histogram.antt =====
-- `ChunkHistogramByIndex` and `ChunkHistogramByKey` of ChunkSequence/Primitives/secondary_primitives.h.
-- A run is the list of the chunks that each worker polled. `none` is a failed CHECK; the unkeyed
-- version has none, and an id past the end, a write out of bounds there, changes nothing here.
use plaidlaylib.Prelude.{
  ℕ, suc, ◌+◌, Option, none, some, ◌>>=◌, List, [], ◌∷◌, ltb, if◌then◌else◌, get_or, set, replicate,
}
use plaidlaylib.Layout.{Layout}
use plaidlaylib.Disk.{Disk}
use plaidlaylib.Chunk.{Chunk, read_chunk}
use plaidlaylib.Reduce.{remove_worker}
pub mod Counted
pub mod Ids

-- `h[j]++`
pub increment_at : List ℕ → ℕ → List ℕ
increment_at h j = set h j (get_or h j 0 + 1)

-- `total[j] += h[j]` for every bucket.
pub add_counts : List ℕ → List ℕ → List ℕ
add_counts [] h = []
add_counts (t ∷ total) [] = t ∷ total
add_counts (t ∷ total) (c ∷ h) = (t + c) ∷ add_counts total h

pub count_ids : List ℕ → List ℕ → List ℕ
unfolding increment_at
count_ids h [] = h
count_ids h (j ∷ ids) = count_ids (increment_at h j) ids

pub sum_counts : List ℕ → List (List ℕ) → List ℕ
unfolding add_counts
sum_counts total [] = total
sum_counts total (h ∷ locals) = sum_counts (add_counts total h) locals

module _ (l : Layout) where
  pub index_worker : Disk ℕ → List ℕ → List Chunk → List ℕ
  unfolding count_ids
  index_worker d h [] = h
  index_worker d h (c ∷ polled) = index_worker d (count_ids h (read_chunk l d c)) polled

  pub chunk_histogram_by_index : Disk ℕ → ℕ → List (List Chunk) → List ℕ
  unfolding index_worker sum_counts remove_worker
  chunk_histogram_by_index d num_unique polled =
      sum_counts (replicate num_unique 0)
        (remove_worker (index_worker d (replicate num_unique 0)) polled)

  module _ {A : Type 0} (d : Disk A) (num_buckets : ℕ) (key_fn : A → ℕ) where
    pub count_keys : List ℕ → List A → Option (List ℕ)
    unfolding increment_at
    count_keys h [] = some h
    count_keys h (x ∷ buf) =
        let rest = count_keys (increment_at h (key_fn x)) buf in
        if ltb (key_fn x) num_buckets then rest else none

    pub key_worker : List ℕ → List Chunk → Option (List ℕ)
    unfolding count_keys
    key_worker h [] = some h
    key_worker h (c ∷ polled) = count_keys h (read_chunk l d c) >>= λ h'. key_worker h' polled

    -- A worker that fails its CHECK ends the program.
    pub sum_locals : List ℕ → List (Option (List ℕ)) → Option (List ℕ)
    unfolding add_counts
    sum_locals total [] = some total
    sum_locals total (local ∷ locals) = local >>= λ h. sum_locals (add_counts total h) locals

    pub chunk_histogram_by_key : List (List Chunk) → Option (List ℕ)
    unfolding key_worker sum_locals remove_worker
    chunk_histogram_by_key polled =
        sum_locals (replicate num_buckets 0)
          (remove_worker (key_worker (replicate num_buckets 0)) polled)
