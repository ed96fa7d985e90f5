-- ===== src/Histogram/Ids.antt =====
-- The unkeyed histogram counts ids as the keyed one does.
use mathlib.Core.List.{Permᴰ}
use mathlib.Core.Option.{some-injective}
use plaidlaylib.Prelude.{
  ℕ, ◌<◌, ◌≡◌, refl, sym, ap, subst, ◌∙◌, some, ◌>>=◌, List, [], ◌∷◌, map, All, lt→ltb, concat,
  replicate, tabulate_from,
}
use plaidlaylib.Layout.{Layout}
use plaidlaylib.Disk.{Disk}
use plaidlaylib.Chunk.{Chunk, ChunkSeq, read_chunk, contents}
use plaidlaylib.Reindex.Contents.{contents-append}
use plaidlaylib.Histogram.{
  increment_at, add_counts, count_ids, sum_counts, index_worker, chunk_histogram_by_index,
  count_keys, key_worker, sum_locals, chunk_histogram_by_key,
}
use plaidlaylib.Histogram.Counted.{count_key, All-split, chunk_histogram_by_key-counts}

module _ (l : Layout) (d : Disk ℕ) (n : ℕ) where
  abbrev Ids : List ℕ → Type 0
  Ids = All (λ x. x < n)

  count_ids-keys : (h xs : List ℕ) → Ids xs → count_keys l d n (λ x. x) h xs ≡ some (count_ids h xs)
  unfolding count_keys count_ids
  count_ids-keys h [] small = refl
  count_ids-keys h (x ∷ xs) small =
      rw (lt→ltb x n small.0) (count_ids-keys (increment_at h x) xs small.1)

  index_worker-keys :
      (h : List ℕ) (cs : List Chunk)
      → Ids (contents l d cs)
      → key_worker l d n (λ x. x) h cs ≡ some (index_worker l d h cs)
  unfolding key_worker index_worker
  index_worker-keys h [] small = refl
  index_worker-keys h (c ∷ cs) small =
      let (here, later) = All-split (λ x. x < n) (read_chunk l d c) (contents l d cs) small in
      ap (λ o. o >>= λ t. key_worker l d n (λ x. x) t cs) (count_ids-keys h (read_chunk l d c) here)
      ∙ index_worker-keys (count_ids h (read_chunk l d c)) cs later

  sum_counts-locals :
      (total : List ℕ) (polled : List (List Chunk))
      → Ids (contents l d (concat polled))
      → sum_locals l d n (λ x. x) total (map (key_worker l d n (λ x. x) (replicate n 0)) polled)
        ≡ some (sum_counts total (map (index_worker l d (replicate n 0)) polled))
  unfolding sum_locals sum_counts
  sum_counts-locals total [] small = refl
  sum_counts-locals total (cs ∷ polled) small =
      let (here, later) =
        All-split (λ x. x < n) (contents l d cs) (contents l d (concat polled))
          (subst Ids (contents-append l d cs (concat polled)) small) in
      ap
        (λ o. o >>= λ h.
          sum_locals l d n (λ x. x) (add_counts total h)
            (map (key_worker l d n (λ x. x) (replicate n 0)) polled))
        (index_worker-keys (replicate n 0) cs here)
      ∙ sum_counts-locals (add_counts total (index_worker l d (replicate n 0) cs)) polled later

  -- Where every element is below `num_unique`, `ChunkHistogramByIndex` returns how often each id
  -- occurs, however the chunks of the sequence reach the workers.
  pub chunk_histogram_by_index-counts :
      (polled : List (List Chunk)) (seq : ChunkSeq)
      → Permᴰ (concat polled) seq
      → Ids (contents l d (concat polled))
      → chunk_histogram_by_index l d n polled
        ≡ tabulate_from 0 n (λ j. count_key (λ x. x) j (contents l d seq))
  unfolding chunk_histogram_by_index chunk_histogram_by_key
  chunk_histogram_by_index-counts polled seq p small = some-injective _ _ (
      sym (sum_counts-locals (replicate n 0) polled small)
      ∙ chunk_histogram_by_key-counts (λ x. x) n l d polled seq p small)
