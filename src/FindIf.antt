-- ===== src/FindIf.antt =====
-- `ChunkFindIf` of ChunkSequence/Primitives/secondary_primitives.h. A run is the list of the chunks
-- that each worker polled.
use plaidlaylib.Prelude.{ℕ, ◌+◌, ◌*◌, ◌==◌, min, Bool, List, [], ◌∷◌, if◌then◌else◌}
use plaidlaylib.Layout.{Layout, epc}
use plaidlaylib.Disk.{Disk}
use plaidlaylib.Chunk.{Chunk, ChunkSeq, count, read_chunk}
use plaidlaylib.Reduce.{remove_worker}
pub mod First

module _ (l : Layout) {A : Type 0} (pred : A → Bool) where
  -- The loop over one chunk from `j` on, which ends at its first match.
  pub scan_for : ℕ → ℕ → ℕ → List A → ℕ
  scan_for best idx j [] = best
  scan_for best idx j (x ∷ buf) =
      let rest = scan_for best idx (j + 1) buf in
      if pred x then min best (idx * epc l + j) else rest

  pub find_worker : Disk A → ℕ → List Chunk → ℕ
  unfolding scan_for
  find_worker d best [] = best
  find_worker d best (c ∷ polled) =
      find_worker d (scan_for best c.index 0 (read_chunk l d c)) polled

  pub sum_used : ChunkSeq → ℕ
  sum_used [] = 0
  sum_used (c ∷ cs) = count l c + sum_used cs

  pub least : ℕ → List ℕ → ℕ
  least result [] = result
  least result (v ∷ locals) = least (min result v) locals

  pub chunk_find_if : Disk A → ChunkSeq → List (List Chunk) → ℕ
  unfolding find_worker sum_used least remove_worker
  chunk_find_if d seq polled =
      let n = sum_used seq in if n == 0 then 0 else least n (remove_worker (find_worker d n) polled)
