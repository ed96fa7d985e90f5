-- ===== src/Reverse.antt =====
-- `reverse` of ChunkSequence/Primitives/secondary_primitives.h: each chunk's elements in place, then
-- the order of the chunks. The chunks are handled in parallel, in any order.
use mathlib.Core.List
use plaidlaylib.Prelude.{ℕ, zero, suc, ◌+◌, ◌-◌, List, [], ◌∷◌, ltb, if◌then◌else◌, get_or, set}
use plaidlaylib.Layout.{Layout}
use plaidlaylib.Disk.{Disk, write_block}
use plaidlaylib.Chunk.{Chunk, ChunkSeq, count}
use plaidlaylib.Transform.{renumber}
pub mod Swapped
pub mod Reversed

module _ {A : Type 0} (zero_elem : A) where
  -- `for (i, j; i < j; i++, j--) std::swap(buf[i], buf[j])`, at most `fuel` times.
  pub swap_ends : ℕ → ℕ → ℕ → List A → List A
  swap_ends zero i j buf = buf
  swap_ends (suc fuel) i j buf =
      let swapped = set (set buf i (get_or buf j zero_elem)) j (get_or buf i zero_elem) in
      let rest = swap_ends fuel (i + 1) (j - 1) swapped in if ltb i j then rest else buf

  module _ (l : Layout) where
    pub reverse_chunk_contents : Chunk → Disk A → Disk A
    unfolding swap_ends
    reverse_chunk_contents c d =
        let n = count l c in
        if ltb n 2
        then d
        else write_block c.filename c.begin_addr (swap_ends n 0 (n - 1) (d c.filename c.begin_addr))
            d

    pub reverse_chunks : List Chunk → Disk A → Disk A
    unfolding reverse_chunk_contents
    reverse_chunks [] d = d
    reverse_chunks (c ∷ order) d = reverse_chunks order (reverse_chunk_contents c d)

    -- `order` is that in which the parallel loop handles the chunks.
    pub reverse : List Chunk → Disk A → ChunkSeq → ChunkSeq × Disk A
    unfolding reverse_chunks renumber
    reverse order d seq = (renumber 0 (List.reverse seq), reverse_chunks order d)
