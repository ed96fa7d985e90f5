-- ===== src/Materialize.antt =====
-- `materialize`, `sequential_materialize`, `scan_find` and `find` of
-- ChunkSequence/Primitives/secondary_primitives.h. The chunks of a run are a list in the order in
-- which they are polled; each is copied to the place that its index dictates.
use plaidlaylib.Prelude.{
  ℕ, suc, ◌+◌, ◌-◌, Option, none, some, List, [], ◌∷◌, map, length, ltb, leb, ◌==◌, if◌then◌else◌,
  get_elem?, get_or, replicate, tabulate_from,
}
use plaidlaylib.Layout.{Layout}
use plaidlaylib.Disk.{Disk}
use plaidlaylib.Chunk.{Chunk, ChunkSeq, count, read_chunk, copy_at, sort_by_indices}
use plaidlaylib.Delayed.{Node, chunk_values}
pub mod Scattered
pub mod Contents
pub mod Probes

-- `elem_offset[i + 1] = elem_offset[i] + sizes[i]`
pub elem_offsets : ℕ → List ℕ → List ℕ
elem_offsets acc [] = acc ∷ []
elem_offsets acc (n ∷ sizes) = acc ∷ elem_offsets (acc + n) sizes

-- Each polled buffer goes to the offset of its index.
pub scatter_polled : {A : Type 0} → List ℕ → List (ℕ × List A) → List A → List A
unfolding copy_at
scatter_polled elem_offset [] out = out
scatter_polled elem_offset ((chunk_idx, buf) ∷ polled) out =
    scatter_polled elem_offset polled (copy_at out (get_or elem_offset chunk_idx 0) buf)

pub scan_size : Layout → ChunkSeq → ℕ → List ℕ
scan_size l [] acc = []
scan_size l (c ∷ seq) acc = acc ∷ scan_size l seq (acc + count l c)

-- `upper_bound(pseq, g)`: how many entries stand before the first that is above `g`.
pub upper_bound : List ℕ → ℕ → ℕ
upper_bound [] g = 0
upper_bound (p ∷ pseq) g = let rest = upper_bound pseq g in if leb p g then suc rest else 0

module _ (l : Layout) {A : Type 0} where
  module _ (zero_elem : A) where
    pub materialize : Disk A → ChunkSeq → List Chunk → List A
    unfolding elem_offsets scatter_polled
    materialize d seq polled =
        let elem_offset = elem_offsets 0 (map (count l) seq) in
        scatter_polled elem_offset (map (λ (c : Chunk). (c.index, read_chunk l d c)) polled)
          (replicate (get_or elem_offset (length seq) 0) zero_elem)

    -- The loop of the sequential version, from place `i` on.
    pub copy_ordered : List ℕ → Disk A → ℕ → List Chunk → List A → List A
    unfolding copy_at
    copy_ordered elem_offset d i [] out = out
    copy_ordered elem_offset d i (c ∷ ordered) out =
        copy_ordered elem_offset d (suc i) ordered
          (if c.used == 0 then out else copy_at out (get_or elem_offset i 0) (read_chunk l d c))

    pub sequential_materialize : Disk A → ChunkSeq → List A
    unfolding elem_offsets copy_ordered sort_by_indices
    sequential_materialize d [] = []
    sequential_materialize d (c ∷ seq) =
        let ordered = sort_by_indices (c ∷ seq) in
        let elem_offset = elem_offsets 0 (map (count l) ordered) in
        copy_ordered elem_offset d 0 ordered
          (replicate (get_or elem_offset (length (c ∷ seq)) 0) zero_elem)

  -- The overload for a delayed tree, whose chunks are handled in the order `polled`.
  pub materialize_node : {T : Type 0} → A → Disk T → Node T A → List ℕ → List A
  unfolding elem_offsets scatter_polled
  materialize_node zero_elem d node polled =
      let offset = elem_offsets 0 (tabulate_from 0 node.num_chunks node.chunk_len) in
      scatter_polled offset (map (λ (ci : ℕ). (ci, chunk_values l d node ci)) polled)
        (replicate (get_or offset node.num_chunks 0) zero_elem)

  -- One element of the chunk's block.
  pub probe : Disk A → Option Chunk → ℕ → Option A
  probe d none local = none
  probe d (some c) local = get_elem? (d c.filename c.begin_addr) local

  pub scan_find : Disk A → ChunkSeq → List ℕ → ℕ → Option A
  unfolding upper_bound probe
  scan_find d seq pseq g =
      let res = upper_bound pseq g - 1 in probe d (get_elem? seq res) (g - get_or pseq res 0)

  -- `none` is the CHECK that fails behind the last element.
  pub find : Disk A → ChunkSeq → ℕ → Option A
  find d [] g = none
  find d (c ∷ seq) g =
      let rest = find d seq (g - count l c) in
      if ltb g (count l c) then get_elem? (d c.filename c.begin_addr) g else rest
