-- ===== src/Materialize/Contents.antt =====
-- `materialize` returns the logical sequence, in whatever order its chunks are polled.
use mathlib.Core.List.{Permᴰ}
use plaidlaylib.Prelude.{
  ℕ, zero, ◌<◌, ◌-◌, min, tabulate_from_ext, suc, ◌+◌, ◌*◌, ◌≤◌, ◌≡◌, refl, sym, ap, ap₂, subst,
  ◌∙◌, List, [], ◌∷◌, ◌++◌, map, All, length, concat, get_or, replicate, tabulate_from,
  map-tabulate_from, length-tabulate_from, arith,
}
use plaidlaylib.Tabulate.Grid.{concat-chunks}
use plaidlaylib.Layout.{Layout, IsLayout, epc, size_t_mod, grid_num_chunks, grid_chunk_len}
use plaidlaylib.Layout.Bounds.{grid_num_chunks_bounds, grid_chunk_len-min}
use plaidlaylib.Disk.{Disk}
use plaidlaylib.Chunk.{Chunk, ChunkSeq, IndexedFrom, count, read_chunk, contents}
use plaidlaylib.Delayed.{Node, elems_per_chunk, chunk_values}
use plaidlaylib.Delayed.Denotes.{Denotes}
use plaidlaylib.Delayed.Reduced.{chunk_values-Denotes}
use plaidlaylib.Materialize.{elem_offsets, scatter_polled, materialize, materialize_node}
use plaidlaylib.Materialize.Scattered.{
  perm-map, NumberedFrom, sizes_of, offsets-total, scatter_polled-row,
}

module _ (l : Layout) {A : Type 0} where
  module _ (d : Disk A) where
    -- The block of the chunk holds the elements that the chunk counts.
    abbrev pub HoldsAll : Chunk → Type 0
    HoldsAll c = length (read_chunk l d c) ≡ count l c

    numbered : Chunk → ℕ × List A
    numbered c = (c.index, read_chunk l d c)

    numbered-NumberedFrom :
        (k : ℕ) (seq : ChunkSeq) → IndexedFrom k seq → NumberedFrom k (map numbered seq)
    unfolding numbered
    numbered-NumberedFrom k [] h = tt
    numbered-NumberedFrom k (c ∷ seq) h = (h.0, numbered-NumberedFrom (k + 1) seq h.1)

    numbered-sizes :
        (seq : ChunkSeq) → All HoldsAll seq → sizes_of (map numbered seq) ≡ map (count l) seq
    unfolding numbered
    numbered-sizes [] h = refl
    numbered-sizes (c ∷ seq) h = ap₂ ◌∷◌ h.0 (numbered-sizes seq h.1)

    numbered-contents :
        (seq : ChunkSeq)
        → concat (map (λ (p : ℕ × List A). p.1) (map numbered seq)) ≡ contents l d seq
    unfolding numbered
    numbered-contents [] = refl
    numbered-contents (c ∷ seq) = ap (◌++◌ (read_chunk l d c)) (numbered-contents seq)

    numbered-length : (seq : ChunkSeq) → length (map numbered seq) ≡ length seq
    numbered-length [] = refl
    numbered-length (c ∷ seq) = ap suc (numbered-length seq)

    -- `materialize` of a sequence in index order, whose blocks hold what its chunks count, returns
    -- the logical sequence, in whatever order its chunks are polled and whichever of them are short.
    pub materialize-contents :
        (zero_elem : A) (seq : ChunkSeq) (polled : List Chunk)
        → IndexedFrom 0 seq
        → All HoldsAll seq
        → Permᴰ polled seq
        → materialize l zero_elem d seq polled ≡ contents l d seq
    unfolding materialize numbered
    materialize-contents zero_elem seq polled i h p =
        let ps = map numbered seq in
        let sizes = numbered-sizes seq h in
        let total = offsets-total 0 ps in
        let size =
          ap₂ (λ (t : List ℕ) (k : ℕ). get_or (elem_offsets 0 t) k 0) (sym sizes)
            (sym (numbered-length seq)) in
        ap
          (λ (t : List ℕ).
            scatter_polled (elem_offsets 0 t) (map numbered polled)
              (replicate (get_or (elem_offsets 0 (map (count l) seq)) (length seq) 0) zero_elem))
          (sym sizes)
        ∙ scatter_polled-row zero_elem (get_or (elem_offsets 0 (map (count l) seq)) (length seq) 0)
            ps (map numbered polled) (numbered-NumberedFrom 0 seq i) (perm-map numbered p)
            (omega (arith, size, total))
        ∙ numbered-contents seq

-- The chunks of a grid of `n` elements, `e` in a chunk.
module _ (e : ℕ) (pos : 0 < e) (n : ℕ) where
  abbrev unit_layout : Layout
  unit_layout = record { chunk_size = e; elem_size = 1 }

  unit_epc : epc unit_layout ≡ e
  unit_epc = omega arith

  unit_layout-IsLayout : IsLayout unit_layout
  unit_layout-IsLayout = record {
    elem_pos = omega arith;
    epc_pos = omega (arith, pos);
    divides = omega arith;
  }

  concat-grid :
      {A : Type 0} (f : ℕ → A)
      → n + e ≤ size_t_mod
      → concat (
          tabulate_from 0
            (grid_num_chunks e n)
            (λ i. tabulate_from (i * e) (grid_chunk_len e n i) f))
        ≡ tabulate_from 0 n f
  concat-grid f fits =
      let k = grid_num_chunks e n in
      let room = (grid_num_chunks_bounds e pos n fits).0 in
      ap concat (
        tabulate_from_ext 0 k _ _ (λ i low lt.
          ap₂ (λ (s m : ℕ). tabulate_from s m f) (ap (λ (t : ℕ). i * t) (sym unit_epc))
            (grid_chunk_len-min e n i ∙ ap (λ (t : ℕ). min t (n - i * t)) (sym unit_epc))))
      ∙ concat-chunks unit_layout unit_layout-IsLayout n k f
      ∙ ap (λ t. tabulate_from 0 t f) {x = min n (k * epc unit_layout)} {y = n}
          (omega (arith, room, ap (λ (t : ℕ). k * t) unit_epc))

module _ (l : Layout) {T : Type 0} (d : Disk T) (sources : ℕ → ChunkSeq) {A : Type 0}
    (node : Node T A) (n : ℕ) (f : ℕ → A) where
  chunk_at : ℕ → ℕ × List A
  chunk_at ci = (ci, chunk_values l d node ci)

  chunk_at-NumberedFrom : (s k : ℕ) → NumberedFrom s (tabulate_from s k chunk_at)
  unfolding chunk_at
  chunk_at-NumberedFrom s zero = tt
  chunk_at-NumberedFrom s (suc k) = (
    refl,
    subst (λ t. NumberedFrom t (tabulate_from t k chunk_at)) {x = suc s} {y = s + 1} (omega arith)
        (chunk_at-NumberedFrom (suc s) k),
  )

  -- `materialize` of a tree that denotes `n` elements, for chunks of at least one element and `n`
  -- plus ELEMS_PER_CHUNK at most 2^64, returns these elements, in whatever order its chunks are
  -- handled.
  pub materialize_node-Denotes :
      (zero_elem : A) (polled : List ℕ)
      → Denotes l d sources node n f
      → 0 < elems_per_chunk l
      → n + elems_per_chunk l ≤ size_t_mod
      → Permᴰ polled (tabulate_from 0 node.num_chunks (λ ci. ci))
      → materialize_node l zero_elem d node polled ≡ tabulate_from 0 n f
  unfolding materialize_node chunk_at
  materialize_node-Denotes zero_elem polled v pos fits p =
      let e = elems_per_chunk l in
      let nc = node.num_chunks in
      let ps = tabulate_from 0 nc chunk_at in
      let value = λ (i : ℕ). chunk_values-Denotes l d sources node n f v i in
      let chunks : map (λ (q : ℕ × List A). q.1) ps ≡ tabulate_from 0 nc (chunk_values l d node) =
        map-tabulate_from 0 nc chunk_at (λ q. q.1) in
      let all : concat (map (λ (q : ℕ × List A). q.1) ps) ≡ tabulate_from 0 n f =
        ap concat (chunks ∙ tabulate_from_ext 0 nc _ _ (λ i low lt. value i))
        ∙ ap
            (λ (k : ℕ).
              concat (tabulate_from 0 k (λ i. tabulate_from (i * e) (grid_chunk_len e n i) f)))
            v.chunks
        ∙ concat-grid e pos n f fits in
      let sizes : sizes_of ps ≡ tabulate_from 0 nc node.chunk_len =
        map-tabulate_from 0 nc chunk_at (λ q. length q.1)
        ∙ tabulate_from_ext 0 nc _ _ (λ i low lt.
          ap length (value i)
          ∙ length-tabulate_from (i * e) (grid_chunk_len e n i) f
          ∙ sym (v.sizes i)) in
      let size = get_or (elem_offsets 0 (tabulate_from 0 nc node.chunk_len)) nc 0 in
      let total = offsets-total 0 ps in
      let same : size ≡ get_or (elem_offsets 0 (sizes_of ps)) (length ps) 0 =
        ap₂ (λ (t : List ℕ) (k : ℕ). get_or (elem_offsets 0 t) k 0) (sym sizes)
          (sym (length-tabulate_from 0 nc chunk_at)) in
      ap
        (λ (t : List ℕ).
          scatter_polled (elem_offsets 0 t) (map chunk_at polled) (replicate size zero_elem))
        (sym sizes)
      ∙ scatter_polled-row zero_elem size ps (map chunk_at polled) (chunk_at-NumberedFrom 0 nc)
          (subst (Permᴰ (map chunk_at polled)) (map-tabulate_from 0 nc (λ (ci : ℕ). ci) chunk_at)
            (perm-map chunk_at p))
          (omega (arith, same, total))
      ∙ all
