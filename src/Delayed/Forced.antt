-- ===== src/Delayed/Forced.antt =====
-- `force` writes out the sequence that a tree denotes.
use Prim.Native.String.{String}
use mathlib.Core.Path.{fun_ext}
use plaidlaylib.Prelude.{
  ℕ, ◌+◌, ◌*◌, ◌≤◌, min, ◌≡◌, refl, sym, ap, ap₂, ◌∙◌, subst, List, [], ◌≢◌, ==_iff, ≢→==, length,
  arith, tabulate_from, length-tabulate_from, ℕ_discrete,
}
use plaidlaylib.Layout.{Layout, IsLayout, epc, grid_num_chunks, grid_chunk_len, size_t_mod}
use plaidlaylib.Layout.Bounds.{grid_num_chunks_bounds, grid_chunk_len-min}
use plaidlaylib.Disk.{Disk}
use plaidlaylib.Chunk.{ChunkSeq, contents, IsWellFormed}
use plaidlaylib.Tabulate.{Run, IsRun, chunk_count, write_fresh}
use plaidlaylib.Tabulate.Grid.{grid_header, concat-chunks, fresh-contents, fresh-IsWellFormed}
use plaidlaylib.Access.Placed.{IsPlaced, IsWhole}
use plaidlaylib.Tabulate.Placed.{write_fresh-IsPlaced, write_fresh-IsWhole}
use plaidlaylib.Delayed.{Node, elems_per_chunk, chunk_values, force}
use plaidlaylib.Delayed.Denotes.{Denotes}
use plaidlaylib.Delayed.Reduced.{chunk_values-Denotes}

module _ (l : Layout) {T : Type 0} (dt : Disk T) (sources : ℕ → ChunkSeq) (lr : Layout)
    (wr : IsLayout lr) {R : Type 0} (zero_elem : R) (r : Run) (prefix : String) (node : Node T R)
    (n : ℕ) (f : ℕ → R) (v : Denotes l dt sources node n f) (wide : epc lr ≡ elems_per_chunk l)
    (fits : n + epc lr ≤ size_t_mod) (run : IsRun r (grid_num_chunks (epc lr) n)) (d : Disk R) where
  piece : ℕ → List R
  piece i = tabulate_from (i * epc lr) (chunk_count lr n i) f

  chunks_eq : node.num_chunks ≡ grid_num_chunks (epc lr) n
  chunks_eq = v.chunks ∙ ap (λ e. grid_num_chunks e n) (sym wide)

  len_eq : (i : ℕ) → grid_chunk_len (elems_per_chunk l) n i ≡ chunk_count lr n i
  len_eq i = ap (λ e. grid_chunk_len e n i) (sym wide) ∙ grid_chunk_len-min (epc lr) n i

  pieces : chunk_values l dt node ≡ piece
  unfolding piece
  pieces = fun_ext (λ i.
      chunk_values-Denotes l dt sources node n f v i
      ∙ ap₂ (λ e m. tabulate_from (i * e) m f) (sym wide) (len_eq i))

  headers : (λ (i : ℕ). (node.chunk_len i * lr.elem_size, i)) ≡ grid_header lr wr n
  headers = fun_ext (λ i. ap (λ m. (m * lr.elem_size, i)) (v.sizes i ∙ len_eq i))

  sizes : (i : ℕ) → length (piece i) ≡ chunk_count lr n i
  unfolding piece
  sizes i = length-tabulate_from (i * epc lr) (chunk_count lr n i) f

  written : ChunkSeq × Disk R
  written =
      write_fresh lr zero_elem r prefix (grid_num_chunks (epc lr) n) (grid_header lr wr n) piece d

  force-written : node.num_chunks ≢ 0 → force l lr zero_elem r prefix dt node d ≡ written
  unfolding force written
  force-written some_chunk = rw (≢→== node.num_chunks 0 some_chunk) (
      ap₂ (λ k h. write_fresh lr zero_elem r prefix k h (chunk_values l dt node) d) chunks_eq
        headers
      ∙ ap
          (λ p.
            write_fresh lr zero_elem r prefix (grid_num_chunks (epc lr) n) (grid_header lr wr n) p
              d)
          pieces)

  force-nothing : node.num_chunks ≡ 0 → force l lr zero_elem r prefix dt node d ≡ ([], d)
  unfolding force
  force-nothing none_left = rw ((==_iff node.num_chunks 0).1 none_left) refl

  -- `force` of a tree that denotes `n` elements of 8 bytes, with `n` plus ELEMS_PER_CHUNK at most 2^64,
  -- returns a well-formed sequence that reads back as these elements, if the drawn drives are in range
  -- and all writes land.
  pub force-contents :
      let (seq, d') = force l lr zero_elem r prefix dt node d in
      (contents lr d' seq ≡ tabulate_from 0 n f) × IsWellFormed lr d' seq
  unfolding written piece
  force-contents = elim (ℕ_discrete node.num_chunks 0) [
    | yes none_left ↦
        let room = (grid_num_chunks_bounds (epc lr) wr.epc_pos n fits).0 in
        let chunks : grid_num_chunks (epc lr) n ≡ 0 = sym chunks_eq ∙ none_left in
        let empty : n ≡ 0 = omega (arith, room, ap (λ k. k * epc lr) chunks) in
        subst
          (λ (o : ChunkSeq × Disk R).
            (contents lr o.1 o.0 ≡ tabulate_from 0 n f) × IsWellFormed lr o.1 o.0)
          (sym (force-nothing none_left))
          (
            ap (λ k. tabulate_from 0 k f) (sym empty),
            record { indexed = tt; dense = tt; stored = tt },
          )
    | no some_chunk ↦
        let room = (grid_num_chunks_bounds (epc lr) wr.epc_pos n fits).0 in
        subst
          (λ (o : ChunkSeq × Disk R).
            (contents lr o.1 o.0 ≡ tabulate_from 0 n f) × IsWellFormed lr o.1 o.0)
          (sym (force-written some_chunk))
          (
            (fresh-contents lr wr n zero_elem r prefix piece sizes fits run d).0
                ∙ concat-chunks lr wr n (grid_num_chunks (epc lr) n) f
                ∙ ap (λ t. tabulate_from 0 t f) {x = min n (grid_num_chunks (epc lr) n * epc lr)}
                    {y = n} (omega (arith, room)),
            fresh-IsWellFormed lr wr n zero_elem r prefix piece sizes fits run d,
          )
  ]

  -- The result lies in the first slots of its files.
  pub force-IsPlaced : IsPlaced lr (force l lr zero_elem r prefix dt node d).0
  unfolding written
  force-IsPlaced = elim (ℕ_discrete node.num_chunks 0) [
    | yes none_left ↦
        subst (λ (o : ChunkSeq × Disk R). IsPlaced lr o.0) (sym (force-nothing none_left))
          (record { slots = tt; separate = tt })
    | no some_chunk ↦
        subst (λ (o : ChunkSeq × Disk R). IsPlaced lr o.0) (sym (force-written some_chunk))
          (write_fresh-IsPlaced lr wr zero_elem r prefix (grid_num_chunks (epc lr) n)
            (grid_header lr wr n) piece run d)
  ]

  pub force-IsWhole : IsWhole lr d → IsWhole lr (force l lr zero_elem r prefix dt node d).1
  unfolding written
  force-IsWhole whole = elim (ℕ_discrete node.num_chunks 0) [
    | yes none_left ↦
        subst (λ (o : ChunkSeq × Disk R). IsWhole lr o.1) (sym (force-nothing none_left)) whole
    | no some_chunk ↦
        subst (λ (o : ChunkSeq × Disk R). IsWhole lr o.1) (sym (force-written some_chunk))
          (write_fresh-IsWhole lr wr zero_elem r prefix (grid_num_chunks (epc lr) n)
            (grid_header lr wr n) piece run (λ i lt. omega (arith, sizes i)) d whole)
  ]

  pub force-length : length (force l lr zero_elem r prefix dt node d).0 ≡ grid_num_chunks (epc lr) n
  unfolding written write_fresh
  force-length = elim (ℕ_discrete node.num_chunks 0) [
    | yes none_left ↦
        ap (λ (o : ChunkSeq × Disk R). length o.0) (force-nothing none_left)
        ∙ sym none_left
        ∙ chunks_eq
    | no some_chunk ↦
        ap (λ (o : ChunkSeq × Disk R). length o.0) (force-written some_chunk)
        ∙ length-tabulate_from 0 (grid_num_chunks (epc lr) n) _
  ]
