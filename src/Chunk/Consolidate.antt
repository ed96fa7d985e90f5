-- ===== src/Chunk/Consolidate.antt =====
-- What `consolidate` writes.
use plaidlaylib.Prelude.{
  ◌≡◌, sym, ap, ◌∙◌, some, List, [], ◌∷◌, ◌++◌, append_assoc, append-nil, All, length, arith,
  ==_iff, ≢→==, le→ltb, length-take, ℕ_discrete, nil_of_length,
}
use plaidlaylib.Layout.{Layout, IsLayout}
use plaidlaylib.Disk.{Disk}
use plaidlaylib.Chunk.{
  Chunk, ChunkSeq, IsWellFormed, append_chunks, consolidate, contents, count, read_chunk,
}
use plaidlaylib.Chunk.Read.{Reads, Reads-all, sort_by_indices_of_indexed}

module _ (l : Layout) (w : IsLayout l) {A : Type 0} (d : Disk A) where
  append_chunks-contents :
      (cs : List Chunk) (out : List A)
      → All (Reads l w d) cs
      → append_chunks l d cs out ≡ some (out ++ contents l d cs)
  unfolding append_chunks
  append_chunks-contents [] out h = ap some (sym (append-nil out))
  append_chunks-contents (c ∷ cs) out h = elim (ℕ_discrete c.used 0) [
    | yes e ↦
        let empty : read_chunk l d c ≡ [] =
          nil_of_length (read_chunk l d c) (grind (arith, h.0.0, h.0.1, w.elem_pos)) in
        rw ((==_iff c.used 0).1 e) (
          append_chunks-contents cs out h.1
          ∙ ap (λ t. some (out ++ (t ++ contents l d cs))) (sym empty))
    | no ne ↦
        rw
          (
            ≢→== c.used 0 ne,
            le→ltb (length (d c.filename c.begin_addr)) (count l c)
                (omega (arith, h.0.0, length-take (count l c) (d c.filename c.begin_addr))),
          )
          (append_chunks-contents cs (out ++ read_chunk l d c) h.1
            ∙ ap some (append_assoc out (read_chunk l d c) (contents l d cs)))
  ]

  -- `consolidate` of a well-formed sequence passes its CHECKs and writes the logical sequence.
  pub consolidate-contents :
      (seq : ChunkSeq) → IsWellFormed l d seq → consolidate l d seq ≡ some (contents l d seq)
  unfolding consolidate
  consolidate-contents seq v =
      ap (λ t. append_chunks l d t []) (sort_by_indices_of_indexed 0 seq v.indexed)
      ∙ append_chunks-contents seq [] (Reads-all l w d seq v.dense v.stored)
