-- ===== src/Chunk/Read.antt =====
-- Reading a whole sequence back: `to_vector`, `size` and the sort by index.
use plaidlaylib.Prelude.{
  ℕ, zero, suc, ◌+◌, ◌*◌, ◌%◌, ◌≤◌, ◌≡◌, refl, ap, ◌∙◌, some, List, [], ◌∷◌, ◌++◌, length, drop,
  replicate, All, arith, length-append, length-take, length-drop, length-replicate, append_assoc,
  mul-mod_self,
}
use plaidlaylib.Layout.{Layout, IsLayout, epc}
use plaidlaylib.Disk.{Disk}
use plaidlaylib.Chunk.{
  Chunk, ChunkSeq, sort_by_indices, IndexedFrom, count, IsDense, IsStored, IsWellFormed, copy_at,
  copy_chunks, read_chunk, contents, total_count, to_vector, size, back,
}

-- Sorting a vector that is in logical order leaves it as it is.
pub sort_by_indices_of_indexed :
    (k : ℕ) (seq : ChunkSeq) → IndexedFrom k seq → sort_by_indices seq ≡ seq
unfolding sort_by_indices
sort_by_indices_of_indexed k [] h = refl
sort_by_indices_of_indexed k (c ∷ []) h = refl
sort_by_indices_of_indexed k (c ∷ d ∷ cs) h =
    rw (sort_by_indices_of_indexed (k + 1) (d ∷ cs) h.1) (ground arith)

module _ {A : Type 0} where
  drop-length : (xs : List A) (n : ℕ) → length xs ≤ n → drop n xs ≡ []
  drop-length [] zero h = refl
  drop-length [] (suc n) h = refl
  drop-length (x ∷ xs) zero h = absurd (omega arith)
  drop-length (x ∷ xs) (suc n) h = drop-length xs n (omega arith)

  copy_at_start :
      (rest src : List A)
      → length src ≤ length rest
      → copy_at rest 0 src ≡ src ++ drop (length src) rest
  unfolding copy_at
  copy_at_start [] [] h = refl
  copy_at_start [] (y ∷ src) h = absurd (omega arith)
  copy_at_start (x ∷ rest) [] h = refl
  copy_at_start (x ∷ rest) (y ∷ src) h = ap (◌∷◌ y) (copy_at_start rest src (omega arith))

  -- Copying behind a finished part writes the start of the rest.
  pub copy_at-append :
      (pre rest src : List A)
      → length src ≤ length rest
      → copy_at (pre ++ rest) (length pre) src ≡ pre ++ (src ++ drop (length src) rest)
  unfolding copy_at
  copy_at-append [] rest src h = copy_at_start rest src h
  copy_at-append (x ∷ pre) rest src h = ap (◌∷◌ x) (copy_at-append pre rest src h)

module _ (l : Layout) (w : IsLayout l) {A : Type 0} (d : Disk A) where
  abbrev pub Reads : Chunk → Type 0
  Reads c = (length (read_chunk l d c) ≡ count l c) × (count l c * l.elem_size ≡ c.used)

  pub Reads-all : (seq : ChunkSeq) → IsDense l seq → IsStored l d seq → All Reads seq
  Reads-all [] h s = tt
  Reads-all (c ∷ []) h s =
      ((omega (arith, length-take (count l c) (d c.filename c.begin_addr)), h.0), tt)
  Reads-all (c ∷ e ∷ cs) h s = (
    (omega (arith, length-take (count l c) (d c.filename c.begin_addr)), h.0),
    Reads-all (e ∷ cs) h.2 s.1,
  )

  pub total_count_of_Reads :
      (seq : ChunkSeq) → All Reads seq → total_count l seq ≡ some (length (contents l d seq))
  unfolding total_count
  total_count_of_Reads [] h = refl
  total_count_of_Reads (c ∷ cs) h =
      let whole : c.used % l.elem_size ≡ 0 =
        rw (← h.0.1) (mul-mod_self (count l c) l.elem_size w.elem_pos) in
      rw (total_count_of_Reads cs h.1, whole)
        (ap some (omega (arith, h.0.0, length-append (read_chunk l d c) (contents l d cs))))

  copy_chunks_lem :
      (seq : ChunkSeq) (pre rest : List A)
      → All Reads seq
      → length rest ≡ length (contents l d seq)
      → copy_chunks l d seq (length pre) (pre ++ rest) ≡ pre ++ contents l d seq
  unfolding copy_chunks
  copy_chunks_lem [] pre [] h e = refl
  copy_chunks_lem [] pre (x ∷ rest) h e = absurd (omega arith)
  copy_chunks_lem (c ∷ cs) pre rest h e =
      let src = read_chunk l d c in
      let room : length rest ≡ length src + length (contents l d cs) =
        omega (arith, length-append src (contents l d cs)) in
      rw
        (copy_at-append pre rest src (omega arith), ← append_assoc pre src (drop (length src) rest))
        (ap (λ n. copy_chunks l d cs n ((pre ++ src) ++ drop (length src) rest))
            (omega (arith, h.0.0, length-append pre src))
          ∙ copy_chunks_lem cs (pre ++ src) (drop (length src) rest) h.1
              (omega (arith, length-drop (length src) rest))
          ∙ append_assoc pre src (contents l d cs))

  -- `to_vector` of a well-formed sequence passes its CHECK and returns the logical sequence.
  pub to_vector-contents :
      (zero_elem : A) (seq : ChunkSeq)
      → IsWellFormed l d seq
      → to_vector l zero_elem d seq ≡ some (contents l d seq)
  unfolding to_vector
  to_vector-contents zero_elem seq v =
      let reads = Reads-all seq v.dense v.stored in
      rw
        (
          to_vector,
          sort_by_indices_of_indexed 0 seq v.indexed,
          total_count_of_Reads seq reads,
          sort_by_indices_of_indexed 0 seq v.indexed,
        )
        (ap some
          (copy_chunks_lem seq [] (replicate _ zero_elem) reads (length-replicate _ zero_elem)))

  size_lem :
      (c : Chunk) (cs : ChunkSeq)
      → IsDense l (c ∷ cs)
      → All Reads (c ∷ cs)
      → length cs * epc l + count l (back c cs) ≡ length (contents l d (c ∷ cs))
  unfolding back
  size_lem c [] h r = omega (arith, r.0.0, length-append (read_chunk l d c) [])
  size_lem c (e ∷ cs) h r = omega (
    arith,
    r.0.0,
    h.1,
    length-append (read_chunk l d c) (contents l d (e ∷ cs)),
    size_lem e cs h.2 r.1,
  )

  -- Where every chunk but the last is full and every block is allocated, `size` is the length of the
  -- logical sequence.
  pub size-contents :
      (seq : ChunkSeq) → IsDense l seq → IsStored l d seq → size l seq ≡ length (contents l d seq)
  unfolding size
  size-contents [] h s = refl
  size-contents (c ∷ cs) h s = size_lem c cs h (Reads-all (c ∷ cs) h s)
