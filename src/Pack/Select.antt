-- ===== src/Pack/Select.antt =====
-- What the packing producers keep.
use Prim.Native.String.{String}
use plaidlaylib.Prelude.{
  ℕ, zero, suc, ◌+◌, ◌≡◌, refl, sym, ap, ap₂, ◌∙◌, subst, Bool, true, false, List, [], ◌∷◌, ◌++◌,
  map, append_assoc, append-nil, if◌then◌else◌, length, take, drop, get_or, arith, concat,
  length-append, length-map, All,
}
use plaidlaylib.Layout.{Layout, IsLayout}
use plaidlaylib.Disk.{Disk}
use plaidlaylib.Chunk.{Chunk, ChunkSeq, IndexedFrom, IsWellFormed, count, contents, read_chunk}
use plaidlaylib.Chunk.Read.{sort_by_indices_of_indexed, Reads, Reads-all}
use plaidlaylib.Tabulate.{Run, IsRun}
use plaidlaylib.DensePack.Batch.{dense_pack, pack_all}
use plaidlaylib.DensePack.Batch.Contents.{dense_pack-contents}
use plaidlaylib.Primitives.{keep_survivors}
use plaidlaylib.Primitives.Filter.{filter, filter-append, keep_survivors-filter}
use plaidlaylib.Pack.{compact, elem_offset, batch_chunks, packed_run, pack, pack_value}

IndexedFrom-take : (n k : ℕ) (seq : ChunkSeq) → IndexedFrom k seq → IndexedFrom k (take n seq)
IndexedFrom-take zero k seq h = tt
IndexedFrom-take (suc n) k [] h = tt
IndexedFrom-take (suc n) k (c ∷ seq) h = (h.0, IndexedFrom-take n (k + 1) seq h.1)

IndexedFrom-drop : (n k : ℕ) (seq : ChunkSeq) → IndexedFrom k seq → IndexedFrom (k + n) (drop n seq)
IndexedFrom-drop zero k seq h = subst (λ t. IndexedFrom t seq) {x = k} {y = k + 0} (omega arith) h
IndexedFrom-drop (suc n) k [] h = tt
IndexedFrom-drop (suc n) k (c ∷ seq) h =
    subst (λ t. IndexedFrom t (drop n seq)) {x = k + 1 + n} {y = k + suc n} (omega arith)
      (IndexedFrom-drop n (k + 1) seq h.1)

-- In an indexed sequence the sort changes nothing: a batch is a stretch of the sequence.
batch_chunks-slice :
    (seq : ChunkSeq) (base n : ℕ)
    → IndexedFrom 0 seq
    → batch_chunks seq base n ≡ take n (drop base seq)
unfolding batch_chunks
batch_chunks-slice seq base n h =
    sort_by_indices_of_indexed (0 + base) (take n (drop base seq))
      (IndexedFrom-take n (0 + base) (drop base seq) (IndexedFrom-drop base 0 seq h))

module _ {A B : Type 0} (f : A → B) where
  map-take : (n : ℕ) (xs : List A) → map f (take n xs) ≡ take n (map f xs)
  map-take zero xs = refl
  map-take (suc n) [] = refl
  map-take (suc n) (x ∷ xs) = ap (◌∷◌ (f x)) (map-take n xs)

  map-drop : (n : ℕ) (xs : List A) → map f (drop n xs) ≡ drop n (map f xs)
  map-drop zero xs = refl
  map-drop (suc n) [] = refl
  map-drop (suc n) (x ∷ xs) = map-drop n xs

module _ {T : Type 0} where
  -- The elements whose position, counted from `pos`, is flagged.
  abbrev pub select : (ℕ → Bool) → ℕ → List T → List T
  select flags pos [] = []
  select flags pos (x ∷ xs) =
      if flags pos then x ∷ select flags (pos + 1) xs else select flags (pos + 1) xs

  select-append :
      (flags : ℕ → Bool) (pos : ℕ) (xs ys : List T)
      → select flags pos (xs ++ ys) ≡ select flags pos xs ++ select flags (pos + length xs) ys
  select-append flags pos [] ys = ap (λ t. select flags t ys) {x = pos} {y = pos + 0} (omega arith)
  select-append flags pos (x ∷ xs) ys =
      ap (λ t. if flags pos then x ∷ t else t)
        (select-append flags (pos + 1) xs ys
          ∙ ap (λ t. select flags (pos + 1) xs ++ select flags t ys) {x = pos + 1 + length xs}
              {y = pos + suc (length xs)} (omega arith))
      ∙ move (flags pos) (select flags (pos + 1) xs) (select flags (pos + suc (length xs)) ys)
    where
      move :
          (b : Bool) (us vs : List T)
          → (if b then x ∷ (us ++ vs) else us ++ vs) ≡ (if b then x ∷ us else us) ++ vs
      move true us vs = refl
      move false us vs = refl

  compact-select :
      (flags : ℕ → Bool) (g0 : ℕ) (xs : List T) (j : ℕ) (out : List T)
      → compact (λ i. flags (g0 + i)) xs j out ≡ out ++ select flags (g0 + j) xs
  unfolding compact
  compact-select flags g0 [] j out = sym (append-nil out)
  compact-select flags g0 (x ∷ xs) j out =
      compact-select flags g0 xs (j + 1) _
      ∙ ap (λ t. (if flags (g0 + j) then out ++ (x ∷ []) else out) ++ select flags t xs)
          {x = g0 + (j + 1)} {y = g0 + j + 1} (omega arith)
      ∙ move (flags (g0 + j)) (select flags (g0 + j + 1) xs)
    where
      move :
          (b : Bool) (us : List T)
          → (if b then out ++ (x ∷ []) else out) ++ us ≡ out ++ (if b then x ∷ us else us)
      move true us = append_assoc out (x ∷ []) us
      move false us = refl

module _ (l : Layout) (w : IsLayout l) {T : Type 0} (zero_elem : T) (r : Run) (prefix : String)
    (dt d : Disk T) (seq : ChunkSeq) where
  module _ (wf : IsWellFormed l dt seq) where
    -- A producer that works chunk by chunk.
    pack_chunkwise :
        (g : Chunk → List T)
        → IsRun r (
            length
              (pack_all l zero_elem r prefix
                (λ base n. map g (batch_chunks seq base n))
                (length seq)).out_chunks)
        → let (out, d') =
            dense_pack l zero_elem r prefix
              (length seq)
              (λ base n. map g (batch_chunks seq base n))
              d in
          (contents l d' out ≡ concat (map g seq)) × IsWellFormed l d' out
    pack_chunkwise g run =
        let size = length-map seq g in
        subst
          (λ k.
            let (out, d') =
              dense_pack l zero_elem r prefix k (λ base n. map g (batch_chunks seq base n)) d in
            (contents l d' out ≡ concat (map g seq)) × IsWellFormed l d' out)
          size
          (dense_pack-contents l w zero_elem r prefix (λ base n. map g (batch_chunks seq base n))
            (map g seq) d
            (λ base n h.
              ap (map g) (batch_chunks-slice seq base n wf.indexed)
              ∙ map-take g n (drop base seq)
              ∙ ap (take n) (map-drop g base seq))
            (subst
              (λ k. IsRun r (
                length
                  (pack_all l zero_elem r prefix (λ base n. map g (batch_chunks seq base n))
                    k).out_chunks))
              (sym size) run))

    survivors-filter :
        (pred : T → Bool) (cs : List Chunk)
        → concat (map (λ c. keep_survivors pred (read_chunk l dt c) []) cs)
          ≡ filter pred (contents l dt cs)
    survivors-filter pred [] = refl
    survivors-filter pred (c ∷ cs) =
        ap₂ ◌++◌ (keep_survivors-filter pred (read_chunk l dt c) []) (survivors-filter pred cs)
        ∙ sym (filter-append pred (read_chunk l dt c) (contents l dt cs))

    offsets_at :
        (pre cs : List Chunk) (c : Chunk) (acc : ℕ)
        → All (Reads l w dt) pre
        → get_or (elem_offset l (pre ++ (c ∷ cs)) acc) (length pre) 0
          ≡ acc + length (contents l dt pre)
    unfolding elem_offset
    offsets_at [] cs c acc reads = omega arith
    offsets_at (e ∷ pre) cs c acc reads =
        offsets_at pre cs c (acc + count l e) reads.1
        ∙ omega (arith, reads.0.0, length-append (read_chunk l dt e) (contents l dt pre))

    All_left : (P : Chunk → Type 0) (xs ys : List Chunk) → All P (xs ++ ys) → All P xs
    All_left P [] ys h = tt
    All_left P (x ∷ xs) ys h = (h.0, All_left P xs ys h.1)

    length-contents_snoc :
        (pre : List Chunk) (c : Chunk)
        → length (contents l dt pre) + length (read_chunk l dt c)
          ≡ length (contents l dt (pre ++ (c ∷ [])))
    length-contents_snoc [] c = omega (arith, length-append (read_chunk l dt c) [])
    length-contents_snoc (e ∷ pre) c = omega (
      arith,
      length-contents_snoc pre c,
      length-append (read_chunk l dt e) (contents l dt pre),
      length-append (read_chunk l dt e) (contents l dt (pre ++ (c ∷ []))),
    )

    packed_runs-select :
        (flags : ℕ → Bool) (pre cs : List Chunk)
        → seq ≡ pre ++ cs
        → IndexedFrom (length pre) cs
        → concat (map (packed_run l zero_elem r prefix dt seq flags) cs)
          ≡ select flags (length (contents l dt pre)) (contents l dt cs)
    unfolding packed_run
    packed_runs-select flags pre [] e h = refl
    packed_runs-select flags pre (c ∷ cs) e h =
        let reads =
          All_left (Reads l w dt) pre (c ∷ cs)
            (subst (All (Reads l w dt)) e (Reads-all l w dt seq wf.dense wf.stored)) in
        let start =
          ap (λ t. get_or (elem_offset l seq 0) t 0) h.0
          ∙ ap (λ t. get_or (elem_offset l t 0) (length pre) 0) e
          ∙ offsets_at pre cs c 0 reads in
        let snoc_len : length pre + 1 ≡ length (pre ++ (c ∷ [])) =
          sym (length-append pre (c ∷ [])) in
        ap₂ ◌++◌
          (compact-select flags _ (read_chunk l dt c) 0 []
            ∙ ap (λ t. select flags t (read_chunk l dt c)) (omega (arith, start)))
          (packed_runs-select flags (pre ++ (c ∷ [])) cs (e ∙ sym (append_assoc pre (c ∷ []) cs))
              (subst (λ t. IndexedFrom t cs) snoc_len h.1)
            ∙ ap (λ t. select flags t (contents l dt cs)) (sym (length-contents_snoc pre c)))
        ∙ sym (
            select-append flags (length (contents l dt pre)) (read_chunk l dt c) (contents l dt cs))

  -- `pack` of a well-formed sequence with an in-memory sequence of flags returns a well-formed
  -- sequence that reads back as the elements at the flagged positions, in order, if draws are
  -- in range and every write lands.
  pub pack-select :
      (boolean_seq : ℕ → Bool)
      → IsWellFormed l dt seq
      → IsRun r (
          length
            (pack_all l zero_elem r prefix
              (λ base n.
                map (packed_run l zero_elem r prefix dt seq boolean_seq) (batch_chunks seq base n))
              (length seq)).out_chunks)
      → let (out, d') = pack l zero_elem r prefix dt seq boolean_seq d in
        (contents l d' out ≡ select boolean_seq 0 (contents l dt seq)) × IsWellFormed l d' out
  unfolding pack
  pack-select boolean_seq wf run =
      let out = pack_chunkwise wf (packed_run l zero_elem r prefix dt seq boolean_seq) run in
      (out.0 ∙ packed_runs-select wf boolean_seq [] seq refl wf.indexed, out.1)

  -- `pack_value` of a well-formed sequence returns a well-formed sequence that reads back as the
  -- elements that satisfy the predicate, in order, if draws are in range and every write lands.
  pub pack_value-filter :
      (pred : T → Bool)
      → IsWellFormed l dt seq
      → IsRun r (
          length
            (pack_all l zero_elem r prefix
              (λ base n.
                map (λ c. keep_survivors pred (read_chunk l dt c) []) (batch_chunks seq base n))
              (length seq)).out_chunks)
      → let (out, d') = pack_value l zero_elem r prefix dt seq pred d in
        (contents l d' out ≡ filter pred (contents l dt seq)) × IsWellFormed l d' out
  unfolding pack_value
  pack_value-filter pred wf run =
      let out = pack_chunkwise wf (λ c. keep_survivors pred (read_chunk l dt c) []) run in
      (out.0 ∙ survivors-filter wf pred seq, out.1)
