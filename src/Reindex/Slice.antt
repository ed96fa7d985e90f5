-- ===== src/Reindex/Slice.antt =====
-- A slice by chunks is a slice of the logical sequence.
use plaidlaylib.Prelude.{
  ℕ, zero, suc, ◌+◌, ◌-◌, ◌*◌, ◌≤◌, min, ◌≡◌, refl, sym, ap, ap₂, ◌∙◌, List, [], ◌∷◌, ◌++◌, All,
  le→leb, lt→leb, length, length-append, length-drop, take, drop, take-add, take_all,
  take-append_left, drop-drop, drop_past, drop-nil, arith, dec_lt,
}
use plaidlaylib.Layout.{Layout, IsLayout, epc}
use plaidlaylib.Disk.{Disk}
use plaidlaylib.Chunk.{ChunkSeq, IsDense, IsWellFormed, read_chunk, contents}
use plaidlaylib.Chunk.Read.{Reads, Reads-all}
use plaidlaylib.Reindex.{cut_by_chunk}
use plaidlaylib.Reindex.Contents.{
  renumber-indexed, renumber-IsDense, renumber-IsStored, renumber-contents, IsDense-drop,
  IsDense-take,
}

drop-append_left {ℓ} : {A : Type ℓ} (xs ys : List A) → drop (length xs) (xs ++ ys) ≡ ys
drop-append_left [] ys = refl
drop-append_left (x ∷ xs) ys = drop-append_left xs ys

All-drop {κ} : {A : Type 0} (P : A → Type κ) (n : ℕ) (xs : List A) → All P xs → All P (drop n xs)
All-drop P zero xs h = h
All-drop P (suc n) [] h = tt
All-drop P (suc n) (x ∷ xs) h = All-drop P n xs h.1

All-take {κ} : {A : Type 0} (P : A → Type κ) (n : ℕ) (xs : List A) → All P xs → All P (take n xs)
All-take P zero xs h = tt
All-take P (suc n) [] h = tt
All-take P (suc n) (x ∷ xs) h = (h.0, All-take P n xs h.1)

take-min {ℓ} :
    {A : Type ℓ} (e n b : ℕ) (xs : List A)
    → length xs ≤ n - b
    → take (min e n - b) xs ≡ take (e - b) xs
take-min e n b xs short = elim (dec_lt n e) [
  | yes past ↦ take_all (min e n - b) xs (omega arith) ∙ sym (take_all (e - b) xs (omega arith))
  | no inside ↦ ap (λ k. take k xs) {x = min e n - b} {y = e - b} (omega arith)
]

module _ (l : Layout) (w : IsLayout l) {A : Type 0} (d : Disk A) where
  next_chunk : (n : ℕ) → suc n * epc l ≡ epc l + n * epc l
  next_chunk n = grind arith

  contents-drop :
      (n : ℕ) (cs : ChunkSeq)
      → IsDense l cs
      → All (Reads l w d) cs
      → contents l d (drop n cs) ≡ drop (n * epc l) (contents l d cs)
  contents-drop zero cs h r =
      ap (λ k. drop k (contents l d cs)) {x = 0} {y = 0 * epc l} (grind arith)
  contents-drop (suc n) [] h r = sym (drop-nil (suc n * epc l))
  contents-drop (suc n) (c ∷ []) h r =
      ap (contents l d) (drop-nil n)
      ∙ sym (
          drop_past (suc n * epc l) (read_chunk l d c ++ [])
            (omega (arith, length-append (read_chunk l d c) [], r.0.0, h.1, next_chunk n)))
  contents-drop (suc n) (c ∷ b ∷ cs) h r =
      contents-drop n (b ∷ cs) h.2 r.1
      ∙ ap (drop (n * epc l)) (sym (drop-append_left (read_chunk l d c) (contents l d (b ∷ cs))))
      ∙ drop-drop (length (read_chunk l d c)) (n * epc l) (contents l d (c ∷ b ∷ cs))
      ∙ ap (λ k. drop k (contents l d (c ∷ b ∷ cs))) (omega (arith, r.0.0, h.1, next_chunk n))

  contents-take :
      (n : ℕ) (cs : ChunkSeq)
      → IsDense l cs
      → All (Reads l w d) cs
      → contents l d (take n cs) ≡ take (n * epc l) (contents l d cs)
  contents-take zero cs h r =
      ap (λ k. take k (contents l d cs)) {x = 0} {y = 0 * epc l} (grind arith)
  contents-take (suc n) [] h r = sym (take_all (suc n * epc l) [] (omega arith))
  contents-take (suc n) (c ∷ []) h r =
      ap (λ t. contents l d (c ∷ t)) (take_all n [] (omega arith))
      ∙ sym (
          take_all (suc n * epc l) (read_chunk l d c ++ [])
            (omega (arith, length-append (read_chunk l d c) [], r.0.0, h.1, next_chunk n)))
  contents-take (suc n) (c ∷ b ∷ cs) h r =
      let xs = read_chunk l d c in
      let ys = contents l d (b ∷ cs) in
      ap₂ (λ t u. t ++ u) (sym (take-append_left (length xs) xs ys refl))
        (contents-take n (b ∷ cs) h.2 r.1 ∙ ap (take (n * epc l)) (sym (drop-append_left xs ys)))
      ∙ sym (take-add (length xs) (n * epc l) (xs ++ ys))
      ∙ ap (λ k. take k (xs ++ ys)) (omega (arith, r.0.0, h.1, next_chunk n))

  -- `cut_by_chunk` of a well-formed sequence returns a well-formed sequence of the elements of the
  -- chunks from `chunk_begin` on and before `chunk_end`, none where the range is empty.
  pub cut_by_chunk-contents :
      (seq : ChunkSeq) (chunk_begin chunk_end : ℕ)
      → IsWellFormed l d seq
      → (contents l d (cut_by_chunk seq chunk_begin chunk_end)
          ≡ take
              ((chunk_end - chunk_begin) * epc l)
              (drop (chunk_begin * epc l) (contents l d seq)))
        × IsWellFormed l d (cut_by_chunk seq chunk_begin chunk_end)
  unfolding cut_by_chunk
  cut_by_chunk-contents seq chunk_begin chunk_end v =
      let rest = drop chunk_begin seq in
      let reads = Reads-all l w d seq v.dense v.stored in
      let dense = IsDense-drop l chunk_begin seq v.dense in
      let inside = contents-drop chunk_begin seq v.dense reads in
      let slice : contents l d (take (chunk_end - chunk_begin) rest)
          ≡ take ((chunk_end - chunk_begin) * epc l)
              (drop (chunk_begin * epc l) (contents l d seq)) =
        contents-take (chunk_end - chunk_begin) rest dense
          (All-drop (Reads l w d) chunk_begin seq reads)
        ∙ ap (take ((chunk_end - chunk_begin) * epc l)) inside in
      elim (dec_lt chunk_begin chunk_end) [
        | no empty ↦ rw (le→leb chunk_end chunk_begin (omega arith)) (
          sym (
              ap (λ k. take (k * epc l) (drop (chunk_begin * epc l) (contents l d seq)))
                {x = chunk_end - chunk_begin} {y = 0} (omega arith)
              ∙ ap (λ k. take k (drop (chunk_begin * epc l) (contents l d seq))) {x = 0 * epc l}
                  {y = 0} (grind arith)),
          record { indexed = tt; dense = tt; stored = tt },
        )
        | yes some_range ↦ elim (dec_lt chunk_begin (length seq)) [
          | no past ↦
              let gone : take (chunk_end - chunk_begin) rest ≡ [] =
                ap (take (chunk_end - chunk_begin)) (drop_past chunk_begin seq (omega arith))
                ∙ take_all (chunk_end - chunk_begin) [] (omega arith) in
              rw
                (
                  lt→leb chunk_end chunk_begin some_range,
                  le→leb (length seq) chunk_begin (omega arith),
                )
                (
                  sym (ap (contents l d) gone) ∙ slice,
                  record { indexed = tt; dense = tt; stored = tt },
                )
          | yes there ↦
              let m = min chunk_end (length seq) - chunk_begin in
              let same : take m rest ≡ take (chunk_end - chunk_begin) rest =
                take-min chunk_end (length seq) chunk_begin rest
                  (omega (arith, length-drop chunk_begin seq)) in
              rw (lt→leb chunk_end chunk_begin some_range, lt→leb (length seq) chunk_begin there)
                (
                  renumber-contents l d 0 (take m rest) ∙ ap (contents l d) same ∙ slice,
                  record {
                    indexed = renumber-indexed 0 (take m rest);
                    dense = renumber-IsDense l 0 (take m rest) (IsDense-take l m rest dense);
                    stored =
                        renumber-IsStored l d 0 (take m rest)
                          (All-take _ m rest (All-drop _ chunk_begin seq v.stored));
                  },
                )
        ]
      ]
