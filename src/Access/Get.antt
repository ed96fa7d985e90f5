-- ===== src/Access/Get.antt =====
-- `operator[]` is indexing into the logical sequence.
use plaidlaylib.Prelude.{
  ℕ, zero, suc, ◌+◌, ◌-◌, ◌*◌, ◌≤◌, ◌<◌, ◌≡◌, refl, sym, ap, ◌∙◌, none, some, List, [], ◌∷◌, ◌++◌,
  length, get_elem?, All, take, arith, dec_lt, append-nil, mul-div-cancel, mul-lt_right,
  mul-le_right, div_unique, ap₂, Option-cases, inl, inr, div-add_self, div-lt, lt→ltb, le→ltb,
  length-append,
}
use mathlib.Core.Option.{none-ne-some}
use plaidlaylib.Layout.{Layout, IsLayout, epc}
use plaidlaylib.Disk.{Disk}
use plaidlaylib.Chunk.{Chunk, ChunkSeq, IsWellFormed, IsDense, count, contents, read_chunk}
use plaidlaylib.Chunk.Read.{Reads, Reads-all}
use plaidlaylib.Access.{get_in_chunk, get}
use plaidlaylib.Access.Blocks.{InBlocks, fits}

module _ {A : Type 0} where
  pub get_elem?-append_left :
      (xs ys : List A) (i : ℕ) → i < length xs → get_elem? (xs ++ ys) i ≡ get_elem? xs i
  get_elem?-append_left [] ys i h = absurd (omega arith)
  get_elem?-append_left (x ∷ xs) ys zero h = refl
  get_elem?-append_left (x ∷ xs) ys (suc i) h = get_elem?-append_left xs ys i (omega arith)

  pub get_elem?-append_right :
      (xs ys : List A) (i : ℕ) → get_elem? (xs ++ ys) (length xs + i) ≡ get_elem? ys i
  get_elem?-append_right [] ys i = ap (get_elem? ys) {x = 0 + i} {y = i} (omega arith)
  get_elem?-append_right (x ∷ xs) ys i =
      ap (get_elem? (x ∷ (xs ++ ys))) {x = suc (length xs) + i} {y = suc (length xs + i)}
        (omega arith)
      ∙ get_elem?-append_right xs ys i

  pub get_elem?-take :
      (n : ℕ) (xs : List A) (i : ℕ) → i < n → get_elem? (take n xs) i ≡ get_elem? xs i
  get_elem?-take zero xs i h = absurd (omega arith)
  get_elem?-take (suc n) [] i h = refl
  get_elem?-take (suc n) (x ∷ xs) zero h = refl
  get_elem?-take (suc n) (x ∷ xs) (suc i) h = get_elem?-take n xs i (omega arith)

  pub get_elem?-none : (xs : List A) (i : ℕ) → length xs ≤ i → get_elem? xs i ≡ none
  get_elem?-none [] i h = refl
  get_elem?-none (x ∷ xs) zero h = absurd (omega arith)
  get_elem?-none (x ∷ xs) (suc i) h = get_elem?-none xs i (omega arith)

module _ (l : Layout) (w : IsLayout l) (b : InBlocks l) {A : Type 0} (d : Disk A) where
  -- Within one chunk.
  in_chunk :
      (c : Chunk) (i : ℕ)
      → Reads l w d c
      → get_in_chunk l d (some c) (i * l.elem_size) ≡ get_elem? (read_chunk l d c) i
  unfolding get_in_chunk
  in_chunk c i r = elim (dec_lt i (count l c)) [
    | yes inside ↦
        let bound : i * l.elem_size < c.used =
          omega (arith, r.1, mul-lt_right i (count l c) l.elem_size w.elem_pos inside) in
        rw (lt→ltb _ _ bound, fits l w.elem_pos b i, mul-div-cancel i l.elem_size w.elem_pos)
          (sym (get_elem?-take (count l c) (d c.filename c.begin_addr) i inside))
    | no outside ↦
        let bound : c.used ≤ i * l.elem_size =
          omega (arith, r.1, mul-le_right (count l c) i l.elem_size (omega arith)) in
        rw (le→ltb _ _ bound) (sym (get_elem?-none (read_chunk l d c) i (omega (arith, r.0))))
  ]

  get-step :
      (c : Chunk) (cs : ChunkSeq) (i : ℕ)
      → (i < epc l → get l d (c ∷ cs) i ≡ get_in_chunk l d (some c) (i * l.elem_size))
        × (get l d (c ∷ cs) (epc l + i) ≡ get l d cs i)
  unfolding get
  get-step c cs i =
      let later = div-add_self i (epc l) w.epc_pos in
      (λ h. let first = div-lt i (epc l) h in rw (first.0, first.1), rw (later.0, later.1))

  get-nil : (i : ℕ) → get l d [] i ≡ none
  unfolding get
  get-nil i = refl

  get-contents_lem :
      (seq : ChunkSeq) (i : ℕ)
      → IsDense l seq
      → All (Reads l w d) seq
      → get l d seq i ≡ get_elem? (contents l d seq) i
  get-contents_lem [] i h r = get-nil i
  get-contents_lem (c ∷ []) i h r = elim (dec_lt i (epc l)) [
    | yes here ↦
        (get-step c [] i).0 here
        ∙ in_chunk c i r.0
        ∙ ap (λ xs. get_elem? xs i) (sym (append-nil (read_chunk l d c)))
    | no later ↦
        ap (get l d (c ∷ [])) {x = i} {y = epc l + (i - epc l)} (omega arith)
        ∙ (get-step c [] (i - epc l)).1
        ∙ get-nil (i - epc l)
        ∙ sym (
            get_elem?-none (read_chunk l d c ++ []) i
              (omega (arith, length-append (read_chunk l d c) [], r.0.0, h.1)))
  ]
  get-contents_lem (c ∷ e ∷ cs) i h r =
      let full : length (read_chunk l d c) ≡ epc l = r.0.0 ∙ h.1 in
      elim (dec_lt i (epc l)) [
        | yes here ↦
            (get-step c (e ∷ cs) i).0 here
            ∙ in_chunk c i r.0
            ∙ sym (get_elem?-append_left (read_chunk l d c) _ i (omega (arith, full)))
        | no later ↦
            ap (get l d (c ∷ e ∷ cs)) {x = i} {y = epc l + (i - epc l)} (omega arith)
            ∙ (get-step c (e ∷ cs) (i - epc l)).1
            ∙ get-contents_lem (e ∷ cs) (i - epc l) h.2 r.1
            ∙ sym (get_elem?-append_right (read_chunk l d c) _ (i - epc l))
            ∙ ap (get_elem? (contents l d (c ∷ e ∷ cs)))
                {x = length (read_chunk l d c) + (i - epc l)} {y = i} (omega (arith, full))
      ]

  -- Where sizeof(T) divides O_DIRECT_MULTIPLE, `seq[i]` of a well-formed sequence is element `i` of
  -- the logical sequence, read inside one block, and fails a CHECK exactly where there is none.
  pub get-contents :
      (seq : ChunkSeq) (i : ℕ)
      → IsWellFormed l d seq
      → get l d seq i ≡ get_elem? (contents l d seq) i
  get-contents seq i v = get-contents_lem seq i v.dense (Reads-all l w d seq v.dense v.stored)

  -- What `operator[]` returns stands in the block of its chunk.
  pub get-block :
      (seq : ChunkSeq) (i k : ℕ) (a : A)
      → k < epc l
      → get l d seq (i * epc l + k) ≡ some a
      → (c : Chunk) × (get_elem? seq i ≡ some c)
        × (get_elem? (d c.filename c.begin_addr) k ≡ some a)
  unfolding get get_in_chunk
  get-block seq i k a small e =
      let parts = div_unique (i * epc l + k) (epc l) i k refl small in
      let off = ap (λ t. t * l.elem_size) parts.1 in
      let moved =
        sym (ap₂ (λ ci t. get_in_chunk l d (get_elem? seq ci) (t * l.elem_size)) parts.0 parts.1)
        ∙ e in
      elim (Option-cases (get_elem? seq i)) [
        | inl missing ↦
            absurd (
              none-ne-some a (sym (ap (λ o. get_in_chunk l d o (k * l.elem_size)) missing) ∙ moved))
        | inr (c, there) ↦
            let in_it = sym (ap (λ o. get_in_chunk l d o (k * l.elem_size)) there) ∙ moved in
            (c, there, in_used c in_it)
      ]
    where
      in_used :
          (c : Chunk)
          → get_in_chunk l d (some c) (k * l.elem_size) ≡ some a
          → get_elem? (d c.filename c.begin_addr) k ≡ some a
      in_used c h = elim (dec_lt (k * l.elem_size) c.used) [
        | yes lt ↦
            ap (get_elem? (d c.filename c.begin_addr))
              (sym (mul-div-cancel k l.elem_size w.elem_pos))
            ∙ rw (lt→ltb (k * l.elem_size) c.used lt, fits l w.elem_pos b k) at h
        | no ge ↦ absurd (none-ne-some a (rw (le→ltb (k * l.elem_size) c.used (omega arith)) at h))
      ]
