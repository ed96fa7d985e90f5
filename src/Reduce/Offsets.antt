-- ===== src/Reduce/Offsets.antt =====
-- Pass 1 and step 2 of `ChunkScan`: the seed of each chunk.
use mathlib.Core.List.{Permᴰ}
use mathlib.Core.List.Permᴰ
use mathlib.Core.Option.{some-injective, none-ne-some}
use plaidlaylib.Prelude.{
  ℕ, zero, suc, ◌+◌, ◌≤◌, ◌<◌, ◌≡◌, refl, sym, ap, ap₂, subst, ◌∙◌, ◌≢◌, ◌⊎◌, inl, inr, some, List,
  [], ◌∷◌, ◌++◌, All, All-perm, map, length, get_elem?, set, length-map, length-append,
  append_assoc, arith, ℕ_discrete,
}
use plaidlaylib.Layout.{Layout}
use plaidlaylib.Disk.{Disk}
use plaidlaylib.Chunk.{Chunk, ChunkSeq, IndexedFrom, read_chunk}
use plaidlaylib.Reduce.{fold_buffer, sum_chunks}

module _ {A : Type 0} where
  get_elem?-set_self :
      (xs : List A) (i : ℕ) (v : A) → i < length xs → get_elem? (set xs i v) i ≡ some v
  get_elem?-set_self [] i v h = absurd (omega arith)
  get_elem?-set_self (x ∷ xs) zero v h = refl
  get_elem?-set_self (x ∷ xs) (suc i) v h = get_elem?-set_self xs i v (omega arith)

  get_elem?-set_other :
      (xs : List A) (i j : ℕ) (v : A) → j ≢ i → get_elem? (set xs i v) j ≡ get_elem? xs j
  get_elem?-set_other [] i j v ne = refl
  get_elem?-set_other (x ∷ xs) zero zero v ne = absurd (ne refl)
  get_elem?-set_other (x ∷ xs) zero (suc j) v ne = refl
  get_elem?-set_other (x ∷ xs) (suc i) zero v ne = refl
  get_elem?-set_other (x ∷ xs) (suc i) (suc j) v ne =
      get_elem?-set_other xs i j v (λ e. ne (ap suc e))

  length-set : (xs : List A) (i : ℕ) (v : A) → length (set xs i v) ≡ length xs
  length-set [] i v = refl
  length-set (x ∷ xs) zero v = refl
  length-set (x ∷ xs) (suc i) v = ap suc (length-set xs i v)

  -- Lists of one length that agree at every index are equal.
  list_ext :
      (xs ys : List A)
      → length xs ≡ length ys
      → ((i : ℕ) → i < length xs → get_elem? xs i ≡ get_elem? ys i)
      → xs ≡ ys
  list_ext [] [] e h = refl
  list_ext [] (y ∷ ys) e h = absurd (omega arith)
  list_ext (x ∷ xs) [] e h = absurd (omega arith)
  list_ext (x ∷ xs) (y ∷ ys) e h =
      ap₂ ◌∷◌ (some-injective x y (h 0 (omega arith)))
        (list_ext xs ys (omega arith) (λ i lt. h (suc i) (omega arith)))

get_elem?-map :
    {A B : Type 0} (f : A → B) (xs : List A) (i : ℕ) (a : A)
    → get_elem? xs i ≡ some a
    → get_elem? (map f xs) i ≡ some (f a)
get_elem?-map f [] i a h = absurd (none-ne-some _ h)
get_elem?-map f (x ∷ xs) zero a h = ap (λ t. some (f t)) (some-injective x a h)
get_elem?-map f (x ∷ xs) (suc i) a h = get_elem?-map f xs i a h

-- A list has a chunk with index `i`.
abbrev Has : ℕ → List Chunk → Type 0
Has i [] = ⊥
Has i (c ∷ cs) = (c.index ≡ i) ⊎ Has i cs

Has-perm : (i : ℕ) {xs ys : List Chunk} → Permᴰ xs ys → Has i xs → Has i ys
Has-perm i Permᴰ.nil h = h
Has-perm i (Permᴰ.cons e p) (inl h) = inl (ap (λ (c : Chunk). c.index) (sym e) ∙ h)
Has-perm i (Permᴰ.cons e p) (inr h) = inr (Has-perm i p h)
Has-perm i (Permᴰ.swap e₁ e₂) (inl h) = inr (inl (ap (λ (c : Chunk). c.index) (sym e₁) ∙ h))
Has-perm i (Permᴰ.swap e₁ e₂) (inr (inl h)) = inl (ap (λ (c : Chunk). c.index) (sym e₂) ∙ h)
Has-perm i (Permᴰ.swap e₁ e₂) (inr (inr h)) = inr (inr h)
Has-perm i (Permᴰ.trans p q) h = Has-perm i q (Has-perm i p h)

-- In an indexed sequence each chunk stands at its index.
Placed : ChunkSeq → Chunk → Type 0
Placed seq c = (c.index < length seq) × (get_elem? seq c.index ≡ some c)

get_elem?-behind :
    (pre cs : List Chunk) (c : Chunk) → get_elem? (pre ++ (c ∷ cs)) (length pre) ≡ some c
get_elem?-behind [] cs c = refl
get_elem?-behind (e ∷ pre) cs c = get_elem?-behind pre cs c

indexed-Placed :
    (seq pre cs : List Chunk) → seq ≡ pre ++ cs → IndexedFrom (length pre) cs → All (Placed seq) cs
unfolding Placed
indexed-Placed seq pre [] e h = tt
indexed-Placed seq pre (c ∷ cs) e h =
    let size = ap length e ∙ length-append pre (c ∷ cs) in
    let next : length pre + 1 ≡ length (pre ++ (c ∷ [])) = sym (length-append pre (c ∷ [])) in
    (
      (
        omega (arith, size, h.0),
        ap (get_elem? seq) h.0 ∙ ap (λ t. get_elem? t (length pre)) e ∙ get_elem?-behind pre cs c,
      ),
      indexed-Placed seq (pre ++ (c ∷ [])) cs (e ∙ sym (append_assoc pre (c ∷ []) cs))
          (subst (λ t. IndexedFrom t cs) next h.1),
    )

indexed-Has : (k i : ℕ) (cs : List Chunk) → IndexedFrom k cs → k ≤ i → i < k + length cs → Has i cs
indexed-Has k i [] h low high = absurd (omega arith)
indexed-Has k i (c ∷ cs) h low high = elim (ℕ_discrete k i) [
  | yes e ↦ inl (h.0 ∙ e)
  | no ne ↦ inr (indexed-Has (k + 1) i cs h.1 (omega arith) (omega arith))
]

module _ (l : Layout) {R : Type 0} (op : R → R → R) (identity : R) (d : Disk R) where
  unfoldable pub chunk_sum : Chunk → R
  chunk_sum c = fold_buffer l op identity d identity (read_chunk l d c)

  length-sum_chunks :
      (polled : List Chunk) (v : List R) → length (sum_chunks l op identity d polled v) ≡ length v
  unfolding sum_chunks
  length-sum_chunks [] v = refl
  length-sum_chunks (c ∷ polled) v =
      length-sum_chunks polled _
      ∙ length-set v c.index (fold_buffer l op identity d identity (read_chunk l d c))

  set-chunk_sum :
      (seq : ChunkSeq) (c : Chunk) (v : List R) (i : ℕ)
      → Placed seq c
      → length v ≡ length seq
      → c.index ≡ i
      → get_elem? (set v c.index (chunk_sum c)) i ≡ get_elem? (map chunk_sum seq) i
  unfolding Placed
  set-chunk_sum seq c v i placed size e =
      ap (get_elem? (set v c.index (chunk_sum c))) (sym e)
      ∙ get_elem?-set_self v c.index (chunk_sum c) (omega (arith, placed.0, size))
      ∙ sym (get_elem?-map chunk_sum seq c.index c placed.1)
      ∙ ap (get_elem? (map chunk_sum seq)) e

  -- A sum that is written stays: later writes to its place write the same.
  sum_chunks-keeps :
      (seq : ChunkSeq) (polled : List Chunk) (v : List R) (i : ℕ)
      → All (Placed seq) polled
      → length v ≡ length seq
      → get_elem? v i ≡ get_elem? (map chunk_sum seq) i
      → get_elem? (sum_chunks l op identity d polled v) i ≡ get_elem? (map chunk_sum seq) i
  unfolding sum_chunks chunk_sum
  sum_chunks-keeps seq [] v i placed size e = e
  sum_chunks-keeps seq (c ∷ polled) v i placed size e =
      sum_chunks-keeps seq polled (set v c.index (chunk_sum c)) i placed.1
        (length-set v c.index (chunk_sum c) ∙ size)
        (elim (ℕ_discrete i c.index) [
          | no ne ↦ get_elem?-set_other v c.index i (chunk_sum c) ne ∙ e
          | yes here ↦ set-chunk_sum seq c v i placed.0 size (sym here)
        ])

  sum_chunks-reaches :
      (seq : ChunkSeq) (polled : List Chunk) (v : List R) (i : ℕ)
      → All (Placed seq) polled
      → length v ≡ length seq
      → Has i polled
      → get_elem? (sum_chunks l op identity d polled v) i ≡ get_elem? (map chunk_sum seq) i
  unfolding sum_chunks chunk_sum
  sum_chunks-reaches seq [] v i placed size h = elim h [ ]
  sum_chunks-reaches seq (c ∷ polled) v i placed size (inl e) =
      sum_chunks-keeps seq polled (set v c.index (chunk_sum c)) i placed.1
        (length-set v c.index (chunk_sum c) ∙ size) (set-chunk_sum seq c v i placed.0 size e)
  sum_chunks-reaches seq (c ∷ polled) v i placed size (inr h) =
      sum_chunks-reaches seq polled (set v c.index (chunk_sum c)) i placed.1
        (length-set v c.index (chunk_sum c) ∙ size) h

  -- In whatever order the chunks of the sequence arrive, pass 1 leaves each chunk's sum at its index.
  pub sum_chunks-map :
      (seq : ChunkSeq) (polled : List Chunk) (v : List R)
      → IndexedFrom 0 seq
      → Permᴰ polled seq
      → length v ≡ length seq
      → sum_chunks l op identity d polled v ≡ map chunk_sum seq
  sum_chunks-map seq polled v indexed perm size =
      let back = Permᴰ.symm perm in
      let len = length-sum_chunks polled v ∙ size in
      list_ext (sum_chunks l op identity d polled v) (map chunk_sum seq)
        (len ∙ sym (length-map seq chunk_sum))
        (λ i lt.
          sum_chunks-reaches seq polled v i
            (All-perm (Placed seq) back (indexed-Placed seq [] seq refl indexed)) size
            (Has-perm i back (indexed-Has 0 i seq indexed (omega arith) (omega (arith, len)))))
