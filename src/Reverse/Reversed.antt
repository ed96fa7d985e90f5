-- ===== src/Reverse/Reversed.antt =====
-- `reverse` reverses the logical sequence, in whatever order its chunks are handled.
use mathlib.Core.List
use mathlib.Core.List.{Permᴰ, reverse-append}
use plaidlaylib.Prelude.{
  ◌+◌, ◌-◌, ◌≤◌, ◌<◌, ◌≡◌, refl, sym, ap, ap₂, subst, ◌∙◌, inl, inr, List, [], ◌∷◌, ◌++◌,
  take-append-drop, take-append_left, All, All-perm, length, length-take, take, drop, lt→ltb,
  le→ltb, dec_lt, arith,
}
use plaidlaylib.Layout.{Layout, IsLayout}
use plaidlaylib.Disk.{Disk, write_block_self, write_block_ne}
use plaidlaylib.Chunk.{Chunk, ChunkSeq, IndexedFrom, IsDense, IsStored, count, read_chunk, contents}
use plaidlaylib.Chunk.Read.{Reads, Reads-all}
use plaidlaylib.Access.Placed.{Apart, Separate, All-imp, contents-snoc}
use plaidlaylib.Reindex.Contents.{renumber-indexed, renumber-contents}
use plaidlaylib.Reverse.{swap_ends, reverse_chunk_contents, reverse_chunks, reverse}
use plaidlaylib.Reverse.Swapped.{swap_ends-reverse}

perm_sym : {A : Type 0} {xs ys : List A} → Permᴰ xs ys → Permᴰ ys xs
perm_sym Permᴰ.nil = Permᴰ.nil
perm_sym (Permᴰ.cons e p) = Permᴰ.cons (sym e) (perm_sym p)
perm_sym (Permᴰ.swap e₁ e₂) = Permᴰ.swap (sym e₂) (sym e₁)
perm_sym (Permᴰ.trans p q) = Permᴰ.trans (perm_sym q) (perm_sym p)

Apart-sym : (c e : Chunk) → Apart c e → Apart e c
Apart-sym c e (inl h) = inl (λ q. h (sym q))
Apart-sym c e (inr h) = inr (λ q. h (sym q))

Separate-perm : {xs ys : List Chunk} → Permᴰ xs ys → Separate xs → Separate ys
Separate-perm Permᴰ.nil s = s
Separate-perm (Permᴰ.cons {a} {b} {l₁} {l₂} e p) s =
    (subst (λ c. All (Apart c) l₂) e (All-perm (Apart a) p s.0), Separate-perm p s.1)
Separate-perm (Permᴰ.swap {a} {b} {a'} {b'} {l = rest} e₁ e₂) s =
    let swapped : Separate (b ∷ a ∷ rest) = ((Apart-sym a b s.0.0, s.1.0), (s.0.1, s.1.1)) in
    subst (λ c. Separate (a' ∷ c ∷ rest)) e₁ (subst (λ c. Separate (c ∷ a ∷ rest)) e₂ swapped)
Separate-perm (Permᴰ.trans p q) s = Separate-perm q (Separate-perm p s)

length-reverse_aux :
    {A : Type 0} (xs ys : List A) → length (List.reverse_aux xs ys) ≡ length xs + length ys
length-reverse_aux [] ys = omega arith
length-reverse_aux (x ∷ xs) ys = omega (arith, length-reverse_aux xs (x ∷ ys))

length-reverse : {A : Type 0} (xs : List A) → length (List.reverse xs) ≡ length xs
length-reverse xs = omega (arith, length-reverse_aux xs [])

short_reverse : {A : Type 0} (xs : List A) → length xs < 2 → List.reverse xs ≡ xs
short_reverse [] h = refl
short_reverse (x ∷ []) h = refl
short_reverse (x ∷ y ∷ xs) h = absurd (omega arith)

module _ {A : Type 0} (zero_elem : A) (l : Layout) (w : IsLayout l) where
  -- One chunk reads back reversed.
  chunk-reversed :
      (c : Chunk) (d : Disk A)
      → count l c ≤ length (d c.filename c.begin_addr)
      → read_chunk l (reverse_chunk_contents zero_elem l c d) c ≡ List.reverse (read_chunk l d c)
  unfolding reverse_chunk_contents
  chunk-reversed c d room =
      let n = count l c in
      let block = d c.filename c.begin_addr in
      let size : length (take n block) ≡ n = omega (arith, length-take n block, room) in
      elim (dec_lt n 2) [
        | yes short ↦
            rw (lt→ltb n 2 short) (sym (short_reverse (take n block) (omega (arith, size))))
        | no long ↦
            let loop : swap_ends zero_elem n 0 (n - 1) block
                ≡ List.reverse (take n block) ++ drop n block =
              ap (swap_ends zero_elem n 0 (n - 1)) (sym (take-append-drop n block))
              ∙ swap_ends-reverse zero_elem n 0 (n - 1) [] (take n block) (drop n block) refl
                  (omega (arith, size)) (omega (arith, size)) in
            rw (le→ltb n 2 (omega arith)) (
              ap (take n) (
                write_block_self c.filename c.begin_addr (swap_ends zero_elem n 0 (n - 1) block) d
                ∙ loop)
              ∙ take-append_left n (List.reverse (take n block)) (drop n block)
                  (sym (length-reverse (take n block) ∙ size)))
      ]

  reverse_chunk-other :
      (c e : Chunk) (d : Disk A)
      → Apart c e
      → reverse_chunk_contents zero_elem l c d e.filename e.begin_addr ≡ d e.filename e.begin_addr
  unfolding reverse_chunk_contents
  reverse_chunk-other c e d h = elim (dec_lt (count l c) 2) [
    | yes short ↦ rw (lt→ltb (count l c) 2 short) refl
    | no long ↦
        rw (le→ltb (count l c) 2 (omega arith))
          (write_block_ne c.filename c.begin_addr _ d e.filename e.begin_addr (Apart-sym c e h))
  ]

  reverse_chunks-other :
      (order : List Chunk) (c : Chunk) (d : Disk A)
      → All (Apart c) order
      → reverse_chunks zero_elem l order d c.filename c.begin_addr ≡ d c.filename c.begin_addr
  unfolding reverse_chunks
  reverse_chunks-other [] c d h = refl
  reverse_chunks-other (e ∷ order) c d h =
      reverse_chunks-other order c (reverse_chunk_contents zero_elem l e d) h.1
      ∙ reverse_chunk-other e c d (Apart-sym c e h.0)

  abbrev Reversed : Disk A → Disk A → Chunk → Type 0
  Reversed d d' c = read_chunk l d' c ≡ List.reverse (read_chunk l d c)

  untouched :
      (order : List Chunk) (c : Chunk) (d d₁ : Disk A)
      → All (Apart c) order
      → All (λ e. d₁ e.filename e.begin_addr ≡ d e.filename e.begin_addr) order
      → All
          (λ e.
            reverse_chunk_contents zero_elem l c d₁ e.filename e.begin_addr
            ≡ d e.filename e.begin_addr)
          order
  untouched [] c d d₁ h same = tt
  untouched (e ∷ order) c d d₁ h same =
      (reverse_chunk-other c e d₁ h.0 ∙ same.0, untouched order c d d₁ h.1 same.1)

  all-Reversed :
      (order : List Chunk) (d d₁ : Disk A)
      → Separate order
      → All (λ c. count l c ≤ length (d c.filename c.begin_addr)) order
      → All (λ c. d₁ c.filename c.begin_addr ≡ d c.filename c.begin_addr) order
      → All (Reversed d (reverse_chunks zero_elem l order d₁)) order
  unfolding reverse_chunks
  all-Reversed [] d d₁ s room same = tt
  all-Reversed (c ∷ order) d d₁ s room same =
      let d₂ = reverse_chunk_contents zero_elem l c d₁ in
      (
        ap (take (count l c)) (reverse_chunks-other order c d₂ s.0)
            ∙ chunk-reversed c d₁ (omega (arith, room.0, ap length same.0))
            ∙ ap (λ b. List.reverse (take (count l c) b)) same.0,
        all-Reversed order d d₂ s.1 room.1 (untouched order c d d₁ s.0 same.1),
      )

  Reversed-contents :
      (seq : ChunkSeq) (d d' : Disk A)
      → All (Reversed d d') seq
      → contents l d' (List.reverse seq) ≡ List.reverse (contents l d seq)
  Reversed-contents [] d d' h = refl
  Reversed-contents (c ∷ seq) d d' h =
      ap (contents l d') (reverse-append (c ∷ []) seq)
      ∙ contents-snoc l d' (List.reverse seq) c
      ∙ ap₂ ◌++◌ (Reversed-contents seq d d' h.1) h.0
      ∙ sym (reverse-append (read_chunk l d c) (contents l d seq))

  -- `reverse` of a dense, stored sequence whose chunks have blocks of their own returns a sequence,
  -- numbered from 0, that reads back as the reversed elements, in whatever order its chunks are
  -- handled.
  pub reverse-contents :
      (order : List Chunk) (d : Disk A) (seq : ChunkSeq)
      → Permᴰ order seq
      → IsDense l seq
      → IsStored l d seq
      → Separate seq
      → let (out, d') = reverse zero_elem l order d seq in
        (contents l d' out ≡ List.reverse (contents l d seq)) × IndexedFrom 0 out
  unfolding reverse
  reverse-contents order d seq p dense stored s =
      let d' = reverse_chunks zero_elem l order d in
      let rooms : All (λ c. count l c ≤ length (d c.filename c.begin_addr)) seq =
        All-imp (Reads l w d) (λ c. count l c ≤ length (d c.filename c.begin_addr)) seq
          (λ c r. omega (arith, r.0, length-take (count l c) (d c.filename c.begin_addr)))
          (Reads-all l w d seq dense stored) in
      let sep = Separate-perm (perm_sym p) s in
      let rooms' =
        All-perm (λ c. count l c ≤ length (d c.filename c.begin_addr)) (perm_sym p) rooms in
      let done = all-Reversed order d d sep rooms' (
        All-imp (λ c. count l c ≤ length (d c.filename c.begin_addr))
          (λ c. d c.filename c.begin_addr ≡ d c.filename c.begin_addr) order (λ c r. refl)
          rooms') in
      (
        renumber-contents l d' 0 (List.reverse seq)
            ∙ Reversed-contents seq d d' (All-perm _ p done),
        renumber-indexed 0 (List.reverse seq),
      )
