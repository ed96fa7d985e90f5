-- ===== src/Delayed/Leaf.antt =====
-- `delay`: a leaf denotes the logical sequence of its source.
use plaidlaylib.Prelude.{
  ℕ, zero, suc, ◌+◌, ◌*◌, ◌/◌, ◌%◌, ◌≤◌, ◌<◌, ◌≡◌, refl, sym, ap, ◌∙◌, subst, some, List, [], ◌∷◌,
  ◌++◌, map, length, get_elem?, get_or, arith, lt→ltb, le→ltb, dec_lt, get_or_at, length-append,
  append_assoc, lt_of_mul, mul-le_right, div_unique,
}
use mathlib.Core.Option.{some-injective, none-ne-some}
use plaidlaylib.Layout.{
  Layout, IsLayout, epc, grid_num_chunks, grid_chunk_len, size_t_mod, o_direct_multiple,
}
use plaidlaylib.Layout.Bounds.{lt-grid_chunk_len, grid_num_chunks_bounds}
use plaidlaylib.Disk.{Disk}
use plaidlaylib.Chunk.{Chunk, ChunkSeq, IndexedFrom, IsWellFormed, contents}
use plaidlaylib.Chunk.Read.{size-contents}
use plaidlaylib.Access.Blocks.{InBlocks}
use plaidlaylib.Access.Get.{get-contents, get-block}
use plaidlaylib.Delayed.{Planner, elems_per_chunk, need, next, nowhere, leaf_source, delay}
use plaidlaylib.Delayed.Plan.{Extends, Extends-refl, Needed, need-Needed, get_or-front}
use plaidlaylib.Delayed.Denotes.{Denotes, resolver_at}

indexed-get_or :
    (k i : ℕ) (seq : ChunkSeq)
    → IndexedFrom k seq
    → i < length seq
    → (get_or seq i nowhere).index ≡ k + i
indexed-get_or k i [] h lt = absurd (omega arith)
indexed-get_or k zero (c ∷ seq) h lt = omega (arith, h.0)
indexed-get_or k (suc i) (c ∷ seq) h lt =
    omega (arith, indexed-get_or (k + 1) i seq h.1 (omega arith))

get_or-mapped :
    {A B : Type 0} (f : A → B) (xs : List A) (i : ℕ) (y : A) (z : B)
    → i < length xs
    → get_or (map f xs) i z ≡ f (get_or xs i y)
get_or-mapped f [] i y z h = absurd (omega arith)
get_or-mapped f (x ∷ xs) zero y z h = refl
get_or-mapped f (x ∷ xs) (suc i) y z h = get_or-mapped f xs i y z (omega arith)

get_or-some :
    {A : Type 0} (xs : List A) (i : ℕ) (z a : A) → get_elem? xs i ≡ some a → get_or xs i z ≡ a
get_or-some [] i z a h = absurd (none-ne-some a h)
get_or-some (x ∷ xs) zero z a h = some-injective x a h
get_or-some (x ∷ xs) (suc i) z a h = get_or-some xs i z a h

get_elem?-below :
    {A : Type 0} (xs : List A) (i : ℕ) (a : A) → get_elem? xs i ≡ some a → i < length xs
get_elem?-below [] i a h = absurd (none-ne-some a h)
get_elem?-below (x ∷ xs) zero a h = omega arith
get_elem?-below (x ∷ xs) (suc i) a h = omega (arith, get_elem?-below xs i a h)

get_elem?-inside :
    {A : Type 0} (xs : List A) (i : ℕ) (z : A)
    → i < length xs
    → get_elem? xs i ≡ some (get_or xs i z)
get_elem?-inside [] i z h = absurd (omega arith)
get_elem?-inside (x ∷ xs) zero z h = refl
get_elem?-inside (x ∷ xs) (suc i) z h = get_elem?-inside xs i z (omega arith)

module _ (l : Layout) (w : IsLayout l) {T : Type 0} (zero_elem : T) (d : Disk T)
    (sources : ℕ → ChunkSeq) (src : ℕ) (seq : ChunkSeq) (own : sources src ≡ seq)
    (v : IsWellFormed l d seq) (wide : l.elem_size ≡ 8)
    (fits : length (contents l d seq) + epc l ≤ size_t_mod) where
  -- A leaf that needs a chunk gets its buffer, whatever other leaves share it or come later.
  next-Needed :
      (c : Chunk) (p s q : Planner)
      → Needed sources c p s
      → Extends s q
      → (next (resolver_at l d sources q (length p.leaf_slots))).0 ≡ d c.filename c.begin_addr
  unfolding next
  next-Needed c p s q n e =
      let slot : get_or q.leaf_slots (length p.leaf_slots) 0 ≡ n.slot =
        ap (λ t. get_or t (length p.leaf_slots) 0)
          (e.slots
            ∙ ap (λ t. t ++ e.more_slots) n.slots
            ∙ append_assoc p.leaf_slots (n.slot ∷ []) e.more_slots)
        ∙ get_or_at p.leaf_slots e.more_slots 0 n.slot in
      let block : Chunk → List T = λ b. d b.filename b.begin_addr in
      let wide_enough : n.slot < length q.unique_reads =
        omega (arith, n.inside, ap length e.reads, length-append s.unique_reads e.more_reads) in
      ap (λ k. get_or (map block q.unique_reads) k []) slot
      ∙ get_or-mapped block q.unique_reads n.slot nowhere [] wide_enough
      ∙ ap (λ (t : List Chunk). block (get_or t n.slot nowhere)) e.reads
      ∙ ap block
          (get_or-front sources s.unique_reads e.more_reads n.slot nowhere n.inside ∙ n.holds)

  abbrev xs : List T
  xs = contents l d seq

  abbrev chunk : ℕ → Chunk
  chunk i = get_or seq i nowhere

  grid : epc l ≡ elems_per_chunk l
  grid = ap (λ s. l.chunk_size / s) wide

  in_blocks : InBlocks l
  in_blocks = ap (λ s. o_direct_multiple % s) wide

  -- A place of the sequence lies in the block of its chunk.
  block-contents :
      (i k : ℕ)
      → k < epc l
      → i * epc l + k < length xs
      → (i < length seq)
        × (get_or (d (chunk i).filename (chunk i).begin_addr) k zero_elem
            ≡ get_or xs (i * epc l + k) zero_elem)
  block-contents i k small inside =
      let parts = div_unique (i * epc l + k) (epc l) i k refl small in
      let here =
        get-contents l w in_blocks d seq (i * epc l + k) v
        ∙ get_elem?-inside xs (i * epc l + k) zero_elem inside in
      let at = get-block l w in_blocks d seq i k (get_or xs (i * epc l + k) zero_elem) small here in
      let c = at.0 in
      let c_eq : chunk i ≡ c = get_or-some seq i nowhere c at.1 in
      (
        get_elem?-below seq i c at.1,
        ap (λ (b : Chunk). get_or (d b.filename b.begin_addr) k zero_elem) c_eq
            ∙ get_or-some (d c.filename c.begin_addr) k zero_elem
                (get_or xs (i * epc l + k) zero_elem) at.2,
      )

  chunk_below : (i : ℕ) → i < grid_num_chunks (epc l) (length xs) → i < length seq
  chunk_below i lt =
      let above = (grid_num_chunks_bounds (epc l) w.epc_pos (length xs) fits).1 in
      let room = mul-le_right (suc i) (grid_num_chunks (epc l) (length xs)) (epc l) (omega arith) in
      (block-contents i 0 w.epc_pos (grind (arith, above, room))).0

  chunk_read : (i : ℕ) → i < length seq → chunk i ≡ get_or (sources src) (chunk i).index nowhere
  chunk_read i lt =
      ap (λ k. get_or seq k nowhere) {x = i} {y = (chunk i).index}
        (omega (arith, indexed-get_or 0 i seq v.indexed lt))
      ∙ ap (λ (t : ChunkSeq). get_or t (chunk i).index nowhere) (sym own)

  -- The leaf that `delay` makes of a well-formed sequence of 8-byte elements.
  leaf_source-Denotes :
      Denotes l d sources
        (leaf_source l zero_elem src seq (length xs))
        (length xs)
        (λ j. get_or xs j zero_elem)
  unfolding leaf_source next
  leaf_source-Denotes = record {
    size = refl;
    chunks = ap (λ e. grid_num_chunks e (length xs)) grid;
    sizes = λ i. ap (λ e. grid_chunk_len e (length xs) i) grid;
    planned = λ i p h. elim (dec_lt i (grid_num_chunks (epc l) (length xs))) [
      | yes lt ↦
          let n = need-Needed sources src (chunk i) p h (chunk_read i (chunk_below i lt)) in
          rw (lt→ltb i (grid_num_chunks (epc l) (length xs)) lt) (n.extends, n.plan)
      | no ge ↦
          rw (le→ltb i (grid_num_chunks (epc l) (length xs)) (omega arith)) (Extends-refl p, h)
    ];
    resolved = λ i p q h e. elim (dec_lt i (grid_num_chunks (epc l) (length xs))) [
      | yes lt ↦
          let n = need-Needed sources src (chunk i) p h (chunk_read i (chunk_below i lt)) in
          rw (lt→ltb i (grid_num_chunks (epc l) (length xs)) lt) (
            ap (resolver_at l d sources q) {x = length p.leaf_slots + 1}
              {y = length (need src (chunk i) p).leaf_slots}
              (omega (arith, ap length n.slots, length-append p.leaf_slots (n.slot ∷ []))))
      | no ge ↦ rw (le→ltb i (grid_num_chunks (epc l) (length xs)) (omega arith)) refl
    ];
    built = λ i p q h e k lt.
        let inside = (lt-grid_chunk_len (elems_per_chunk l) (length xs) i k).0 lt in
        let small : k < epc l = omega (arith, grid, inside.0) in
        let place : i * epc l + k ≡ i * elems_per_chunk l + k = ap (λ t. i * t + k) grid in
        let room = (grid_num_chunks_bounds (epc l) w.epc_pos (length xs) fits).0 in
        let some_chunk : i < grid_num_chunks (epc l) (length xs) =
          lt_of_mul i (grid_num_chunks (epc l) (length xs)) (epc l)
            (omega (arith, room, place, inside.1)) in
        let test = lt→ltb i (grid_num_chunks (epc l) (length xs)) some_chunk in
        let e' : Extends (need src (chunk i) p) q = rw test at e in
        let n = need-Needed sources src (chunk i) p h (chunk_read i (chunk_below i some_chunk)) in
        rw test (
          ap (λ buf. get_or buf k zero_elem) (next-Needed (chunk i) p (need src (chunk i) p) q n e')
          ∙ (block-contents i k small (omega (arith, place, inside.1))).1
          ∙ ap (λ j. get_or xs j zero_elem) place);
  }

  -- `delay` of a well-formed sequence of 8-byte elements, with length plus `epc` at most 2^64, denotes
  -- its logical sequence.
  pub delay-Denotes :
      Denotes l d sources
        (delay l zero_elem src seq)
        (length (contents l d seq))
        (λ j. get_or (contents l d seq) j zero_elem)
  unfolding delay
  delay-Denotes =
      subst
        (λ n.
          Denotes l d sources (leaf_source l zero_elem src seq n) (length xs)
            (λ j. get_or xs j zero_elem))
        (sym (size-contents l w d seq v.dense v.stored)) leaf_source-Denotes
