-- ===== src/Delayed/Reduced.antt =====
-- The terminals `reduce` and `scan` of the delayed layer.
use plaidlaylib.Prelude.{
  ℕ, zero, suc, ◌+◌, ◌*◌, ◌≤◌, ◌<◌, min, ◌≡◌, refl, sym, ap, ap₂, ◌∙◌, subst, List, [], ◌∷◌, ◌++◌,
  ltb, length, get_or, arith, if◌then◌else◌, tabulate_from, tabulate_from_ext, tabulate_from-append,
  length-tabulate_from, lt→ltb, lt_of_mul, dec_lt,
}
use plaidlaylib.Layout.{Layout, grid_num_chunks, grid_chunk_len, size_t_mod}
use plaidlaylib.Layout.Bounds.{lt-grid_chunk_len, grid_prefix, grid_num_chunks_bounds}
use plaidlaylib.Disk.{Disk}
use plaidlaylib.Chunk.{ChunkSeq}
use plaidlaylib.Reduce.Fold.{IsMonoid, fold_left}
use plaidlaylib.Delayed.{
  nothing_planned, Node, elems_per_chunk, scan_iter, scan_node, chunk_values, fold_values,
  per_chunk_reduce, reduce, sums_before, scan,
}
use plaidlaylib.Delayed.Plan.{Extends-refl}
use plaidlaylib.Delayed.Denotes.{Denotes, resolver_at}

tabulate_from-shift :
    {A : Type 0} (s m : ℕ) (f : ℕ → A) (t : ℕ)
    → tabulate_from t m (λ k. f (s + k)) ≡ tabulate_from (s + t) m f
tabulate_from-shift s zero f t = refl
tabulate_from-shift s (suc m) f t = ap (◌∷◌ (f (s + t))) (
    tabulate_from-shift s m f (t + 1)
    ∙ ap (λ u. tabulate_from u m f) {x = s + (t + 1)} {y = s + t + 1} (omega arith))

get_or-tabulated :
    {A : Type 0} (z : A) (s n : ℕ) (f : ℕ → A) (i : ℕ)
    → i < n
    → get_or (tabulate_from s n f) i z ≡ f (s + i)
get_or-tabulated z s zero f i h = absurd (omega arith)
get_or-tabulated z s (suc n) f zero h = ap f {x = s} {y = s + 0} (omega arith)
get_or-tabulated z s (suc n) f (suc i) h =
    get_or-tabulated z (s + 1) n f i (omega arith)
    ∙ ap f {x = s + 1 + i} {y = s + suc i} (omega arith)

module _ (l : Layout) {T : Type 0} (d : Disk T) (sources : ℕ → ChunkSeq) {A : Type 0}
    (node : Node T A) (n : ℕ) (f : ℕ → A) (v : Denotes l d sources node n f) where
  -- The driver hands each chunk's body the elements of the chunk.
  pub chunk_values-Denotes :
      (i : ℕ)
      → chunk_values l d node i
        ≡ tabulate_from (i * elems_per_chunk l) (grid_chunk_len (elems_per_chunk l) n i) f
  unfolding chunk_values
  chunk_values-Denotes i =
      let p = node.plan i nothing_planned in
      let it = (node.build i (resolver_at l d sources p 0)).0 in
      ap (λ m. tabulate_from 0 m it) (v.sizes i)
      ∙ tabulate_from_ext 0 (grid_chunk_len (elems_per_chunk l) n i) it
          (λ k. f (i * elems_per_chunk l + k))
          (λ k low lt. v.built i nothing_planned p tt (Extends-refl p) k (omega arith))
      ∙ tabulate_from-shift (i * elems_per_chunk l) (grid_chunk_len (elems_per_chunk l) n i) f 0
      ∙ ap (λ s. tabulate_from s (grid_chunk_len (elems_per_chunk l) n i) f)
          {x = i * elems_per_chunk l + 0} {y = i * elems_per_chunk l} (omega arith)

  module _ (op : A → A → A) (identity : A) (m : IsMonoid op identity) (pos : 0 < elems_per_chunk l)
      (fits : n + elems_per_chunk l ≤ size_t_mod) where
    -- The reduction of the first `j` elements.
    abbrev pub upto : ℕ → A
    upto j = fold_left op identity (tabulate_from 0 j f)

    fold_left-more :
        (acc : A) (xs ys : List A)
        → fold_left op acc (xs ++ ys) ≡ fold_left op (fold_left op acc xs) ys
    fold_left-more acc [] ys = refl
    fold_left-more acc (x ∷ xs) ys = fold_left-more (op acc x) xs ys

    fold_left-acc :
        (acc : A) (xs : List A) → fold_left op acc xs ≡ op acc (fold_left op identity xs)
    fold_left-acc acc [] = sym (m.right acc)
    fold_left-acc acc (x ∷ xs) =
        fold_left-acc (op acc x) xs
        ∙ m.assoc acc x (fold_left op identity xs)
        ∙ ap (op acc) (sym (fold_left-acc x xs) ∙ ap (λ t. fold_left op t xs) (sym (m.left x)))

    fold_values-fold_left : (acc : A) (xs : List A) → fold_values op acc xs ≡ fold_left op acc xs
    unfolding fold_values
    fold_values-fold_left acc [] = refl
    fold_values-fold_left acc (x ∷ xs) = fold_values-fold_left (op acc x) xs

    upto-add : (j k : ℕ) → upto (j + k) ≡ op (upto j) (fold_left op identity (tabulate_from j k f))
    upto-add j k =
        ap (fold_left op identity) (
          sym (tabulate_from-append 0 j k f)
          ∙ ap (λ s. tabulate_from 0 j f ++ tabulate_from s k f) {x = 0 + j} {y = j} (omega arith))
        ∙ fold_left-more identity (tabulate_from 0 j f) (tabulate_from j k f)
        ∙ fold_left-acc (upto j) (tabulate_from j k f)

    pub upto-suc : (j : ℕ) → upto (j + 1) ≡ op (upto j) (f j)
    upto-suc j = upto-add j 1 ∙ ap (op (upto j)) (m.left (f j))

    -- The reduction of the first `i` chunks, and of one chunk.
    abbrev before_chunk : ℕ → A
    before_chunk i = upto (min n (i * elems_per_chunk l))

    abbrev chunk_sum : ℕ → A
    chunk_sum i = fold_values op identity (chunk_values l d node i)

    before_chunk-next : (i : ℕ) → op (before_chunk i) (chunk_sum i) ≡ before_chunk (i + 1)
    before_chunk-next i =
        let e = elems_per_chunk l in
        let g = grid_chunk_len e n i in
        let grown : min n (i * e) + g ≡ min n ((i + 1) * e) =
          grid_prefix e pos n i ∙ ap (λ t. min n (t * e)) {x = suc i} {y = i + 1} (omega arith) in
        let sum : chunk_sum i ≡ fold_left op identity (tabulate_from (i * e) g f) =
          fold_values-fold_left identity (chunk_values l d node i)
          ∙ ap (fold_left op identity) (chunk_values-Denotes i) in
        ap (op (before_chunk i)) sum ∙ elim (dec_lt (i * e) n) [
          | yes h ↦
              ap (λ j. op (upto j) (fold_left op identity (tabulate_from (i * e) g f)))
                {x = min n (i * e)} {y = i * e} (omega arith)
              ∙ sym (upto-add (i * e) g)
              ∙ ap upto {x = i * e + g} {y = min n ((i + 1) * e)} (omega (arith, grown))
          | no h ↦
              ap (λ k. op (before_chunk i) (fold_left op identity (tabulate_from (i * e) k f)))
                {x = g} {y = 0} (omega (arith, grown))
              ∙ m.right (before_chunk i)
              ∙ ap upto {x = min n (i * e)} {y = min n ((i + 1) * e)} (omega (arith, grown))
        ]

    fold_values-before :
        (s k : ℕ)
        → fold_values op (before_chunk s) (tabulate_from s k chunk_sum) ≡ before_chunk (s + k)
    unfolding fold_values
    fold_values-before s zero = ap before_chunk {x = s} {y = s + 0} (omega arith)
    fold_values-before s (suc k) =
        ap (λ a. fold_values op a (tabulate_from (s + 1) k chunk_sum)) (before_chunk-next s)
        ∙ fold_values-before (s + 1) k
        ∙ ap before_chunk {x = s + 1 + k} {y = s + suc k} (omega arith)

    sums_before-before :
        (s k : ℕ)
        → sums_before op (tabulate_from s k chunk_sum) (before_chunk s)
          ≡ (tabulate_from s k before_chunk, before_chunk (s + k))
    unfolding sums_before
    sums_before-before s zero =
        ap (λ a. ([], a)) (ap before_chunk {x = s} {y = s + 0} (omega arith))
    sums_before-before s (suc k) =
        ap
          (λ a.
            let (offsets, total) = sums_before op (tabulate_from (s + 1) k chunk_sum) a in
            (before_chunk s ∷ offsets, total))
          (before_chunk-next s)
        ∙ ap (λ (p : List A × A). (before_chunk s ∷ p.0, p.1)) (sums_before-before (s + 1) k)
        ∙ ap (λ t. (before_chunk s ∷ tabulate_from (s + 1) k before_chunk, before_chunk t))
            {x = s + 1 + k} {y = s + suc k} (omega arith)

    total-upto : before_chunk (0 + node.num_chunks) ≡ upto n
    total-upto =
        let room = (grid_num_chunks_bounds (elems_per_chunk l) pos n fits).0 in
        ap (λ c. before_chunk (0 + c)) v.chunks
        ∙ ap (λ c. before_chunk c) {x = 0 + grid_num_chunks (elems_per_chunk l) n}
            {y = grid_num_chunks (elems_per_chunk l) n} (omega arith)
        ∙ ap upto {x = min n (grid_num_chunks (elems_per_chunk l) n * elems_per_chunk l)} {y = n}
            (omega (arith, room))

    start-before : before_chunk 0 ≡ identity
    start-before = ap upto {x = min n (0 * elems_per_chunk l)} {y = 0} (omega arith)

    -- For a monoid, `reduce` of a tree is the reduction of the elements that it denotes.
    pub reduce-upto : reduce l d node op identity ≡ upto n
    unfolding reduce per_chunk_reduce
    reduce-upto =
        ap (λ a. fold_values op a (tabulate_from 0 node.num_chunks chunk_sum)) (sym start-before)
        ∙ fold_values-before 0 node.num_chunks
        ∙ total-upto

    scan_iter-upto :
        (it : ℕ → A) (s k : ℕ)
        → ((j : ℕ) → j < k → it j ≡ f (s + j))
        → scan_iter op it (upto s) k ≡ upto (s + k)
    unfolding scan_iter
    scan_iter-upto it s zero h = ap upto {x = s} {y = s + 0} (omega arith)
    scan_iter-upto it s (suc k) h =
        ap₂ op (scan_iter-upto it s k (λ j lt. h j (omega arith))) (h k (omega arith))
        ∙ sym (upto-suc (s + k))
        ∙ ap upto {x = s + k + 1} {y = s + suc k} (omega arith)

    -- The seed of chunk `i`.
    seeded :
        (i k : ℕ)
        → k < grid_chunk_len (elems_per_chunk l) n i
        → let offsets = tabulate_from 0 node.num_chunks before_chunk in
          (if ltb i (length offsets) then get_or offsets i identity else identity)
          ≡ upto (i * elems_per_chunk l)
    seeded i k lt =
        let e = elems_per_chunk l in
        let room = (grid_num_chunks_bounds e pos n fits).0 in
        let inside = (lt-grid_chunk_len e n i k).0 lt in
        let offsets = tabulate_from 0 node.num_chunks before_chunk in
        let within : i < node.num_chunks =
          lt_of_mul i node.num_chunks e (omega (arith, room, ap (λ t. t * e) v.chunks)) in
        rw
          (lt→ltb i (length offsets)
            (omega (arith, length-tabulate_from 0 node.num_chunks before_chunk)))
          (get_or-tabulated identity 0 node.num_chunks before_chunk i within
            ∙ ap before_chunk {x = 0 + i} {y = i} (omega arith)
            ∙ ap upto {x = min n (i * e)} {y = i * e} (omega arith))

    -- For a monoid, `scan` of a tree that denotes `n` elements, with `n` plus ELEMS_PER_CHUNK at most
    -- 2^64, returns the reduction of all elements and a tree that denotes the reductions of the
    -- elements before each place.
    pub scan-Denotes :
        Denotes l d sources (scan l d node op identity).0 n upto
        × ((scan l d node op identity).1 ≡ upto n)
    unfolding scan per_chunk_reduce scan_node
    scan-Denotes =
        let offsets = tabulate_from 0 node.num_chunks before_chunk in
        let sums =
          ap (sums_before op (tabulate_from 0 node.num_chunks chunk_sum)) (sym start-before)
          ∙ sums_before-before 0 node.num_chunks in
        (
          subst (λ (p : List A × A). Denotes l d sources (scan_node l node op identity p.0) n upto)
              (sym sums)
              (record {
                size = v.size;
                chunks = v.chunks;
                sizes = v.sizes;
                planned = v.planned;
                resolved = v.resolved;
                built = λ i p q h e k lt.
                    let it = (node.build i (resolver_at l d sources q (length p.leaf_slots))).0 in
                    ap (λ a. scan_iter op it a k) (seeded i k lt)
                    ∙ scan_iter-upto it (i * elems_per_chunk l) k
                        (λ j less. v.built i p q h e j (omega arith));
              }),
          ap (λ (p : List A × A). p.1) sums ∙ total-upto,
        )
