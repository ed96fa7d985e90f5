-- ===== src/Reduce/Fold.antt =====
-- `ChunkReduce` is the reduction of the logical sequence, however its chunks reach the workers.
use mathlib.Core.List.{Permᴰ}
use plaidlaylib.Prelude.{
  ◌≡◌, refl, sym, ap, ap₂, ◌∙◌, List, [], ◌∷◌, ◌++◌, map, map-append, concat, concat-append,
}
use plaidlaylib.Layout.{Layout}
use plaidlaylib.Disk.{Disk}
use plaidlaylib.Chunk.{Chunk, ChunkSeq, contents, read_chunk}
use plaidlaylib.Reduce.{remove_worker, fold_buffer, reduce_worker, chunk_reduce}

-- The reduction from the left that `parlay::reduce` promises for a monoid.
abbrev pub fold_left : {R : Type 0} → (R → R → R) → R → List R → R
fold_left op acc [] = acc
fold_left op acc (x ∷ xs) = fold_left op (op acc x) xs

pub record IsMonoid {R : Type 0} (op : R → R → R) (identity : R) : Type 0 where
  pub assoc : (a b c : R) → op (op a b) c ≡ op a (op b c)
  pub left : (a : R) → op identity a ≡ a
  pub right : (a : R) → op a identity ≡ a

module _ {R : Type 0} (op : R → R → R) (identity : R) (m : IsMonoid op identity) where
  sum : List R → R
  sum [] = identity
  sum (x ∷ xs) = op x (sum xs)

  fold_left-sum : (acc : R) (xs : List R) → fold_left op acc xs ≡ op acc (sum xs)
  unfolding sum
  fold_left-sum acc [] = sym (m.right acc)
  fold_left-sum acc (x ∷ xs) = fold_left-sum (op acc x) xs ∙ m.assoc acc x (sum xs)

  sum-append : (xs ys : List R) → sum (xs ++ ys) ≡ op (sum xs) (sum ys)
  unfolding sum
  sum-append [] ys = sym (m.left (sum ys))
  sum-append (x ∷ xs) ys = ap (op x) (sum-append xs ys) ∙ sym (m.assoc x (sum xs) (sum ys))

  module _ (l : Layout) (d : Disk R) where
    fold_buffer-fold_left :
        (acc : R) (xs : List R) → fold_buffer l op identity d acc xs ≡ fold_left op acc xs
    unfolding fold_buffer
    fold_buffer-fold_left acc [] = refl
    fold_buffer-fold_left acc (x ∷ xs) = fold_buffer-fold_left (op acc x) xs

    reduce_worker-sum :
        (acc : R) (cs : List Chunk)
        → reduce_worker l op identity d acc cs ≡ op acc (sum (contents l d cs))
    unfolding reduce_worker sum
    reduce_worker-sum acc [] = sym (m.right acc)
    reduce_worker-sum acc (c ∷ cs) =
        reduce_worker-sum (fold_buffer l op identity d acc (read_chunk l d c)) cs
        ∙ ap (λ t. op t (sum (contents l d cs)))
            (fold_buffer-fold_left acc (read_chunk l d c) ∙ fold_left-sum acc (read_chunk l d c))
        ∙ m.assoc acc (sum (read_chunk l d c)) (sum (contents l d cs))
        ∙ ap (op acc) (sym (sum-append (read_chunk l d c) (contents l d cs)))

    contents-append :
        (xs ys : List Chunk) → contents l d (xs ++ ys) ≡ contents l d xs ++ contents l d ys
    contents-append xs ys =
        ap concat (map-append (read_chunk l d) xs ys)
        ∙ concat-append (map (read_chunk l d) xs) (map (read_chunk l d) ys)

    workers-sum :
        (polled : List (List Chunk))
        → sum (map (reduce_worker l op identity d identity) polled)
          ≡ sum (contents l d (concat polled))
    unfolding sum
    workers-sum [] = refl
    workers-sum (cs ∷ polled) =
        ap₂ op (reduce_worker-sum identity cs ∙ m.left _) (workers-sum polled)
        ∙ sym (sum-append (contents l d cs) (contents l d (concat polled)))
        ∙ ap sum (sym (contents-append cs (concat polled)))

    part : Chunk → R
    part c = sum (read_chunk l d c)

    sum-part :
        (c : Chunk) (cs : List Chunk)
        → sum (contents l d (c ∷ cs)) ≡ op (part c) (sum (contents l d cs))
    unfolding part
    sum-part c cs = sum-append (read_chunk l d c) (contents l d cs)

    module _ (comm : (a b : R) → op a b ≡ op b a) where
      op-swap : (a b c : R) → op a (op b c) ≡ op b (op a c)
      op-swap a b c = sym (m.assoc a b c) ∙ ap (λ t. op t c) (comm a b) ∙ m.assoc b a c

      chunk_sum-perm :
          {xs ys : List Chunk} → Permᴰ xs ys → sum (contents l d xs) ≡ sum (contents l d ys)
      chunk_sum-perm Permᴰ.nil = refl
      chunk_sum-perm (Permᴰ.cons {a} {b} {l₁} {l₂} e p) =
          sum-part a l₁ ∙ ap₂ op (ap part e) (chunk_sum-perm p) ∙ sym (sum-part b l₂)
      chunk_sum-perm (Permᴰ.swap {a} {b} {a'} {b'} {l = rest} e₁ e₂) =
          sum-part a (b ∷ rest)
          ∙ ap (op (part a)) (sum-part b rest)
          ∙ op-swap (part a) (part b) (sum (contents l d rest))
          ∙ ap₂ (λ s t. op s (op t (sum (contents l d rest)))) (ap part e₂) (ap part e₁)
          ∙ ap (op (part a')) (sym (sum-part b' rest))
          ∙ sym (sum-part a' (b' ∷ rest))
      chunk_sum-perm (Permᴰ.trans p q) = chunk_sum-perm p ∙ chunk_sum-perm q

    -- For a monoid that is commutative, and whatever chunks each worker polls in whatever order, as
    -- long as together they poll those of the sequence, `ChunkReduce` returns the reduction of the
    -- logical sequence from left to right.
    pub chunk_reduce-fold_left :
        (parlay_reduce : (R → R → R) → R → List R → R)
        → ((xs : List R) → parlay_reduce op identity xs ≡ fold_left op identity xs)
        → ((a b : R) → op a b ≡ op b a)
        → (polled : List (List Chunk)) (seq : ChunkSeq) → Permᴰ (concat polled) seq
        → chunk_reduce l op identity d parlay_reduce polled
          ≡ fold_left op identity (contents l d seq)
    unfolding chunk_reduce remove_worker
    chunk_reduce-fold_left parlay_reduce promise comm polled seq p =
        promise _
        ∙ fold_left-sum identity _
        ∙ ap (op identity) (workers-sum polled ∙ chunk_sum-perm comm p)
        ∙ sym (fold_left-sum identity (contents l d seq))
