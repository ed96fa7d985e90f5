-- ===== src/Reduce/Seeds.antt =====
-- The seeds of pass 2 of `ChunkScan`, and the total.
use mathlib.Core.List.{Permᴰ}
use plaidlaylib.Prelude.{
  ℕ, zero, suc, ◌+◌, ◌≡◌, refl, sym, ap, ap₂, ◌∙◌, List, [], ◌∷◌, ◌++◌, map, length, replicate,
  take, tabulate_from, tabulate_from_ext, length-replicate, arith,
}
use plaidlaylib.Layout.{Layout}
use plaidlaylib.Disk.{Disk}
use plaidlaylib.Chunk.{Chunk, ChunkSeq, IndexedFrom, contents, read_chunk}
use plaidlaylib.Reduce.{fold_buffer, sum_chunks, prefix_sums}
use plaidlaylib.Reduce.Fold.{IsMonoid, fold_left}
use plaidlaylib.Reduce.Offsets.{chunk_sum, sum_chunks-map}

pub tabulate_from-suc :
    {A : Type 0} (s n : ℕ) (f : ℕ → A)
    → tabulate_from (s + 1) n f ≡ tabulate_from s n (λ k. f (suc k))
tabulate_from-suc s zero f = refl
tabulate_from-suc s (suc n) f =
    ap₂ ◌∷◌ (ap f {x = s + 1} {y = suc s} (omega arith)) (tabulate_from-suc (s + 1) n f)

module _ (l : Layout) {R : Type 0} (op : R → R → R) (identity : R) (m : IsMonoid op identity)
    (d : Disk R) where
  fold_left-from : (acc : R) (xs : List R) → fold_left op acc xs ≡ op acc (fold_left op identity xs)
  fold_left-from acc [] = sym (m.right acc)
  fold_left-from acc (x ∷ xs) =
      fold_left-from (op acc x) xs
      ∙ m.assoc acc x (fold_left op identity xs)
      ∙ ap (op acc) (sym (fold_left-from x xs) ∙ ap (λ t. fold_left op t xs) (sym (m.left x)))

  pub fold_left-append :
      (acc : R) (xs ys : List R)
      → fold_left op acc (xs ++ ys) ≡ fold_left op (fold_left op acc xs) ys
  fold_left-append acc [] ys = refl
  fold_left-append acc (x ∷ xs) ys = fold_left-append (op acc x) xs ys

  chunk_sum-fold_left : (a : R) (xs : List R) → fold_buffer l op identity d a xs ≡ fold_left op a xs
  unfolding fold_buffer
  chunk_sum-fold_left a [] = refl
  chunk_sum-fold_left a (x ∷ xs) = chunk_sum-fold_left (op a x) xs

  -- The reduction of the elements of the first `k` chunks, and of all of them.
  abbrev pub before : R → List Chunk → ℕ → R
  before acc cs k = fold_left op acc (contents l d (take k cs))

  prefix_sums-before :
      (cs : List Chunk) (acc : R)
      → prefix_sums l op identity d (map (chunk_sum l op identity d) cs) acc
        ≡ (tabulate_from 0 (length cs) (before acc cs), fold_left op acc (contents l d cs))
  unfolding prefix_sums chunk_sum
  prefix_sums-before [] acc = refl
  prefix_sums-before (c ∷ cs) acc =
      let buf = read_chunk l d c in
      let step : op acc (fold_buffer l op identity d identity buf) ≡ fold_left op acc buf =
        ap (op acc) (chunk_sum-fold_left identity buf) ∙ sym (fold_left-from acc buf) in
      ap (λ (t : List R × R). (acc ∷ t.0, t.1))
        (prefix_sums-before cs (op acc (fold_buffer l op identity d identity buf))
          ∙ ap (λ a. (tabulate_from 0 (length cs) (before a cs), fold_left op a (contents l d cs)))
              step)
      ∙ ap₂ (λ (us : List R) (t : R). (acc ∷ us, t))
          (tabulate_from_ext 0 (length cs) (before (fold_left op acc buf) cs)
              (λ k. before acc (c ∷ cs) (suc k))
              (λ k low high. sym (fold_left-append acc buf (contents l d (take k cs))))
            ∙ sym (tabulate_from-suc 0 (length cs) (before acc (c ∷ cs))))
          (sym (fold_left-append acc buf (contents l d cs)))

  -- For a monoid, and in whatever order the chunks of an indexed sequence arrive, pass 1 and step 2
  -- of `ChunkScan` seed chunk `k` with the reduction of the elements of the chunks before it, and
  -- return the reduction of all elements as the total.
  pub prefix_sums-seeds :
      (zero_elem : R) (seq : ChunkSeq) (polled : List Chunk)
      → IndexedFrom 0 seq
      → Permᴰ polled seq
      → prefix_sums l op identity d
          (sum_chunks l op identity d polled (replicate (length seq) zero_elem))
          identity
        ≡ (
          tabulate_from 0 (length seq) (before identity seq),
          fold_left op identity (contents l d seq),
        )
  prefix_sums-seeds zero_elem seq polled indexed perm =
      ap (λ t. prefix_sums l op identity d t identity)
        (sum_chunks-map l op identity d seq polled (replicate (length seq) zero_elem) indexed perm
          (length-replicate (length seq) zero_elem))
      ∙ prefix_sums-before seq identity
