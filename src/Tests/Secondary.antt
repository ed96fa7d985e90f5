-- ===== src/Tests/Secondary.antt =====
-- The secondary primitives on five elements whose first two chunks are handled in the other order.
use mathlib.Core.List
use mathlib.Core.List.{Permᴰ}
use Prim.Native.String.{String}
use text.Mathlib.TextEquality.{eq_iff}
use plaidlaylib.Prelude.{
  ℕ, All, get_elem?, ◌-◌, ◌*◌, ◌%◌, ◌≡◌, refl, ap, sym, ◌∙◌, ◌≢◌, inl, inr, some, List, [], ◌∷◌,
  ◌++◌, take, drop, replicate, tabulate_from, ltb, arith,
}
use plaidlaylib.Layout.{epc, grid_num_chunks}
use plaidlaylib.Disk.{FilePath, get_file_name}
use plaidlaylib.Chunk.{ChunkSeq, IndexedFrom, IsWellFormed, contents}
use plaidlaylib.Access.Placed.{Separate}
use plaidlaylib.Reindex.{
  zero_chunk_prefix, flatten, cut_by_chunk, ensure_zero_chunks, prepend_zero_chunks,
}
use plaidlaylib.Reindex.Contents.{flatten-contents}
use plaidlaylib.Reindex.Slice.{cut_by_chunk-contents}
use plaidlaylib.Reindex.Zeros.{prepend_zero_chunks-contents}
use plaidlaylib.Reverse.{reverse}
use plaidlaylib.Reverse.Reversed.{reverse-contents}
use plaidlaylib.Histogram.{chunk_histogram_by_key}
use plaidlaylib.Histogram.Counted.{count_key, chunk_histogram_by_key-counts}
use plaidlaylib.FindIf.{chunk_find_if}
use plaidlaylib.FindIf.First.{find_index, chunk_find_if-first}
use plaidlaylib.Delayed.{Node, leaf_index}
use plaidlaylib.Delayed.Denotes.{leaf_index-Denotes}
use plaidlaylib.Materialize.{materialize_node, materialize, find}
use plaidlaylib.Materialize.Contents.{HoldsAll, materialize-contents, materialize_node-Denotes}
use plaidlaylib.Materialize.Probes.{find-contents}
use plaidlaylib.Tests.Fixtures.{small, small-IsLayout, stored, five, five-IsWellFormed}

abbrev shuffled : ChunkSeq → ChunkSeq
shuffled [] = []
shuffled (c ∷ []) = c ∷ []
shuffled (c ∷ b ∷ cs) = b ∷ c ∷ cs

shuffled-five : Permᴰ (shuffled five) five
shuffled-five = Permᴰ.swap refl refl

five-Separate : Separate five
unfolding get_file_name
five-Separate = (
  (inl (λ e. omega (arith, ap (λ (f : FilePath). f.number) e)), (inr (λ e. omega arith), tt)),
  ((inl (λ e. omega (arith, ap (λ (f : FilePath). f.number) e)), tt), (tt, tt)),
)

flatten-contents_example :
    (contents small stored (flatten (take 2 five ∷ five ∷ []))
      ≡ contents small stored (take 2 five) ++ contents small stored five ++ [])
    × IsWellFormed small stored (flatten (take 2 five ∷ five ∷ []))
unfolding get_file_name
flatten-contents_example = flatten-contents small stored (take 2 five ∷ five ∷ []) (
  ((refl, refl), ((refl, refl), tt)),
  (refl, (refl, tt)),
  (five-IsWellFormed.dense, five-IsWellFormed.stored),
)

cut_by_chunk-contents_example :
    (contents small stored (cut_by_chunk five 1 9)
      ≡ take ((9 - 1) * epc small) (drop (1 * epc small) (contents small stored five)))
    × IsWellFormed small stored (cut_by_chunk five 1 9)
cut_by_chunk-contents_example =
    cut_by_chunk-contents small small-IsLayout stored five 1 9 five-IsWellFormed

other : {s : String} → s ≡ "in" → s ≢ zero_chunk_prefix
other {s} e z = ground (arith, (eq_iff "in" "bimul_zero").1 (sym e ∙ z))

abbrev drives : List String
drives = "/mnt/a" ∷ "/mnt/b" ∷ []

prepend_zero_chunks-contents_example :
    (contents small
        (ensure_zero_chunks small 0 drives 2 stored)
        (prepend_zero_chunks small drives five 3)
      ≡ replicate (3 * epc small) 0 ++ contents small stored five)
    × IsWellFormed small
        (ensure_zero_chunks small 0 drives 2 stored)
        (prepend_zero_chunks small drives five 3)
unfolding get_file_name
prepend_zero_chunks-contents_example =
    prepend_zero_chunks-contents small small-IsLayout 0 drives (omega arith) stored five 3
      five-IsWellFormed (other refl, (other refl, (other refl, tt)))

reverse-contents_example :
    (contents small
        (reverse 0 small (shuffled five) stored five).1
        (reverse 0 small (shuffled five) stored five).0
      ≡ List.reverse (contents small stored five))
    × IndexedFrom 0 (reverse 0 small (shuffled five) stored five).0
reverse-contents_example =
    reverse-contents 0 small small-IsLayout (shuffled five) stored five shuffled-five
      five-IsWellFormed.dense five-IsWellFormed.stored five-Separate

chunk_histogram_by_key-counts_example :
    chunk_histogram_by_key small stored 3 (λ x. x % 3) (shuffled five ∷ [] ∷ [])
    ≡ some (tabulate_from 0 3 (λ j. count_key (λ x. x % 3) j (contents small stored five)))
unfolding get_file_name
chunk_histogram_by_key-counts_example =
    chunk_histogram_by_key-counts (λ x. x % 3) 3 small stored (shuffled five ∷ [] ∷ []) five
      shuffled-five (omega arith, (omega arith, (omega arith, (omega arith, (omega arith, tt)))))

chunk_find_if-first_example :
    chunk_find_if small (λ x. ltb x 4) stored five (shuffled five ∷ [] ∷ [])
    ≡ find_index (λ x. ltb x 4) (contents small stored five)
chunk_find_if-first_example =
    chunk_find_if-first small small-IsLayout (λ x. ltb x 4) stored five (shuffled five ∷ [] ∷ [])
      five-IsWellFormed shuffled-five

five-HoldsAll : All (HoldsAll small stored) five
unfolding get_file_name
five-HoldsAll = (refl, (refl, (refl, tt)))

materialize-contents_example :
    materialize small 0 stored five (shuffled five) ≡ contents small stored five
materialize-contents_example =
    materialize-contents small stored 0 five (shuffled five) five-IsWellFormed.indexed five-HoldsAll
      shuffled-five

find-contents_example : find small stored five 3 ≡ get_elem? (contents small stored five) 3
find-contents_example = find-contents small stored five 3 five-HoldsAll

-- Five squares that no source holds, their chunks handled in another order.
abbrev squares_node : Node ℕ ℕ
squares_node = leaf_index small 5 (λ i. i * i)

squares_order : Permᴰ (1 ∷ 0 ∷ 2 ∷ []) (tabulate_from 0 squares_node.num_chunks (λ ci. ci))
unfolding grid_num_chunks leaf_index
squares_order = Permᴰ.swap refl refl

materialize_node-Denotes_example :
    materialize_node small 0 stored squares_node (1 ∷ 0 ∷ 2 ∷ []) ≡ tabulate_from 0 5 (λ i. i * i)
materialize_node-Denotes_example =
    materialize_node-Denotes small stored (λ src. five) squares_node 5 (λ i. i * i) 0
      (1 ∷ 0 ∷ 2 ∷ []) (leaf_index-Denotes small stored (λ src. five) 5 (λ i. i * i)) (omega arith)
      (omega arith) squares_order
