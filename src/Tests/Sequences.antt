-- ===== src/Tests/Sequences.antt =====
-- The theorems on whole sequences, element access and placement at concrete inputs.
use plaidlaylib.Prelude.{
  ℕ, ◌*◌, ◌%◌, ◌≡◌, refl, none, some, [], ◌∷◌, arith, ◌≢◌, get_elem?, tabulate_from,
}
use plaidlaylib.Disk.{Disk}
use plaidlaylib.Chunk.{ChunkSeq, IsWellFormed, contents, to_vector, size}
use plaidlaylib.Tabulate.{tabulate, to_chunk_seq, from_file}
use plaidlaylib.Tabulate.Contents.{tabulate-contents, to_vector-to_chunk_seq, from_file-contents}
use plaidlaylib.Access.{get}
use plaidlaylib.Access.Get.{get-contents}
use plaidlaylib.Tests.Fixtures.{
  small, small-IsLayout, run_of, empty, grid_five, stored, five, five-IsWellFormed, three_runs,
}

abbrev squares : ChunkSeq × Disk ℕ
squares = tabulate small 0 (run_of (2 ∷ 0 ∷ 1 ∷ [])) 5 "in" (λ i. i * i) empty

tabulate-contents_example :
    (contents small squares.1 squares.0 ≡ tabulate_from 0 5 (λ i. i * i))
    × IsWellFormed small squares.1 squares.0
    × (size small squares.0 ≡ 5)
tabulate-contents_example =
    tabulate-contents small small-IsLayout 0 (run_of (2 ∷ 0 ∷ 1 ∷ [])) "in" empty 5 (λ i. i * i)
      (omega arith) grid_five

to_vector-to_chunk_seq_example :
    to_vector small 0
      (to_chunk_seq small 0 three_runs (3 ∷ 1 ∷ 4 ∷ 1 ∷ 5 ∷ []) "in" empty).1
      (to_chunk_seq small 0 three_runs (3 ∷ 1 ∷ 4 ∷ 1 ∷ 5 ∷ []) "in" empty).0
    ≡ some (3 ∷ 1 ∷ 4 ∷ 1 ∷ 5 ∷ [])
to_vector-to_chunk_seq_example =
    to_vector-to_chunk_seq small small-IsLayout 0 three_runs "in" empty (3 ∷ 1 ∷ 4 ∷ 1 ∷ 5 ∷ [])
      (omega arith) grid_five

from_file-contents_example :
    (40 % 8 ≢ 0 → from_file small 0 three_runs (3 ∷ 1 ∷ 4 ∷ 1 ∷ 5 ∷ []) 40 "in" empty ≡ none)
    × (40 % 8 ≡ 0
        → (out : ChunkSeq × Disk ℕ) × (from_file small 0 three_runs
              (3 ∷ 1 ∷ 4 ∷ 1 ∷ 5 ∷ [])
              40
              "in"
              empty
            ≡ some out)
          × (contents small out.1 out.0 ≡ 3 ∷ 1 ∷ 4 ∷ 1 ∷ 5 ∷ [])
          × IsWellFormed small out.1 out.0)
from_file-contents_example =
    from_file-contents small small-IsLayout 0 three_runs "in" empty (3 ∷ 1 ∷ 4 ∷ 1 ∷ 5 ∷ []) 40 refl
      (omega arith) grid_five

get-contents_example : get small stored five 3 ≡ get_elem? (contents small stored five) 3
get-contents_example = get-contents small small-IsLayout refl stored five 3 five-IsWellFormed
