-- ===== src/Tests/Delayed.antt =====
-- The delayed layer at small trees, whose leaves share a source.
use plaidlaylib.Prelude.{
  ℕ, suc, ◌+◌, ◌≡◌, refl, max, ltb, get_or, if◌then◌else◌, tabulate_from, length, arith,
}
use plaidlaylib.Layout.{epc, grid_num_chunks}
use plaidlaylib.Disk.{get_file_name}
use plaidlaylib.Chunk.{ChunkSeq, contents, IsWellFormed}
use plaidlaylib.Tabulate.{IsRun}
use plaidlaylib.Reduce.Fold.{fold_left}
use plaidlaylib.Delayed.{Node, delay, leaf_index, map_node, zip_node, scan, force}
use plaidlaylib.Delayed.Denotes.{Denotes, leaf_index-Denotes, zip_node-Denotes, map_node-Denotes}
use plaidlaylib.Delayed.Reduced.{scan-Denotes}
use plaidlaylib.Delayed.Leaf.{delay-Denotes}
use plaidlaylib.Delayed.Forced.{force-contents}
use plaidlaylib.Tests.Fixtures.{
  small, small-IsLayout, empty, stored, five, five-IsWellFormed, three_runs, run_of_three-IsRun,
}
use plaidlaylib.Tests.Workers.{add-IsMonoid}

abbrev sources_five : ℕ → ChunkSeq
sources_five = λ src. five

abbrev leaf_five : Node ℕ ℕ
leaf_five = delay small 0 0 five

abbrev element : ℕ → ℕ
element j = get_or (contents small stored five) j 0

leaf_five-Denotes : Denotes small stored sources_five leaf_five 5 element
unfolding get_file_name
leaf_five-Denotes =
    delay-Denotes small small-IsLayout 0 stored sources_five 0 five refl five-IsWellFormed refl
      (omega arith)

-- The same sequence, as the second of the sources.
delay-Denotes_example :
    Denotes small stored sources_five
      (delay small 0 1 five)
      (length (contents small stored five))
      (λ j. get_or (contents small stored five) j 0)
unfolding get_file_name
delay-Denotes_example =
    delay-Denotes small small-IsLayout 0 stored sources_five 1 five refl five-IsWellFormed refl
      (omega arith)

-- The sum of the first elements.
abbrev sum_before : ℕ → ℕ
sum_before j = fold_left ◌+◌ 0 (tabulate_from 0 j element)

scan-Denotes_example :
    Denotes small stored sources_five (scan small stored leaf_five ◌+◌ 0).0 5 sum_before
    × ((scan small stored leaf_five ◌+◌ 0).1 ≡ sum_before 5)
scan-Denotes_example =
    scan-Denotes small stored sources_five leaf_five 5 element leaf_five-Denotes ◌+◌ 0 add-IsMonoid
      (omega arith) (omega arith)

-- The sequence zipped with its own scan.
abbrev zipped : Node ℕ (ℕ × ℕ)
zipped = zip_node small leaf_five (scan small stored leaf_five ◌+◌ 0).0 0 0

abbrev zipped_at : ℕ → ℕ × ℕ
zipped_at j = (if ltb j 5 then element j else 0, if ltb j 5 then sum_before j else 0)

zipped-Denotes : Denotes small stored sources_five zipped 5 zipped_at
zipped-Denotes =
    zip_node-Denotes small stored sources_five leaf_five (scan small stored leaf_five ◌+◌ 0).0 5 5
      element sum_before 0 0 leaf_five-Denotes
      (scan-Denotes small stored sources_five leaf_five 5 element leaf_five-Denotes ◌+◌ 0
        add-IsMonoid (omega arith) (omega arith)).0

-- The sequence zipped with three numbers, which are padded with nines.
zip_node-Denotes_example :
    Denotes small stored sources_five
      (zip_node small leaf_five (leaf_index small 3 suc) 0 9)
      (max 5 3)
      (λ j. (if ltb j 5 then element j else 0, if ltb j 3 then suc j else 9))
zip_node-Denotes_example =
    zip_node-Denotes small stored sources_five leaf_five (leaf_index small 3 suc) 5 3 element suc 0
      9 leaf_five-Denotes (leaf_index-Denotes small stored sources_five 3 suc)

abbrev added : Node ℕ ℕ
added = map_node small zipped (λ p. p.0 + p.1)

added-IsRun : IsRun three_runs (grid_num_chunks (epc small) 5)
unfolding grid_num_chunks
added-IsRun = run_of_three-IsRun

force-contents_example :
    let (seq, d') = force small small 0 three_runs "sums" stored added empty in
    (contents small d' seq ≡ tabulate_from 0 5 (λ j. (zipped_at j).0 + (zipped_at j).1))
    × IsWellFormed small d' seq
force-contents_example =
    force-contents small stored sources_five small small-IsLayout 0 three_runs "sums" added 5
      (λ j. (zipped_at j).0 + (zipped_at j).1)
      (map_node-Denotes small stored sources_five zipped 5 zipped_at (λ p. p.0 + p.1)
        zipped-Denotes)
      refl (omega arith) added-IsRun empty
