-- ===== src/Tests/Transforms.antt =====
-- The theorems on the transforms at small inputs, where the first two emits change places.
use mathlib.Core.List.{Permᴰ}
use mathlib.Core.List.Permᴰ
use plaidlaylib.Prelude.{
  ℕ, suc, ◌+◌, ◌≡◌, refl, some, List, [], ◌∷◌, map, length, take, tabulate_from, arith,
}
use plaidlaylib.Layout.{Layout, IsLayout}
use plaidlaylib.Disk.{Disk, get_file_name}
use plaidlaylib.Chunk.{ChunkSeq, contents, IndexedFrom, IsStored, IsWellFormed}
use plaidlaylib.Tabulate.{Run, IsRun}
use plaidlaylib.Reduce.Fold.{fold_left}
use plaidlaylib.Transform.{
  Emission, emissions, emit_blocks, map_step, scan_step, map_body, scan_body, chunk_map, chunk_scan,
}
use plaidlaylib.Transform.Map.{chunk_map-contents, chunk_map-IsWellFormed}
use plaidlaylib.Transform.Scan.{chunk_scan-prefixes, scan_emissions}
use plaidlaylib.Tests.Fixtures.{
  small, small-IsLayout, run_of, run_of_three-IsRun, three_runs, empty, stored, five,
  five-IsWellFormed,
}
use plaidlaylib.Tests.Workers.{add-IsMonoid}

-- Elements of sixteen bytes, one to a chunk.
abbrev wide : Layout
wide = record { chunk_size = 16; elem_size = 16 }

wide-IsLayout : IsLayout wide
wide-IsLayout = record { elem_pos = omega arith; epc_pos = omega arith; divides = refl }

abbrev swap_first : {R : Type 0} → List (Emission R) → List (Emission R)
swap_first [] = []
swap_first (e ∷ []) = e ∷ []
swap_first (e ∷ f ∷ es) = f ∷ e ∷ es

swap_first-fair : {R : Type 0} (es : List (Emission R)) → Permᴰ (swap_first es) es
swap_first-fair [] = Permᴰ.nil
swap_first-fair (e ∷ []) = Permᴰ.refl (e ∷ [])
swap_first-fair (e ∷ f ∷ es) = Permᴰ.swap refl refl

abbrev five_runs : Run
five_runs = run_of (4 ∷ 1 ∷ 0 ∷ 3 ∷ 2 ∷ [])

five_runs-IsRun :
    IsRun five_runs
      (length (emissions small stored (map_body small wide 0 five_runs "out" suc) five))
unfolding emissions map_body emit_blocks map_step get_file_name
five_runs-IsRun = record {
  drives = λ i h. omega arith;
  order_below = (omega arith, (omega arith, (omega arith, (omega arith, (omega arith, tt)))));
  order_all = λ i h. ground arith;
}

chunk_map-contents_example :
    (out : ChunkSeq × Disk ℕ) × (chunk_map small wide 0 five_runs "out" swap_first stored five suc
        empty
      ≡ some out)
    × (contents wide out.1 out.0 ≡ map suc (contents small stored five))
    × IndexedFrom 0 out.0
    × IsStored wide out.1 out.0
chunk_map-contents_example =
    chunk_map-contents small small-IsLayout wide wide-IsLayout refl 0 five_runs "out" swap_first
      swap_first-fair suc stored five empty five-IsWellFormed.indexed five-IsWellFormed.stored
      five_runs-IsRun

chunk_map-IsWellFormed_example :
    (out : ChunkSeq × Disk ℕ) × (chunk_map small wide 0 five_runs "out" swap_first stored five suc
        empty
      ≡ some out)
    × (contents wide out.1 out.0 ≡ map suc (contents small stored five))
    × IsWellFormed wide out.1 out.0
chunk_map-IsWellFormed_example =
    chunk_map-IsWellFormed small small-IsLayout wide wide-IsLayout refl 0 five_runs "out" swap_first
      swap_first-fair suc stored five empty five-IsWellFormed.indexed five-IsWellFormed.stored
      five_runs-IsRun 2 (omega arith) refl five-IsWellFormed.dense

three_runs-IsRun : IsRun three_runs (
    length (
      scan_emissions small small-IsLayout 0 ◌+◌ 0 add-IsMonoid three_runs "out" stored five
        swap_first swap_first-fair five empty
        (Permᴰ.refl five)
        five-IsWellFormed))
unfolding emissions scan_body emit_blocks scan_step get_file_name
three_runs-IsRun = run_of_three-IsRun

chunk_scan-prefixes_example :
    (out : ChunkSeq × Disk ℕ) × (chunk_scan small 0 ◌+◌ 0 three_runs "out" five swap_first stored
        five empty
      ≡ some (out, fold_left ◌+◌ 0 (contents small stored five)))
    × (contents small out.1 out.0
        ≡ tabulate_from 0
            (length (contents small stored five))
            (λ i. fold_left ◌+◌ 0 (take i (contents small stored five))))
    × IsWellFormed small out.1 out.0
chunk_scan-prefixes_example =
    chunk_scan-prefixes small small-IsLayout 0 ◌+◌ 0 add-IsMonoid three_runs "out" stored five
      swap_first swap_first-fair five empty (Permᴰ.refl five) five-IsWellFormed three_runs-IsRun
