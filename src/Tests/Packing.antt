-- ===== src/Tests/Packing.antt =====
-- The theorems on dense packing and the primitives over it at concrete inputs.
use plaidlaylib.Prelude.{
  ℕ, ◌+◌, ◌-◌, ◌%◌, ◌≡◌, refl, Bool, List, [], ◌∷◌, ltb, length, ◌==◌, tabulate_from, concat, take,
  drop, map,
}
use plaidlaylib.Layout.{epc, grid_num_chunks}
use plaidlaylib.Disk.{get_file_name}
use plaidlaylib.Chunk.{IsWellFormed, contents, read_chunk, sort_by_indices, copy_at}
use plaidlaylib.Tabulate.{IsRun}
use plaidlaylib.DensePack.{PackState, pack, compute_runs, write_packed}
use plaidlaylib.Primitives.{
  chunk_filter, keep_survivors, chunk_flat_map_each, push_each, virtual_run,
}
use plaidlaylib.Primitives.Filter.{
  filter, chunk_filter-filter, flat_map, chunk_flat_map_each-flat_map,
}
use plaidlaylib.Pack.{packed_run, batch_chunks, pack as flag_pack, pack_value}
use plaidlaylib.Pack.Select.{select, pack-select, pack_value-filter}
use plaidlaylib.DensePack.Output.{write_packed-contents}
use plaidlaylib.DensePack.Batch.{pack_all, dense_pack}
use plaidlaylib.DensePack.Batch.Contents.{dense_pack-contents}
use plaidlaylib.Tests.Fixtures.{
  small, small-IsLayout, empty, run_of_three-IsRun, run_of_two-IsRun, stored, five,
  five-IsWellFormed, two_runs, three_runs,
}

packed-IsRun : IsRun two_runs (
    length (
      PackState.out_chunks {R = ℕ}
        (pack small 0 two_runs "out" ((4 ∷ []) ∷ (1 ∷ 5 ∷ 9 ∷ []) ∷ []))))
unfolding pack get_file_name
packed-IsRun = run_of_two-IsRun

write_packed-contents_example :
    let (seq, d') = write_packed small 0 two_runs "out" ((4 ∷ []) ∷ (1 ∷ 5 ∷ 9 ∷ []) ∷ []) empty in
    (contents small d' seq ≡ concat ((4 ∷ []) ∷ (1 ∷ 5 ∷ 9 ∷ []) ∷ [])) × IsWellFormed small d' seq
write_packed-contents_example =
    write_packed-contents small small-IsLayout 0 two_runs "out" ((4 ∷ []) ∷ (1 ∷ 5 ∷ 9 ∷ []) ∷ [])
      empty packed-IsRun

filter-IsRun : IsRun two_runs (
    length (
      PackState.out_chunks (
        pack small 0 two_runs "out"
          (compute_runs small stored 0 (λ buf gpos halo. keep_survivors (ltb 3) buf []) 0 five))))
unfolding pack compute_runs keep_survivors get_file_name
filter-IsRun = run_of_two-IsRun

chunk_filter-filter_example :
    let (out, d') = chunk_filter small 0 two_runs "out" stored five (ltb 3) empty in
    (contents small d' out ≡ filter (ltb 3) (contents small stored five))
    × IsWellFormed small d' out
chunk_filter-filter_example =
    chunk_filter-filter small small-IsLayout 0 two_runs "out" stored five (ltb 3) empty
      five-IsWellFormed filter-IsRun

each-IsRun : IsRun three_runs (
    length (
      PackState.out_chunks (
        pack small 0 three_runs "out" (
          compute_runs small stored 0
            (λ buf gpos halo. push_each (λ x. (x + 1) ∷ []) buf [])
            0
            five))))
unfolding pack compute_runs push_each get_file_name
each-IsRun = run_of_three-IsRun

chunk_flat_map_each-flat_map_example :
    let (out, d') =
      chunk_flat_map_each small small 0 three_runs "out" stored five (λ x. (x + 1) ∷ []) empty in
    (contents small d' out ≡ flat_map (λ x. (x + 1) ∷ []) (contents small stored five))
    × IsWellFormed small d' out
chunk_flat_map_each-flat_map_example =
    chunk_flat_map_each-flat_map small small-IsLayout small small-IsLayout 0 three_runs "out" stored
      five (λ x. (x + 1) ∷ []) empty five-IsWellFormed each-IsRun

tabulated-IsRun : IsRun three_runs (
    length (
      PackState.out_chunks (
        pack_all small 0 three_runs "out"
          (λ base n.
            tabulate_from base n (virtual_run small 5 (λ s e. tabulate_from s (e - s) (λ i. i))))
          (grid_num_chunks (epc small) 5))))
unfolding pack_all virtual_run grid_num_chunks copy_at get_file_name
tabulated-IsRun = run_of_three-IsRun

abbrev flags : ℕ → Bool
flags i = i % 2 == 0

flagged-IsRun : IsRun two_runs (
    length (
      PackState.out_chunks (
        pack_all small 0 two_runs "out"
          (λ base n.
            map (packed_run small 0 two_runs "out" stored five flags) (batch_chunks five base n))
          (length five))))
unfolding pack_all packed_run batch_chunks sort_by_indices copy_at get_file_name
flagged-IsRun = run_of_two-IsRun

pack-select_example :
    let (out, d') = flag_pack small 0 two_runs "out" stored five flags empty in
    (contents small d' out ≡ select flags 0 (contents small stored five))
    × IsWellFormed small d' out
pack-select_example =
    pack-select small small-IsLayout 0 two_runs "out" stored empty five flags five-IsWellFormed
      flagged-IsRun

value-IsRun : IsRun two_runs (
    length (
      PackState.out_chunks (
        pack_all small 0 two_runs "out"
          (λ base n.
            map
              (λ c. keep_survivors (ltb 3) (read_chunk small stored c) [])
              (batch_chunks five base n))
          (length five))))
unfolding pack_all keep_survivors batch_chunks sort_by_indices copy_at get_file_name
value-IsRun = run_of_two-IsRun

pack_value-filter_example :
    let (out, d') = pack_value small 0 two_runs "out" stored five (ltb 3) empty in
    (contents small d' out ≡ filter (ltb 3) (contents small stored five))
    × IsWellFormed small d' out
pack_value-filter_example =
    pack_value-filter small small-IsLayout 0 two_runs "out" stored empty five (ltb 3)
      five-IsWellFormed value-IsRun

abbrev two_batches : List (List ℕ)
two_batches = (4 ∷ []) ∷ (1 ∷ 5 ∷ 9 ∷ []) ∷ []

batched-IsRun : IsRun two_runs (
    length (
      PackState.out_chunks {R = ℕ} (
        pack_all small 0 two_runs "out"
          (λ base n. take n (drop base two_batches))
          (length two_batches))))
unfolding pack_all copy_at get_file_name
batched-IsRun = run_of_two-IsRun

dense_pack-contents_example :
    let (out, d') =
      dense_pack small 0 two_runs "out"
        (length two_batches)
        (λ base n. take n (drop base two_batches))
        empty in
    (contents small d' out ≡ concat two_batches) × IsWellFormed small d' out
dense_pack-contents_example =
    dense_pack-contents small small-IsLayout 0 two_runs "out"
      (λ base n. take n (drop base two_batches)) two_batches empty (λ base n h. refl) batched-IsRun
