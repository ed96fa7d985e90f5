-- ===== src/Tests/Search.antt =====
-- The theorems on the search at a text whose pattern lies across a chunk boundary.
use plaidlaylib.Prelude.{ℕ, ◌*◌, ◌%◌, ◌≤◌, ◌≡◌, refl, some, [], ◌∷◌, arith, length, All}
use plaidlaylib.Disk.{Disk, get_file_name}
use plaidlaylib.Chunk.{ChunkSeq, IsWellFormed, contents}
use plaidlaylib.Tabulate.{IsRun}
use plaidlaylib.DensePack.{PackState, pack, compute_runs}
use plaidlaylib.Primitives.{chunk_flat_map}
use plaidlaylib.RabinKarp.{p, field_mul, rk_body, chunk_rabin_karp}
use plaidlaylib.RabinKarp.Hash.{IsCode}
use plaidlaylib.RabinKarp.Occurs.{occurrences, occurrences-append}
use plaidlaylib.RabinKarp.Field.{field_mul-mod}
use plaidlaylib.Primitives.FlatMap.{chunk_flat_map-hits}
use plaidlaylib.RabinKarp.Search.{chunk_rabin_karp-occurrences, rk_body-occurrences}
use plaidlaylib.Kmp.{kmp_body, chunk_kmp, failure_of}
use plaidlaylib.Kmp.Borders.{IsTable}
use plaidlaylib.Kmp.Failure.{failure_of-IsTable}
use plaidlaylib.Kmp.Search.{chunk_kmp-occurrences}
use plaidlaylib.Tests.Fixtures.{
  small, small-IsLayout, run_of, empty, stored, five, five-IsWellFormed,
}

-- The text 7 2 4 1 9 has 2 4 at its first chunk boundary.
search-IsRun : IsRun (run_of (0 ∷ [])) (
    length (
      PackState.out_chunks (
        pack small 0
          (run_of (0 ∷ []))
          "out"
          (compute_runs small stored 1 (rk_body (2 ∷ 4 ∷ [])) 0 five))))
unfolding pack compute_runs rk_body get_file_name
search-IsRun = record {
  drives = λ i h. omega arith;
  order_below = (omega arith, tt);
  order_all = λ i h. ground arith;
}

five_codes : All IsCode (contents small stored five)
unfolding get_file_name
five_codes = (omega arith, (omega arith, (omega arith, (omega arith, (omega arith, tt)))))

chunk_rabin_karp-occurrences_example :
    (out : ChunkSeq × Disk ℕ) × (chunk_rabin_karp small small
        (run_of (0 ∷ []))
        "out"
        stored
        five
        (2 ∷ 4 ∷ [])
        empty
      ≡ some out)
    × (contents small out.1 out.0 ≡ occurrences (2 ∷ 4 ∷ []) (contents small stored five) 0 [])
    × IsWellFormed small out.1 out.0
chunk_rabin_karp-occurrences_example =
    chunk_rabin_karp-occurrences small small-IsLayout small small-IsLayout (run_of (0 ∷ [])) "out"
      stored empty 2 (4 ∷ []) five (omega arith) five-IsWellFormed (omega arith, (omega arith, tt))
      five_codes search-IsRun

chunk_flat_map-hits_example :
    (out : ChunkSeq × Disk ℕ) × (chunk_flat_map small small 0
        (run_of (0 ∷ []))
        "out"
        stored
        five
        1
        (rk_body (2 ∷ 4 ∷ []))
        empty
      ≡ some out)
    × (contents small out.1 out.0 ≡ occurrences (2 ∷ 4 ∷ []) (contents small stored five) 0 [])
    × IsWellFormed small out.1 out.0
chunk_flat_map-hits_example =
    chunk_flat_map-hits small small-IsLayout small small-IsLayout 0 (run_of (0 ∷ [])) "out" stored
      five IsCode 1 (rk_body (2 ∷ 4 ∷ [])) (occurrences (2 ∷ 4 ∷ [])) empty five-IsWellFormed
      (omega arith)
      (λ xs pos rest short all.
        rk_body-occurrences 2 (4 ∷ []) xs rest pos (omega arith, (omega arith, tt)) all)
      (occurrences-append (2 ∷ 4 ∷ [])) (λ pos. refl) five_codes search-IsRun

field_mul-mod_example :
    (field_mul 2147483646 500000000 ≤ p)
    × (field_mul 2147483646 500000000 % p ≡ 2147483646 * 500000000 % p)
field_mul-mod_example = field_mul-mod 2147483646 500000000 (omega arith) (omega arith)

kmp-IsRun : IsRun (run_of (0 ∷ [])) (
    length (
      PackState.out_chunks (
        pack small 0
          (run_of (0 ∷ []))
          "out"
          (compute_runs small stored 1 (kmp_body (2 ∷ 4 ∷ [])) 0 five))))
unfolding pack compute_runs kmp_body get_file_name
kmp-IsRun = record {
  drives = λ i h. omega arith;
  order_below = (omega arith, tt);
  order_all = λ i h. ground arith;
}

chunk_kmp-occurrences_example :
    (out : ChunkSeq × Disk ℕ) × (chunk_kmp small small
        (run_of (0 ∷ []))
        "out"
        stored
        five
        (2 ∷ 4 ∷ [])
        empty
      ≡ some out)
    × (contents small out.1 out.0 ≡ occurrences (2 ∷ 4 ∷ []) (contents small stored five) 0 [])
    × IsWellFormed small out.1 out.0
chunk_kmp-occurrences_example =
    chunk_kmp-occurrences small small-IsLayout small small-IsLayout (run_of (0 ∷ [])) "out" stored
      empty 2 (4 ∷ []) five (omega arith) five-IsWellFormed kmp-IsRun

failure_of-IsTable_example : IsTable (1 ∷ 2 ∷ 1 ∷ []) (failure_of (1 ∷ 2 ∷ 1 ∷ [])) 3
failure_of-IsTable_example = failure_of-IsTable (1 ∷ 2 ∷ 1 ∷ []) (omega arith)
