-- ===== src/Kmp/Search.antt =====
-- `ChunkKmp` finds every occurrence in a text that lies in many chunks.
use Prim.Native.String.{String}
use plaidlaylib.Prelude.{
  ℕ, suc, ◌-◌, ◌≤◌, ◌≡◌, refl, sym, ◌∙◌, true, false, ◌||◌, some, List, [], ◌∷◌, ◌++◌, All, length,
  length-take, take, arith, ◌==◌, leb,
}
use plaidlaylib.Layout.{Layout, IsLayout, epc}
use plaidlaylib.Disk.{Disk}
use plaidlaylib.Chunk.{ChunkSeq, contents, IsWellFormed}
use plaidlaylib.Tabulate.{Run, IsRun}
use plaidlaylib.DensePack.{compute_runs, pack}
use plaidlaylib.Primitives.FlatMap.{chunk_flat_map-hits}
use plaidlaylib.RabinKarp.{rk_body}
use plaidlaylib.RabinKarp.Hash.{IsCode}
use plaidlaylib.RabinKarp.Occurs.{occurrences, occurrences-append}
use plaidlaylib.RabinKarp.Search.{rk_body-occurrences}
use plaidlaylib.Kmp.{failure_of, kmp_body, chunk_kmp}
use plaidlaylib.Kmp.Failure.{failure_of-IsTable}
use plaidlaylib.Kmp.Scan.{kmp_scan_chunk-occurrences}

-- The body is local: the head of the next chunk is enough for it.
pub kmp_body-occurrences :
    (c : ℕ) (pattern text rest : List ℕ) (pos : ℕ)
    → kmp_body (c ∷ pattern) text pos (take (length (c ∷ pattern) - 1) rest)
      ≡ occurrences (c ∷ pattern) text pos rest
unfolding kmp_body
kmp_body-occurrences c pattern text rest pos =
    let m = length (c ∷ pattern) - 1 in
    kmp_scan_chunk-occurrences text (take m rest) (c ∷ pattern) (failure_of (c ∷ pattern)) pos
      (omega arith) (failure_of-IsTable (c ∷ pattern) (omega arith))
      (omega (arith, length-take m rest)) rest refl

-- Over codes that Rabin-Karp's field can hold, both searches report the same for every chunk.
pub kmp_body-eq-rk_body :
    (c : ℕ) (pattern text rest : List ℕ) (pos : ℕ)
    → All IsCode (c ∷ pattern)
    → All IsCode (text ++ rest)
    → kmp_body (c ∷ pattern) text pos (take (length (c ∷ pattern) - 1) rest)
      ≡ rk_body (c ∷ pattern) text pos (take (length (c ∷ pattern) - 1) rest)
kmp_body-eq-rk_body c pattern text rest pos codes texts =
    kmp_body-occurrences c pattern text rest pos
    ∙ sym (rk_body-occurrences c pattern text rest pos codes texts)

module _ (lt : Layout) (wt : IsLayout lt) (lr : Layout) (wr : IsLayout lr) (r : Run)
    (prefix : String) (dt : Disk ℕ) (d : Disk ℕ) where
  -- For a pattern that is not empty and fits in a chunk, `ChunkKmp` of a well-formed text returns a
  -- well-formed sequence that reads back as the positions of all occurrences of the pattern in the
  -- text, in order: those that cross a chunk boundary are found, and none is reported twice. Draws
  -- are in range and every write lands.
  pub chunk_kmp-occurrences :
      (c : ℕ) (pattern : List ℕ) (seq : ChunkSeq)
      → length (c ∷ pattern) ≤ epc lt
      → IsWellFormed lt dt seq
      → IsRun r (
          length
            (pack lr 0 r prefix (
              compute_runs lt dt
                (length (c ∷ pattern) - 1)
                (kmp_body (c ∷ pattern))
                0
                seq)).out_chunks)
      → (out : ChunkSeq × Disk ℕ) × (chunk_kmp lt lr r prefix dt seq (c ∷ pattern) d ≡ some out)
        × (contents lr out.1 out.0 ≡ occurrences (c ∷ pattern) (contents lt dt seq) 0 [])
        × IsWellFormed lr out.1 out.0
  unfolding chunk_kmp
  chunk_kmp-occurrences c pattern [] fits wf run =
      let small : leb (suc (length pattern)) (epc lt) ≡ true = ground arith in
      (([], d), rw small (ground arith), refl, record { indexed = tt; dense = tt; stored = tt })
  chunk_kmp-occurrences c pattern (e ∷ seq) fits wf run =
      let small : leb (suc (length pattern)) (epc lt) ≡ true = ground arith in
      let some_left : (suc (length pattern) == 0 || suc (length seq) == 0) ≡ false = ground arith in
      let found =
        chunk_flat_map-hits lt wt lr wr 0 r prefix dt (e ∷ seq) (λ u. Unit)
          (length (c ∷ pattern) - 1) (kmp_body (c ∷ pattern)) (occurrences (c ∷ pattern)) d wf
          (omega arith) (λ xs pos rest short all. kmp_body-occurrences c pattern xs rest pos)
          (occurrences-append (c ∷ pattern)) (λ pos. refl) (All-tt (contents lt dt (e ∷ seq)))
          run in
      rw (small, some_left) found
    where
      All-tt : (xs : List ℕ) → All (λ u. Unit {0}) xs
      All-tt [] = tt
      All-tt (y ∷ xs) = (tt, All-tt xs)
