-- ===== src/RabinKarp/Search.antt =====
-- `ChunkRabinKarp` finds every occurrence in a text that lies in many chunks.
use Prim.Native.String.{String}
use plaidlaylib.Prelude.{
  ℕ, zero, suc, ◌-◌, ◌*◌, ◌%◌, ◌^◌, ◌≤◌, ◌≡◌, refl, ap, ◌∙◌, true, false, ◌||◌, some, List, [], ◌∷◌,
  ◌++◌, All, length, take, arith, ◌==◌, leb,
}
use plaidlaylib.Layout.{Layout, IsLayout, epc}
use plaidlaylib.Disk.{Disk}
use plaidlaylib.Chunk.{ChunkSeq, contents, IsWellFormed}
use plaidlaylib.Tabulate.{Run, IsRun}
use plaidlaylib.DensePack.{compute_runs, pack}
use plaidlaylib.Primitives.FlatMap.{chunk_flat_map-hits}
use plaidlaylib.RabinKarp.{p, base, of_int, powers, rk_body, chunk_rabin_karp}
use plaidlaylib.RabinKarp.Hash.{IsCode, Represents, hash_pattern-Represents, powers-Represents}
use plaidlaylib.RabinKarp.Occurs.{occurrences, occurrences-append}
use plaidlaylib.RabinKarp.Scan.{rk_scan_chunk-occurrences}

of_int_one : Represents (of_int 1) 1
unfolding of_int
of_int_one = (omega arith, refl)

of_int_zero : Represents (of_int 0) 0
unfolding of_int
of_int_zero = (omega arith, refl)

power_ok : (m : ℕ) → Represents (powers m (of_int 1)) (base ^ m)
power_ok m =
    let r = powers-Represents m (of_int 1) 1 of_int_one in
    (r.0, r.1 ∙ ap (λ t. t % p) (one (base ^ m)))
  where
    one : (n : ℕ) → 1 * n ≡ n
    one n = grind arith

All-take : (xs ys : List ℕ) (k : ℕ) → All IsCode (xs ++ ys) → All IsCode (xs ++ take k ys)
All-take [] ys zero h = tt
All-take [] [] (suc k) h = tt
All-take [] (y ∷ ys) (suc k) h = (h.0, All-take [] ys k h.1)
All-take (x ∷ xs) ys k h = (h.0, All-take xs ys k h.1)

-- The body is local: the head of the next chunk is enough for it.
pub rk_body-occurrences :
    (c : ℕ) (pattern text rest : List ℕ) (pos : ℕ)
    → All IsCode (c ∷ pattern)
    → All IsCode (text ++ rest)
    → rk_body (c ∷ pattern) text pos (take (length (c ∷ pattern) - 1) rest)
      ≡ occurrences (c ∷ pattern) text pos rest
unfolding rk_body
rk_body-occurrences c pattern text rest pos codes texts =
    let m = length (c ∷ pattern) - 1 in
    rk_scan_chunk-occurrences text (take m rest) (c ∷ pattern) m pos _ _ (omega arith)
      (All-take text rest m texts)
      (hash_pattern-Represents (c ∷ pattern) (of_int 0) 0 codes of_int_zero) (power_ok m) rest refl

module _ (lt : Layout) (wt : IsLayout lt) (lr : Layout) (wr : IsLayout lr) (r : Run)
    (prefix : String) (dt : Disk ℕ) (d : Disk ℕ) where
  -- For a pattern that is not empty and fits in a chunk, over characters whose codes are at most p,
  -- `ChunkRabinKarp` of a well-formed text returns a well-formed sequence that reads back as the
  -- positions of all occurrences of the pattern in the text, in order: those that cross a chunk
  -- boundary are found, none is reported twice, and no hash collision is reported. Draws are
  -- in range and every write lands.
  pub chunk_rabin_karp-occurrences :
      (c : ℕ) (pattern : List ℕ) (seq : ChunkSeq)
      → length (c ∷ pattern) ≤ epc lt
      → IsWellFormed lt dt seq
      → All IsCode (c ∷ pattern)
      → All IsCode (contents lt dt seq)
      → IsRun r (
          length
            (pack lr 0 r prefix (
              compute_runs lt dt
                (length (c ∷ pattern) - 1)
                (rk_body (c ∷ pattern))
                0
                seq)).out_chunks)
      → (out : ChunkSeq × Disk ℕ) × (chunk_rabin_karp lt lr r prefix dt seq (c ∷ pattern) d
          ≡ some out)
        × (contents lr out.1 out.0 ≡ occurrences (c ∷ pattern) (contents lt dt seq) 0 [])
        × IsWellFormed lr out.1 out.0
  unfolding chunk_rabin_karp
  chunk_rabin_karp-occurrences c pattern [] fits wf codes texts run =
      let small : leb (suc (length pattern)) (epc lt) ≡ true = ground arith in
      (([], d), rw small (ground arith), refl, record { indexed = tt; dense = tt; stored = tt })
  chunk_rabin_karp-occurrences c pattern (e ∷ seq) fits wf codes texts run =
      let small : leb (suc (length pattern)) (epc lt) ≡ true = ground arith in
      let some_left : (suc (length pattern) == 0 || suc (length seq) == 0) ≡ false = ground arith in
      let found =
        chunk_flat_map-hits lt wt lr wr 0 r prefix dt (e ∷ seq) IsCode (length (c ∷ pattern) - 1)
          (rk_body (c ∷ pattern)) (occurrences (c ∷ pattern)) d wf (omega arith)
          (λ xs pos rest short all. rk_body-occurrences c pattern xs rest pos codes all)
          (occurrences-append (c ∷ pattern)) (λ pos. refl) texts run in
      rw (small, some_left) found
