-- ===== src/Materialize/Probes.antt =====
-- Probes of one element agree with indexing into the logical sequence.
use plaidlaylib.Prelude.{
  ℕ, zero, suc, ◌+◌, ◌-◌, ◌≤◌, ◌<◌, ◌≡◌, refl, sym, ap, ◌∙◌, Option, List, [], ◌∷◌, ◌++◌, All,
  length, length-append, take, get_elem?, get_or, lt→ltb, le→ltb, le→leb, lt→leb, dec_lt, arith,
}
use plaidlaylib.Layout.{Layout}
use plaidlaylib.Disk.{Disk}
use plaidlaylib.Chunk.{Chunk, ChunkSeq, count, read_chunk, contents}
use plaidlaylib.Materialize.{scan_size, upper_bound, probe, scan_find, find}
use plaidlaylib.Materialize.Contents.{HoldsAll}

module _ (l : Layout) {A : Type 0} (d : Disk A) where
  probed : (n g : ℕ) (xs : List A) → g < n → get_elem? xs g ≡ get_elem? (take n xs) g
  probed zero g xs h = absurd (omega arith)
  probed (suc n) g [] h = refl
  probed (suc n) zero (x ∷ xs) h = refl
  probed (suc n) (suc g) (x ∷ xs) h = probed n g xs (omega arith)

  get_elem?-left :
      (xs ys : List A) (g : ℕ) → g < length xs → get_elem? (xs ++ ys) g ≡ get_elem? xs g
  get_elem?-left [] ys g h = absurd (omega arith)
  get_elem?-left (x ∷ xs) ys zero h = refl
  get_elem?-left (x ∷ xs) ys (suc g) h = get_elem?-left xs ys g (omega arith)

  get_elem?-right :
      (xs ys : List A) (g : ℕ)
      → length xs ≤ g
      → get_elem? (xs ++ ys) g ≡ get_elem? ys (g - length xs)
  get_elem?-right [] ys g h = ap (get_elem? ys) {x = g} {y = g - 0} (omega arith)
  get_elem?-right (x ∷ xs) ys zero h = absurd (omega arith)
  get_elem?-right (x ∷ xs) ys (suc g) h =
      get_elem?-right xs ys g (omega arith)
      ∙ ap (get_elem? ys) {x = g - length xs} {y = suc g - suc (length xs)} (omega arith)

  -- `find` of a sequence whose blocks hold what its chunks count is indexing into the logical
  -- sequence, whichever chunks are short, and fails its CHECK exactly past the end.
  pub find-contents :
      (seq : ChunkSeq) (g : ℕ)
      → All (HoldsAll l d) seq
      → find l d seq g ≡ get_elem? (contents l d seq) g
  unfolding find
  find-contents [] g h = refl
  find-contents (c ∷ seq) g h = elim (dec_lt g (count l c)) [
    | yes here ↦ rw (lt→ltb g (count l c) here) (
        probed (count l c) g (d c.filename c.begin_addr) here
        ∙ sym (get_elem?-left (read_chunk l d c) (contents l d seq) g (omega (arith, here, h.0))))
    | no later ↦ rw (le→ltb g (count l c) (omega arith)) (
        find-contents seq (g - count l c) h.1
        ∙ ap (λ k. get_elem? (contents l d seq) (g - k)) (sym h.0)
        ∙ sym (get_elem?-right (read_chunk l d c) (contents l d seq) g (omega (arith, later, h.0))))
  ]

  upper_bound-past :
      (seq : ChunkSeq) (acc g : ℕ) → g < acc → upper_bound (scan_size l seq acc) g ≡ 0
  unfolding upper_bound scan_size
  upper_bound-past [] acc g h = refl
  upper_bound-past (c ∷ seq) acc g h = rw (lt→leb acc g h) refl

  upper_bound-reached :
      (c : Chunk) (seq : ChunkSeq) (acc g : ℕ)
      → acc ≤ g
      → upper_bound (scan_size l (c ∷ seq) acc) g
        ≡ suc (upper_bound (scan_size l seq (acc + count l c)) g)
  unfolding upper_bound scan_size
  upper_bound-reached c seq acc g h = rw (le→leb acc g h) refl

  -- The probe with the prefix sums from `acc` on.
  abbrev probe_at : ChunkSeq → ℕ → ℕ → ℕ → Option A
  probe_at seq acc g res = probe l d (get_elem? seq res) (g - get_or (scan_size l seq acc) res 0)

  probe_at-here :
      (c : Chunk) (seq : ChunkSeq) (acc g : ℕ)
      → acc ≤ g
      → g < acc + count l c
      → probe_at (c ∷ seq) acc g (upper_bound (scan_size l (c ∷ seq) acc) g - 1)
        ≡ find l d (c ∷ seq) (g - acc)
  unfolding scan_size probe find
  probe_at-here c seq acc g low here =
      ap (probe_at (c ∷ seq) acc g) {x = upper_bound (scan_size l (c ∷ seq) acc) g - 1} {y = 0} (
        omega (
          arith,
          upper_bound-reached c seq acc g low,
          upper_bound-past seq (acc + count l c) g here,
        ))
      ∙ rw (lt→ltb (g - acc) (count l c) (omega arith)) refl

  probe_at-find :
      (c : Chunk) (seq : ChunkSeq) (acc g : ℕ)
      → acc ≤ g
      → g < acc + length (contents l d (c ∷ seq))
      → All (HoldsAll l d) (c ∷ seq)
      → probe_at (c ∷ seq) acc g (upper_bound (scan_size l (c ∷ seq) acc) g - 1)
        ≡ find l d (c ∷ seq) (g - acc)
  unfolding scan_size probe find
  probe_at-find c [] acc g low high h =
      probe_at-here c [] acc g low (omega (arith, high, h.0, length-append (read_chunk l d c) []))
  probe_at-find c (b ∷ rest) acc g low high h = elim (dec_lt g (acc + count l c)) [
    | yes here ↦ probe_at-here c (b ∷ rest) acc g low here
    | no later ↦
        let next = acc + count l c in
        let past = λ (r : ℕ). probe_at (c ∷ b ∷ rest) acc g r in
        ap past {x = upper_bound (scan_size l (c ∷ b ∷ rest) acc) g - 1}
          {y = suc (upper_bound (scan_size l (b ∷ rest) next) g - 1)}
          (omega (
            arith,
            upper_bound-reached c (b ∷ rest) acc g low,
            upper_bound-reached b rest next g (omega arith),
          ))
        ∙ probe_at-find b rest next g (omega arith)
            (omega (arith, high, h.0, length-append (read_chunk l d c) (contents l d (b ∷ rest))))
            h.1
        ∙ rw (le→ltb (g - acc) (count l c) (omega arith))
            (ap (find l d (b ∷ rest)) {x = g - next} {y = g - acc - count l c} (omega arith))
  ]

  -- `scan_find` of a sequence whose blocks hold what its chunks count, with the prefix sums that
  -- `scan_size` writes, is `find` at every place inside the sequence.
  pub scan_find-find :
      (seq : ChunkSeq) (g : ℕ)
      → All (HoldsAll l d) seq
      → g < length (contents l d seq)
      → scan_find l d seq (scan_size l seq 0) g ≡ find l d seq g
  unfolding scan_find
  scan_find-find [] g h lt = absurd (omega arith)
  scan_find-find (c ∷ seq) g h lt =
      probe_at-find c seq 0 g (omega arith) (omega arith) h
      ∙ ap (find l d (c ∷ seq)) {x = g - 0} {y = g} (omega arith)
