-- ===== src/Transform/Scan.antt =====
-- `ChunkScan` of ChunkSequence/Primitives/primitives.h, with both passes.
use Prim.Native.String.{String}
use mathlib.Core.List.{Permᴰ}
use plaidlaylib.Prelude.{
  ℕ, zero, suc, ◌+◌, ◌*◌, ◌<◌, ◌≡◌, refl, sym, ap, ap₂, ◌∙◌, List, [], ◌∷◌, ◌++◌, some, none,
  Option, true, length, map, concat, take, tabulate_from, get_or, arith,
}
use plaidlaylib.Layout.{Layout, IsLayout, epc}
use plaidlaylib.Disk.{Disk}
use plaidlaylib.Chunk.{Chunk, ChunkSeq, read_chunk, contents, IndexedFrom, IsWellFormed}
use plaidlaylib.Tabulate.{Run, IsRun}
use plaidlaylib.Reduce.Fold.{IsMonoid, fold_left}
use plaidlaylib.Reduce.Seeds.{before, prefix_sums-seeds, fold_left-append, tabulate_from-suc}
use plaidlaylib.Transform.{
  Emission, scan_step, scan_body, chunk_scan, external_transform, emissions, fanout,
}
use plaidlaylib.Transform.Ordered.{Returns, external_transform-Returns}
use plaidlaylib.Transform.Blocks.{IsStreaming}
use plaidlaylib.Transform.Streamed.{
  fanout_enough, streamed-concat, streamed-short, streamed-count, streamed-Increasing, streamed-Cut,
}

module _ {R : Type 0} (op : R → R → R) where
  scan_step-last : (acc : R) (xs : List R) → (scan_step op acc xs).1 ≡ fold_left op acc xs
  unfolding scan_step
  scan_step-last acc [] = refl
  scan_step-last acc (x ∷ xs) = scan_step-last (op acc x) xs

  nil-scan_step : (acc : R) → (scan_step op acc []).0 ≡ []
  unfolding scan_step
  nil-scan_step acc = refl

  scan_step-append :
      (acc : R) (xs ys : List R)
      → (scan_step op acc (xs ++ ys)).0
        ≡ (scan_step op acc xs).0 ++ (scan_step op (scan_step op acc xs).1 ys).0
  unfolding scan_step
  scan_step-append acc [] ys = refl
  scan_step-append acc (x ∷ xs) ys = ap (◌∷◌ acc) (scan_step-append (op acc x) xs ys)

  length-scan_step : (acc : R) (xs : List R) → length (scan_step op acc xs).0 ≡ length xs
  unfolding scan_step
  length-scan_step acc [] = refl
  length-scan_step acc (x ∷ xs) = ap suc (length-scan_step (op acc x) xs)

  scan_step-IsStreaming : IsStreaming (scan_step op)
  scan_step-IsStreaming = record { append = scan_step-append; size = length-scan_step }

  -- Each place gets the reduction of the elements before it.
  scan_step-prefixes :
      (acc : R) (xs : List R)
      → (scan_step op acc xs).0 ≡ tabulate_from 0 (length xs) (λ i. fold_left op acc (take i xs))
  unfolding scan_step
  scan_step-prefixes acc [] = refl
  scan_step-prefixes acc (x ∷ xs) = ap (◌∷◌ acc) (
      scan_step-prefixes (op acc x) xs
      ∙ sym (tabulate_from-suc 0 (length xs) (λ i. fold_left op acc (take i (x ∷ xs)))))

get_or-tabulate_from :
    {A : Type 0} (z : A) (s n : ℕ) (f : ℕ → A) (i : ℕ)
    → i < n
    → get_or (tabulate_from s n f) i z ≡ f (s + i)
get_or-tabulate_from z s zero f i h = absurd (omega arith)
get_or-tabulate_from z s (suc n) f zero h = ap f {x = s} {y = s + 0} (omega arith)
get_or-tabulate_from z s (suc n) f (suc i) h =
    get_or-tabulate_from z (s + 1) n f i (omega arith)
    ∙ ap f {x = s + 1 + i} {y = s + suc i} (omega arith)

module _ (l : Layout) (w : IsLayout l) {R : Type 0} (zero_elem : R) (op : R → R → R) (identity : R)
    (m : IsMonoid op identity) (r : Run) (prefix : String) (dt : Disk R) where
  -- Chunks that are seeded with what stands before them make one scan.
  seeded-concat :
      (init : ℕ → R) (k : ℕ) (acc : R) (cs : ChunkSeq)
      → IndexedFrom k cs
      → ((j : ℕ) → j < length cs → init (k + j) ≡ fold_left op acc (contents l dt (take j cs)))
      → concat (map (λ (c : Chunk). (scan_step op (init c.index) (read_chunk l dt c)).0) cs)
        ≡ (scan_step op acc (contents l dt cs)).0
  seeded-concat init k acc [] indexed seeds = sym (nil-scan_step op acc)
  seeded-concat init k acc (c ∷ cs) indexed seeds =
      let buf = read_chunk l dt c in
      let at_start : c.index ≡ k + 0 = omega (arith, indexed.0) in
      let here : init c.index ≡ acc = ap init at_start ∙ seeds 0 (omega arith) in
      let later = seeded-concat init (k + 1) (scan_step op acc buf).1 cs indexed.1 (λ j lt.
        ap init {x = k + 1 + j} {y = k + suc j} (omega arith)
        ∙ seeds (suc j) (omega arith)
        ∙ fold_left-append l op identity m dt acc buf (contents l dt (take j cs))
        ∙ ap (λ a. fold_left op a (contents l dt (take j cs))) (sym (scan_step-last op acc buf))) in
      ap₂ ◌++◌ (ap (λ a. (scan_step op a buf).0) here) later
      ∙ sym (scan_step-append op acc buf (contents l dt cs))

  module _ (polled : List Chunk) (schedule : List (Emission R) → List (Emission R))
      (fair : (es : List (Emission R)) → Permᴰ (schedule es) es) (seq : ChunkSeq) (d : Disk R)
      (arrives : Permᴰ polled seq) (v : IsWellFormed l dt seq) where
    -- The seeds of pass 2.
    abbrev pub seeds : List R
    seeds = tabulate_from 0 (length seq) (before l op identity m dt identity seq)

    abbrev pub scan_emissions : List (Emission R)
    scan_emissions = emissions l dt (scan_body l zero_elem op identity r prefix seeds) seq

    scan-Returns :
        IsRun r (length scan_emissions)
        → Returns l w zero_elem r prefix scan_emissions (
            external_transform l l zero_elem r prefix schedule dt seq
              (scan_body l zero_elem op identity r prefix seeds)
              (fanout l l)
              true
              d)
    unfolding scan_body
    scan-Returns run =
        let enough = fanout_enough l l w w refl in
        let s = scan_step-IsStreaming op in
        let init : ℕ → R = λ i. get_or seeds i zero_elem in
        external_transform-Returns l w zero_elem r prefix l schedule dt seq _ (fanout l l)
          (0 * fanout l l) d (fair _)
          (streamed-Increasing l dt (epc l) (fanout l l) (scan_step op) init w.epc_pos enough.1
            enough.0 s 0 seq v.indexed v.stored)
          (streamed-short l dt (epc l) (fanout l l) (scan_step op) init w.epc_pos enough.1 enough.0
            s seq)
          (streamed-count l dt (epc l) (fanout l l) (scan_step op) init w.epc_pos enough.1 enough.0
            s seq v.stored)
          run

    scan-contents :
        concat (
          map
            (λ (c : Chunk). (scan_step op (get_or seeds c.index zero_elem) (read_chunk l dt c)).0)
            seq)
        ≡ tabulate_from 0
            (length (contents l dt seq))
            (λ i. fold_left op identity (take i (contents l dt seq)))
    scan-contents =
        seeded-concat (λ i. get_or seeds i zero_elem) 0 identity seq v.indexed
          (λ j lt.
            ap (λ i. get_or seeds i zero_elem) {x = 0 + j} {y = j} (omega arith)
            ∙ get_or-tabulate_from zero_elem 0 (length seq) (before l op identity m dt identity seq)
                j lt
            ∙ ap (before l op identity m dt identity seq) {x = 0 + j} {y = j} (omega arith))
        ∙ scan_step-prefixes op identity (contents l dt seq)

    -- However the chunks of pass 1 arrive and the emits of pass 2 interleave, for a monoid `ChunkScan`
    -- of a well-formed sequence does not run out of descriptors, and returns the reduction of all
    -- elements and a well-formed sequence that reads back as the reductions of the elements before
    -- each place.
    pub chunk_scan-prefixes :
        IsRun r (length scan_emissions)
        → (out : ChunkSeq × Disk R) × (chunk_scan l zero_elem op identity r prefix polled schedule
              dt seq d
            ≡ some (out, fold_left op identity (contents l dt seq)))
          × (contents l out.1 out.0
              ≡ tabulate_from 0
                  (length (contents l dt seq))
                  (λ i. fold_left op identity (take i (contents l dt seq))))
          × IsWellFormed l out.1 out.0
    unfolding chunk_scan scan_body
    chunk_scan-prefixes run =
        let p = scan-Returns run in
        let enough = fanout_enough l l w w refl in
        let s = scan_step-IsStreaming op in
        let init : ℕ → R = λ i. get_or seeds i zero_elem in
        (
          p.out,
          ap finish (prefix_sums-seeds l op identity m dt zero_elem seq polled v.indexed arrives)
              ∙ ap (with_total (fold_left op identity (contents l dt seq))) p.returned,
          p.content
              ∙ streamed-concat l dt (epc l) (fanout l l) (scan_step op) init w.epc_pos enough.1
                  enough.0 s seq
              ∙ scan-contents,
          record {
            indexed = p.indexed;
            dense = p.dense (
                streamed-Cut l l w zero_elem r prefix (scan_step op) s dt (fanout l l) 1 init
                  enough.1 enough.0 (omega arith) (omega arith) seq v.dense v.stored);
            stored = p.stored;
          },
        )
      where
        with_total : R → Option (ChunkSeq × Disk R) → Option ((ChunkSeq × Disk R) × R)
        with_total total o = elim o [ none ↦ none | some result ↦ some (result, total) ]

        finish : List R × R → Option ((ChunkSeq × Disk R) × R)
        finish (offset, total) = with_total total (
            external_transform l l zero_elem r prefix schedule dt seq
              (scan_body l zero_elem op identity r prefix offset) (fanout l l) true d)
