-- ===== src/Reindex/Zeros.antt =====
-- A sequence shifted by zero chunks, which alias one block on each drive.
use Prim.Native.String.{String}
use plaidlaylib.Prelude.{
  ℕ, zero, suc, ◌+◌, ◌*◌, ◌%◌, ◌≤◌, ◌<◌, ◌≡◌, refl, sym, ap, ap₂, subst, ◌∙◌, ◌≢◌, Bool-cases, inl,
  inr, List, [], ◌∷◌, ◌++◌, All, All-append, All-tabulate_from, ≢→==, length, length-replicate,
  take, replicate, tabulate_from, length-tabulate_from, arith, mul-div-cancel, ℕ_discrete,
}
use plaidlaylib.Layout.{Layout, IsLayout, epc}
use plaidlaylib.Disk.{FilePath, Disk, same_path, same_path_iff, get_file_name, get_file_name-prefix}
use plaidlaylib.Chunk.{ChunkSeq, IndexedFrom, IsStored, IsWellFormed, count, read_chunk, contents}
use plaidlaylib.Chunk.Built.{IndexedFrom-tabulate_from}
use plaidlaylib.Transform.{renumber}
use plaidlaylib.Access.Placed.{Full, IsDense-snoc, IndexedFrom-snoc, contents-snoc}
use plaidlaylib.Reindex.{
  zero_chunk_prefix, ensure_zero_chunks, zero_chunk_header, prepend_zero_chunks, append_zero_chunk,
}
use plaidlaylib.Reindex.Contents.{
  renumber-indexed, renumber-IsDense, renumber-IsStored, renumber-contents, Full-IsDense,
  IndexedFrom-append, contents-append,
}

-- Zero chunks in front, or behind, of a sequence whose files are others.
module _ (l : Layout) (w : IsLayout l) {A : Type 0} (zero_elem : A) (ssds : List String)
    (some_drive : 0 < length ssds) (d : Disk A) where
  abbrev zeros_on : Disk A
  zeros_on = ensure_zero_chunks l zero_elem ssds (length ssds) d

  ensured-zero :
      (nd k : ℕ)
      → k < nd
      → ensure_zero_chunks l zero_elem ssds nd d (get_file_name ssds zero_chunk_prefix k) 0
        ≡ replicate (epc l) zero_elem
  unfolding ensure_zero_chunks
  ensured-zero zero k h = absurd (omega arith)
  ensured-zero (suc nd) k h =
      elim (Bool-cases (
        same_path (get_file_name ssds zero_chunk_prefix k)
          (get_file_name ssds zero_chunk_prefix nd))) [
            | inl same ↦ rw same refl
            | inr other ↦ elim (ℕ_discrete k nd) [
              | yes e ↦ absurd (
                  ground (
                    arith,
                    other,
                    (same_path_iff (get_file_name ssds zero_chunk_prefix k)
                          (get_file_name ssds zero_chunk_prefix nd)).1
                        (ap (get_file_name ssds zero_chunk_prefix) e),
                  ))
              | no ne ↦ rw other (ensured-zero nd k (omega arith))
            ]
          ]

  ensured-other :
      (nd : ℕ) (f : FilePath) (a : ℕ)
      → f.prefix ≢ zero_chunk_prefix
      → ensure_zero_chunks l zero_elem ssds nd d f a ≡ d f a
  unfolding ensure_zero_chunks
  ensured-other zero f a ne = refl
  ensured-other (suc nd) f a ne =
      elim (Bool-cases (same_path f (get_file_name ssds zero_chunk_prefix nd))) [
        | inl same ↦ absurd (
            ne (
              ap (λ (p : FilePath). p.prefix)
                ((same_path_iff f (get_file_name ssds zero_chunk_prefix nd)).0 same)
              ∙ get_file_name-prefix ssds zero_chunk_prefix nd))
        | inr other ↦ rw other (ensured-other nd f a ne)
      ]

  abbrev pub Elsewhere : ChunkSeq → Type 0
  Elsewhere = All (λ c. c.filename.prefix ≢ zero_chunk_prefix)

  contents-Elsewhere : (cs : ChunkSeq) → Elsewhere cs → contents l zeros_on cs ≡ contents l d cs
  contents-Elsewhere [] h = refl
  contents-Elsewhere (c ∷ cs) h =
      ap₂ ◌++◌ (ap (take (count l c)) (ensured-other (length ssds) c.filename c.begin_addr h.0))
        (contents-Elsewhere cs h.1)

  IsStored-Elsewhere : (cs : ChunkSeq) → Elsewhere cs → IsStored l d cs → IsStored l zeros_on cs
  IsStored-Elsewhere [] h s = tt
  IsStored-Elsewhere (c ∷ cs) h s = (
    ap length (ensured-other (length ssds) c.filename c.begin_addr h.0) ∙ s.0,
    IsStored-Elsewhere cs h.1 s.1,
  )

  header-block :
      (j used index : ℕ)
      → zeros_on
          (zero_chunk_header ssds j used index).filename
          (zero_chunk_header ssds j used index).begin_addr
        ≡ replicate (epc l) zero_elem
  unfolding zero_chunk_header
  header-block j used index =
      ensured-zero (length ssds) (j % length ssds) (omega (arith, some_drive))

  header-index : (j : ℕ) → (zero_chunk_header ssds j l.chunk_size j).index ≡ j
  unfolding zero_chunk_header
  header-index j = refl

  appended_index : (k used : ℕ) → (zero_chunk_header ssds k used k).index ≡ 0 + k
  unfolding zero_chunk_header
  appended_index k used = omega arith

  appended_used :
      (k n : ℕ)
      → count l (zero_chunk_header ssds k (n * l.elem_size) k) * l.elem_size
        ≡ (zero_chunk_header ssds k (n * l.elem_size) k).used
  unfolding zero_chunk_header
  appended_used k n = ap (λ t. t * l.elem_size) (mul-div-cancel n l.elem_size w.elem_pos)

  header-Full : (j : ℕ) → Full l (zero_chunk_header ssds j l.chunk_size j)
  unfolding zero_chunk_header
  header-Full j = (w.divides, refl)

  take-replicate : (n m : ℕ) → n ≤ m → take n (replicate m zero_elem) ≡ replicate n zero_elem
  take-replicate zero m h = refl
  take-replicate (suc n) zero h = absurd (omega arith)
  take-replicate (suc n) (suc m) h = ap (◌∷◌ zero_elem) (take-replicate n m (omega arith))

  header-count : (j n index : ℕ) → count l (zero_chunk_header ssds j (n * l.elem_size) index) ≡ n
  unfolding zero_chunk_header
  header-count j n index = mul-div-cancel n l.elem_size w.elem_pos

  header-read :
      (j n index : ℕ)
      → n ≤ epc l
      → read_chunk l zeros_on (zero_chunk_header ssds j (n * l.elem_size) index)
        ≡ replicate n zero_elem
  header-read j n index room =
      ap₂ take (header-count j n index) (header-block j (n * l.elem_size) index)
      ∙ take-replicate n (epc l) room

  full_block :
      (j : ℕ)
      → read_chunk l zeros_on (zero_chunk_header ssds j l.chunk_size j)
        ≡ replicate (epc l) zero_elem
  full_block j =
      ap (λ u. read_chunk l zeros_on (zero_chunk_header ssds j u j)) (sym w.divides)
      ∙ header-read j (epc l) j (omega arith)

  replicate-add :
      (m n : ℕ) → replicate m zero_elem ++ replicate n zero_elem ≡ replicate (m + n) zero_elem
  replicate-add zero n = ap (λ k. replicate k zero_elem) {x = n} {y = 0 + n} (omega arith)
  replicate-add (suc m) n =
      ap (◌∷◌ zero_elem) (replicate-add m n)
      ∙ ap (λ k. replicate k zero_elem) {x = suc (m + n)} {y = suc m + n} (omega arith)

  headers-contents :
      (s k : ℕ)
      → contents l zeros_on (tabulate_from s k (λ j. zero_chunk_header ssds j l.chunk_size j))
        ≡ replicate (k * epc l) zero_elem
  headers-contents s zero = ap (λ k. replicate k zero_elem) {x = 0} {y = 0 * epc l} (grind arith)
  headers-contents s (suc k) =
      ap₂ ◌++◌ (full_block s) (headers-contents (s + 1) k)
      ∙ replicate-add (epc l) (k * epc l)
      ∙ ap (λ n. replicate n zero_elem) {x = epc l + k * epc l} {y = suc k * epc l} (grind arith)

  -- `prepend_zero_chunks` of a well-formed sequence with files of its own, on at least one drive,
  -- is a well-formed sequence with `k` chunks of zeros in front.
  pub prepend_zero_chunks-contents :
      (seq : ChunkSeq) (k : ℕ)
      → IsWellFormed l d seq
      → Elsewhere seq
      → (contents l zeros_on (prepend_zero_chunks l ssds seq k)
          ≡ replicate (k * epc l) zero_elem ++ contents l d seq)
        × IsWellFormed l zeros_on (prepend_zero_chunks l ssds seq k)
  unfolding prepend_zero_chunks
  prepend_zero_chunks-contents seq k v away =
      let headers = tabulate_from 0 k (λ (j : ℕ). zero_chunk_header ssds j l.chunk_size j) in
      elim (ℕ_discrete k 0) [
        | yes none_added ↦ rw none_added (
          contents-Elsewhere seq away
              ∙ ap (λ n. replicate n zero_elem ++ contents l d seq) {x = 0} {y = 0 * epc l}
                  (grind arith),
          record {
            indexed = v.indexed;
            dense = v.dense;
            stored = IsStored-Elsewhere seq away v.stored;
          },
        )
        | no some_added ↦ rw (≢→== k 0 some_added) (
          contents-append l zeros_on headers (renumber k seq)
              ∙ ap₂ ◌++◌ (headers-contents 0 k)
                  (renumber-contents l zeros_on k seq ∙ contents-Elsewhere seq away),
          record {
            indexed =
                IndexedFrom-append 0 headers (renumber k seq)
                  (IndexedFrom-tabulate_from 0 k _ (λ i low lt. header-index i))
                  (subst (λ n. IndexedFrom n (renumber k seq)) {x = k} {y = 0 + length headers}
                    (omega (
                      arith,
                      length-tabulate_from 0 k (λ (j : ℕ). zero_chunk_header ssds j l.chunk_size j),
                    ))
                    (renumber-indexed k seq));
            dense =
                Full-IsDense l headers (renumber k seq)
                  (All-tabulate_from (Full l) 0 k _ (λ i low lt. header-Full i))
                  (renumber-IsDense l k seq v.dense);
            stored =
                All-append _ headers (renumber k seq)
                  (All-tabulate_from _ 0 k _ (λ i low lt.
                    ap length (header-block i l.chunk_size i) ∙ length-replicate (epc l) zero_elem))
                  (renumber-IsStored l zeros_on k seq (IsStored-Elsewhere seq away v.stored));
          },
        )
      ]

  -- `append_zero_chunk` of a well-formed sequence of full chunks with files of its own, on at least
  -- one drive, is a well-formed sequence with `n` zeros behind, at most a chunk of them.
  pub append_zero_chunk-contents :
      (seq : ChunkSeq) (n : ℕ)
      → IsWellFormed l d seq
      → Elsewhere seq
      → All (Full l) seq
      → n ≤ epc l
      → (contents l zeros_on (append_zero_chunk ssds seq (n * l.elem_size))
          ≡ contents l d seq ++ replicate n zero_elem)
        × IsWellFormed l zeros_on (append_zero_chunk ssds seq (n * l.elem_size))
  unfolding append_zero_chunk
  append_zero_chunk-contents seq n v away full room =
      let added = zero_chunk_header ssds (length seq) (n * l.elem_size) (length seq) in
      (
        contents-snoc l zeros_on seq added
            ∙ ap₂ ◌++◌ (contents-Elsewhere seq away) (header-read (length seq) n (length seq) room),
        record {
          indexed =
              IndexedFrom-snoc 0 seq added v.indexed
                (appended_index (length seq) (n * l.elem_size));
          dense =
              IsDense-snoc l seq added full (appended_used (length seq) n)
                (omega (arith, header-count (length seq) n (length seq), room));
          stored = All-append _ seq (added ∷ []) (IsStored-Elsewhere seq away v.stored) (
            ap length (header-block (length seq) (n * l.elem_size) (length seq))
                ∙ length-replicate (epc l) zero_elem,
            tt,
          );
        },
      )
