-- ===== src/DensePack/Output.antt =====
-- The sequence that the packer's writes leave on the drives.
use Prim.Native.String.{String}
use plaidlaylib.Prelude.{
  ℕ, zero, suc, ◌+◌, ◌*◌, ◌/◌, ◌≤◌, ◌<◌, ◌≡◌, refl, sym, ap, ap₂, ◌∙◌, subst, inl, inr, List, [],
  ◌∷◌, ◌++◌, length, take, get_or, arith, concat, ℕ_discrete, mul-injective, mul-div-cancel,
  take-append_left,
}
use native.Mathlib.Nat.{zero-add}
use plaidlaylib.Layout.{Layout, IsLayout, epc}
use plaidlaylib.Disk.{Disk, get_file_name-injective}
use plaidlaylib.Chunk.{contents, IsDense, IsStored, IsWellFormed, IndexedFrom}
use plaidlaylib.Placement.Slots.{ranks_distinct}
use plaidlaylib.Writer.{Request, land}
use plaidlaylib.Writer.Landing.{Apart, land-Landed}
use plaidlaylib.Tabulate.{Run, IsRun}
use plaidlaylib.Tabulate.Fresh.{length-pad_block}
use plaidlaylib.DensePack.{PackState, nothing, pack, truncate_files, write_packed}
use plaidlaylib.DensePack.Packer.{request_at, chunks_from, requests_from, Cut, pack-Packs, state_of}

module _ (l : Layout) (w : IsLayout l) {R : Type 0} (zero_elem : R) (r : Run)
    (prefix : String) where
  pub get_or-requests_from :
      (k i : ℕ) (bs : List (List R))
      → i < length bs
      → get_or (requests_from l w zero_elem r prefix k bs) i nothing
        ≡ request_at l w zero_elem r prefix (k + i) (get_or bs i [])
  get_or-requests_from k i [] h = absurd (omega arith)
  get_or-requests_from k zero (b ∷ bs) h =
      ap (λ t. request_at l w zero_elem r prefix t b) {x = k} {y = k + 0} (omega arith)
  get_or-requests_from k (suc i) (b ∷ bs) h =
      get_or-requests_from (k + 1) i bs (omega arith)
      ∙ ap (λ t. request_at l w zero_elem r prefix t (get_or bs i [])) {x = k + 1 + i}
          {y = k + suc i} (omega arith)

  pub length-requests_from :
      (k : ℕ) (bs : List (List R)) → length (requests_from l w zero_elem r prefix k bs) ≡ length bs
  length-requests_from k [] = refl
  length-requests_from k (b ∷ bs) = ap suc (length-requests_from (k + 1) bs)

  IndexedFrom-chunks_from :
      (k : ℕ) (bs : List (List R)) → IndexedFrom k (chunks_from l w zero_elem r prefix k bs)
  IndexedFrom-chunks_from k [] = tt
  IndexedFrom-chunks_from k (b ∷ bs) = (refl, IndexedFrom-chunks_from (k + 1) bs)

  pub count_of_elems : (n : ℕ) → n * l.elem_size / l.elem_size ≡ n
  count_of_elems n = mul-div-cancel n l.elem_size w.elem_pos

  IsDense-chunks_from :
      (k : ℕ) (bs : List (List R))
      → Cut l w zero_elem r prefix bs
      → IsDense l (chunks_from l w zero_elem r prefix k bs)
  IsDense-chunks_from k [] h = tt
  IsDense-chunks_from k (b ∷ []) h =
      let c = count_of_elems (length b) in (ap (λ n. n * l.elem_size) c, omega (arith, c, h))
  IsDense-chunks_from k (b ∷ c ∷ bs) h =
      let e = count_of_elems (length b) in
      (ap (λ n. n * l.elem_size) e, e ∙ h.0, IsDense-chunks_from (k + 1) (c ∷ bs) h.1)

  length-Cut :
      (b : List R) (bs : List (List R))
      → Cut l w zero_elem r prefix (b ∷ bs)
      → (length b ≤ epc l) × Cut l w zero_elem r prefix bs
  length-Cut b [] h = (h, tt)
  length-Cut b (c ∷ bs) h = (omega (arith, h.0), h.1)

  -- Where the blocks are in place, the chunks read back as their elements.
  read-chunks_from :
      (d : Disk R) (k : ℕ) (bs : List (List R))
      → Cut l w zero_elem r prefix bs
      → ((i : ℕ)
          → i < length bs
          → let q = request_at l w zero_elem r prefix (k + i) (get_or bs i []) in
            d q.file q.offset ≡ q.block)
      → (contents l d (chunks_from l w zero_elem r prefix k bs) ≡ concat bs)
        × IsStored l d (chunks_from l w zero_elem r prefix k bs)
  read-chunks_from d k [] cut h = (refl, tt)
  read-chunks_from d k (b ∷ bs) cut h =
      let parts = length-Cut b bs cut in
      let here =
        ap (λ t. let q = request_at l w zero_elem r prefix t b in d q.file q.offset) {x = k}
          {y = k + 0} (omega arith)
        ∙ h 0 (omega arith) in
      let rest = read-chunks_from d (k + 1) bs parts.1 (λ i hi.
        ap (λ t. let q = request_at l w zero_elem r prefix t (get_or bs i []) in d q.file q.offset)
          {x = k + 1 + i} {y = k + suc i} (omega arith)
        ∙ h (suc i) (omega arith)) in
      (
        ap₂ ◌++◌ (ap₂ take (count_of_elems (length b)) here ∙ take-append_left (length b) b _ refl)
            rest.0,
        (ap length here ∙ length-pad_block l w zero_elem b parts.0, rest.1),
      )

  pub length-chunks_from :
      (k : ℕ) (bs : List (List R)) → length (chunks_from l w zero_elem r prefix k bs) ≡ length bs
  length-chunks_from k [] = refl
  length-chunks_from k (b ∷ bs) = ap suc (length-chunks_from (k + 1) bs)

  pub requests-Apart :
      (bs : List (List R))
      → Apart (λ i. get_or (requests_from l w zero_elem r prefix 0 bs) i nothing) (length bs)
  requests-Apart bs i j hi hj ne =
      rw (get_or-requests_from 0 i bs hi, get_or-requests_from 0 j bs hj, zero-add i, zero-add j)
        (elim (ℕ_discrete (r.drive_of i) (r.drive_of j)) [
          | yes same ↦ inr (λ e.
              ranks_distinct r.drive_of i j ne same (
                mul-injective _ _ l.chunk_size (grind (arith, w.elem_pos, w.epc_pos, w.divides)) e))
          | no other ↦ inl (λ e. other (get_file_name-injective r.ssd_list prefix _ _ e))
        ])

  pub write_packed-state :
      (bs : List (List R)) (d : Disk R)
      → Cut l w zero_elem r prefix bs
      → IsRun r (length bs)
      → let s = state_of l w zero_elem r prefix bs [] in
        let d' = land (λ i. get_or s.pushed i nothing) r.order d in
        (contents l d' s.out_chunks ≡ concat bs) × IsWellFormed l d' s.out_chunks
  write_packed-state bs d cut run =
      let requests = λ (i : ℕ). get_or (requests_from l w zero_elem r prefix 0 bs) i nothing in
      let d' = land requests r.order d in
      let read = read-chunks_from d' 0 bs cut (λ i hi.
        subst (λ (q : Request R). d' q.file q.offset ≡ q.block) (get_or-requests_from 0 i bs hi)
          (land-Landed requests (length bs) (requests-Apart bs) i hi r.order d run.order_below
            (run.order_all i hi))) in
      (
        read.0,
        record {
          indexed = IndexedFrom-chunks_from 0 bs;
          dense = IsDense-chunks_from 0 bs cut;
          stored = read.1;
        },
      )

  -- Whatever drives are drawn and in whatever order the writes land, as long as draws are in range
  -- and every write lands, the sequence is well formed and reads back as the concatenation of the
  -- runs.
  pub write_packed-contents :
      (runs : List (List R)) (d : Disk R)
      → IsRun r (length (pack l zero_elem r prefix runs).out_chunks)
      → let (seq, d') = write_packed l zero_elem r prefix runs d in
        (contents l d' seq ≡ concat runs) × IsWellFormed l d' seq
  unfolding write_packed
  write_packed-contents runs d run =
      let p = pack-Packs l w zero_elem r prefix runs in
      let start = truncate_files l zero_elem r prefix (length r.ssd_list) d in
      let count_eq =
        ap (λ (s : PackState R). length s.out_chunks) p.state ∙ length-chunks_from 0 p.blocks in
      let out = write_packed-state p.blocks start p.cut (subst (IsRun r) count_eq run) in
      subst
        (λ (s : PackState R).
          let d' = land (λ i. get_or s.pushed i nothing) r.order start in
          (contents l d' s.out_chunks ≡ concat runs) × IsWellFormed l d' s.out_chunks)
        (sym p.state) (out.0 ∙ p.whole, out.1)
