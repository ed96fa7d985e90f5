-- ===== src/Tabulate/Fresh.antt =====
-- What `write_fresh` leaves on the drives: each block at its descriptor's address, whatever the
-- drives drawn and whatever the order in which the writes land.
use Prim.Native.String.{String}
use plaidlaylib.Prelude.{
  ℕ, zero, suc, ◌-◌, ◌*◌, ◌/◌, ◌≤◌, ◌<◌, ◌≡◌, refl, ap, ◌∙◌, ◌≢◌, inl, inr, List, length, replicate,
  tabulate_from, arith, concat, ℕ_discrete, mul-injective, mul-div-cancel, length-append,
  length-replicate, take-append_left, All-tabulate_from, tabulate_from_ext, map-tabulate_from,
}
use plaidlaylib.Layout.{Layout, IsLayout, epc}
use plaidlaylib.Disk.{
  FilePath, Disk, get_file_name, get_file_name-injective, get_file_name-prefix, same_path_iff,
}
use plaidlaylib.Chunk.Built.{IndexedFrom-tabulate_from, IsDense-tabulate_from}
use plaidlaylib.Chunk.{Chunk, IndexedFrom, IsDense, IsStored, read_chunk, contents}
use plaidlaylib.Placement.Slots.{slots_distinct}
use plaidlaylib.Writer.Landing.{Apart, land-Landed, land-other}
use plaidlaylib.Tabulate.{Run, IsRun, pad_block, descriptor, request, write_fresh, allocate}

module _ (l : Layout) {A : Type 0} (zero_elem : A) where
  allocate-other :
      (ssds : List String) (prefix : String) (chunks_of : ℕ → List ℕ) (k : ℕ) (d : Disk A)
      (f : FilePath)
      → f.prefix ≢ prefix
      → (a : ℕ) → allocate l zero_elem (get_file_name ssds prefix) chunks_of k d f a ≡ d f a
  unfolding allocate
  allocate-other ssds prefix chunks_of zero d f ne a = refl
  allocate-other ssds prefix chunks_of (suc k) d f ne a = ground (
    arith,
    allocate-other ssds prefix chunks_of k d f ne a,
    same_path_iff f (get_file_name ssds prefix k),
    get_file_name-prefix ssds prefix k,
  )

module _ (l : Layout) (w : IsLayout l) {A : Type 0} (zero_elem : A) where
  chunk_size_pos : 0 < l.chunk_size
  chunk_size_pos = grind (arith, w.elem_pos, w.epc_pos, w.divides)

  pub length-pad_block :
      (xs : List A) → length xs ≤ epc l → length (pad_block l zero_elem xs) ≡ epc l
  length-pad_block xs h = omega (
    arith,
    length-append xs (replicate (epc l - length xs) zero_elem),
    length-replicate (epc l - length xs) zero_elem,
  )

  module _ (r : Run) (prefix : String) (n : ℕ) (header : ℕ → ℕ × ℕ) (chunk_data : ℕ → List A)
      (run : IsRun r n) (d : Disk A) where
    requests-Apart : Apart (request l zero_elem r prefix n header chunk_data) n
    unfolding request
    requests-Apart i j hi hj ne = elim (ℕ_discrete (r.drive_of i) (r.drive_of j)) [
      | yes same ↦ inr (λ e.
          slots_distinct r.drive_of n (length r.ssd_list) i j hi hj (run.drives i hi) same ne
            (mul-injective _ _ l.chunk_size chunk_size_pos e))
      | no other ↦ inl (λ e. other (get_file_name-injective r.ssd_list prefix _ _ e))
    ]

    -- The block at the address of descriptor `i` is chunk `i`'s.
    pub write_fresh-block :
        (i : ℕ)
        → i < n
        → let (seq, d') = write_fresh l zero_elem r prefix n header chunk_data d in
          let c = descriptor l zero_elem r prefix n header chunk_data i in
          d' c.filename c.begin_addr ≡ pad_block l zero_elem (chunk_data i)
    unfolding write_fresh
    write_fresh-block i hi =
        land-Landed (request l zero_elem r prefix n header chunk_data) n requests-Apart i hi r.order
          _ run.order_below (run.order_all i hi)

    -- The blocks read back are the chunks' data.
    pub write_fresh-contents :
        ((i : ℕ)
          → i < n
          → (length (chunk_data i) ≤ epc l) × ((header i).0 ≡ length (chunk_data i) * l.elem_size))
        → let (seq, d') = write_fresh l zero_elem r prefix n header chunk_data d in
          (contents l d' seq ≡ concat (tabulate_from 0 n chunk_data)) × IsStored l d' seq
    unfolding write_fresh
    write_fresh-contents fits = (
      ap concat (
          map-tabulate_from 0 n desc (read_chunk l d')
          ∙ tabulate_from_ext 0 n (λ i. read_chunk l d' (desc i)) chunk_data
              (λ i _ hi. read_back i (omega arith))),
      All-tabulate_from _ 0 n desc (λ i _ hi.
          ap length (write_fresh-block i (omega arith))
          ∙ length-pad_block (chunk_data i) (fits i (omega arith)).0),
    )
      where
        desc : ℕ → Chunk
        desc = descriptor l zero_elem r prefix n header chunk_data

        d' : Disk A
        d' = (write_fresh l zero_elem r prefix n header chunk_data d).1

        read_back : (i : ℕ) → i < n → read_chunk l d' (desc i) ≡ chunk_data i
        read_back i hi = rw (write_fresh-block i hi) (
            take-append_left _ (chunk_data i) _ (
              ap (λ u. u / l.elem_size) (fits i hi).1
              ∙ mul-div-cancel (length (chunk_data i)) l.elem_size w.elem_pos))

    -- Files of another prefix are left alone.
    pub write_fresh-other :
        (f : FilePath)
        → f.prefix ≢ prefix
        → (a : ℕ) → (write_fresh l zero_elem r prefix n header chunk_data d).1 f a ≡ d f a
    unfolding write_fresh request
    write_fresh-other f ne a =
        land-other (request l zero_elem r prefix n header chunk_data) n f
          (λ i hi e.
            ne (ap (λ (p : FilePath). p.prefix) e ∙ get_file_name-prefix r.ssd_list prefix _))
          r.order _ run.order_below a
        ∙ allocate-other l zero_elem r.ssd_list prefix _ (length r.ssd_list) d f ne a

    -- The descriptors are in logical order.
    pub write_fresh-indexed :
        ((i : ℕ) → i < n → (header i).1 ≡ i)
        → IndexedFrom 0 (write_fresh l zero_elem r prefix n header chunk_data d).0
    unfolding write_fresh descriptor
    write_fresh-indexed h = IndexedFrom-tabulate_from 0 n _ (λ i _ hi. h i (omega arith))

    pub write_fresh-IsDense :
        ((i : ℕ)
          → i < n
          → ((header i).0 / l.elem_size * l.elem_size ≡ (header i).0)
            × ((header i).0 / l.elem_size ≤ epc l)
            × (suc i < n → (header i).0 / l.elem_size ≡ epc l))
        → IsDense l (write_fresh l zero_elem r prefix n header chunk_data d).0
    unfolding write_fresh descriptor
    write_fresh-IsDense h =
        IsDense-tabulate_from l 0 n _
          (λ i _ hi. let here = h i (omega arith) in (here.0, here.1, λ lt. here.2 (omega arith)))
