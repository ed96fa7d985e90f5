-- ===== src/Transform/Emitted.antt =====
-- What the emits of `ExternalTransform` leave behind: each block in a slot of its own.
use Prim.Native.String.{String}
use mathlib.Core.Path.{fun_ext}
use plaidlaylib.Prelude.{
  ℕ, suc, ◌+◌, ◌*◌, ◌/◌, ◌≤◌, ◌<◌, ◌≡◌, refl, sym, ap, ap₂, ◌∙◌, subst, List, [], ◌∷◌, ◌++◌, map,
  length, take, get_or, arith, concat, All, append_assoc, append-nil, length-append, length-map,
  map-append, ◌==◌, ==_iff, ≢→==, if◌then◌else◌, ℕ_discrete, take-append_left,
}
use native.Mathlib.Nat.{zero-add, zero-mul}
use plaidlaylib.Layout.{Layout, IsLayout, epc}
use plaidlaylib.Disk.{Disk, get_file_name}
use plaidlaylib.Chunk.{Chunk, read_chunk, contents, count, IsStored, IsDense, IndexedFrom}
use plaidlaylib.Placement.{drive_chunks}
use plaidlaylib.Placement.Slots.{length-drive_chunks_step}
use plaidlaylib.Writer.{Request, land}
use plaidlaylib.Writer.Landing.{land-Landed}
use plaidlaylib.Tabulate.{Run, IsRun, pad_block}
use plaidlaylib.Tabulate.Fresh.{length-pad_block}
use plaidlaylib.DensePack.{nothing}
use plaidlaylib.DensePack.Packer.{rank, request_at, requests_from, requests_from-snoc, Cut}
use plaidlaylib.DensePack.Output.{get_or-requests_from, count_of_elems, requests-Apart}
use plaidlaylib.Transform.{Emission, EmitState, no_emits, emit, emit_all, renumber}
use plaidlaylib.Transform.Sorted.{Match}

abbrev pub blocks_of : {R : Type 0} → List (Emission R) → List (List R)
blocks_of {R} es = map (λ (e : Emission R). e.elems) es

module _ (l : Layout) (w : IsLayout l) {R : Type 0} (zero_elem : R) (r : Run)
    (prefix : String) where
  -- The descriptor of the block that was emitted as number `i`.
  abbrev pub emitted_at : ℕ → Emission R → Chunk
  emitted_at i e = record {
    filename = get_file_name r.ssd_list prefix (r.drive_of i);
    begin_addr = rank l w zero_elem r prefix i (r.drive_of i) * l.chunk_size;
    used = length e.elems * l.elem_size;
    index = e.logical_index;
  }

  abbrev pub emitted : ℕ → List (Emission R) → List Chunk
  emitted i [] = []
  emitted i (e ∷ es) = emitted_at i e ∷ emitted (i + 1) es

  abbrev pub emitted_state : List (Emission R) → EmitState R
  emitted_state es = record {
    file_offsets = λ d. rank l w zero_elem r prefix (length es) d * l.chunk_size;
    out_chunks = emitted 0 es;
    pushed = requests_from l w zero_elem r prefix 0 (blocks_of es);
  }

  pub length-emitted : (i : ℕ) (es : List (Emission R)) → length (emitted i es) ≡ length es
  length-emitted i [] = refl
  length-emitted i (e ∷ es) = ap suc (length-emitted (i + 1) es)

  emitted-snoc :
      (i : ℕ) (es : List (Emission R)) (e : Emission R)
      → emitted i (es ++ (e ∷ [])) ≡ emitted i es ++ (emitted_at (i + length es) e ∷ [])
  emitted-snoc i [] e = ap (λ k. emitted_at k e ∷ []) {x = i} {y = i + 0} (omega arith)
  emitted-snoc i (f ∷ es) e = ap (◌∷◌ (emitted_at i f)) (
      emitted-snoc (i + 1) es e
      ∙ ap (λ k. emitted (i + 1) es ++ (emitted_at k e ∷ [])) {x = i + 1 + length es}
          {y = i + suc (length es)} (omega arith))

  next_offset :
      (n d : ℕ)
      → (if d == r.drive_of n
          then rank l w zero_elem r prefix n (r.drive_of n) * l.chunk_size + l.chunk_size
          else rank l w zero_elem r prefix n d * l.chunk_size)
        ≡ rank l w zero_elem r prefix (suc n) d * l.chunk_size
  next_offset n d =
      let step = length-drive_chunks_step r.drive_of n d in
      elim (ℕ_discrete d (r.drive_of n)) [
        | yes e ↦
            let at_drive : rank l w zero_elem r prefix (suc n) d
                ≡ rank l w zero_elem r prefix n (r.drive_of n) + 1 =
              step ∙ ground arith in
            rw ((==_iff d (r.drive_of n)).1 e, at_drive) (grind arith)
        | no ne ↦
            let kept : rank l w zero_elem r prefix (suc n) d ≡ rank l w zero_elem r prefix n d =
              step ∙ ground arith in
            rw (≢→== d (r.drive_of n) ne, kept) refl
      ]

  -- `emit` with the slot that it draws.
  abbrev emit_at : ℕ → Emission R → EmitState R → EmitState R
  emit_at n e s = record {
    file_offsets = λ d.
        if d == r.drive_of n
        then s.file_offsets (r.drive_of n) + l.chunk_size
        else s.file_offsets d;
    out_chunks =
        s.out_chunks
        ++ (record {
          filename = get_file_name r.ssd_list prefix (r.drive_of n);
          begin_addr = s.file_offsets (r.drive_of n);
          used = length e.elems * l.elem_size;
          index = e.logical_index;
        }
            ∷ []);
    pushed =
        s.pushed
        ++ (record {
          file = get_file_name r.ssd_list prefix (r.drive_of n);
          offset = s.file_offsets (r.drive_of n);
          block = pad_block l zero_elem e.elems;
        }
            ∷ []);
  }

  emit-emitted_state :
      (es : List (Emission R)) (e : Emission R)
      → emit l zero_elem r prefix e (emitted_state es) ≡ emitted_state (es ++ (e ∷ []))
  unfolding emit
  emit-emitted_state es e =
      let n_eq : suc (length es) ≡ length (es ++ (e ∷ [])) =
        omega (arith, length-append es (e ∷ [])) in
      let offsets = fun_ext (λ d.
        next_offset (length es) d
        ∙ ap (λ n. rank l w zero_elem r prefix n d * l.chunk_size) n_eq) in
      let headers =
        ap (λ k. emitted 0 es ++ (emitted_at k e ∷ [])) (sym (zero-add (length es)))
        ∙ sym (emitted-snoc 0 es e) in
      let bs = blocks_of es in
      let at_end : length es ≡ 0 + length bs =
        omega (arith, length-map es (λ (f : Emission R). f.elems)) in
      let writes =
        ap
          (λ k.
            requests_from l w zero_elem r prefix 0 bs
            ++ (request_at l w zero_elem r prefix k e.elems ∷ []))
          at_end
        ∙ sym (requests_from-snoc l w zero_elem r prefix 0 bs e.elems)
        ∙ ap (requests_from l w zero_elem r prefix 0)
            (sym (map-append (λ (f : Emission R). f.elems) es (e ∷ []))) in
      ap (λ n. emit_at n e (emitted_state es)) (length-emitted 0 es)
      ∙ (λ i. record { file_offsets = offsets i; out_chunks = headers i; pushed = writes i })

  emit_all-emitted_state :
      (es fs : List (Emission R))
      → emit_all l zero_elem r prefix fs (emitted_state es) ≡ emitted_state (es ++ fs)
  unfolding emit_all
  emit_all-emitted_state es [] = ap emitted_state (sym (append-nil es))
  emit_all-emitted_state es (f ∷ fs) =
      ap (emit_all l zero_elem r prefix fs) (emit-emitted_state es f)
      ∙ emit_all-emitted_state (es ++ (f ∷ [])) fs
      ∙ ap emitted_state (append_assoc es (f ∷ []) fs)

  start-emitted_state : no_emits ≡ emitted_state []
  unfolding drive_chunks
  start-emitted_state =
      let zeros = fun_ext (λ (x : ℕ). sym (zero-mul l.chunk_size)) in
      λ i. record { file_offsets = zeros i; out_chunks = []; pushed = [] }

  pub emit_all-state :
      (es : List (Emission R)) → emit_all l zero_elem r prefix es no_emits ≡ emitted_state es
  emit_all-state es =
      ap (emit_all l zero_elem r prefix es) start-emitted_state ∙ emit_all-emitted_state [] es

  module _ (d : Disk R) where
    -- A descriptor and the disk show a block.
    abbrev pub Shows : Chunk → Emission R → Type 0
    Shows c e =
        (c.index ≡ e.logical_index)
        × (c.used ≡ length e.elems * l.elem_size)
        × (read_chunk l d c ≡ e.elems)
        × (length (d c.filename c.begin_addr) ≡ epc l)

    pub Shows-key : (c : Chunk) (e : Emission R) → Shows c e → c.index ≡ e.logical_index
    Shows-key c e h = h.0

    emitted-Shows :
        (k : ℕ) (es : List (Emission R))
        → All (λ (e : Emission R). length e.elems ≤ epc l) es
        → ((i : ℕ)
            → i < length es
            → let q = request_at l w zero_elem r prefix (k + i) (get_or (blocks_of es) i []) in
              d q.file q.offset ≡ q.block)
        → Match Shows Shows-key (emitted k es) es
    emitted-Shows k [] h landed = tt
    emitted-Shows k (e ∷ es) h landed =
        let here =
          ap (λ t. let q = request_at l w zero_elem r prefix t e.elems in d q.file q.offset) {x = k}
            {y = k + 0} (omega arith)
          ∙ landed 0 (omega arith) in
        (
          (
            refl,
            refl,
            ap₂ take (count_of_elems l w zero_elem r prefix (length e.elems)) here
                ∙ take-append_left (length e.elems) e.elems _ refl,
            ap length here ∙ length-pad_block l w zero_elem e.elems h.0,
          ),
          emitted-Shows (k + 1) es h.1 (λ i lt.
              ap
                (λ t.
                  let q = request_at l w zero_elem r prefix t (get_or (blocks_of es) i []) in
                  d q.file q.offset)
                {x = k + 1 + i} {y = k + suc i} (omega arith)
              ∙ landed (suc i) (omega arith)),
        )

    -- What a compacted sequence of descriptors shows.
    pub renumber-contents :
        (k : ℕ) (cs : List Chunk) (es : List (Emission R))
        → Match Shows Shows-key cs es
        → (contents l d (renumber k cs) ≡ concat (blocks_of es))
          × IndexedFrom k (renumber k cs)
          × IsStored l d (renumber k cs)
    unfolding renumber
    renumber-contents k [] [] m = (refl, tt, tt)
    renumber-contents k [] (e ∷ es) m = absurd m
    renumber-contents k (c ∷ cs) [] m = absurd m
    renumber-contents k (c ∷ cs) (e ∷ es) m =
        let rest = renumber-contents (k + 1) cs es m.1 in
        (ap₂ ◌++◌ m.0.2 rest.0, (refl, rest.1), (m.0.3, rest.2))

    shown_count :
        (c : Chunk) (e : Emission R)
        → Shows c e
        → (count l c ≡ length e.elems) × (count l c * l.elem_size ≡ c.used)
    shown_count c e h =
        let n =
          ap (λ u. u / l.elem_size) h.1 ∙ count_of_elems l w zero_elem r prefix (length e.elems) in
        (n, ap (λ t. t * l.elem_size) n ∙ sym h.1)

    pub renumber-IsDense :
        (k : ℕ) (cs : List Chunk) (es : List (Emission R))
        → Match Shows Shows-key cs es
        → Cut l w zero_elem r prefix (blocks_of es)
        → IsDense l (renumber k cs)
    unfolding renumber
    renumber-IsDense k [] es m cut = tt
    renumber-IsDense k (c ∷ cs) [] m cut = absurd m
    renumber-IsDense k (c ∷ []) (e ∷ []) m cut =
        let n = shown_count c e m.0 in (n.1, omega (arith, n.0, cut))
    renumber-IsDense k (c ∷ []) (e ∷ f ∷ es) m cut = absurd m.1
    renumber-IsDense k (c ∷ b ∷ cs) (e ∷ []) m cut = absurd m.1
    renumber-IsDense k (c ∷ b ∷ cs) (e ∷ f ∷ es) m cut =
        let n = shown_count c e m.0 in
        (n.1, n.0 ∙ cut.0, renumber-IsDense (k + 1) (b ∷ cs) (f ∷ es) m.1 cut.1)

  pub land-Shows :
      (es : List (Emission R)) (d : Disk R)
      → All (λ (e : Emission R). length e.elems ≤ epc l) es
      → IsRun r (length es)
      → let landed = land (λ i. get_or (emitted_state es).pushed i nothing) r.order d in
        Match (Shows landed) (Shows-key landed) (emitted 0 es) es
  land-Shows es d h run =
      let bs = blocks_of es in
      let requests = λ (i : ℕ). get_or (requests_from l w zero_elem r prefix 0 bs) i nothing in
      let d' = land requests r.order d in
      let size : length bs ≡ length es = length-map es (λ (f : Emission R). f.elems) in
      let run' = subst (IsRun r) (sym size) run in
      emitted-Shows d' 0 es h (λ i lt.
        let below : i < length bs = omega (arith, size) in
        subst (λ (q : Request R). d' q.file q.offset ≡ q.block)
          (get_or-requests_from l w zero_elem r prefix 0 i bs below)
          (land-Landed requests (length bs) (requests-Apart l w zero_elem r prefix bs) i below
            r.order d run'.order_below (run'.order_all i below)))
