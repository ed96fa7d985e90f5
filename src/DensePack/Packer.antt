-- ===== src/DensePack/Packer.antt =====
-- The packer cuts the concatenation of the runs into full chunks and one short one.
use Prim.Native.String.{String}
use plaidlaylib.Prelude.{
  ℕ, zero, suc, ◌+◌, ◌-◌, ◌*◌, ◌≤◌, ◌<◌, min, ◌≡◌, refl, sym, ap, ◌∙◌, subst, ◌≢◌, List, [], ◌∷◌,
  ◌++◌, ◌==◌, if◌then◌else◌, length, take, drop, arith, All, concat, concat-snoc, append_assoc,
  append-nil, length-append, length-take, length-drop, take-append-drop, All-append, ℕ_discrete,
  ==_iff, ≢→==, dec_lt, lt→ltb, nil_of_length,
}
use mathlib.Core.Path.{fun_ext}
use native.Mathlib.Nat.{zero-add}
use plaidlaylib.Layout.{Layout, IsLayout, epc}
use plaidlaylib.Disk.{get_file_name}
use plaidlaylib.Chunk.{Chunk}
use plaidlaylib.Placement.{drive_chunks}
use plaidlaylib.Placement.Slots.{length-drive_chunks_step}
use plaidlaylib.Writer.{Request}
use plaidlaylib.Tabulate.{Run, pad_block}
use plaidlaylib.DensePack.{PackState, push_chunk, fill, pack_run, pack_runs, pack_last, start, pack}

module _ (l : Layout) (w : IsLayout l) {R : Type 0} (zero_elem : R) (r : Run)
    (prefix : String) where
  -- The slot of output chunk `i`: the chunks before it on its drive.
  abbrev pub rank : ℕ → ℕ → ℕ
  rank i drive = length (drive_chunks r.drive_of i drive)

  abbrev pub chunk_at : ℕ → ℕ → Chunk
  chunk_at i used = record {
    filename = get_file_name r.ssd_list prefix (r.drive_of i);
    begin_addr = rank i (r.drive_of i) * l.chunk_size;
    used = used;
    index = i;
  }

  abbrev pub request_at : ℕ → List R → Request R
  request_at i elems = record {
    file = get_file_name r.ssd_list prefix (r.drive_of i);
    offset = rank i (r.drive_of i) * l.chunk_size;
    block = pad_block l zero_elem elems;
  }

  -- What is recorded and pushed for a list of chunks' elements, from output chunk `i` on.
  abbrev pub chunks_from : ℕ → List (List R) → List Chunk
  chunks_from i [] = []
  chunks_from i (b ∷ bs) = chunk_at i (length b * l.elem_size) ∷ chunks_from (i + 1) bs

  abbrev pub requests_from : ℕ → List (List R) → List (Request R)
  requests_from i [] = []
  requests_from i (b ∷ bs) = request_at i b ∷ requests_from (i + 1) bs

  -- The packer's state once the chunks `bs` are out.
  abbrev pub state_of : List (List R) → List R → PackState R
  state_of bs cur = record {
    cur = cur;
    out_idx = length bs;
    next_slot = λ d. rank (length bs) d;
    out_chunks = chunks_from 0 bs;
    pushed = requests_from 0 bs;
  }

  chunks_from-snoc :
      (i : ℕ) (bs : List (List R)) (b : List R)
      → chunks_from i (bs ++ (b ∷ []))
        ≡ chunks_from i bs ++ (chunk_at (i + length bs) (length b * l.elem_size) ∷ [])
  chunks_from-snoc i [] b =
      ap (λ k. chunk_at k (length b * l.elem_size) ∷ []) {x = i} {y = i + 0} (omega arith)
  chunks_from-snoc i (x ∷ bs) b = ap (◌∷◌ (chunk_at i (length x * l.elem_size))) (
      chunks_from-snoc (i + 1) bs b
      ∙ ap (λ k. chunks_from (i + 1) bs ++ (chunk_at k (length b * l.elem_size) ∷ []))
          {x = i + 1 + length bs} {y = i + suc (length bs)} (omega arith))

  pub requests_from-snoc :
      (i : ℕ) (bs : List (List R)) (b : List R)
      → requests_from i (bs ++ (b ∷ [])) ≡ requests_from i bs ++ (request_at (i + length bs) b ∷ [])
  requests_from-snoc i [] b = ap (λ k. request_at k b ∷ []) {x = i} {y = i + 0} (omega arith)
  requests_from-snoc i (x ∷ bs) b = ap (◌∷◌ (request_at i x)) (
      requests_from-snoc (i + 1) bs b
      ∙ ap (λ k. requests_from (i + 1) bs ++ (request_at k b ∷ [])) {x = i + 1 + length bs}
          {y = i + suc (length bs)} (omega arith))

  -- Pushing a chunk adds it to the list.
  pub push_chunk-state_of :
      (bs : List (List R)) (cur b : List R) (used : ℕ)
      → used ≡ length b * l.elem_size
      → push_chunk l zero_elem r prefix b used (state_of bs cur) ≡ state_of (bs ++ (b ∷ [])) []
  unfolding push_chunk
  push_chunk-state_of bs cur b used e =
      let n_eq : length bs + 1 ≡ length (bs ++ (b ∷ [])) = sym (length-append bs (b ∷ [])) in
      let slots = fun_ext (λ d.
        next_rank (length bs) d ∙ ap (λ n. rank n d) {x = suc (length bs)} (omega (arith, n_eq))) in
      let headers =
        ap (λ u. chunks_from 0 bs ++ (chunk_at (length bs) u ∷ [])) e
        ∙ ap (λ k. chunks_from 0 bs ++ (chunk_at k (length b * l.elem_size) ∷ []))
            (sym (zero-add (length bs)))
        ∙ sym (chunks_from-snoc 0 bs b) in
      let writes =
        ap (λ k. requests_from 0 bs ++ (request_at k b ∷ [])) (sym (zero-add (length bs)))
        ∙ sym (requests_from-snoc 0 bs b) in
      λ i. record {
        cur = [];
        out_idx = n_eq i;
        next_slot = slots i;
        out_chunks = headers i;
        pushed = writes i;
      }
    where
      next_rank :
          (n d : ℕ)
          → (if d == r.drive_of n then rank n (r.drive_of n) + 1 else rank n d) ≡ rank (suc n) d
      next_rank n d = ground (arith, length-drive_chunks_step r.drive_of n d)

  -- The packer has taken in the elements `xs`: full chunks are out, fewer than a chunk are left.
  pub record Holds (xs : List R) (s : PackState R) : Type 0 where
    pub blocks : List (List R)
    pub rest : List R
    pub state : s ≡ state_of blocks rest
    pub whole : concat blocks ++ rest ≡ xs
    pub full : All (λ b. length b ≡ epc l) blocks
    pub short : length rest < epc l

  fill_full :
      (can : ℕ) (src : List R) (bs : List (List R)) (cur : List R)
      → length (cur ++ take can src) ≡ epc l
      → fill l zero_elem r prefix can src (state_of bs cur)
        ≡ state_of (bs ++ ((cur ++ take can src) ∷ [])) []
  unfolding fill
  fill_full can src bs cur e = rw ((==_iff _ _).1 e) (
      push_chunk-state_of bs cur (cur ++ take can src) l.chunk_size
        (sym w.divides ∙ ap (λ k. k * l.elem_size) (sym e)))

  fill_part :
      (can : ℕ) (src : List R) (bs : List (List R)) (cur : List R)
      → length (cur ++ take can src) ≢ epc l
      → fill l zero_elem r prefix can src (state_of bs cur) ≡ state_of bs (cur ++ take can src)
  unfolding fill
  fill_part can src bs cur ne = rw (≢→== _ _ ne)

  fill-Holds :
      (can : ℕ) (src xs : List R) (s : PackState R) (h : Holds xs s)
      → can ≤ length src
      → can ≤ epc l - length h.rest
      → Holds (xs ++ take can src) (fill l zero_elem r prefix can src s)
  fill-Holds can src xs s h c1 c2 =
      let size = length-append h.rest (take can src) in
      let taken = length-take can src in
      elim (ℕ_discrete (length (h.rest ++ take can src)) (epc l)) [
        | yes e ↦ record {
          blocks = h.blocks ++ ((h.rest ++ take can src) ∷ []);
          rest = [];
          state =
              ap (fill l zero_elem r prefix can src) h.state ∙ fill_full can src h.blocks h.rest e;
          whole =
              append-nil _
              ∙ concat-snoc h.blocks (h.rest ++ take can src)
              ∙ sym (append_assoc (concat h.blocks) h.rest (take can src))
              ∙ ap (λ ys. ys ++ take can src) h.whole;
          full = All-append _ h.blocks _ h.full (e, tt);
          short = w.epc_pos;
        }
        | no ne ↦ record {
          blocks = h.blocks;
          rest = h.rest ++ take can src;
          state =
              ap (fill l zero_elem r prefix can src) h.state ∙ fill_part can src h.blocks h.rest ne;
          whole =
              sym (append_assoc (concat h.blocks) h.rest (take can src))
              ∙ ap (λ ys. ys ++ take can src) h.whole;
          full = h.full;
          short = omega (arith, size, taken, h.short);
        }
      ]

  pack_run-Holds :
      (fuel : ℕ) (src xs : List R) (s : PackState R)
      → Holds xs s
      → length src ≤ fuel
      → Holds (xs ++ src) (pack_run l zero_elem r prefix fuel src s)
  unfolding pack_run
  pack_run-Holds zero [] xs s h f = subst (λ ys. Holds ys s) (sym (append-nil xs)) h
  pack_run-Holds zero (x ∷ src) xs s h f = absurd (omega arith)
  pack_run-Holds (suc fuel) [] xs s h f = subst (λ ys. Holds ys s) (sym (append-nil xs)) h
  pack_run-Holds (suc fuel) (x ∷ src) xs s h f =
      let can = min (length (x ∷ src)) (epc l - length s.cur) in
      let cur_eq : length s.cur ≡ length h.rest = ap (λ (t : PackState R). length t.cur) h.state in
      let turn = fill-Holds can (x ∷ src) xs s h (omega arith) (omega (arith, cur_eq)) in
      let later =
        pack_run-Holds fuel (drop can (x ∷ src)) _ _ turn
          (omega (arith, length-drop can (x ∷ src), cur_eq, h.short)) in
      subst
        (λ ys. Holds ys (
          pack_run l zero_elem r prefix fuel (drop can (x ∷ src))
            (fill l zero_elem r prefix can (x ∷ src) s)))
        (append_assoc xs (take can (x ∷ src)) (drop can (x ∷ src))
          ∙ ap (◌++◌ xs) (take-append-drop can (x ∷ src)))
        later

  pack_runs-Holds :
      (runs : List (List R)) (xs : List R) (s : PackState R)
      → Holds xs s
      → Holds (xs ++ concat runs) (pack_runs l zero_elem r prefix runs s)
  unfolding pack_runs
  pack_runs-Holds [] xs s h = subst (λ ys. Holds ys s) (sym (append-nil xs)) h
  pack_runs-Holds (run ∷ runs) xs s h =
      subst
        (λ ys.
          Holds ys (
            pack_runs l zero_elem r prefix runs (pack_run l zero_elem r prefix (length run) run s)))
        (append_assoc xs run (concat runs))
        (pack_runs-Holds runs (xs ++ run) _ (pack_run-Holds (length run) run xs s h (omega arith)))

  pub start-Holds : Holds [] start
  unfolding drive_chunks
  start-Holds = record {
    blocks = [];
    rest = [];
    state = refl;
    whole = refl;
    full = tt;
    short = w.epc_pos;
  }

  -- Every chunk but the last is full, and none is overfull.
  abbrev pub Cut : List (List R) → Type 0
  Cut [] = Unit
  Cut (b ∷ []) = length b ≤ epc l
  Cut (b ∷ c ∷ bs) = (length b ≡ epc l) × Cut (c ∷ bs)

  Cut-full : (bs : List (List R)) → All (λ b. length b ≡ epc l) bs → Cut bs
  Cut-full [] h = tt
  Cut-full (b ∷ []) h = omega arith
  Cut-full (b ∷ c ∷ bs) h = (h.0, Cut-full (c ∷ bs) h.1)

  Cut-snoc :
      (bs : List (List R)) (rest : List R)
      → All (λ b. length b ≡ epc l) bs
      → length rest < epc l
      → Cut (bs ++ (rest ∷ []))
  Cut-snoc [] rest h s = omega arith
  Cut-snoc (b ∷ []) rest h s = (h.0, omega arith)
  Cut-snoc (b ∷ c ∷ bs) rest h s = (h.0, Cut-snoc (c ∷ bs) rest h.1 s)

  -- What the packer has put out at its end: a list of chunks that is the runs' concatenation, cut.
  pub record Packs (xs : List R) (s : PackState R) : Type 0 where
    pub blocks : List (List R)
    pub state : s ≡ state_of blocks []
    pub whole : concat blocks ≡ xs
    pub cut : Cut blocks

  pub pack_last-Packs :
      (xs : List R) (s : PackState R) → Holds xs s → Packs xs (pack_last l zero_elem r prefix s)
  unfolding pack_last
  pack_last-Packs xs s h = elim (dec_lt 0 (length h.rest)) [
    | yes some_left ↦ record {
      blocks = h.blocks ++ (h.rest ∷ []);
      state =
          ap (pack_last l zero_elem r prefix) h.state
          ∙ rw (lt→ltb _ _ some_left) (push_chunk-state_of h.blocks h.rest h.rest _ refl);
      whole = concat-snoc h.blocks h.rest ∙ h.whole;
      cut = Cut-snoc h.blocks h.rest h.full h.short;
    }
    | no none_left ↦
        let empty = nil_of_length h.rest (omega arith) in
        record {
          blocks = h.blocks;
          state = ap (pack_last l zero_elem r prefix) (h.state ∙ ap (state_of h.blocks) empty);
          whole =
              sym (append-nil (concat h.blocks))
              ∙ ap (◌++◌ (concat h.blocks)) (sym empty)
              ∙ h.whole;
          cut = Cut-full h.blocks h.full;
        }
  ]

  pub pack-Packs : (runs : List (List R)) → Packs (concat runs) (pack l zero_elem r prefix runs)
  unfolding pack
  pack-Packs runs = pack_last-Packs (concat runs) _ (pack_runs-Holds runs [] start start-Holds)
