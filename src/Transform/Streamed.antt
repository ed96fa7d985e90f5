-- ===== src/Transform/Streamed.antt =====
-- The blocks that a streaming body makes of a whole sequence.
use Prim.Native.String.{String}
use plaidlaylib.Prelude.{
  ℕ, zero, suc, ◌+◌, ◌-◌, ◌*◌, ◌≤◌, ◌<◌, ◌≡◌, refl, sym, ap, ap₂, subst, ◌∙◌, List, [], ◌∷◌, ◌++◌,
  All, All-append, length, map, concat, append-nil, concat-append, map-append, length-append,
  length-take, div_mul_bounds, mul-le_right, arith,
}
use plaidlaylib.Layout.{Layout, IsLayout, epc}
use plaidlaylib.Disk.{Disk}
use plaidlaylib.Chunk.{Chunk, ChunkSeq, read_chunk, count, IndexedFrom, IsStored, IsDense}
use plaidlaylib.Tabulate.{Run}
use plaidlaylib.DensePack.Packer.{Cut}
use plaidlaylib.Transform.{Emission, emit_blocks, emissions, fanout}
use plaidlaylib.Transform.Sorted.{Increasing, Increasing-append}
use plaidlaylib.Transform.Emitted.{blocks_of}
use plaidlaylib.Transform.Blocks.{
  IsStreaming, Blocks, emit_blocks-Blocks, Blocks-Increasing, Blocks-count, Blocks-concat,
  Blocks-short, Blocks-full,
}

le_of_mul : (a b c : ℕ) → 0 < c → a * c ≤ b * c → a ≤ b
le_of_mul a b c p h = grind arith

pos_of_mul : (a b : ℕ) → 0 < a * b → 0 < a
pos_of_mul zero b h = grind arith
pos_of_mul (suc a) b h = omega arith

blocks_enough : (et er st sr q : ℕ) → 0 < st → et * st ≡ er * sr → sr ≤ q * st → et ≤ q * er
blocks_enough et er st sr q pos e h =
    le_of_mul et (q * er) st pos (grind (arith, mul-le_right sr (q * st) er h))

-- `FANOUT` blocks hold the results of a full input chunk.
pub fanout_enough :
    (lt lr : Layout)
    → IsLayout lt
    → IsLayout lr
    → lt.chunk_size ≡ lr.chunk_size
    → (epc lt ≤ fanout lt lr * epc lr) × (0 < fanout lt lr)
fanout_enough lt lr wt wr same =
    let bound = div_mul_bounds (lr.elem_size + lt.elem_size - 1) lt.elem_size wt.elem_pos in
    let wide : lr.elem_size ≤ fanout lt lr * lt.elem_size = omega (arith, bound.1, wt.elem_pos) in
    (
      blocks_enough (epc lt) (epc lr) lt.elem_size lr.elem_size (fanout lt lr) wt.elem_pos
          (wt.divides ∙ same ∙ sym wr.divides) wide,
      pos_of_mul (fanout lt lr) lt.elem_size (omega (arith, wr.elem_pos)),
    )

module _ (l : Layout) (w : IsLayout l) {R : Type 0} (zero_elem : R) (r : Run)
    (prefix : String) where
  pub Cut-append :
      (bs cs : List (List R))
      → All (λ b. length b ≡ epc l) bs
      → Cut l w zero_elem r prefix cs
      → Cut l w zero_elem r prefix (bs ++ cs)
  Cut-append [] cs h c = c
  Cut-append (b ∷ []) [] h c = omega (arith, h.0)
  Cut-append (b ∷ []) (d ∷ cs) h c = (h.0, c)
  Cut-append (b ∷ e ∷ bs) cs h c = (h.0, Cut-append (e ∷ bs) cs h.1 c)

module _ (lt : Layout) {T R A : Type 0} (dt : Disk T) (cap f : ℕ) (step : A → List T → List R × A)
    (init : ℕ → A) where
  abbrev pub stream_body : List T → ℕ → List (Emission R)
  stream_body input index =
      emit_blocks cap step (suc (length input)) (index * f) 0 (init index) input

  abbrev pub streamed : ChunkSeq → List (Emission R)
  streamed seq = emissions lt dt stream_body seq

  module _ (cap_pos : 0 < cap) (f_pos : 0 < f) (room : epc lt ≤ f * cap)
      (s : IsStreaming step) where
    chunk_Blocks :
        (c : Chunk)
        → Blocks cap step
            (c.index * f)
            0
            (init c.index)
            (read_chunk lt dt c)
            (stream_body (read_chunk lt dt c) c.index)
    chunk_Blocks c =
        emit_blocks-Blocks cap step (c.index * f) cap_pos (suc (length (read_chunk lt dt c))) 0
          (init c.index) (read_chunk lt dt c) (omega arith)

    pub streamed-concat :
        (seq : ChunkSeq)
        → concat (blocks_of (streamed seq))
          ≡ concat (map (λ (c : Chunk). (step (init c.index) (read_chunk lt dt c)).0) seq)
    unfolding emissions
    streamed-concat [] = refl
    streamed-concat (c ∷ cs) =
        ap concat (
          map-append (λ (e : Emission R). e.elems) (stream_body (read_chunk lt dt c) c.index)
            (streamed cs))
        ∙ concat-append (blocks_of (stream_body (read_chunk lt dt c) c.index))
            (blocks_of (streamed cs))
        ∙ ap₂ ◌++◌ (Blocks-concat cap step (c.index * f) s (chunk_Blocks c)) (streamed-concat cs)

    pub streamed-short :
        (seq : ChunkSeq) → All (λ (e : Emission R). length e.elems ≤ cap) (streamed seq)
    unfolding emissions
    streamed-short [] = tt
    streamed-short (c ∷ cs) =
        All-append _ (stream_body (read_chunk lt dt c) c.index) (streamed cs)
          (Blocks-short cap step (c.index * f) s (chunk_Blocks c)) (streamed-short cs)

    chunk_size-le :
        (c : Chunk)
        → length (dt c.filename c.begin_addr) ≡ epc lt
        → length (read_chunk lt dt c) ≤ f * cap
    chunk_size-le c h =
        omega (arith, room, h, length-take (count lt c) (dt c.filename c.begin_addr))

    pub streamed-count :
        (seq : ChunkSeq) → IsStored lt dt seq → length (streamed seq) ≤ length seq * f
    unfolding emissions
    streamed-count [] h = omega arith
    streamed-count (c ∷ cs) h =
        let here =
          Blocks-count cap step (c.index * f) f f_pos (chunk_size-le c h.0) (chunk_Blocks c) in
        let rest = streamed-count cs h.1 in
        let size = length-append (stream_body (read_chunk lt dt c) c.index) (streamed cs) in
        grind (arith, here.0, rest, size)

    pub streamed-Increasing :
        (k : ℕ) (seq : ChunkSeq)
        → IndexedFrom k seq
        → IsStored lt dt seq
        → Increasing (k * f) (streamed seq)
    unfolding emissions
    streamed-Increasing k [] i h = tt
    streamed-Increasing k (c ∷ cs) i h =
        let here =
          Blocks-count cap step (c.index * f) f f_pos (chunk_size-le c h.0) (chunk_Blocks c) in
        let low = Blocks-Increasing cap step (c.index * f) (chunk_Blocks c) in
        Increasing-append (k * f) ((k + 1) * f) (stream_body (read_chunk lt dt c) c.index)
          (streamed cs)
          (subst (λ j. Increasing j (stream_body (read_chunk lt dt c) c.index)) (grind (arith, i.0))
            low)
          (subst
            (λ j.
              All (λ (e : Emission R). e.logical_index < j)
                (stream_body (read_chunk lt dt c) c.index))
            (grind (arith, i.0)) here.1)
          (grind arith) (streamed-Increasing (k + 1) cs i.1 h.1)

module _ (lt l : Layout) (w : IsLayout l) {R : Type 0} (zero_elem : R) (r : Run) (prefix : String)
    {T A : Type 0} (step : A → List T → List R × A) (s : IsStreaming step) where
  Blocks-Cut :
      {base sub : ℕ} {acc : A} {input : List T} {es : List (Emission R)}
      → Blocks (epc l) step base sub acc input es
      → Cut l w zero_elem r prefix (blocks_of es)
  Blocks-Cut (Blocks.last {acc} {input} h) = omega (arith, s.size acc input)
  Blocks-Cut (Blocks.more {acc} {xs} {es} h p b) =
      Cut-append l w zero_elem r prefix ((step acc xs).0 ∷ []) (blocks_of es)
        (s.size acc xs ∙ h, tt) (Blocks-Cut b)

  module _ (dt : Disk T) (f m : ℕ) (init : ℕ → A) (f_pos : 0 < f) (room : epc lt ≤ f * epc l)
      (m_pos : 0 < m) (whole : epc lt ≡ m * epc l) where
    -- Where a full input chunk fills a whole number of blocks, only the last block may be short.
    pub streamed-Cut :
        (seq : ChunkSeq)
        → IsDense lt seq
        → IsStored lt dt seq
        → Cut l w zero_elem r prefix (blocks_of (streamed lt dt (epc l) f step init seq))
    unfolding emissions
    streamed-Cut [] h st = tt
    streamed-Cut (c ∷ []) h st =
        subst (λ es. Cut l w zero_elem r prefix (blocks_of es)) (sym (append-nil _))
          (Blocks-Cut (chunk_Blocks lt dt (epc l) f step init w.epc_pos f_pos room s c))
    streamed-Cut (c ∷ e ∷ cs) h st =
        let blocks = chunk_Blocks lt dt (epc l) f step init w.epc_pos f_pos room s c in
        let size : length (read_chunk lt dt c) ≡ m * epc l =
          omega (arith, whole, h.1, st.0, length-take (count lt c) (dt c.filename c.begin_addr)) in
        subst (Cut l w zero_elem r prefix)
          (sym (
            map-append (λ (b : Emission R). b.elems)
              (stream_body lt dt (epc l) f step init (read_chunk lt dt c) c.index)
              (streamed lt dt (epc l) f step init (e ∷ cs))))
          (Cut-append l w zero_elem r prefix _ _
            (Blocks-full (epc l) step (c.index * f) s m w.epc_pos m_pos size blocks)
            (streamed-Cut (e ∷ cs) h.2 st.1))
