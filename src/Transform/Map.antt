-- ===== src/Transform/Map.antt =====
-- `ChunkMap` of ChunkSequence/Primitives/primitives.h.
use Prim.Native.String.{String}
use mathlib.Core.List.{Permᴰ}
use plaidlaylib.Prelude.{
  ℕ, ◌*◌, ◌<◌, ◌≡◌, refl, sym, ap, ◌∙◌, List, [], ◌∷◌, ◌++◌, some, length, map, concat, map-append,
  length-map,
}
use plaidlaylib.Layout.{Layout, IsLayout, epc}
use plaidlaylib.Disk.{Disk}
use plaidlaylib.Chunk.{
  Chunk, ChunkSeq, read_chunk, contents, IndexedFrom, IsStored, IsDense, IsWellFormed,
}
use plaidlaylib.Tabulate.{Run, IsRun}
use plaidlaylib.Transform.{Emission, map_step, map_body, chunk_map, emissions, fanout}
use plaidlaylib.Transform.Ordered.{Returns, external_transform-Returns}
use plaidlaylib.Transform.Blocks.{IsStreaming}
use plaidlaylib.Transform.Streamed.{
  fanout_enough, streamed-concat, streamed-short, streamed-count, streamed-Increasing, streamed-Cut,
}

map_step-IsStreaming : {T R : Type 0} (f : T → R) → IsStreaming (map_step f)
unfolding map_step
map_step-IsStreaming f = record {
  append = λ u xs ys. map-append f xs ys;
  size = λ u xs. length-map xs f;
}

module _ (lt : Layout) (wt : IsLayout lt) (lr : Layout) (wr : IsLayout lr)
    (same : lt.chunk_size ≡ lr.chunk_size) {T R : Type 0} (zero_elem : R) (r : Run)
    (prefix : String) where
  map-contents :
      (f : T → R) (dt : Disk T) (seq : ChunkSeq)
      → concat (map (λ (c : Chunk). (map_step f tt (read_chunk lt dt c)).0) seq)
        ≡ map f (contents lt dt seq)
  unfolding map_step
  map-contents f dt [] = refl
  map-contents f dt (c ∷ cs) =
      ap (◌++◌ (map f (read_chunk lt dt c))) (map-contents f dt cs)
      ∙ sym (map-append f (read_chunk lt dt c) (contents lt dt cs))

  module _ (schedule : List (Emission R) → List (Emission R))
      (fair : (es : List (Emission R)) → Permᴰ (schedule es) es) (f : T → R) (dt : Disk T)
      (seq : ChunkSeq) (d : Disk R) (indexed : IndexedFrom 0 seq) (stored : IsStored lt dt seq)
      (run : IsRun r (length (emissions lt dt (map_body lt lr zero_elem r prefix f) seq))) where
    chunk_map-Returns :
        Returns lr wr zero_elem r prefix
          (emissions lt dt (map_body lt lr zero_elem r prefix f) seq)
          (chunk_map lt lr zero_elem r prefix schedule dt seq f d)
    unfolding chunk_map map_body
    chunk_map-Returns =
        let enough = fanout_enough lt lr wt wr same in
        let s = map_step-IsStreaming f in
        external_transform-Returns lr wr zero_elem r prefix lt schedule dt seq
          (map_body lt lr zero_elem r prefix f) (fanout lt lr) (0 * fanout lt lr) d (fair _)
          (streamed-Increasing lt dt (epc lr) (fanout lt lr) (map_step f) (λ i. tt) wr.epc_pos
            enough.1 enough.0 s 0 seq indexed stored)
          (streamed-short lt dt (epc lr) (fanout lt lr) (map_step f) (λ i. tt) wr.epc_pos enough.1
            enough.0 s seq)
          (streamed-count lt dt (epc lr) (fanout lt lr) (map_step f) (λ i. tt) wr.epc_pos enough.1
            enough.0 s seq stored)
          run

    -- However the workers' emits interleave, `ChunkMap` of an indexed, stored sequence does not run out
    -- of descriptors, and returns an indexed, stored sequence that reads back as the images of the
    -- elements, in order.
    pub chunk_map-contents :
        (out : ChunkSeq × Disk R) × (chunk_map lt lr zero_elem r prefix schedule dt seq f d
          ≡ some out)
        × (contents lr out.1 out.0 ≡ map f (contents lt dt seq))
        × IndexedFrom 0 out.0
        × IsStored lr out.1 out.0
    unfolding map_body
    chunk_map-contents =
        let p = chunk_map-Returns in
        let enough = fanout_enough lt lr wt wr same in
        let s = map_step-IsStreaming f in
        (
          p.out,
          p.returned,
          p.content
              ∙ streamed-concat lt dt (epc lr) (fanout lt lr) (map_step f) (λ i. tt) wr.epc_pos
                  enough.1 enough.0 s seq
              ∙ map-contents f dt seq,
          p.indexed,
          p.stored,
        )

    -- Where a full input chunk fills `m` blocks, `ChunkMap` of a well-formed sequence returns a
    -- well-formed sequence that reads back as the images of the elements.
    pub chunk_map-IsWellFormed :
        (m : ℕ)
        → 0 < m
        → epc lt ≡ m * epc lr
        → IsDense lt seq
        → (out : ChunkSeq × Disk R) × (chunk_map lt lr zero_elem r prefix schedule dt seq f d
            ≡ some out)
          × (contents lr out.1 out.0 ≡ map f (contents lt dt seq))
          × IsWellFormed lr out.1 out.0
    unfolding map_body
    chunk_map-IsWellFormed m m_pos whole dense =
        let p = chunk_map-Returns in
        let enough = fanout_enough lt lr wt wr same in
        let s = map_step-IsStreaming f in
        (
          p.out,
          p.returned,
          p.content
              ∙ streamed-concat lt dt (epc lr) (fanout lt lr) (map_step f) (λ i. tt) wr.epc_pos
                  enough.1 enough.0 s seq
              ∙ map-contents f dt seq,
          record {
            indexed = p.indexed;
            dense = p.dense (
                streamed-Cut lt lr wr zero_elem r prefix (map_step f) s dt (fanout lt lr) m
                  (λ i. tt) enough.1 enough.0 m_pos whole seq dense stored);
            stored = p.stored;
          },
        )
