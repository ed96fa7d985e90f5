-- ===== src/Primitives/FlatMap.antt =====
-- `ChunkFlatMap` with a forward halo.
use Prim.Native.String.{String}
use plaidlaylib.Prelude.{
  ℕ, ◌<◌, ◌≡◌, refl, sym, ◌∙◌, some, List, [], ◌∷◌, All, length, arith, lt→ltb,
}
use plaidlaylib.Layout.{Layout, IsLayout, epc}
use plaidlaylib.Disk.{Disk}
use plaidlaylib.Chunk.{ChunkSeq, contents, IsWellFormed}
use plaidlaylib.Tabulate.{Run, IsRun}
use plaidlaylib.DensePack.{dense_pack_stream, compute_runs, pack}
use plaidlaylib.DensePack.Stream.{IsLocal, IsAdditive, compute_runs-hits}
use plaidlaylib.Primitives.{chunk_flat_map}
use plaidlaylib.DensePack.Driver.{dense_pack_stream-contents}

module _ (lt : Layout) (wt : IsLayout lt) {T R : Type 0} (lr : Layout) (wr : IsLayout lr)
    (zero_elem : R) (r : Run) (prefix : String) where
  -- `ChunkFlatMap` with a halo smaller than a chunk, for a body that finds in each chunk the hits
  -- that start there (`hits`, which are additive over a split of the text), does not fail on a
  -- well-formed sequence: it returns a well-formed sequence that reads back as the hits of the
  -- whole, each of them once and in order, if draws are in range and every write lands.
  pub chunk_flat_map-hits :
      (dt : Disk T) (seq : ChunkSeq) (Ok : T → Type 0) (halo : ℕ)
      (f hits : List T → ℕ → List T → List R) (d : Disk R)
      → IsWellFormed lt dt seq
      → halo < epc lt
      → IsLocal lt wt dt Ok halo f hits
      → IsAdditive lt wt dt Ok halo f hits
      → ((pos : ℕ) → hits [] pos [] ≡ [])
      → All Ok (contents lt dt seq)
      → IsRun r (length (pack lr zero_elem r prefix (compute_runs lt dt halo f 0 seq)).out_chunks)
      → (out : ChunkSeq × Disk R) × (chunk_flat_map lt lr zero_elem r prefix dt seq halo f d
          ≡ some out)
        × (contents lr out.1 out.0 ≡ hits (contents lt dt seq) 0 [])
        × IsWellFormed lr out.1 out.0
  unfolding chunk_flat_map
  chunk_flat_map-hits dt [] Ok halo f hits d wf below loc add none_left ok run =
      (([], d), refl, sym (none_left 0), record { indexed = tt; dense = tt; stored = tt })
  chunk_flat_map-hits dt (c ∷ cs) Ok halo f hits d wf below loc add none_left ok run =
      let out =
        dense_pack_stream-contents lt lr wr zero_elem r prefix dt (c ∷ cs) halo f d wf.indexed
          run in
      (
        dense_pack_stream lt lr zero_elem r prefix dt (c ∷ cs) halo f d,
        rw (lt→ltb halo (epc lt) below) refl,
        out.0
            ∙ compute_runs-hits lt wt dt Ok halo f hits (omega arith) loc add none_left 0 (c ∷ cs)
                wf.dense wf.stored ok,
        out.1,
      )
