-- ===== src/Primitives.antt =====
-- The eager primitives of ChunkSequence/Primitives/primitives.h that are thin bodies over the
-- dense-output engine: `ChunkFilter`, both `ChunkFlatMap` and `ChunkFlatTabulate`.
-- `none` is a failed CHECK.
use Prim.Native.String.{String}
use plaidlaylib.Prelude.{
  ℕ, zero, suc, ◌+◌, ◌*◌, min, Bool, Option, none, some, List, [], ◌∷◌, ◌++◌, ◌==◌, ltb,
  if◌then◌else◌, tabulate_from,
}
use plaidlaylib.Layout.{Layout, epc, grid_num_chunks}
use plaidlaylib.Disk.{Disk}
use plaidlaylib.Chunk.{ChunkSeq}
use plaidlaylib.Tabulate.{Run}
use plaidlaylib.DensePack.{dense_pack_stream}
use plaidlaylib.DensePack.Batch.{dense_pack}
pub mod Filter
pub mod FlatMap
pub mod FlatTabulate

module _ {T : Type 0} where
  -- `for (j < n) if (pred(buf[j])) out.push_back(buf[j])`
  unfoldable pub keep_survivors : (T → Bool) → List T → List T → List T
  keep_survivors pred [] out = out
  keep_survivors pred (x ∷ buf) out =
      keep_survivors pred buf (if pred x then out ++ (x ∷ []) else out)

  -- `for (j < n) for (x : f(buf[j])) out.push_back(x)`
  unfoldable pub push_each : {R : Type 0} → (T → List R) → List T → List R → List R
  push_each f [] out = out
  push_each f (x ∷ buf) out = push_each f buf (out ++ f x)

pub chunk_filter :
    Layout
    → {T : Type 0} → T
    → Run
    → String
    → Disk T
    → ChunkSeq
    → (T → Bool)
    → Disk T
    → ChunkSeq × Disk T
unfolding keep_survivors
chunk_filter l zero_elem r prefix dt seq pred d =
    dense_pack_stream l l zero_elem r prefix dt seq 0 (λ buf gpos halo. keep_survivors pred buf [])
      d

module _ (lt : Layout) {T R : Type 0} (lr : Layout) (zero_elem : R) (r : Run)
    (prefix : String) where
  -- The overload with a forward halo.
  pub chunk_flat_map :
      Disk T → ChunkSeq → ℕ → (List T → ℕ → List T → List R) → Disk R → Option (ChunkSeq × Disk R)
  chunk_flat_map dt [] halo f d = some ([], d)
  chunk_flat_map dt (c ∷ cs) halo f d =
      if ltb halo (epc lt)
      then some (dense_pack_stream lt lr zero_elem r prefix dt (c ∷ cs) halo f d)
      else none

  -- The elementwise overload.
  pub chunk_flat_map_each : Disk T → ChunkSeq → (T → List R) → Disk R → ChunkSeq × Disk R
  unfolding push_each
  chunk_flat_map_each dt seq f d =
      dense_pack_stream lt lr zero_elem r prefix dt seq 0 (λ buf gpos halo. push_each f buf []) d

-- The run of virtual chunk `ci`, the range `[ci * epct, min(ci * epct + epct, n))`.
unfoldable pub virtual_run : Layout → {R : Type 0} → ℕ → (ℕ → ℕ → List R) → ℕ → List R
virtual_run l n f ci = f (ci * epc l) (min (ci * epc l + epc l) n)

pub chunk_flat_tabulate :
    Layout → {R : Type 0} → R → Run → ℕ → String → (ℕ → ℕ → List R) → Disk R → ChunkSeq × Disk R
unfolding virtual_run
chunk_flat_tabulate l zero_elem r n prefix f d =
    if n == 0
    then ([], d)
    else dense_pack l zero_elem r prefix (grid_num_chunks (epc l) n)
        (λ base batch_n. tabulate_from base batch_n (virtual_run l n f)) d
