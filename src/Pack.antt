-- ===== src/Pack.antt =====
-- `pack`, `pack_if` and `pack_value` of ChunkSequence/Primitives/secondary_primitives.h: producers
-- over `DensePack` that keep the flagged elements of each chunk. A batch is read in some order and
-- sorted by index. The asserts that data and flags are aligned are the caller's.
use Prim.Native.String.{String}
use plaidlaylib.Prelude.{
  ℕ, zero, suc, ◌+◌, Bool, true, false, List, [], ◌∷◌, ◌++◌, map, if◌then◌else◌, length, take, drop,
  get_or,
}
use plaidlaylib.Layout.{Layout}
use plaidlaylib.Disk.{Disk}
use plaidlaylib.Chunk.{Chunk, ChunkSeq, count, read_chunk, sort_by_indices}
use plaidlaylib.Tabulate.{Run}
use plaidlaylib.DensePack.Batch.{dense_pack}
use plaidlaylib.Primitives.{keep_survivors}
pub mod Select

-- `for (j < n) if (keep(j)) buf[s++] = buf[j]`: the survivors that end up in front.
unfoldable pub compact : {T : Type 0} → (ℕ → Bool) → List T → ℕ → List T → List T
compact keep [] j out = out
compact keep (x ∷ buf) j out = compact keep buf (j + 1) (if keep j then out ++ (x ∷ []) else out)

-- `elem_offset`, the exclusive prefix sums of the chunks' lengths.
unfoldable pub elem_offset : Layout → List Chunk → ℕ → List ℕ
elem_offset l [] acc = []
elem_offset l (c ∷ cs) acc = acc ∷ elem_offset l cs (acc + count l c)

-- The chunks of a batch, sorted by index.
unfoldable pub batch_chunks : ChunkSeq → ℕ → ℕ → List Chunk
batch_chunks seq base batch_n = sort_by_indices (take batch_n (drop base seq))

module _ (l : Layout) {T : Type 0} (zero_elem : T) (r : Run) (prefix : String) where
  unfoldable pub packed_run : Disk T → ChunkSeq → (ℕ → Bool) → Chunk → List T
  unfolding compact elem_offset
  packed_run dt seq boolean_seq c =
      let g0 = get_or (elem_offset l seq 0) c.index 0 in
      compact (λ j. boolean_seq (g0 + j)) (read_chunk l dt c) 0 []

  -- The overload with an in-memory sequence of flags.
  pub pack : Disk T → ChunkSeq → (ℕ → Bool) → Disk T → ChunkSeq × Disk T
  unfolding packed_run batch_chunks
  pack dt seq boolean_seq d =
      dense_pack l zero_elem r prefix (length seq)
        (λ base batch_n. map (packed_run dt seq boolean_seq) (batch_chunks seq base batch_n)) d

  module _ (lu : Layout) {U : Type 0} (zero_flag : U) where
    -- Chunk by chunk, the data next to its selectors.
    pub select_runs : Disk T → Disk U → (U → Bool) → List Chunk → List Chunk → List (List T)
    unfolding compact
    select_runs dt du pred [] kc = []
    select_runs dt du pred (c ∷ fc) [] = []
    select_runs dt du pred (c ∷ fc) (k ∷ kc) =
        compact (λ j. pred (get_or (read_chunk lu du k) j zero_flag)) (read_chunk l dt c) 0 []
        ∷ select_runs dt du pred fc kc

    pub pack_if : Disk T → ChunkSeq → Disk U → ChunkSeq → (U → Bool) → Disk T → ChunkSeq × Disk T
    unfolding select_runs batch_chunks
    pack_if dt seq du keep_seq pred d =
        dense_pack l zero_elem r prefix (length seq)
          (λ base batch_n.
            select_runs dt du pred (batch_chunks seq base batch_n)
              (batch_chunks keep_seq base batch_n))
          d

  -- The overload with the flags in a sequence of their own.
  pub pack_flags : Layout → Disk T → ChunkSeq → Disk Bool → ChunkSeq → Disk T → ChunkSeq × Disk T
  unfolding pack_if
  pack_flags lu dt seq du flag_seq d = pack_if lu false dt seq du flag_seq (λ b. b) d

  pub pack_value : Disk T → ChunkSeq → (T → Bool) → Disk T → ChunkSeq × Disk T
  unfolding batch_chunks
  pack_value dt seq pred d =
      dense_pack l zero_elem r prefix (length seq)
        (λ base batch_n.
          map (λ c. keep_survivors pred (read_chunk l dt c) []) (batch_chunks seq base batch_n))
        d
