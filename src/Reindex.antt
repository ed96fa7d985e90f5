-- ===== src/Reindex.antt =====
-- The operations of ChunkSequence/Primitives/secondary_primitives.h that move descriptors and no
-- data: `flatten`, `cut_by_chunk`, and the shifts by chunks that read as zeros.
use Prim.Native.String.{String}
use plaidlaylib.Prelude.{
  ℕ, zero, suc, ◌+◌, ◌-◌, ◌%◌, min, ◌||◌, List, [], ◌∷◌, ◌++◌, ◌==◌, leb, if◌then◌else◌, length,
  take, drop, replicate, tabulate_from,
}
use plaidlaylib.Layout.{Layout, epc}
use plaidlaylib.Disk.{FilePath, Disk, same_path, get_file_name}
use plaidlaylib.Chunk.{Chunk, ChunkSeq}
use plaidlaylib.Transform.{renumber}
pub mod Contents
pub mod Slice
pub mod Zeros

-- Both overloads, once `overall_counter` chunks are placed.
pub flatten_from : ℕ → List ChunkSeq → ChunkSeq
unfolding renumber
flatten_from overall_counter [] = []
flatten_from overall_counter (s ∷ chunk_sequences) =
    renumber overall_counter s ++ flatten_from (overall_counter + length s) chunk_sequences

pub flatten : List ChunkSeq → ChunkSeq
unfolding flatten_from
flatten chunk_sequences = flatten_from 0 chunk_sequences

pub cut_by_chunk : ChunkSeq → ℕ → ℕ → ChunkSeq
unfolding renumber
cut_by_chunk seq chunk_begin chunk_end =
    if leb chunk_end chunk_begin || leb (length seq) chunk_begin
    then []
    else renumber 0 (take (min chunk_end (length seq) - chunk_begin) (drop chunk_begin seq))

abbrev pub zero_chunk_prefix : String
zero_chunk_prefix = "bimul_zero"

module _ (l : Layout) {A : Type 0} (zero_elem : A) where
  -- One zero-filled block in the file of each of the first `nd` drives. A second run of it changes
  -- nothing, which is why the code runs it once.
  pub ensure_zero_chunks : List String → ℕ → Disk A → Disk A
  ensure_zero_chunks ssds zero d f a = d f a
  ensure_zero_chunks ssds (suc nd) d f a =
      if same_path f (get_file_name ssds zero_chunk_prefix nd)
      then if a == 0 then replicate (epc l) zero_elem else []
      else ensure_zero_chunks ssds nd d f a

pub zero_chunk_header : List String → ℕ → ℕ → ℕ → Chunk
zero_chunk_header ssds d used index = record {
  filename = get_file_name ssds zero_chunk_prefix (d % length ssds);
  begin_addr = 0;
  used = used;
  index = index;
}

pub prepend_zero_chunks : Layout → List String → ChunkSeq → ℕ → ChunkSeq
unfolding renumber zero_chunk_header
prepend_zero_chunks l ssds seq k =
    if k == 0
    then seq
    else tabulate_from 0 k (λ j. zero_chunk_header ssds j l.chunk_size j) ++ renumber k seq

pub append_zero_chunk : List String → ChunkSeq → ℕ → ChunkSeq
unfolding zero_chunk_header
append_zero_chunk ssds seq used =
    seq ++ (zero_chunk_header ssds (length seq) used (length seq) ∷ [])
