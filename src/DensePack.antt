-- ===== src/DensePack.antt =====
-- Dense output: the index-ordered packer and `DensePackStream` of
-- ChunkSequence/Primitives/chunk_seq.h. The runs of the chunks are packed into full chunks, with a
-- short last one. `T` and `R` have a layout each; they lie in files of their own, so the model has
-- a disk for each type.
use Prim.Native.String.{String}
use plaidlaylib.Prelude.{
  ℕ, zero, suc, ◌+◌, ◌-◌, ◌*◌, ◌/◌, min, ◌≡◌, Bool, true, false, ◌&&◌, List, [], ◌∷◌, ◌++◌, ◌==◌,
  ltb, if◌then◌else◌, length, take, drop, get_or,
}
use plaidlaylib.Layout.{Layout, epc}
use plaidlaylib.Disk.{FilePath, Disk, same_path, get_file_name}
use plaidlaylib.Chunk.{Chunk, ChunkSeq, count, read_chunk}
use plaidlaylib.Writer.{Request, land}
use plaidlaylib.Tabulate.{Run, pad_block}
pub mod Buffers
pub mod Dispatch
pub mod Packer
pub mod Output
pub mod Stream
pub mod Driver
pub mod Batch

-- The packer's variables: the partly filled chunk `cur`, the next free slot of each drive, and what
-- it has recorded and handed to the writer so far.
pub record PackState (R : Type 0) : Type 0 where
  pub cur : List R
  pub out_idx : ℕ
  pub next_slot : ℕ → ℕ
  pub out_chunks : List Chunk
  pub pushed : List (Request R)

abbrev pub start : {R : Type 0} → PackState R
start = record { cur = []; out_idx = 0; next_slot = λ d. 0; out_chunks = []; pushed = [] }

abbrev pub nothing : {R : Type 0} → Request R
nothing = record { file = get_file_name [] "" 0; offset = 0; block = [] }

module _ (l : Layout) {R : Type 0} (zero_elem : R) (r : Run) (prefix : String) where
  -- `writer.Push` and `out_chunks.push_back` for a chunk with `used` valid bytes; the drive is drawn
  -- and its next slot taken. `new_cur` follows.
  pub push_chunk : List R → ℕ → PackState R → PackState R
  push_chunk elems used s =
      let drive = r.drive_of s.out_idx in
      let slot = s.next_slot drive in
      let filename = get_file_name r.ssd_list prefix drive in
      record {
        cur = [];
        out_idx = s.out_idx + 1;
        next_slot = λ d. if d == drive then slot + 1 else s.next_slot d;
        out_chunks =
            s.out_chunks
            ++ (record {
              filename = filename;
              begin_addr = slot * l.chunk_size;
              used = used;
              index = s.out_idx;
            }
                ∷ []);
        pushed =
            s.pushed
            ++ (record {
              file = filename;
              offset = slot * l.chunk_size;
              block = pad_block l zero_elem elems;
            }
                ∷ []);
      }

  -- One turn of the copy loop with `can` elements, and the flush of a full chunk.
  pub fill : ℕ → List R → PackState R → PackState R
  unfolding push_chunk
  fill can src s =
      let cur = s.cur ++ take can src in
      if length cur == epc l then push_chunk cur l.chunk_size s else record s { cur = cur }

  -- `while (rem > 0)`; each turn takes at least one element, so `length src` turns are enough.
  pub pack_run : ℕ → List R → PackState R → PackState R
  unfolding fill
  pack_run zero src s = s
  pack_run (suc fuel) [] s = s
  pack_run (suc fuel) (x ∷ src) s =
      let can = min (length (x ∷ src)) (epc l - length s.cur) in
      pack_run fuel (drop can (x ∷ src)) (fill can (x ∷ src) s)

  -- The runs in index order.
  pub pack_runs : List (List R) → PackState R → PackState R
  unfolding pack_run
  pack_runs [] s = s
  pack_runs (run ∷ runs) s = pack_runs runs (pack_run (length run) run s)

  -- The final partial chunk.
  pub pack_last : PackState R → PackState R
  unfolding push_chunk
  pack_last s = if ltb 0 (length s.cur) then push_chunk s.cur (length s.cur * l.elem_size) s else s

  -- The whole packer thread.
  unfoldable pub pack : List (List R) → PackState R
  unfolding pack_runs pack_last
  pack runs = pack_last (pack_runs runs start)

  -- `open(… O_TRUNC …)` of every drive's file.
  pub truncate_files : ℕ → Disk R → Disk R
  truncate_files zero d = d
  truncate_files (suc k) d =
      let before = truncate_files k d in
      λ f a. if same_path f (get_file_name r.ssd_list prefix k) then [] else before f a

  -- The descriptors, and the drives once every write has landed.
  pub write_packed : List (List R) → Disk R → ChunkSeq × Disk R
  unfolding pack truncate_files
  write_packed runs d =
      let s = pack runs in
      (
        s.out_chunks,
        land (λ i. get_or s.pushed i nothing) r.order (truncate_files (length r.ssd_list) d),
      )

-- `hbuf`/`hn`: the first elements of the next chunk.
pub halo_of : Layout → {T : Type 0} → Disk T → ℕ → List Chunk → List T
halo_of lt d halo [] = []
halo_of lt d halo (next ∷ cs) =
    if ltb 0 halo then take (min halo (count lt next)) (d next.filename next.begin_addr) else []

-- `inbuf[i]`: the dispatcher puts a buffer at the index that the reader reports with it.
pub input_of : ℕ → List Chunk → Chunk → Chunk
input_of i [] missing = missing
input_of i (c ∷ cs) missing = let rest = input_of i cs missing in if c.index == i then c else rest

-- What the worker of each chunk from place `i` on reads: the buffer at `i`, the count of `chunks[i]`.
pub inputs_from : ChunkSeq → ℕ → List Chunk → List Chunk
unfolding input_of
inputs_from seq i [] = []
inputs_from seq i (c ∷ cs) =
    record c { filename = (input_of i seq c).filename; begin_addr = (input_of i seq c).begin_addr }
    ∷ inputs_from seq (i + 1) cs

module _ (lt : Layout) {T R : Type 0} where
  -- `results[i] = body(inbuf[i], n, pos_of[i], hbuf, hn)` for every chunk, each computed by some
  -- worker once its buffers are there, and read by the packer in index order.
  unfoldable pub compute_runs :
      Disk T → ℕ → (List T → ℕ → List T → List R) → ℕ → List Chunk → List (List R)
  unfolding halo_of
  compute_runs d halo body pos [] = []
  compute_runs d halo body pos (c ∷ cs) =
      body (read_chunk lt d c) pos (halo_of lt d halo cs)
      ∷ compute_runs d halo body (pos + count lt c) cs

  module _ (lr : Layout) (zero_elem : R) (r : Run) (prefix : String) where
    pub dense_pack_stream :
        Disk T → ChunkSeq → ℕ → (List T → ℕ → List T → List R) → Disk R → ChunkSeq × Disk R
    unfolding write_packed compute_runs inputs_from
    dense_pack_stream dt [] halo body d = ([], d)
    dense_pack_stream dt (c ∷ cs) halo body d =
        write_packed lr zero_elem r prefix
          (compute_runs dt halo body 0 (inputs_from (c ∷ cs) 0 (c ∷ cs))) d
