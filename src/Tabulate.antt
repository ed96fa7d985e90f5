-- ===== src/Tabulate.antt =====
-- The constructors of ChunkSequence/Primitives/chunk_seq.h that write a fresh sequence: `tabulate`,
-- `to_chunk_seq`, `sequential_tabulate`, `from_file`, `from_chunks`. The drive of each chunk and
-- the order in which the blocks reach the drives are chosen by the environment.
use Prim.Native.String.{String}
use plaidlaylib.Prelude.{
  ℕ, zero, suc, ◌+◌, ◌-◌, ◌*◌, ◌/◌, ◌%◌, ◌≤◌, ◌<◌, min, ◌≡◌, Bool, true, ◌&&◌, Option, none, some,
  List, [], ◌++◌, ◌==◌, ltb, if◌then◌else◌, length, take, drop, replicate, tabulate_from, All,
  get_or,
}
use plaidlaylib.Layout.{Layout, epc, grid_num_chunks}
use plaidlaylib.Disk.{FilePath, Disk, same_path, get_file_name}
use plaidlaylib.Chunk.{Chunk, ChunkSeq, count, read_chunk}
use plaidlaylib.Placement.{drive_chunks, slot_table}
use plaidlaylib.Writer.{Request, land, occurs}
pub mod Fresh
pub mod Grid
pub mod Placed
pub mod Contents
pub mod Sequential

-- What the environment chooses for one call: the drives of the machine, the random drive of each
-- chunk and the order in which the writes land.
pub record Run : Type 0 where
  pub ssd_list : List String
  pub drive_of : ℕ → ℕ
  pub order : List ℕ

-- Draws are below the number of drives, and each of the `n` writes lands.
pub record IsRun (r : Run) (n : ℕ) : Type 0 where
  pub drives : (i : ℕ) → i < n → r.drive_of i < length r.ssd_list
  pub order_below : All (λ j. j < n) r.order
  pub order_all : (i : ℕ) → i < n → occurs i r.order ≡ true

-- `min(ept, n - start)` for `start = i * ept`
abbrev pub chunk_count : Layout → ℕ → ℕ → ℕ
chunk_count l n i = min (epc l) (n - i * epc l)

module _ (l : Layout) {A : Type 0} (zero_elem : A) where
  -- A buffer of CHUNK_SIZE bytes: the elements, then zeros.
  abbrev pub pad_block : List A → List A
  pad_block xs = xs ++ replicate (epc l - length xs) zero_elem

  -- `open(… O_TRUNC …)` and `fallocate` of a file to a number of blocks.
  pub allocate_file : FilePath → ℕ → Disk A → Disk A
  allocate_file file blocks d f a =
      if same_path f file
      then if a % l.chunk_size == 0 && ltb (a / l.chunk_size) blocks
        then replicate (epc l) zero_elem
        else []
      else d f a

  -- The loop over the drives; a drive that gets no chunk keeps its old file.
  pub allocate : (ℕ → FilePath) → (ℕ → List ℕ) → ℕ → Disk A → Disk A
  unfolding allocate_file
  allocate names chunks_of zero d = d
  allocate names chunks_of (suc k) d =
      let before = allocate names chunks_of k d in
      if length (chunks_of k) == 0
      then before
      else allocate_file (names k) (length (chunks_of k)) before

  module _ (r : Run) (prefix : String) (num_chunks : ℕ) (header : ℕ → ℕ × ℕ)
      (chunk_data : ℕ → List A) where
    -- `{filenames[drive_of[i]], slot_of[i] * CHUNK_SIZE, used, index}`
    pub descriptor : ℕ → Chunk
    descriptor i = record {
      filename = get_file_name r.ssd_list prefix (r.drive_of i);
      begin_addr = slot_table r.drive_of num_chunks (length r.ssd_list) i * l.chunk_size;
      used = (header i).0;
      index = (header i).1;
    }

    -- The write of chunk `i`'s block.
    pub request : ℕ → Request A
    request i = record {
      file = get_file_name r.ssd_list prefix (r.drive_of i);
      offset = slot_table r.drive_of num_chunks (length r.ssd_list) i * l.chunk_size;
      block = pad_block (chunk_data i);
    }

    -- Allocate the files, write every block, return the descriptors.
    unfoldable pub write_fresh : Disk A → ChunkSeq × Disk A
    unfolding descriptor request
    write_fresh d = (
      tabulate_from 0 num_chunks descriptor,
      land request r.order (
          allocate (get_file_name r.ssd_list prefix) (drive_chunks r.drive_of num_chunks)
            (length r.ssd_list) d),
    )

  unfoldable pub tabulate : Run → ℕ → String → (ℕ → A) → Disk A → ChunkSeq × Disk A
  unfolding write_fresh
  tabulate r n prefix f =
      write_fresh r prefix (grid_num_chunks (epc l) n) (λ i. (chunk_count l n i * l.elem_size, i))
        (λ i. tabulate_from (i * epc l) (chunk_count l n i) f)

  pub to_chunk_seq : Run → List A → String → Disk A → ChunkSeq × Disk A
  unfolding tabulate
  to_chunk_seq r seq prefix = tabulate r (length seq) prefix (λ i. get_or seq i zero_elem)

  -- The input file is `nbytes` long and holds the elements `input`; a size that is no multiple of
  -- the element's fails the CHECK.
  pub from_file : Run → List A → ℕ → String → Disk A → Option (ChunkSeq × Disk A)
  unfolding write_fresh
  from_file r input nbytes prefix d =
      let n = nbytes / l.elem_size in
      let num_chunks = grid_num_chunks (epc l) n in
      let fresh : ChunkSeq × Disk A =
        write_fresh r prefix num_chunks (λ i. (chunk_count l n i * l.elem_size, i))
          (λ i. take (chunk_count l n i) (drop (i * epc l) input)) d in
      if nbytes % l.elem_size == 0
      then if num_chunks == 0 then some ([], d) else some fresh
      else none

  -- A copy of the chunks that `headers` names; each copy keeps its header's `used` and `index`. The
  -- sources are read once the destination files are there.
  pub from_chunks : Run → List Chunk → String → Disk A → ChunkSeq × Disk A
  unfolding write_fresh
  from_chunks r headers prefix d =
      if length headers == 0
      then ([], d)
      else write_fresh r prefix (length headers)
          (λ i. ((get_or headers i nowhere).used, (get_or headers i nowhere).index))
          (λ i. read_chunk l allocated (get_or headers i nowhere)) d
    where
      allocated : Disk A
      allocated =
          allocate (get_file_name r.ssd_list prefix) (drive_chunks r.drive_of (length headers))
            (length r.ssd_list) d

      nowhere : Chunk
      nowhere = record { filename = get_file_name [] "" 0; begin_addr = 0; used = 0; index = 0 }
