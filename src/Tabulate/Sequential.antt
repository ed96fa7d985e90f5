-- ===== src/Tabulate/Sequential.antt =====
-- `sequential_tabulate` of ChunkSequence/Primitives/chunk_seq.h, which fills one drive after the
-- other on the calling thread.
use Prim.Native.String.{String}
use plaidlaylib.Prelude.{
  ℕ, zero, suc, ◌+◌, ◌*◌, List, [], ◌∷◌, ◌==◌, if◌then◌else◌, length, set, replicate, tabulate_from,
  get_or,
}
use plaidlaylib.Layout.{Layout, epc, grid_num_chunks}
use plaidlaylib.Disk.{FilePath, Disk, get_file_name, write_block}
use plaidlaylib.Chunk.{Chunk, ChunkSeq}
use plaidlaylib.Placement.{drive_chunks}
use plaidlaylib.Tabulate.{Run, chunk_count, pad_block, allocate_file}

-- A chunk of the vector that is not set yet.
abbrev pub unset : Chunk
unset = record { filename = get_file_name [] "" 0; begin_addr = 0; used = 0; index = 0 }

module _ (l : Layout) {A : Type 0} (zero_elem : A) (n : ℕ) (f : ℕ → A) where
  -- The loop over the slots `s` of one drive's file.
  pub fill_drive : FilePath → List ℕ → ℕ → List Chunk × Disk A → List Chunk × Disk A
  fill_drive filename [] s (chunks, d) = (chunks, d)
  fill_drive filename (i ∷ mine) s (chunks, d) =
      let count = chunk_count l n i in
      fill_drive filename mine (s + 1) (
        set chunks i (record {
          filename = filename;
          begin_addr = s * l.chunk_size;
          used = count * l.elem_size;
          index = i;
        }),
        write_block filename (s * l.chunk_size)
            (pad_block l zero_elem (tabulate_from (i * epc l) count f)) d,
      )

  -- The drives below `k`.
  pub fill_drives : Run → String → ℕ → ℕ → List Chunk × Disk A → List Chunk × Disk A
  unfolding fill_drive
  fill_drives r prefix num_chunks zero state = state
  fill_drives r prefix num_chunks (suc k) state =
      let mine = drive_chunks r.drive_of num_chunks k in
      let filename = get_file_name r.ssd_list prefix k in
      let (chunks, d) = fill_drives r prefix num_chunks k state in
      if length mine == 0
      then (chunks, d)
      else fill_drive filename mine 0 (chunks, allocate_file l zero_elem filename (length mine) d)

  pub sequential_tabulate : Run → String → Disk A → ChunkSeq × Disk A
  unfolding fill_drives
  sequential_tabulate r prefix d =
      let num_chunks = grid_num_chunks (epc l) n in
      if num_chunks == 0
      then ([], d)
      else fill_drives r prefix num_chunks (length r.ssd_list) (replicate num_chunks unset, d)

pub sequential_to_chunk_seq :
    Layout → {A : Type 0} → A → List A → Run → String → Disk A → ChunkSeq × Disk A
unfolding sequential_tabulate
sequential_to_chunk_seq l zero_elem seq r prefix d =
    sequential_tabulate l zero_elem (length seq) (λ i. get_or seq i zero_elem) r prefix d
