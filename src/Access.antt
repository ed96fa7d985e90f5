-- ===== src/Access.antt =====
-- `chunk_seq::operator[]` and `chunk_seq::push_back` of ChunkSequence/Primitives/chunk_seq.h. Both
-- read or write one block of O_DIRECT_MULTIPLE bytes, the one that holds the element's first byte,
-- and copy sizeof(T) bytes from or to a buffer of that size. `none` is a failed CHECK, or a copy that
-- leaves the buffer, which the code does not test.
use plaidlaylib.Prelude.{
  ℕ, zero, suc, ◌+◌, ◌-◌, ◌*◌, ◌/◌, ◌%◌, ◌≤◌, ◌<◌, min, ◌≡◌, Bool, true, false, ◌&&◌, not, leb,
  Option, none, some, List, [], ◌∷◌, ◌++◌, ◌==◌, ltb, if◌then◌else◌, length, get_elem?, set, drop,
  replicate,
}
use plaidlaylib.Layout.{Layout, epc, size_t_mod, o_direct_multiple}
use plaidlaylib.Disk.{FilePath, Disk, same_path, write_block}
use plaidlaylib.Chunk.{Chunk, ChunkSeq, back}
pub mod Blocks
pub mod Get
pub mod Counts
pub mod Placed
pub mod Pushed
pub mod Push

-- `byte - block`, where `byte` is `begin_addr + off` and `block` is `AlignDown(byte)`: chunks start at
-- O_DIRECT-aligned addresses.
pub block_offset : ℕ → ℕ
block_offset off = off % o_direct_multiple

-- Whether the copy of one element at byte `off` of a chunk stays in the buffer.
pub fits_block : Layout → ℕ → Bool
unfolding block_offset
fits_block l off = leb (block_offset off + l.elem_size) o_direct_multiple

module _ (l : Layout) {A : Type 0} where
  -- `operator[]` at the chunk that it finds.
  pub get_in_chunk : Disk A → Option Chunk → ℕ → Option A
  unfolding fits_block
  get_in_chunk d none off = none
  get_in_chunk d (some c) off =
      if ltb off c.used && fits_block l off
      then get_elem? (d c.filename c.begin_addr) (off / l.elem_size)
      else none

  pub get : Disk A → ChunkSeq → ℕ → Option A
  unfolding get_in_chunk
  get d seq i =
      let ci = i / epc l in
      let off = (i % epc l) * l.elem_size in get_in_chunk d (get_elem? seq ci) off

-- `std::map<std::string, size_t>`, in the order of its keys.
abbrev pub Counts : Type 0
Counts = List (FilePath × ℕ)

pub count_of : FilePath → Counts → ℕ
count_of f [] = 0
count_of f ((k, n) ∷ m) = if same_path k f then n else count_of f m

pub has_key : FilePath → Counts → Bool
has_key f [] = false
has_key f ((k, n) ∷ m) = if same_path k f then true else has_key f m

pub increment : FilePath → Counts → Counts
increment f [] = []
increment f ((k, n) ∷ m) = if same_path k f then (k, n + 1) ∷ m else (k, n) ∷ increment f m

-- `operator<` of the file names orders the keys.
module _ (name_lt : FilePath → FilePath → Bool) where
  pub insert_key : FilePath → Counts → Counts
  insert_key f [] = (f, 1) ∷ []
  insert_key f ((k, n) ∷ m) = if name_lt f k then (f, 1) ∷ (k, n) ∷ m else (k, n) ∷ insert_key f m

  -- `counts[c.filename]++`
  pub bump : FilePath → Counts → Counts
  unfolding has_key increment insert_key
  bump f m = if has_key f m then increment f m else insert_key f m

  pub count_files : List Chunk → Counts → Counts
  unfolding bump
  count_files [] m = m
  count_files (c ∷ cs) m = count_files cs (bump c.filename m)

  -- The file with the fewest chunks: the first below the best so far.
  pub fewest : Counts → Option FilePath → ℕ → Option (FilePath × ℕ)
  fewest [] none best = none
  fewest [] (some f) best = some (f, best)
  fewest ((k, n) ∷ m) target best =
      fewest m (if ltb n best then some k else target) (if ltb n best then n else best)

  module _ (l : Layout) {A : Type 0} (zero_elem : A) where
    -- A block that `fallocate` extends the file to reads as zeros.
    pub grown_block : List A → List A
    grown_block [] = replicate (epc l) zero_elem
    grown_block (x ∷ xs) = x ∷ xs

    -- The first O_DIRECT block of the slot: the value, then zeros. The rest stays; an element that
    -- the block's end cuts keeps its value here, it lies past `used`.
    pub first_block : A → List A → List A
    first_block value block =
        let covered = min (epc l) (o_direct_multiple / l.elem_size) in
        value ∷ (replicate (covered - 1) zero_elem ++ drop (suc (covered - 1)) block)

    -- The last chunk grows by one element.
    pub extend_last : List Chunk → List Chunk
    extend_last [] = []
    extend_last (c ∷ []) = record c { used = c.used + l.elem_size } ∷ []
    extend_last (c ∷ e ∷ cs) = c ∷ extend_last (e ∷ cs)

    -- The branch that opens a new slot in the file with the fewest chunks. The value is copied to
    -- the start of the buffer.
    pub push_new_chunk : Disk A → ChunkSeq → A → Option (FilePath × ℕ) → Option (ChunkSeq × Disk A)
    unfolding grown_block first_block fits_block
    push_new_chunk d seq value none = none
    push_new_chunk d seq value (some (filename, slot)) =
        let begin_addr = slot * l.chunk_size in
        if not (fits_block l 0)
        then none
        else some (
          seq
              ++ (record {
                filename = filename;
                begin_addr = begin_addr;
                used = l.elem_size;
                index = length seq;
              }
                  ∷ []),
          write_block filename begin_addr (first_block value (grown_block (d filename begin_addr)))
              d,
        )

    pub push_back : Disk A → ChunkSeq → A → Option (ChunkSeq × Disk A)
    unfolding push_new_chunk extend_last back count_files fewest fits_block
    push_back d [] value = none
    push_back d (c ∷ cs) value =
        let last = back c cs in
        if ltb last.used l.chunk_size
        then (if fits_block l last.used
            then some (
              extend_last (c ∷ cs),
              write_block last.filename last.begin_addr
                  (set (d last.filename last.begin_addr) (last.used / l.elem_size) value) d,
            )
            else none)
        else push_new_chunk d (c ∷ cs) value
            (fewest (count_files (c ∷ cs) []) none (size_t_mod - 1))
