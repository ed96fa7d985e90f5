-- ===== src/Chunk.antt =====
-- `chunk` and `chunk_seq` of ChunkSequence/Primitives/chunk_seq.h, with the members that read and
-- extend a sequence. `none` is a failed CHECK.
use plaidlaylib.Prelude.{
  ℕ, zero, suc, ◌+◌, ◌-◌, ◌*◌, ◌/◌, ◌%◌, ◌≤◌, ◌<◌, min, ◌≡◌, Bool, true, false, Option, none, some,
  List, [], ◌∷◌, ◌++◌, map, ◌==◌, ltb, leb, if◌then◌else◌, length, get_elem?, get_or, set, take,
  drop, replicate, concat, All,
}
use plaidlaylib.Layout.{Layout, epc, o_direct_multiple}
pub mod Read
pub mod Built
pub mod Consolidate
use plaidlaylib.Disk.{FilePath, Disk, same_path, write_block}

pub record Chunk : Type 0 where
  pub filename : FilePath
  pub begin_addr : ℕ
  pub used : ℕ
  pub index : ℕ

-- The struct holds the vector of its chunks and nothing else.
abbrev pub ChunkSeq : Type 0
ChunkSeq = List Chunk

-- `std::sort` by the chunk's index.
unfoldable pub insert_by_index : Chunk → List Chunk → List Chunk
insert_by_index c [] = c ∷ []
insert_by_index c (d ∷ ds) = if leb c.index d.index then c ∷ d ∷ ds else d ∷ insert_by_index c ds

unfoldable pub sort_by_indices : List Chunk → List Chunk
unfolding insert_by_index
sort_by_indices [] = []
sort_by_indices (c ∷ cs) = insert_by_index c (sort_by_indices cs)

-- `chunks.back()` of `c ∷ cs`.
unfoldable pub back : Chunk → List Chunk → Chunk
back c [] = c
back c (d ∷ cs) = back d cs

-- The vector of chunks is in logical order: `chunks[i].index == i`, from `k` on.
abbrev pub IndexedFrom : ℕ → ChunkSeq → Type 0
IndexedFrom k [] = Unit
IndexedFrom k (c ∷ cs) = (c.index ≡ k) × IndexedFrom (k + 1) cs

-- `memcpy(out.data() + at, src, …)`; what does not fit in `out` is not written.
unfoldable pub copy_at : {A : Type 0} → List A → ℕ → List A → List A
copy_at [] at src = []
copy_at (x ∷ out) (suc at) src = x ∷ copy_at out at src
copy_at (x ∷ out) zero [] = x ∷ out
copy_at (x ∷ out) zero (y ∷ src) = y ∷ copy_at out zero src

module _ (l : Layout) where
  -- The elements of the prefix of its block that a chunk uses.
  abbrev pub count : Chunk → ℕ
  count c = c.used / l.elem_size

  -- Every chunk but the last is full, and each holds whole elements.
  abbrev pub IsDense : ChunkSeq → Type 0
  IsDense [] = Unit
  IsDense (c ∷ []) = (count c * l.elem_size ≡ c.used) × (count c ≤ epc l)
  IsDense (c ∷ d ∷ cs) = (count c * l.elem_size ≡ c.used) × (count c ≡ epc l) × IsDense (d ∷ cs)

  module _ {A : Type 0} where
    -- What a reader delivers of a chunk: `{data, used / sizeof(T), index}`.
    abbrev pub read_chunk : Disk A → Chunk → List A
    read_chunk d c = take (count c) (d c.filename c.begin_addr)

    -- The logical sequence that a chunk_seq stands for.
    abbrev pub contents : Disk A → ChunkSeq → List A
    contents d seq = concat (map (read_chunk d) seq)

    -- Each chunk's block is allocated whole.
    abbrev pub IsStored : Disk A → ChunkSeq → Type 0
    IsStored d = All (λ c. length (d c.filename c.begin_addr) ≡ epc l)

    pub record IsWellFormed (d : Disk A) (seq : ChunkSeq) : Type 0 where
      pub indexed : IndexedFrom 0 seq
      pub dense : IsDense seq
      pub stored : IsStored d seq

    -- The copy loop of `to_vector`: chunk after chunk, each to its prefix-sum offset.
    pub copy_chunks : Disk A → List Chunk → ℕ → List A → List A
    copy_chunks d [] offset out = out
    copy_chunks d (c ∷ cs) offset out =
        copy_chunks d cs (offset + count c) (copy_at out offset (read_chunk d c))

  -- The prefix sum of `to_vector`, with its CHECK that chunks hold whole elements.
  pub total_count : List Chunk → Option ℕ
  total_count [] = some 0
  total_count (c ∷ cs) =
      let rest = total_count cs in
      if c.used % l.elem_size == 0
      then elim rest [ none ↦ none | some n ↦ some (count c + n) ]
      else none

  module _ {A : Type 0} (zero_elem : A) where
    pub to_vector : Disk A → ChunkSeq → Option (List A)
    unfolding copy_chunks copy_at sort_by_indices total_count
    to_vector d seq =
        let ordered = sort_by_indices seq in
        elim (total_count ordered) [
          | none ↦ none
          | some n ↦ some (copy_chunks d ordered 0 (replicate n zero_elem))
        ]

  module _ {A : Type 0} where
    -- The loop of `consolidate`: chunks that hold nothing are skipped, and a block that is too short
    -- fails the CHECK on what `pread` returned.
    pub append_chunks : Disk A → List Chunk → List A → Option (List A)
    append_chunks d [] out = some out
    append_chunks d (c ∷ cs) out =
        let skipped = append_chunks d cs out in
        let rest = append_chunks d cs (out ++ read_chunk d c) in
        if c.used == 0
        then skipped
        else if ltb (length (d c.filename c.begin_addr)) (count c)
        then none
        else rest

    -- The elements of the file that `consolidate` writes.
    pub consolidate : Disk A → ChunkSeq → Option (List A)
    unfolding append_chunks sort_by_indices
    consolidate d seq = append_chunks d (sort_by_indices seq) []

  -- `plaid::size`
  pub size : ChunkSeq → ℕ
  unfolding back
  size [] = 0
  size (c ∷ cs) = length cs * epc l + count (back c cs)
