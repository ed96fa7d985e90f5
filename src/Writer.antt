-- ===== src/Writer.antt =====
-- `UnorderedFileWriter` of ChunkSequence/Primitives/chunk_seq.h as its clients use it: requests
-- that carry a file index and an offset, which complete in any order. The worker threads and the
-- rings are not modelled; a run is the order in which the writes land.
use plaidlaylib.Prelude.{ℕ, ◌≡◌, ◌⊎◌, ◌≢◌, Bool, true, false, ◌||◌, List, [], ◌∷◌, ◌==◌}
use plaidlaylib.Disk.{FilePath, Disk, write_block}
pub mod Landing

-- What `Push` is handed: a block for `file_offset` of the file at `file_index`.
pub record Request (A : Type 0) : Type 0 where
  pub file : FilePath
  pub offset : ℕ
  pub block : List A

module _ {A : Type 0} where
  -- The writes `requests i` land in the order of the list.
  unfoldable pub land : (ℕ → Request A) → List ℕ → Disk A → Disk A
  land requests [] d = d
  land requests (i ∷ order) d =
      let r = requests i in land requests order (write_block r.file r.offset r.block d)

-- The order names request `i`.
abbrev pub occurs : ℕ → List ℕ → Bool
occurs i [] = false
occurs i (j ∷ order) = i == j || occurs i order
