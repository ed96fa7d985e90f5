-- ===== src/Layout.antt =====
-- configs.h, the alignment helpers of utils/file_utils.h and the chunk grid of
-- ChunkSequence/Primitives/delayed.h: how elements are cut into chunks.
use plaidlaylib.Prelude.{ℕ, ◌+◌, ◌-◌, ◌*◌, ◌/◌, ◌%◌, ◌^◌, ◌≤◌, ◌<◌, min, ◌≡◌, leb, if◌then◌else◌}
pub mod Bounds

abbrev pub size_t_mod : ℕ
size_t_mod = 2 ^ 64

abbrev pub o_direct_multiple : ℕ
o_direct_multiple = 4096

-- The default of `CHUNK_SIZE_BYTES`.
abbrev pub default_chunk_size : ℕ
default_chunk_size = 1024 * 1024 * 4

-- What one instantiation of the templates fixes: `CHUNK_SIZE` and `sizeof(T)`.
pub record Layout : Type 0 where
  pub chunk_size : ℕ
  pub elem_size : ℕ

-- `CHUNK_SIZE / sizeof(T)`, the elements of a full chunk.
abbrev pub epc : Layout → ℕ
epc l = l.chunk_size / l.elem_size

-- The `static_assert` that `sizeof(T)` divides `CHUNK_SIZE`, with sizes that are not 0.
pub record IsLayout (l : Layout) : Type 0 where
  pub elem_pos : 0 < l.elem_size
  pub epc_pos : 0 < epc l
  pub divides : epc l * l.elem_size ≡ l.chunk_size

-- `AlignDown(original, alignment)`
unfoldable pub align_down : ℕ → ℕ → ℕ
align_down original alignment = original / alignment * alignment

-- `AlignUp(original, alignment)`; the sum is a `size_t`.
pub align_up : ℕ → ℕ → ℕ
align_up original alignment = (original + alignment - 1) % size_t_mod / alignment * alignment

module _ (epc : ℕ) where
  -- `(len + epc - 1) / epc`; the sum is a `size_t`.
  unfoldable pub grid_num_chunks : ℕ → ℕ
  grid_num_chunks len = (len + epc - 1) % size_t_mod / epc

  -- The elements of logical chunk `i` of a sequence of `len` elements.
  pub grid_chunk_len : ℕ → ℕ → ℕ
  grid_chunk_len len i = let base = i * epc in if leb len base then 0 else min epc (len - base)
