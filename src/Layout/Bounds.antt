-- ===== src/Layout/Bounds.antt =====
-- The bounds of the alignment helpers and of the chunk grid.
use plaidlaylib.Prelude.{
  ℕ, suc, ◌+◌, ◌-◌, ◌*◌, ◌/◌, ◌%◌, ◌≤◌, ◌<◌, ◌≡◌, ◌↔◌, min, arith, div_mul_bounds, mul-mod_self,
}
use native.Mathlib.Nat.{mod-eq_of_lt}
use plaidlaylib.Layout.{size_t_mod, align_down, align_up, grid_num_chunks, grid_chunk_len}

-- `AlignDown` is the greatest multiple of the alignment that is not above `x`, and `AlignUp`, where
-- its sum fits a `size_t`, the least that is not below.
pub align_bounds :
    (x a : ℕ)
    → 0 < a
    → x + a ≤ size_t_mod
    → (align_down x a ≤ x)
      × (x < align_down x a + a)
      × (align_down x a % a ≡ 0)
      × (x ≤ align_up x a)
      × (align_up x a < x + a)
      × (align_up x a % a ≡ 0)
unfolding align_down align_up
align_bounds x a h k =
    let low = div_mul_bounds x a h in
    let high = div_mul_bounds (x + a - 1) a h in
    let fits : (x + a - 1) % size_t_mod ≡ x + a - 1 = mod-eq_of_lt (omega arith) in
    rw fits (
      low.0,
      low.1,
      mul-mod_self (x / a) a h,
      omega arith,
      omega arith,
      mul-mod_self ((x + a - 1) / a) a h,
    )

-- The places of a chunk are those below `epc` that lie in the sequence.
pub lt-grid_chunk_len :
    (epc len i k : ℕ) → (k < grid_chunk_len epc len i) ↔ ((k < epc) × (i * epc + k < len))
unfolding grid_chunk_len
lt-grid_chunk_len epc len i k = (λ h. ground arith, λ h. ground arith)

pub grid_chunk_len-min : (epc len i : ℕ) → grid_chunk_len epc len i ≡ min epc (len - i * epc)
unfolding grid_chunk_len
grid_chunk_len-min epc len i = ground arith

module _ (epc : ℕ) (pos : 0 < epc) where
  -- For chunks of at least one element, and lengths where the sum fits a `size_t`, the grid has room
  -- for all elements and its last chunk is not empty.
  pub grid_num_chunks_bounds :
      (len : ℕ)
      → len + epc ≤ size_t_mod
      → (len ≤ grid_num_chunks epc len * epc) × (grid_num_chunks epc len * epc < len + epc)
  unfolding grid_num_chunks
  grid_num_chunks_bounds len fits =
      let b = div_mul_bounds (len + epc - 1) epc pos in
      let whole : (len + epc - 1) % size_t_mod ≡ len + epc - 1 = mod-eq_of_lt (omega arith) in
      rw whole (omega arith, omega arith)

  -- The chunk lengths add up.
  pub grid_prefix :
      (len i : ℕ) → min len (i * epc) + grid_chunk_len epc len i ≡ min len (suc i * epc)
  unfolding grid_chunk_len
  grid_prefix len i = grind arith
