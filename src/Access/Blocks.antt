-- ===== src/Access/Blocks.antt =====
-- Elements whose size divides O_DIRECT_MULTIPLE never cross the end of a block.
use plaidlaylib.Prelude.{
  ℕ, div_unique, suc, ◌+◌, ◌-◌, ◌*◌, ◌/◌, ◌%◌, ◌≤◌, ◌<◌, ◌≡◌, sym, ap, ◌∙◌, true, arith, lt_of_mul,
  mul-le_right, le→leb,
}
use plaidlaylib.Layout.{Layout, o_direct_multiple, align_down}
use plaidlaylib.Access.{block_offset, fits_block}

abbrev pub InBlocks : Layout → Type 0
InBlocks l = o_direct_multiple % l.elem_size ≡ 0

-- At an aligned address the model's offset is that of the code.
block_offset-align_down :
    (begin_addr off : ℕ)
    → begin_addr % o_direct_multiple ≡ 0
    → begin_addr + off - align_down (begin_addr + off) o_direct_multiple ≡ block_offset off
unfolding align_down block_offset
block_offset-align_down begin_addr off h = omega (arith, h)

module _ (l : Layout) (some_size : 0 < l.elem_size) (b : InBlocks l) where
  -- How many elements a block holds.
  m : ℕ
  m = o_direct_multiple / l.elem_size

  block_full : o_direct_multiple ≡ m * l.elem_size
  unfolding m
  block_full = omega (arith, b, some_size)

  m_pos : 0 < m
  m_pos = lt_of_mul 0 m l.elem_size (omega (arith, block_full))

  room : (k : ℕ) → block_offset (k * l.elem_size) + l.elem_size ≤ o_direct_multiple
  unfolding block_offset
  room k =
      let q = k / m in
      let t = k % m in
      let parts : k ≡ q * m + t = omega (arith, m_pos) in
      let below : t < m = omega (arith, m_pos) in
      let above : suc t * l.elem_size ≤ m * l.elem_size =
        mul-le_right (suc t) m l.elem_size below in
      let step : suc t * l.elem_size ≡ t * l.elem_size + l.elem_size = grind arith in
      let spread : k * l.elem_size ≡ q * (m * l.elem_size) + t * l.elem_size =
        ap (λ (n : ℕ). n * l.elem_size) parts ∙ grind arith in
      let whole : k * l.elem_size ≡ q * o_direct_multiple + t * l.elem_size =
        spread ∙ ap (λ (n : ℕ). q * n + t * l.elem_size) (sym block_full) in
      let place =
        div_unique (k * l.elem_size) o_direct_multiple q (t * l.elem_size) whole
          (omega (arith, above, step, block_full, some_size)) in
      omega (arith, place.1, above, step, block_full)

  pub fits : (k : ℕ) → fits_block l (k * l.elem_size) ≡ true
  unfolding fits_block
  fits k = le→leb _ _ (room k)
