-- ===== src/BigInt/Sum.antt =====
-- `ChunkBigIntAdd` computes the sum of the integers, whichever operand is longer.
use Prim.Native.String.{String}
use plaidlaylib.Prelude.{
  ℕ, ◌+◌, ◌≤◌, ◌<◌, max, ◌≡◌, refl, sym, ap, ap₂, subst, ◌∙◌, ◌⊎◌, inl, inr, Bool, false, some, [],
  length, lt→ltb, le→ltb, dec_lt, if◌then◌else◌, arith, nil_of_length,
}
use plaidlaylib.Prelude.Int.{pos, ◌+ℤ◌, +ℤ_comm, +ℤ-zero}
use plaidlaylib.Layout.{Layout, IsLayout, epc, size_t_mod, grid_num_chunks}
use plaidlaylib.Disk.{FilePath, Disk}
use plaidlaylib.Chunk.{ChunkSeq, contents, size, IsWellFormed}
use plaidlaylib.Chunk.Read.{size-contents}
use plaidlaylib.Access.Placed.{IsWhole}
use plaidlaylib.Tabulate.{Run, IsRun}
use plaidlaylib.BigInt.{add_longer, chunk_bigint_add}
use plaidlaylib.BigInt.Value.{value, value-nil}
use plaidlaylib.BigInt.Extended.{Digits}
use plaidlaylib.BigInt.Stored.{Cons-cases, add_longer-IsSum}

module _ (l : Layout) (d : Disk ℕ) (sources : ℕ → ChunkSeq) where
  -- An operand: a well-formed sequence of limbs at its address, whose length leaves `size_t` room.
  pub record IsOperand (src : ℕ) (a : ChunkSeq) : Type 0 where
    pub own : sources src ≡ a
    pub well_formed : IsWellFormed l d a
    pub digits : Digits (contents l d a)
    pub fits : length (contents l d a) + epc l < size_t_mod

module _ (name_lt : FilePath → FilePath → Bool) (l : Layout) (w : IsLayout l)
    (wide : l.elem_size ≡ 8) (d : Disk ℕ) (whole : IsWhole l d) (sources : ℕ → ChunkSeq) (r : Run)
    (prefix : String) where
  ordered_sum :
      (extra src_a src_b : ℕ) (a b : ChunkSeq)
      → extra ≤ 1
      → IsOperand l d sources src_a a
      → IsOperand l d sources src_b b
      → length (contents l d b) ≤ length (contents l d a)
      → (extra ≡ 0) ⊎ (0 < length (contents l d b))
      → IsRun r (grid_num_chunks (epc l) (length (contents l d a)))
      → (sum : ChunkSeq × Disk ℕ) × (add_longer name_lt l r prefix extra d (src_a, a) (src_b, b)
          ≡ some sum)
        × IsWellFormed l sum.1 sum.0
        × (value (contents l sum.1 sum.0)
            ≡ value (contents l d a) +ℤ value (contents l d b) +ℤ pos extra)
  unfolding add_longer
  ordered_sum extra src_a src_b a b one_bit oa ob longer enough run =
      elim (dec_lt 0 (length (contents l d b))) [
        | yes some_limb ↦
            let (x, xs, ea) = Cons-cases (contents l d a) (omega arith) in
            let (y, ys, eb) = Cons-cases (contents l d b) some_limb in
            let (sum, made, is_sum) =
              add_longer-IsSum name_lt l w wide d whole sources r prefix extra one_bit src_a src_b a
                b oa.own ob.own oa.well_formed ob.well_formed longer (omega (arith, oa.fits)) run x
                xs ea y ys eb (subst Digits ea oa.digits) (subst Digits eb ob.digits) oa.fits in
            (sum, made, is_sum.0, is_sum.1)
        | no empty ↦
            let zero_b : size l b ≡ 0 =
              omega (arith, size-contents l w d b ob.well_formed.dense ob.well_formed.stored) in
            let none_b : contents l d b ≡ [] = nil_of_length (contents l d b) (omega arith) in
            let no_extra : extra ≡ 0 = elim enough [ inl e ↦ e | inr h ↦ absurd (empty h) ] in
            (
              (a, d),
              rw zero_b refl,
              oa.well_formed,
              sym (
                  ap₂ (λ ys e. value (contents l d a) +ℤ value ys +ℤ pos e) none_b no_extra
                  ∙ ap (λ z. value (contents l d a) +ℤ z +ℤ pos 0) value-nil
                  ∙ +ℤ-zero (value (contents l d a) +ℤ pos 0)
                  ∙ +ℤ-zero (value (contents l d a))),
            )
      ]

  -- For two operands of 64-bit limbs on drives whose blocks are whole, with draws in range and all
  -- writes landing, and a carry into limb 0 only if neither operand is empty, ChunkBigIntAdd passes
  -- its CHECKs and returns a well-formed sequence that stands for the sum of the two's complement
  -- integers and the carry.
  pub chunk_bigint_add-sum :
      (extra_one : Bool) (src_a src_b : ℕ) (a b : ChunkSeq)
      → IsOperand l d sources src_a a
      → IsOperand l d sources src_b b
      → (extra_one ≡ false) ⊎ ((0 < length (contents l d a)) × (0 < length (contents l d b)))
      → IsRun r (grid_num_chunks (epc l) (max (length (contents l d a)) (length (contents l d b))))
      → (sum : ChunkSeq × Disk ℕ) × (chunk_bigint_add name_lt l r prefix extra_one d
            (src_a, a)
            (src_b, b)
          ≡ some sum)
        × IsWellFormed l sum.1 sum.0
        × (value (contents l sum.1 sum.0)
            ≡ value (contents l d a) +ℤ value (contents l d b) +ℤ pos (if extra_one then 1 else 0))
  unfolding chunk_bigint_add
  chunk_bigint_add-sum extra_one src_a src_b a b oa ob enough run =
      let size_a = size-contents l w d a oa.well_formed.dense oa.well_formed.stored in
      let size_b = size-contents l w d b ob.well_formed.dense ob.well_formed.stored in
      let extra : ℕ = if extra_one then 1 else 0 in
      let bit : extra ≤ 1 = ground arith in
      let no_carry : extra_one ≡ false → extra ≡ 0 = λ e. rw e refl in
      elim (dec_lt (size l a) (size l b)) [
        | yes shorter ↦
            let (sum, made, good, total) =
              ordered_sum extra src_b src_a b a bit ob oa (omega (arith, size_a, size_b))
                (elim enough [ inl e ↦ inl (no_carry e) | inr h ↦ inr h.0 ])
                (subst (λ n. IsRun r (grid_num_chunks (epc l) n))
                  {x = max (length (contents l d a)) (length (contents l d b))}
                  {y = length (contents l d b)} (omega (arith, size_a, size_b)) run) in
            (
              sum,
              rw (lt→ltb (size l a) (size l b) shorter) made,
              good,
              total
                  ∙ ap (λ t. t +ℤ pos extra)
                      (+ℤ_comm (value (contents l d b)) (value (contents l d a))),
            )
        | no longer ↦
            let (sum, made, good, total) =
              ordered_sum extra src_a src_b a b bit oa ob (omega (arith, size_a, size_b))
                (elim enough [ inl e ↦ inl (no_carry e) | inr h ↦ inr h.1 ])
                (subst (λ n. IsRun r (grid_num_chunks (epc l) n))
                  {x = max (length (contents l d a)) (length (contents l d b))}
                  {y = length (contents l d a)} (omega (arith, size_a, size_b)) run) in
            (sum, rw (le→ltb (size l a) (size l b) (omega arith)) made, good, total)
      ]
