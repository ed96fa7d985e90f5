-- ===== src/BigInt.antt =====
-- Addition of big integers, ChunkSequence/examples/chunk_bigint_add.h: two's complement, the least
-- significant 64-bit limb first. A carry code is the number of its enumerator.
use Prim.Native.String.{String}
use plaidlaylib.Prelude.{
  Bool, not, ◌&&◌, Option, some, List, ltb, ◌>>=◌, ℕ, ◌+◌, ◌*◌, ◌/◌, ◌%◌, ◌^◌, ◌-◌, ◌==◌,
  if◌then◌else◌,
}
use plaidlaylib.Layout.{Layout}
use plaidlaylib.Disk.{FilePath, Disk}
use plaidlaylib.Chunk.{ChunkSeq, size}
use plaidlaylib.Access.{get, push_back}
use plaidlaylib.Tabulate.{Run}
use plaidlaylib.Delayed.{Node, delay, map_node, zip_padded, zip, scan, force}
pub mod Value
pub mod Carry
pub mod Extended
pub mod Chain
pub mod Stored
pub mod Sum

-- 2^64: one more than the largest `digit`.
abbrev pub digit_mod : ℕ
digit_mod = 2 ^ 64

-- `enum carry`
abbrev pub propagate : ℕ
propagate = 2

abbrev pub mask : ℕ
mask = digit_mod - 1

-- The sum does not overflow a `double_digit`.
pub classify : ℕ → ℕ → ℕ
classify a_val b_val =
    let sum = a_val + b_val in 2 * (if sum == mask then 1 else 0) + sum / digit_mod

pub carry_fn : ℕ → ℕ → ℕ
carry_fn a b = if b == propagate then a else b

-- The last map of the chain, on a pair of limbs and its carry.
pub add_limbs : ℕ → ℕ → ℕ → ℕ → ℕ
add_limbs extra_one av bv c = (av + bv + (if c == propagate then extra_one else c)) % digit_mod

-- `bool sign = limb >> (digit_bits - 1)`
pub sign_of : ℕ → ℕ
sign_of limb = if limb / 2 ^ 63 == 0 then 0 else 1

-- The limb that extends a number by its sign.
pub sign_limb : ℕ → ℕ
sign_limb sign = if sign == 1 then mask else 0

-- `name_lt` is the order of file names; an operand comes with the number of its address.
module _ (name_lt : FilePath → FilePath → Bool) (l : Layout) (r : Run) (prefix : String) where
  -- `zip(A, B, pad)`
  pub ab_pairs : ℕ × ChunkSeq → ℕ × ChunkSeq → ℕ → Node ℕ (ℕ × ℕ)
  ab_pairs (src_a, a) (src_b, b) pad = zip_padded l (delay l 0 src_a a) (delay l 0 src_b b) pad

  pub scanned_carries : Disk ℕ → Node ℕ (ℕ × ℕ) → Node ℕ ℕ
  unfolding classify carry_fn
  scanned_carries d pairs =
      let classifications = map_node l pairs (λ p. classify p.0 p.1) in
      (scan l d classifications carry_fn propagate).0

  -- The body, once `a` is the longer operand.
  pub add_longer : ℕ → Disk ℕ → ℕ × ChunkSeq → ℕ × ChunkSeq → Option (ChunkSeq × Disk ℕ)
  unfolding ab_pairs scanned_carries add_limbs sign_of sign_limb
  add_longer extra_one d (src_a, a) (src_b, b) =
      let n_a = size l a in
      let n_b = size l b in
      if n_b == 0 then some (a, d) else do
        a_top ← get l d a (n_a - 1)
        b_top ← get l d b (n_b - 1)
        let a_sign = sign_of a_top
        let b_sign = sign_of b_top
        let pairs = ab_pairs (src_a, a) (src_b, b) (sign_limb b_sign)
        triple ← zip l (0, 0) 0 pairs (scanned_carries d pairs)
        let result = map_node l triple (λ t. add_limbs extra_one t.0.0 t.0.1 t.1)
        let forced = force l l 0 r prefix d result d
        top ← get l forced.1 forced.0 (n_a - 1)
        if a_sign == b_sign && not (top / 2 ^ 63 == a_sign)
            then push_back name_lt l 0 forced.1 forced.0 (sign_limb a_sign)
            else some forced

  pub chunk_bigint_add : Bool → Disk ℕ → ℕ × ChunkSeq → ℕ × ChunkSeq → Option (ChunkSeq × Disk ℕ)
  unfolding add_longer
  chunk_bigint_add extra_one d a b =
      let extra : ℕ = if extra_one then 1 else 0 in
      if ltb (size l a.1) (size l b.1) then add_longer extra d b a else add_longer extra d a b
