-- ===== src/BigInt/Stored.antt =====
-- The sum of two big integers that lie on the drives.
use Prim.Native.String.{String}
use plaidlaylib.Prelude.{
  ℕ, zero, suc, ◌+◌, ◌-◌, ◌/◌, ◌%◌, ◌^◌, ◌≤◌, ◌<◌, ◌≡◌, refl, sym, ap, ap₂, subst, ◌∙◌, inl, inr,
  Bool, true, false, not, ◌&&◌, Bool-cases, some, List, [], ◌∷◌, ◌++◌, length, get_elem?,
  tabulate_from, ◌==◌, lt_of_mul, append-nil, ≢→==, if◌then◌else◌, arith,
}
use plaidlaylib.Prelude.Int.{ℤ, pos, ◌+ℤ◌}
use plaidlaylib.Layout.{Layout, IsLayout, epc, size_t_mod, o_direct_multiple, grid_num_chunks}
use plaidlaylib.Layout.Bounds.{grid_num_chunks_bounds}
use plaidlaylib.Disk.{FilePath, Disk}
use plaidlaylib.Chunk.{ChunkSeq, contents, size, IsWellFormed}
use plaidlaylib.Chunk.Read.{size-contents}
use plaidlaylib.Access.{get, push_back}
use plaidlaylib.Access.Blocks.{InBlocks}
use plaidlaylib.Access.Get.{get-contents}
use plaidlaylib.Access.Placed.{IsWhole}
use plaidlaylib.Access.Push.{push_back-contents}
use plaidlaylib.Tabulate.{Run, IsRun}
use plaidlaylib.BigInt.{digit_mod, add_limbs, sign_of, sign_limb, add_longer}
use plaidlaylib.BigInt.Value.{value, last_limb, overflow}
use plaidlaylib.BigInt.Extended.{
  Digits, extended_at, extended_at-Digits, sign_limb-fits, last-get_elem?, sum_value,
}
use plaidlaylib.BigInt.Chain
use plaidlaylib.BigInt.Carry.{resolved, carry-step}

pub Cons-cases : (xs : List ℕ) → 0 < length xs → (x : ℕ) × (t : List ℕ) × (xs ≡ x ∷ t)
Cons-cases [] h = absurd (omega arith)
Cons-cases (x ∷ xs) h = (x, xs, refl)

get_elem?-tabulated :
    (s n : ℕ) (f : ℕ → ℕ) (i : ℕ) → i < n → get_elem? (tabulate_from s n f) i ≡ some (f (s + i))
get_elem?-tabulated s zero f i h = absurd (omega arith)
get_elem?-tabulated s (suc n) f zero h = ap (λ t. some (f t)) {x = s} {y = s + 0} (omega arith)
get_elem?-tabulated s (suc n) f (suc i) h =
    get_elem?-tabulated (s + 1) n f i (omega arith)
    ∙ ap (λ t. some (f t)) {x = s + 1 + i} {y = s + suc i} (omega arith)

module _ (name_lt : FilePath → FilePath → Bool) (l : Layout) (w : IsLayout l)
    (wide : l.elem_size ≡ 8) (d : Disk ℕ) (whole : IsWhole l d) (sources : ℕ → ChunkSeq) (r : Run)
    (prefix : String) (extra : ℕ) (one_bit : extra ≤ 1) where
  -- The sum that an output stands for.
  abbrev pub IsSum : ℤ → ChunkSeq × Disk ℕ → Type 0
  IsSum total out = IsWellFormed l out.1 out.0 × (value (contents l out.1 out.0) ≡ total)

  in_blocks : InBlocks l
  in_blocks = ap (λ s. o_direct_multiple % s) wide

  index_eq :
      (d' : Disk ℕ) (seq : ChunkSeq) (x : ℕ) (xs : List ℕ)
      → IsWellFormed l d' seq
      → contents l d' seq ≡ x ∷ xs
      → size l seq - 1 ≡ length xs
  index_eq d' seq x xs v e = omega (arith, size-contents l w d' seq v.dense v.stored, ap length e)

  top-get :
      (d' : Disk ℕ) (seq : ChunkSeq) (x : ℕ) (xs : List ℕ)
      → IsWellFormed l d' seq
      → contents l d' seq ≡ x ∷ xs
      → get l d' seq (size l seq - 1) ≡ some (last_limb x xs)
  top-get d' seq x xs v e =
      get-contents l w in_blocks d' seq (size l seq - 1) v
      ∙ ap₂ get_elem? e (index_eq d' seq x xs v e)
      ∙ last-get_elem? x xs

  module _ (src_a src_b : ℕ) (a b : ChunkSeq) (own_a : sources src_a ≡ a)
      (own_b : sources src_b ≡ b) (va : IsWellFormed l d a) (vb : IsWellFormed l d b)
      (longer : length (contents l d b) ≤ length (contents l d a))
      (fits : length (contents l d a) + epc l ≤ size_t_mod)
      (run : IsRun r (grid_num_chunks (epc l) (length (contents l d a)))) (x : ℕ) (xs : List ℕ)
      (ea : contents l d a ≡ x ∷ xs) (y : ℕ) (ys : List ℕ) (eb : contents l d b ≡ y ∷ ys)
      (hx : Digits (x ∷ xs)) (hy : Digits (y ∷ ys)) where
    abbrev pad : ℕ
    pad = sign_limb (sign_of (last_limb y ys))

    abbrev limb : ℕ → ℕ
    limb =
        Chain.limb_at l w wide d sources src_a src_b a b own_a own_b va vb longer fits name_lt r
          prefix pad extra

    abbrev out : ChunkSeq × Disk ℕ
    out =
        Chain.forced l w wide d sources src_a src_b a b own_a own_b va vb longer fits name_lt r
          prefix pad extra run whole

    made :
        (contents l out.1 out.0 ≡ tabulate_from 0 (length (contents l d a)) limb)
        × IsWellFormed l out.1 out.0
    made =
        Chain.forced-contents l w wide d sources src_a src_b a b own_a own_b va vb longer fits
          name_lt r prefix pad extra run whole

    top-limb : get l out.1 out.0 (size l a - 1) ≡ some (limb (length xs))
    top-limb =
        get-contents l w in_blocks out.1 out.0 (size l a - 1) made.1
        ∙ ap₂ get_elem? (made.0 ∙ ap (λ n. tabulate_from 0 n limb) (ap length ea))
            (index_eq d a x xs va ea)
        ∙ get_elem?-tabulated 0 (suc (length xs)) limb (length xs) (omega arith)
        ∙ ap (λ t. some (limb t)) {x = 0 + length xs} {y = length xs} (omega arith)

    add_longer_lem : add_longer name_lt l r prefix extra d (src_a, a) (src_b, b) ≡ (
        if sign_of (last_limb x xs) == sign_of (last_limb y ys)
          && not (limb (length xs) / 2 ^ 63 == sign_of (last_limb x xs))
        then push_back name_lt l 0 out.1 out.0 (sign_limb (sign_of (last_limb x xs)))
        else some out)
    unfolding add_longer Chain.pairs Chain.scanned Chain.triple Chain.result Chain.forced
    add_longer_lem =
        let some_b : (size l b == 0) ≡ false =
          ≢→== (size l b) 0
            (omega (arith, size-contents l w d b vb.dense vb.stored, ap length eb)) in
        rw
          (
            some_b,
            top-get d a x xs va ea,
            top-get d b y ys vb eb,
            Chain.zip-some l w wide d sources src_a src_b a b own_a own_b va vb longer fits name_lt
                r prefix pad extra,
            top-limb,
          )
          refl

    resolved_bit : (code : ℕ) → code ≤ 2 → resolved extra code ≤ 1
    resolved_bit code h = ground arith

    abbrev carry : ℕ → ℕ
    carry =
        Chain.carry_at l w wide d sources src_a src_b a b own_a own_b va vb longer fits name_lt r
          prefix pad extra

    abbrev at_a : ℕ → ℕ
    at_a = extended_at (contents l d a) pad

    abbrev at_b : ℕ → ℕ
    at_b = extended_at (contents l d b) pad

    pad_fits : pad < digit_mod
    pad_fits = sign_limb-fits (sign_of (last_limb y ys))

    next_carry :
        (j : ℕ)
        → carry j ≤ 2
        → (resolved extra (carry (j + 1))
            ≡ (at_a j + at_b j + resolved extra (carry j)) / digit_mod)
          × (carry (j + 1) ≤ 2)
    unfolding Chain.class_at Chain.pair_at
    next_carry j code =
        let step =
          carry-step (at_a j) (at_b j) (carry j) extra
            (extended_at-Digits (contents l d a) pad j (subst Digits (sym ea) hx) pad_fits)
            (extended_at-Digits (contents l d b) pad j (subst Digits (sym eb) hy) pad_fits) code
            one_bit in
        let after =
          Chain.carry_at-suc l w wide d sources src_a src_b a b own_a own_b va vb longer fits
            name_lt r prefix pad extra j in
        (
          ap (resolved extra) after ∙ step.0,
          omega (arith, ap (λ k. k) {x = carry (j + 1)} after, step.1),
        )

    carry_code : (j : ℕ) → carry j ≤ 2
    unfolding Chain.carry_at
    carry_code zero = omega arith
    carry_code (suc j) =
        subst (λ k. carry k ≤ 2) {x = j + 1} {y = suc j} (omega arith)
          (next_carry j (carry_code j)).1

    limbs-value :
        value (
          tabulate_from 0 (length (contents l d a)) limb
          ++ overflow
              (sign_of (last_limb x xs))
              (sign_of (last_limb y ys))
              (limb (length xs) / 2 ^ 63))
        ≡ value (contents l d a) +ℤ value (contents l d b) +ℤ pos extra
    unfolding Chain.limb_at Chain.pair_at Chain.carry_at add_limbs
    limbs-value =
        let c : ℕ → ℕ = λ j. resolved extra (carry j) in
        let limb_of : List ℕ → List ℕ → ℕ → ℕ =
          λ u v j. (extended_at u pad j + extended_at v pad j + c j) % digit_mod in
        let Carries : List ℕ → List ℕ → Type 0 = λ u v.
          (j : ℕ) → c (j + 1) ≡ (extended_at u pad j + extended_at v pad j + c j) / digit_mod in
        let Total : List ℕ → List ℕ → Type 0 = λ u v.
          value (
            tabulate_from 0 (length u) (limb_of u v)
            ++ overflow (sign_of (last_limb x xs)) (sign_of (last_limb y ys))
                (limb_of u v (length xs) / 2 ^ 63))
          ≡ value u +ℤ value v +ℤ pos extra in
        let carries : Carries (x ∷ xs) (y ∷ ys) =
          subst (λ u. Carries u (y ∷ ys)) ea
            (subst (λ v. Carries (contents l d a) v) eb (λ j. (next_carry j (carry_code j)).0)) in
        let total : Total (x ∷ xs) (y ∷ ys) =
          sum_value x xs y ys (length (contents l d a) - length (contents l d b)) extra hx hy
            (omega (arith, longer, ap length ea, ap length eb)) c refl
            (λ j. resolved_bit (carry j) (carry_code j)) carries in
        subst (λ u. Total u (contents l d b)) (sym ea)
          (subst (λ v. Total (x ∷ xs) v) (sym eb) total)

    abbrev overflows : Bool
    overflows =
        sign_of (last_limb x xs) == sign_of (last_limb y ys)
        && not (limb (length xs) / 2 ^ 63 == sign_of (last_limb x xs))

    abbrev extra_limb : ℕ
    extra_limb = sign_limb (sign_of (last_limb x xs))

    abbrev blocks : ℕ
    blocks = grid_num_chunks (epc l) (length (contents l d a))

    blocks_bounds :
        (0 < blocks) × (length (contents l d a) + epc l < size_t_mod → blocks < size_t_mod - 1)
    blocks_bounds =
        let (room, tight) =
          grid_num_chunks_bounds (epc l) w.epc_pos (length (contents l d a)) fits in
        let some_limb : 0 < length (contents l d a) = omega (arith, ap length ea) in
        (
          lt_of_mul 0 blocks (epc l) (omega (arith, room, some_limb)),
          λ strict.
              lt_of_mul blocks (size_t_mod - 1) (epc l) (grind (arith, tight, strict, w.epc_pos)),
        )

    stored_length : length out.0 ≡ blocks
    stored_length =
        Chain.forced-length l w wide d sources src_a src_b a b own_a own_b va vb longer fits name_lt
          r prefix pad extra run whole

    carry_limb :
        overflows ≡ true
        → overflow (sign_of (last_limb x xs)) (sign_of (last_limb y ys)) (limb (length xs) / 2 ^ 63)
          ≡ extra_limb ∷ []
    unfolding overflow
    carry_limb grows = rw grows refl

    no_carry_limb :
        overflows ≡ false
        → overflow (sign_of (last_limb x xs)) (sign_of (last_limb y ys)) (limb (length xs) / 2 ^ 63)
          ≡ []
    unfolding overflow
    no_carry_limb fits_in = rw fits_in refl

    pub add_longer-IsSum :
        length (contents l d a) + epc l < size_t_mod
        → (sum : ChunkSeq × Disk ℕ) × (add_longer name_lt l r prefix extra d (src_a, a) (src_b, b)
            ≡ some sum)
          × IsSum (value (contents l d a) +ℤ value (contents l d b) +ℤ pos extra) sum
    add_longer-IsSum strict =
        let limbs : List ℕ = tabulate_from 0 (length (contents l d a)) limb in
        elim (Bool-cases overflows) [
          | inl grows ↦
              let (sum, pushed, after) =
                push_back-contents name_lt l w in_blocks 0 out.1 out.0 extra_limb
                  (omega (arith, stored_length, blocks_bounds.0))
                  (omega (arith, stored_length, blocks_bounds.1 strict)) made.1
                  (Chain.forced-IsPlaced l w wide d sources src_a src_b a b own_a own_b va vb longer
                    fits name_lt r prefix pad extra run whole)
                  (Chain.forced-IsWhole l w wide d sources src_a src_b a b own_a own_b va vb longer
                    fits name_lt r prefix pad extra run whole) in
              (
                sum,
                add_longer_lem ∙ rw grows pushed,
                (
                  after.well_formed,
                  ap value (
                        after.reads_back
                        ∙ ap (λ t. t ++ (extra_limb ∷ [])) made.0
                        ∙ ap (λ t. limbs ++ t) (sym (carry_limb grows)))
                      ∙ limbs-value,
                ),
              )
          | inr fits_in ↦ (
            out,
            add_longer_lem ∙ rw fits_in refl,
            (
              made.1,
              ap value (
                    made.0
                    ∙ sym (append-nil limbs)
                    ∙ ap (λ t. limbs ++ t) (sym (no_carry_limb fits_in)))
                  ∙ limbs-value,
            ),
          )
        ]
