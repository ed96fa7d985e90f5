-- ===== src/BigInt/Extended.antt =====
-- The limbs of a number past its end repeat its sign.
use plaidlaylib.Prelude.{
  ℕ, zero, suc, ◌+◌, ◌/◌, ◌%◌, ◌^◌, ◌≤◌, ◌<◌, ◌≡◌, refl, sym, ap, ap₂, ◌∙◌, some, inl, inr, List,
  [], ◌∷◌, ◌++◌, All, length, get_elem?, get_or, replicate, tabulate_from, tabulate_from_ext,
  tabulate_from-append, tabulate_from-get_or, ltb, lt→ltb, le→ltb, dec_lt, if◌then◌else◌, arith,
  append-nil,
}
use plaidlaylib.Prelude.Int.{pos, sub_ℕ, sub_ℕ_eq, sub_ℕ-add, ◌+ℤ◌}
use plaidlaylib.BigInt.{digit_mod, sign_of, sign_limb}
use plaidlaylib.BigInt.Value.{
  magnitude, sign_weight, value, last_limb, extend_parts, overflow, sign_of_cases, sum_limb,
  sum_parts,
}

-- Limbs are 64-bit.
abbrev pub Digits : List ℕ → Type 0
Digits = All (λ x. x < digit_mod)

pub get_or-Digits : (xs : List ℕ) (j : ℕ) → Digits xs → get_or xs j 0 < digit_mod
get_or-Digits [] j h = omega arith
get_or-Digits (x ∷ xs) zero h = h.0
get_or-Digits (x ∷ xs) (suc j) h = get_or-Digits xs j h.1

-- The shorter operand with its sign in the places past its end.
abbrev pub extended_at : List ℕ → ℕ → ℕ → ℕ
extended_at ys pad j = if ltb j (length ys) then get_or ys j 0 else pad

pub extended_at-Digits :
    (ys : List ℕ) (pad j : ℕ) → Digits ys → pad < digit_mod → extended_at ys pad j < digit_mod
extended_at-Digits ys pad j h small = elim (dec_lt j (length ys)) [
  | yes inside ↦ rw (lt→ltb j (length ys) inside) (get_or-Digits ys j h)
  | no past ↦ rw (le→ltb j (length ys) (omega arith)) small
]

tabulate_from-const : (s m x : ℕ) → tabulate_from s m (λ j. x) ≡ replicate m x
tabulate_from-const s zero x = refl
tabulate_from-const s (suc m) x = ap (◌∷◌ x) (tabulate_from-const (s + 1) m x)

pub extended_at-tabulated :
    (ys : List ℕ) (pad m : ℕ)
    → tabulate_from 0 (length ys + m) (extended_at ys pad) ≡ ys ++ replicate m pad
extended_at-tabulated ys pad m =
    sym (tabulate_from-append 0 (length ys) m (extended_at ys pad))
    ∙ ap₂ ◌++◌
        (tabulate_from_ext 0 (length ys) (extended_at ys pad) (λ j. get_or ys j 0)
            (λ j low lt. rw (lt→ltb j (length ys) (omega arith)) refl)
          ∙ tabulate_from-get_or 0 [] ys)
        (tabulate_from_ext (0 + length ys) m (extended_at ys pad) (λ j. pad)
            (λ j low lt. rw (le→ltb j (length ys) (omega arith)) refl)
          ∙ tabulate_from-const (0 + length ys) m pad)

pub last-get_elem? : (y : ℕ) (ys : List ℕ) → get_elem? (y ∷ ys) (length ys) ≡ some (last_limb y ys)
unfolding last_limb
last-get_elem? y [] = refl
last-get_elem? y (z ∷ zs) = last-get_elem? z zs

pub last-get_or : (y : ℕ) (ys : List ℕ) → get_or (y ∷ ys) (length ys) 0 ≡ last_limb y ys
unfolding last_limb
last-get_or y [] = refl
last-get_or y (z ∷ zs) = last-get_or z zs

pub last-Digits : (y : ℕ) (ys : List ℕ) → Digits (y ∷ ys) → last_limb y ys < digit_mod
unfolding last_limb
last-Digits y [] h = h.0
last-Digits y (z ∷ zs) h = last-Digits z zs h.1

sign_of-sign_limb :
    (x : ℕ)
    → x < digit_mod
    → (sign_of (sign_limb (sign_of x)) ≡ sign_of x) × (sign_limb (sign_of x) < digit_mod)
unfolding sign_limb sign_of
sign_of-sign_limb x h = elim (sign_of_cases x h) [
  | inl (small, e) ↦ (ground arith, ground arith)
  | inr (large, e) ↦ (ground arith, ground arith)
]

-- The shorter operand's sign is the sign of its limb at every place from its top limb on.
pub sign_of-extended :
    (y : ℕ) (ys : List ℕ) (j : ℕ)
    → Digits (y ∷ ys)
    → length ys ≤ j
    → sign_of (extended_at (y ∷ ys) (sign_limb (sign_of (last_limb y ys))) j)
      ≡ sign_of (last_limb y ys)
sign_of-extended y ys j h past = elim (dec_lt j (length (y ∷ ys))) [
  | yes inside ↦ rw (lt→ltb j (length (y ∷ ys)) inside) (
      ap (λ t. sign_of (get_or (y ∷ ys) t 0)) {x = j} {y = length ys} (omega arith)
      ∙ ap sign_of (last-get_or y ys))
  | no outside ↦
      rw (le→ltb j (length (y ∷ ys)) (omega arith))
        (sign_of-sign_limb (last_limb y ys) (last-Digits y ys h)).0
]

pub sign_limb-fits : (sign : ℕ) → sign_limb sign < digit_mod
unfolding sign_limb
sign_limb-fits sign = ground arith

pos-sub_ℕ : (n : ℕ) → pos n ≡ sub_ℕ n 0
pos-sub_ℕ n = ground arith

-- The limbs that the chain computes, with one more where the sign overflows, stand for the sum.
module _ (x : ℕ) (xs : List ℕ) (y : ℕ) (ys : List ℕ) (m extra : ℕ) (hx : Digits (x ∷ xs))
    (hy : Digits (y ∷ ys)) (longer : length (x ∷ xs) ≡ length (y ∷ ys) + m) (c : ℕ → ℕ) where
  abbrev pad : ℕ
  pad = sign_limb (sign_of (last_limb y ys))

  abbrev a_at : ℕ → ℕ
  a_at = extended_at (x ∷ xs) pad

  abbrev b_at : ℕ → ℕ
  b_at = extended_at (y ∷ ys) pad

  pub sum_value :
      c 0 ≡ extra
      → ((j : ℕ) → c j ≤ 1)
      → ((j : ℕ) → c (j + 1) ≡ (a_at j + b_at j + c j) / digit_mod)
      → let limb : ℕ → ℕ = λ j. (a_at j + b_at j + c j) % digit_mod in
        value (
          tabulate_from 0 (length (x ∷ xs)) limb
          ++ overflow
              (sign_of (last_limb x xs))
              (sign_of (last_limb y ys))
              (limb (length xs) / 2 ^ 63))
        ≡ value (x ∷ xs) +ℤ value (y ∷ ys) +ℤ pos extra
  unfolding sum_limb
  sum_value first small carries =
      let k = length xs in
      let a_fits = λ (j : ℕ).
        extended_at-Digits (x ∷ xs) pad j hx
          (sign_of-sign_limb (last_limb y ys) (last-Digits y ys hy)).1 in
      let b_fits = λ (j : ℕ).
        extended_at-Digits (y ∷ ys) pad j hy
          (sign_of-sign_limb (last_limb y ys) (last-Digits y ys hy)).1 in
      let limb : ℕ → ℕ = λ j. (a_at j + b_at j + c j) % digit_mod in
      let limbs : ℕ → ℕ → List ℕ =
        λ sa sb. tabulate_from 0 (suc k) limb ++ overflow sa sb (limb k / 2 ^ 63) in
      let top_a : a_at k ≡ last_limb x xs =
        rw (lt→ltb k (length (x ∷ xs)) (omega arith)) (last-get_or x xs) in
      let signs : limbs (sign_of (a_at k)) (sign_of (b_at k))
          ≡ limbs (sign_of (last_limb x xs)) (sign_of (last_limb y ys)) =
        ap₂ limbs (ap sign_of top_a) (sign_of-extended y ys k hy (omega (arith, longer))) in
      let whole_a : tabulate_from 0 (suc k) a_at ≡ x ∷ xs =
        ap (λ n. tabulate_from 0 n a_at) {x = suc k} {y = length (x ∷ xs) + 0} (omega arith)
        ∙ extended_at-tabulated (x ∷ xs) pad 0
        ∙ append-nil (x ∷ xs) in
      let whole_b : tabulate_from 0 (suc k) b_at ≡ (y ∷ ys) ++ replicate m pad =
        ap (λ n. tabulate_from 0 n b_at) longer ∙ extended_at-tabulated (y ∷ ys) pad m in
      let parts = sum_parts a_at b_at c a_fits b_fits small carries k 0 k (omega arith) in
      let total : magnitude (limbs (sign_of (a_at k)) (sign_of (b_at k)))
            + (sign_weight (x ∷ xs) + sign_weight (y ∷ ys) + 0)
          ≡ magnitude (x ∷ xs)
            + magnitude (y ∷ ys)
            + extra
            + sign_weight (limbs (sign_of (a_at k)) (sign_of (b_at k))) =
        omega (
          arith,
          parts,
          first,
          ap magnitude whole_a,
          ap sign_weight whole_a,
          ap magnitude whole_b,
          ap sign_weight whole_b,
          extend_parts m y ys (last-Digits y ys hy),
        ) in
      ap value (sym signs)
      ∙ sub_ℕ_eq _ _ _ _ total
      ∙ sym (
          ap₂ ◌+ℤ◌
            (sub_ℕ-add (magnitude (x ∷ xs)) (sign_weight (x ∷ xs)) (magnitude (y ∷ ys))
              (sign_weight (y ∷ ys)))
            (pos-sub_ℕ extra)
          ∙ sub_ℕ-add (magnitude (x ∷ xs) + magnitude (y ∷ ys))
              (sign_weight (x ∷ xs) + sign_weight (y ∷ ys)) extra 0)
