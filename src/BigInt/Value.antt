-- ===== src/BigInt/Value.antt =====
-- The integer that a sequence of limbs stands for, its sign extension and the sum of two of them.
use plaidlaylib.Prelude.{
  ℕ, zero, suc, ◌+◌, ◌*◌, ◌/◌, ◌%◌, ◌^◌, ◌≤◌, ◌<◌, ◌≡◌, refl, List, [], ◌∷◌, ◌++◌, ◌&&◌, not, ◌==◌,
  leb, if◌then◌else◌, tabulate_from, replicate, arith, dec_lt, ◌⊎◌, inl, inr, subst,
}
use plaidlaylib.Prelude.Int.{ℤ, sub_ℕ, pos}
use plaidlaylib.BigInt.{digit_mod, mask, sign_of, sign_limb}

-- The value of the limbs as an unsigned number.
unfoldable pub magnitude : List ℕ → ℕ
magnitude [] = 0
magnitude (x ∷ xs) = x + digit_mod * magnitude xs

-- 2^(64 * length), if the top bit is set.
unfoldable pub sign_weight : List ℕ → ℕ
sign_weight [] = 0
sign_weight (x ∷ []) = if leb (2 ^ 63) x then digit_mod else 0
sign_weight (x ∷ y ∷ xs) = digit_mod * sign_weight (y ∷ xs)

-- The two's complement integer.
abbrev pub value : List ℕ → ℤ
value xs = sub_ℕ (magnitude xs) (sign_weight xs)

pub value-nil : value [] ≡ pos 0
unfolding magnitude sign_weight
value-nil = refl

-- Extending a limb by copies of its sign keeps the integer.
extend_positive :
    (m y : ℕ)
    → y < 2 ^ 63
    → (magnitude (y ∷ replicate m 0) ≡ y) × (sign_weight (y ∷ replicate m 0) ≡ 0)
unfolding magnitude sign_weight
extend_positive zero y h = ground arith
extend_positive (suc m) y h =
    let rest = extend_positive m 0 (omega arith) in (omega (arith, rest.0), omega (arith, rest.1))

extend_negative :
    (m y : ℕ)
    → 2 ^ 63 ≤ y
    → magnitude (y ∷ replicate m mask) + digit_mod ≡ y + sign_weight (y ∷ replicate m mask)
unfolding magnitude sign_weight
extend_negative zero y h = ground arith
extend_negative (suc m) y h = omega (arith, extend_negative m mask (omega arith))

-- Sign extension keeps the integer: the last limb's sign is repeated.
unfoldable pub last_limb : ℕ → List ℕ → ℕ
last_limb y [] = y
last_limb y (z ∷ zs) = last_limb z zs

pub extend_parts :
    (m y : ℕ) (ys : List ℕ)
    → last_limb y ys < digit_mod
    → let ext = (y ∷ ys) ++ replicate m (sign_limb (sign_of (last_limb y ys))) in
      magnitude ext + sign_weight (y ∷ ys) ≡ magnitude (y ∷ ys) + sign_weight ext
unfolding magnitude sign_weight last_limb sign_of sign_limb
extend_parts m y [] h = elim (dec_lt y (2 ^ 63)) [
  | yes small ↦
      let pad : (if (if y / 2 ^ 63 == 0 then 0 else 1) == 1 then mask else 0) ≡ 0 = ground arith in
      rw pad (let p = extend_positive m y small in ground (arith, p.0, p.1))
  | no large ↦
      let pad : (if (if y / 2 ^ 63 == 0 then 0 else 1) == 1 then mask else 0) ≡ mask =
        ground arith in
      rw pad (ground (arith, extend_negative m y (omega arith)))
]
extend_parts m y (z ∷ zs) h = omega (arith, extend_parts m z zs h)

-- The signs of two numbers are alike and the sum's is not: one more limb is needed.
unfoldable pub overflow : ℕ → ℕ → ℕ → List ℕ
overflow a_sign b_sign top_sign =
    if a_sign == b_sign && not (top_sign == a_sign) then sign_limb a_sign ∷ [] else []

pub sign_of_cases :
    (x : ℕ) → x < digit_mod → ((x < 2 ^ 63) × (sign_of x ≡ 0)) ⊎ ((2 ^ 63 ≤ x) × (sign_of x ≡ 1))
unfolding sign_of
sign_of_cases x h = elim (dec_lt x (2 ^ 63)) [
  | yes small ↦ inl (small, ground arith)
  | no large ↦ inr (omega arith, ground arith)
]

-- The top limb.
top_parts :
    (x y c : ℕ)
    → x < digit_mod
    → y < digit_mod
    → c ≤ 1
    → let r = (x + y + c) % digit_mod in
      let limbs = r ∷ overflow (sign_of x) (sign_of y) (r / 2 ^ 63) in
      magnitude limbs + sign_weight (x ∷ []) + sign_weight (y ∷ []) ≡ x + y + c + sign_weight limbs
unfolding magnitude sign_weight overflow sign_limb
top_parts x y c hx hy hc = elim (sign_of_cases x hx) [
  | inl (x_small, xs) ↦ elim (sign_of_cases y hy) [
    | inl (y_small, ys) ↦ rw (xs, ys) (ground arith)
    | inr (y_large, ys) ↦ rw (xs, ys) (ground arith)
  ]
  | inr (x_large, xs) ↦ elim (sign_of_cases y hy) [
    | inl (y_small, ys) ↦ rw (xs, ys) (ground arith)
    | inr (y_large, ys) ↦ rw (xs, ys) (ground arith)
  ]
]

-- The sum of two numbers of `k + 1` limbs, limb by limb with the carries `c`.
module _ (a b c : ℕ → ℕ) (a_fits : (j : ℕ) → a j < digit_mod) (b_fits : (j : ℕ) → b j < digit_mod)
    (c_fits : (j : ℕ) → c j ≤ 1)
    (carries : (j : ℕ) → c (j + 1) ≡ (a j + b j + c j) / digit_mod) where
  unfoldable pub sum_limb : ℕ → ℕ
  sum_limb j = (a j + b j + c j) % digit_mod

  pub sum_parts :
      (k s t : ℕ)
      → s + k ≡ t
      → let r =
          tabulate_from s (suc k) sum_limb
          ++ overflow (sign_of (a t)) (sign_of (b t)) (sum_limb t / 2 ^ 63) in
        magnitude r
          + sign_weight (tabulate_from s (suc k) a)
          + sign_weight (tabulate_from s (suc k) b)
        ≡ magnitude (tabulate_from s (suc k) a)
          + magnitude (tabulate_from s (suc k) b)
          + c s
          + sign_weight r
  unfolding magnitude sign_weight sum_limb overflow sign_of sign_limb
  sum_parts zero s t e =
      subst
        (λ u.
          let limbs = sum_limb s ∷ overflow (sign_of (a u)) (sign_of (b u)) (sum_limb u / 2 ^ 63) in
          magnitude limbs + sign_weight (a s ∷ []) + sign_weight (b s ∷ [])
          ≡ magnitude (a s ∷ []) + magnitude (b s ∷ []) + c s + sign_weight limbs)
        {x = s} {y = t} (omega arith)
        (omega (arith, top_parts (a s) (b s) (c s) (a_fits s) (b_fits s) (c_fits s)))
  sum_parts (suc k) s t e =
      let rest = sum_parts k (s + 1) t (omega arith) in omega (arith, rest, carries s)
