-- ===== src/RabinKarp/Field.antt =====
-- The field's operations are those of the integers modulo p, on values in [0, p].
use plaidlaylib.Prelude.{ℕ, ◌+◌, ◌-◌, ◌*◌, ◌/◌, ◌%◌, ◌≤◌, ◌<◌, ◌≡◌, sym, ◌∙◌, ap, arith}
use native.Mathlib.Nat.{mod-eq_of_lt, mul-add-mod_self_left, div-add-mod, mul-le-mul}
use plaidlaylib.Layout.{size_t_mod}
use plaidlaylib.RabinKarp.{p, unsigned_int_mod, of_int, fast_mod, field_add, field_mul, field_sub}

pub fast_mod-mod : (x : ℕ) → fast_mod x % p ≡ x % p
unfolding fast_mod
fast_mod-mod x = omega arith

of_int-small : (x : ℕ) → x < unsigned_int_mod → of_int x ≡ x
unfolding of_int
of_int-small x h = mod-eq_of_lt h

fast_mod_sum : (x : ℕ) → x ≤ 4294967294 → fast_mod x ≤ p
unfolding fast_mod
fast_mod_sum x h = omega arith

-- Addition keeps the range and adds modulo p.
pub field_add-mod :
    (a b : ℕ) → a ≤ p → b ≤ p → (field_add a b ≤ p) × (field_add a b % p ≡ (a + b) % p)
unfolding field_add
field_add-mod a b ha hb =
    let low = fast_mod_sum (a + b) (omega arith) in
    rw (of_int-small (fast_mod (a + b)) (omega arith)) (low, fast_mod-mod (a + b))

product_bound : (a b : ℕ) → a ≤ p → b ≤ p → a * b ≤ p * p
product_bound a b ha hb = mul-le-mul ha hb

fast_mod_product : (x : ℕ) → x ≤ 4611686014132420609 → fast_mod x ≤ 4294967294
unfolding fast_mod
fast_mod_product x h = omega arith

-- On values in [0, p] the field's multiplication stays in [0, p] and multiplies modulo p: neither
-- the 64-bit product nor the two folds lose anything.
pub field_mul-mod :
    (a b : ℕ) → a ≤ p → b ≤ p → (field_mul a b ≤ p) × (field_mul a b % p ≡ a * b % p)
unfolding field_mul
field_mul-mod a b ha hb =
    let bound : a * b ≤ 4611686014132420609 = product_bound a b ha hb in
    let once = fast_mod_product (a * b) bound in
    let whole : a * b % size_t_mod ≡ a * b = mod-eq_of_lt (omega arith) in
    let twice = fast_mod_sum (fast_mod (a * b)) once in
    rw (whole, of_int-small (fast_mod (fast_mod (a * b))) (omega arith))
      (twice, fast_mod-mod (fast_mod (a * b)) ∙ fast_mod-mod (a * b))

-- On values in [0, p] the field's subtraction stays in [0, p], and takes a value that is b + c modulo
-- p to c modulo p.
pub field_sub-mod :
    (a b c : ℕ)
    → a ≤ p
    → b ≤ p
    → a % p ≡ (b + c) % p
    → (field_sub a b ≤ p) × (field_sub a b % p ≡ c % p)
unfolding field_sub
field_sub-mod a b c ha hb e =
    let diff : (p + size_t_mod - b) % size_t_mod ≡ p - b = omega arith in
    let sum : (a + (p - b)) % size_t_mod ≡ a + (p - b) = mod-eq_of_lt (omega arith) in
    let low = fast_mod_sum (a + (p - b)) (omega arith) in
    rw (diff, sum, of_int-small (fast_mod (a + (p - b))) (omega arith))
      (low, fast_mod-mod (a + (p - b)) ∙ omega arith)

mul_mod_first : (a b n : ℕ) → a * b % n ≡ a % n * b % n
mul_mod_first a b n =
    let split : a * b ≡ n * (a / n * b) + a % n * b = grind (arith, div-add-mod a n) in
    ap (λ t. t % n) split ∙ mul-add-mod_self_left n (a / n * b) (a % n * b)

-- Products and sums of congruent numbers are congruent.
pub mul_congr : (a b c e n : ℕ) → a % n ≡ c % n → b % n ≡ e % n → a * b % n ≡ c * e % n
mul_congr a b c e n ha hb =
    mul_mod_first a b n
    ∙ ap (λ t. t * b % n) ha
    ∙ sym (mul_mod_first c b n)
    ∙ ap (λ t. t % n) (comm c b)
    ∙ mul_mod_first b c n
    ∙ ap (λ t. t * c % n) hb
    ∙ sym (mul_mod_first e c n)
    ∙ ap (λ t. t % n) (comm e c)
  where
    comm : (x y : ℕ) → x * y ≡ y * x
    comm x y = grind arith

pub add_congr : (a b c e : ℕ) → a % p ≡ c % p → b % p ≡ e % p → (a + b) % p ≡ (c + e) % p
add_congr a b c e ha hb = omega arith
