-- ===== src/Prelude/Arith.antt =====
-- Division and multiplication facts that the layout of chunks rests on.
use Prim.Native.Nat.{ℕ, suc, ◌+◌, ◌*◌, ◌/◌, ◌%◌, ◌≤◌, ◌<◌}
use mathlib.Core.Path.{◌≡◌}
use native.Mathlib.Omega.{arith}
use native.Mathlib.Decide.{dec_lt}

-- A quotient is found from its remainder.
pub div_unique : (a b q r : ℕ) → a ≡ q * b + r → r < b → (a / b ≡ q) × (a % b ≡ r)
div_unique a b q r e h = grind arith

pub mul-div-cancel : (a b : ℕ) → 0 < b → a * b / b ≡ a
mul-div-cancel a b h = grind arith

-- Different multiples of `c` are apart.
pub mul-injective : (a b c : ℕ) → 0 < c → a * c ≡ b * c → a ≡ b
mul-injective a b c h e = grind arith

pub mul-mod_self : (a b : ℕ) → 0 < b → a * b % b ≡ 0
mul-mod_self a b h = (div_unique (a * b) b a 0 (omega arith) h).1

-- The greatest multiple that is not above.
pub div_mul_bounds : (x a : ℕ) → 0 < a → (x / a * a ≤ x) × (x < x / a * a + a)
div_mul_bounds x a h = grind arith

pub mul-le_right : (a b c : ℕ) → a ≤ b → a * c ≤ b * c
mul-le_right a b c h = grind arith

pub mul-lt_right : (a b c : ℕ) → 0 < c → a < b → a * c < b * c
mul-lt_right a b c p h = grind arith

-- Division and remainder one step further.
pub div-add_self : (a b : ℕ) → 0 < b → ((b + a) / b ≡ suc (a / b)) × ((b + a) % b ≡ a % b)
div-add_self a b h =
    let low = div_unique a b (a / b) (a % b) (grind arith) (grind arith) in
    div_unique (b + a) b (suc (a / b)) (a % b) (grind arith) (grind arith)

pub div-lt : (a b : ℕ) → a < b → (a / b ≡ 0) × (a % b ≡ a)
div-lt a b h = div_unique a b 0 a (omega arith) h

pub lt_of_mul : (a b c : ℕ) → a * c < b * c → a < b
lt_of_mul a b c h = elim (dec_lt a b) [
  | yes lt ↦ lt
  | no ge ↦ absurd (omega (arith, mul-le_right b a c (omega arith)))
]
