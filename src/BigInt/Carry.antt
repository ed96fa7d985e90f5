-- ===== src/BigInt/Carry.antt =====
-- The scan under `carry_fn` gives each limb the carry into it.
use plaidlaylib.Prelude.{ℕ, ◌+◌, ◌/◌, ◌≤◌, ◌<◌, ◌≡◌, ◌==◌, if◌then◌else◌, arith}
use plaidlaylib.Reduce.Fold.{IsMonoid}
use plaidlaylib.BigInt.{digit_mod, propagate, classify, carry_fn}

pub carry_fn-IsMonoid : IsMonoid carry_fn propagate
unfolding carry_fn
carry_fn-IsMonoid = record {
  assoc = λ a b c. ground arith;
  left = λ a. ground arith;
  right = λ a. ground arith;
}

-- A carry code with the carry into limb 0 put in for an unbroken propagation.
abbrev pub resolved : ℕ → ℕ → ℕ
resolved extra_one c = if c == propagate then extra_one else c

pub carry-step :
    (x y c e : ℕ)
    → x < digit_mod
    → y < digit_mod
    → c ≤ 2
    → e ≤ 1
    → (resolved e (carry_fn c (classify x y)) ≡ (x + y + resolved e c) / digit_mod)
      × (carry_fn c (classify x y) ≤ 2)
unfolding carry_fn classify
carry-step x y c e hx hy hc he = (ground arith, ground arith)
