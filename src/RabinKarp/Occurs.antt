-- ===== src/RabinKarp/Occurs.antt =====
-- Occurrences of a pattern, independently of any search.
use plaidlaylib.Prelude.{
  ℕ, zero, suc, ◌+◌, ◌≤◌, ◌<◌, ◌≡◌, refl, sym, ap, ◌∙◌, Bool, true, false, List, [], ◌∷◌, ◌++◌,
  append_assoc, length, take, arith, ◌==◌, ==_iff, if◌then◌else◌, Bool-cases, inl, inr,
}

abbrev pub has_prefix : List ℕ → List ℕ → Bool
has_prefix [] xs = true
has_prefix (c ∷ pattern) [] = false
has_prefix (c ∷ pattern) (x ∷ xs) = if x == c then has_prefix pattern xs else false

-- The positions in `xs`, counted from `pos`, where the pattern occurs in `xs ++ rest`.
abbrev pub occurrences : List ℕ → List ℕ → ℕ → List ℕ → List ℕ
occurrences pattern [] pos rest = []
occurrences pattern (x ∷ xs) pos rest =
    if has_prefix pattern (x ∷ xs ++ rest)
    then pos ∷ occurrences pattern xs (pos + 1) rest
    else occurrences pattern xs (pos + 1) rest

pub occurrences-append :
    (pattern xs ys : List ℕ) (pos : ℕ) (rest : List ℕ)
    → occurrences pattern (xs ++ ys) pos rest
      ≡ occurrences pattern xs pos (ys ++ rest) ++ occurrences pattern ys (pos + length xs) rest
occurrences-append pattern [] ys pos rest =
    ap (λ t. occurrences pattern ys t rest) {x = pos} {y = pos + 0} (omega arith)
occurrences-append pattern (x ∷ xs) ys pos rest =
    let e : pos + 1 + length xs ≡ pos + suc (length xs) = omega arith in
    rw (occurrences-append pattern xs ys (pos + 1) rest, append_assoc xs ys rest, e)
      (split _ _ _ (has_prefix pattern (x ∷ xs ++ (ys ++ rest))))
  where
    split :
        (n : ℕ) (us vs : List ℕ) (b : Bool)
        → (if b then n ∷ (us ++ vs) else us ++ vs) ≡ (if b then n ∷ us else us) ++ vs
    split n us vs true = refl
    split n us vs false = refl

has_prefix_far :
    (pattern : List ℕ) (k : ℕ) (rest : List ℕ)
    → length pattern ≤ k
    → has_prefix pattern (take k rest) ≡ has_prefix pattern rest
has_prefix_far [] k rest h = refl
has_prefix_far (c ∷ pattern) zero rest h = absurd (omega arith)
has_prefix_far (c ∷ pattern) (suc k) [] h = refl
has_prefix_far (c ∷ pattern) (suc k) (x ∷ rest) h =
    ap (λ b. if x == c then b else false) (has_prefix_far pattern k rest (omega arith))

-- Whether the pattern is there is known without what lies behind its length.
pub has_prefix-append_take :
    (pattern ys : List ℕ) (k : ℕ) (rest : List ℕ)
    → length pattern ≤ length ys + k
    → has_prefix pattern (ys ++ take k rest) ≡ has_prefix pattern (ys ++ rest)
has_prefix-append_take pattern [] k rest h = has_prefix_far pattern k rest (omega arith)
has_prefix-append_take [] (y ∷ ys) k rest h = refl
has_prefix-append_take (c ∷ pattern) (y ∷ ys) k rest h =
    ap (λ b. if y == c then b else false) (has_prefix-append_take pattern ys k rest (omega arith))

-- A text that is too short has no occurrence, and one that has it starts with it.
pub has_prefix_short :
    (pattern xs : List ℕ) → length xs < length pattern → has_prefix pattern xs ≡ false
has_prefix_short [] xs h = absurd (omega arith)
has_prefix_short (c ∷ pattern) [] h = refl
has_prefix_short (c ∷ pattern) (x ∷ xs) h =
    rw (has_prefix_short pattern xs (omega arith)) (same (x == c))
  where
    same : (b : Bool) → (if b then false else false) ≡ false
    same true = refl
    same false = refl

pub has_prefix-take :
    (pattern xs : List ℕ) → has_prefix pattern xs ≡ true → take (length pattern) xs ≡ pattern
has_prefix-take [] xs h = refl
has_prefix-take (c ∷ pattern) [] h = absurd (ground arith)
has_prefix-take (c ∷ pattern) (x ∷ xs) h = elim (Bool-cases (x == c)) [
  | inl e ↦ rw ((==_iff x c).0 e) (
      ap (◌∷◌ c) (
        has_prefix-take pattern xs
          (sym (ap (λ b. if b then has_prefix pattern xs else false) e) ∙ h)))
  | inr e ↦
      absurd (ground (arith, sym (ap (λ b. if b then has_prefix pattern xs else false) e) ∙ h))
]
