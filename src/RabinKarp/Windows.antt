-- ===== src/RabinKarp/Windows.antt =====
-- The occurrences in a text, window by window.
use plaidlaylib.Prelude.{
  ℕ, zero, suc, ◌+◌, ◌-◌, ◌≤◌, ◌<◌, ◌≡◌, refl, ap, ◌∙◌, Bool, true, false, List, [], ◌∷◌, ◌++◌,
  length, take, drop, arith, if◌then◌else◌,
}
use plaidlaylib.RabinKarp.Occurs.{has_prefix, occurrences, has_prefix-append_take, has_prefix_short}

pub drop-step : (i : ℕ) (xs ys : List ℕ) (y : ℕ) → drop i xs ≡ y ∷ ys → drop (i + 1) xs ≡ ys
drop-step zero xs ys y h = ap (drop 1) h
drop-step (suc i) [] ys y h = absurd (ground arith)
drop-step (suc i) (x ∷ xs) ys y h =
    ap (λ t. drop t (x ∷ xs)) {x = suc i + 1} {y = suc (i + 1)} (omega arith)
    ∙ drop-step i xs ys y h

pub length-drop_lt : (i n : ℕ) (xs : List ℕ) → length xs < i + suc n → length (drop i xs) < suc n
length-drop_lt zero n xs h = omega arith
length-drop_lt (suc i) n [] h = omega arith
length-drop_lt (suc i) n (x ∷ xs) h = length-drop_lt i n xs (omega arith)

module _ (full pattern : List ℕ) (gpos : ℕ) where
  -- The matches at `n` windows from `i` on.
  unfoldable pub windows : ℕ → ℕ → List ℕ
  windows zero i = []
  windows (suc n) i =
      if has_prefix pattern (drop i full) then (gpos + i) ∷ windows n (i + 1) else windows n (i + 1)

  pub windows-late :
      (n i : ℕ) → 0 < length pattern → (0 < n → length full < i + length pattern) → windows n i ≡ []
  unfolding windows
  windows-late zero i pos h = refl
  windows-late (suc n) i pos h =
      let late = h (omega arith) in
      rw
        (has_prefix_short pattern (drop i full)
          (omega (arith, length-drop_lt i (length pattern - 1) full (omega arith))))
        (windows-late n (i + 1) pos (λ _. omega arith))

  pub windows-split : (a b i : ℕ) → windows (a + b) i ≡ windows a i ++ windows b (i + a)
  unfolding windows
  windows-split zero b i =
      ap (λ t. windows t i) {x = 0 + b} {y = b} (omega arith)
      ∙ ap (windows b) {x = i} {y = i + 0} (omega arith)
  windows-split (suc a) b i =
      ap (λ t. windows t i) {x = suc a + b} {y = suc (a + b)} (omega arith)
      ∙ ap (λ t. if has_prefix pattern (drop i full) then (gpos + i) ∷ t else t)
          (windows-split a b (i + 1)
            ∙ ap (λ t. windows a (i + 1) ++ windows b t) {x = i + 1 + a} {y = i + suc a}
                (omega arith))
      ∙ move (has_prefix pattern (drop i full)) (windows a (i + 1)) (windows b (i + suc a))
    where
      move :
          (b : Bool) (us vs : List ℕ)
          → (if b then (gpos + i) ∷ (us ++ vs) else us ++ vs)
            ≡ (if b then (gpos + i) ∷ us else us) ++ vs
      move true us vs = refl
      move false us vs = refl

  pub windows-occurrences :
      (ys rest : List ℕ) (i k : ℕ)
      → drop i full ≡ ys ++ take k rest
      → length pattern ≤ k + 1
      → windows (length ys) i ≡ occurrences pattern ys (gpos + i) rest
  unfolding windows
  windows-occurrences [] rest i k h room = refl
  windows-occurrences (y ∷ ys) rest i k h room =
      rw (h, has_prefix-append_take pattern (y ∷ ys) k rest (omega arith))
        (ap (λ t. if has_prefix pattern (y ∷ ys ++ rest) then (gpos + i) ∷ t else t)
          (windows-occurrences ys rest (i + 1) k (drop-step i full (ys ++ take k rest) y h) room
            ∙ ap (λ t. occurrences pattern ys t rest) {x = gpos + (i + 1)} {y = gpos + i + 1}
                (omega arith)))
