-- ===== src/Reverse/Swapped.antt =====
-- The loop of swaps reverses.
use mathlib.Core.List
use mathlib.Core.List.{reverse-append}
use plaidlaylib.Prelude.{
  ℕ, zero, suc, ◌+◌, ◌-◌, ◌≤◌, ◌≡◌, refl, sym, ap, ap₂, ◌∙◌, List, [], ◌∷◌, ◌++◌, append_assoc,
  length, length-append, get_or, get_or_at, set, lt→ltb, le→ltb, arith,
}
use plaidlaylib.Reverse.{swap_ends}

module _ {A : Type 0} (zero_elem : A) where
  set_at :
      (pre : List A) (x v : A) (post : List A)
      → set (pre ++ (x ∷ post)) (length pre) v ≡ pre ++ (v ∷ post)
  set_at [] x v post = refl
  set_at (y ∷ pre) x v post = ap (◌∷◌ y) (set_at pre x v post)

  -- A list that is not empty, split before its last element.
  last_split : (x : A) (xs : List A) → (m : List A) × (y : A) × (x ∷ xs ≡ m ++ (y ∷ []))
  last_split x [] = ([], x, refl)
  last_split x (z ∷ xs) = let (m, y, e) = last_split z xs in (x ∷ m, y, ap (◌∷◌ x) e)

  at_end :
      (pre : List A) (a : A) (m : List A) (j : ℕ)
      → j ≡ length pre + suc (length m)
      → j ≡ length (pre ++ (a ∷ m))
  at_end pre a m j e = omega (arith, e, length-append pre (a ∷ m))

  reverse_ends :
      (x : A) (m : List A) (y : A) (post : List A)
      → List.reverse (x ∷ (m ++ (y ∷ []))) ++ post ≡ (y ∷ []) ++ (List.reverse m ++ (x ∷ post))
  reverse_ends x m y post =
      ap (λ t. t ++ post) (reverse-append (x ∷ []) (m ++ (y ∷ [])))
      ∙ append_assoc (List.reverse (m ++ (y ∷ []))) (x ∷ []) post
      ∙ ap (λ t. t ++ (x ∷ post)) (reverse-append m (y ∷ []))
      ∙ append_assoc (y ∷ []) (List.reverse m) (x ∷ post)

  swapped_ends :
      (pre : List A) (x : A) (m : List A) (y : A) (post : List A) (i j : ℕ)
      → i ≡ length pre
      → j ≡ length pre + suc (length m)
      → let buf = pre ++ (x ∷ (m ++ (y ∷ post))) in
        set (set buf i (get_or buf j zero_elem)) j (get_or buf i zero_elem)
        ≡ (pre ++ (y ∷ [])) ++ (m ++ (x ∷ post))
  swapped_ends pre x m y post i j ei ej =
      let buf = pre ++ (x ∷ (m ++ (y ∷ post))) in
      let front = λ (a : A). pre ++ (a ∷ m) in
      let at_j = λ (a : A). at_end pre a m j ej in
      let regroup : (a b : A) → pre ++ (a ∷ (m ++ (b ∷ post))) ≡ front a ++ (b ∷ post) =
        λ a b. sym (append_assoc pre (a ∷ m) (b ∷ post)) in
      let first : get_or buf i zero_elem ≡ x =
        ap (λ k. get_or buf k zero_elem) ei ∙ get_or_at pre (m ++ (y ∷ post)) zero_elem x in
      let second : get_or buf j zero_elem ≡ y =
        ap₂ (λ (b : List A) (k : ℕ). get_or b k zero_elem) (regroup x y) (at_j x)
        ∙ get_or_at (front x) post zero_elem y in
      ap₂ (λ a b. set (set buf i a) j b) second first
      ∙ ap (λ k. set (set buf k y) j x) ei
      ∙ ap (λ b. set b j x) (set_at pre x y (m ++ (y ∷ post)))
      ∙ ap₂ (λ b k. set b k x) (regroup y y) (at_j y)
      ∙ set_at (front y) y x post
      ∙ sym (regroup y x)
      ∙ sym (append_assoc pre (y ∷ []) (m ++ (x ∷ post)))

  pub swap_ends-reverse :
      (fuel i j : ℕ) (pre mid post : List A)
      → i ≡ length pre
      → j + 1 ≡ length pre + length mid
      → length mid ≤ fuel
      → swap_ends zero_elem fuel i j (pre ++ (mid ++ post)) ≡ pre ++ (List.reverse mid ++ post)
  unfolding swap_ends
  swap_ends-reverse zero i j pre [] post ei ej h = refl
  swap_ends-reverse zero i j pre (x ∷ mid) post ei ej h = absurd (omega arith)
  swap_ends-reverse (suc fuel) i j pre [] post ei ej h = rw (le→ltb i j (omega arith)) refl
  swap_ends-reverse (suc fuel) i j pre (x ∷ []) post ei ej h = rw (le→ltb i j (omega arith)) refl
  swap_ends-reverse (suc fuel) i j pre (x ∷ z ∷ mid) post ei ej h =
      let (m, y, e) = last_split z mid in
      let size : length (z ∷ mid) ≡ length m + 1 = ap length e ∙ length-append m (y ∷ []) in
      let whole : x ∷ ((z ∷ mid) ++ post) ≡ x ∷ (m ++ (y ∷ post)) =
        ap (λ t. x ∷ (t ++ post)) e ∙ ap (◌∷◌ x) (append_assoc m (y ∷ []) post) in
      rw (lt→ltb i j (omega arith)) (
        ap
          (λ t. swap_ends zero_elem fuel (i + 1) (j - 1) (
            set (set (pre ++ t) i (get_or (pre ++ t) j zero_elem)) j
              (get_or (pre ++ t) i zero_elem)))
          whole
        ∙ ap (swap_ends zero_elem fuel (i + 1) (j - 1))
            (swapped_ends pre x m y post i j ei (omega (arith, size)))
        ∙ swap_ends-reverse fuel (i + 1) (j - 1) (pre ++ (y ∷ [])) m (x ∷ post)
            (omega (arith, length-append pre (y ∷ [])))
            (omega (arith, size, length-append pre (y ∷ []))) (omega (arith, size))
        ∙ append_assoc pre (y ∷ []) (List.reverse m ++ (x ∷ post))
        ∙ ap (λ t. pre ++ t)
            (sym (reverse_ends x m y post) ∙ ap (λ t. List.reverse (x ∷ t) ++ post) (sym e)))
