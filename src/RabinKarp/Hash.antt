-- ===== src/RabinKarp/Hash.antt =====
-- The rolling hash: what `RkScanChunk` holds in `h` is the Horner hash of its window, modulo p.
use plaidlaylib.Prelude.{
  ℕ, zero, suc, ◌+◌, ◌-◌, ◌*◌, ◌%◌, ◌^◌, ◌≤◌, ◌<◌, ◌≡◌, refl, sym, ap, ◌∙◌, List, [], ◌∷◌, ◌++◌,
  All, length, take, drop, get_or, arith, ltb, lt→ltb, le→ltb, dec_lt, if◌then◌else◌, length-take,
  length-drop,
}
use native.Mathlib.Nat.{mod-eq_of_lt}
use plaidlaylib.RabinKarp.{
  p, base, of_int, field_add, field_mul, at, fch, hash_from, roll, powers, hash_pattern,
}
use plaidlaylib.RabinKarp.Field.{field_add-mod, field_mul-mod, field_sub-mod, mul_congr, add_congr}

-- The exact hash, over the naturals.
abbrev pub horner : List ℕ → ℕ → ℕ
horner [] h = h
horner (c ∷ cs) h = horner cs (h * base + c)

pow-suc : (n : ℕ) → base ^ suc n ≡ base ^ n * base
pow-suc n = grind arith

horner-acc : (w : List ℕ) (h : ℕ) → horner w h ≡ h * base ^ length w + horner w 0
horner-acc [] h = grind arith
horner-acc (c ∷ w) h =
    horner-acc w (h * base + c)
    ∙ step (base ^ length w) (horner w 0)
    ∙ ap (λ t. h * t + ((0 * base + c) * base ^ length w + horner w 0)) (sym (pow-suc (length w)))
    ∙ ap (λ t. h * base ^ suc (length w) + t) (sym (horner-acc w (0 * base + c)))
  where
    step : (b t : ℕ) → (h * base + c) * b + t ≡ h * (b * base) + ((0 * base + c) * b + t)
    step b t = grind arith

horner-snoc : (w : List ℕ) (e h : ℕ) → horner (w ++ (e ∷ [])) h ≡ horner w h * base + e
horner-snoc [] e h = refl
horner-snoc (c ∷ w) e h = horner-snoc w e (h * base + c)

-- A field value in range that stands for a number.
abbrev pub Represents : ℕ → ℕ → Type 0
Represents a n = (a ≤ p) × (a % p ≡ n % p)

abbrev pub IsCode : ℕ → Type 0
IsCode c = c ≤ p

horner_step :
    (a n c : ℕ)
    → Represents a n
    → c ≤ p
    → Represents (field_add (field_mul a base) c) (n * base + c)
horner_step a n c h hc =
    let m = field_mul-mod a base h.0 (omega arith) in
    let s = field_add-mod (field_mul a base) c m.0 hc in
    (s.0, s.1 ∙ add_congr _ c _ c (m.1 ∙ mul_congr a base n base p h.1 refl) refl)

of_int-code : (c : ℕ) → c ≤ p → of_int c ≡ c
unfolding of_int
of_int-code c h = mod-eq_of_lt (omega arith)

-- The pattern's hash is that of its codes.
pub hash_pattern-Represents :
    (pattern : List ℕ) (a n : ℕ)
    → All IsCode pattern
    → Represents a n
    → Represents (hash_pattern pattern a) (horner pattern n)
unfolding hash_pattern
hash_pattern-Represents [] a n codes h = h
hash_pattern-Represents (c ∷ pattern) a n codes h =
    rw (of_int-code c codes.0)
      (hash_pattern-Represents pattern _ _ codes.1 (horner_step a n c h codes.0))

pub powers-Represents : (k a n : ℕ) → Represents a n → Represents (powers k a) (n * base ^ k)
unfolding powers
powers-Represents zero a n h = (h.0, h.1 ∙ ap (λ t. t % p) {x = n} {y = n * base ^ 0} (grind arith))
powers-Represents (suc k) a n h =
    let m = field_mul-mod a base h.0 (omega arith) in
    let rest =
      powers-Represents k (field_mul a base) (n * base)
        (m.0, m.1 ∙ mul_congr a base n base p h.1 refl) in
    (rest.0, rest.1 ∙ ap (λ t. t % p) (shift (base ^ k) ∙ ap (λ t. n * t) (sym (pow-suc k))))
  where
    shift : (b : ℕ) → n * base * b ≡ n * (b * base)
    shift b = grind arith

pub drop-at : (xs : List ℕ) (j : ℕ) → j < length xs → drop j xs ≡ get_or xs j 0 ∷ drop (j + 1) xs
drop-at [] j h = absurd (omega arith)
drop-at (x ∷ xs) zero h = refl
drop-at (x ∷ xs) (suc j) h =
    drop-at xs j (omega arith)
    ∙ ap (λ t. get_or xs j 0 ∷ drop t (x ∷ xs)) {x = suc (j + 1)} {y = suc j + 1} (omega arith)

pub take-snoc :
    (k : ℕ) (xs : List ℕ) → k < length xs → take (suc k) xs ≡ take k xs ++ (get_or xs k 0 ∷ [])
take-snoc k [] h = absurd (omega arith)
take-snoc zero (x ∷ xs) h = refl
take-snoc (suc k) (x ∷ xs) h = ap (◌∷◌ x) (take-snoc k xs (omega arith))

get_or-drop : (i k : ℕ) (xs : List ℕ) → get_or (drop i xs) k 0 ≡ get_or xs (i + k) 0
get_or-drop zero k xs = ap (λ t. get_or xs t 0) {x = k} {y = 0 + k} (omega arith)
get_or-drop (suc i) k [] = refl
get_or-drop (suc i) k (x ∷ xs) =
    get_or-drop i k xs
    ∙ ap (λ t. get_or (x ∷ xs) t 0) {x = suc (i + k)} {y = suc i + k} (omega arith)

get_or-append :
    (xs ys : List ℕ) (i : ℕ)
    → get_or (xs ++ ys) i 0
      ≡ (if ltb i (length xs) then get_or xs i 0 else get_or ys (i - length xs) 0)
get_or-append [] ys i =
    rw (le→ltb i 0 (omega arith)) (ap (λ t. get_or ys t 0) {x = i} {y = i - 0} (omega arith))
get_or-append (x ∷ xs) ys zero = rw (lt→ltb 0 (suc (length xs)) (omega arith)) refl
get_or-append (x ∷ xs) ys (suc i) = elim (dec_lt i (length xs)) [
  | yes h ↦
      get_or-append xs ys i
      ∙ rw (lt→ltb i (length xs) h, lt→ltb (suc i) (suc (length xs)) (omega arith)) refl
  | no h ↦
      get_or-append xs ys i
      ∙ rw (le→ltb i (length xs) (omega arith), le→ltb (suc i) (suc (length xs)) (omega arith))
          (ap (λ t. get_or ys t 0) {x = i - length xs} {y = suc i - suc (length xs)} (omega arith))
]

All-get_or : (xs : List ℕ) (i : ℕ) → All IsCode xs → get_or xs i 0 ≤ p
All-get_or [] i h = omega arith
All-get_or (x ∷ xs) zero h = h.0
All-get_or (x ∷ xs) (suc i) h = All-get_or xs i h.1

module _ (text overlap : List ℕ) (codes : All IsCode (text ++ overlap)) where
  -- The two segments read as one text.
  pub at-append : (i : ℕ) → at text overlap i ≡ get_or (text ++ overlap) i 0
  unfolding at
  at-append i = sym (get_or-append text overlap i)

  fch-code :
      (i : ℕ)
      → (fch text overlap i ≡ get_or (text ++ overlap) i 0) × (get_or (text ++ overlap) i 0 ≤ p)
  unfolding fch
  fch-code i =
      let small = All-get_or (text ++ overlap) i codes in
      (ap of_int (at-append i) ∙ of_int-code _ small, small)

  -- The first loop hashes a window.
  pub hash_from-Represents :
      (n j a t : ℕ)
      → j + n ≤ length (text ++ overlap)
      → Represents a t
      → Represents
          (hash_from text overlap base n j a)
          (horner (take n (drop j (text ++ overlap))) t)
  unfolding hash_from
  hash_from-Represents zero j a t room h = h
  hash_from-Represents (suc n) j a t room h =
      let c = fch-code j in
      rw (drop-at (text ++ overlap) j (omega arith), c.0)
        (hash_from-Represents n (j + 1) _ _ (omega arith) (horner_step a t _ h c.1))

  -- The roll takes the hash of one window to that of the next.
  pub roll-Represents :
      (pattern : List ℕ) (hash x_m1 gpos m i h : ℕ)
      → length pattern ≡ suc m
      → i + suc m < length (text ++ overlap)
      → Represents x_m1 (base ^ m)
      → Represents h (horner (take (suc m) (drop i (text ++ overlap))) 0)
      → Represents
          (roll text overlap pattern hash base x_m1 gpos i h)
          (horner (take (suc m) (drop (i + 1) (text ++ overlap))) 0)
  unfolding roll
  roll-Represents pattern hash x_m1 gpos m i h len room hx hh =
      let full = text ++ overlap in
      let c = fch-code i in
      let e = fch-code (i + suc m) in
      let w = take m (drop (i + 1) full) in
      let w_len : length w ≡ m =
        omega (arith, length-take m (drop (i + 1) full), length-drop (i + 1) full) in
      let next : take (suc m) (drop (i + 1) full) ≡ w ++ (get_or full (i + suc m) 0 ∷ []) =
        take-snoc m (drop (i + 1) full) (omega (arith, length-drop (i + 1) full))
        ∙ ap (λ t. w ++ (t ∷ []))
            (get_or-drop (i + 1) m full
              ∙ ap (λ t. get_or full t 0) {x = i + 1 + m} {y = i + suc m} (omega arith)) in
      let first = get_or full i 0 in
      let here : horner (take (suc m) (drop i full)) 0 ≡ first * base ^ m + horner w 0 =
        ap (λ t. horner (take (suc m) t) 0) (drop-at full i (omega arith))
        ∙ horner-acc w (0 * base + first)
        ∙ ap (λ t. (0 * base + first) * base ^ t + horner w 0) w_len
        ∙ ap (λ t. t * base ^ m + horner w 0) {x = 0 * base + first} {y = first} (omega arith) in
      let out = field_mul-mod first x_m1 c.1 hx.0 in
      let left = field_sub-mod h (field_mul first x_m1) (horner w 0) hh.0 out.0 (
        hh.1
        ∙ ap (λ t. t % p) here
        ∙ add_congr _ _ _ _ (sym (out.1 ∙ mul_congr first x_m1 first (base ^ m) p refl hx.1))
            refl) in
      rw (len, c.0, e.0, next, horner-snoc w (get_or full (i + suc m) 0) 0)
        (horner_step _ (horner w 0) _ left e.1)
