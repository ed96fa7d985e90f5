-- ===== src/Prelude/Lists.antt =====
-- Lists measured and indexed by native numbers, under the library's names.
use mathlib.Core.List.{Permᴰ}
use Prim.Native.Nat.{ℕ, zero, suc, ◌+◌, ◌-◌, ◌≤◌, ◌<◌, min}
use mathlib.Core.Path.{◌≡◌, refl, ap, ap₂, sym, subst, ◌∙◌}
use mathlib.Core.List.{List, [], ◌∷◌, ◌++◌, map, append_assoc, append-nil}
use mathlib.Core.Option.{Option, none, some}
use native.Mathlib.Omega.{arith}

module _ {ℓ} {A : Type ℓ} where
  abbrev pub length : List A → ℕ
  length [] = 0
  length (x ∷ xs) = suc (length xs)

  abbrev pub get_elem? : List A → ℕ → Option A
  get_elem? [] i = none
  get_elem? (x ∷ xs) zero = some x
  get_elem? (x ∷ xs) (suc i) = get_elem? xs i

  abbrev pub get_or : List A → ℕ → A → A
  get_or [] i d = d
  get_or (x ∷ xs) zero d = x
  get_or (x ∷ xs) (suc i) d = get_or xs i d

  -- A write out of bounds changes nothing.
  abbrev pub set : List A → ℕ → A → List A
  set [] i v = []
  set (x ∷ xs) zero v = v ∷ xs
  set (x ∷ xs) (suc i) v = x ∷ set xs i v

  abbrev pub take : ℕ → List A → List A
  take zero xs = []
  take (suc n) [] = []
  take (suc n) (x ∷ xs) = x ∷ take n xs

  abbrev pub drop : ℕ → List A → List A
  drop zero xs = xs
  drop (suc n) [] = []
  drop (suc n) (x ∷ xs) = drop n xs

  abbrev pub replicate : ℕ → A → List A
  replicate zero a = []
  replicate (suc n) a = a ∷ replicate n a

  -- `f start, …, f (start + n - 1)`.
  abbrev pub tabulate_from : ℕ → ℕ → (ℕ → A) → List A
  tabulate_from start zero f = []
  tabulate_from start (suc n) f = f start ∷ tabulate_from (start + 1) n f

  abbrev pub concat : List (List A) → List A
  concat [] = []
  concat (x ∷ xs) = x ++ concat xs

  -- An invariant of every element.
  abbrev pub All {κ} : (A → Type κ) → List A → Type κ
  All P [] = Unit
  All P (x ∷ xs) = P x × All P xs

module _ {ℓ} {A : Type ℓ} where
  pub length-append : (xs ys : List A) → length (xs ++ ys) ≡ length xs + length ys
  length-append [] ys = omega arith
  length-append (x ∷ xs) ys = omega (arith, length-append xs ys)

  pub length-take : (n : ℕ) (xs : List A) → length (take n xs) ≡ min n (length xs)
  length-take zero xs = omega arith
  length-take (suc n) [] = omega arith
  length-take (suc n) (x ∷ xs) = omega (arith, length-take n xs)

  pub length-drop : (n : ℕ) (xs : List A) → length (drop n xs) ≡ length xs - n
  length-drop zero xs = omega arith
  length-drop (suc n) [] = omega arith
  length-drop (suc n) (x ∷ xs) = omega (arith, length-drop n xs)

  pub length-replicate : (n : ℕ) (a : A) → length (replicate n a) ≡ n
  length-replicate zero a = refl
  length-replicate (suc n) a = ap suc (length-replicate n a)

  pub length-tabulate_from : (s n : ℕ) (f : ℕ → A) → length (tabulate_from s n f) ≡ n
  length-tabulate_from s zero f = refl
  length-tabulate_from s (suc n) f = ap suc (length-tabulate_from (s + 1) n f)

  pub take-append-drop : (n : ℕ) (xs : List A) → take n xs ++ drop n xs ≡ xs
  take-append-drop zero xs = refl
  take-append-drop (suc n) [] = refl
  take-append-drop (suc n) (x ∷ xs) = ap (◌∷◌ x) (take-append-drop n xs)

  -- `take` of exactly the first part of an append.
  pub take-append_left : (n : ℕ) (xs ys : List A) → n ≡ length xs → take n (xs ++ ys) ≡ xs
  take-append_left zero [] ys h = refl
  take-append_left zero (x ∷ xs) ys h = absurd (omega arith)
  take-append_left (suc n) [] ys h = absurd (omega arith)
  take-append_left (suc n) (x ∷ xs) ys h = ap (◌∷◌ x) (take-append_left n xs ys (omega arith))

  pub take_all : (n : ℕ) (xs : List A) → length xs ≤ n → take n xs ≡ xs
  take_all zero [] h = refl
  take_all zero (x ∷ xs) h = absurd (omega arith)
  take_all (suc n) [] h = refl
  take_all (suc n) (x ∷ xs) h = ap (◌∷◌ x) (take_all n xs (omega arith))

  pub tabulate_from-append :
      (s n k : ℕ) (f : ℕ → A)
      → tabulate_from s n f ++ tabulate_from (s + n) k f ≡ tabulate_from s (n + k) f
  tabulate_from-append s zero k f =
      ap (λ t. tabulate_from t k f) (omega arith) ∙ ap (λ t. tabulate_from s t f) (omega arith)
  tabulate_from-append s (suc n) k f =
      ap (λ t. f s ∷ (tabulate_from (s + 1) n f ++ tabulate_from t k f)) (omega arith)
      ∙ ap (◌∷◌ (f s)) (tabulate_from-append (s + 1) n k f)
      ∙ ap (λ t. tabulate_from s t f) (the_count n k)
    where
      the_count : (n k : ℕ) → suc (n + k) ≡ suc n + k
      the_count n k = omega arith

  pub concat-append : (xs ys : List (List A)) → concat (xs ++ ys) ≡ concat xs ++ concat ys
  concat-append [] ys = refl
  concat-append (x ∷ xs) ys =
      ap (◌++◌ x) (concat-append xs ys) ∙ sym (append_assoc x (concat xs) (concat ys))

  pub concat-snoc : (xs : List (List A)) (y : List A) → concat (xs ++ (y ∷ [])) ≡ concat xs ++ y
  concat-snoc xs y = concat-append xs (y ∷ []) ∙ ap (◌++◌ (concat xs)) (append-nil y)

  pub All-append {κ} : (P : A → Type κ) (xs ys : List A) → All P xs → All P ys → All P (xs ++ ys)
  All-append P [] ys hx hy = hy
  All-append P (x ∷ xs) ys hx hy = (hx.0, All-append P xs ys hx.1 hy)

pub length-map {ℓ κ} :
    {A : Type ℓ} {B : Type κ} (xs : List A) (f : A → B) → length (map f xs) ≡ length xs
length-map [] f = refl
length-map (x ∷ xs) f = ap suc (length-map xs f)

pub map-tabulate_from {ℓ κ} :
    {A : Type ℓ} {B : Type κ} (s n : ℕ) (f : ℕ → A) (g : A → B)
    → map g (tabulate_from s n f) ≡ tabulate_from s n (λ i. g (f i))
map-tabulate_from s zero f g = refl
map-tabulate_from s (suc n) f g = ap (◌∷◌ (g (f s))) (map-tabulate_from (s + 1) n f g)

-- Equal functions on the range give equal lists.
pub tabulate_from_ext {ℓ} :
    {A : Type ℓ} (s n : ℕ) (f g : ℕ → A)
    → ((i : ℕ) → s ≤ i → i < s + n → f i ≡ g i)
    → tabulate_from s n f ≡ tabulate_from s n g
tabulate_from_ext s zero f g h = refl
tabulate_from_ext s (suc n) f g h =
    ap (λ x. x ∷ tabulate_from (s + 1) n f) (h s (omega arith) (omega arith))
    ∙ ap (◌∷◌ (g s)) (tabulate_from_ext (s + 1) n f g (λ i p q. h i (omega arith) (omega arith)))

pub All-tabulate_from {ℓ κ} :
    {A : Type ℓ} (P : A → Type κ) (s n : ℕ) (f : ℕ → A)
    → ((i : ℕ) → s ≤ i → i < s + n → P (f i))
    → All P (tabulate_from s n f)
All-tabulate_from P s zero f h = tt
All-tabulate_from P s (suc n) f h = (
  h s (omega arith) (omega arith),
  All-tabulate_from P (s + 1) n f (λ i p q. h i (omega arith) (omega arith)),
)

module _ {ℓ} {A : Type ℓ} where
  pub take-add : (a b : ℕ) (xs : List A) → take (a + b) xs ≡ take a xs ++ take b (drop a xs)
  take-add zero b xs = ap (λ k. take k xs) {x = 0 + b} {y = b} (omega arith)
  take-add (suc a) b xs =
      ap (λ k. take k xs) {x = suc a + b} {y = suc (a + b)} (omega arith) ∙ take-add_suc a b xs
    where
      nothing : (n : ℕ) → take {A = A} n [] ≡ []
      nothing zero = refl
      nothing (suc n) = refl

      take-add_suc :
          (a b : ℕ) (xs : List A)
          → take (suc (a + b)) xs ≡ take (suc a) xs ++ take b (drop (suc a) xs)
      take-add_suc a b [] = sym (nothing b)
      take-add_suc zero b (x ∷ xs) = ap (λ k. x ∷ take k xs) {x = 0 + b} {y = b} (omega arith)
      take-add_suc (suc a) b (x ∷ xs) =
          ap (λ k. x ∷ take k xs) {x = suc a + b} {y = suc (a + b)} (omega arith)
          ∙ ap (◌∷◌ x) (take-add_suc a b xs)

  pub get_or_at : (pre xs : List A) (z x : A) → get_or (pre ++ (x ∷ xs)) (length pre) z ≡ x
  get_or_at [] xs z x = refl
  get_or_at (y ∷ pre) xs z x = get_or_at pre xs z x

  -- A list is what indexing it gives.
  pub tabulate_from-get_or :
      (z : A) (pre xs : List A)
      → tabulate_from (length pre) (length xs) (λ i. get_or (pre ++ xs) i z) ≡ xs
  tabulate_from-get_or z pre [] = refl
  tabulate_from-get_or z pre (x ∷ xs) = ap₂ ◌∷◌ (get_or_at pre xs z x) (
      ap₂ (λ s (l : List A). tabulate_from s (length xs) (λ i. get_or l i z))
        (omega (arith, length-append pre (x ∷ []))) (sym (append_assoc pre (x ∷ []) xs))
      ∙ tabulate_from-get_or z (pre ++ (x ∷ [])) xs)

  pub drop-nil : (n : ℕ) → drop {A = A} n [] ≡ []
  drop-nil zero = refl
  drop-nil (suc n) = refl

  pub drop-drop : (a b : ℕ) (xs : List A) → drop b (drop a xs) ≡ drop (a + b) xs
  drop-drop zero b xs = ap (λ n. drop n xs) {x = b} {y = 0 + b} (omega arith)
  drop-drop (suc a) b [] = drop-nil b ∙ sym (drop-nil (suc a + b))
  drop-drop (suc a) b (x ∷ xs) =
      drop-drop a b xs ∙ ap (λ n. drop n (x ∷ xs)) {x = suc (a + b)} {y = suc a + b} (omega arith)

  pub drop_past : (n : ℕ) (xs : List A) → length xs ≤ n → drop n xs ≡ []
  drop_past zero [] h = refl
  drop_past zero (x ∷ xs) h = absurd (omega arith)
  drop_past (suc n) [] h = refl
  drop_past (suc n) (x ∷ xs) h = drop_past n xs (omega arith)

  pub nil_of_length : (xs : List A) → length xs ≤ 0 → xs ≡ []
  nil_of_length [] h = refl
  nil_of_length (x ∷ xs) h = absurd (omega arith)

module _ {A : Type 0} where
  pub All-perm : (P : A → Type 0) {xs ys : List A} → Permᴰ xs ys → All P xs → All P ys
  All-perm P Permᴰ.nil h = tt
  All-perm P (Permᴰ.cons e p) h = (subst P e h.0, All-perm P p h.1)
  All-perm P (Permᴰ.swap e₁ e₂) h = (subst P e₂ h.1.0, (subst P e₁ h.0, h.1.1))
  All-perm P (Permᴰ.trans p q) h = All-perm P q (All-perm P p h)
