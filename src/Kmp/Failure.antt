-- ===== src/Kmp/Failure.antt =====
-- The failure function that `ChunkKmp` builds is the table of the pattern's longest borders.
use plaidlaylib.Prelude.{
  ℕ, zero, suc, ◌+◌, ◌-◌, ◌≤◌, ◌<◌, ◌≡◌, refl, sym, ap, ◌∙◌, subst, inl, inr, ◌≢◌, List, [], ◌∷◌,
  length, get_or, set, replicate, arith, ℕ_discrete, ==_iff, ≢→==, dec_lt, length-replicate,
}
use plaidlaylib.Kmp.{fall_back, build_failure, failure_of}
use plaidlaylib.Kmp.Borders.{
  letter, Agrees, Agrees-fewer, IsBorder, IsTable, FellBack, fall_back-FellBack,
}

get_or-set_self : (xs : List ℕ) (i v : ℕ) → i < length xs → get_or (set xs i v) i 0 ≡ v
get_or-set_self [] i v h = absurd (omega arith)
get_or-set_self (x ∷ xs) zero v h = refl
get_or-set_self (x ∷ xs) (suc i) v h = get_or-set_self xs i v (omega arith)

get_or-set_other : (xs : List ℕ) (i j v : ℕ) → j ≢ i → get_or (set xs i v) j 0 ≡ get_or xs j 0
get_or-set_other [] i j v ne = refl
get_or-set_other (x ∷ xs) zero zero v ne = absurd (ne refl)
get_or-set_other (x ∷ xs) zero (suc j) v ne = refl
get_or-set_other (x ∷ xs) (suc i) zero v ne = refl
get_or-set_other (x ∷ xs) (suc i) (suc j) v ne = get_or-set_other xs i j v (λ e. ne (ap suc e))

length-set : (xs : List ℕ) (i v : ℕ) → length (set xs i v) ≡ length xs
length-set [] i v = refl
length-set (x ∷ xs) zero v = refl
length-set (x ∷ xs) (suc i) v = ap suc (length-set xs i v)

get_or-replicate : (n i : ℕ) → get_or (replicate {A = ℕ} n 0) i 0 ≡ 0
get_or-replicate zero i = refl
get_or-replicate (suc n) zero = refl
get_or-replicate (suc n) (suc i) = get_or-replicate n i

module _ (pattern : List ℕ) where
  -- After `r` letters: their borders are in the table, the rest of it is unset, and `l` is the last.
  record Building (r l : ℕ) (failure : List ℕ) : Type 0 where
    pub table : IsTable pattern failure r
    pub current : IsBorder pattern r l
    pub unset : (j : ℕ) → r ≤ j → get_or failure j 0 ≡ 0

  passed :
      (r l back e : ℕ)
      → IsBorder pattern r l
      → FellBack pattern (letter pattern) r (r - l) back
      → 0 < e
      → e + back < r
      → ¬ Agrees pattern (letter pattern) (r + 1 - e) e
  passed r l back e b f pos below g = elim (dec_lt e (r - l)) [
    | no late ↦ f.skipped e (omega arith) below g
    | yes early ↦
        b.best e pos (omega arith)
          (Agrees-fewer pattern (letter pattern) (r - e) (r + 1 - e) e (omega arith) g)
  ]

  grown :
      (r l back : ℕ)
      → IsBorder pattern r l
      → FellBack pattern (letter pattern) r (r - l) back
      → back ≤ l
      → letter pattern back ≡ letter pattern r
      → IsBorder pattern (r + 1) (back + 1)
  grown r l back b f le same =
      let less = b.less in
      record {
        less = omega arith;
        agree = λ t lt. elim (ℕ_discrete t back) [
          | yes e ↦
              ap (letter pattern) e
              ∙ same
              ∙ ap (letter pattern) {x = r} {y = r + 1 - (back + 1) + t} (omega arith)
          | no ne ↦
              f.agrees t (omega arith)
              ∙ ap (letter pattern) {x = r - back + t} {y = r + 1 - (back + 1) + t} (omega arith)
        ];
        best = λ e pos below. passed r l back e b f pos (omega arith);
      }

  shrunk :
      (r l back : ℕ)
      → IsBorder pattern r l
      → FellBack pattern (letter pattern) r (r - l) back
      → letter pattern back ≢ letter pattern r
      → (back ≡ 0) × IsBorder pattern (r + 1) 0
  shrunk r l back b f other =
      let less = b.less in
      let none_left : back ≡ 0 = elim f.stops [ inl e ↦ e | inr e ↦ absurd (other e) ] in
      (
        none_left,
        record {
          less = omega arith;
          agree = λ t lt. absurd (omega arith);
          best = λ e pos below g. elim (ℕ_discrete e r) [
            | no ne ↦ passed r l back e b f pos (omega arith) g
            | yes here ↦ other (
                ap (letter pattern) none_left
                ∙ g 0 (omega arith)
                ∙ ap (letter pattern) {x = e + 0} {y = r} (omega arith))
          ];
        },
      )

  set-Building :
      (r v : ℕ) (failure : List ℕ)
      → r < length failure
      → IsTable pattern failure r
      → ((j : ℕ) → r ≤ j → get_or failure j 0 ≡ 0)
      → IsBorder pattern (r + 1) v
      → Building (r + 1) v (set failure r v)
  set-Building r v failure room table unset b = record {
    table = λ q pos le. elim (ℕ_discrete q (r + 1)) [
      | yes e ↦
          subst (λ u. IsBorder pattern u (get_or (set failure r v) (u - 1) 0)) (sym e)
            (subst (IsBorder pattern (r + 1))
              (sym (
                ap (λ u. get_or (set failure r v) u 0) {x = r + 1 - 1} {y = r} (omega arith)
                ∙ get_or-set_self failure r v room))
              b)
      | no ne ↦
          subst (IsBorder pattern q) (sym (get_or-set_other failure r (q - 1) v (λ e. omega arith)))
            (table q pos (omega arith))
    ];
    current = b;
    unset = λ j le. get_or-set_other failure r j v (λ e. omega arith) ∙ unset j (omega arith);
  }

  keep-Building :
      (r : ℕ) (failure : List ℕ)
      → IsTable pattern failure r
      → ((j : ℕ) → r ≤ j → get_or failure j 0 ≡ 0)
      → IsBorder pattern (r + 1) 0
      → Building (r + 1) 0 failure
  keep-Building r failure table unset b = record {
    table = λ q pos le. elim (ℕ_discrete q (r + 1)) [
      | yes e ↦
          subst (λ u. IsBorder pattern u (get_or failure (u - 1) 0)) (sym e)
            (subst (IsBorder pattern (r + 1)) (sym (unset (r + 1 - 1) (omega arith))) b)
      | no ne ↦ table q pos (omega arith)
    ];
    current = b;
    unset = λ j le. unset j (omega arith);
  }

  build_failure-IsTable :
      (n r l : ℕ) (failure : List ℕ)
      → n + r ≡ length failure
      → Building r l failure
      → IsTable pattern (build_failure pattern n r l failure) (n + r)
  unfolding build_failure
  build_failure-IsTable zero r l failure size b =
      subst (IsTable pattern failure) {x = r} {y = 0 + r} (omega arith) b.table
  build_failure-IsTable (suc n) r l failure size b =
      let less = b.current.less in
      let fell =
        fall_back-FellBack pattern failure (letter pattern) r r l l (r - l) b.table (omega arith)
          (omega arith) (omega arith) b.current.agree in
      let back = fall_back pattern failure (letter pattern r) l l in
      let count : n + (r + 1) ≡ suc n + r = omega arith in
      elim (ℕ_discrete (letter pattern back) (letter pattern r)) [
        | yes same ↦ rw ((==_iff (letter pattern back) (letter pattern r)).1 same) (
            subst (IsTable pattern _) count (
              build_failure-IsTable n (r + 1) (back + 1) (set failure r (back + 1))
                (omega (arith, length-set failure r (back + 1)))
                (set-Building r (back + 1) failure (omega arith) b.table b.unset
                  (grown r l back b.current fell.0 fell.1 same))))
        | no other ↦
            let small = shrunk r l back b.current fell.0 other in
            rw (≢→== (letter pattern back) (letter pattern r) other) (
              subst (IsTable pattern _) count (
                build_failure-IsTable n (r + 1) back failure (omega arith) (
                  subst (λ k. Building (r + 1) k failure) (sym small.0)
                    (keep-Building r failure b.table b.unset small.1))))
      ]

  -- For a pattern that is not empty, entry `q - 1` of the table that `ChunkKmp` builds is the length of
  -- the longest proper border of the pattern's first `q` characters.
  pub failure_of-IsTable :
      0 < length pattern → IsTable pattern (failure_of pattern) (length pattern)
  unfolding failure_of
  failure_of-IsTable pos =
      subst (IsTable pattern _) {x = length pattern - 1 + 1} {y = length pattern} (omega arith) (
        build_failure-IsTable (length pattern - 1) 1 0 (replicate (length pattern) 0)
          (omega (arith, length-replicate {A = ℕ} (length pattern) 0))
          (record {
            table = λ q p le.
                subst (IsBorder pattern q) (sym (get_or-replicate (length pattern) (q - 1)))
                  (subst (λ u. IsBorder pattern u 0) {x = 1} {y = q} (omega arith) first);
            current = first;
            unset = λ j le. get_or-replicate (length pattern) j;
          }))
    where
      first : IsBorder pattern 1 0
      first = record {
        less = omega arith;
        agree = λ t lt. absurd (omega arith);
        best = λ e p below. absurd (omega arith);
      }
