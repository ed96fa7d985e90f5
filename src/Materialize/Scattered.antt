-- ===== src/Materialize/Scattered.antt =====
-- Buffers that are copied to places of their own, in any order.
use mathlib.Core.List.{Permᴰ}
use mathlib.Core.List.Permᴰ
use plaidlaylib.Prelude.{
  ℕ, zero, suc, ◌+◌, ◌≤◌, ◌≡◌, refl, sym, ap, ap₂, subst, ◌∙◌, ◌⊎◌, inl, inr, List, [], ◌∷◌, ◌++◌,
  append_assoc, map, All, All-perm, length, length-append, length-drop, drop, concat, get_or,
  get_or_at, replicate, length-replicate, arith,
}
use plaidlaylib.Chunk.{copy_at}
use plaidlaylib.Chunk.Read.{copy_at-append}
use plaidlaylib.Materialize.{elem_offsets, scatter_polled}

pub perm-map :
    {A B : Type 0} (f : A → B) {xs ys : List A} → Permᴰ xs ys → Permᴰ (map f xs) (map f ys)
perm-map f Permᴰ.nil = Permᴰ.nil
perm-map f (Permᴰ.cons e p) = Permᴰ.cons (ap f e) (perm-map f p)
perm-map f (Permᴰ.swap e₁ e₂) = Permᴰ.swap (ap f e₁) (ap f e₂)
perm-map f (Permᴰ.trans p q) = Permᴰ.trans (perm-map f p) (perm-map f q)

module _ {A : Type 0} where
  -- Two buffers that share no place.
  abbrev pub Clear : ℕ × List A → ℕ × List A → Type 0
  Clear p q = (p.0 + length p.1 ≤ q.0) ⊎ (q.0 + length q.1 ≤ p.0)

  abbrev pub AllClear : List (ℕ × List A) → Type 0
  AllClear [] = Unit
  AllClear (p ∷ ps) = All (Clear p) ps × AllClear ps

  copy_at-nil : (out : List A) (at : ℕ) → copy_at out at [] ≡ out
  unfolding copy_at
  copy_at-nil [] at = refl
  copy_at-nil (x ∷ out) zero = refl
  copy_at-nil (x ∷ out) (suc at) = ap (◌∷◌ x) (copy_at-nil out at)

  copy_at_comm :
      (out : List A) (i j : ℕ) (xs ys : List A)
      → i + length xs ≤ j
      → copy_at (copy_at out i xs) j ys ≡ copy_at (copy_at out j ys) i xs
  unfolding copy_at
  copy_at_comm [] i j xs ys h = refl
  copy_at_comm (a ∷ out) i j [] ys h =
      ap (λ o. copy_at o j ys) (copy_at-nil (a ∷ out) i)
      ∙ sym (copy_at-nil (copy_at (a ∷ out) j ys) i)
  copy_at_comm (a ∷ out) (suc i) zero (x ∷ xs) ys h = absurd (omega arith)
  copy_at_comm (a ∷ out) (suc i) (suc j) (x ∷ xs) ys h =
      ap (◌∷◌ a) (copy_at_comm out i j (x ∷ xs) ys (omega arith))
  copy_at_comm (a ∷ out) zero zero (x ∷ xs) ys h = absurd (omega arith)
  copy_at_comm (a ∷ out) zero (suc j) (x ∷ xs) ys h =
      ap (◌∷◌ x) (copy_at_comm out zero j xs ys (omega arith))

  scatter : List (ℕ × List A) → List A → List A
  scatter [] out = out
  scatter ((at, xs) ∷ ps) out = scatter ps (copy_at out at xs)

  copy_at-Clear :
      (p q : ℕ × List A) (out : List A)
      → Clear p q
      → copy_at (copy_at out p.0 p.1) q.0 q.1 ≡ copy_at (copy_at out q.0 q.1) p.0 p.1
  copy_at-Clear p q out (inl h) = copy_at_comm out p.0 q.0 p.1 q.1 h
  copy_at-Clear p q out (inr h) = sym (copy_at_comm out q.0 p.0 q.1 p.1 h)

  Clear-sym : (p q : ℕ × List A) → Clear p q → Clear q p
  Clear-sym p q (inl h) = inr h
  Clear-sym p q (inr h) = inl h

  AllClear-perm : {ps qs : List (ℕ × List A)} → Permᴰ ps qs → AllClear ps → AllClear qs
  AllClear-perm Permᴰ.nil s = s
  AllClear-perm (Permᴰ.cons {a} {b} {l₁} {l₂} e p) s =
      (subst (λ c. All (Clear c) l₂) e (All-perm (Clear a) p s.0), AllClear-perm p s.1)
  AllClear-perm (Permᴰ.swap {a} {b} {a'} {b'} {l = rest} e₁ e₂) s =
      let swapped : AllClear (b ∷ a ∷ rest) = ((Clear-sym a b s.0.0, s.1.0), (s.0.1, s.1.1)) in
      subst (λ c. AllClear (a' ∷ c ∷ rest)) e₁ (subst (λ c. AllClear (c ∷ a ∷ rest)) e₂ swapped)
  AllClear-perm (Permᴰ.trans p q) s = AllClear-perm q (AllClear-perm p s)

  scatter-perm :
      {ps qs : List (ℕ × List A)}
      → Permᴰ ps qs
      → AllClear ps
      → (out : List A) → scatter ps out ≡ scatter qs out
  unfolding scatter
  scatter-perm Permᴰ.nil s out = refl
  scatter-perm (Permᴰ.cons {a} {b} {l₁} {l₂} e p) s out =
      scatter-perm p s.1 (copy_at out a.0 a.1)
      ∙ ap (λ (c : ℕ × List A). scatter l₂ (copy_at out c.0 c.1)) e
  scatter-perm (Permᴰ.swap {a} {b} {a'} {b'} {l = rest} e₁ e₂) s out =
      ap (scatter rest) (copy_at-Clear a b out s.0.0)
      ∙ ap₂ (λ (c e : ℕ × List A). scatter rest (copy_at (copy_at out c.0 c.1) e.0 e.1)) e₂ e₁
  scatter-perm (Permᴰ.trans p q) s out =
      scatter-perm p s out ∙ scatter-perm q (AllClear-perm p s) out

  -- Buffers one behind the other from place `k` on.
  row : ℕ → List (List A) → List (ℕ × List A)
  row k [] = []
  row k (x ∷ xs) = (k, x) ∷ row (k + length x) xs

  row-after :
      (p : ℕ × List A) (k : ℕ) (xs : List (List A))
      → p.0 + length p.1 ≤ k
      → All (Clear p) (row k xs)
  unfolding row
  row-after p k [] h = tt
  row-after p k (x ∷ xs) h = (inl h, row-after p (k + length x) xs (omega arith))

  row-AllClear : (k : ℕ) (xs : List (List A)) → AllClear (row k xs)
  unfolding row
  row-AllClear k [] = tt
  row-AllClear k (x ∷ xs) =
      (row-after (k, x) (k + length x) xs (omega arith), row-AllClear (k + length x) xs)

  scatter-row :
      (pre rest : List A) (xs : List (List A))
      → length rest ≡ length (concat xs)
      → scatter (row (length pre) xs) (pre ++ rest) ≡ pre ++ concat xs
  unfolding scatter row
  scatter-row pre [] [] h = refl
  scatter-row pre (y ∷ rest) [] h = absurd (omega arith)
  scatter-row pre rest (x ∷ xs) h =
      let room : length rest ≡ length x + length (concat xs) =
        omega (arith, h, length-append x (concat xs)) in
      ap (scatter (row (length pre + length x) xs))
        (copy_at-append pre rest x (omega arith) ∙ sym (append_assoc pre x (drop (length x) rest)))
      ∙ ap (λ k. scatter (row k xs) ((pre ++ x) ++ drop (length x) rest))
          (sym (length-append pre x))
      ∙ scatter-row (pre ++ x) (drop (length x) rest) xs
          (omega (arith, length-drop (length x) rest))
      ∙ append_assoc pre x (concat xs)

  -- The polled buffers `k`, `k + 1`, ... stand in a row.
  abbrev pub NumberedFrom : ℕ → List (ℕ × List A) → Type 0
  NumberedFrom k [] = Unit
  NumberedFrom k (p ∷ ps) = (p.0 ≡ k) × NumberedFrom (k + 1) ps

  abbrev pub sizes_of : List (ℕ × List A) → List ℕ
  sizes_of ps = map (λ p. length p.1) ps

  polled-scatter :
      (offsets : List ℕ) (ps : List (ℕ × List A)) (out : List A)
      → scatter_polled offsets ps out ≡ scatter (map (λ p. (get_or offsets p.0 0, p.1)) ps) out
  unfolding scatter_polled scatter
  polled-scatter offsets [] out = refl
  polled-scatter offsets (p ∷ ps) out =
      polled-scatter offsets ps (copy_at out (get_or offsets p.0 0) p.1)

  -- The last entry is the length of all buffers.
  pub offsets-total :
      (acc : ℕ) (ps : List (ℕ × List A))
      → get_or (elem_offsets acc (sizes_of ps)) (length ps) 0
        ≡ acc + length (concat (map (λ p. p.1) ps))
  unfolding elem_offsets
  offsets-total acc [] = omega arith
  offsets-total acc (p ∷ ps) = omega (
    arith,
    offsets-total (acc + length p.1) ps,
    length-append p.1 (concat (map (λ (q : ℕ × List A). q.1) ps)),
  )

  placed-row :
      (pre : List ℕ) (acc : ℕ) (ps : List (ℕ × List A))
      → NumberedFrom (length pre) ps
      → map (λ p. (get_or (pre ++ elem_offsets acc (sizes_of ps)) p.0 0, p.1)) ps
        ≡ row acc (map (λ p. p.1) ps)
  unfolding elem_offsets row
  placed-row pre acc [] h = refl
  placed-row pre acc (p ∷ ps) h =
      let later = elem_offsets (acc + length p.1) (sizes_of ps) in
      let here : get_or (pre ++ (acc ∷ later)) p.0 0 ≡ acc =
        ap (λ i. get_or (pre ++ (acc ∷ later)) i 0) h.0 ∙ get_or_at pre later 0 acc in
      ap₂ ◌∷◌ (ap (λ (k : ℕ). (k, p.1)) here) (
        ap (λ (offs : List ℕ). map (λ (q : ℕ × List A). (get_or offs q.0 0, q.1)) ps)
          (sym (append_assoc pre (acc ∷ []) later))
        ∙ placed-row (pre ++ (acc ∷ [])) (acc + length p.1) ps (
            subst (λ k. NumberedFrom k ps) {x = length pre + 1} {y = length (pre ++ (acc ∷ []))}
              (omega (arith, length-append pre (acc ∷ []))) h.1))

  -- Whatever the order, the numbered buffers are copied one behind the other.
  pub scatter_polled-row :
      (zero_elem : A) (size : ℕ) (ps polled : List (ℕ × List A))
      → NumberedFrom 0 ps
      → Permᴰ polled ps
      → size ≡ length (concat (map (λ p. p.1) ps))
      → scatter_polled (elem_offsets 0 (sizes_of ps)) polled (replicate size zero_elem)
        ≡ concat (map (λ p. p.1) ps)
  scatter_polled-row zero_elem size ps polled h p e =
      let offsets = elem_offsets 0 (sizes_of ps) in
      let place : ℕ × List A → ℕ × List A = λ q. (get_or offsets q.0 0, q.1) in
      let values = map (λ (q : ℕ × List A). q.1) ps in
      let out = replicate size zero_elem in
      let rowed = placed-row [] 0 ps h in
      polled-scatter offsets polled out
      ∙ sym (
          scatter-perm (perm-map place (Permᴰ.symm p))
            (subst AllClear (sym rowed) (row-AllClear 0 values)) out)
      ∙ ap (λ qs. scatter qs out) rowed
      ∙ scatter-row [] out values (length-replicate size zero_elem ∙ e)
