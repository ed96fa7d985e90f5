-- ===== src/Transform/Sorted.antt =====
-- The sort of `ExternalTransform`: blocks that come in any order are put in logical order.
use mathlib.Core.List.{Permᴰ}
use mathlib.Core.List.Permᴰ
use plaidlaylib.Prelude.{
  ℕ, ◌+◌, ◌≤◌, ◌<◌, ◌≡◌, refl, sym, ap, ap₂, subst, ◌∙◌, List, [], ◌∷◌, ◌++◌, All, All-perm, arith,
  leb, Bool-cases, inl, inr, if◌then◌else◌, ◌==◌, ℕ_discrete,
}
use plaidlaylib.Chunk.{Chunk, sort_by_indices, insert_by_index}
use plaidlaylib.Transform.{Emission}

module _ {R : Type 0} where
  insert_emission : Emission R → List (Emission R) → List (Emission R)
  insert_emission e [] = e ∷ []
  insert_emission e (f ∷ fs) =
      if leb e.logical_index f.logical_index then e ∷ f ∷ fs else f ∷ insert_emission e fs

  sort_emissions : List (Emission R) → List (Emission R)
  unfolding insert_emission
  sort_emissions [] = []
  sort_emissions (e ∷ es) = insert_emission e (sort_emissions es)

  -- Logical indices grow strictly, from `k` on.
  abbrev pub Increasing : ℕ → List (Emission R) → Type 0
  Increasing k [] = Unit
  Increasing k (e ∷ es) = (k ≤ e.logical_index) × Increasing (e.logical_index + 1) es

  pub Increasing-weaken :
      (j k : ℕ) (es : List (Emission R)) → j ≤ k → Increasing k es → Increasing j es
  Increasing-weaken j k [] le h = tt
  Increasing-weaken j k (e ∷ es) le h = (omega (arith, h.0), h.1)

  pub Increasing-append :
      (j k : ℕ) (es fs : List (Emission R))
      → Increasing j es
      → All (λ (e : Emission R). e.logical_index < k) es
      → j ≤ k
      → Increasing k fs
      → Increasing j (es ++ fs)
  Increasing-append j k [] fs h below le hf = Increasing-weaken j k fs le hf
  Increasing-append j k (e ∷ es) fs h below le hf =
      (h.0, Increasing-append (e.logical_index + 1) k es fs h.1 below.1 (omega (arith, below.0)) hf)

  insert_comm :
      (e f : Emission R) (es : List (Emission R))
      → (e.logical_index ≡ f.logical_index → e ≡ f)
      → insert_emission e (insert_emission f es) ≡ insert_emission f (insert_emission e es)
  unfolding insert_emission
  insert_comm e f es same = elim (ℕ_discrete e.logical_index f.logical_index) [
    | yes eq ↦ let q = same eq in rw q refl
    | no ne ↦ apart es ne
  ]
    where
      apart :
          (gs : List (Emission R))
          → ¬ (e.logical_index ≡ f.logical_index)
          → insert_emission e (insert_emission f gs) ≡ insert_emission f (insert_emission e gs)
      apart [] ne = ground arith
      apart (g ∷ gs) ne = ground (arith, apart gs ne)

  -- An index belongs to one block.
  Keyed : (ℕ → List R) → Emission R → Type 0
  Keyed g e = e.elems ≡ g e.logical_index

  sort_emissions-perm :
      (g : ℕ → List R) {es fs : List (Emission R)}
      → Permᴰ es fs
      → All (Keyed g) es
      → sort_emissions es ≡ sort_emissions fs
  unfolding sort_emissions Keyed
  sort_emissions-perm g Permᴰ.nil h = refl
  sort_emissions-perm g (Permᴰ.cons {b} {l₁} e p) h =
      ap (λ x. insert_emission x (sort_emissions l₁)) e
      ∙ ap (insert_emission b) (sort_emissions-perm g p h.1)
  sort_emissions-perm g (Permᴰ.swap {a} {b} {a'} {l} e₁ e₂) h =
      let es = sort_emissions l in
      insert_comm a b es (λ eq.
        let content = h.0 ∙ ap g eq ∙ sym h.1.0 in
        λ i. record { elems = content i; logical_index = eq i })
      ∙ ap (λ x. insert_emission x (insert_emission a es)) e₂
      ∙ ap (λ x. insert_emission a' (insert_emission x es)) e₁
  sort_emissions-perm g (Permᴰ.trans p q) h =
      sort_emissions-perm g p h ∙ sort_emissions-perm g q (All-perm (Keyed g) p h)

  elems_at : List (Emission R) → ℕ → List R
  elems_at [] k = []
  elems_at (e ∷ es) k = if k == e.logical_index then e.elems else elems_at es k

  Increasing-Keyed :
      (k : ℕ) (es : List (Emission R)) → Increasing k es → All (Keyed (elems_at es)) es
  unfolding Keyed elems_at
  Increasing-Keyed k [] h = tt
  Increasing-Keyed k (e ∷ es) h = (
    ground arith,
    later (e.logical_index + 1) es (omega arith) h.1
        (Increasing-Keyed (e.logical_index + 1) es h.1),
  )
    where
      later :
          (j : ℕ) (fs : List (Emission R))
          → e.logical_index < j
          → Increasing j fs
          → All (Keyed (elems_at es)) fs
          → All (Keyed (elems_at (e ∷ es))) fs
      later j [] lt hf kf = tt
      later j (f ∷ fs) lt hf kf = (
        ground (arith, hf.0, kf.0),
        later (f.logical_index + 1) fs (omega (arith, hf.0)) hf.1 kf.1,
      )

  sort_emissions_of_Increasing :
      (k : ℕ) (es : List (Emission R)) → Increasing k es → sort_emissions es ≡ es
  unfolding sort_emissions insert_emission
  sort_emissions_of_Increasing k [] h = refl
  sort_emissions_of_Increasing k (e ∷ []) h = refl
  sort_emissions_of_Increasing k (e ∷ f ∷ es) h =
      rw (sort_emissions_of_Increasing (e.logical_index + 1) (f ∷ es) h.1) (ground (arith, h.1.0))

  -- Blocks in any order of increasing blocks are sorted back.
  sort_emissions_restores :
      (k : ℕ) {es fs : List (Emission R)} → Permᴰ es fs → Increasing k fs → sort_emissions es ≡ fs
  sort_emissions_restores k {es} {fs} p h =
      sym (sort_emissions-perm (elems_at fs) (Permᴰ.symm p) (Increasing-Keyed k fs h))
      ∙ sort_emissions_of_Increasing k fs h

  module _ (P : Chunk → Emission R → Type 0)
      (keys : (c : Chunk) (e : Emission R) → P c e → c.index ≡ e.logical_index) where
    -- Descriptors and blocks go together one by one.
    abbrev pub Match : List Chunk → List (Emission R) → Type 0
    Match [] [] = Unit
    Match [] (e ∷ es) = ⊥
    Match (c ∷ cs) [] = ⊥
    Match (c ∷ cs) (e ∷ es) = P c e × Match cs es

    Match-insert :
        (c : Chunk) (cs : List Chunk) (e : Emission R) (es : List (Emission R))
        → P c e
        → Match cs es
        → Match (insert_by_index c cs) (insert_emission e es)
    unfolding insert_by_index insert_emission
    Match-insert c [] e [] p m = (p, tt)
    Match-insert c [] e (f ∷ es) p m = absurd m
    Match-insert c (d ∷ cs) e [] p m = absurd m
    Match-insert c (d ∷ cs) e (f ∷ es) p m =
        elim (Bool-cases (leb e.logical_index f.logical_index)) [
          | inl le ↦ rw (ap₂ leb (keys c e p) (keys d f m.0) ∙ le, le) (p, m)
          | inr gt ↦
              rw (ap₂ leb (keys c e p) (keys d f m.0) ∙ gt, gt) (m.0, Match-insert c cs e es p m.1)
        ]

    Match-sort :
        (cs : List Chunk) (es : List (Emission R))
        → Match cs es
        → Match (sort_by_indices cs) (sort_emissions es)
    unfolding sort_by_indices sort_emissions
    Match-sort [] [] m = tt
    Match-sort [] (e ∷ es) m = absurd m
    Match-sort (c ∷ cs) [] m = absurd m
    Match-sort (c ∷ cs) (e ∷ es) m =
        Match-insert c (sort_by_indices cs) e (sort_emissions es) m.0 (Match-sort cs es m.1)

    -- The sort by index puts the descriptors in the order of the blocks' indices.
    pub Match-restored :
        (k : ℕ) (cs : List Chunk) {es fs : List (Emission R)}
        → Match cs es
        → Permᴰ es fs
        → Increasing k fs
        → Match (sort_by_indices cs) fs
    Match-restored k cs {es} m p h =
        subst (Match (sort_by_indices cs)) (sort_emissions_restores k p h) (Match-sort cs es m)
