-- ===== src/Writer/Landing.antt =====
-- Where requests have addresses of their own, the order in which they land does not matter.
use plaidlaylib.Prelude.{
  ℕ, ◌<◌, ◌≡◌, refl, ◌∙◌, ◌⊎◌, inl, ◌≢◌, true, List, [], ◌∷◌, All, arith, ℕ_discrete,
}
use plaidlaylib.Disk.{FilePath, Disk, write_block_self, write_block_ne}
use plaidlaylib.Writer.{Request, land, occurs}

module _ {A : Type 0} (requests : ℕ → Request A) (n : ℕ) where
  -- The requests below `n` go to different blocks.
  abbrev pub Apart : Type 0
  Apart =
      (i j : ℕ)
      → i < n
      → j < n
      → i ≢ j
      → ((requests i).file ≢ (requests j).file) ⊎ ((requests i).offset ≢ (requests j).offset)

  abbrev pub Landed : Disk A → ℕ → Type 0
  Landed d i = d (requests i).file (requests i).offset ≡ (requests i).block

  land-keeps :
      Apart
      → (i : ℕ) → i < n
      → (order : List ℕ) (d : Disk A) → All (λ j. j < n) order
      → Landed d i
      → Landed (land requests order d) i
  unfolding land
  land-keeps apart i hi [] d h e = e
  land-keeps apart i hi (j ∷ order) d h e =
      land-keeps apart i hi order _ h.1 (elim (ℕ_discrete i j) [
        | yes same ↦
            rw same (write_block_self (requests j).file (requests j).offset (requests j).block d)
        | no other ↦
            write_block_ne (requests j).file (requests j).offset (requests j).block d _ _
              (apart i j hi h.0 other)
            ∙ e
      ])

  -- Every request that the order names is on the disk at the end.
  pub land-Landed :
      Apart
      → (i : ℕ) → i < n
      → (order : List ℕ) (d : Disk A) → All (λ j. j < n) order
      → occurs i order ≡ true
      → Landed (land requests order d) i
  unfolding land
  land-Landed apart i hi [] d h o = absurd (ground arith)
  land-Landed apart i hi (j ∷ order) d h o = elim (ℕ_discrete i j) [
    | yes same ↦
        land-keeps apart i hi order _ h.1
          (rw same (write_block_self (requests j).file (requests j).offset (requests j).block d))
    | no other ↦ land-Landed apart i hi order _ h.1 (ground arith)
  ]

  -- A file that no request names keeps its blocks.
  pub land-other :
      (f : FilePath)
      → ((i : ℕ) → i < n → f ≢ (requests i).file)
      → (order : List ℕ) (d : Disk A) → All (λ j. j < n) order
      → (a : ℕ) → land requests order d f a ≡ d f a
  unfolding land
  land-other f other [] d h a = refl
  land-other f other (j ∷ order) d h a =
      land-other f other order _ h.1 a
      ∙ write_block_ne (requests j).file (requests j).offset (requests j).block d f a
          (inl (other j h.0))
