-- ===== src/Placement/Slots.antt =====
-- Each chunk has a slot of its own, inside its drive's file.
use plaidlaylib.Prelude.{
  ℕ, zero, suc, ◌+◌, ◌≤◌, ◌<◌, ◌≡◌, sym, ◌∙◌, ◌≢◌, List, [], ◌∷◌, ◌++◌, ◌==◌, ltb, ◌&&◌,
  if◌then◌else◌, arith, length, length-append, ap, subst, ℕ_discrete, dec_lt, ◌-◌,
}
use native.Mathlib.Nat.{le_of_eq}
use plaidlaylib.Placement.{drive_chunks, assign_slots, slot_table}

assign_slots-snoc :
    (xs : List ℕ) (k s : ℕ) (t : ℕ → ℕ) (i : ℕ)
    → assign_slots (xs ++ (k ∷ [])) s t i
      ≡ (if i == k then s + length xs else assign_slots xs s t i)
unfolding assign_slots
assign_slots-snoc [] k s t i = ground arith
assign_slots-snoc (x ∷ xs) k s t i =
    ground (arith, assign_slots-snoc xs k (s + 1) (λ j. if j == x then s else t j) i)

assign_slots-nil :
    (drive_of : ℕ → ℕ) (t : ℕ → ℕ) (i d : ℕ)
    → assign_slots [] 0 t i
      ≡ (if ltb i 0 && drive_of i == d then length (drive_chunks drive_of i d) else t i)
unfolding assign_slots
assign_slots-nil drive_of t i d = ground arith

module _ (drive_of : ℕ → ℕ) where
  pub length-drive_chunks_step :
      (n d : ℕ)
      → length (drive_chunks drive_of (suc n) d)
        ≡ length (drive_chunks drive_of n d) + (if drive_of n == d then 1 else 0)
  unfolding drive_chunks
  length-drive_chunks_step n d = ground (arith, length-append (drive_chunks drive_of n d) (n ∷ []))

  -- The slots of one drive are the ranks of its chunks, and other chunks keep theirs.
  assign_slots-rank :
      (n d : ℕ) (t : ℕ → ℕ) (i : ℕ)
      → assign_slots (drive_chunks drive_of n d) 0 t i
        ≡ (if ltb i n && drive_of i == d then length (drive_chunks drive_of i d) else t i)
  unfolding drive_chunks
  assign_slots-rank zero d t i = assign_slots-nil drive_of t i d
  assign_slots-rank (suc n) d t i =
      ground
        (arith, assign_slots-snoc (drive_chunks drive_of n d) n 0 t i, assign_slots-rank n d t i)

  slot_table-rank :
      (n k i : ℕ)
      → i < n
      → drive_of i < k
      → slot_table drive_of n k i ≡ length (drive_chunks drive_of i (drive_of i))
  unfolding slot_table
  slot_table-rank n zero i h lt = absurd (omega arith)
  slot_table-rank n (suc k) i h lt = elim (ℕ_discrete (drive_of i) k) [
    | yes here ↦ ground (arith, assign_slots-rank n k (slot_table drive_of n k) i)
    | no other ↦
        ground (arith, assign_slots-rank n k (slot_table drive_of n k) i, slot_table-rank n k i h)
  ]

  length-drive_chunks_mono :
      (d i j : ℕ) → length (drive_chunks drive_of i d) ≤ length (drive_chunks drive_of (i + j) d)
  length-drive_chunks_mono d i zero =
      le_of_eq (ap (λ n. length (drive_chunks drive_of n d)) (omega arith))
  length-drive_chunks_mono d i (suc j) =
      let e : i + suc j ≡ suc (i + j) = omega arith in
      rw e (omega (arith, length-drive_chunks_mono d i j, length-drive_chunks_step (i + j) d))

  pub rank-lt :
      (i j : ℕ)
      → i < j
      → length (drive_chunks drive_of i (drive_of i))
        < length (drive_chunks drive_of j (drive_of i))
  rank-lt i j h =
      let e : suc i + (j - suc i) ≡ j = omega arith in
      let later = length-drive_chunks_mono (drive_of i) (suc i) (j - suc i) in
      let here : length (drive_chunks drive_of (suc i) (drive_of i))
          ≡ length (drive_chunks drive_of i (drive_of i)) + 1 =
        ground (arith, length-drive_chunks_step i (drive_of i)) in
      omega (
        arith,
        here,
        subst
            (λ n.
              length (drive_chunks drive_of (suc i) (drive_of i))
              ≤ length (drive_chunks drive_of n (drive_of i)))
            e later,
      )

  -- Two chunks on one drive have different ranks there.
  pub ranks_distinct :
      (i j : ℕ)
      → i ≢ j
      → drive_of i ≡ drive_of j
      → length (drive_chunks drive_of i (drive_of i))
        ≢ length (drive_chunks drive_of j (drive_of j))
  ranks_distinct i j ne e same =
      let equal : length (drive_chunks drive_of i (drive_of i))
          ≡ length (drive_chunks drive_of j (drive_of i)) =
        same ∙ ap (λ d. length (drive_chunks drive_of j d)) (sym e) in
      elim (dec_lt i j) [
        | yes below ↦ absurd (omega (arith, equal, rank-lt i j below))
        | no above ↦ absurd (
            omega (
              arith,
              equal,
              subst (λ d. length (drive_chunks drive_of j d) < length (drive_chunks drive_of i d))
                  (sym e) (rank-lt j i (omega arith)),
            ))
      ]

  -- Of `n` chunks, two different ones on the same of `k` drives have different slots.
  pub slots_distinct :
      (n k i j : ℕ)
      → i < n
      → j < n
      → drive_of i < k
      → drive_of i ≡ drive_of j
      → i ≢ j
      → slot_table drive_of n k i ≢ slot_table drive_of n k j
  slots_distinct n k i j hi hj hk e ne same = ranks_distinct i j ne e (
      sym (slot_table-rank n k i hi hk) ∙ same ∙ slot_table-rank n k j hj (subst (λ d. d < k) e hk))

  -- Of `n` chunks on `k` drives, each has a slot below the number of chunks on its drive, which is
  -- the number of slots that its file is allocated with.
  pub slot_in_file :
      (n k i : ℕ)
      → i < n
      → drive_of i < k
      → slot_table drive_of n k i < length (drive_chunks drive_of n (drive_of i))
  slot_in_file n k i hi hk = rw (slot_table-rank n k i hi hk) (rank-lt i n hi)
