-- ===== src/Transform/Blocks.antt =====
-- The do/while loop of the bodies of `ChunkMap` and `ChunkScan`.
use plaidlaylib.Prelude.{
  ℕ, zero, suc, ◌+◌, ◌*◌, ◌≤◌, ◌<◌, min, ◌≡◌, sym, ap, subst, ◌∙◌, List, [], ◌∷◌, ◌++◌, All, length,
  take, drop, concat, append-nil, length-append, take-append-drop, take_all, length-take,
  length-drop, ℕ_discrete, ==_iff, ≢→==, arith,
}
use plaidlaylib.Transform.{Emission, emit_blocks}
use plaidlaylib.Transform.Sorted.{Increasing}
use plaidlaylib.Transform.Emitted.{blocks_of}

-- A step that fills what follows with what it hands on, element for element.
pub record IsStreaming {T R A : Type 0} (step : A → List T → List R × A) : Type 0 where
  pub append :
      (acc : A) (xs ys : List T)
      → (step acc (xs ++ ys)).0 ≡ (step acc xs).0 ++ (step (step acc xs).1 ys).0
  pub size : (acc : A) (xs : List T) → length (step acc xs).0 ≡ length xs

module _ {T R A : Type 0} (cap : ℕ) (step : A → List T → List R × A) (base : ℕ) where
  -- The blocks of an input: full ones, and a last one that may be short.
  pub data Blocks : ℕ → A → List T → List (Emission R) → Type 0 where
    last :
        {sub : ℕ} {acc : A} {input : List T}
        → length input ≤ cap
        → Blocks sub acc input
            (record { elems = (step acc input).0; logical_index = base + sub } ∷ [])
    more :
        {sub : ℕ} {acc : A} {xs ys : List T} {es : List (Emission R)}
        → length xs ≡ cap
        → 0 < length ys
        → Blocks (sub + 1) (step acc xs).1 ys es
        → Blocks sub acc
            (xs ++ ys)
            (record { elems = (step acc xs).0; logical_index = base + sub } ∷ es)

  -- The loop has fuel enough, and cuts its input into blocks.
  pub emit_blocks-Blocks :
      0 < cap
      → (fuel sub : ℕ) (acc : A) (input : List T) → length input < fuel
      → Blocks sub acc input (emit_blocks cap step fuel base sub acc input)
  unfolding emit_blocks
  emit_blocks-Blocks pos zero sub acc input lt = absurd (omega arith)
  emit_blocks-Blocks pos (suc fuel) sub acc input lt =
      let cnt = min cap (length input) in
      let left = length-drop cnt input in
      let taken = length-take cnt input in
      elim (ℕ_discrete (length (drop cnt input)) 0) [
        | yes e ↦
            let whole : take cnt input ≡ input = take_all cnt input (omega (arith, left)) in
            rw ((==_iff (length (drop cnt input)) 0).1 e) (rw whole (last (omega (arith, left))))
        | no ne ↦
            let rest =
              emit_blocks-Blocks pos fuel (sub + 1) (step acc (take cnt input)).1 (drop cnt input)
                (omega (arith, left)) in
            rw (≢→== (length (drop cnt input)) 0 ne) (
              subst
                (λ xs. Blocks sub acc xs (
                  record { elems = (step acc (take cnt input)).0; logical_index = base + sub }
                  ∷ emit_blocks cap step fuel base (sub + 1) (step acc (take cnt input)).1
                      (drop cnt input)))
                (take-append-drop cnt input) (more (omega (arith, left, taken)) (omega arith) rest))
      ]

  pub Blocks-Increasing :
      {sub : ℕ} {acc : A} {input : List T} {es : List (Emission R)}
      → Blocks sub acc input es
      → Increasing (base + sub) es
  Blocks-Increasing (last h) = (omega arith, tt)
  Blocks-Increasing (more {sub} {es} h p b) = (
    omega arith,
    subst (λ k. Increasing k es) {x = base + (sub + 1)} {y = base + sub + 1} (omega arith)
        (Blocks-Increasing b),
  )

  -- An input of at most `j` blocks' elements makes at most `j` blocks.
  pub Blocks-count :
      (j : ℕ) {sub : ℕ} {acc : A} {input : List T} {es : List (Emission R)}
      → 0 < j
      → length input ≤ j * cap
      → Blocks sub acc input es
      → (length es ≤ j) × All (λ (e : Emission R). e.logical_index < base + sub + j) es
  Blocks-count j pos le (last h) = (omega arith, (omega arith, tt))
  Blocks-count zero pos le (more h p b) = absurd (omega arith)
  Blocks-count (suc j) pos le (more {sub} {xs} {ys} {es} h p b) =
      let size = length-append xs ys in
      let fewer : length ys ≤ j * cap = grind arith in
      let j_pos : 0 < j =
        elim j as (λ k. length ys ≤ k * cap → 0 < k) [
          | zero ↦ λ f. absurd (grind arith)
          | suc k ↦ λ f. omega arith
        ]
          fewer in
      let rest = Blocks-count j j_pos fewer b in
      (
        omega (arith, rest.0),
        (
          omega arith,
          subst (λ k. All (λ (e : Emission R). e.logical_index < k) es) {x = base + (sub + 1) + j}
              {y = base + sub + suc j} (omega arith) rest.1,
        ),
      )

  module _ (s : IsStreaming step) where
    pub Blocks-concat :
        {sub : ℕ} {acc : A} {input : List T} {es : List (Emission R)}
        → Blocks sub acc input es
        → concat (blocks_of es) ≡ (step acc input).0
    Blocks-concat (last {acc} {input} h) = append-nil _
    Blocks-concat (more {acc} {xs} {ys} h p b) =
        ap (◌++◌ (step acc xs).0) (Blocks-concat b) ∙ sym (s.append acc xs ys)

    pub Blocks-short :
        {sub : ℕ} {acc : A} {input : List T} {es : List (Emission R)}
        → Blocks sub acc input es
        → All (λ (e : Emission R). length e.elems ≤ cap) es
    Blocks-short (last {acc} {input} h) = (omega (arith, s.size acc input), tt)
    Blocks-short (more {acc} {xs} h p b) = (omega (arith, s.size acc xs), Blocks-short b)

    -- An input of a whole number of blocks fills them all.
    pub Blocks-full :
        (j : ℕ) {sub : ℕ} {acc : A} {input : List T} {es : List (Emission R)}
        → 0 < cap
        → 0 < j
        → length input ≡ j * cap
        → Blocks sub acc input es
        → All (λ b. length b ≡ cap) (blocks_of es)
    Blocks-full (suc zero) some_room pos e (last {acc} {input} h) =
        (omega (arith, s.size acc input), tt)
    Blocks-full (suc (suc j)) some_room pos e (last h) = absurd (grind arith)
    Blocks-full zero some_room pos e b = absurd (omega arith)
    Blocks-full (suc j) some_room pos e (more {acc} {xs} {ys} h p b) =
        let size = length-append xs ys in
        let fewer : length ys ≡ j * cap = grind arith in
        let j_pos : 0 < j =
          elim j as (λ k. length ys ≡ k * cap → 0 < k) [
            | zero ↦ λ f. absurd (grind arith)
            | suc k ↦ λ f. omega arith
          ]
            fewer in
        (s.size acc xs ∙ h, Blocks-full j some_room j_pos fewer b)
