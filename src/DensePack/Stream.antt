-- ===== src/DensePack/Stream.antt =====
-- What the workers hand each chunk's body: the chunk, its position, and the head of what follows.
use plaidlaylib.Prelude.{
  ℕ, zero, suc, ◌+◌, ◌≤◌, min, ◌≡◌, refl, sym, ap, ap₂, ◌∙◌, List, [], ◌∷◌, ◌++◌, length, take,
  arith, All, concat, lt→ltb, append-nil, length-take,
}
use plaidlaylib.Layout.{Layout, IsLayout, epc}
use plaidlaylib.Disk.{Disk}
use plaidlaylib.Chunk.{Chunk, count, contents, read_chunk, IsDense, IsStored}
use plaidlaylib.DensePack.{halo_of, compute_runs}

module _ {A : Type 0} where
  All-append_right : (P : A → Type 0) (xs ys : List A) → All P (xs ++ ys) → All P ys
  All-append_right P [] ys h = h
  All-append_right P (x ∷ xs) ys h = All-append_right P xs ys h.1

  pub All_trivial : (xs : List A) → All {0, 0} (λ x. Unit) xs
  All_trivial [] = tt
  All_trivial (x ∷ xs) = (tt, All_trivial xs)

  pub take-take : (m n : ℕ) (xs : List A) → m ≤ n → take m (take n xs) ≡ take m xs
  take-take zero n xs h = refl
  take-take (suc m) zero xs h = absurd (omega arith)
  take-take (suc m) (suc n) [] h = refl
  take-take (suc m) (suc n) (x ∷ xs) h = ap (◌∷◌ x) (take-take m n xs (omega arith))

  pub take-append_le : (n : ℕ) (xs ys : List A) → n ≤ length xs → take n (xs ++ ys) ≡ take n xs
  take-append_le zero xs ys h = refl
  take-append_le (suc n) [] ys h = absurd (omega arith)
  take-append_le (suc n) (x ∷ xs) ys h = ap (◌∷◌ x) (take-append_le n xs ys (omega arith))

  take-nil : (n : ℕ) → take {A = A} n [] ≡ []
  take-nil zero = refl
  take-nil (suc n) = refl

  take-min : (a b : ℕ) (xs : List A) → take (min a b) xs ≡ take a (take b xs)
  take-min zero b xs = ap (λ k. take k xs) {x = min 0 b} {y = 0} (omega arith)
  take-min (suc a) zero xs = ap (λ k. take k xs) {x = min (suc a) 0} {y = 0} (omega arith)
  take-min (suc a) (suc b) [] = take-nil (min (suc a) (suc b))
  take-min (suc a) (suc b) (x ∷ xs) =
      ap (λ k. take k (x ∷ xs)) {x = min (suc a) (suc b)} {y = suc (min a b)} (omega arith)
      ∙ ap (◌∷◌ x) (take-min a b xs)

module _ (lt : Layout) (w : IsLayout lt) {T : Type 0} (d : Disk T) where
  -- The forward halo is the head of the rest of the sequence: one neighbour is enough, since the
  -- halo is no longer than a chunk.
  pub halo_of-take :
      (halo : ℕ) (cs : List Chunk)
      → halo ≤ epc lt
      → IsDense lt cs
      → IsStored lt d cs
      → halo_of lt d halo cs ≡ take halo (contents lt d cs)
  unfolding halo_of
  halo_of-take halo [] h dense stored = sym (take-nil halo)
  halo_of-take zero (c ∷ cs) h dense stored = refl
  halo_of-take (suc halo) (c ∷ []) h dense stored = rw (lt→ltb 0 (suc halo) (omega arith)) (
      take-min (suc halo) (count lt c) (d c.filename c.begin_addr)
      ∙ ap (take (suc halo)) (sym (append-nil (read_chunk lt d c))))
  halo_of-take (suc halo) (c ∷ e ∷ cs) h dense stored = rw (lt→ltb 0 (suc halo) (omega arith)) (
      take-min (suc halo) (count lt c) (d c.filename c.begin_addr)
      ∙ sym (
          take-append_le (suc halo) (read_chunk lt d c) (contents lt d (e ∷ cs)) (
            omega
              (arith, length-take (count lt c) (d c.filename c.begin_addr), dense.1, stored.0))))

  -- A search that may look `halo` elements ahead: its hits in a chunk, given what follows.
  -- `Ok` is what the elements of the text have in common.
  module _ {R : Type 0} (Ok : T → Type 0) (halo : ℕ) (body : List T → ℕ → List T → List R)
      (hits : List T → ℕ → List T → List R) where
    -- The body finds the hits that start in its chunk, having seen only the halo.
    abbrev pub IsLocal : Type 0
    IsLocal =
        (xs : List T) (pos : ℕ) (rest : List T)
        → length xs ≤ epc lt
        → All Ok (xs ++ rest)
        → body xs pos (take halo rest) ≡ hits xs pos rest

    -- The hits of the parts make up the hits of the whole.
    abbrev pub IsAdditive : Type 0
    IsAdditive =
        (xs ys : List T) (pos : ℕ) (rest : List T)
        → hits (xs ++ ys) pos rest ≡ hits xs pos (ys ++ rest) ++ hits ys (pos + length xs) rest

    IsDense-tail :
        (c : Chunk) (cs : List Chunk) → IsDense lt (c ∷ cs) → (count lt c ≤ epc lt) × IsDense lt cs
    IsDense-tail c [] h = (h.1, tt)
    IsDense-tail c (e ∷ cs) h = (omega (arith, h.1), h.2)

    -- Chunk by chunk, each with its halo, the bodies find the hits of the whole sequence.
    pub compute_runs-hits :
        halo ≤ epc lt
        → IsLocal
        → IsAdditive
        → ((pos : ℕ) → hits [] pos [] ≡ [])
        → (pos : ℕ) (seq : List Chunk) → IsDense lt seq
        → IsStored lt d seq
        → All Ok (contents lt d seq)
        → concat (compute_runs lt d halo body pos seq) ≡ hits (contents lt d seq) pos []
    unfolding compute_runs
    compute_runs-hits hh loc add none_left pos [] dense stored ok = sym (none_left pos)
    compute_runs-hits hh loc add none_left pos (c ∷ cs) dense stored ok =
        let tail = IsDense-tail c cs dense in
        let size : length (read_chunk lt d c) ≡ count lt c =
          omega (arith, length-take (count lt c) (d c.filename c.begin_addr), stored.0, tail.0) in
        ap₂ ◌++◌
          (ap (body (read_chunk lt d c) pos) (halo_of-take halo cs hh tail.1 stored.1)
            ∙ loc (read_chunk lt d c) pos (contents lt d cs) (omega (arith, size, tail.0)) ok)
          (compute_runs-hits hh loc add none_left (pos + count lt c) cs tail.1 stored.1
            (All-append_right Ok (read_chunk lt d c) (contents lt d cs) ok))
        ∙ ap₂
            (λ (xs : List T) n.
              hits (read_chunk lt d c) pos xs ++ hits (contents lt d cs) (pos + n) [])
            (sym (append-nil (contents lt d cs))) (sym size)
        ∙ sym (add (read_chunk lt d c) (contents lt d cs) pos [])
