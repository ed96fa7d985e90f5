-- ===== src/FindIf/First.antt =====
-- `ChunkFindIf` returns the first match.
use mathlib.Core.List.{Permᴰ}
use plaidlaylib.Prelude.{
  ℕ, suc, ◌+◌, ◌*◌, ◌≤◌, ◌<◌, min, ◌≡◌, refl, sym, ap, ap₂, subst, append-nil, ◌∙◌, Bool,
  Bool-cases, inl, inr, List, [], ◌∷◌, ◌++◌, map, All, length, length-append, concat, ◌==◌, dec_lt,
  if◌then◌else◌, arith,
}
use plaidlaylib.Layout.{Layout, IsLayout, epc}
use plaidlaylib.Disk.{Disk}
use plaidlaylib.Chunk.{Chunk, ChunkSeq, IndexedFrom, IsDense, IsWellFormed, read_chunk, contents}
use plaidlaylib.Chunk.Read.{Reads, Reads-all}
use plaidlaylib.Reduce.{remove_worker}
use plaidlaylib.FindIf.{scan_for, find_worker, sum_used, least, chunk_find_if}

-- The place of the first match, the length where there is none.
pub find_index : {A : Type 0} → (A → Bool) → List A → ℕ
find_index pred [] = 0
find_index pred (x ∷ xs) = let rest = find_index pred xs in if pred x then 0 else suc rest

module _ (l : Layout) (w : IsLayout l) {A : Type 0} (pred : A → Bool) (d : Disk A) where
  find_index-le : (xs : List A) → find_index pred xs ≤ length xs
  unfolding find_index
  find_index-le [] = omega arith
  find_index-le (x ∷ xs) = ground (arith, find_index-le xs)

  find_index-append :
      (xs ys : List A)
      → (find_index pred xs < length xs → find_index pred (xs ++ ys) ≡ find_index pred xs)
        × (find_index pred xs ≡ length xs
            → find_index pred (xs ++ ys) ≡ length xs + find_index pred ys)
  unfolding find_index
  find_index-append [] ys = (λ h. absurd (omega arith), λ h. omega arith)
  find_index-append (x ∷ xs) ys = elim (Bool-cases (pred x)) [
    | inl here ↦ rw here (λ h. refl, λ h. absurd (omega arith))
    | inr not_here ↦ rw not_here (
        let rest = find_index-append xs ys in
        (λ h. ap suc (rest.0 (omega arith)), λ h. omega (arith, rest.1 (omega arith))))
  ]

  -- The candidate of a buffer at index `idx`, none being `best`.
  abbrev candidate : ℕ → ℕ → ℕ → List A → ℕ
  candidate best idx j xs =
      if find_index pred xs == length xs
      then best
      else min best (idx * epc l + (j + find_index pred xs))

  scan_for-candidate :
      (best idx j : ℕ) (xs : List A) → scan_for l pred best idx j xs ≡ candidate best idx j xs
  unfolding scan_for find_index
  scan_for-candidate best idx j [] = refl
  scan_for-candidate best idx j (x ∷ xs) = elim (Bool-cases (pred x)) [
    | inl here ↦ rw here (ground arith)
    | inr not_here ↦ rw not_here (ground (arith, scan_for-candidate best idx (j + 1) xs))
  ]

  candidate-best :
      (n best idx : ℕ) (xs : List A)
      → best ≤ n
      → (candidate best idx 0 xs ≡ min best (candidate n idx 0 xs))
        × (candidate best idx 0 xs ≤ best)
  candidate-best n best idx xs h = ground arith

  -- The least candidate of the chunks, `n` if there is none.
  least_of : ℕ → List Chunk → ℕ
  least_of n [] = n
  least_of n (c ∷ cs) = min (candidate n c.index 0 (read_chunk l d c)) (least_of n cs)

  least_of-le : (n : ℕ) (cs : List Chunk) → least_of n cs ≤ n
  unfolding least_of
  least_of-le n [] = omega arith
  least_of-le n (c ∷ cs) = omega (arith, least_of-le n cs)

  find_worker-least :
      (n best : ℕ) (cs : List Chunk)
      → best ≤ n
      → find_worker l pred d best cs ≡ min best (least_of n cs)
  unfolding find_worker least_of
  find_worker-least n best [] h = omega arith
  find_worker-least n best (c ∷ cs) h =
      let here = candidate-best n best c.index (read_chunk l d c) h in
      let found = scan_for-candidate best c.index 0 (read_chunk l d c) in
      omega (
        arith,
        find_worker-least n (scan_for l pred best c.index 0 (read_chunk l d c)) cs
            (omega (arith, found, here.1)),
        found,
        here.0,
      )

  least_of-append :
      (n : ℕ) (cs es : List Chunk) → least_of n (cs ++ es) ≡ min (least_of n cs) (least_of n es)
  unfolding least_of
  least_of-append n [] es = omega (arith, least_of-le n es)
  least_of-append n (c ∷ cs) es = omega (arith, least_of-append n cs es)

  least_of-perm : (n : ℕ) {cs es : List Chunk} → Permᴰ cs es → least_of n cs ≡ least_of n es
  unfolding least_of
  least_of-perm n Permᴰ.nil = refl
  least_of-perm n (Permᴰ.cons e p) =
      ap₂ min (ap (λ (c : Chunk). candidate n c.index 0 (read_chunk l d c)) e) (least_of-perm n p)
  least_of-perm n (Permᴰ.swap e₁ e₂) =
      let part = λ (c : Chunk). candidate n c.index 0 (read_chunk l d c) in
      omega (arith, ap part e₁, ap part e₂)
  least_of-perm n (Permᴰ.trans p q) = least_of-perm n p ∙ least_of-perm n q

  least-locals :
      (n result : ℕ) (polled : List (List Chunk))
      → result ≤ n
      → least l pred result (map (find_worker l pred d n) polled)
        ≡ min result (least_of n (concat polled))
  unfolding least least_of
  least-locals n result [] h = omega arith
  least-locals n result (cs ∷ polled) h = omega (
    arith,
    least-locals n (min result (find_worker l pred d n cs)) polled (omega arith),
    find_worker-least n n cs (omega arith),
    least_of-append n cs (concat polled),
    least_of-le n cs,
  )

  sum_used-length :
      (seq : ChunkSeq) → All (Reads l w d) seq → sum_used l pred seq ≡ length (contents l d seq)
  unfolding sum_used
  sum_used-length [] r = refl
  sum_used-length (c ∷ cs) r =
      omega
        (arith, sum_used-length cs r.1, r.0.0, length-append (read_chunk l d c) (contents l d cs))

  -- The place of the first match of a list that stands at index `k`, `n` if there is none.
  abbrev first_at : ℕ → ℕ → List A → ℕ
  first_at n k xs = if find_index pred xs == length xs then n else k * epc l + find_index pred xs

  first_at-nil :
      (n k : ℕ) (xs : List A)
      → k * epc l + length xs ≤ n
      → min (candidate n k 0 xs) n ≡ first_at n k xs
  first_at-nil n k xs room = ground (arith, find_index-le xs)

  least-places :
      (n here next fx lx fy ly fxy lxy : ℕ)
      → fx ≤ lx
      → fy ≤ ly
      → lxy ≡ lx + ly
      → next ≡ here + lx
      → here + lxy ≤ n
      → (fx < lx → fxy ≡ fx) × (fx ≡ lx → fxy ≡ lx + fy)
      → min (if fx == lx then n else min n (here + (0 + fx))) (if fy == ly then n else next + fy)
        ≡ (if fxy == lxy then n else here + fxy)
  least-places n here next fx lx fy ly fxy lxy hx hy both after room joined = elim (dec_lt fx lx) [
    | yes found ↦ let same = joined.0 found in ground arith
    | no none ↦ let later = joined.1 (omega arith) in ground arith
  ]

  first_at-append :
      (n k : ℕ) (xs ys : List A)
      → length xs ≡ epc l
      → k * epc l + length (xs ++ ys) ≤ n
      → min (candidate n k 0 xs) (first_at n (k + 1) ys) ≡ first_at n k (xs ++ ys)
  first_at-append n k xs ys full room =
      least-places n (k * epc l) ((k + 1) * epc l) (find_index pred xs) (length xs)
        (find_index pred ys) (length ys) (find_index pred (xs ++ ys)) (length (xs ++ ys))
        (find_index-le xs) (find_index-le ys) (length-append xs ys) (grind (arith, full)) room
        (find_index-append xs ys)

  least_of-first :
      (n k : ℕ) (cs : ChunkSeq)
      → IndexedFrom k cs
      → IsDense l cs
      → All (Reads l w d) cs
      → k * epc l + length (contents l d cs) ≤ n
      → least_of n cs ≡ first_at n k (contents l d cs)
  unfolding least_of find_index
  least_of-first n k [] i h r room = refl
  least_of-first n k (c ∷ []) i h r room =
      let index = λ (m : ℕ). candidate n m 0 (read_chunk l d c) in
      ap (λ (m : ℕ). min m n) (ap index i.0)
      ∙ first_at-nil n k (read_chunk l d c)
          (subst (λ (xs : List A). k * epc l + length xs ≤ n) (append-nil (read_chunk l d c)) room)
      ∙ ap (first_at n k) (sym (append-nil (read_chunk l d c)))
  least_of-first n k (c ∷ b ∷ cs) i h r room =
      let index = λ (m : ℕ). candidate n m 0 (read_chunk l d c) in
      let full : length (read_chunk l d c) ≡ epc l = omega (arith, r.0.0, h.1) in
      let here : k * epc l + length (read_chunk l d c ++ contents l d (b ∷ cs)) ≤ n = room in
      let next : (k + 1) * epc l + length (contents l d (b ∷ cs)) ≤ n =
        grind (arith, full, here, length-append (read_chunk l d c) (contents l d (b ∷ cs))) in
      ap₂ min (ap index i.0) (least_of-first n (k + 1) (b ∷ cs) i.1 h.2 r.1 next)
      ∙ first_at-append n k (read_chunk l d c) (contents l d (b ∷ cs)) full here

  -- `ChunkFindIf` of a well-formed sequence returns the place of the first element that satisfies
  -- the predicate, the length of the sequence if no element does, however its chunks are
  -- distributed over the workers.
  pub chunk_find_if-first :
      (seq : ChunkSeq) (polled : List (List Chunk))
      → IsWellFormed l d seq
      → Permᴰ (concat polled) seq
      → chunk_find_if l pred d seq polled ≡ find_index pred (contents l d seq)
  unfolding chunk_find_if remove_worker find_index
  chunk_find_if-first seq polled v p =
      let reads = Reads-all l w d seq v.dense v.stored in
      let n = length (contents l d seq) in
      let total = sum_used-length seq reads in
      let first =
        least_of-perm n p ∙ least_of-first n 0 seq v.indexed v.dense reads (omega arith) in
      let bound = find_index-le (contents l d seq) in
      let locals = least-locals n n polled (omega arith) in
      let small = least_of-le n (concat polled) in rw (total) (ground arith)
