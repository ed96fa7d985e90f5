-- ===== src/Histogram/Counted.antt =====
-- The histograms count the elements of each bucket.
use mathlib.Core.List.{Permᴰ}
use plaidlaylib.Prelude.{
  ℕ, zero, suc, ◌+◌, ◌<◌, ◌≡◌, refl, sym, ap, ap₂, subst, ◌∙◌, some, ◌>>=◌, List, [], ◌∷◌, ◌++◌,
  map, All, ◌==◌, lt→ltb, if◌then◌else◌, get_or, set, replicate, concat, tabulate_from,
  tabulate_from_ext, arith,
}
use plaidlaylib.Layout.{Layout}
use plaidlaylib.Disk.{Disk}
use plaidlaylib.Chunk.{Chunk, ChunkSeq, read_chunk, contents}
use plaidlaylib.Reindex.Contents.{contents-append}
use plaidlaylib.Histogram.{
  increment_at, add_counts, count_keys, key_worker, sum_locals, chunk_histogram_by_key,
}

-- The elements with key `j`.
pub count_key : {A : Type 0} → (A → ℕ) → ℕ → List A → ℕ
count_key key j [] = 0
count_key key j (x ∷ xs) = (if key x == j then 1 else 0) + count_key key j xs

module _ {A : Type 0} (key : A → ℕ) where
  count_key-append :
      (j : ℕ) (xs ys : List A)
      → count_key key j (xs ++ ys) ≡ count_key key j xs + count_key key j ys
  unfolding count_key
  count_key-append j [] ys = omega arith
  count_key-append j (x ∷ xs) ys = omega (arith, count_key-append j xs ys)

  module _ (l : Layout) (d : Disk A) where
    count_key-perm :
        (j : ℕ) {xs ys : List Chunk}
        → Permᴰ xs ys
        → count_key key j (contents l d xs) ≡ count_key key j (contents l d ys)
    count_key-perm j Permᴰ.nil = refl
    count_key-perm j (Permᴰ.cons {a} {b} {l₁} {l₂} e p) =
        count_key-append j (read_chunk l d a) (contents l d l₁)
        ∙ ap₂ ◌+◌ (ap (λ c. count_key key j (read_chunk l d c)) e) (count_key-perm j p)
        ∙ sym (count_key-append j (read_chunk l d b) (contents l d l₂))
    count_key-perm j (Permᴰ.swap {a} {b} {a'} {b'} {l = rest} e₁ e₂) =
        let part = λ (c : Chunk). count_key key j (read_chunk l d c) in
        omega (
          arith,
          ap part e₁,
          ap part e₂,
          count_key-append j (read_chunk l d a) (contents l d (b ∷ rest)),
          count_key-append j (read_chunk l d b) (contents l d rest),
          count_key-append j (read_chunk l d a') (contents l d (b' ∷ rest)),
          count_key-append j (read_chunk l d b') (contents l d rest),
        )
    count_key-perm j (Permᴰ.trans p q) = count_key-perm j p ∙ count_key-perm j q

set-tabulated :
    (s n : ℕ) (f : ℕ → ℕ) (i v : ℕ)
    → set (tabulate_from s n f) i v ≡ tabulate_from s n (λ j. if s + i == j then v else f j)
set-tabulated s zero f i v = refl
set-tabulated s (suc n) f zero v =
    ap₂ ◌∷◌ (ground arith) (
      tabulate_from_ext (s + 1) n f (λ j. if s + 0 == j then v else f j) (λ j low lt. ground arith))
set-tabulated s (suc n) f (suc i) v = ap₂ ◌∷◌ (ground arith) (
    set-tabulated (s + 1) n f i v
    ∙ tabulate_from_ext (s + 1) n (λ j. if s + 1 + i == j then v else f j)
        (λ j. if s + suc i == j then v else f j) (λ j low lt. ground arith))

get_or-tabulated :
    (s n : ℕ) (f : ℕ → ℕ) (i : ℕ) → i < n → get_or (tabulate_from s n f) i 0 ≡ f (s + i)
get_or-tabulated s zero f i h = absurd (omega arith)
get_or-tabulated s (suc n) f zero h = ap f {x = s} {y = s + 0} (omega arith)
get_or-tabulated s (suc n) f (suc i) h =
    get_or-tabulated (s + 1) n f i (omega arith)
    ∙ ap f {x = s + 1 + i} {y = s + suc i} (omega arith)

replicate-tabulated : (s n : ℕ) → replicate {A = ℕ} n 0 ≡ tabulate_from s n (λ j. 0)
replicate-tabulated s zero = refl
replicate-tabulated s (suc n) = ap (◌∷◌ 0) (replicate-tabulated (s + 1) n)

add_counts-tabulated :
    (s n : ℕ) (f g : ℕ → ℕ)
    → add_counts (tabulate_from s n f) (tabulate_from s n g) ≡ tabulate_from s n (λ j. f j + g j)
unfolding add_counts
add_counts-tabulated s zero f g = refl
add_counts-tabulated s (suc n) f g = ap (◌∷◌ (f s + g s)) (add_counts-tabulated (s + 1) n f g)

increment_at-tabulated :
    (n : ℕ) (f : ℕ → ℕ) (i : ℕ)
    → i < n
    → increment_at (tabulate_from 0 n f) i
      ≡ tabulate_from 0 n (λ j. f j + (if i == j then 1 else 0))
unfolding increment_at
increment_at-tabulated n f i h =
    ap (λ v. set (tabulate_from 0 n f) i (v + 1)) (get_or-tabulated 0 n f i h)
    ∙ set-tabulated 0 n f i (f (0 + i) + 1)
    ∙ tabulate_from_ext 0 n _ _ (λ j low lt. bucket f i j)
  where
    bucket :
        (f : ℕ → ℕ) (i j : ℕ)
        → (if 0 + i == j then f (0 + i) + 1 else f j) ≡ f j + (if i == j then 1 else 0)
    bucket f i j = ground (arith, ap f {x = 0 + i} {y = i} (omega arith))

pub All-split :
    {A : Type 0} (P : A → Type 0) (xs ys : List A) → All P (xs ++ ys) → All P xs × All P ys
All-split P [] ys h = (tt, h)
All-split P (x ∷ xs) ys h = let rest = All-split P xs ys h.1 in ((h.0, rest.0), rest.1)

module _ {A : Type 0} (key_fn : A → ℕ) (n : ℕ) where
  abbrev InRange : List A → Type 0
  InRange = All (λ x. key_fn x < n)

  tally : (ℕ → ℕ) → List A → List ℕ
  tally f xs = tabulate_from 0 n (λ j. f j + count_key key_fn j xs)

  tally-nil : (f : ℕ → ℕ) → tabulate_from 0 n f ≡ tally f []
  unfolding tally count_key
  tally-nil f = tabulate_from_ext 0 n f (λ j. f j + 0) (λ j low lt. omega arith)

  tally-append :
      (f : ℕ → ℕ) (xs ys : List A)
      → tally (λ j. f j + count_key key_fn j xs) ys ≡ tally f (xs ++ ys)
  unfolding tally
  tally-append f xs ys =
      tabulate_from_ext 0 n _ _ (λ j low lt. omega (arith, count_key-append key_fn j xs ys))

  tally-cons :
      (f : ℕ → ℕ) (x : A) (xs : List A)
      → tally (λ j. f j + (if key_fn x == j then 1 else 0)) xs ≡ tally f (x ∷ xs)
  unfolding tally count_key
  tally-cons f x xs = tabulate_from_ext 0 n _ _ (λ j low lt. omega arith)

  tally-add :
      (f : ℕ → ℕ) (xs : List A)
      → add_counts (tabulate_from 0 n f) (tally (λ j. 0) xs)
        ≡ tabulate_from 0 n (λ j. f j + count_key key_fn j xs)
  unfolding tally
  tally-add f xs =
      add_counts-tabulated 0 n f (λ j. 0 + count_key key_fn j xs)
      ∙ tabulate_from_ext 0 n _ _ (λ j low lt. omega arith)

  module _ (l : Layout) (d : Disk A) where
    count_keys-tally :
        (f : ℕ → ℕ) (xs : List A)
        → InRange xs
        → count_keys l d n key_fn (tabulate_from 0 n f) xs ≡ some (tally f xs)
    unfolding count_keys
    count_keys-tally f [] h = ap some (tally-nil f)
    count_keys-tally f (x ∷ xs) h = rw (lt→ltb (key_fn x) n h.0) (
        ap (λ t. count_keys l d n key_fn t xs) (increment_at-tabulated n f (key_fn x) h.0)
        ∙ count_keys-tally (λ j. f j + (if key_fn x == j then 1 else 0)) xs h.1
        ∙ ap some (tally-cons f x xs))

    key_worker-tally :
        (f : ℕ → ℕ) (cs : List Chunk)
        → InRange (contents l d cs)
        → key_worker l d n key_fn (tabulate_from 0 n f) cs ≡ some (tally f (contents l d cs))
    unfolding key_worker tally
    key_worker-tally f [] h = ap some (tally-nil f)
    key_worker-tally f (c ∷ cs) h =
        let (here, later) = All-split (λ x. key_fn x < n) (read_chunk l d c) (contents l d cs) h in
        ap (λ o. o >>= λ t. key_worker l d n key_fn t cs)
          (count_keys-tally f (read_chunk l d c) here)
        ∙ key_worker-tally (λ j. f j + count_key key_fn j (read_chunk l d c)) cs later
        ∙ ap some (tally-append f (read_chunk l d c) (contents l d cs))

    sum_locals-tally :
        (f : ℕ → ℕ) (polled : List (List Chunk))
        → InRange (contents l d (concat polled))
        → sum_locals l d n key_fn
            (tabulate_from 0 n f)
            (map (key_worker l d n key_fn (replicate n 0)) polled)
          ≡ some (tally f (contents l d (concat polled)))
    unfolding sum_locals
    sum_locals-tally f [] h = ap some (tally-nil f)
    sum_locals-tally f (cs ∷ polled) h =
        let e = contents-append l d cs (concat polled) in
        let (here, later) =
          All-split (λ x. key_fn x < n) (contents l d cs) (contents l d (concat polled))
            (subst InRange e h) in
        let rest = λ (o : List ℕ).
          sum_locals l d n key_fn o (map (key_worker l d n key_fn (replicate n 0)) polled) in
        ap (λ o. o >>= λ h. rest (add_counts (tabulate_from 0 n f) h))
          (ap (λ t. key_worker l d n key_fn t cs) (replicate-tabulated 0 n)
            ∙ key_worker-tally (λ j. 0) cs here)
        ∙ ap rest (tally-add f (contents l d cs))
        ∙ sum_locals-tally (λ j. f j + count_key key_fn j (contents l d cs)) polled later
        ∙ ap some
            (tally-append f (contents l d cs) (contents l d (concat polled)) ∙ ap (tally f) (sym e))

    -- Where every key is a bucket, `ChunkHistogramByKey` passes its CHECKs and returns how many
    -- elements have each key, whatever chunks each worker polls in whatever order, as long as
    -- together they poll those of the sequence.
    pub chunk_histogram_by_key-counts :
        (polled : List (List Chunk)) (seq : ChunkSeq)
        → Permᴰ (concat polled) seq
        → InRange (contents l d (concat polled))
        → chunk_histogram_by_key l d n key_fn polled
          ≡ some (tabulate_from 0 n (λ j. count_key key_fn j (contents l d seq)))
    unfolding chunk_histogram_by_key tally
    chunk_histogram_by_key-counts polled seq p h =
        ap (λ t. sum_locals l d n key_fn t (map (key_worker l d n key_fn (replicate n 0)) polled))
          (replicate-tabulated 0 n)
        ∙ sum_locals-tally (λ j. 0) polled h
        ∙ ap some
            (tabulate_from_ext 0 n _ _ (λ j low lt. omega (arith, count_key-perm key_fn l d j p)))
