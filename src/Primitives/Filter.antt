-- ===== src/Primitives/Filter.antt =====
-- What the bodies of `ChunkFilter` and the elementwise `ChunkFlatMap` compute, chunk by chunk and
-- over the whole sequence.
use Prim.Native.String.{String}
use plaidlaylib.Prelude.{
  ℕ, ◌≡◌, refl, sym, ap, ◌∙◌, Bool, true, false, List, [], ◌∷◌, ◌++◌, append_assoc, append-nil,
  length, arith, concat, map, if◌then◌else◌, take,
}
use plaidlaylib.Layout.{Layout, IsLayout}
use plaidlaylib.Disk.{Disk}
use plaidlaylib.Chunk.{ChunkSeq, contents, IsWellFormed}
use plaidlaylib.Tabulate.{Run, IsRun}
use plaidlaylib.DensePack.{compute_runs, pack}
use plaidlaylib.DensePack.Driver.{dense_pack_stream-contents}
use plaidlaylib.DensePack.Stream.{compute_runs-hits, All_trivial}
use plaidlaylib.Primitives.{keep_survivors, push_each, chunk_filter, chunk_flat_map_each}

module _ {T : Type 0} where
  -- The survivors of a predicate, in order.
  abbrev pub filter : (T → Bool) → List T → List T
  filter pred [] = []
  filter pred (x ∷ xs) = if pred x then x ∷ filter pred xs else filter pred xs

  -- `flatten(map(xs, f))`
  abbrev pub flat_map : {R : Type 0} → (T → List R) → List T → List R
  flat_map f xs = concat (map f xs)

  pub keep_survivors-filter :
      (pred : T → Bool) (xs out : List T) → keep_survivors pred xs out ≡ out ++ filter pred xs
  unfolding keep_survivors
  keep_survivors-filter pred [] out = sym (append-nil out)
  keep_survivors-filter pred (x ∷ xs) out = keep_survivors-filter pred xs _ ∙ step (pred x)
    where
      step :
          (b : Bool)
          → (if b then out ++ (x ∷ []) else out) ++ filter pred xs
            ≡ out ++ (if b then x ∷ filter pred xs else filter pred xs)
      step true = append_assoc out (x ∷ []) (filter pred xs)
      step false = refl

  pub push_each-flat_map :
      {R : Type 0} (f : T → List R) (xs : List T) (out : List R)
      → push_each f xs out ≡ out ++ flat_map f xs
  unfolding push_each
  push_each-flat_map f [] out = sym (append-nil out)
  push_each-flat_map f (x ∷ xs) out =
      push_each-flat_map f xs (out ++ f x) ∙ append_assoc out (f x) (flat_map f xs)

  pub filter-append :
      (pred : T → Bool) (xs ys : List T) → filter pred (xs ++ ys) ≡ filter pred xs ++ filter pred ys
  filter-append pred [] ys = refl
  filter-append pred (x ∷ xs) ys =
      ap (λ zs. if pred x then x ∷ zs else zs) (filter-append pred xs ys) ∙ step (pred x)
    where
      step :
          (b : Bool)
          → (if b then x ∷ (filter pred xs ++ filter pred ys) else filter pred xs ++ filter pred ys)
            ≡ (if b then x ∷ filter pred xs else filter pred xs) ++ filter pred ys
      step true = refl
      step false = refl

  flat_map-append :
      {R : Type 0} (f : T → List R) (xs ys : List T)
      → flat_map f (xs ++ ys) ≡ flat_map f xs ++ flat_map f ys
  flat_map-append f [] ys = refl
  flat_map-append f (x ∷ xs) ys =
      ap (◌++◌ (f x)) (flat_map-append f xs ys)
      ∙ sym (append_assoc (f x) (flat_map f xs) (flat_map f ys))

module _ (lt : Layout) (w : IsLayout lt) {T : Type 0} where
  -- A body that works element by element and looks at nothing else finds what it finds of the
  -- whole sequence.
  pub compute_runs_each :
      {R : Type 0} (body : List T → ℕ → List T → List R) (whole : List T → List R) (d : Disk T)
      (seq : ChunkSeq)
      → IsWellFormed lt d seq
      → ((xs : List T) (pos : ℕ) (rest : List T) → body xs pos rest ≡ whole xs)
      → ((xs ys : List T) → whole (xs ++ ys) ≡ whole xs ++ whole ys)
      → whole [] ≡ []
      → concat (compute_runs lt d 0 body 0 seq) ≡ whole (contents lt d seq)
  compute_runs_each body whole d seq wf agrees additive empty =
      compute_runs-hits lt w d (λ x. Unit) 0 body (λ xs pos rest. whole xs) (omega arith)
        (λ xs pos rest h ok. agrees xs pos (take 0 rest)) (λ xs ys pos rest. additive xs ys)
        (λ pos. empty) 0 seq wf.dense wf.stored (All_trivial (contents lt d seq))

module _ (l : Layout) (w : IsLayout l) {T : Type 0} (zero_elem : T) (r : Run)
    (prefix : String) where
  -- `ChunkFilter` of a well-formed sequence returns a well-formed sequence that reads back as the
  -- survivors of the predicate, in their order, for every draw of drives and every order in which
  -- the writes land, if draws are in range and every write lands.
  pub chunk_filter-filter :
      (dt : Disk T) (seq : ChunkSeq) (pred : T → Bool) (d : Disk T)
      → IsWellFormed l dt seq
      → IsRun r (
          length
            (pack l zero_elem r prefix
              (compute_runs l dt 0 (λ buf gpos halo. keep_survivors pred buf []) 0 seq)).out_chunks)
      → let (out, d') = chunk_filter l zero_elem r prefix dt seq pred d in
        (contents l d' out ≡ filter pred (contents l dt seq)) × IsWellFormed l d' out
  unfolding chunk_filter
  chunk_filter-filter dt seq pred d wf run =
      let out = dense_pack_stream-contents l l w zero_elem r prefix dt seq 0 _ d wf.indexed run in
      (
        out.0
            ∙ compute_runs_each l w _ (filter pred) dt seq wf
                (λ xs pos rest. keep_survivors-filter pred xs []) (filter-append pred) refl,
        out.1,
      )

module _ (lt : Layout) (wt : IsLayout lt) {T R : Type 0} (lr : Layout) (wr : IsLayout lr)
    (zero_elem : R) (r : Run) (prefix : String) where
  -- The elementwise `ChunkFlatMap` of a well-formed sequence returns a well-formed sequence that
  -- reads back as the concatenation of `f` of the elements, in their order, if draws are in range
  -- and every write lands.
  pub chunk_flat_map_each-flat_map :
      (dt : Disk T) (seq : ChunkSeq) (f : T → List R) (d : Disk R)
      → IsWellFormed lt dt seq
      → IsRun r (
          length
            (pack lr zero_elem r prefix
              (compute_runs lt dt 0 (λ buf gpos halo. push_each f buf []) 0 seq)).out_chunks)
      → let (out, d') = chunk_flat_map_each lt lr zero_elem r prefix dt seq f d in
        (contents lr d' out ≡ flat_map f (contents lt dt seq)) × IsWellFormed lr d' out
  unfolding chunk_flat_map_each
  chunk_flat_map_each-flat_map dt seq f d wf run =
      let out =
        dense_pack_stream-contents lt lr wr zero_elem r prefix dt seq 0 _ d wf.indexed run in
      (
        out.0
            ∙ compute_runs_each lt wt _ (flat_map f) dt seq wf
                (λ xs pos rest. push_each-flat_map f xs []) (flat_map-append f) refl,
        out.1,
      )
