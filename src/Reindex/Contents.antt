-- ===== src/Reindex/Contents.antt =====
-- What the descriptor operations do to the logical sequence.
use plaidlaylib.Prelude.{
  ℕ, zero, suc, ◌+◌, ◌≡◌, refl, sym, ap, ap₂, subst, ◌∙◌, List, [], ◌∷◌, ◌++◌, map, map-append,
  append-nil, All, All-append, length, take, drop, concat, concat-append, arith, drop-nil, take_all,
}
use plaidlaylib.Layout.{Layout}
use plaidlaylib.Disk.{Disk}
use plaidlaylib.Chunk.{ChunkSeq, IndexedFrom, IsDense, IsStored, IsWellFormed, read_chunk, contents}
use plaidlaylib.Transform.{renumber}
use plaidlaylib.Access.Placed.{Full}
use plaidlaylib.Reindex.{flatten_from, flatten}

-- Numbering keeps all but the indices, which become the places.
pub renumber-indexed : (k : ℕ) (cs : ChunkSeq) → IndexedFrom k (renumber k cs)
unfolding renumber
renumber-indexed k [] = tt
renumber-indexed k (c ∷ cs) = (refl, renumber-indexed (k + 1) cs)

pub IndexedFrom-append :
    (k : ℕ) (cs es : ChunkSeq)
    → IndexedFrom k cs
    → IndexedFrom (k + length cs) es
    → IndexedFrom k (cs ++ es)
IndexedFrom-append k [] es h i = subst (λ n. IndexedFrom n es) {x = k + 0} {y = k} (omega arith) i
IndexedFrom-append k (c ∷ cs) es h i = (
  h.0,
  IndexedFrom-append (k + 1) cs es h.1 (
      subst (λ n. IndexedFrom n es) {x = k + suc (length cs)} {y = k + 1 + length cs} (omega arith)
        i),
)

pub length-renumber : (k : ℕ) (cs : ChunkSeq) → length (renumber k cs) ≡ length cs
unfolding renumber
length-renumber k [] = refl
length-renumber k (c ∷ cs) = ap suc (length-renumber (k + 1) cs)

module _ (l : Layout) where
  pub renumber-IsDense : (k : ℕ) (cs : ChunkSeq) → IsDense l cs → IsDense l (renumber k cs)
  unfolding renumber
  renumber-IsDense k [] h = tt
  renumber-IsDense k (c ∷ []) h = h
  renumber-IsDense k (c ∷ b ∷ cs) h = (h.0, h.1, renumber-IsDense (k + 1) (b ∷ cs) h.2)

  pub Full-IsDense : (cs es : ChunkSeq) → All (Full l) cs → IsDense l es → IsDense l (cs ++ es)
  Full-IsDense [] es h e = e
  Full-IsDense (c ∷ []) [] h e = (h.0.0, omega (arith, h.0.1))
  Full-IsDense (c ∷ []) (b ∷ es) h e = (h.0.0, h.0.1, e)
  Full-IsDense (c ∷ b ∷ cs) es h e = (h.0.0, h.0.1, Full-IsDense (b ∷ cs) es h.1 e)

  pub IsDense-drop : (n : ℕ) (cs : ChunkSeq) → IsDense l cs → IsDense l (drop n cs)
  IsDense-drop zero cs h = h
  IsDense-drop (suc n) [] h = tt
  IsDense-drop (suc n) (c ∷ []) h = subst (IsDense l) (sym (drop-nil n)) tt
  IsDense-drop (suc n) (c ∷ b ∷ cs) h = IsDense-drop n (b ∷ cs) h.2

  pub IsDense-take : (n : ℕ) (cs : ChunkSeq) → IsDense l cs → IsDense l (take n cs)
  IsDense-take zero cs h = tt
  IsDense-take (suc n) [] h = tt
  IsDense-take (suc n) (c ∷ []) h =
      subst (λ t. IsDense l (c ∷ t)) (sym (take_all n [] (omega arith))) h
  IsDense-take (suc zero) (c ∷ b ∷ cs) h = (h.0, omega (arith, h.1))
  IsDense-take (suc (suc n)) (c ∷ b ∷ cs) h = (h.0, h.1, IsDense-take (suc n) (b ∷ cs) h.2)

  renumber-Full : (k : ℕ) (cs : ChunkSeq) → All (Full l) cs → All (Full l) (renumber k cs)
  unfolding renumber
  renumber-Full k [] h = tt
  renumber-Full k (c ∷ cs) h = (h.0, renumber-Full (k + 1) cs h.1)

  module _ {A : Type 0} (d : Disk A) where
    pub renumber-contents : (k : ℕ) (cs : ChunkSeq) → contents l d (renumber k cs) ≡ contents l d cs
    unfolding renumber
    renumber-contents k [] = refl
    renumber-contents k (c ∷ cs) = ap (◌++◌ (read_chunk l d c)) (renumber-contents (k + 1) cs)

    pub renumber-IsStored : (k : ℕ) (cs : ChunkSeq) → IsStored l d cs → IsStored l d (renumber k cs)
    unfolding renumber
    renumber-IsStored k [] h = tt
    renumber-IsStored k (c ∷ cs) h = (h.0, renumber-IsStored (k + 1) cs h.1)

    pub contents-append :
        (xs ys : ChunkSeq) → contents l d (xs ++ ys) ≡ contents l d xs ++ contents l d ys
    contents-append xs ys =
        ap concat (map-append (read_chunk l d) xs ys)
        ∙ concat-append (map (read_chunk l d) xs) (map (read_chunk l d) ys)

    -- All but the last of the sequences end with a full chunk.
    abbrev pub Joins : List ChunkSeq → Type 0
    Joins [] = Unit
    Joins (s ∷ []) = IsDense l s × IsStored l d s
    Joins (s ∷ t ∷ ss) = All (Full l) s × IsStored l d s × Joins (t ∷ ss)

    flatten_from-contents :
        (k : ℕ) (ss : List ChunkSeq)
        → (contents l d (flatten_from k ss) ≡ concat (map (contents l d) ss))
          × IndexedFrom k (flatten_from k ss)
    unfolding flatten_from
    flatten_from-contents k [] = (refl, tt)
    flatten_from-contents k (s ∷ ss) =
        let rest = flatten_from-contents (k + length s) ss in
        (
          contents-append (renumber k s) (flatten_from (k + length s) ss)
              ∙ ap₂ ◌++◌ (renumber-contents k s) rest.0,
          IndexedFrom-append k (renumber k s) (flatten_from (k + length s) ss)
              (renumber-indexed k s)
              (subst (λ n. IndexedFrom n (flatten_from (k + length s) ss))
                (ap (λ n. k + n) (sym (length-renumber k s))) rest.1),
        )

    flatten_from-IsDense :
        (k : ℕ) (ss : List ChunkSeq)
        → Joins ss
        → IsDense l (flatten_from k ss) × IsStored l d (flatten_from k ss)
    unfolding flatten_from
    flatten_from-IsDense k [] h = (tt, tt)
    flatten_from-IsDense k (s ∷ []) h =
        subst (λ t. IsDense l t × IsStored l d t) (sym (append-nil (renumber k s)))
          (renumber-IsDense k s h.0, renumber-IsStored k s h.1)
    flatten_from-IsDense k (s ∷ t ∷ ss) h =
        let rest = flatten_from-IsDense (k + length s) (t ∷ ss) h.2 in
        (
          Full-IsDense (renumber k s) (flatten_from (k + length s) (t ∷ ss)) (renumber-Full k s h.0)
              rest.0,
          All-append _ (renumber k s) (flatten_from (k + length s) (t ∷ ss))
              (renumber-IsStored k s h.1) rest.1,
        )

    -- `flatten` of stored sequences, all but the last with full chunks only and the last dense, is
    -- a well-formed sequence that stands for the sequences one behind the other.
    pub flatten-contents :
        (ss : List ChunkSeq)
        → Joins ss
        → (contents l d (flatten ss) ≡ concat (map (contents l d) ss))
          × IsWellFormed l d (flatten ss)
    unfolding flatten
    flatten-contents ss h =
        let parts = flatten_from-contents 0 ss in
        let dense = flatten_from-IsDense 0 ss h in
        (parts.0, record { indexed = parts.1; dense = dense.0; stored = dense.1 })
