-- ===== src/Delayed/Plan.antt =====
-- The read plans: every leaf finds its own buffer, whatever reads are shared.
use plaidlaylib.Prelude.{
  ℕ, zero, suc, ◌+◌, ◌<◌, ◌≡◌, refl, sym, ap, ◌∙◌, inl, inr, some, List, [], ◌∷◌, ◌++◌, length,
  get_or, append-nil, append_assoc, length-append, get_or_at, ℕ_discrete, arith, Option-cases,
}
use plaidlaylib.Chunk.{Chunk, ChunkSeq}
use plaidlaylib.Delayed.{Planner, find_slot, need, nowhere}

-- `q` plans what `p` plans and perhaps more.
pub record Extends (p q : Planner) : Type 0 where
  pub more_reads : List Chunk
  pub more_slots : List ℕ
  pub reads : q.unique_reads ≡ p.unique_reads ++ more_reads
  pub slots : q.leaf_slots ≡ p.leaf_slots ++ more_slots

pub Extends-refl : (p : Planner) → Extends p p
Extends-refl p = record {
  more_reads = [];
  more_slots = [];
  reads = sym (append-nil p.unique_reads);
  slots = sym (append-nil p.leaf_slots);
}

pub Extends-trans : (p q s : Planner) → Extends p q → Extends q s → Extends p s
Extends-trans p q s e f = record {
  more_reads = e.more_reads ++ f.more_reads;
  more_slots = e.more_slots ++ f.more_slots;
  reads =
      f.reads
      ∙ ap (λ t. t ++ f.more_reads) e.reads
      ∙ append_assoc p.unique_reads e.more_reads f.more_reads;
  slots =
      f.slots
      ∙ ap (λ t. t ++ f.more_slots) e.slots
      ∙ append_assoc p.leaf_slots e.more_slots f.more_slots;
}

module _ (sources : ℕ → ChunkSeq) where
  -- Each planned read is the chunk of its source with its index.
  abbrev pub Reads : List ℕ → List Chunk → Type 0
  Reads [] [] = Unit
  Reads [] (c ∷ cs) = ⊥
  Reads (o ∷ os) [] = ⊥
  Reads (o ∷ os) (c ∷ cs) = (c ≡ get_or (sources o) c.index nowhere) × Reads os cs

  abbrev pub IsPlan : Planner → Type 0
  IsPlan p = Reads p.src_of p.unique_reads

  Reads-snoc :
      (os : List ℕ) (cs : List Chunk) (o : ℕ) (c : Chunk)
      → Reads os cs
      → c ≡ get_or (sources o) c.index nowhere
      → Reads (os ++ (o ∷ [])) (cs ++ (c ∷ []))
  Reads-snoc [] [] o c h e = (e, tt)
  Reads-snoc [] (d ∷ cs) o c h e = absurd h
  Reads-snoc (p ∷ os) [] o c h e = absurd h
  Reads-snoc (p ∷ os) (d ∷ cs) o c h e = (h.0, Reads-snoc os cs o c h.1 e)

  pub get_or-front :
      {A : Type 0} (xs ys : List A) (i : ℕ) (z : A)
      → i < length xs
      → get_or (xs ++ ys) i z ≡ get_or xs i z
  get_or-front [] ys i z h = absurd (omega arith)
  get_or-front (x ∷ xs) ys zero z h = refl
  get_or-front (x ∷ xs) ys (suc i) z h = get_or-front xs ys i z (omega arith)

  -- A slot that the search finds holds the chunk.
  found_slot :
      (src : ℕ) (c : Chunk) (s t : ℕ) (os : List ℕ) (cs : List Chunk)
      → Reads os cs
      → c ≡ get_or (sources src) c.index nowhere
      → find_slot src c.index s os cs ≡ some t
      → (j : ℕ) × (t ≡ s + j) × (j < length cs) × (get_or cs j nowhere ≡ c)
  unfolding find_slot
  found_slot src c s t [] cs h e f = absurd (ground arith)
  found_slot src c s t (o ∷ os) [] h e f = absurd h
  found_slot src c s t (o ∷ os) (d ∷ cs) h e f =
      let rest = found_slot src c (s + 1) t os cs h.1 e in
      let later : find_slot src c.index (s + 1) os cs ≡ some t
          → (j : ℕ) × (t ≡ s + j) × (j < length (d ∷ cs)) × (get_or (d ∷ cs) j nowhere ≡ c) =
        λ g. (suc (rest g).0, omega (arith, (rest g).1), omega (arith, (rest g).2), (rest g).3) in
      elim (ℕ_discrete o src) [
        | yes same ↦ elim (ℕ_discrete d.index c.index) [
          | yes here ↦ (
            0,
            ground (arith, f),
            omega arith,
            h.0
                ∙ ap (λ k. get_or (sources k) d.index nowhere) same
                ∙ ap (λ k. get_or (sources src) k nowhere) here
                ∙ sym e,
          )
          | no other ↦ later (ground arith)
        ]
        | no other ↦ later (ground arith)
      ]

  -- A need adds a slot, which holds the chunk now and in every later plan.
  pub record Needed (c : Chunk) (p q : Planner) : Type 0 where
    pub slot : ℕ
    pub extends : Extends p q
    pub plan : IsPlan q
    pub slots : q.leaf_slots ≡ p.leaf_slots ++ (slot ∷ [])
    pub inside : slot < length q.unique_reads
    pub holds : get_or q.unique_reads slot nowhere ≡ c

  pub need-Needed :
      (src : ℕ) (c : Chunk) (p : Planner)
      → IsPlan p
      → c ≡ get_or (sources src) c.index nowhere
      → Needed c p (need src c p)
  unfolding need
  need-Needed src c p h e = elim (Option-cases (find_slot src c.index 0 p.src_of p.unique_reads)) [
    | inl none_found ↦
        rw (none_found, need)
          (record {
            slot = length p.unique_reads;
            extends = record {
              more_reads = c ∷ [];
              more_slots = length p.unique_reads ∷ [];
              reads = refl;
              slots = refl;
            };
            plan = Reads-snoc p.src_of p.unique_reads src c h e;
            slots = refl;
            inside = omega (arith, length-append p.unique_reads (c ∷ []));
            holds = get_or_at p.unique_reads [] nowhere c;
          })
    | inr (s, found) ↦
        let at = found_slot src c 0 s p.src_of p.unique_reads h e found in
        rw (found, need)
          (record {
            slot = s;
            extends = record {
              more_reads = [];
              more_slots = s ∷ [];
              reads = sym (append-nil p.unique_reads);
              slots = refl;
            };
            plan = h;
            slots = refl;
            inside = omega (arith, at.1, at.2);
            holds =
                ap (λ k. get_or p.unique_reads k nowhere) {x = s} {y = at.0} (omega (arith, at.1))
                ∙ at.3;
          })
  ]
