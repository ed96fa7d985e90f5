-- ===== src/Access/Placed.antt =====
-- Where the chunks of a sequence lie: in the first slots of their files, each in a block of its own.
use plaidlaylib.Prelude.{
  ℕ, ◌+◌, ◌*◌, ◌≤◌, ◌<◌, ◌≡◌, refl, ap, ap₂, ◌∙◌, ◌≢◌, ◌⊎◌, inl, inr, List, [], ◌∷◌, ◌++◌, map, All,
  All-append, length, take, concat, concat-snoc, map-append, arith,
}
use plaidlaylib.Layout.{Layout, epc}
use plaidlaylib.Disk.{FilePath, Disk, write_block, write_block_ne, write_block_cases}
use plaidlaylib.Chunk.{
  Chunk, ChunkSeq, back, IndexedFrom, IsDense, IsStored, count, read_chunk, contents,
}
use plaidlaylib.Access.Counts.{chunks_in}

-- Two chunks have different blocks.
abbrev pub Apart : Chunk → Chunk → Type 0
Apart c e = (c.filename ≢ e.filename) ⊎ (c.begin_addr ≢ e.begin_addr)

abbrev pub Separate : ChunkSeq → Type 0
Separate [] = Unit
Separate (c ∷ cs) = All (Apart c) cs × Separate cs

-- Every block is allocated whole or not at all.
abbrev pub IsWhole : Layout → {A : Type 0} → Disk A → Type 0
IsWhole l d = (f : FilePath) (a : ℕ) → (d f a ≡ []) ⊎ (length (d f a) ≡ epc l)

-- Chunk `c` lies in one of the first `n` slots.
pub record InSlot (l : Layout) (n : ℕ) (c : Chunk) : Type 0 where
  pub slot : ℕ
  pub address : c.begin_addr ≡ slot * l.chunk_size
  pub below : slot < n

-- The chunks that a sequence has in a file lie in its first slots, each in one of its own.
pub record IsPlaced (l : Layout) (seq : ChunkSeq) : Type 0 where
  pub slots : All (λ c. InSlot l (chunks_in c.filename seq) c) seq
  pub separate : Separate seq

-- A sequence that is not empty, split before its last chunk.
pub record Split (c : Chunk) (cs : ChunkSeq) : Type 0 where
  pub front : ChunkSeq
  pub last : Chunk
  pub whole : c ∷ cs ≡ front ++ (last ∷ [])
  pub is_back : back c cs ≡ last

pub split : (c : Chunk) (cs : ChunkSeq) → Split c cs
unfolding back
split c [] = record { front = []; last = c; whole = refl; is_back = refl }
split c (e ∷ cs) =
    let rest = split e cs in
    record {
      front = c ∷ rest.front;
      last = rest.last;
      whole = ap (◌∷◌ c) rest.whole;
      is_back = rest.is_back;
    }

pub All-snoc {κ} :
    {A : Type 0} (P : A → Type κ) (xs : List A) (y : A) → All P (xs ++ (y ∷ [])) → All P xs × P y
All-snoc P [] y h = (tt, h.0)
All-snoc P (x ∷ xs) y h = let rest = All-snoc P xs y h.1 in ((h.0, rest.0), rest.1)

pub All-imp {κ μ} :
    {A : Type 0} (P : A → Type κ) (Q : A → Type μ) (xs : List A)
    → ((x : A) → P x → Q x)
    → All P xs
    → All Q xs
All-imp P Q [] f h = tt
All-imp P Q (x ∷ xs) f h = (f x h.0, All-imp P Q xs f h.1)

pub Separate-snoc :
    (cs : ChunkSeq) (e : Chunk) → All (λ c. Apart c e) cs → Separate cs → Separate (cs ++ (e ∷ []))
Separate-snoc [] e h s = (tt, tt)
Separate-snoc (c ∷ cs) e h s =
    (All-append (Apart c) cs (e ∷ []) s.0 (h.0, tt), Separate-snoc cs e h.1 s.1)

pub Separate-split :
    (cs : ChunkSeq) (e : Chunk) → Separate (cs ++ (e ∷ [])) → All (λ c. Apart c e) cs × Separate cs
Separate-split [] e s = (tt, tt)
Separate-split (c ∷ cs) e s =
    let rest = Separate-split cs e s.1 in
    let here = All-snoc (Apart c) cs e s.0 in ((here.1, rest.0), (here.0, rest.1))

pub chunks_in-append :
    (f : FilePath) (cs es : ChunkSeq) → chunks_in f (cs ++ es) ≡ chunks_in f cs + chunks_in f es
unfolding chunks_in
chunks_in-append f [] es = omega arith
chunks_in-append f (c ∷ cs) es = omega (arith, chunks_in-append f cs es)

-- Slots stay in range where every file gets at least as many chunks.
pub slots_widen :
    (l : Layout) (old new cs : ChunkSeq)
    → ((f : FilePath) → chunks_in f old ≤ chunks_in f new)
    → All (λ c. InSlot l (chunks_in c.filename old) c) cs
    → All (λ c. InSlot l (chunks_in c.filename new) c) cs
slots_widen l old new cs grows =
    All-imp (λ c. InSlot l (chunks_in c.filename old) c)
      (λ c. InSlot l (chunks_in c.filename new) c) cs
      (λ c s. record {
        slot = s.slot;
        address = s.address;
        below = omega (arith, s.below, grows c.filename);
      })

pub IndexedFrom-snoc :
    (k : ℕ) (cs : ChunkSeq) (e : Chunk)
    → IndexedFrom k cs
    → e.index ≡ k + length cs
    → IndexedFrom k (cs ++ (e ∷ []))
IndexedFrom-snoc k [] e h i = (omega (arith, i), tt)
IndexedFrom-snoc k (c ∷ cs) e h i = (h.0, IndexedFrom-snoc (k + 1) cs e h.1 (omega (arith, i)))

pub IndexedFrom-split :
    (k : ℕ) (cs : ChunkSeq) (e : Chunk)
    → IndexedFrom k (cs ++ (e ∷ []))
    → IndexedFrom k cs × (e.index ≡ k + length cs)
IndexedFrom-split k [] e h = (tt, omega (arith, h.0))
IndexedFrom-split k (c ∷ cs) e h =
    let rest = IndexedFrom-split (k + 1) cs e h.1 in ((h.0, rest.0), omega (arith, rest.1))

module _ (l : Layout) where
  -- A chunk that holds whole elements and is full.
  abbrev pub Full : Chunk → Type 0
  Full c = (count l c * l.elem_size ≡ c.used) × (count l c ≡ epc l)

  pub IsDense-snoc :
      (cs : ChunkSeq) (e : Chunk)
      → All Full cs
      → count l e * l.elem_size ≡ e.used
      → count l e ≤ epc l
      → IsDense l (cs ++ (e ∷ []))
  IsDense-snoc [] e h u le = (u, le)
  IsDense-snoc (c ∷ []) e h u le = (h.0.0, h.0.1, (u, le))
  IsDense-snoc (c ∷ b ∷ cs) e h u le = (h.0.0, h.0.1, IsDense-snoc (b ∷ cs) e h.1 u le)

  pub IsDense-split :
      (cs : ChunkSeq) (e : Chunk)
      → IsDense l (cs ++ (e ∷ []))
      → All Full cs × (count l e * l.elem_size ≡ e.used) × (count l e ≤ epc l)
  IsDense-split [] e h = (tt, h.0, h.1)
  IsDense-split (c ∷ []) e h = (((h.0, h.1), tt), h.2.0, h.2.1)
  IsDense-split (c ∷ b ∷ cs) e h =
      let rest = IsDense-split (b ∷ cs) e h.2 in (((h.0, h.1), rest.0), rest.1, rest.2)

  module _ {A : Type 0} where
    pub contents-snoc :
        (d : Disk A) (cs : ChunkSeq) (e : Chunk)
        → contents l d (cs ++ (e ∷ [])) ≡ contents l d cs ++ read_chunk l d e
    contents-snoc d cs e =
        ap concat (map-append (read_chunk l d) cs (e ∷ []))
        ∙ concat-snoc (map (read_chunk l d) cs) (read_chunk l d e)

    -- A write to a block that no chunk has leaves a sequence as it is.
    module _ (d : Disk A) (file : FilePath) (addr : ℕ) (block : List A) where
      abbrev pub Away : Chunk → Type 0
      Away c = (c.filename ≢ file) ⊎ (c.begin_addr ≢ addr)

      pub contents-write_block :
          (cs : ChunkSeq)
          → All Away cs
          → contents l (write_block file addr block d) cs ≡ contents l d cs
      contents-write_block [] h = refl
      contents-write_block (c ∷ cs) h =
          ap₂ ◌++◌
            (ap (take (count l c)) (write_block_ne file addr block d c.filename c.begin_addr h.0))
            (contents-write_block cs h.1)

      pub IsStored-write_block :
          (cs : ChunkSeq)
          → All Away cs
          → IsStored l d cs
          → IsStored l (write_block file addr block d) cs
      IsStored-write_block [] h s = tt
      IsStored-write_block (c ∷ cs) h s = (
        ap length (write_block_ne file addr block d c.filename c.begin_addr h.0) ∙ s.0,
        IsStored-write_block cs h.1 s.1,
      )

      pub IsWhole-write_block :
          length block ≡ epc l → IsWhole l d → IsWhole l (write_block file addr block d)
      IsWhole-write_block h w f a = elim (write_block_cases file addr block d f a) [
        | inl here ↦ inr (ap length here ∙ h)
        | inr other ↦ elim (w f a) [ inl e ↦ inl (other ∙ e) | inr e ↦ inr (ap length other ∙ e) ]
      ]
