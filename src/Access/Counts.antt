-- ===== src/Access/Counts.antt =====
-- The table of chunks per file that `push_back` builds, and its choice of the file with the fewest.
use plaidlaylib.Prelude.{
  ℕ, ◌+◌, ◌-◌, ◌≤◌, ◌<◌, ◌≡◌, refl, sym, ap, ◌∙◌, ◌≢◌, ◌⊎◌, inl, inr, Bool, true, false, none, some,
  [], ◌∷◌, length, if◌then◌else◌, arith, Bool-cases, dec_lt, lt→ltb, le→ltb,
}
use plaidlaylib.Layout.{size_t_mod}
use plaidlaylib.Disk.{FilePath, same_path, same_path_iff, same_path_self}
use plaidlaylib.Chunk.{Chunk, ChunkSeq}
use plaidlaylib.Access.{Counts, count_of, has_key, increment, insert_key, bump, count_files, fewest}

-- The chunks of a sequence that lie in a file.
unfoldable pub chunks_in : FilePath → ChunkSeq → ℕ
chunks_in f [] = 0
chunks_in f (c ∷ cs) = (if same_path c.filename f then 1 else 0) + chunks_in f cs

pub chunks_in-le : (f : FilePath) (cs : ChunkSeq) → chunks_in f cs ≤ length cs
unfolding chunks_in
chunks_in-le f [] = omega arith
chunks_in-le f (c ∷ cs) = ground (arith, chunks_in-le f cs)

-- Each key has one entry.
abbrev pub Keyed : Counts → Type 0
Keyed [] = Unit
Keyed ((k, n) ∷ m) = (has_key k m ≡ false) × Keyed m

abbrev pub Entry : FilePath → ℕ → Counts → Type 0
Entry f s [] = ⊥
Entry f s ((k, n) ∷ m) = ((k ≡ f) × (n ≡ s)) ⊎ Entry f s m

count_of-missing : (f : FilePath) (m : Counts) → has_key f m ≡ false → count_of f m ≡ 0
unfolding has_key count_of
count_of-missing f [] h = refl
count_of-missing f ((k, n) ∷ m) h = ground (arith, count_of-missing f m)

count_of-insert_key :
    (name_lt : FilePath → FilePath → Bool) (f g : FilePath) (m : Counts)
    → has_key g m ≡ false
    → count_of f (insert_key name_lt g m) ≡ count_of f m + (if same_path g f then 1 else 0)
unfolding count_of insert_key has_key
count_of-insert_key name_lt f g [] h = ground arith
count_of-insert_key name_lt f g ((k, n) ∷ m) h = ground (
  arith,
  count_of-insert_key name_lt f g m,
  same_path_iff g f,
  same_path_iff k f,
  same_path_iff k g,
  count_of-missing f m,
  same_path_self k,
)

count_of-increment :
    (f g : FilePath) (m : Counts)
    → has_key g m ≡ true
    → count_of f (increment g m) ≡ count_of f m + (if same_path g f then 1 else 0)
unfolding count_of increment has_key
count_of-increment f g [] h = absurd (ground arith)
count_of-increment f g ((k, n) ∷ m) h = ground (
  arith,
  count_of-increment f g m,
  same_path_iff g f,
  same_path_iff k f,
  same_path_iff k g,
  same_path_self k,
)

has_key-increment : (f g : FilePath) (m : Counts) → has_key f (increment g m) ≡ has_key f m
unfolding has_key increment
has_key-increment f g [] = refl
has_key-increment f g ((k, n) ∷ m) = ground (arith, has_key-increment f g m)

has_key-insert_key :
    (name_lt : FilePath → FilePath → Bool) (f g : FilePath) (m : Counts)
    → has_key f (insert_key name_lt g m) ≡ (if same_path g f then true else has_key f m)
unfolding has_key insert_key
has_key-insert_key name_lt f g [] = ground arith
has_key-insert_key name_lt f g ((k, n) ∷ m) = ground (arith, has_key-insert_key name_lt f g m)

increment-Keyed : (g : FilePath) (m : Counts) → Keyed m → Keyed (increment g m)
unfolding increment
increment-Keyed g [] h = tt
increment-Keyed g ((k, n) ∷ m) h = elim (Bool-cases (same_path k g)) [
  | inl same ↦ rw same h
  | inr other ↦ rw other (has_key-increment k g m ∙ h.0, increment-Keyed g m h.1)
]

insert_key-Keyed :
    (name_lt : FilePath → FilePath → Bool) (g : FilePath) (m : Counts)
    → has_key g m ≡ false
    → Keyed m
    → Keyed (insert_key name_lt g m)
unfolding insert_key has_key
insert_key-Keyed name_lt g [] missing h = (refl, tt)
insert_key-Keyed name_lt g ((k, n) ∷ m) missing h =
    let apart : same_path k g ≡ false = ground arith in
    let rest : has_key g m ≡ false = ground arith in
    elim (Bool-cases (name_lt g k)) [
      | inl before ↦ rw before (missing, h)
      | inr after ↦ rw after (
        has_key-insert_key name_lt k g m
            ∙ ground (arith, h.0, same_path_iff g k, same_path_self g, apart),
        insert_key-Keyed name_lt g m rest h.1,
      )
    ]

module _ (name_lt : FilePath → FilePath → Bool) where
  bump-counts :
      (f g : FilePath) (m : Counts)
      → count_of f (bump name_lt g m) ≡ count_of f m + (if same_path g f then 1 else 0)
  unfolding bump
  bump-counts f g m = elim (Bool-cases (has_key g m)) [
    | inl there ↦ rw there (count_of-increment f g m there)
    | inr missing ↦ rw missing (count_of-insert_key name_lt f g m missing)
  ]

  bump-Keyed : (g : FilePath) (m : Counts) → Keyed m → Keyed (bump name_lt g m)
  unfolding bump
  bump-Keyed g m h = elim (Bool-cases (has_key g m)) [
    | inl there ↦ rw there (increment-Keyed g m h)
    | inr missing ↦ rw missing (insert_key-Keyed name_lt g m missing h)
  ]

  count_files-counts :
      (f : FilePath) (cs : ChunkSeq) (m : Counts)
      → Keyed m
      → (count_of f (count_files name_lt cs m) ≡ count_of f m + chunks_in f cs)
        × Keyed (count_files name_lt cs m)
  unfolding count_files chunks_in
  count_files-counts f [] m h = (omega arith, h)
  count_files-counts f (c ∷ cs) m h =
      let rest = count_files-counts f cs (bump name_lt c.filename m) (bump-Keyed c.filename m h) in
      (omega (arith, rest.0, bump-counts f c.filename m), rest.1)

  bump-ne-nil : (g : FilePath) (m : Counts) → bump name_lt g m ≢ []
  unfolding bump increment insert_key has_key
  bump-ne-nil g [] e = cc
  bump-ne-nil g ((k, n) ∷ m) e = ground (arith, e)

  count_files-ne-nil : (cs : ChunkSeq) (m : Counts) → m ≢ [] → count_files name_lt cs m ≢ []
  unfolding count_files
  count_files-ne-nil [] m h = h
  count_files-ne-nil (c ∷ cs) m h =
      count_files-ne-nil cs (bump name_lt c.filename m) (bump-ne-nil c.filename m)

count_of-Entry :
    (f : FilePath) (s : ℕ) (m : Counts)
    → Keyed m
    → Entry f s m
    → (count_of f m ≡ s) × (has_key f m ≡ true)
unfolding count_of has_key
count_of-Entry f s [] h e = absurd e
count_of-Entry f s ((k, n) ∷ m) h (inl e) = ground (arith, e.0, e.1, same_path_iff k f)
count_of-Entry f s ((k, n) ∷ m) h (inr e) =
    ground (arith, count_of-Entry f s m h.1 e, same_path_iff k f, h.0)

module _ (name_lt : FilePath → FilePath → Bool) where
  -- What `fewest` finds is an entry, or the candidate it starts from.
  fewest-Entry :
      (m : Counts) (target : FilePath) (best : ℕ)
      → (f : FilePath) × (s : ℕ) × (fewest name_lt m (some target) best ≡ some (f, s))
        × (Entry f s m ⊎ ((f ≡ target) × (s ≡ best)))
  unfolding fewest
  fewest-Entry [] target best = (target, best, refl, inr (refl, refl))
  fewest-Entry ((k, n) ∷ m) target best = elim (dec_lt n best) [
    | yes less ↦
        let (f, s, found, origin) = fewest-Entry m k n in
        (
          f,
          s,
          rw (lt→ltb n best less) found,
          elim origin [
            | inl later ↦ inl (inr later)
            | inr here ↦ inl (inl (sym here.0, sym here.1))
          ],
        )
    | no more ↦
        let (f, s, found, origin) = fewest-Entry m target best in
        (
          f,
          s,
          rw (le→ltb n best (omega arith)) found,
          elim origin [ inl later ↦ inl (inr later) | inr here ↦ inr here ],
        )
  ]

  fewest-first :
      (seq : ChunkSeq) (m : Counts)
      → m ≢ []
      → Keyed m
      → ((f : FilePath) → count_of f m ≡ chunks_in f seq)
      → length seq < size_t_mod - 1
      → (f : FilePath) × (fewest name_lt m none (size_t_mod - 1) ≡ some (f, chunks_in f seq))
  unfolding fewest
  fewest-first seq [] some_entry keyed counted fits = absurd (some_entry refl)
  fewest-first seq ((k, n) ∷ m) some_entry keyed counted fits =
      let first = count_of-Entry k n ((k, n) ∷ m) keyed (inl (refl, refl)) in
      let small : n < size_t_mod - 1 = omega (arith, first.0, counted k, chunks_in-le k seq) in
      let (f, s, found, origin) = fewest-Entry m k n in
      let entry : Entry f s ((k, n) ∷ m) = elim origin [
        | inl later ↦ inr later
        | inr here ↦ inl (sym here.0, sym here.1)
      ] in
      (
        f,
        rw (lt→ltb n (size_t_mod - 1) small) (
            found
            ∙ ap (λ t. some (f, t))
                (sym (count_of-Entry f s ((k, n) ∷ m) keyed entry).0 ∙ counted f)),
      )

  -- The file that `push_back` chooses, and the slot: the number of the chunks there.
  pub fewest-chunks_in :
      (c : Chunk) (cs : ChunkSeq)
      → length (c ∷ cs) < size_t_mod - 1
      → (f : FilePath) × (fewest name_lt (count_files name_lt (c ∷ cs) []) none (size_t_mod - 1)
          ≡ some (f, chunks_in f (c ∷ cs)))
  unfolding count_files count_of chunks_in
  fewest-chunks_in c cs fits =
      let counts = λ (f : FilePath). count_files-counts name_lt f (c ∷ cs) [] tt in
      fewest-first (c ∷ cs) (count_files name_lt (c ∷ cs) [])
        (count_files-ne-nil name_lt cs (bump name_lt c.filename [])
          (bump-ne-nil name_lt c.filename []))
        (counts c.filename).1
        (λ f.
          (counts f).0
          ∙ ap (λ k. k) {x = 0 + chunks_in f (c ∷ cs)} {y = chunks_in f (c ∷ cs)} (omega arith))
        fits
