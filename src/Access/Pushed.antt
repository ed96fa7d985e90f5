-- ===== src/Access/Pushed.antt =====
-- What `push_back` leaves, for a last chunk with room and for a new slot.
use plaidlaylib.Prelude.{
  ℕ, zero, suc, ◌+◌, ◌-◌, ◌*◌, ◌/◌, ◌≤◌, ◌<◌, min, ◌≡◌, refl, sym, ap, ap₂, ◌∙◌, ◌≢◌, ◌⊎◌, inl, inr,
  Bool, List, [], ◌∷◌, ◌++◌, All, All-append, length, length-append, length-replicate, length-drop,
  replicate, drop, take, set, Bool-cases, arith, append_assoc, mul-div-cancel, mul-injective,
  lt_of_mul,
}
use plaidlaylib.Layout.{Layout, IsLayout, epc, o_direct_multiple}
use plaidlaylib.Disk.{
  FilePath, Disk, write_block, write_block_self, same_path, same_path_iff, same_path_self,
}
use plaidlaylib.Chunk.{Chunk, ChunkSeq, IsWellFormed, count, read_chunk, contents}
use plaidlaylib.Access.{extend_last, first_block, grown_block}
use plaidlaylib.Access.Counts.{chunks_in}
use plaidlaylib.Access.Placed.{
  IsWhole, InSlot, IsPlaced, slots_widen, All-snoc, All-imp, Separate-snoc, Separate-split,
  chunks_in-append, IndexedFrom-snoc, IndexedFrom-split, Full, IsDense-snoc, IsDense-split,
  contents-snoc, contents-write_block, IsStored-write_block, IsWhole-write_block,
}

length-set {ℓ} : {A : Type ℓ} (xs : List A) (k : ℕ) (v : A) → length (set xs k v) ≡ length xs
length-set [] k v = refl
length-set (x ∷ xs) zero v = refl
length-set (x ∷ xs) (suc k) v = ap suc (length-set xs k v)

take-set {ℓ} :
    {A : Type ℓ} (k : ℕ) (xs : List A) (v : A)
    → k < length xs
    → take (k + 1) (set xs k v) ≡ take k xs ++ (v ∷ [])
take-set k [] v h = absurd (omega arith)
take-set zero (x ∷ xs) v h = refl
take-set (suc k) (x ∷ xs) v h =
    ap (λ n. take n (x ∷ set xs k v)) {x = suc k + 1} {y = suc (k + 1)} (omega arith)
    ∙ ap (◌∷◌ x) (take-set k xs v (omega arith))

module _ (l : Layout) {A : Type 0} where
  -- What an append leaves.
  pub record Pushed (d : Disk A) (seq : ChunkSeq) (value : A) (out : ChunkSeq × Disk A)
      : Type 0 where
    pub reads_back : contents l out.1 out.0 ≡ contents l d seq ++ (value ∷ [])
    pub well_formed : IsWellFormed l out.1 out.0
    pub placed : IsPlaced l out.0
    pub whole : IsWhole l out.1

module _ (name_lt : FilePath → FilePath → Bool) (l : Layout) (w : IsLayout l) {A : Type 0}
    (zero_elem : A) where
  pub extend_last-snoc :
      (cs : ChunkSeq) (e : Chunk)
      → extend_last name_lt l zero_elem (cs ++ (e ∷ []))
        ≡ cs ++ (record e { used = e.used + l.elem_size } ∷ [])
  unfolding extend_last
  extend_last-snoc [] e = refl
  extend_last-snoc (c ∷ []) e = refl
  extend_last-snoc (c ∷ b ∷ cs) e = ap (◌∷◌ c) (extend_last-snoc (b ∷ cs) e)

  chunk_size_pos : 0 < l.chunk_size
  chunk_size_pos = grind (arith, w.elem_pos, w.epc_pos, w.divides)

  length-grown_block :
      (xs : List A)
      → (xs ≡ []) ⊎ (length xs ≡ epc l)
      → length (grown_block name_lt l zero_elem xs) ≡ epc l
  unfolding grown_block
  length-grown_block [] h = length-replicate (epc l) zero_elem
  length-grown_block (x ∷ xs) (inl none_there) = absurd (cc (none_there))
  length-grown_block (x ∷ xs) (inr full) = full

  module _ (d : Disk A) (value : A) (whole : IsWhole l d) where
    -- The last chunk has room.
    module _ (front : ChunkSeq) (last : Chunk) (v : IsWellFormed l d (front ++ (last ∷ [])))
        (p : IsPlaced l (front ++ (last ∷ []))) (room : last.used < l.chunk_size) where
      unfoldable pub k : ℕ
      k = count l last

      unfoldable pub wider : Chunk
      wider = record last { used = last.used + l.elem_size }

      unfoldable pub block : List A
      block = d last.filename last.begin_addr

      unfoldable pub d' : Disk A
      d' = write_block last.filename last.begin_addr (set block k value) d

      exact : k * l.elem_size ≡ last.used
      unfolding k
      exact = (IsDense-split l front last v.dense).1

      count-wider : count l wider ≡ k + 1
      unfolding wider k
      count-wider =
          ap (λ t. t / l.elem_size) {x = last.used + l.elem_size} {y = (k + 1) * l.elem_size}
            (grind (arith, exact))
          ∙ mul-div-cancel (k + 1) l.elem_size w.elem_pos

      below : k < epc l
      unfolding k
      below = lt_of_mul k (epc l) l.elem_size (omega (arith, exact, room, w.divides))

      block_whole : length block ≡ epc l
      unfolding block
      block_whole =
          (All-snoc (λ (c : Chunk). length (d c.filename c.begin_addr) ≡ epc l) front last
            v.stored).1

      counted :
          (f : FilePath) → chunks_in f (front ++ (last ∷ [])) ≤ chunks_in f (front ++ (wider ∷ []))
      unfolding wider chunks_in
      counted f =
          omega (arith, chunks_in-append f front (last ∷ []), chunks_in-append f front (wider ∷ []))

      slots_wider :
          All
            (λ c. InSlot l (chunks_in c.filename (front ++ (wider ∷ []))) c)
            (front ++ (wider ∷ []))
      unfolding wider
      slots_wider =
          let parts =
            All-snoc (λ c. InSlot l (chunks_in c.filename (front ++ (wider ∷ []))) c) front last
              (slots_widen l (front ++ (last ∷ [])) (front ++ (wider ∷ [])) (front ++ (last ∷ []))
                counted p.slots) in
          let here : InSlot l (chunks_in last.filename (front ++ (wider ∷ []))) last = parts.1 in
          All-append (λ c. InSlot l (chunks_in c.filename (front ++ (wider ∷ []))) c) front
            (wider ∷ []) parts.0
            (record { slot = here.slot; address = here.address; below = here.below }, tt)

      pub extended : Pushed l d (front ++ (last ∷ [])) value (front ++ (wider ∷ []), d')
      unfolding d' wider block k
      extended =
          let parts = Separate-split front last p.separate in
          let dense = IsDense-split l front last v.dense in
          let indexed = IndexedFrom-split 0 front last v.indexed in
          let stored =
            All-snoc (λ (c : Chunk). length (d c.filename c.begin_addr) ≡ epc l) front last
              v.stored in
          let size_kept : length (set block k value) ≡ epc l =
            length-set block k value ∙ block_whole in
          let here = write_block_self last.filename last.begin_addr (set block k value) d in
          record {
            reads_back =
                contents-snoc l d' front wider
                ∙ ap₂ ◌++◌
                    (contents-write_block l d last.filename last.begin_addr (set block k value)
                      front parts.0)
                    (ap₂ take count-wider here
                      ∙ take-set k block value (omega (arith, below, block_whole)))
                ∙ sym (append_assoc (contents l d front) (read_chunk l d last) (value ∷ []))
                ∙ ap (λ t. t ++ (value ∷ [])) (sym (contents-snoc l d front last));
            well_formed = record {
              indexed = IndexedFrom-snoc 0 front wider indexed.0 indexed.1;
              dense =
                  IsDense-snoc l front wider dense.0
                    (ap (λ t. t * l.elem_size) count-wider ∙ grind (arith, exact))
                    (omega (arith, count-wider, below));
              stored =
                  All-append _ front (wider ∷ [])
                    (IsStored-write_block l d last.filename last.begin_addr (set block k value)
                      front parts.0 stored.0)
                    (ap length here ∙ size_kept, tt);
            };
            placed = record {
              slots = slots_wider;
              separate = Separate-snoc front wider parts.0 parts.1;
            };
            whole =
                IsWhole-write_block l d last.filename last.begin_addr (set block k value) size_kept
                  whole;
          }

    -- A new slot in file `f`.
    module _ (seq : ChunkSeq) (f : FilePath) (v : IsWellFormed l d seq) (p : IsPlaced l seq)
        (full : All (Full l) seq) where
      unfoldable pub addr : ℕ
      addr = chunks_in f seq * l.chunk_size

      unfoldable pub added : Chunk
      added = record { filename = f; begin_addr = addr; used = l.elem_size; index = length seq }

      unfoldable pub fresh : List A
      fresh = first_block name_lt l zero_elem value (grown_block name_lt l zero_elem (d f addr))

      fresh_whole : length fresh ≡ epc l
      unfolding fresh first_block grown_block
      fresh_whole =
          let covered = min (epc l) (o_direct_multiple / l.elem_size) in
          let grown = grown_block name_lt l zero_elem (d f addr) in
          omega (
            arith,
            w.epc_pos,
            length-append (replicate (covered - 1) zero_elem) (drop (suc (covered - 1)) grown),
            length-replicate (covered - 1) zero_elem,
            length-drop (suc (covered - 1)) grown,
            length-grown_block (d f addr) (whole f addr),
          )

      fresh_first : take 1 fresh ≡ value ∷ []
      unfolding fresh first_block
      fresh_first = refl

      away : All (λ c. (c.filename ≢ f) ⊎ (c.begin_addr ≢ addr)) seq
      unfolding addr
      away =
          All-imp (λ c. InSlot l (chunks_in c.filename seq) c)
            (λ c. (c.filename ≢ f) ⊎ (c.begin_addr ≢ addr)) seq
            (λ c s. elim (Bool-cases (same_path c.filename f)) [
              | inl same ↦
                  let file = (same_path_iff c.filename f).0 same in
                  inr (λ e.
                    let taken =
                      mul-injective s.slot (chunks_in f seq) l.chunk_size chunk_size_pos
                        (sym s.address ∙ e) in
                    omega (arith, taken, s.below, ap (λ g. chunks_in g seq) file))
              | inr other ↦
                  inl (λ e. absurd (ground (arith, other, (same_path_iff c.filename f).1 e)))
            ])
            p.slots

      counted_more : (g : FilePath) → chunks_in g seq ≤ chunks_in g (seq ++ (added ∷ []))
      counted_more g = omega (arith, chunks_in-append g seq (added ∷ []))

      room_made : chunks_in f seq < chunks_in f (seq ++ (added ∷ []))
      unfolding added chunks_in
      room_made = ground (arith, chunks_in-append f seq (added ∷ []), same_path_self f)

      pub appended : Pushed l d seq value (seq ++ (added ∷ []), write_block f addr fresh d)
      unfolding added addr
      appended =
          let one = mul-div-cancel 1 l.elem_size w.elem_pos in
          let one_elem : count l added ≡ 1 =
            ap (λ t. t / l.elem_size) {x = l.elem_size} {y = 1 * l.elem_size} (omega arith) ∙ one in
          let here = write_block_self f addr fresh d in
          record {
            reads_back =
                contents-snoc l (write_block f addr fresh d) seq added
                ∙ ap₂ ◌++◌ (contents-write_block l d f addr fresh seq away)
                    (ap₂ take one_elem here ∙ fresh_first);
            well_formed = record {
              indexed = IndexedFrom-snoc 0 seq added v.indexed (omega arith);
              dense =
                  IsDense-snoc l seq added full (ap (λ t. t * l.elem_size) one_elem ∙ omega arith)
                    (omega (arith, one_elem, w.epc_pos));
              stored =
                  All-append _ seq (added ∷ [])
                    (IsStored-write_block l d f addr fresh seq away v.stored)
                    (ap length here ∙ fresh_whole, tt);
            };
            placed = record {
              slots =
                  All-append (λ c. InSlot l (chunks_in c.filename (seq ++ (added ∷ []))) c) seq
                    (added ∷ []) (slots_widen l seq (seq ++ (added ∷ [])) seq counted_more p.slots)
                    (record { slot = chunks_in f seq; address = refl; below = room_made }, tt);
              separate = Separate-snoc seq added away p.separate;
            };
            whole = IsWhole-write_block l d f addr fresh fresh_whole whole;
          }
