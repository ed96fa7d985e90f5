-- ===== src/Access/Push.antt =====
-- `push_back` appends one element to the logical sequence.
use plaidlaylib.Prelude.{
  ℕ, ◌-◌, ◌*◌, ◌/◌, ◌≤◌, ◌<◌, ◌≡◌, refl, sym, ap, subst, ◌∙◌, none, some, Bool, true, [], ◌∷◌, ◌++◌,
  All, All-append, length, set, lt→ltb, le→ltb, dec_lt, arith, mul-le_right, mul-injective,
}
use plaidlaylib.Layout.{Layout, IsLayout, epc, size_t_mod}
use plaidlaylib.Disk.{FilePath, Disk, write_block}
use plaidlaylib.Chunk.{Chunk, ChunkSeq, back, IsWellFormed, count}
use plaidlaylib.Access.{
  fits_block, extend_last, fewest, count_files, push_new_chunk, push_back, first_block, grown_block,
}
use plaidlaylib.Access.Blocks.{InBlocks, fits}
use plaidlaylib.Access.Counts.{chunks_in, fewest-chunks_in}
use plaidlaylib.Access.Placed.{IsWhole, IsPlaced, split, Full, IsDense-split}
use plaidlaylib.Access.Pushed.{
  Pushed, extend_last-snoc, k, wider, block, d', extended, added, addr, fresh, appended,
}

module _ (name_lt : FilePath → FilePath → Bool) (l : Layout) (w : IsLayout l) (b : InBlocks l)
    {A : Type 0} (zero_elem : A) where
  start_fits : fits_block l 0 ≡ true
  start_fits = ap (fits_block l) {x = 0} {y = 0 * l.elem_size} (omega arith) ∙ fits l w.elem_pos b 0

  new_chunk-some :
      (d : Disk A) (seq : ChunkSeq) (value : A) (f : FilePath) (s : ℕ)
      → push_new_chunk name_lt l zero_elem d seq value (some (f, s))
        ≡ some (
          seq
              ++ (record {
                filename = f;
                begin_addr = s * l.chunk_size;
                used = l.elem_size;
                index = length seq;
              }
                  ∷ []),
          write_block f
              (s * l.chunk_size)
              (first_block name_lt l zero_elem value
                (grown_block name_lt l zero_elem (d f (s * l.chunk_size))))
              d,
        )
  unfolding push_new_chunk
  new_chunk-some d seq value f s = rw start_fits refl

  push_back-parts :
      (d : Disk A) (c : Chunk) (cs : ChunkSeq) (value : A)
      → (last : Chunk) → back c cs ≡ last
      → (last.used < l.chunk_size
          → fits_block l last.used ≡ true
          → push_back name_lt l zero_elem d (c ∷ cs) value
            ≡ some (
              extend_last name_lt l zero_elem (c ∷ cs),
              write_block last.filename last.begin_addr
                  (set (d last.filename last.begin_addr) (last.used / l.elem_size) value)
                  d,
            ))
        × (l.chunk_size ≤ last.used
            → (f : FilePath) (s : ℕ)
            → fewest name_lt (count_files name_lt (c ∷ cs) []) none (size_t_mod - 1) ≡ some (f, s)
            → push_back name_lt l zero_elem d (c ∷ cs) value
              ≡ push_new_chunk name_lt l zero_elem d (c ∷ cs) value (some (f, s)))
  unfolding push_back
  push_back-parts d c cs value last e = (
    λ room inside. rw (e, lt→ltb last.used l.chunk_size room, inside) refl,
    λ full f s found.
        rw (e, le→ltb last.used l.chunk_size full)
          (ap (push_new_chunk name_lt l zero_elem d (c ∷ cs) value) found),
  )

  filled :
      (c : Chunk)
      → l.chunk_size ≤ c.used
      → count l c * l.elem_size ≡ c.used
      → count l c ≤ epc l
      → count l c ≡ epc l
  filled c full exact room =
      mul-injective (count l c) (epc l) l.elem_size w.elem_pos
        (omega (arith, exact, w.divides, full, mul-le_right (count l c) (epc l) l.elem_size room))

  -- Where sizeof(T) divides O_DIRECT_MULTIPLE, `push_back` on a well-formed sequence that is not
  -- empty and lies in the first slots of its files, with fewer than 2^64 - 1 chunks, writes inside
  -- one block, appends the value to the logical sequence and leaves a well-formed sequence that lies
  -- so, whether the last chunk has room or a new slot is opened.
  pub push_back-contents :
      (d : Disk A) (seq : ChunkSeq) (value : A)
      → 0 < length seq
      → length seq < size_t_mod - 1
      → IsWellFormed l d seq
      → IsPlaced l seq
      → IsWhole l d
      → (out : ChunkSeq × Disk A) × (push_back name_lt l zero_elem d seq value ≡ some out)
        × Pushed l d seq value out
  unfolding push_new_chunk wider d' k block added addr fresh
  push_back-contents d [] value some_chunk short v p whole = absurd (omega arith)
  push_back-contents d (c ∷ cs) value some_chunk short v p whole =
      let sp = split c cs in
      let v' = subst (IsWellFormed l d) sp.whole v in
      let p' = subst (IsPlaced l) sp.whole p in
      let parts = push_back-parts d c cs value sp.last sp.is_back in
      let dense = IsDense-split l sp.front sp.last v'.dense in
      elim (dec_lt sp.last.used l.chunk_size) [
        | yes room ↦ (
          (
            sp.front
                ++ (wider name_lt l w zero_elem d value whole sp.front sp.last v' p' room ∷ []),
            d' name_lt l w zero_elem d value whole sp.front sp.last v' p' room,
          ),
          parts.0 room (ap (fits_block l) (sym dense.1) ∙ fits l w.elem_pos b (count l sp.last))
              ∙ ap
                  (λ t.
                    some (t, d' name_lt l w zero_elem d value whole sp.front sp.last v' p' room))
                  (ap (extend_last name_lt l zero_elem) sp.whole
                    ∙ extend_last-snoc name_lt l w zero_elem sp.front sp.last),
          subst
              (λ t. Pushed l d t value (
                sp.front
                    ++ (wider name_lt l w zero_elem d value whole sp.front sp.last v' p' room ∷ []),
                d' name_lt l w zero_elem d value whole sp.front sp.last v' p' room,
              ))
              (sym sp.whole)
              (extended name_lt l w zero_elem d value whole sp.front sp.last v' p' room),
        )
        | no above ↦
            let (f, found) = fewest-chunks_in name_lt c cs short in
            let full : All (Full l) (c ∷ cs) = subst (All (Full l)) (sym sp.whole) (
              All-append (Full l) sp.front (sp.last ∷ []) dense.0
                ((dense.1, filled sp.last (omega arith) dense.1 dense.2), tt)) in
            (
              (
                (c ∷ cs) ++ (added name_lt l w zero_elem d value whole (c ∷ cs) f v p full ∷ []),
                write_block f (addr name_lt l w zero_elem d value whole (c ∷ cs) f v p full)
                    (fresh name_lt l w zero_elem d value whole (c ∷ cs) f v p full) d,
              ),
              parts.1 (omega arith) f (chunks_in f (c ∷ cs)) found
                  ∙ new_chunk-some d (c ∷ cs) value f (chunks_in f (c ∷ cs)),
              appended name_lt l w zero_elem d value whole (c ∷ cs) f v p full,
            )
      ]
