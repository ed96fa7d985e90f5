-- ===== src/DensePack/Batch/Contents.antt =====
-- `DensePack` returns the concatenation of the producer's runs, whatever the batches are.
use Prim.Native.String.{String}
use plaidlaylib.Prelude.{
  ℕ, zero, suc, ◌+◌, ◌-◌, ◌*◌, ◌/◌, ◌%◌, ◌≤◌, ◌<◌, min, ◌≡◌, refl, sym, ap, ap₂, ◌∙◌, subst, List,
  [], ◌∷◌, ◌++◌, ◌==◌, ltb, if◌then◌else◌, length, take, drop, replicate, get_or, arith, All,
  All-append, append_assoc, append-nil, concat, concat-append, length-append, length-take,
  length-drop, length-replicate, take-add, take-append_left, take-append-drop, drop-drop, drop_past,
  false, drop_past, false, lt→ltb, le→ltb, dec_lt, div_mul_bounds,
}
use plaidlaylib.Layout.{Layout, IsLayout, epc}
use plaidlaylib.Disk.{Disk}
use plaidlaylib.Chunk.{contents, IsWellFormed}
use plaidlaylib.Chunk.Read.{copy_at-append}
use plaidlaylib.Writer.{land}
use plaidlaylib.Tabulate.{Run, IsRun}
use plaidlaylib.DensePack.{PackState, start, nothing, truncate_files}
use plaidlaylib.DensePack.Packer.{
  Holds, Packs, state_of, push_chunk-state_of, start-Holds, pack_last-Packs,
}
use plaidlaylib.DensePack.Output.{write_packed-state, length-chunks_from}
use plaidlaylib.DensePack.Batch.{
  scatter, batch_total, batch_buffer, push_blocks, pack_batch, pack_batches, pack_all, dense_pack,
  dense_pack_batch_size,
}

module _ {R : Type 0} where
  batch_total-length :
      (runs : List (List R)) (n : ℕ) → batch_total runs n ≡ n + length (concat runs)
  unfolding batch_total
  batch_total-length [] n = omega arith
  batch_total-length (run ∷ runs) n =
      omega (arith, batch_total-length runs (n + length run), length-append run (concat runs))

  -- The scatter writes the runs one behind the other.
  scatter-concat :
      (runs : List (List R)) (pre rest : List R)
      → length (concat runs) ≤ length rest
      → scatter runs (length pre) (pre ++ rest)
        ≡ (pre ++ concat runs) ++ drop (length (concat runs)) rest
  unfolding scatter
  scatter-concat [] pre rest h = ap (λ t. t ++ rest) (sym (append-nil pre))
  scatter-concat (run ∷ runs) pre rest h =
      let size = length-append run (concat runs) in
      rw
        (
          copy_at-append pre rest run (omega (arith, size)),
          ← append_assoc pre run (drop (length run) rest),
        )
        (ap (λ n. scatter runs n ((pre ++ run) ++ drop (length run) rest))
            (sym (length-append pre run))
          ∙ scatter-concat runs (pre ++ run) (drop (length run) rest)
              (omega (arith, size, length-drop (length run) rest))
          ∙ ap₂ ◌++◌ (append_assoc pre run (concat runs)) (
              drop-drop (length run) (length (concat runs)) rest
              ∙ ap (λ n. drop n rest) (sym size)))

module _ (l : Layout) (w : IsLayout l) {R : Type 0} (zero_elem : R) (r : Run)
    (prefix : String) where
  -- The buffer of a batch starts with the carry and the runs.
  batch_buffer-starts :
      (runs : List (List R)) (carry : List R)
      → take (length carry + length (concat runs)) (batch_buffer l zero_elem r prefix runs carry)
        ≡ carry ++ concat runs
  unfolding batch_buffer
  batch_buffer-starts runs carry =
      let total = length carry + length (concat runs) in
      let num_alloc = total / epc l + (if ltb 0 (total % epc l) then 1 else 0) in
      let blank = replicate (num_alloc * epc l) zero_elem in
      let room : total ≤ num_alloc * epc l = ceil total in
      let size : length blank ≡ num_alloc * epc l =
        length-replicate (num_alloc * epc l) zero_elem in
      rw (batch_total-length runs (length carry)) (
        ap (λ t. take total (scatter runs (length carry) t))
          (copy_at-append [] blank carry (omega (arith, size, room)))
        ∙ ap (take total) (
            scatter-concat runs carry (drop (length carry) blank)
              (omega (arith, size, room, length-drop (length carry) blank)))
        ∙ take-append_left total (carry ++ concat runs) _ (sym (length-append carry (concat runs))))
    where
      ceil : (n : ℕ) → n ≤ (n / epc l + (if ltb 0 (n % epc l) then 1 else 0)) * epc l
      ceil n = elim (dec_lt 0 (n % epc l)) [
        | yes h ↦
            rw (lt→ltb 0 (n % epc l) h)
              (grind (arith, div_mul_bounds n (epc l) w.epc_pos, w.epc_pos))
        | no h ↦
            rw (le→ltb 0 (n % epc l) (omega arith))
              (grind (arith, div_mul_bounds n (epc l) w.epc_pos, w.epc_pos))
      ]

  -- The first `n` blocks of a buffer.
  chop : ℕ → List R → List (List R)
  chop zero buf = []
  chop (suc n) buf = take (epc l) buf ∷ chop n (drop (epc l) buf)

  mul_suc : (n : ℕ) → suc n * epc l ≡ epc l + n * epc l
  mul_suc n = grind arith

  concat-chop : (n : ℕ) (buf : List R) → concat (chop n buf) ≡ take (n * epc l) buf
  unfolding chop
  concat-chop zero buf = ap (λ t. take t buf) {x = 0} (omega arith)
  concat-chop (suc n) buf =
      ap (◌++◌ (take (epc l) buf)) (concat-chop n (drop (epc l) buf))
      ∙ sym (take-add (epc l) (n * epc l) buf)
      ∙ ap (λ t. take t buf) (sym (mul_suc n))

  All-chop :
      (n : ℕ) (buf : List R) → n * epc l ≤ length buf → All (λ b. length b ≡ epc l) (chop n buf)
  unfolding chop
  All-chop zero buf h = tt
  All-chop (suc n) buf h = (
    omega (arith, length-take (epc l) buf, mul_suc n),
    All-chop n (drop (epc l) buf) (omega (arith, length-drop (epc l) buf, mul_suc n)),
  )

  with_cur : List R → PackState R → PackState R
  with_cur c s = record s { cur = c }

  push_blocks-state :
      (n : ℕ) (buf : List R) (bs : List (List R)) (cur c : List R)
      → n * epc l ≤ length buf
      → with_cur c (push_blocks l zero_elem r prefix n buf (state_of l w zero_elem r prefix bs cur))
        ≡ state_of l w zero_elem r prefix (bs ++ chop n buf) c
  unfolding chop with_cur push_blocks
  push_blocks-state zero buf bs cur c h =
      ap (λ t. state_of l w zero_elem r prefix t c) (sym (append-nil bs))
  push_blocks-state (suc n) buf bs cur c h =
      let b = take (epc l) buf in
      let full : length b ≡ epc l = omega (arith, length-take (epc l) buf, mul_suc n) in
      ap (λ s. with_cur c (push_blocks l zero_elem r prefix n (drop (epc l) buf) s))
        (push_chunk-state_of l w zero_elem r prefix bs cur b l.chunk_size
          (sym w.divides ∙ ap (λ k. k * l.elem_size) (sym full)))
      ∙ push_blocks-state n (drop (epc l) buf) (bs ++ (b ∷ [])) [] c
          (omega (arith, length-drop (epc l) buf, mul_suc n))
      ∙ ap (λ t. state_of l w zero_elem r prefix t c)
          (append_assoc bs (b ∷ []) (chop n (drop (epc l) buf)))

  pack_batch-state :
      (runs bs : List (List R)) (rest : List R)
      → let total = length rest + length (concat runs) in
        let obuf = batch_buffer l zero_elem r prefix runs rest in
        pack_batch l zero_elem r prefix runs (state_of l w zero_elem r prefix bs rest)
        ≡ state_of l w zero_elem r prefix
            (bs ++ chop (total / epc l) obuf)
            (take (total % epc l) (drop (total / epc l * epc l) obuf))
  unfolding pack_batch with_cur
  pack_batch-state runs bs rest =
      let total = length rest + length (concat runs) in
      let obuf = batch_buffer l zero_elem r prefix runs rest in
      let starts = ap length (batch_buffer-starts runs rest) in
      let before = state_of l w zero_elem r prefix bs rest in
      ap
        (λ t.
          with_cur (take (t % epc l) (drop (t / epc l * epc l) obuf))
            (push_blocks l zero_elem r prefix (t / epc l) obuf before))
        (batch_total-length runs (length rest))
      ∙ push_blocks-state (total / epc l) obuf bs rest
          (take (total % epc l) (drop (total / epc l * epc l) obuf))
          (omega (
            arith,
            starts,
            length-take total obuf,
            length-append rest (concat runs),
            div_mul_bounds total (epc l) w.epc_pos,
          ))

  pack_batch-Holds :
      (runs : List (List R)) (xs : List R) (s : PackState R)
      → Holds l w zero_elem r prefix xs s
      → Holds l w zero_elem r prefix (xs ++ concat runs) (pack_batch l zero_elem r prefix runs s)
  pack_batch-Holds runs xs s h =
      let total = length h.rest + length (concat runs) in
      let n = total / epc l in
      let obuf = batch_buffer l zero_elem r prefix runs h.rest in
      let left = take (total % epc l) (drop (n * epc l) obuf) in
      let starts = batch_buffer-starts runs h.rest in
      let split : n * epc l + total % epc l ≡ total = grind (arith, w.epc_pos) in
      let below : total % epc l < epc l = grind (arith, w.epc_pos) in
      record {
        blocks = h.blocks ++ chop n obuf;
        rest = left;
        state =
            ap (pack_batch l zero_elem r prefix runs) h.state
            ∙ pack_batch-state runs h.blocks h.rest;
        whole =
            ap (λ t. t ++ left)
              (concat-append h.blocks (chop n obuf)
                ∙ ap (◌++◌ (concat h.blocks)) (concat-chop n obuf))
            ∙ append_assoc (concat h.blocks) (take (n * epc l) obuf) left
            ∙ ap (◌++◌ (concat h.blocks)) (
                sym (take-add (n * epc l) (total % epc l) obuf)
                ∙ ap (λ t. take t obuf) split
                ∙ starts)
            ∙ sym (append_assoc (concat h.blocks) h.rest (concat runs))
            ∙ ap (λ t. t ++ concat runs) h.whole;
        full = All-append _ h.blocks (chop n obuf) h.full (
            All-chop n obuf (
              omega (
                arith,
                split,
                ap length starts,
                length-take total obuf,
                length-append h.rest (concat runs),
              )));
        short = omega (arith, below, length-take (total % epc l) (drop (n * epc l) obuf));
      }

  -- A producer that delivers, batch by batch, the runs of a list.
  abbrev pub Delivers : (ℕ → ℕ → List (List R)) → List (List R) → Type 0
  Delivers produce runs =
      (base n : ℕ) → base + n ≤ length runs → produce base n ≡ take n (drop base runs)

  next_batch :
      (base : ℕ) (runs : List (List R))
      → drop (min dense_pack_batch_size (length runs - base)) (drop base runs)
        ≡ drop (base + dense_pack_batch_size) runs
  next_batch base runs = elim (dec_lt dense_pack_batch_size (length runs - base)) [
    | yes h ↦
        drop-drop base (min dense_pack_batch_size (length runs - base)) runs
        ∙ ap (λ t. drop t runs) {x = base + min dense_pack_batch_size (length runs - base)}
            {y = base + dense_pack_batch_size} (omega arith)
    | no h ↦
        drop_past (min dense_pack_batch_size (length runs - base)) (drop base runs)
          (omega (arith, length-drop base runs))
        ∙ sym (drop_past (base + dense_pack_batch_size) runs (omega arith))
  ]

  pack_batches-Holds :
      (produce : ℕ → ℕ → List (List R)) (runs : List (List R))
      → Delivers produce runs
      → (fuel base : ℕ) (xs : List R) (s : PackState R) → Holds l w zero_elem r prefix xs s
      → length runs - base ≤ fuel
      → Holds l w zero_elem r prefix
          (xs ++ concat (drop base runs))
          (pack_batches l zero_elem r prefix produce (length runs) fuel base s)
  unfolding pack_batches
  pack_batches-Holds produce runs del zero base xs s h enough =
      subst (λ ys. Holds l w zero_elem r prefix ys s)
        (sym (append-nil xs) ∙ ap (λ t. xs ++ concat t) (sym (drop_past base runs (omega arith)))) h
  pack_batches-Holds produce runs del (suc fuel) base xs s h enough =
      elim (dec_lt base (length runs)) [
        | no done ↦
            rw (le→ltb base (length runs) (omega arith), drop_past base runs (omega arith))
              (subst (λ ys. Holds l w zero_elem r prefix ys s) (sym (append-nil xs)) h)
        | yes more ↦
            let n = min dense_pack_batch_size (length runs - base) in
            let now = take n (drop base runs) in
            rw (lt→ltb base (length runs) more, del base n (omega arith))
              (subst
                (λ ys. Holds l w zero_elem r prefix ys (
                  pack_batches l zero_elem r prefix produce (length runs) fuel
                    (base + dense_pack_batch_size) (pack_batch l zero_elem r prefix now s)))
                (append_assoc xs (concat now) (concat (drop (base + dense_pack_batch_size) runs))
                  ∙ ap (◌++◌ xs) (
                      ap (λ t. concat now ++ concat t) (sym (next_batch base runs))
                      ∙ sym (concat-append now (drop n (drop base runs)))
                      ∙ ap concat (take-append-drop n (drop base runs))))
                (pack_batches-Holds produce runs del fuel (base + dense_pack_batch_size)
                  (xs ++ concat now) _ (pack_batch-Holds now xs s h) (omega arith)))
      ]

  pack_all-Packs :
      (produce : ℕ → ℕ → List (List R)) (runs : List (List R))
      → Delivers produce runs
      → Packs l w zero_elem r prefix
          (concat runs)
          (pack_all l zero_elem r prefix produce (length runs))
  unfolding pack_all
  pack_all-Packs produce runs del = pack_last-Packs l w zero_elem r prefix (concat runs) _ (
      pack_batches-Holds produce runs del (length runs) 0 [] start
        (start-Holds l w zero_elem r prefix) (omega arith))

  -- `DensePack` over a producer that delivers `runs` returns a well-formed sequence that reads back
  -- as their concatenation: the runs of all batches, those that are cut by an output chunk or by
  -- the end of a batch included. Draws are in range and every write lands.
  pub dense_pack-contents :
      (produce : ℕ → ℕ → List (List R)) (runs : List (List R)) (d : Disk R)
      → Delivers produce runs
      → IsRun r (length (pack_all l zero_elem r prefix produce (length runs)).out_chunks)
      → let (out, d') = dense_pack l zero_elem r prefix (length runs) produce d in
        (contents l d' out ≡ concat runs) × IsWellFormed l d' out
  unfolding dense_pack
  dense_pack-contents produce [] d del run =
      (refl, record { indexed = tt; dense = tt; stored = tt })
  dense_pack-contents produce (x ∷ runs) d del run =
      let p = pack_all-Packs produce (x ∷ runs) del in
      let clean = truncate_files l zero_elem r prefix (length r.ssd_list) d in
      let chunks =
        ap (λ (s : PackState R). length s.out_chunks) p.state
        ∙ length-chunks_from l w zero_elem r prefix 0 p.blocks in
      let out =
        write_packed-state l w zero_elem r prefix p.blocks clean p.cut
          (subst (IsRun r) chunks run) in
      let some_left : (suc (length runs) == 0) ≡ false = ground arith in
      rw some_left (
        subst
          (λ (s : PackState R).
            let d' = land (λ i. get_or s.pushed i nothing) r.order clean in
            (contents l d' s.out_chunks ≡ concat (x ∷ runs)) × IsWellFormed l d' s.out_chunks)
          (sym p.state) (out.0 ∙ p.whole, out.1))
