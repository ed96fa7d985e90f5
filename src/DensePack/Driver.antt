-- ===== src/DensePack/Driver.antt =====
-- What `DensePackStream` returns for the runs that the chunks' bodies computed.
use Prim.Native.String.{String}
use plaidlaylib.Prelude.{
  ℕ, ◌+◌, ◌≡◌, sym, ap, ap₂, subst, ◌∙◌, ◌++◌, ≢→==, append_assoc, length-append, arith, refl, List,
  [], ◌∷◌, length, concat,
}
use plaidlaylib.Layout.{Layout, IsLayout}
use plaidlaylib.Disk.{Disk}
use plaidlaylib.Chunk.{Chunk, IndexedFrom, ChunkSeq, contents, IsWellFormed}
use plaidlaylib.Tabulate.{Run, IsRun}
use plaidlaylib.DensePack.{
  input_of, inputs_from, dense_pack_stream, compute_runs, pack, write_packed,
}
use plaidlaylib.DensePack.Output.{write_packed-contents}

input_of-there :
    (pre : ChunkSeq) (k : ℕ) (c missing : Chunk) (cs : ChunkSeq)
    → IndexedFrom k (pre ++ (c ∷ cs))
    → input_of (k + length pre) (pre ++ (c ∷ cs)) missing ≡ c
unfolding input_of
input_of-there [] k c missing cs h = ground (arith, h.0)
input_of-there (b ∷ pre) k c missing cs h =
    rw (≢→== b.index (k + length (b ∷ pre)) (λ e. omega (arith, h.0, e))) (
      ap (λ i. input_of i (pre ++ (c ∷ cs)) missing) {x = k + length (b ∷ pre)}
        {y = k + 1 + length pre} (omega arith)
      ∙ input_of-there pre (k + 1) c missing cs h.1)

-- In an indexed sequence every worker reads its own chunk.
inputs_from-indexed :
    (pre cs : ChunkSeq) → IndexedFrom 0 (pre ++ cs) → inputs_from (pre ++ cs) (length pre) cs ≡ cs
unfolding inputs_from
inputs_from-indexed pre [] h = refl
inputs_from-indexed pre (c ∷ cs) h =
    let own =
      ap (λ i. input_of i (pre ++ (c ∷ cs)) c) {x = length pre} {y = 0 + length pre} (omega arith)
      ∙ input_of-there pre 0 c c cs h in
    let same = append_assoc pre (c ∷ []) cs in
    ap₂ ◌∷◌ (ap (λ (e : Chunk). record c { filename = e.filename; begin_addr = e.begin_addr }) own)
      (ap (λ (t : ChunkSeq). inputs_from t (length pre + 1) cs) (sym same)
        ∙ ap (λ (i : ℕ). inputs_from ((pre ++ (c ∷ [])) ++ cs) i cs) {x = length pre + 1}
            {y = length (pre ++ (c ∷ []))} (omega (arith, length-append pre (c ∷ [])))
        ∙ inputs_from-indexed (pre ++ (c ∷ [])) cs (subst (IndexedFrom 0) (sym same) h))

module _ (lt : Layout) {T : Type 0} where
  -- The driver's result on a dense input: well formed, and the concatenation of the chunks' runs.
  pub dense_pack_stream-contents :
      {R : Type 0} (lr : Layout) (wr : IsLayout lr) (zero_elem : R) (r : Run) (prefix : String)
      (dt : Disk T) (seq : ChunkSeq) (halo : ℕ) (body : List T → ℕ → List T → List R) (d : Disk R)
      → IndexedFrom 0 seq
      → IsRun r
          (length (pack lr zero_elem r prefix (compute_runs lt dt halo body 0 seq)).out_chunks)
      → let (out, d') = dense_pack_stream lt lr zero_elem r prefix dt seq halo body d in
        (contents lr d' out ≡ concat (compute_runs lt dt halo body 0 seq)) × IsWellFormed lr d' out
  unfolding dense_pack_stream compute_runs
  dense_pack_stream-contents lr wr zero_elem r prefix dt [] halo body d i run =
      (refl, record { indexed = tt; dense = tt; stored = tt })
  dense_pack_stream-contents lr wr zero_elem r prefix dt (c ∷ cs) halo body d i run =
      let packed = λ (t : List Chunk).
        write_packed lr zero_elem r prefix (compute_runs lt dt halo body 0 t) d in
      subst
        (λ (t : List Chunk).
          (contents lr (packed t).1 (packed t).0 ≡ concat (compute_runs lt dt halo body 0 (c ∷ cs)))
          × IsWellFormed lr (packed t).1 (packed t).0)
        (sym (inputs_from-indexed [] (c ∷ cs) i))
        (write_packed-contents lr wr zero_elem r prefix (compute_runs lt dt halo body 0 (c ∷ cs)) d
          run)
