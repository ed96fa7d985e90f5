-- ===== src/Tabulate/Grid.antt =====
-- The common shape of the constructors that cut `n` elements into the chunk grid: piece `i` has the
-- length that its descriptor says.
use Prim.Native.String.{String}
use plaidlaylib.Prelude.{
  ℕ, zero, suc, ◌+◌, ◌*◌, ◌≤◌, ◌<◌, min, ◌≡◌, refl, sym, ap, ◌∙◌, List, [], ◌∷◌, ◌++◌, length,
  tabulate_from, arith, concat, concat-snoc, mul-div-cancel, mul-le_right, tabulate_from-append,
  dec_le, append-nil,
}
use native.Mathlib.Nat.{zero-add}
use plaidlaylib.Layout.{Layout, IsLayout, epc, size_t_mod, grid_num_chunks}
use plaidlaylib.Layout.Bounds.{grid_num_chunks_bounds}
use plaidlaylib.Disk.{Disk}
use plaidlaylib.Chunk.{IsWellFormed, IsStored, contents, size}
use plaidlaylib.Chunk.Read.{size-contents}
use plaidlaylib.Tabulate.{Run, IsRun, chunk_count, write_fresh}
use plaidlaylib.Tabulate.Fresh.{write_fresh-contents, write_fresh-indexed, write_fresh-IsDense}

pub tabulate_from-snoc {ℓ} :
    {A : Type ℓ} (s n : ℕ) (f : ℕ → A)
    → tabulate_from s (suc n) f ≡ tabulate_from s n f ++ (f (s + n) ∷ [])
tabulate_from-snoc s n f =
    ap (λ k. tabulate_from s k f) {x = suc n} {y = n + 1} (omega arith)
    ∙ sym (tabulate_from-append s n 1 f)

module _ (l : Layout) (w : IsLayout l) (n : ℕ) where
  pub chunk_count_full :
      (i : ℕ)
      → n + epc l ≤ size_t_mod
      → suc i < grid_num_chunks (epc l) n
      → chunk_count l n i ≡ epc l
  chunk_count_full i fits lt =
      let above = (grid_num_chunks_bounds (epc l) w.epc_pos n fits).1 in
      let room : suc (suc i) * epc l ≤ grid_num_chunks (epc l) n * epc l =
        mul-le_right _ _ (epc l) lt in
      omega (arith, above, room)

  -- The first `k` chunks of the index range hold its first `k * epc` indices.
  pub concat-chunks :
      {A : Type 0} (k : ℕ) (f : ℕ → A)
      → concat (tabulate_from 0 k (λ i. tabulate_from (i * epc l) (chunk_count l n i) f))
        ≡ tabulate_from 0 (min n (k * epc l)) f
  concat-chunks zero f = ap (λ t. tabulate_from 0 t f) {x = 0} (omega arith)
  concat-chunks (suc k) f =
      let mul_suc : suc k * epc l ≡ k * epc l + epc l = grind arith in
      let piece = λ (i : ℕ). tabulate_from (i * epc l) (chunk_count l n i) f in
      ap concat (tabulate_from-snoc 0 k piece)
      ∙ concat-snoc (tabulate_from 0 k piece) (piece (0 + k))
      ∙ ap (λ t. concat (tabulate_from 0 k piece) ++ piece t) (zero-add k)
      ∙ ap (λ t. t ++ piece k) (concat-chunks k f)
      ∙ elim (dec_le (k * epc l) n) [
        | yes below ↦
            ap (λ t. tabulate_from 0 (min n (k * epc l)) f ++ tabulate_from t (chunk_count l n k) f)
              {x = k * epc l} {y = 0 + min n (k * epc l)} (omega arith)
            ∙ tabulate_from-append 0 (min n (k * epc l)) (chunk_count l n k) f
            ∙ ap (λ t. tabulate_from 0 t f) (omega (arith, mul_suc))
        | no above ↦
            ap (λ t. tabulate_from 0 (min n (k * epc l)) f ++ tabulate_from (k * epc l) t f)
              {x = chunk_count l n k} {y = 0} (omega arith)
            ∙ append-nil _
            ∙ ap (λ t. tabulate_from 0 t f) (omega (arith, mul_suc))
      ]

  -- The index `i` descriptor's byte count and position.
  abbrev pub grid_header : ℕ → ℕ × ℕ
  grid_header i = (chunk_count l n i * l.elem_size, i)

  module _ {A : Type 0} (zero_elem : A) (r : Run) (prefix : String) (piece : ℕ → List A)
      (sizes : (i : ℕ) → length (piece i) ≡ chunk_count l n i) (fits : n + epc l ≤ size_t_mod)
      (run : IsRun r (grid_num_chunks (epc l) n)) (d : Disk A) where
    pub fresh-contents :
        let (seq, d') =
          write_fresh l zero_elem r prefix (grid_num_chunks (epc l) n) grid_header piece d in
        (contents l d' seq ≡ concat (tabulate_from 0 (grid_num_chunks (epc l) n) piece))
        × IsStored l d' seq
    fresh-contents =
        write_fresh-contents l w zero_elem r prefix _ grid_header piece run d
          (λ i hi. (omega (arith, sizes i), ap (λ k. k * l.elem_size) (sym (sizes i))))

    pub fresh-IsWellFormed :
        let (seq, d') =
          write_fresh l zero_elem r prefix (grid_num_chunks (epc l) n) grid_header piece d in
        IsWellFormed l d' seq
    fresh-IsWellFormed = record {
      indexed = write_fresh-indexed l w zero_elem r prefix _ grid_header piece run d (λ i hi. refl);
      dense = write_fresh-IsDense l w zero_elem r prefix _ grid_header piece run d (λ i hi.
          let cancel = mul-div-cancel (chunk_count l n i) l.elem_size w.elem_pos in
          (
            ap (λ k. k * l.elem_size) cancel,
            omega (arith, cancel),
            λ lt. cancel ∙ chunk_count_full i fits lt,
          ));
      stored = fresh-contents.1;
    }

    -- Where the pieces make up `n` elements, `size` counts them.
    pub fresh-size :
        length (concat (tabulate_from 0 (grid_num_chunks (epc l) n) piece)) ≡ n
        → size l
            (write_fresh l zero_elem r prefix (grid_num_chunks (epc l) n) grid_header piece d).0
          ≡ n
    fresh-size whole =
        size-contents l w _ _ fresh-IsWellFormed.dense fresh-IsWellFormed.stored
        ∙ ap length fresh-contents.0
        ∙ whole
