-- ===== src/Tabulate/Contents.antt =====
-- The sequences that `tabulate`, `to_chunk_seq` and `from_file` return.
use Prim.Native.String.{String}
use plaidlaylib.Prelude.{
  nil_of_length, ℕ, zero, suc, ◌+◌, ◌*◌, ◌/◌, ◌%◌, ◌≤◌, min, ◌≡◌, sym, ap, ◌∙◌, ◌≢◌, none, some,
  List, [], ◌++◌, length, take, drop, tabulate_from, get_or, arith, concat, take-add,
  tabulate_from-get_or, take_all, concat-snoc, length-tabulate_from, length-take, length-drop,
  dec_le, ℕ_discrete,
}
use native.Mathlib.Nat.{zero-add}
use plaidlaylib.Layout.{Layout, IsLayout, epc, size_t_mod, grid_num_chunks}
use plaidlaylib.Layout.Bounds.{grid_num_chunks_bounds}
use plaidlaylib.Disk.{Disk}
use plaidlaylib.Chunk.{ChunkSeq, IsWellFormed, contents, size, to_vector}
use plaidlaylib.Chunk.Read.{to_vector-contents}
use plaidlaylib.Tabulate.{Run, IsRun, chunk_count, tabulate, to_chunk_seq, from_file, write_fresh}
use plaidlaylib.Tabulate.Grid.{
  grid_header, concat-chunks, tabulate_from-snoc, fresh-contents, fresh-IsWellFormed, fresh-size,
}

module _ (l : Layout) (w : IsLayout l) {A : Type 0} (zero_elem : A) (r : Run) (prefix : String)
    (d : Disk A) where
  -- `tabulate(n, prefix, f)` returns a well-formed sequence of `n` elements that reads back as
  -- `f(0), …, f(n - 1)`, whatever drives are drawn and in whatever order the writes land, if
  -- `n + epc` is at most 2^64, draws are in range and every write lands.
  pub tabulate-contents :
      (n : ℕ) (f : ℕ → A)
      → n + epc l ≤ size_t_mod
      → IsRun r (grid_num_chunks (epc l) n)
      → let (seq, d') = tabulate l zero_elem r n prefix f d in
        (contents l d' seq ≡ tabulate_from 0 n f) × IsWellFormed l d' seq × (size l seq ≡ n)
  unfolding tabulate
  tabulate-contents n f fits run = (
    (fresh-contents l w n zero_elem r prefix piece sizes fits run d).0 ∙ whole,
    fresh-IsWellFormed l w n zero_elem r prefix piece sizes fits run d,
    fresh-size l w n zero_elem r prefix piece sizes fits run d
        (ap length whole ∙ length-tabulate_from 0 n f),
  )
    where
      piece : ℕ → List A
      piece i = tabulate_from (i * epc l) (chunk_count l n i) f

      sizes : (i : ℕ) → length (piece i) ≡ chunk_count l n i
      sizes i = length-tabulate_from (i * epc l) (chunk_count l n i) f

      whole : concat (tabulate_from 0 (grid_num_chunks (epc l) n) piece) ≡ tabulate_from 0 n f
      whole =
          concat-chunks l w n _ f
          ∙ ap (λ t. tabulate_from 0 t f)
              (omega (arith, (grid_num_chunks_bounds (epc l) w.epc_pos n fits).0))

  -- Writing a sequence out with `to_chunk_seq` and reading it with `to_vector` gives it back, if
  -- its length plus `epc` is at most 2^64, draws are in range and every write lands.
  pub to_vector-to_chunk_seq :
      (xs : List A)
      → length xs + epc l ≤ size_t_mod
      → IsRun r (grid_num_chunks (epc l) (length xs))
      → let (seq, d') = to_chunk_seq l zero_elem r xs prefix d in
        to_vector l zero_elem d' seq ≡ some xs
  unfolding to_chunk_seq
  to_vector-to_chunk_seq xs fits run =
      let t = tabulate-contents (length xs) (λ i. get_or xs i zero_elem) fits run in
      to_vector-contents l w _ zero_elem _ t.1
      ∙ ap some (t.0 ∙ tabulate_from-get_or zero_elem [] xs)

  concat-slices :
      (input : List A) (k : ℕ)
      → concat
          (tabulate_from 0 k (λ i. take (chunk_count l (length input) i) (drop (i * epc l) input)))
        ≡ take (k * epc l) input
  concat-slices input zero = ap (λ t. take t input) {x = 0} (omega arith)
  concat-slices input (suc k) =
      let piece = λ (i : ℕ). take (chunk_count l (length input) i) (drop (i * epc l) input) in
      let mul_suc : suc k * epc l ≡ k * epc l + epc l = grind arith in
      ap concat (tabulate_from-snoc 0 k piece)
      ∙ concat-snoc (tabulate_from 0 k piece) (piece (0 + k))
      ∙ ap (λ t. concat (tabulate_from 0 k piece) ++ piece t) (zero-add k)
      ∙ ap (λ t. t ++ piece k) (concat-slices input k)
      ∙ ap (◌++◌ (take (k * epc l) input))
          (take-min (epc l) (drop (k * epc l) input) (length-drop (k * epc l) input))
      ∙ sym (take-add (k * epc l) (epc l) input)
      ∙ ap (λ t. take t input) (sym mul_suc)
    where
      take-min : {m : ℕ} (e : ℕ) (xs : List A) → length xs ≡ m → take (min e m) xs ≡ take e xs
      take-min {m} e xs h = elim (dec_le e m) [
        | yes below ↦ ap (λ t. take t xs) (omega arith)
        | no above ↦ take_all (min e m) xs (omega arith) ∙ sym (take_all e xs (omega arith))
      ]

  IsWellFormed-nil : IsWellFormed l d []
  IsWellFormed-nil = record { indexed = tt; dense = tt; stored = tt }

  -- `from_file` fails on a file that is no whole number of elements, and otherwise returns a
  -- well-formed sequence of the file's elements, if their number plus `epc` is at most 2^64, draws
  -- are in range and every write lands.
  pub from_file-contents :
      (input : List A) (nbytes : ℕ)
      → length input ≡ nbytes / l.elem_size
      → length input + epc l ≤ size_t_mod
      → IsRun r (grid_num_chunks (epc l) (length input))
      → (nbytes % l.elem_size ≢ 0 → from_file l zero_elem r input nbytes prefix d ≡ none)
        × (nbytes % l.elem_size ≡ 0
            → (out : ChunkSeq × Disk A) × (from_file l zero_elem r input nbytes prefix d ≡ some out)
              × (contents l out.1 out.0 ≡ input)
              × IsWellFormed l out.1 out.0)
  unfolding from_file
  from_file-contents input nbytes len fits run = (
    λ ne. ground arith,
    λ e. elim (ℕ_discrete nc 0) [
      | yes none_left ↦
          (([], d), rw (from_file, ← len) (ground arith), nothing none_left, IsWellFormed-nil)
      | no some_left ↦ (
        write_fresh l zero_elem r prefix nc (grid_header l w input_len) piece d,
        rw (from_file, ← len) (ground arith),
        (fresh-contents l w input_len zero_elem r prefix piece sizes fits run d).0 ∙ whole,
        fresh-IsWellFormed l w input_len zero_elem r prefix piece sizes fits run d,
      )
    ],
  )
    where
      input_len : ℕ
      input_len = length input

      nc : ℕ
      nc = grid_num_chunks (epc l) input_len

      piece : ℕ → List A
      piece i = take (chunk_count l input_len i) (drop (i * epc l) input)

      sizes : (i : ℕ) → length (piece i) ≡ chunk_count l input_len i
      sizes i = omega (
        arith,
        length-take (chunk_count l input_len i) (drop (i * epc l) input),
        length-drop (i * epc l) input,
      )

      enough : input_len ≤ nc * epc l
      enough = (grid_num_chunks_bounds (epc l) w.epc_pos input_len fits).0

      whole : concat (tabulate_from 0 nc piece) ≡ input
      whole = concat-slices input nc ∙ take_all (nc * epc l) input enough

      nothing : nc ≡ 0 → [] ≡ input
      nothing e = sym (nil_of_length input (omega (arith, enough, ap (λ t. t * epc l) e)))
