-- ===== src/Transform.antt =====
-- `ChunkEmitter` and `ExternalTransform` of ChunkSequence/Primitives/chunk_seq.h, and their clients
-- `ChunkMap` and `ChunkScan` of ChunkSequence/Primitives/primitives.h. Workers take chunks in any
-- order and emit blocks that get their slot in the order of the emits; a sort by logical index
-- restores the order. `none` is a write past the table of output descriptors.
use Prim.Native.String.{String}
use plaidlaylib.Prelude.{
  ℕ, zero, suc, ◌+◌, ◌-◌, ◌*◌, ◌/◌, min, Bool, true, false, Option, none, some, List, [], ◌∷◌, ◌++◌,
  map, concat, ◌==◌, leb, if◌then◌else◌, length, take, drop, replicate, get_or,
}
use plaidlaylib.Layout.{Layout, epc}
use plaidlaylib.Disk.{Disk, get_file_name}
use plaidlaylib.Chunk.{Chunk, ChunkSeq, read_chunk, sort_by_indices}
use plaidlaylib.Writer.{Request, land}
use plaidlaylib.Tabulate.{Run, pad_block}
use plaidlaylib.DensePack.{nothing, truncate_files}
use plaidlaylib.Reduce.{sum_chunks, prefix_sums}
pub mod Sorted
pub mod Emitted
pub mod Blocks
pub mod Streamed
pub mod Map
pub mod Scan
pub mod Ordered

-- What a body hands to `emit`: the valid elements of a block, and the logical index.
pub record Emission (R : Type 0) : Type 0 where
  pub elems : List R
  pub logical_index : ℕ

-- The emitter's shared variables, and what it has pushed. `out_count` is the length of the table.
pub record EmitState (R : Type 0) : Type 0 where
  pub file_offsets : ℕ → ℕ
  pub out_chunks : List Chunk
  pub pushed : List (Request R)

abbrev pub no_emits : {R : Type 0} → EmitState R
no_emits = record { file_offsets = λ d. 0; out_chunks = []; pushed = [] }

module _ (l : Layout) {R : Type 0} (zero_elem : R) (r : Run) (prefix : String) where
  -- `emit`; the drive of a slot is `hash64(slot) % num_drives`. The slot and the offset are drawn in
  -- one step.
  pub emit : Emission R → EmitState R → EmitState R
  emit e s =
      let slot = length s.out_chunks in
      let drive = r.drive_of slot in
      let filename = get_file_name r.ssd_list prefix drive in
      let base = s.file_offsets drive in
      record {
        file_offsets = λ d. if d == drive then base + l.chunk_size else s.file_offsets d;
        out_chunks =
            s.out_chunks
            ++ (record {
              filename = filename;
              begin_addr = base;
              used = length e.elems * l.elem_size;
              index = e.logical_index;
            }
                ∷ []);
        pushed =
            s.pushed
            ++ (record { file = filename; offset = base; block = pad_block l zero_elem e.elems }
                ∷ []);
      }

  pub emit_all : List (Emission R) → EmitState R → EmitState R
  unfolding emit
  emit_all [] s = s
  emit_all (e ∷ es) s = emit_all es (emit e s)

-- `for (k) out_chunks[k].index = k`
unfoldable pub renumber : ℕ → List Chunk → List Chunk
renumber k [] = []
renumber k (c ∷ cs) = record c { index = k } ∷ renumber (k + 1) cs

module _ (lt : Layout) {T R : Type 0} where
  -- The emissions of all bodies, input chunk by input chunk.
  unfoldable pub emissions :
      Disk T → (List T → ℕ → List (Emission R)) → ChunkSeq → List (Emission R)
  emissions dt body [] = []
  emissions dt body (c ∷ cs) = body (read_chunk lt dt c) c.index ++ emissions dt body cs

  module _ (lr : Layout) (zero_elem : R) (r : Run) (prefix : String) where
    -- `schedule` is the order in which the workers' emissions come.
    pub external_transform :
        (List (Emission R) → List (Emission R))
        → Disk T
        → ChunkSeq
        → (List T → ℕ → List (Emission R))
        → ℕ
        → Bool
        → Disk R
        → Option (ChunkSeq × Disk R)
    unfolding emissions emit_all renumber
    external_transform schedule dt seq body max_out_per_input compact d =
        let clean = truncate_files lr zero_elem r prefix (length r.ssd_list) d in
        let s = emit_all lr zero_elem r prefix (schedule (emissions dt body seq)) no_emits in
        let sorted = sort_by_indices s.out_chunks in
        if leb (length s.out_chunks) (length seq * max_out_per_input)
        then some (
          if compact then renumber 0 sorted else sorted,
          land (λ i. get_or s.pushed i nothing) r.order clean,
        )
        else none

-- The do/while loop of the bodies: blocks of `cap` elements, at least one. `step` fills a block
-- and hands on what it carries along; each turn takes an element, so `length input` further turns
-- are enough.
unfoldable pub emit_blocks :
    {T R A : Type 0} → ℕ → (A → List T → List R × A) → ℕ → ℕ → ℕ → A → List T → List (Emission R)
emit_blocks cap step zero base sub acc input = []
emit_blocks cap step (suc fuel) base sub acc input =
    let cnt = min cap (length input) in
    let (out, next) = step acc (take cnt input) in
    let rest = emit_blocks cap step fuel base (sub + 1) next (drop cnt input) in
    record { elems = out; logical_index = base + sub }
    ∷ (if length (drop cnt input) == 0 then [] else rest)

-- `FANOUT`
abbrev pub fanout : Layout → Layout → ℕ
fanout lt lr = (lr.elem_size + lt.elem_size - 1) / lt.elem_size

-- `out[i] = f(in[produced + i])`
unfoldable pub map_step : {T R : Type 0} → (T → R) → Unit {0} → List T → List R × Unit {0}
map_step f u xs = (map f xs, u)

-- `out[i] = run; run = monoid(run, in[produced + i])`
unfoldable pub scan_step : {R : Type 0} → (R → R → R) → R → List R → List R × R
scan_step op acc [] = ([], acc)
scan_step op acc (x ∷ xs) = let (out, last) = scan_step op (op acc x) xs in (acc ∷ out, last)

module _ (lt : Layout) {T R : Type 0} (lr : Layout) (zero_elem : R) (r : Run)
    (prefix : String) where
  unfoldable pub map_body : (T → R) → List T → ℕ → List (Emission R)
  unfolding emit_blocks map_step
  map_body f input index =
      emit_blocks (epc lr) (map_step f) (suc (length input)) (index * fanout lt lr) 0 tt input

  pub chunk_map :
      (List (Emission R) → List (Emission R))
      → Disk T
      → ChunkSeq
      → (T → R)
      → Disk R
      → Option (ChunkSeq × Disk R)
  unfolding external_transform map_body
  chunk_map schedule dt seq f d =
      external_transform lt lr zero_elem r prefix schedule dt seq (map_body f) (fanout lt lr) true d

module _ (l : Layout) {R : Type 0} (zero_elem : R) (op : R → R → R) (identity : R) (r : Run)
    (prefix : String) where
  -- Pass 2, with the seeds of the chunks.
  unfoldable pub scan_body : List R → List R → ℕ → List (Emission R)
  unfolding emit_blocks scan_step
  scan_body offset input index =
      emit_blocks (epc l) (scan_step op) (suc (length input)) (index * fanout l l) 0
        (get_or offset index zero_elem) input

  -- `polled` is the order in which pass 1 gets the chunks.
  pub chunk_scan :
      List Chunk
      → (List (Emission R) → List (Emission R))
      → Disk R
      → ChunkSeq
      → Disk R
      → Option ((ChunkSeq × Disk R) × R)
  unfolding external_transform scan_body
  chunk_scan polled schedule dt seq d =
      let chunk_sums = sum_chunks l op identity dt polled (replicate (length seq) zero_elem) in
      let (offset, total) = prefix_sums l op identity dt chunk_sums identity in
      elim (external_transform l l zero_elem r prefix schedule dt seq (scan_body offset)
        (fanout l l) true d) [ none ↦ none | some result ↦ some (result, total) ]
