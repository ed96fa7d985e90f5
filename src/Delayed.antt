-- ===== src/Delayed.antt =====
-- The delayed layer of ChunkSequence/Primitives/delayed.h: the read plans, the nodes `leaf_source`,
-- `leaf_index`, `map_node`, `scan_node` and `zip_node`, and the terminals `reduce`, `scan` and `force`.
-- An iterator is the function from the number of `++` to what `*it` is then. A pointer to a source
-- is its number. All leaves of a tree store elements of one type.
use Prim.Native.String.{String}
use plaidlaylib.Prelude.{
  ℕ, zero, suc, ◌+◌, ◌-◌, ◌*◌, ◌/◌, min, max, Bool, true, false, ◌&&◌, Option, none, some, List, [],
  ◌∷◌, ◌++◌, map, ◌==◌, ltb, if◌then◌else◌, length, get_or, tabulate_from,
}
use plaidlaylib.Layout.{Layout, epc, grid_num_chunks, grid_chunk_len}
use plaidlaylib.Disk.{Disk, get_file_name}
use plaidlaylib.Chunk.{Chunk, ChunkSeq, size}
use plaidlaylib.Tabulate.{Run, write_fresh}
pub mod Plan
pub mod Denotes
pub mod Reduced
pub mod Leaf
pub mod Forced

-- `ELEMS_PER_CHUNK`
abbrev pub elems_per_chunk : Layout → ℕ
elems_per_chunk l = l.chunk_size / 8

pub record Planner : Type 0 where
  pub unique_reads : List Chunk
  pub leaf_slots : List ℕ
  pub src_of : List ℕ

abbrev pub nothing_planned : Planner
nothing_planned = record { unique_reads = []; leaf_slots = []; src_of = [] }

-- The loop of `need`, from slot `s` on.
pub find_slot : ℕ → ℕ → ℕ → List ℕ → List Chunk → Option ℕ
find_slot src index s [] reads = none
find_slot src index s (o ∷ src_of) [] = none
find_slot src index s (o ∷ src_of) (c ∷ reads) =
    if o == src && (c.index == index) then some s else find_slot src index (s + 1) src_of reads

pub need : ℕ → Chunk → Planner → Planner
unfolding find_slot
need src c p = elim (find_slot src c.index 0 p.src_of p.unique_reads) [
  | some s ↦ record p { leaf_slots = p.leaf_slots ++ (s ∷ []) }
  | none ↦ record {
    unique_reads = p.unique_reads ++ (c ∷ []);
    leaf_slots = p.leaf_slots ++ (length p.unique_reads ∷ []);
    src_of = p.src_of ++ (src ∷ []);
  }
]

pub record Resolver (T : Type 0) : Type 0 where
  pub bufs : List (List T)
  pub slots : List ℕ
  pub cursor : ℕ

pub next : {T : Type 0} → Resolver T → List T × Resolver T
next r = (get_or r.bufs (get_or r.slots r.cursor 0) [], record r { cursor = r.cursor + 1 })

-- The interface of a node, over leaves that store `T`, with elements of type `A`.
pub record Node (T A : Type 0) : Type 0 where
  pub len : ℕ
  pub num_chunks : ℕ
  pub chunk_len : ℕ → ℕ
  pub plan : ℕ → Planner → Planner
  pub build : ℕ → Resolver T → (ℕ → A) × Resolver T

abbrev nowhere : Chunk
nowhere = record { filename = get_file_name [] "" 0; begin_addr = 0; used = 0; index = 0 }

-- The running accumulator of `scan_iter`.
pub scan_iter : {A : Type 0} → (A → A → A) → (ℕ → A) → A → ℕ → A
scan_iter op it acc zero = acc
scan_iter op it acc (suc k) = op (scan_iter op it acc k) (it k)

-- The first `remaining` elements, then `pad`.
pub pad_iter : {A : Type 0} → (ℕ → A) → ℕ → A → ℕ → A
pad_iter it remaining pad k = if ltb k remaining then it k else pad

-- `eb >= len ? 0 : min(n, len - eb)`
pub real_count : ℕ → ℕ → ℕ → ℕ
real_count n len eb = if ltb eb len then min n (len - eb) else 0

-- `s = m(s, *it)` over the elements of a chunk.
pub fold_values : {A : Type 0} → (A → A → A) → A → List A → A
fold_values op s [] = s
fold_values op s (x ∷ xs) = fold_values op (op s x) xs

-- The offsets of `scan`, and the total.
pub sums_before : {A : Type 0} → (A → A → A) → List A → A → List A × A
sums_before op [] run = ([], run)
sums_before op (s ∷ sums) run =
    let (offsets, total) = sums_before op sums (op run s) in (run ∷ offsets, total)

module _ (l : Layout) {T : Type 0} where
  unfoldable pub leaf_source : T → ℕ → ChunkSeq → ℕ → Node T T
  unfolding need next
  leaf_source zero_elem src seq len = record {
    len = len;
    num_chunks = grid_num_chunks (epc l) len;
    chunk_len = grid_chunk_len (epc l) len;
    plan =
        λ i p. if ltb i (grid_num_chunks (epc l) len) then need src (get_or seq i nowhere) p else p;
    build = λ i r.
        if ltb i (grid_num_chunks (epc l) len)
        then (λ k. get_or (next r).0 k zero_elem, (next r).1)
        else (λ k. zero_elem, r);
  }

  -- `delay(seq)`; `src` is the address of `seq`.
  pub delay : T → ℕ → ChunkSeq → Node T T
  delay zero_elem src seq = leaf_source zero_elem src seq (size l seq)

  module _ {A : Type 0} where
    -- `tabulate(n, f)`
    unfoldable pub leaf_index : ℕ → (ℕ → A) → Node T A
    leaf_index n f = record {
      len = n;
      num_chunks = grid_num_chunks (elems_per_chunk l) n;
      chunk_len = grid_chunk_len (elems_per_chunk l) n;
      plan = λ i p. p;
      build = λ i r. (λ k. f (i * elems_per_chunk l + k), r);
    }

    pub map_node : {B : Type 0} → Node T A → (A → B) → Node T B
    map_node d g = record {
      len = d.len;
      num_chunks = d.num_chunks;
      chunk_len = d.chunk_len;
      plan = d.plan;
      build = λ i r. (λ k. g ((d.build i r).0 k), (d.build i r).1);
    }

    pub scan_node : Node T A → (A → A → A) → A → List A → Node T A
    unfolding scan_iter
    scan_node d op identity offsets = record {
      len = d.len;
      num_chunks = d.num_chunks;
      chunk_len = d.chunk_len;
      plan = d.plan;
      build = λ i r.
          let seed = if ltb i (length offsets) then get_or offsets i identity else identity in
          (scan_iter op (d.build i r).0 seed, (d.build i r).1);
    }

    pub zip_node : {B : Type 0} → Node T A → Node T B → A → B → Node T (A × B)
    unfolding pad_iter real_count
    zip_node a b pad_a pad_b =
        let len = max a.len b.len in
        record {
          len = len;
          num_chunks = grid_num_chunks (elems_per_chunk l) len;
          chunk_len = grid_chunk_len (elems_per_chunk l) len;
          plan = λ i p. b.plan i (a.plan i p);
          build = λ i r.
              let eb = i * elems_per_chunk l in
              let n = grid_chunk_len (elems_per_chunk l) len i in
              let (ia, r') = a.build i r in
              let (ib, r'') = b.build i r' in
              (
                λ k. (
                  pad_iter ia (real_count n a.len eb) pad_a k,
                  pad_iter ib (real_count n b.len eb) pad_b k,
                ),
                r'',
              );
        }

    -- The strict `zip`, with its CHECK; `A{}` and `B{}` are the pads.
    unfoldable pub zip : {B : Type 0} → A → B → Node T A → Node T B → Option (Node T (A × B))
    unfolding zip_node
    zip zero_a zero_b a b = if a.len == b.len then some (zip_node a b zero_a zero_b) else none

    -- The padded `zip`.
    unfoldable pub zip_padded : Node T A → Node T A → A → Node T (A × A)
    unfolding zip_node
    zip_padded a b pad = zip_node a b pad pad

    -- The buffers of chunk `i`, once its reads have landed, and the values that its iterator gives.
    pub chunk_values : Disk T → Node T A → ℕ → List A
    chunk_values d node i =
        let p = node.plan i nothing_planned in
        let r : Resolver T = record {
          bufs = map (λ (c : Chunk). d c.filename c.begin_addr) p.unique_reads;
          slots = p.leaf_slots;
          cursor = 0;
        } in
        tabulate_from 0 (node.chunk_len i) (node.build i r).0

    pub per_chunk_reduce : Disk T → Node T A → (A → A → A) → A → List A
    unfolding chunk_values fold_values
    per_chunk_reduce d node op identity =
        tabulate_from 0 node.num_chunks (λ ci. fold_values op identity (chunk_values d node ci))

    pub reduce : Disk T → Node T A → (A → A → A) → A → A
    unfolding per_chunk_reduce
    reduce d node op identity = fold_values op identity (per_chunk_reduce d node op identity)

    pub scan : Disk T → Node T A → (A → A → A) → A → Node T A × A
    unfolding per_chunk_reduce sums_before scan_node
    scan d node op identity =
        let (offsets, total) = sums_before op (per_chunk_reduce d node op identity) identity in
        (scan_node node op identity offsets, total)

-- `force`, to a sequence of `lr`, over leaves of `l`.
pub force :
    (l lr : Layout) {T R : Type 0}
    → R
    → Run
    → String
    → Disk T
    → Node T R
    → Disk R
    → ChunkSeq × Disk R
unfolding chunk_values
force l lr zero_elem r prefix dt node d =
    if node.num_chunks == 0
    then ([], d)
    else write_fresh lr zero_elem r prefix node.num_chunks
        (λ i. (node.chunk_len i * lr.elem_size, i)) (chunk_values l dt node) d
