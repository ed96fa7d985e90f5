-- ===== src/Delayed/Denotes.antt =====
-- What a tree of nodes stands for: a length and a function from places to elements.
use plaidlaylib.Prelude.{
  ℕ, ◌+◌, ◌-◌, ◌*◌, ◌<◌, min, max, ◌≡◌, refl, ap, ap₂, ◌∙◌, map, ltb, length, arith, if◌then◌else◌,
  dec_lt, lt→ltb,
}
use plaidlaylib.Layout.{Layout, grid_num_chunks, grid_chunk_len}
use plaidlaylib.Layout.Bounds.{lt-grid_chunk_len}
use plaidlaylib.Disk.{Disk}
use plaidlaylib.Chunk.{Chunk, ChunkSeq}
use plaidlaylib.Delayed.{
  Planner, Resolver, Node, elems_per_chunk, leaf_index, map_node, pad_iter, real_count, zip_node,
}
use plaidlaylib.Delayed.Plan.{Extends, Extends-refl, Extends-trans, IsPlan}

module _ (l : Layout) {T : Type 0} (d : Disk T) (sources : ℕ → ChunkSeq) where
  -- The buffers of a plan whose reads have landed, with `k` leaves built.
  abbrev pub resolver_at : Planner → ℕ → Resolver T
  resolver_at q k = record {
    bufs = map (λ (c : Chunk). d c.filename c.begin_addr) q.unique_reads;
    slots = q.leaf_slots;
    cursor = k;
  }

  -- The node has `n` elements, element `j` is `f j`. Its plan only adds to what is planned, and its
  -- build uses up the leaves of its own plan, also where the plan is part of a larger one.
  pub record Denotes {A : Type 0} (node : Node T A) (n : ℕ) (f : ℕ → A) : Type 0 where
    pub size : node.len ≡ n
    pub chunks : node.num_chunks ≡ grid_num_chunks (elems_per_chunk l) n
    pub sizes : (i : ℕ) → node.chunk_len i ≡ grid_chunk_len (elems_per_chunk l) n i
    pub planned :
        (i : ℕ) (p : Planner)
        → IsPlan sources p
        → Extends p (node.plan i p) × IsPlan sources (node.plan i p)
    pub resolved :
        (i : ℕ) (p q : Planner)
        → IsPlan sources p
        → Extends (node.plan i p) q
        → (node.build i (resolver_at q (length p.leaf_slots))).1
          ≡ resolver_at q (length (node.plan i p).leaf_slots)
    pub built :
        (i : ℕ) (p q : Planner)
        → IsPlan sources p
        → Extends (node.plan i p) q
        → (k : ℕ) → k < grid_chunk_len (elems_per_chunk l) n i
        → (node.build i (resolver_at q (length p.leaf_slots))).0 k ≡ f (i * elems_per_chunk l + k)

  module _ {A : Type 0} where
    pub leaf_index-Denotes : (n : ℕ) (f : ℕ → A) → Denotes (leaf_index l {T = T} n f) n f
    unfolding leaf_index
    leaf_index-Denotes n f = record {
      size = refl;
      chunks = refl;
      sizes = λ i. refl;
      planned = λ i p h. (Extends-refl p, h);
      resolved = λ i p q h e. refl;
      built = λ i p q h e k lt. refl;
    }

    pub map_node-Denotes :
        {B : Type 0} (node : Node T A) (n : ℕ) (f : ℕ → A) (g : A → B)
        → Denotes node n f
        → Denotes (map_node l node g) n (λ j. g (f j))
    unfolding map_node
    map_node-Denotes node n f g v = record {
      size = v.size;
      chunks = v.chunks;
      sizes = v.sizes;
      planned = v.planned;
      resolved = v.resolved;
      built = λ i p q h e k lt. ap g (v.built i p q h e k lt);
    }

    pad_iter-value :
        (it f : ℕ → A) (n m i k : ℕ) (pad : A)
        → k < grid_chunk_len (elems_per_chunk l) m i
        → ((j : ℕ)
            → j < grid_chunk_len (elems_per_chunk l) n i
            → it j ≡ f (i * elems_per_chunk l + j))
        → pad_iter it
            (real_count (grid_chunk_len (elems_per_chunk l) m i) n (i * elems_per_chunk l))
            pad
            k
          ≡ (if ltb (i * elems_per_chunk l + k) n then f (i * elems_per_chunk l + k) else pad)
    unfolding pad_iter real_count
    pad_iter-value it f n m i k pad lt real =
        let inside = (lt-grid_chunk_len (elems_per_chunk l) m i k).0 lt in
        elim (dec_lt (i * elems_per_chunk l + k) n) [
          | yes h ↦
              rw
                (
                  lt→ltb (i * elems_per_chunk l + k) n h,
                  lt→ltb (i * elems_per_chunk l) n (omega arith),
                  lt→ltb k
                      (min (grid_chunk_len (elems_per_chunk l) m i) (n - i * elems_per_chunk l))
                      (omega arith),
                )
                (real k ((lt-grid_chunk_len (elems_per_chunk l) n i k).1 (inside.0, h)))
          | no h ↦ ground arith
        ]

  module _ {A : Type 0} where
    -- The zip of two nodes that denote sequences, which may share sources and so reads, denotes the
    -- pairs of their elements, the shorter one padded.
    pub zip_node-Denotes :
        {B : Type 0} (a : Node T A) (b : Node T B) (na nb : ℕ) (f : ℕ → A) (g : ℕ → B) (pad_a : A)
        (pad_b : B)
        → Denotes a na f
        → Denotes b nb g
        → Denotes
            (zip_node l a b pad_a pad_b)
            (max na nb)
            (λ j. (if ltb j na then f j else pad_a, if ltb j nb then g j else pad_b))
    unfolding zip_node
    zip_node-Denotes a b na nb f g pad_a pad_b va vb =
        let both : max a.len b.len ≡ max na nb = ap₂ max va.size vb.size in
        record {
          size = both;
          chunks = ap (grid_num_chunks (elems_per_chunk l)) both;
          sizes = λ i. ap (λ n. grid_chunk_len (elems_per_chunk l) n i) both;
          planned = λ i p h.
              let pa = va.planned i p h in
              let pb = vb.planned i (a.plan i p) pa.1 in
              (Extends-trans p (a.plan i p) _ pa.0 pb.0, pb.1);
          resolved = λ i p q h e.
              let pa = va.planned i p h in
              let pb = vb.planned i (a.plan i p) pa.1 in
              let ea = Extends-trans (a.plan i p) _ q pb.0 e in
              ap (λ (r : Resolver T). (b.build i r).1) (va.resolved i p q h ea)
              ∙ vb.resolved i (a.plan i p) q pa.1 e;
          built = λ i p q h e k lt.
              let pa = va.planned i p h in
              let pb = vb.planned i (a.plan i p) pa.1 in
              let ea = Extends-trans (a.plan i p) _ q pb.0 e in
              let eb = i * elems_per_chunk l in
              let room = λ (m n : ℕ). real_count (grid_chunk_len (elems_per_chunk l) m i) n eb in
              let ia = (a.build i (resolver_at q (length p.leaf_slots))).0 in
              let ib = (b.build i (resolver_at q (length (a.plan i p).leaf_slots))).0 in
              let first =
                ap₂ (λ m n. pad_iter ia (room m n) pad_a k) both va.size
                ∙ pad_iter-value ia f na (max na nb) i k pad_a lt (va.built i p q h ea) in
              let second =
                ap
                  (λ (r : Resolver T).
                    pad_iter (b.build i r).0 (room (max a.len b.len) b.len) pad_b k)
                  (va.resolved i p q h ea)
                ∙ ap₂ (λ m n. pad_iter ib (room m n) pad_b k) both vb.size
                ∙ pad_iter-value ib g nb (max na nb) i k pad_b lt
                    (vb.built i (a.plan i p) q pa.1 e) in
              λ t. (first t, second t);
        }
