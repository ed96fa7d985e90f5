-- ===== src/BigInt/Chain.antt =====
-- The delayed chain of the addition denotes the limbs of the sum, and `force` writes them out.
use Prim.Native.String.{String}
use plaidlaylib.Prelude.{
  ℕ, ◌+◌, ◌/◌, ◌≤◌, ◌<◌, max, ◌≡◌, refl, sym, ap, subst, ◌∙◌, Bool, some, List, length, get_or,
  tabulate_from, tabulate_from_ext, ltb, lt→ltb, ==_iff, if◌then◌else◌, arith,
}
use plaidlaylib.Layout.{Layout, IsLayout, epc, size_t_mod, grid_num_chunks}
use plaidlaylib.Disk.{FilePath, Disk}
use plaidlaylib.Chunk.{ChunkSeq, contents, IsWellFormed}
use plaidlaylib.Access.Placed.{IsPlaced, IsWhole}
use plaidlaylib.Tabulate.{Run, IsRun}
use plaidlaylib.Delayed.{Node, elems_per_chunk, delay, map_node, zip_node, zip_padded, zip, force}
use plaidlaylib.Delayed.Denotes.{Denotes, map_node-Denotes, zip_node-Denotes}
use plaidlaylib.Delayed.Leaf.{delay-Denotes}
use plaidlaylib.Delayed.Reduced.{upto-suc, scan-Denotes}
use plaidlaylib.Delayed.Forced.{force-contents, force-IsPlaced, force-IsWhole, force-length}
use plaidlaylib.Reduce.Fold.{fold_left}
use plaidlaylib.BigInt.{propagate, classify, carry_fn, add_limbs, ab_pairs, scanned_carries}
use plaidlaylib.BigInt.Extended.{extended_at}
use plaidlaylib.BigInt.Carry.{carry_fn-IsMonoid}

module _ (l : Layout) (w : IsLayout l) (wide : l.elem_size ≡ 8) (d : Disk ℕ)
    (sources : ℕ → ChunkSeq) (src_a src_b : ℕ) (a b : ChunkSeq) (own_a : sources src_a ≡ a)
    (own_b : sources src_b ≡ b) (va : IsWellFormed l d a) (vb : IsWellFormed l d b)
    (longer : length (contents l d b) ≤ length (contents l d a))
    (fits : length (contents l d a) + epc l ≤ size_t_mod) where
  abbrev pub xs : List ℕ
  xs = contents l d a

  abbrev pub ys : List ℕ
  ys = contents l d b

  abbrev pub n : ℕ
  n = length (contents l d a)

  module _ (name_lt : FilePath → FilePath → Bool) (r : Run) (prefix : String) (pad extra : ℕ) where
    unfoldable pub pair_at : ℕ → ℕ × ℕ
    pair_at j = (extended_at xs pad j, extended_at ys pad j)

    unfoldable pub pairs : Node ℕ (ℕ × ℕ)
    pairs = ab_pairs name_lt l r prefix (src_a, a) (src_b, b) pad

    pub pairs-Denotes : Denotes l d sources pairs n pair_at
    unfolding ab_pairs zip_padded pairs pair_at
    pairs-Denotes =
        subst
          (λ m.
            Denotes l d sources (ab_pairs name_lt l r prefix (src_a, a) (src_b, b) pad) m pair_at)
          {x = max (length xs) (length ys)} {y = length xs} (omega arith)
          (zip_node-Denotes l d sources (delay l 0 src_a a) (delay l 0 src_b b) (length xs)
            (length ys) (λ j. get_or xs j 0) (λ j. get_or ys j 0) pad pad
            (delay-Denotes l w 0 d sources src_a a own_a va wide fits)
            (delay-Denotes l w 0 d sources src_b b own_b vb wide (omega arith)))

    unfoldable pub class_at : ℕ → ℕ
    unfolding classify
    class_at j = classify (pair_at j).0 (pair_at j).1

    classes-Denotes : Denotes l d sources (map_node l pairs (λ p. classify p.0 p.1)) n class_at
    unfolding class_at
    classes-Denotes =
        map_node-Denotes l d sources pairs n pair_at (λ p. classify p.0 p.1) pairs-Denotes

    unfoldable pub carry_at : ℕ → ℕ
    unfolding carry_fn
    carry_at j = fold_left carry_fn propagate (tabulate_from 0 j class_at)

    grid_pos : 0 < elems_per_chunk l
    grid_pos = subst (λ e. 0 < l.chunk_size / e) wide w.epc_pos

    grid_fits : n + elems_per_chunk l ≤ size_t_mod
    grid_fits = subst (λ e. length (contents l d a) + l.chunk_size / e ≤ size_t_mod) wide fits

    classes : Node ℕ ℕ
    unfolding classify
    classes = map_node l pairs (λ p. classify p.0 p.1)

    unfoldable pub scanned : Node ℕ ℕ
    scanned = scanned_carries name_lt l r prefix d pairs

    scanned-Denotes : Denotes l d sources scanned n carry_at
    unfolding scanned scanned_carries carry_at
    scanned-Denotes =
        (scan-Denotes l d sources (map_node l pairs (λ p. classify p.0 p.1)) n class_at
          classes-Denotes carry_fn propagate carry_fn-IsMonoid grid_pos grid_fits).0

    pub carry_at-suc : (j : ℕ) → carry_at (j + 1) ≡ carry_fn (carry_at j) (class_at j)
    unfolding carry_at
    carry_at-suc j =
        upto-suc l d sources (map_node l pairs (λ p. classify p.0 p.1)) n class_at classes-Denotes
          carry_fn propagate carry_fn-IsMonoid grid_pos grid_fits j

    unfoldable pub triple : Node ℕ ((ℕ × ℕ) × ℕ)
    triple = zip_node l pairs scanned (0, 0) 0

    pub zip-some : zip l (0, 0) 0 pairs scanned ≡ some triple
    unfolding zip triple
    zip-some =
        rw ((==_iff pairs.len scanned.len).1 (pairs-Denotes.size ∙ sym scanned-Denotes.size)) refl

    unfoldable pub result : Node ℕ ℕ
    unfolding add_limbs
    result = map_node l triple (λ t. add_limbs extra t.0.0 t.0.1 t.1)

    guarded_at : ℕ → (ℕ × ℕ) × ℕ
    guarded_at j = (if ltb j n then pair_at j else (0, 0), if ltb j n then carry_at j else 0)

    result-Denotes :
        Denotes l d sources result n
          (λ j. add_limbs extra (guarded_at j).0.0 (guarded_at j).0.1 (guarded_at j).1)
    unfolding result triple guarded_at
    result-Denotes =
        map_node-Denotes l d sources triple n guarded_at (λ t. add_limbs extra t.0.0 t.0.1 t.1)
          (subst (λ m. Denotes l d sources triple m guarded_at) {x = max n n} {y = n} (omega arith)
            (zip_node-Denotes l d sources pairs scanned n n pair_at carry_at (0, 0) 0 pairs-Denotes
              scanned-Denotes))

    unfoldable pub limb_at : ℕ → ℕ
    unfolding add_limbs
    limb_at j = add_limbs extra (pair_at j).0 (pair_at j).1 (carry_at j)

    module _ (run : IsRun r (grid_num_chunks (epc l) n)) (whole : IsWhole l d) where
      unfoldable pub forced : ChunkSeq × Disk ℕ
      forced = force l l 0 r prefix d result d

      grid : epc l ≡ elems_per_chunk l
      grid = ap (λ e. l.chunk_size / e) wide

      pub forced-contents :
          (contents l forced.1 forced.0 ≡ tabulate_from 0 n limb_at)
          × IsWellFormed l forced.1 forced.0
      unfolding forced limb_at guarded_at
      forced-contents =
          let out =
            force-contents l d sources l w 0 r prefix result n _ result-Denotes grid fits run d in
          (
            out.0
                ∙ tabulate_from_ext 0 n _ limb_at
                    (λ j low lt. rw (lt→ltb j (length (contents l d a)) (omega arith)) refl),
            out.1,
          )

      pub forced-IsPlaced : IsPlaced l forced.0
      unfolding forced
      forced-IsPlaced =
          force-IsPlaced l d sources l w 0 r prefix result n _ result-Denotes grid fits run d

      pub forced-IsWhole : IsWhole l forced.1
      unfolding forced
      forced-IsWhole =
          force-IsWhole l d sources l w 0 r prefix result n _ result-Denotes grid fits run d whole

      pub forced-length : length forced.0 ≡ grid_num_chunks (epc l) n
      unfolding forced
      forced-length =
          force-length l d sources l w 0 r prefix result n _ result-Denotes grid fits run d
