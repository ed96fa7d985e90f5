-- ===== src/Transform/Ordered.antt =====
-- `ExternalTransform` restores the logical order, whatever the order of the emits.
use Prim.Native.String.{String}
use mathlib.Core.List.{Permᴰ}
use plaidlaylib.Prelude.{
  ℕ, ◌*◌, ◌≤◌, le→leb, ◌≡◌, refl, sym, subst, ◌∙◌, Option, some, true, List, length, concat, All,
  All-perm, arith, leb, get_or, if◌then◌else◌, none,
}
use mathlib.Core.List.Permᴰ
use plaidlaylib.Layout.{Layout, IsLayout, epc}
use plaidlaylib.Disk.{Disk}
use plaidlaylib.Chunk.{ChunkSeq, sort_by_indices, contents, IsStored, IsDense, IndexedFrom}
use plaidlaylib.Writer.{land}
use plaidlaylib.Tabulate.{Run, IsRun}
use plaidlaylib.DensePack.{truncate_files, nothing}
use plaidlaylib.DensePack.Packer.{Cut}
use plaidlaylib.Transform.{Emission, EmitState, emissions, external_transform, renumber}
use plaidlaylib.Transform.Sorted.{Increasing, Match-restored}
use plaidlaylib.Transform.Emitted.{
  emitted, length-emitted, emit_all-state, Shows-key, land-Shows, renumber-contents,
  renumber-IsDense, blocks_of,
}

length-perm : {A : Type 0} {xs ys : List A} → Permᴰ xs ys → length xs ≡ length ys
length-perm Permᴰ.nil = refl
length-perm (Permᴰ.cons e p) = omega (arith, length-perm p)
length-perm (Permᴰ.swap e₁ e₂) = refl
length-perm (Permᴰ.trans p q) = length-perm p ∙ length-perm q

module _ (l : Layout) (w : IsLayout l) {R : Type 0} (zero_elem : R) (r : Run)
    (prefix : String) where
  -- The returned sequence and the drives hold the blocks, in the order of the list.
  pub record Returns (fs : List (Emission R)) (result : Option (ChunkSeq × Disk R)) : Type 0 where
    pub out : ChunkSeq × Disk R
    pub returned : result ≡ some out
    pub content : contents l out.1 out.0 ≡ concat (blocks_of fs)
    pub indexed : IndexedFrom 0 out.0
    pub stored : IsStored l out.1 out.0
    pub dense : Cut l w zero_elem r prefix (blocks_of fs) → IsDense l out.0

  pub external_transform-Returns :
      (lt : Layout) {T : Type 0} (schedule : List (Emission R) → List (Emission R)) (dt : Disk T)
      (seq : ChunkSeq) (body : List T → ℕ → List (Emission R)) (max_out k : ℕ) (d : Disk R)
      → let fs = emissions lt dt body seq in
        Permᴰ (schedule fs) fs
        → Increasing k fs
        → All (λ (e : Emission R). length e.elems ≤ epc l) fs
        → length fs ≤ length seq * max_out
        → IsRun r (length fs)
        → Returns fs
            (external_transform lt l zero_elem r prefix schedule dt seq body max_out true d)
  unfolding external_transform
  external_transform-Returns lt schedule dt seq body max_out k d perm inc short room run =
      let fs = emissions lt dt body seq in
      let es = schedule fs in
      let clean = truncate_files l zero_elem r prefix (length r.ssd_list) d in
      let size : length es ≡ length fs = length-perm perm in
      let shows =
        land-Shows l w zero_elem r prefix es clean
          (All-perm (λ (e : Emission R). length e.elems ≤ epc l) (Permᴰ.symm perm) short)
          (subst (IsRun r) (sym size) run) in
      let restored =
        Match-restored _ (Shows-key l w zero_elem r prefix _) k
          (emitted l w zero_elem r prefix 0 es) shows perm inc in
      let whole = renumber-contents l w zero_elem r prefix _ 0 _ fs restored in
      let fits : leb (length (emitted l w zero_elem r prefix 0 es)) (length seq * max_out) ≡ true =
        le→leb _ _ (omega (arith, length-emitted l w zero_elem r prefix 0 es, size)) in
      subst (λ s. Returns fs (finish s)) (sym (emit_all-state l w zero_elem r prefix es))
        (record {
          out = (renumber 0 (sort_by_indices (emitted l w zero_elem r prefix 0 es)), _);
          returned = rw fits refl;
          content = whole.0;
          indexed = whole.1;
          stored = whole.2;
          dense = renumber-IsDense l w zero_elem r prefix _ 0 _ fs restored;
        })
    where
      finish : EmitState R → Option (ChunkSeq × Disk R)
      finish s =
          if leb (length s.out_chunks) (length seq * max_out)
          then some (
            renumber 0 (sort_by_indices s.out_chunks),
            land (λ i. get_or s.pushed i nothing) r.order
                (truncate_files l zero_elem r prefix (length r.ssd_list) d),
          )
          else none
