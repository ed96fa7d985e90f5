-- ===== src/Tabulate/Placed.antt =====
-- A fresh sequence lies in the first slots of its files, each chunk in a block of its own.
use Prim.Native.String.{String}
use plaidlaylib.Prelude.{
  ℕ, zero, suc, ◌+◌, ◌≤◌, ◌<◌, ◌≡◌, refl, sym, ap, ap₂, ◌∙◌, inl, inr, Bool-cases, List, [], ◌∷◌,
  All, All-tabulate_from, length, length-replicate, tabulate_from, ◌==◌, ==_iff, ≢→==,
  if◌then◌else◌, arith, ℕ_discrete, mul-injective,
}
use plaidlaylib.Layout.{Layout, IsLayout, epc}
use plaidlaylib.Disk.{
  FilePath, Disk, same_path, same_path_iff, get_file_name, get_file_name-injective,
}
use plaidlaylib.Chunk.{Chunk}
use plaidlaylib.Placement.{drive_chunks, slot_table}
use plaidlaylib.Placement.Slots.{length-drive_chunks_step, slot_in_file, slots_distinct}
use plaidlaylib.Writer.{land}
use plaidlaylib.Access.Counts.{chunks_in}
use plaidlaylib.Access.Placed.{
  Apart, Separate, IsWhole, IsPlaced, chunks_in-append, IsWhole-write_block,
}
use plaidlaylib.Tabulate.{Run, IsRun, descriptor, request, write_fresh, allocate, allocate_file}
use plaidlaylib.Tabulate.Fresh.{length-pad_block}
use plaidlaylib.Tabulate.Grid.{tabulate_from-snoc}

Separate-tabulate_from :
    (s n : ℕ) (f : ℕ → Chunk)
    → ((i j : ℕ) → s ≤ i → i < j → j < s + n → Apart (f i) (f j))
    → Separate (tabulate_from s n f)
Separate-tabulate_from s zero f h = tt
Separate-tabulate_from s (suc n) f h = (
  All-tabulate_from (Apart (f s)) (s + 1) n f
      (λ j low high. h s j (omega arith) (omega arith) (omega arith)),
  Separate-tabulate_from (s + 1) n f (λ i j low lt high. h i j (omega arith) lt (omega arith)),
)

module _ (l : Layout) (w : IsLayout l) {A : Type 0} (zero_elem : A) (r : Run) (prefix : String)
    (n : ℕ) (header : ℕ → ℕ × ℕ) (chunk_data : ℕ → List A) (run : IsRun r n) where
  same_drive :
      (a b : ℕ)
      → same_path (get_file_name r.ssd_list prefix a) (get_file_name r.ssd_list prefix b) ≡ (a == b)
  same_drive a b =
      let name = get_file_name r.ssd_list prefix in
      elim (ℕ_discrete a b) [
        | yes same ↦ (same_path_iff (name a) (name b)).1 (ap name same) ∙ sym ((==_iff a b).1 same)
        | no other ↦ elim (Bool-cases (same_path (name a) (name b))) [
          | inl file ↦ absurd (
              other (
                get_file_name-injective r.ssd_list prefix a b
                  ((same_path_iff (name a) (name b)).0 file)))
          | inr apart ↦ apart ∙ sym (≢→== a b other)
        ]
      ]

  chunks_in-drive :
      (k d : ℕ)
      → chunks_in
          (get_file_name r.ssd_list prefix d)
          (tabulate_from 0 k (descriptor l zero_elem r prefix n header chunk_data))
        ≡ length (drive_chunks r.drive_of k d)
  unfolding chunks_in descriptor drive_chunks
  chunks_in-drive zero d = refl
  chunks_in-drive (suc k) d =
      let desc = descriptor l zero_elem r prefix n header chunk_data in
      ap (chunks_in (get_file_name r.ssd_list prefix d)) (tabulate_from-snoc 0 k desc)
      ∙ chunks_in-append (get_file_name r.ssd_list prefix d) (tabulate_from 0 k desc)
          (desc (0 + k) ∷ [])
      ∙ ap
          (λ t.
            chunks_in (get_file_name r.ssd_list prefix d) (tabulate_from 0 k desc)
            + chunks_in (get_file_name r.ssd_list prefix d) (desc t ∷ []))
          {x = 0 + k} {y = k} (omega arith)
      ∙ ap₂ ◌+◌ (chunks_in-drive k d)
          (ap (λ b. (if b then 1 else 0) + 0) (same_drive (r.drive_of k) d))
      ∙ omega (arith, length-drive_chunks_step r.drive_of k d)

  pub write_fresh-IsPlaced :
      (d : Disk A) → IsPlaced l (write_fresh l zero_elem r prefix n header chunk_data d).0
  unfolding write_fresh descriptor
  write_fresh-IsPlaced d =
      let desc = descriptor l zero_elem r prefix n header chunk_data in
      record {
        slots = All-tabulate_from _ 0 n desc (λ i low hi. record {
          slot = slot_table r.drive_of n (length r.ssd_list) i;
          address = refl;
          below = omega (
            arith,
            slot_in_file r.drive_of n (length r.ssd_list) i (omega arith)
                (run.drives i (omega arith)),
            chunks_in-drive n (r.drive_of i),
          );
        });
        separate = Separate-tabulate_from 0 n desc (λ i j low lt hi.
            elim (ℕ_discrete (r.drive_of i) (r.drive_of j)) [
              | yes same ↦ inr (λ e.
                  slots_distinct r.drive_of n (length r.ssd_list) i j (omega arith) (omega arith)
                    (run.drives i (omega arith)) same (omega arith)
                    (mul-injective _ _ l.chunk_size
                      (grind (arith, w.elem_pos, w.epc_pos, w.divides)) e))
              | no other ↦ inl (λ e.
                  other (get_file_name-injective r.ssd_list prefix (r.drive_of i) (r.drive_of j) e))
            ]);
      }

  allocate-IsWhole :
      (names : ℕ → FilePath) (chunks_of : ℕ → List ℕ) (k : ℕ) (d : Disk A)
      → IsWhole l d
      → IsWhole l (allocate l zero_elem names chunks_of k d)
  unfolding allocate allocate_file
  allocate-IsWhole names chunks_of zero d h f a = h f a
  allocate-IsWhole names chunks_of (suc k) d h f a =
      ground (arith, allocate-IsWhole names chunks_of k d h f a, length-replicate (epc l) zero_elem)

  module _ (sizes : (i : ℕ) → i < n → length (chunk_data i) ≤ epc l) where
    land-IsWhole :
        (order : List ℕ) (d : Disk A)
        → All (λ j. j < n) order
        → IsWhole l d
        → IsWhole l (land (request l zero_elem r prefix n header chunk_data) order d)
    unfolding land request
    land-IsWhole [] d below h f a = h f a
    land-IsWhole (i ∷ order) d below h f a =
        let req = request l zero_elem r prefix n header chunk_data i in
        land-IsWhole order _ below.1
          (IsWhole-write_block l d req.file req.offset req.block
            (length-pad_block l w zero_elem (chunk_data i) (sizes i below.0)) h)
          f a

    pub write_fresh-IsWhole :
        (d : Disk A)
        → IsWhole l d
        → IsWhole l (write_fresh l zero_elem r prefix n header chunk_data d).1
    unfolding write_fresh
    write_fresh-IsWhole d h = land-IsWhole r.order _ run.order_below (
        allocate-IsWhole (get_file_name r.ssd_list prefix) (drive_chunks r.drive_of n)
          (length r.ssd_list) d h)
