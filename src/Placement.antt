-- ===== src/Placement.antt =====
-- Where a fresh sequence goes: the balls-in-bins assignment of chunks to drives and of slots within
-- a drive's file, which `tabulate`, `from_file`, `sequential_tabulate` and `from_chunks` of
-- ChunkSequence/Primitives/chunk_seq.h and `delayed::force` share. The random draw of chunk `i` is
-- `drive_of i`, any number below the number of drives.
use plaidlaylib.Prelude.{ℕ, zero, suc, ◌+◌, List, [], ◌∷◌, ◌++◌, ◌==◌, if◌then◌else◌}
pub mod Slots

-- `drive_chunks[d]` once the first `n` chunks are pushed.
unfoldable pub drive_chunks : (ℕ → ℕ) → ℕ → ℕ → List ℕ
drive_chunks drive_of zero d = []
drive_chunks drive_of (suc n) d =
    let before = drive_chunks drive_of n d in if drive_of n == d then before ++ (n ∷ []) else before

-- `slot_of[drive_chunks[d][s]] = s`, for the `s` of one drive.
pub assign_slots : List ℕ → ℕ → (ℕ → ℕ) → ℕ → ℕ
assign_slots [] s slot_of = slot_of
assign_slots (c ∷ cs) s slot_of = assign_slots cs (s + 1) (λ i. if i == c then s else slot_of i)

-- `slot_of` once the first drives are done.
pub slot_table : (ℕ → ℕ) → ℕ → ℕ → ℕ → ℕ
unfolding drive_chunks assign_slots
slot_table drive_of num_chunks zero = λ i. 0
slot_table drive_of num_chunks (suc d) =
    assign_slots (drive_chunks drive_of num_chunks d) 0 (slot_table drive_of num_chunks d)
