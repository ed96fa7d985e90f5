-- ===== src/Tests/Fixtures.antt =====
-- Two drives, chunks of two 8-byte elements, five elements in three chunks, and writes that land out
-- of order.
use plaidlaylib.Prelude.{ℕ, ◌+◌, ◌%◌, refl, List, [], ◌∷◌, arith, ◌==◌, if◌then◌else◌}
use plaidlaylib.Layout.{Layout, IsLayout, epc, grid_num_chunks}
use plaidlaylib.Disk.{Disk, get_file_name}
use plaidlaylib.Chunk.{ChunkSeq, IsWellFormed}
use plaidlaylib.Tabulate.{Run, IsRun}

abbrev pub small : Layout
small = record { chunk_size = 16; elem_size = 8 }

pub small-IsLayout : IsLayout small
small-IsLayout = record { elem_pos = omega arith; epc_pos = omega arith; divides = refl }

abbrev pub run_of : List ℕ → Run
run_of order = record {
  ssd_list = "/mnt/a" ∷ "/mnt/b" ∷ [];
  drive_of = λ i. (i + 1) % 2;
  order = order;
}

abbrev pub empty : Disk ℕ
empty = λ f a. []

pub run_of_three-IsRun : IsRun (run_of (2 ∷ 0 ∷ 1 ∷ [])) 3
run_of_three-IsRun = record {
  drives = λ i h. omega arith;
  order_below = (omega arith, (omega arith, (omega arith, tt)));
  order_all = λ i h. ground arith;
}

pub run_of_two-IsRun : IsRun (run_of (1 ∷ 0 ∷ [])) 2
run_of_two-IsRun = record {
  drives = λ i h. omega arith;
  order_below = (omega arith, (omega arith, tt));
  order_all = λ i h. ground arith;
}

pub grid_five : IsRun (run_of (2 ∷ 0 ∷ 1 ∷ [])) (grid_num_chunks (epc small) 5)
unfolding grid_num_chunks
grid_five = run_of_three-IsRun

-- Five elements as the two drives hold them, the second chunk on the first drive.
abbrev pub stored : Disk ℕ
stored f a = if f.number == 0 then 4 ∷ 1 ∷ [] else if a == 0 then 7 ∷ 2 ∷ [] else 9 ∷ 0 ∷ []

abbrev pub five : ChunkSeq
five =
    record {
      filename = get_file_name ("/mnt/a" ∷ "/mnt/b" ∷ []) "in" 1;
      begin_addr = 0;
      used = 16;
      index = 0;
    }
    ∷ record {
      filename = get_file_name ("/mnt/a" ∷ "/mnt/b" ∷ []) "in" 0;
      begin_addr = 0;
      used = 16;
      index = 1;
    }
    ∷ record {
      filename = get_file_name ("/mnt/a" ∷ "/mnt/b" ∷ []) "in" 1;
      begin_addr = 16;
      used = 8;
      index = 2;
    }
    ∷ []

pub five-IsWellFormed : IsWellFormed small stored five
unfolding get_file_name
five-IsWellFormed = record {
  indexed = (refl, (refl, (refl, tt)));
  dense = (refl, refl, (refl, refl, (refl, omega arith)));
  stored = (refl, (refl, (refl, tt)));
}

abbrev pub two_runs : Run
two_runs = run_of (1 ∷ 0 ∷ [])

abbrev pub three_runs : Run
three_runs = run_of (2 ∷ 0 ∷ 1 ∷ [])
