-- ===== src/Tests/BigInt.antt =====
-- Big integers of two limbs, the larger one negative, and an append that opens a new slot.
use plaidlaylib.Prelude.{
  ℕ, ◌^◌, max, ◌≡◌, refl, inr, Bool, true, some, [], ◌∷◌, ltb, if◌then◌else◌, arith,
}
use plaidlaylib.Prelude.Int.{pos, ◌+ℤ◌}
use plaidlaylib.Layout.{epc, grid_num_chunks}
use plaidlaylib.Disk.{FilePath, Disk, get_file_name, same_path_self}
use plaidlaylib.Chunk.{ChunkSeq, contents, IsWellFormed}
use plaidlaylib.Access.{push_back}
use plaidlaylib.Access.Counts.{chunks_in}
use plaidlaylib.Access.Placed.{IsWhole, IsPlaced}
use plaidlaylib.Access.Pushed.{Pushed}
use plaidlaylib.Access.Push.{push_back-contents}
use plaidlaylib.Tabulate.{IsRun}
use plaidlaylib.BigInt.{chunk_bigint_add}
use plaidlaylib.BigInt.Value.{value}
use plaidlaylib.BigInt.Sum.{IsOperand, chunk_bigint_add-sum}
use plaidlaylib.Tests.Fixtures.{small, small-IsLayout, run_of}

abbrev by_number : FilePath → FilePath → Bool
by_number p q = ltb p.number q.number

-- Every block holds the limbs of -2^127 + 5.
abbrev negative : Disk ℕ
negative f a = 5 ∷ 2 ^ 63 ∷ []

negative-IsWhole : IsWhole small negative
negative-IsWhole f a = inr refl

abbrev operand : ChunkSeq
operand =
    record {
      filename = get_file_name ("/mnt/a" ∷ "/mnt/b" ∷ []) "in" 1;
      begin_addr = 0;
      used = 16;
      index = 0;
    }
    ∷ []

operand-IsWellFormed : IsWellFormed small negative operand
operand-IsWellFormed = record {
  indexed = (refl, tt);
  dense = (refl, omega arith);
  stored = (refl, tt);
}

operand-IsPlaced : IsPlaced small operand
unfolding chunks_in
operand-IsPlaced = record {
  slots = (
    record {
      slot = 0;
      address = refl;
      below = ground (arith, same_path_self (get_file_name ("/mnt/a" ∷ "/mnt/b" ∷ []) "in" 1));
    },
    tt,
  );
  separate = (tt, tt);
}

push_back-contents_example :
    (out : ChunkSeq × Disk ℕ) × (push_back by_number small 0 negative operand 7 ≡ some out)
    × Pushed small negative operand 7 out
push_back-contents_example =
    push_back-contents by_number small small-IsLayout refl 0 negative operand 7 (omega arith)
      (omega arith) operand-IsWellFormed operand-IsPlaced negative-IsWhole

operand-IsOperand : IsOperand small negative (λ src. operand) 0 operand
operand-IsOperand = record {
  own = refl;
  well_formed = operand-IsWellFormed;
  digits = (omega arith, (omega arith, tt));
  fits = omega arith;
}

single-IsRun : IsRun (run_of (0 ∷ [])) (grid_num_chunks (epc small) (max 2 2))
unfolding grid_num_chunks
single-IsRun = record {
  drives = λ i h. omega arith;
  order_below = (omega arith, tt);
  order_all = λ i h. ground arith;
}

-- The sum of the number with itself, and 1.
chunk_bigint_add-sum_example :
    (sum : ChunkSeq × Disk ℕ) × (chunk_bigint_add by_number small
        (run_of (0 ∷ []))
        "sum"
        true
        negative
        (0, operand)
        (0, operand)
      ≡ some sum)
    × IsWellFormed small sum.1 sum.0
    × (value (contents small sum.1 sum.0)
        ≡ value (contents small negative operand)
          +ℤ value (contents small negative operand)
          +ℤ pos (if true then 1 else 0))
chunk_bigint_add-sum_example =
    chunk_bigint_add-sum by_number small small-IsLayout refl negative negative-IsWhole
      (λ src. operand) (run_of (0 ∷ [])) "sum" true 0 0 operand operand operand-IsOperand
      operand-IsOperand (inr (omega arith, omega arith)) single-IsRun
