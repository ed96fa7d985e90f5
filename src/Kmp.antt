-- ===== src/Kmp.antt =====
-- ChunkSequence/examples/chunk_kmp.h: `KmpScanChunk` and `ChunkKmp`. A character is its code. The
-- C++ variables `tail` and `l` and the entries of `failure` start at -1; the model holds each of them
-- plus 1, the number of characters that are matched.
use Prim.Native.String.{String}
use plaidlaylib.Prelude.{
  ℕ, zero, suc, ◌+◌, ◌-◌, Bool, true, false, ◌&&◌, ◌||◌, not, Option, none, some, List, [], ◌∷◌,
  ◌++◌, ◌==◌, ltb, leb, if◌then◌else◌, length, get_or, set, replicate,
}
use plaidlaylib.Layout.{Layout, epc}
use plaidlaylib.Disk.{Disk}
use plaidlaylib.Chunk.{ChunkSeq}
use plaidlaylib.Tabulate.{Run}
use plaidlaylib.Primitives.{chunk_flat_map}
pub mod Borders
pub mod Failure
pub mod Scan
pub mod Search

-- `while (tail != -1 && c != pattern[tail + 1]) tail = failure[tail]`; `failure[tail] < tail`, so
-- `matched` turns are enough.
pub fall_back : List ℕ → List ℕ → ℕ → ℕ → ℕ → ℕ
fall_back pattern failure c zero matched = matched
fall_back pattern failure c (suc fuel) matched =
    let rest = fall_back pattern failure c fuel (get_or failure (matched - 1) 0) in
    if not (matched == 0) && not (c == get_or pattern matched 0) then rest else matched

-- The loop over `r`, with `n` turns left.
pub build_failure : List ℕ → ℕ → ℕ → ℕ → List ℕ → List ℕ
unfolding fall_back
build_failure pattern zero r l failure = failure
build_failure pattern (suc n) r l failure =
    let back = fall_back pattern failure (get_or pattern r 0) l l in
    let longer = build_failure pattern n (r + 1) (back + 1) (set failure r (back + 1)) in
    let same = build_failure pattern n (r + 1) back failure in
    if get_or pattern back 0 == get_or pattern r 0 then longer else same

pub failure_of : List ℕ → List ℕ
unfolding build_failure
failure_of pattern = build_failure pattern (length pattern - 1) 1 0 (replicate (length pattern) 0)

module _ (text overlap pattern failure : List ℕ) (global_pos : ℕ) where
  -- `at`
  pub text_at : ℕ → ℕ
  text_at i = if ltb i (length text) then get_or text i 0 else get_or overlap (i - length text) 0

  -- `if (c == pattern[tail + 1]) tail++`, behind the inner loop.
  pub advance : ℕ → ℕ → ℕ
  unfolding fall_back
  advance c matched =
      let back = fall_back pattern failure c matched matched in
      if c == get_or pattern back 0 then back + 1 else back

  -- The loop over `i`, with `n_b + ov - i` turns left; `(i - tail) <= n_b` is its second condition.
  pub scan_text : ℕ → ℕ → ℕ → List ℕ → List ℕ
  unfolding text_at advance
  scan_text zero i matched out = out
  scan_text (suc n) i matched out =
      let now = advance (text_at i) matched in
      let found =
        scan_text n (i + 1) (get_or failure (now - 1) 0)
          (out ++ ((global_pos + (i + 1 - now)) ∷ [])) in
      let going = scan_text n (i + 1) now out in
      if leb (i + 1) (length text + matched)
      then (if now == length pattern then found else going)
      else out

  pub kmp_scan_chunk : List ℕ
  unfolding scan_text
  kmp_scan_chunk = scan_text (length text + length overlap) 0 0 []

-- The body that `ChunkKmp` hands to `ChunkFlatMap`.
unfoldable pub kmp_body : List ℕ → List ℕ → ℕ → List ℕ → List ℕ
unfolding kmp_scan_chunk failure_of
kmp_body pattern text gpos halo = kmp_scan_chunk text halo pattern (failure_of pattern) gpos

pub chunk_kmp :
    Layout
    → Layout
    → Run
    → String
    → Disk ℕ
    → ChunkSeq
    → List ℕ
    → Disk ℕ
    → Option (ChunkSeq × Disk ℕ)
unfolding kmp_body
chunk_kmp lt lr r prefix dt seq pattern d =
    if leb (length pattern) (epc lt)
    then if length pattern == 0 || length seq == 0
      then some ([], d)
      else chunk_flat_map lt lr 0 r prefix dt seq (length pattern - 1) (kmp_body pattern) d
    else none
