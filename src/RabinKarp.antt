-- ===== src/RabinKarp.antt =====
-- ChunkSequence/examples/chunk_rabin_karp.h: the Mersenne field, `RkScanChunk` and
-- `ChunkRabinKarp`. A character is its code, the value of `(unsigned int)(make_unsigned_t<CharT>)`.
use Prim.Native.String.{String}
use plaidlaylib.Prelude.{
  ℕ, zero, suc, ◌+◌, ◌-◌, ◌*◌, ◌/◌, ◌%◌, ◌^◌, min, Bool, true, false, ◌&&◌, ◌||◌, Option, none,
  some, List, [], ◌∷◌, ◌++◌, ◌==◌, ltb, leb, if◌then◌else◌, length, get_or,
}
use plaidlaylib.Layout.{Layout, epc, size_t_mod}
use plaidlaylib.Disk.{Disk}
use plaidlaylib.Chunk.{ChunkSeq}
use plaidlaylib.Tabulate.{Run}
use plaidlaylib.Primitives.{chunk_flat_map}
pub mod Field
pub mod Hash
pub mod Occurs
pub mod Windows
pub mod Scan
pub mod Search

-- The Mersenne prime 2^31 - 1.
abbrev pub p : ℕ
p = 2147483647

abbrev pub unsigned_int_mod : ℕ
unsigned_int_mod = 4294967296

-- `field(Int i)`
pub of_int : ℕ → ℕ
of_int i = i % unsigned_int_mod

-- `(x & p) + (x >> 31)`
pub fast_mod : ℕ → ℕ
fast_mod x = x % 2147483648 + x / 2147483648

pub field_add : ℕ → ℕ → ℕ
unfolding of_int fast_mod
field_add a b = of_int (fast_mod (a + b))

pub field_mul : ℕ → ℕ → ℕ
unfolding of_int fast_mod
field_mul a b = of_int (fast_mod (fast_mod (a * b % size_t_mod)))

-- `p - a.val` and the sum are `unsigned long`.
pub field_sub : ℕ → ℕ → ℕ
unfolding of_int fast_mod
field_sub a b = of_int (fast_mod ((a + (p + size_t_mod - b) % size_t_mod) % size_t_mod))

pub field_eq : ℕ → ℕ → Bool
field_eq a b = a % p == b % p

module _ (text overlap : List ℕ) where
  -- `at`
  pub at : ℕ → ℕ
  at i = if ltb i (length text) then get_or text i 0 else get_or overlap (i - length text) 0

  pub fch : ℕ → ℕ
  unfolding at of_int
  fch i = of_int (at i)

  -- `for (j = …; j < m; j++) h = h * x + fch(j)`, `n` turns.
  pub hash_from : ℕ → ℕ → ℕ → ℕ → ℕ
  unfolding fch field_add field_mul
  hash_from x zero j h = h
  hash_from x (suc n) j h = hash_from x n (j + 1) (field_add (field_mul h x) (fch j))

  -- `for (j < m && eq) if (at(i + j) != pattern[j]) eq = false`
  pub matches_at : List ℕ → ℕ → Bool
  unfolding at
  matches_at [] i = true
  matches_at (c ∷ pattern) i = if at i == c then matches_at pattern (i + 1) else false

  module _ (pattern : List ℕ) (pattern_hash x x_m1 global_pos : ℕ) where
    -- The test of one window.
    pub report : ℕ → ℕ → List ℕ → List ℕ
    unfolding matches_at field_eq
    report i h out =
        if field_eq h pattern_hash
        then if matches_at pattern i then out ++ ((global_pos + i) ∷ []) else out
        else out

    -- `h = (h - fch(i) * x_m1) * x + fch(i + m)`
    pub roll : ℕ → ℕ → ℕ
    unfolding fch field_add field_mul field_sub
    roll i h =
        field_add (field_mul (field_sub h (field_mul (fch i) x_m1)) x) (fch (i + length pattern))

    -- The window loop with `last_start - i` turns left.
    pub scan_windows : ℕ → ℕ → ℕ → List ℕ → List ℕ
    unfolding report roll
    scan_windows zero i h out = report i h out
    scan_windows (suc k) i h out = scan_windows k (i + 1) (roll i h) (report i h out)

    -- Where `total ≥ m`, a scan has `n_b > 0`, as the overlap is shorter than the pattern.
    pub rk_scan_chunk : List ℕ
    unfolding hash_from scan_windows
    rk_scan_chunk =
        let n_b = length text in
        let total = n_b + length overlap in
        let m = length pattern in
        if ltb total m
        then []
        else scan_windows (min (n_b - 1) (total - m)) 0 (hash_from x m 0 (of_int 0)) []

abbrev pub base : ℕ
base = 500000000

-- `for (i < n) x_m1 = x_m1 * x`
pub powers : ℕ → ℕ → ℕ
unfolding field_mul
powers zero x_m1 = x_m1
powers (suc n) x_m1 = powers n (field_mul x_m1 base)

-- The pattern's hash.
pub hash_pattern : List ℕ → ℕ → ℕ
unfolding field_add field_mul of_int
hash_pattern [] h = h
hash_pattern (c ∷ pattern) h = hash_pattern pattern (field_add (field_mul h base) (of_int c))

-- The body that `ChunkRabinKarp` hands to `ChunkFlatMap`.
unfoldable pub rk_body : List ℕ → List ℕ → ℕ → List ℕ → List ℕ
unfolding rk_scan_chunk powers hash_pattern
rk_body pattern text gpos halo =
    rk_scan_chunk text halo pattern (hash_pattern pattern (of_int 0)) base
      (powers (length pattern - 1) (of_int 1)) gpos

pub chunk_rabin_karp :
    Layout
    → Layout
    → Run
    → String
    → Disk ℕ
    → ChunkSeq
    → List ℕ
    → Disk ℕ
    → Option (ChunkSeq × Disk ℕ)
unfolding rk_body
chunk_rabin_karp lt lr r prefix dt seq pattern d =
    if leb (length pattern) (epc lt)
    then if length pattern == 0 || length seq == 0
      then some ([], d)
      else chunk_flat_map lt lr 0 r prefix dt seq (length pattern - 1) (rk_body pattern) d
    else none
