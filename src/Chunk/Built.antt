-- ===== src/Chunk/Built.antt =====
-- Sequences whose descriptors are computed from their position.
use plaidlaylib.Prelude.{ℕ, zero, suc, ◌+◌, ◌*◌, ◌≤◌, ◌<◌, ◌≡◌, arith, tabulate_from}
use plaidlaylib.Layout.{Layout, epc}
use plaidlaylib.Chunk.{Chunk, IndexedFrom, count, IsDense}

pub IndexedFrom-tabulate_from :
    (s n : ℕ) (f : ℕ → Chunk)
    → ((i : ℕ) → s ≤ i → i < s + n → (f i).index ≡ i)
    → IndexedFrom s (tabulate_from s n f)
IndexedFrom-tabulate_from s zero f h = tt
IndexedFrom-tabulate_from s (suc n) f h = (
  h s (omega arith) (omega arith),
  IndexedFrom-tabulate_from (s + 1) n f (λ i p q. h i (omega arith) (omega arith)),
)

module _ (l : Layout) where
  -- Chunk `i` of a dense sequence of `n` chunks.
  abbrev pub Fits : ℕ → ℕ → Chunk → Type 0
  Fits n i c =
      (count l c * l.elem_size ≡ c.used) × (count l c ≤ epc l) × (suc i < n → count l c ≡ epc l)

  pub IsDense-tabulate_from :
      (s n : ℕ) (f : ℕ → Chunk)
      → ((i : ℕ) → s ≤ i → i < s + n → Fits (s + n) i (f i))
      → IsDense l (tabulate_from s n f)
  IsDense-tabulate_from s zero f h = tt
  IsDense-tabulate_from s (suc zero) f h =
      let here = h s (omega arith) (omega arith) in (here.0, here.1)
  IsDense-tabulate_from s (suc (suc n)) f h =
      let here = h s (omega arith) (omega arith) in
      (
        here.0,
        here.2 (omega arith),
        IsDense-tabulate_from (s + 1) (suc n) f (λ i p q.
            let there = h i (omega arith) (omega arith) in
            (there.0, there.1, λ lt. there.2 (omega arith))),
      )
