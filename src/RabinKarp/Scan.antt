-- ===== src/RabinKarp/Scan.antt =====
-- `RkScanChunk` reports the occurrences that start in its chunk, and no other.
use plaidlaylib.Prelude.{
  ℕ, zero, suc, ◌+◌, ◌-◌, ◌%◌, ◌^◌, ◌≤◌, min, ◌≡◌, refl, sym, ap, ◌∙◌, subst, Bool, true, false,
  List, [], ◌∷◌, ◌++◌, append_assoc, All, length, take, drop, arith, ◌==◌, ==_iff, lt→ltb, le→ltb,
  dec_lt, if◌then◌else◌, Bool-cases, inl, inr, append-nil, length-append, length-take,
}
use plaidlaylib.RabinKarp.{
  p, base, of_int, field_eq, matches_at, report, scan_windows, rk_scan_chunk, hash_from,
}
use plaidlaylib.RabinKarp.Hash.{
  IsCode, Represents, horner, at-append, hash_from-Represents, roll-Represents, drop-at,
}
use plaidlaylib.RabinKarp.Windows.{windows, windows-late, windows-split, windows-occurrences}
use plaidlaylib.RabinKarp.Occurs.{has_prefix, occurrences, has_prefix-take}

module _ (text overlap pattern : List ℕ) (m gpos hash x_m1 : ℕ) (len : length pattern ≡ suc m)
    (codes : All IsCode (text ++ overlap)) (hash_ok : Represents hash (horner pattern 0))
    (power_ok : Represents x_m1 (base ^ m)) where
  abbrev full : List ℕ
  full = text ++ overlap

  matches_at-has_prefix :
      (pat : List ℕ) (i : ℕ)
      → i + length pat ≤ length full
      → matches_at text overlap pat i ≡ has_prefix pat (drop i full)
  unfolding matches_at
  matches_at-has_prefix [] i h = refl
  matches_at-has_prefix (c ∷ pat) i h =
      rw
        (
          drop-at full i (omega arith),
          at-append text overlap codes i,
          matches_at-has_prefix pat (i + 1) (omega arith),
        )
        refl

  -- The test of a window reports it exactly if the pattern is there: the hash never hides a match.
  report-has_prefix :
      (i h : ℕ) (out : List ℕ)
      → i + suc m ≤ length full
      → Represents h (horner (take (suc m) (drop i full)) 0)
      → report text overlap pattern hash base x_m1 gpos i h out
        ≡ (if has_prefix pattern (drop i full) then out ++ ((gpos + i) ∷ []) else out)
  unfolding report field_eq
  report-has_prefix i h out room ok = elim (Bool-cases (has_prefix pattern (drop i full))) [
    | inl e ↦
        let window : take (suc m) (drop i full) ≡ pattern =
          ap (λ t. take t (drop i full)) (sym len) ∙ has_prefix-take pattern (drop i full) e in
        let same : h % p ≡ hash % p = ok.1 ∙ ap (λ t. horner t 0 % p) window ∙ sym hash_ok.1 in
        rw (matches_at-has_prefix pattern i (omega arith), e, (==_iff (h % p) (hash % p)).1 same)
          refl
    | inr e ↦ rw (matches_at-has_prefix pattern i (omega arith), e) (either (h % p == hash % p))
  ]
    where
      either : (b : Bool) → (if b then out else out) ≡ out
      either true = refl
      either false = refl

  scan_windows-windows :
      (k i h : ℕ) (out : List ℕ)
      → i + k + suc m ≤ length full
      → Represents h (horner (take (suc m) (drop i full)) 0)
      → scan_windows text overlap pattern hash base x_m1 gpos k i h out
        ≡ out ++ windows full pattern gpos (suc k) i
  unfolding scan_windows windows
  scan_windows-windows zero i h out room ok =
      report-has_prefix i h out (omega arith) ok ∙ last (has_prefix pattern (drop i full))
    where
      last :
          (b : Bool)
          → (if b then out ++ ((gpos + i) ∷ []) else out)
            ≡ out ++ (if b then (gpos + i) ∷ [] else [])
      last true = refl
      last false = sym (append-nil out)
  scan_windows-windows (suc k) i h out room ok =
      scan_windows-windows k (i + 1) _ _ (omega arith) (
        roll-Represents text overlap codes pattern hash x_m1 gpos m i h len (omega arith) power_ok
          ok)
      ∙ ap (λ t. t ++ windows full pattern gpos (suc k) (i + 1))
          (report-has_prefix i h out (omega arith) ok)
      ∙ move (has_prefix pattern (drop i full)) (windows full pattern gpos (suc k) (i + 1))
    where
      move :
          (b : Bool) (ws : List ℕ)
          → (if b then out ++ ((gpos + i) ∷ []) else out) ++ ws
            ≡ out ++ (if b then (gpos + i) ∷ ws else ws)
      move true ws = append_assoc out ((gpos + i) ∷ []) ws
      move false ws = refl

  zero_of_int : Represents (of_int 0) 0
  unfolding of_int
  zero_of_int = (omega arith, refl)

  scan-windows :
      length overlap ≤ m
      → rk_scan_chunk text overlap pattern hash base x_m1 gpos
        ≡ windows full pattern gpos (length text) 0
  unfolding rk_scan_chunk
  scan-windows short =
      let total = length-append text overlap in
      elim (dec_lt (length text + length overlap) (length pattern)) [
        | yes h ↦ rw (lt→ltb (length text + length overlap) (length pattern) h) (
            sym (
              windows-late full pattern gpos (length text) 0 (omega (arith, len))
                (λ _. omega (arith, total, len))))
        | no h ↦
            let last = min (length text - 1) (length text + length overlap - length pattern) in
            let zero_hash : Represents (of_int 0) 0 = zero_of_int in
            let first =
              hash_from-Represents text overlap codes (length pattern) 0 (of_int 0) 0
                (omega (arith, total)) zero_hash in
            rw (le→ltb (length text + length overlap) (length pattern) (omega arith)) (
              scan_windows-windows last 0 _ [] (omega (arith, total, len)) (
                subst
                  (λ n.
                    Represents (hash_from text overlap base (length pattern) 0 (of_int 0))
                      (horner (take n full) 0))
                  len first)
              ∙ sym (append-nil (windows full pattern gpos (suc last) 0))
              ∙ ap (λ t. windows full pattern gpos (suc last) 0 ++ t)
                  (sym (
                    windows-late full pattern gpos (length text - suc last) (0 + suc last)
                      (omega (arith, len)) (λ _. omega (arith, total, len))))
              ∙ sym (windows-split full pattern gpos (suc last) (length text - suc last) 0)
              ∙ ap (λ t. windows full pattern gpos t 0) {x = suc last + (length text - suc last)}
                  {y = length text} (omega (arith, len)))
      ]

  -- With the head of what follows as its overlap, one scan reports the occurrences that start in
  -- its chunk, in order and each once.
  pub rk_scan_chunk-occurrences :
      (rest : List ℕ)
      → overlap ≡ take m rest
      → rk_scan_chunk text overlap pattern hash base x_m1 gpos ≡ occurrences pattern text gpos rest
  rk_scan_chunk-occurrences rest e =
      scan-windows (omega (arith, ap length e, length-take m rest))
      ∙ windows-occurrences full pattern gpos text rest 0 m (ap (λ t. text ++ t) e)
          (omega (arith, len))
      ∙ ap (λ t. occurrences pattern text t rest) {x = gpos + 0} {y = gpos} (omega arith)
