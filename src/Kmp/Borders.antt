-- ===== src/Kmp/Borders.antt =====
-- Borders of a pattern, and what the fall back of the search keeps.
use plaidlaylib.Prelude.{
  ℕ, zero, suc, ◌+◌, ◌-◌, ◌≤◌, ◌<◌, ◌≡◌, sym, ap, ◌∙◌, subst, ◌⊎◌, inl, inr, ◌≢◌, List, get_or,
  arith, ℕ_discrete, ==_iff, ≢→==, dec_lt,
}
use plaidlaylib.Kmp.{fall_back}

module _ (pattern : List ℕ) where
  abbrev pub letter : ℕ → ℕ
  letter t = get_or pattern t 0

  -- The first `n` letters stand in `x` from `s` on.
  abbrev pub Agrees : (ℕ → ℕ) → ℕ → ℕ → Type 0
  Agrees x n s = (t : ℕ) → t < n → letter t ≡ x (s + t)

  -- `k` is the length of the longest proper border of the first `q` letters.
  pub record IsBorder (q k : ℕ) : Type 0 where
    pub less : k < q
    pub agree : Agrees letter k (q - k)
    pub best : (e : ℕ) → 0 < e → e + k < q → ¬ Agrees letter (q - e) e

  pub Agrees-fewer : (x : ℕ → ℕ) (m n s : ℕ) → m ≤ n → Agrees x n s → Agrees x m s
  Agrees-fewer x m n s le h t lt = h t (omega arith)

  -- A later start in `x` with a match that overlaps gives a border.
  Agrees-shift :
      (x : ℕ → ℕ) (q s e : ℕ)
      → e ≤ q
      → Agrees x q s
      → Agrees x (q - e) (s + e)
      → Agrees letter (q - e) e
  Agrees-shift x q s e le h g t lt =
      g t lt ∙ ap x {x = s + e + t} {y = s + (e + t)} (omega arith) ∙ sym (h (e + t) (omega arith))

  -- Falling back to the border keeps the match, and skips no start that could match.
  pub border-Agrees :
      (x : ℕ → ℕ) (q k s : ℕ) → IsBorder q k → Agrees x q s → Agrees x k (s + (q - k))
  border-Agrees x q k s b h t lt =
      let less = b.less in
      b.agree t lt
      ∙ h (q - k + t) (omega arith)
      ∙ ap x {x = s + (q - k + t)} {y = s + (q - k) + t} (omega arith)

  pub border-skips :
      (x : ℕ → ℕ) (q k s e : ℕ)
      → IsBorder q k
      → Agrees x q s
      → s < e
      → e + k < s + q
      → ¬ Agrees x (s + q - e) e
  border-skips x q k s e b h lt below g =
      let shift = e - s in
      b.best shift (omega arith) (omega arith) (
        Agrees-shift x q s shift (omega arith) h
          (λ t small. g t (omega arith) ∙ ap x {x = e + t} {y = s + shift + t} (omega arith)))

  -- What holds once the inner loop has ended, before the letter at `i` is taken in: `matched` letters
  -- are matched, up to `i`, and the starts from `low` on that were passed over do not match.
  pub record FellBack (x : ℕ → ℕ) (i low matched : ℕ) : Type 0 where
    pub within : low + matched ≤ i
    pub agrees : Agrees x matched (i - matched)
    pub stops : (matched ≡ 0) ⊎ (letter matched ≡ x i)
    pub skipped : (e : ℕ) → low ≤ e → e + matched < i → ¬ Agrees x (i + 1 - e) e

  module _ (failure : List ℕ) where
    -- The table is right for the lengths up to `n`.
    abbrev pub IsTable : ℕ → Type 0
    IsTable n = (q : ℕ) → 0 < q → q ≤ n → IsBorder q (get_or failure (q - 1) 0)

    stopped :
        (x : ℕ → ℕ) (i q s : ℕ)
        → s + q ≡ i
        → Agrees x q s
        → (q ≡ 0) ⊎ (letter q ≡ x i)
        → FellBack x i s q
    stopped x i q s e h stop = record {
      within = omega arith;
      agrees = subst (Agrees x q) {x = s} {y = i - q} (omega arith) h;
      stops = stop;
      skipped = λ f low below. absurd (omega arith);
    }

    passed_over :
        (x : ℕ → ℕ) (i q k s r : ℕ)
        → s + q ≡ i
        → Agrees x q s
        → IsBorder q k
        → x i ≢ letter q
        → FellBack x i (s + (q - k)) r
        → FellBack x i s r
    passed_over x i q k s r e h b other rest =
        let less = b.less in
        record {
          within = omega (arith, rest.within);
          agrees = rest.agrees;
          stops = rest.stops;
          skipped = λ f low below g. elim (dec_lt f (s + (q - k))) [
            | no later ↦ rest.skipped f (omega arith) below g
            | yes earlier ↦ elim (ℕ_discrete f s) [
              | yes here ↦ other (ap x {x = i} {y = f + q} (omega arith) ∙ sym (g q (omega arith)))
              | no between ↦
                  border-skips x q k s f b h (omega arith) (omega arith)
                    (Agrees-fewer x (s + q - f) (i + 1 - f) f (omega arith) g)
            ]
          ];
        }

    pub fall_back-FellBack :
        (x : ℕ → ℕ) (i n fuel q s : ℕ)
        → IsTable n
        → q ≤ n
        → q ≤ fuel
        → s + q ≡ i
        → Agrees x q s
        → FellBack x i s (fall_back pattern failure (x i) fuel q)
          × (fall_back pattern failure (x i) fuel q ≤ q)
    unfolding fall_back
    fall_back-FellBack x i n zero q s table le room e h =
        (stopped x i q s e h (inl (omega arith)), omega arith)
    fall_back-FellBack x i n (suc fuel) q s table le room e h = elim (ℕ_discrete q 0) [
      | yes none_left ↦
          rw ((==_iff q 0).1 none_left) (stopped x i q s e h (inl none_left), omega arith)
      | no some_left ↦ elim (ℕ_discrete (x i) (letter q)) [
        | yes same ↦
            rw (≢→== q 0 some_left, (==_iff (x i) (letter q)).1 same)
              (stopped x i q s e h (inr (sym same)), omega arith)
        | no other ↦
            let k = get_or failure (q - 1) 0 in
            let b = table q (omega arith) le in
            let less = b.less in
            let rest =
              fall_back-FellBack x i n fuel k (s + (q - k)) table (omega arith) (omega arith)
                (omega arith) (border-Agrees x q k s b h) in
            rw (≢→== q 0 some_left, ≢→== (x i) (letter q) other)
              (passed_over x i q k s _ e h b other rest.0, omega (arith, rest.1))
      ]
    ]
