-- ===== src/Kmp/Scan.antt =====
-- `KmpScanChunk` reports the occurrences that start in its chunk, and no other.
use plaidlaylib.Prelude.{
  ℕ, zero, suc, ◌+◌, ◌-◌, ◌≤◌, ◌<◌, min, ◌≡◌, refl, sym, ap, ◌∙◌, subst, inl, inr, ◌≢◌, Bool, true,
  false, List, [], ◌∷◌, ◌++◌, append-nil, ltb, if◌then◌else◌, length, length-append, get_or, take,
  drop, arith, ℕ_discrete, ==_iff, ≢→==, dec_lt, Bool-cases, le→leb, lt→leb, length-drop,
}
use plaidlaylib.RabinKarp.Occurs.{has_prefix, occurrences, has_prefix_short}
use plaidlaylib.RabinKarp.Windows.{windows, windows-split, windows-occurrences}
use plaidlaylib.Kmp.{text_at, advance, fall_back, scan_text, kmp_scan_chunk}
use plaidlaylib.Kmp.Borders.{
  letter, Agrees, Agrees-fewer, IsBorder, IsTable, FellBack, fall_back-FellBack, border-Agrees,
  border-skips,
}

get_or-append :
    (xs ys : List ℕ) (i : ℕ)
    → get_or (xs ++ ys) i 0
      ≡ (if ltb i (length xs) then get_or xs i 0 else get_or ys (i - length xs) 0)
get_or-append [] ys i = ap (λ t. get_or ys t 0) {x = i} {y = i - 0} (omega arith) ∙ ground arith
get_or-append (x ∷ xs) ys zero = ground arith
get_or-append (x ∷ xs) ys (suc i) = ground (arith, get_or-append xs ys i)

get_or-drop : (xs : List ℕ) (s t : ℕ) → get_or (drop s xs) t 0 ≡ get_or xs (s + t) 0
get_or-drop xs zero t = ap (λ i. get_or xs i 0) {x = t} {y = 0 + t} (omega arith)
get_or-drop [] (suc s) t = refl
get_or-drop (x ∷ xs) (suc s) t =
    get_or-drop xs s t
    ∙ ap (λ i. get_or (x ∷ xs) i 0) {x = suc (s + t)} {y = suc s + t} (omega arith)

has_prefix-get_or :
    (pat xs : List ℕ) (t : ℕ)
    → has_prefix pat xs ≡ true
    → t < length pat
    → get_or pat t 0 ≡ get_or xs t 0
has_prefix-get_or [] xs t h lt = absurd (omega arith)
has_prefix-get_or (c ∷ pat) [] t h lt = absurd (ground arith)
has_prefix-get_or (c ∷ pat) (x ∷ xs) zero h lt = ground arith
has_prefix-get_or (c ∷ pat) (x ∷ xs) (suc t) h lt =
    has_prefix-get_or pat xs t (ground arith) (omega arith)

get_or-has_prefix :
    (pat xs : List ℕ)
    → ((t : ℕ) → t < length pat → get_or pat t 0 ≡ get_or xs t 0)
    → length pat ≤ length xs
    → has_prefix pat xs ≡ true
get_or-has_prefix [] xs h le = refl
get_or-has_prefix (c ∷ pat) [] h le = absurd (omega arith)
get_or-has_prefix (c ∷ pat) (x ∷ xs) h le =
    rw ((==_iff x c).1 (sym (h 0 (omega arith))))
      (get_or-has_prefix pat xs (λ t lt. h (suc t) (omega arith)) (omega arith))

module _ (text overlap pattern failure : List ℕ) (gpos : ℕ) (pos : 0 < length pattern)
    (table : IsTable pattern failure (length pattern))
    (short : length overlap < length pattern) where
  abbrev full : List ℕ
  full = text ++ overlap

  abbrev x : ℕ → ℕ
  x = text_at text overlap pattern failure gpos

  abbrev hit : ℕ → Bool
  hit s = has_prefix pattern (drop s full)

  abbrev found : ℕ → List ℕ
  found s = windows full pattern gpos s 0

  x-full : (i : ℕ) → x i ≡ get_or full i 0
  unfolding text_at
  x-full i = sym (get_or-append text overlap i)

  hit-Agrees : (s : ℕ) → hit s ≡ true → Agrees pattern x (length pattern) s
  hit-Agrees s h t lt =
      has_prefix-get_or pattern (drop s full) t h lt ∙ get_or-drop full s t ∙ sym (x-full (s + t))

  Agrees-hit :
      (s : ℕ)
      → Agrees pattern x (length pattern) s
      → s + length pattern ≤ length full
      → hit s ≡ true
  Agrees-hit s h room =
      get_or-has_prefix pattern (drop s full)
        (λ t lt. h t lt ∙ x-full (s + t) ∙ sym (get_or-drop full s t))
        (omega (arith, length-drop s full))

  -- A start that disagrees early is no hit.
  no_hit : (n s : ℕ) → n ≤ length pattern → ¬ Agrees pattern x n s → hit s ≡ false
  no_hit n s le h = elim (Bool-cases (hit s)) [
    | inl e ↦ absurd (h (Agrees-fewer pattern x n (length pattern) s le (hit-Agrees s e)))
    | inr e ↦ e
  ]

  found-next : (s : ℕ) → found (s + 1) ≡ found s ++ (if hit s then (gpos + s) ∷ [] else [])
  unfolding windows
  found-next s =
      windows-split full pattern gpos s 1 0
      ∙ ap (λ t. found s ++ windows full pattern gpos 1 t) {x = 0 + s} {y = s} (omega arith)

  found-skip : (n s : ℕ) → ((e : ℕ) → s ≤ e → e < s + n → hit e ≡ false) → found (s + n) ≡ found s
  found-skip zero s none_hit = ap found {x = s + 0} {y = s} (omega arith)
  found-skip (suc n) s none_hit =
      ap found {x = s + suc n} {y = s + n + 1} (omega arith)
      ∙ found-next (s + n)
      ∙ ap (λ (b : Bool). found (s + n) ++ (if b then (gpos + (s + n)) ∷ [] else []))
          (none_hit (s + n) (omega arith) (omega arith))
      ∙ append-nil (found (s + n))
      ∙ found-skip n s (λ e low below. none_hit e low (omega arith))

  found-same : (s t : ℕ) → s ≤ t → ((e : ℕ) → s ≤ e → e < t → hit e ≡ false) → found t ≡ found s
  found-same s t le none_hit =
      ap found {x = t} {y = s + (t - s)} (omega arith)
      ∙ found-skip (t - s) s (λ e low below. none_hit e low (omega arith))

  -- Before the letter at `i`: `q` letters are matched, and all hits before the start of that match
  -- are out.
  record Scanned (i q : ℕ) (out : List ℕ) : Type 0 where
    pub partial : q < length pattern
    pub within : q ≤ i
    pub agrees : Agrees pattern x q (i - q)
    pub reported : out ≡ found (min (i - q) (length text))

  -- What the fall back passes over is no hit.
  passed-no_hit :
      (i q back e : ℕ)
      → q < length pattern
      → q ≤ i
      → FellBack pattern x i (i - q) back
      → i - q ≤ e
      → e + back < i
      → hit e ≡ false
  passed-no_hit i q back e lt le f low below =
      no_hit (i + 1 - e) e (omega arith) (f.skipped e low below)

  back-found :
      (i q back t : ℕ) (out : List ℕ)
      → Scanned i q out
      → i - q < length text
      → FellBack pattern x i (i - q) back
      → i - q ≤ t
      → ((e : ℕ) → i - q ≤ e → e < t → i ≤ e + back → hit e ≡ false)
      → out ≡ found t
  back-found i q back t out s going f le late =
      let partial = s.partial in
      let within = s.within in
      s.reported
      ∙ ap found {x = min (i - q) (length text)} {y = i - q} (omega arith)
      ∙ sym (
          found-same (i - q) t le (λ e low below. elim (dec_lt (e + back) i) [
            | yes early ↦ passed-no_hit i q back e partial within f low early
            | no h ↦ late e low below (omega arith)
          ]))

  longer-Agrees :
      (i q back : ℕ)
      → FellBack pattern x i (i - q) back
      → letter pattern back ≡ x i
      → Agrees pattern x (back + 1) (i - back)
  longer-Agrees i q back f same t lt =
      let within = f.within in
      elim (ℕ_discrete t back) [
        | yes e ↦ ap (letter pattern) e ∙ same ∙ ap x {x = i} {y = i - back + t} (omega arith)
        | no ne ↦ f.agrees t (omega arith)
      ]

  -- The letter extends the match.
  Scanned-longer :
      (i q back : ℕ) (out : List ℕ)
      → Scanned i q out
      → i - q < length text
      → FellBack pattern x i (i - q) back
      → letter pattern back ≡ x i
      → back + 1 < length pattern
      → Scanned (i + 1) (back + 1) out
  Scanned-longer i q back out s going f same room =
      let within = f.within in
      record {
        partial = room;
        within = omega arith;
        agrees =
            subst (Agrees pattern x (back + 1)) {x = i - back} {y = i + 1 - (back + 1)}
              (omega arith) (longer-Agrees i q back f same);
        reported =
            back-found i q back (min (i + 1 - (back + 1)) (length text)) out s going f (omega arith)
              (λ e low below late. absurd (omega arith));
      }

  -- No letter is matched.
  Scanned-none :
      (i q back : ℕ) (out : List ℕ)
      → Scanned i q out
      → i - q < length text
      → FellBack pattern x i (i - q) back
      → x i ≢ letter pattern back
      → (back ≡ 0) × Scanned (i + 1) back out
  Scanned-none i q back out s going f other =
      let partial = s.partial in
      let none_left : back ≡ 0 = elim f.stops [ inl e ↦ e | inr e ↦ absurd (other (sym e)) ] in
      (
        none_left,
        record {
          partial = omega arith;
          within = omega arith;
          agrees = λ t lt. absurd (omega arith);
          reported =
              back-found i q back (min (i + 1 - back) (length text)) out s going f (omega arith)
                (λ e low below late. no_hit 1 e (omega arith) (λ g. other (
                  ap x {x = i} {y = e + 0} (omega arith)
                  ∙ sym (g 0 (omega arith))
                  ∙ ap (letter pattern) (sym none_left))));
        },
      )

  -- A full match is reported, and the search goes on with the longest border.
  Scanned-found :
      (i q back : ℕ) (out : List ℕ)
      → Scanned i q out
      → i < length full
      → i - q < length text
      → FellBack pattern x i (i - q) back
      → letter pattern back ≡ x i
      → back + 1 ≡ length pattern
      → Scanned
          (i + 1)
          (get_or failure (back + 1 - 1) 0)
          (out ++ ((gpos + (i + 1 - (back + 1))) ∷ []))
  Scanned-found i q back out s in_text going f same whole =
      let within = f.within in
      let m = length pattern in
      let size = length-append text overlap in
      let k = get_or failure (back + 1 - 1) 0 in
      let b : IsBorder pattern m k =
        subst (λ n. IsBorder pattern n k) whole (table (back + 1) (omega arith) (omega arith)) in
      let less = b.less in
      let here = i + 1 - (back + 1) in
      let match : Agrees pattern x m here =
        subst (λ n. Agrees pattern x n here) whole
          (subst (Agrees pattern x (back + 1)) {x = i - back} {y = here} (omega arith)
            (longer-Agrees i q back f same)) in
      let is_hit = Agrees-hit here match (omega arith) in
      record {
        partial = less;
        within = omega arith;
        agrees =
            subst (Agrees pattern x k) {x = here + (m - k)} {y = i + 1 - k} (omega arith)
              (border-Agrees pattern x m k here b match);
        reported =
            ap (λ us. us ++ ((gpos + here) ∷ []))
              (back-found i q back here out s going f (omega arith)
                (λ e low below late. absurd (omega arith)))
            ∙ sym (ap (λ (b : Bool). found here ++ (if b then (gpos + here) ∷ [] else [])) is_hit)
            ∙ sym (found-next here)
            ∙ sym (
                found-same (here + 1) (min (i + 1 - k) (length text)) (omega arith) (λ e low below.
                  no_hit (here + m - e) e (omega arith)
                    (border-skips pattern x m k here e b match (omega arith) (omega arith))));
      }

  scan_text-found :
      (n i q : ℕ) (out : List ℕ)
      → n + i ≡ length full
      → Scanned i q out
      → scan_text text overlap pattern failure gpos n i q out ≡ found (length text)
  unfolding scan_text advance
  scan_text-found zero i q out size s =
      let partial = s.partial in
      let within = s.within in
      s.reported
      ∙ sym (
          found-same (min (i - q) (length text)) (length text) (omega arith) (λ e low below.
            has_prefix_short pattern (drop e full) (omega (arith, length-drop e full))))
  scan_text-found (suc n) i q out size s =
      let partial = s.partial in
      let within = s.within in
      let F = λ (c k : ℕ). fall_back pattern failure c k k in
      elim (dec_lt (i - q) (length text)) [
        | no beyond ↦
            rw (lt→leb (i + 1) (length text + q) (omega arith)) (
              s.reported ∙ ap found {x = min (i - q) (length text)} {y = length text} (omega arith))
        | yes going ↦
            let fell =
              fall_back-FellBack pattern failure x i (length pattern) q q (i - q) table
                (omega arith) (omega arith) (omega arith) s.agrees in
            let back = F (x i) q in
            rw (le→leb (i + 1) (length text + q) (omega arith))
              (elim (ℕ_discrete (x i) (letter pattern back)) [
                | yes same ↦
                    rw ((==_iff (x i) (letter pattern back)).1 same)
                      (elim (ℕ_discrete (back + 1) (length pattern)) [
                        | yes whole ↦ rw ((==_iff (back + 1) (length pattern)).1 whole) (
                            scan_text-found n (i + 1) _ _ (omega arith) (
                              Scanned-found i q back out s (omega arith) going fell.0 (sym same)
                                whole))
                        | no short_of ↦ rw (≢→== (back + 1) (length pattern) short_of) (
                            scan_text-found n (i + 1) (back + 1) out (omega arith) (
                              Scanned-longer i q back out s going fell.0 (sym same)
                                (omega (arith, fell.1))))
                      ])
                | no other ↦
                    let none_left = Scanned-none i q back out s going fell.0 other in
                    rw
                      (
                        ≢→== (x i) (letter pattern back) other,
                        ≢→== back (length pattern) (omega (arith, none_left.0)),
                      )
                      (scan_text-found n (i + 1) back out (omega arith) none_left.1)
              ])
      ]

  -- With the head of what follows as its overlap, one scan reports the occurrences that start in
  -- its chunk, in order and each once.
  pub kmp_scan_chunk-occurrences :
      (rest : List ℕ)
      → overlap ≡ take (length pattern - 1) rest
      → kmp_scan_chunk text overlap pattern failure gpos ≡ occurrences pattern text gpos rest
  unfolding kmp_scan_chunk windows
  kmp_scan_chunk-occurrences rest e =
      scan_text-found (length text + length overlap) 0 0 []
        (omega (arith, length-append text overlap)) start
      ∙ windows-occurrences full pattern gpos text rest 0 (length pattern - 1)
          (ap (λ t. text ++ t) e) (omega arith)
      ∙ ap (λ t. occurrences pattern text t rest) {x = gpos + 0} {y = gpos} (omega arith)
    where
      start : Scanned 0 0 []
      start = record {
        partial = pos;
        within = omega arith;
        agrees = λ t lt. absurd (omega arith);
        reported = ap found {x = 0} {y = min (0 - 0) (length text)} (omega arith);
      }
