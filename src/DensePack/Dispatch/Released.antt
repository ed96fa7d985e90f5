-- ===== src/DensePack/Dispatch/Released.antt =====
-- What the dispatcher has released after each landing.
use plaidlaylib.Prelude.{
  ℕ, ◌+◌, ◌-◌, ◌≤◌, ◌<◌, ◌≡◌, refl, sym, ap, ◌∙◌, subst, Bool, true, ◌&&◌, ◌||◌, some, List, [],
  ◌∷◌, ◌++◌, ◌==◌, ltb, leb, if◌then◌else◌, length, All, arith, ℕ_discrete, Bool-cases, inl, inr,
  ◌≢◌, dec_lt,
}
use plaidlaylib.Writer.{occurs}
use plaidlaylib.DensePack.Dispatch.{
  DispatchState, nothing_landed, set_flag, halo_ready, try_push, land_chunk, dispatch,
}

abbrev pub times_in : ℕ → List ℕ → ℕ
times_in i [] = 0
times_in i (j ∷ js) = (if i == j then 1 else 0) + times_in i js

times_in-snoc :
    (i j : ℕ) (js : List ℕ)
    → times_in i (js ++ (j ∷ [])) ≡ times_in i js + (if i == j then 1 else 0)
times_in-snoc i j [] = omega arith
times_in-snoc i j (k ∷ js) = omega (arith, times_in-snoc i j js)

module _ (n_in halo : ℕ) where
  -- Chunk `i` has landed, and its right neighbour where its halo needs it.
  abbrev pub is_ready : (ℕ → Bool) → ℕ → Bool
  is_ready landed i = landed i && (halo == 0 || (i + 1 == n_in) || landed (i + 1))

  -- `landed` are the chunks that have landed; `released` those in the queue, once each.
  pub record Released (released : ℕ → Bool) (s : DispatchState) : Type 0 where
    pub pushed : (i : ℕ) → s.pushed i ≡ released i
    pub once : (i : ℕ) → times_in i s.ready ≡ (if released i then 1 else 0)

  -- `try_push` releases the chunk if it is ready.
  try_push-Released :
      (i : ℕ) (released : ℕ → Bool) (s : DispatchState)
      → Released released s
      → ((try_push n_in halo i s).present ≡ s.present)
        × Released
            (λ j. if j == i then released i || is_ready s.present i else released j)
            (try_push n_in halo i s)
  unfolding try_push halo_ready
  try_push-Released i released s v = (
    ground arith,
    record {
      pushed = λ j. ground (arith, v.pushed i, v.pushed j);
      once = λ j. ground (arith, v.pushed i, v.once i, v.once j, times_in-snoc j i s.ready);
    },
  )

  Released-ext :
      (f g : ℕ → Bool) (s : DispatchState) → ((i : ℕ) → f i ≡ g i) → Released f s → Released g s
  Released-ext f g s e v = record {
    pushed = λ i. v.pushed i ∙ e i;
    once = λ i. v.once i ∙ ap (λ (b : Bool). if b then 1 else 0) (e i);
  }

  abbrev released_own : (ℕ → Bool) → ℕ → ℕ → Bool
  released_own p c j = if j == c then is_ready p c || is_ready (set_flag p c) c else is_ready p j

  mono : (p : ℕ → Bool) (c j : ℕ) → is_ready p j ≡ true → is_ready (set_flag p c) j ≡ true
  mono p c j h = ground arith

  released_own-ready :
      (p : ℕ → Bool) (c j : ℕ)
      → (0 < halo → j + 1 ≢ c)
      → released_own p c j ≡ is_ready (set_flag p c) j
  released_own-ready p c j h = ground arith

  released_both-ready :
      (p : ℕ → Bool) (c j : ℕ)
      → 1 ≤ c
      → (if j == c - 1
          then released_own p c (c - 1) || is_ready (set_flag p c) (c - 1)
          else released_own p c j)
        ≡ is_ready (set_flag p c) j
  released_both-ready p c j h = ground arith

  -- What is released after chunk `cidx` has landed, where the ready chunks were released before.
  land_chunk-Released :
      (cidx : ℕ) (s : DispatchState)
      → Released (is_ready s.present) s
      → ((land_chunk n_in halo cidx s).present ≡ set_flag s.present cidx)
        × Released (is_ready (set_flag s.present cidx)) (land_chunk n_in halo cidx s)
  unfolding land_chunk
  land_chunk-Released cidx s v =
      let now = set_flag s.present cidx in
      let landed : DispatchState = record s { present = now } in
      let own =
        try_push-Released cidx (is_ready s.present) landed
          (record { pushed = v.pushed; once = v.once }) in
      elim (Bool-cases (ltb 0 halo && leb 1 cidx)) [
        | inl both ↦
            let left =
              try_push-Released (cidx - 1) (released_own s.present cidx)
                (try_push n_in halo cidx landed) own.1 in
            let flags = own.0 in
            rw both (
              left.0 ∙ flags,
              Released-ext _ (is_ready now) _
                  (λ j.
                    ap
                      (λ (p : ℕ → Bool).
                        if j == cidx - 1
                        then released_own s.present cidx (cidx - 1) || is_ready p (cidx - 1)
                        else released_own s.present cidx j)
                      flags
                    ∙ released_both-ready s.present cidx j (ground arith))
                  left.1,
            )
        | inr one ↦ rw one (
          own.0,
          Released-ext (released_own s.present cidx) (is_ready now) _
              (λ j. released_own-ready s.present cidx j (λ h. ground arith)) own.1,
        )
      ]

  dispatch-from :
      (polled : List ℕ) (s : DispatchState)
      → Released (is_ready s.present) s
      → (t : DispatchState) × (dispatch n_in halo (length polled) polled s ≡ some t)
        × ((i : ℕ) → t.present i ≡ (occurs i polled || s.present i))
        × Released (is_ready t.present) t
  unfolding dispatch
  dispatch-from [] s v = (s, refl, λ i. refl, v)
  dispatch-from (cidx ∷ polled) s v =
      let step = land_chunk-Released cidx s v in
      let now =
        subst (λ (p : ℕ → Bool). Released (is_ready p) (land_chunk n_in halo cidx s)) (sym step.0)
          step.1 in
      let rest = dispatch-from polled (land_chunk n_in halo cidx s) now in
      (
        rest.0,
        rest.1,
        λ i. rest.2 i ∙ ap (λ (p : ℕ → Bool). occurs i polled || p i) step.0 ∙ later i,
        rest.3,
      )
    where
      later :
          (i : ℕ)
          → (occurs i polled || set_flag s.present cidx i)
            ≡ (occurs i (cidx ∷ polled) || s.present i)
      later i = ground arith

  -- After any landings, in any order, the dispatcher has released each chunk that has landed and
  -- whose right neighbour, where its halo needs it, has landed, once, and no other chunk.
  pub dispatch-releases_ready :
      (polled : List ℕ)
      → (t : DispatchState) × (dispatch n_in halo (length polled) polled nothing_landed ≡ some t)
        × ((i : ℕ) → times_in i t.ready ≡ (if is_ready (λ j. occurs j polled) i then 1 else 0))
  dispatch-releases_ready polled =
      let run =
        dispatch-from polled nothing_landed (record { pushed = λ i. refl; once = λ i. refl }) in
      (run.0, run.1, λ i. ground (arith, run.3.once i, run.2 i, run.2 (i + 1)))

  occurs-below :
      (polled : List ℕ) (i : ℕ) → All (λ j. j < n_in) polled → occurs i polled ≡ true → i < n_in
  occurs-below [] i h o = absurd (ground arith)
  occurs-below (j ∷ polled) i h o = elim (ℕ_discrete i j) [
    | yes e ↦ omega (arith, h.0)
    | no ne ↦ occurs-below polled i h.1 (ground arith)
  ]

  -- When all reads have landed, in whatever order, every chunk has been released, once.
  pub dispatch-releases_all :
      (polled : List ℕ)
      → length polled ≡ n_in
      → All (λ j. j < n_in) polled
      → ((i : ℕ) → i < n_in → occurs i polled ≡ true)
      → (t : DispatchState) × (dispatch n_in halo n_in polled nothing_landed ≡ some t)
        × ((i : ℕ) → times_in i t.ready ≡ (if ltb i n_in then 1 else 0))
  dispatch-releases_all polled size below all =
      let run = dispatch-releases_ready polled in
      (
        run.0,
        ap (λ k. dispatch n_in halo k polled nothing_landed) (sym size) ∙ run.1,
        λ i. run.2 i ∙ ap (λ (b : Bool). if b then 1 else 0) (landed i),
      )
    where
      landed : (i : ℕ) → is_ready (λ j. occurs j polled) i ≡ ltb i n_in
      landed i = elim (dec_lt i n_in) [
        | yes h ↦ elim (dec_lt (i + 1) n_in) [
          | yes h' ↦ ground (arith, all i h, all (i + 1) h')
          | no last ↦ ground (arith, all i h)
        ]
        | no h ↦ elim (Bool-cases (occurs i polled)) [
          | inl o ↦ absurd (h (occurs-below polled i below o))
          | inr o ↦ ground arith
        ]
      ]
