-- ===== src/Spsynth/Aggregate.antt =====
-- What the validators report of their rounds, and how the two are related.
use ace.Prelude.{
  ◌==◌, if◌then◌else◌, Option-cases, inl, inr, ℕ, zero, suc, ◌≡◌, ◌↔◌, refl, ap, ◌∙◌, sym, true,
  Option, none, some, List, [], ◌∷◌, arith, length, length-append, ==_iff, All,
}
use ace.Spsynth.{Values, Row, DiffReport, compare_outputs}
use ace.Spsynth.Validator.{
  Validated, report, failed, tsql_failed, pg_failed, Runner, Totals, no_totals, plus, summary,
  Round, compared, stopped, after_round, run_round, shadow_loop, property_loop, shadow_validate,
  property_validate,
}

same_branches :
    {X Y : Type 0} (o : Option X) (y : Y) (f g : X → Y)
    → ((x : X) → f x ≡ g x)
    → (elim o [ none ↦ y | some x ↦ f x ]) ≡ (elim o [ none ↦ y | some x ↦ g x ])
same_branches none y f g h = refl
same_branches (some x) y f g h = h x

module _ (v : Values) (sort : List (Row v) → List (Row v)) (S A : Type 0) where
  module _ (R : Type 0) (generate : ℕ → R → R × A) where
    -- The arguments of `n` rounds from the round `i` on.
    abbrev pub inputs : ℕ → ℕ → R → List A
    inputs zero i rng = []
    inputs (suc n) i rng = (generate i rng).1 ∷ inputs n (suc i) (generate i rng).0

    module _ (seeded : R) (tsql pg : Runner v sort S A) where
      -- A round of ShadowValidator, with what follows it, as its queries.
      two_queries :
          (go_on : S → DiffReport v → Validated v) (i : ℕ) (s : S) (args : A)
          → after_round v sort S A go_on (run_round v sort S A tsql pg i s args)
            ≡ elim (tsql s args).1 [
              | none ↦ failed (tsql_failed i)
              | some tsql_rows ↦ elim (pg (tsql s args).0 args).1 [
                | none ↦ failed (pg_failed i)
                | some pg_rows ↦
                    go_on (pg (tsql s args).0 args).0 (compare_outputs v sort tsql_rows pg_rows)
              ]
            ]
      unfolding run_round
      two_queries go_on i s args = elim (Option-cases (tsql s args).1) [
        | inl e ↦ rw e refl
        | inr r ↦ rw (r.1) (elim (Option-cases (pg (tsql s args).0 args).1) [
          | inl e ↦ rw e refl
          | inr q ↦ rw (q.1) refl
        ])
      ]

      property_loop-inputs :
          (n i : ℕ) (s : S) (rng : R) (t : Totals v sort S A)
          → property_loop v sort S A R seeded tsql pg generate n i s rng t.all_diffs t.total_rows
            ≡ shadow_loop v sort S A tsql pg i s (inputs n i rng) t
      unfolding property_loop shadow_loop
      property_loop-inputs zero i s rng t = refl
      property_loop-inputs (suc n) i s rng t =
          let args = (generate i rng).1 in
          let s' = (tsql s args).0 in
          let rng' = (generate i rng).0 in
          sym (
            two_queries
              (λ u d.
                shadow_loop v sort S A tsql pg (suc i) u (inputs n (suc i) (generate i rng).0)
                  (plus v sort S A t d))
              i s args
            ∙ same_branches (tsql s args).1 (failed (tsql_failed i)) _ _ (λ tsql_rows.
              same_branches (pg s' args).1 (failed (pg_failed i)) _ _ (λ pg_rows. sym (
                property_loop-inputs n (suc i) (pg s' args).0 rng'
                  (plus v sort S A t (compare_outputs v sort tsql_rows pg_rows))))))

    -- PropertyValidator with both runners and a generator does what ShadowValidator does on the
    -- arguments that the generator makes in its rounds, fifty if none are asked for, from the random
    -- numbers it is given, or else the seeded ones: the same report, or the same failure at the same
    -- round.
    pub property_validate-shadow_validate :
        (seeded : R) (tsql pg : Runner v sort S A) (rounds : ℕ) (rng : Option R) (s : S)
        → property_validate v sort S A R seeded (some tsql) (some pg) (some generate) rounds rng s
          ≡ shadow_validate v sort S A (some tsql) (some pg) s (
              inputs
                (if rounds == 0 then 50 else rounds)
                0
                (elim rng [ none ↦ seeded | some given ↦ given ]))
    unfolding property_validate shadow_validate
    property_validate-shadow_validate seeded tsql pg rounds none s =
        property_loop-inputs seeded tsql pg (if rounds == 0 then 50 else rounds) 0 s seeded
          (no_totals v sort S A)
    property_validate-shadow_validate seeded tsql pg rounds (some given) s =
        property_loop-inputs seeded tsql pg (if rounds == 0 then 50 else rounds) 0 s given
          (no_totals v sort S A)

  -- The reports of the rounds that a run goes through, if none fails.
  abbrev pub joined : Option (List (DiffReport v)) → DiffReport v → Option (List (DiffReport v))
  joined none r = none
  joined (some rs) r = some (r ∷ rs)

  abbrev pub next_all :
      (S → Option (List (DiffReport v))) → Round v sort S A → Option (List (DiffReport v))
  next_all go_on (stopped e) = none
  next_all go_on (compared s r) = joined (go_on s) r

  some_list : {rs rs' : List (DiffReport v)} → some rs ≡ some rs' → rs ≡ rs'
  some_list e = ground (arith, e)

  module _ (tsql pg : Runner v sort S A) where
    abbrev pub reports : ℕ → S → List A → Option (List (DiffReport v))
    reports i s [] = some []
    reports i s (args ∷ input_set) =
        next_all (λ s'. reports (suc i) s' input_set) (run_round v sort S A tsql pg i s args)

  abbrev pub total : Totals v sort S A → List (DiffReport v) → Totals v sort S A
  total t [] = t
  total t (r ∷ rs) = total (plus v sort S A t r) rs

  abbrev Found : Totals v sort S A → List (DiffReport v) → Validated v → Type 0
  Found t rs got = got ≡ report (summary v sort S A (total t rs))

  round_step :
      (go_on : S → DiffReport v → Validated v) (later : S → Option (List (DiffReport v)))
      → (t : Totals v sort S A) (rs : List (DiffReport v)) (r : Round v sort S A)
      → ((s : S) (d : DiffReport v) (rest : List (DiffReport v))
          → later s ≡ some rest
          → Found (plus v sort S A t d) rest (go_on s d))
      → next_all later r ≡ some rs
      → Found t rs (after_round v sort S A go_on r)
  round_step go_on later t rs (stopped e) each h = absurd (ground (arith, h))
  round_step go_on later t rs (compared s d) each h = elim (Option-cases (later s)) [
    | inl e ↦ absurd (ground (arith, ap (λ o. joined o d) e, h))
    | inr found ↦
        let (rest, e) = found in
        let rs_is : d ∷ rest ≡ rs = some_list (sym (ap (λ o. joined o d) e) ∙ h) in
        each s d rest e ∙ ap (λ l. report (summary v sort S A (total t l))) rs_is
  ]

  shadow_loop-reports :
      (tsql pg : Runner v sort S A) (i : ℕ) (s : S) (input_set : List A) (t : Totals v sort S A)
      → (rs : List (DiffReport v)) → reports tsql pg i s input_set ≡ some rs
      → Found t rs (shadow_loop v sort S A tsql pg i s input_set t)
  unfolding shadow_loop
  shadow_loop-reports tsql pg i s [] t rs h =
      ap (λ l. report (summary v sort S A (total t l))) (some_list h)
  shadow_loop-reports tsql pg i s (args ∷ input_set) t rs h =
      round_step (λ s' r. shadow_loop v sort S A tsql pg (suc i) s' input_set (plus v sort S A t r))
        (λ s'. reports tsql pg (suc i) s' input_set) t rs (run_round v sort S A tsql pg i s args)
        (λ s' d rest e.
          shadow_loop-reports tsql pg (suc i) s' input_set (plus v sort S A t d) rest e)
        h

  abbrev pub NoDiffs : DiffReport v → Type 0
  NoDiffs r = length r.diffs ≡ 0

  total-NoDiffs :
      (rs : List (DiffReport v)) (t : Totals v sort S A)
      → (length (total t rs).all_diffs ≡ 0) ↔ ((length t.all_diffs ≡ 0) × All NoDiffs rs)
  total-NoDiffs [] t = (λ h. (h, tt), λ h. h.0)
  total-NoDiffs (r ∷ rs) t =
      let (one, two) = total-NoDiffs rs (plus v sort S A t r) in
      let size = length-append t.all_diffs r.diffs in
      (
        λ h.
            let (now, rest) = one h in (omega (arith, now, size), (omega (arith, now, size), rest)),
        λ h. two (omega (arith, size, h.0, h.1.0), h.1.1),
      )

  -- When the queries of all inputs succeed, ShadowValidator gives a report, and it says equal exactly
  -- if the comparison of every input found no difference; its count is the length of its list of
  -- differences.
  pub shadow_validate_lem :
      (tsql pg : Runner v sort S A) (s : S) (input_set : List A) (rs : List (DiffReport v))
      → reports tsql pg 0 s input_set ≡ some rs
      → (d : DiffReport v) × (shadow_validate v sort S A (some tsql) (some pg) s input_set
          ≡ report d)
        × ((d.equal ≡ true) ↔ All NoDiffs rs)
        × (d.diff_count ≡ length d.diffs)
  unfolding shadow_validate
  shadow_validate_lem tsql pg s input_set rs h =
      let t = total (no_totals v sort S A) rs in
      let (one, two) = total-NoDiffs rs (no_totals v sort S A) in
      (
        summary v sort S A t,
        shadow_loop-reports tsql pg 0 s input_set (no_totals v sort S A) rs h,
        (
          λ e. (one ((==_iff (length t.all_diffs) 0).0 e)).1,
          λ a. (==_iff (length t.all_diffs) 0).1 (two (refl, a)),
        ),
        refl,
      )
