-- ===== src/Spsynth/Validator.antt =====
-- server/src/internal/spsynth/validator.go: the two validators. A runner may be nil, and running a
-- query may change the databases, which are the state `S`; the generator of arguments works on the
-- state `R` of the random numbers. `tsql` and `plpgsql`, which the code does not use, are left out,
-- and a negative number of rounds is a zero one.
use ace.Prelude.{
  ℕ, zero, suc, ◌+◌, Option, none, some, List, [], ◌∷◌, ◌++◌, length, ◌==◌, if◌then◌else◌,
}
use ace.Spsynth.{Values, Row, RowDiff, DiffReport, compare_outputs}

pub data ValidateError : Type 0 where
  runner_nil : ValidateError
  arg_generator_nil : ValidateError
  tsql_failed : ℕ → ValidateError
  pg_failed : ℕ → ValidateError

pub data Validated (v : Values) : Type 0 where
  report : DiffReport v → Validated v
  failed : ValidateError → Validated v

module _ (v : Values) (sort : List (Row v) → List (Row v)) (S A : Type 0) where
  abbrev pub Runner : Type 0
  Runner = S → A → S × Option (List (Row v))

  -- What the loops keep between rounds.
  pub record Totals : Type 0 where
    pub all_diffs : List (RowDiff v)
    pub total_rows : ℕ

  abbrev pub no_totals : Totals
  no_totals = record { all_diffs = []; total_rows = 0 }

  abbrev pub plus : Totals → DiffReport v → Totals
  plus t r = record { all_diffs = t.all_diffs ++ r.diffs; total_rows = t.total_rows + r.total_rows }

  abbrev pub summary : Totals → DiffReport v
  summary t = record {
    total_rows = t.total_rows;
    diff_count = length t.all_diffs;
    diffs = t.all_diffs;
    equal = length t.all_diffs == 0;
  }

  pub data Round : Type 0 where
    compared : S → DiffReport v → Round
    stopped : ValidateError → Round

  -- Goes on with what a round compared, or ends with its failure.
  abbrev pub after_round : (S → DiffReport v → Validated v) → Round → Validated v
  after_round go_on (stopped e) = failed e
  after_round go_on (compared s r) = go_on s r

  module _ (tsql_runner pg_runner : Runner) where
    abbrev pub after_pg : ℕ → List (Row v) → S × Option (List (Row v)) → Round
    after_pg i tsql_rows (s, none) = stopped (pg_failed i)
    after_pg i tsql_rows (s, some pg_rows) = compared s (compare_outputs v sort tsql_rows pg_rows)

    abbrev pub after_tsql : ℕ → A → S × Option (List (Row v)) → Round
    after_tsql i args (s, none) = stopped (tsql_failed i)
    after_tsql i args (s, some tsql_rows) = after_pg i tsql_rows (pg_runner s args)

    -- One round: both queries with the same arguments, T-SQL first.
    unfoldable pub run_round : ℕ → S → A → Round
    run_round i s args = after_tsql i args (tsql_runner s args)

    unfoldable pub shadow_loop : ℕ → S → List A → Totals → Validated v
    shadow_loop i s [] t = report (summary t)
    shadow_loop i s (args ∷ input_set) t =
        after_round (λ s' r. shadow_loop (suc i) s' input_set (plus t r)) (run_round i s args)

  unfoldable pub shadow_validate : Option Runner → Option Runner → S → List A → Validated v
  shadow_validate (some tsql_runner) (some pg_runner) s input_set =
      shadow_loop tsql_runner pg_runner 0 s input_set no_totals
  shadow_validate _ _ s input_set = failed runner_nil

  abbrev pub or_fifty : ℕ → ℕ
  or_fifty rounds = if rounds == 0 then 50 else rounds

  -- PropertyValidator, whose loop keeps its own totals. `seeded` is rand.New(rand.NewSource(42)).
  module _ (R : Type 0) (seeded : R) where
    abbrev pub or_seeded : Option R → R
    or_seeded none = seeded
    or_seeded (some rng) = rng

    module _ (tsql_runner pg_runner : Runner) (generate : ℕ → R → R × A) where
      -- For the rounds that are left.
      unfoldable pub property_loop : ℕ → ℕ → S → R → List (RowDiff v) → ℕ → Validated v
      property_loop zero i s rng all_diffs total_rows = report (record {
        total_rows = total_rows;
        diff_count = length all_diffs;
        diffs = all_diffs;
        equal = length all_diffs == 0;
      })
      property_loop (suc rounds) i s rng all_diffs total_rows =
          let (rng', args) = generate i rng in
          let (s', tsql_out) = tsql_runner s args in
          let (s'', pg_out) = pg_runner s' args in
          elim tsql_out [
            | none ↦ failed (tsql_failed i)
            | some tsql_rows ↦ elim pg_out [
              | none ↦ failed (pg_failed i)
              | some pg_rows ↦
                  let d = compare_outputs v sort tsql_rows pg_rows in
                  property_loop rounds (suc i) s'' rng' (all_diffs ++ d.diffs)
                    (total_rows + d.total_rows)
            ]
          ]

    unfoldable pub property_validate :
        Option Runner → Option Runner → Option (ℕ → R → R × A) → ℕ → Option R → S → Validated v
    property_validate (some tsql_runner) (some pg_runner) (some generate) rounds rng s =
        property_loop tsql_runner pg_runner generate (or_fifty rounds) 0 s (or_seeded rng) [] 0
    property_validate (some tsql_runner) (some pg_runner) none rounds rng s =
        failed arg_generator_nil
    property_validate _ _ generate rounds rng s = failed runner_nil
