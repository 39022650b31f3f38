-- ===== src/Spsynth/Compare.antt =====
-- What a comparison reports.
use ace.Prelude.{ℕ, ◌+◌, ◌≡◌, true, none, some, List, [], ◌∷◌, ◌++◌, length, ltb, if◌then◌else◌}
use ace.Spsynth.{Values, Row, RowDiff, rows_equal, diff_of}

module _ (v : Values) where
  -- All differences of two lists of rows, without a bound: the reference definition.
  abbrev pub all_diffs : ℕ → List (Row v) → List (Row v) → List (RowDiff v)
  all_diffs i [] [] = []
  all_diffs i [] (p ∷ pg) = diff_of v i none p ++ all_diffs (i + 1) [] pg
  all_diffs i (t ∷ tsql) [] = diff_of v i t none ++ all_diffs (i + 1) tsql []
  all_diffs i (t ∷ tsql) (p ∷ pg) = diff_of v i t p ++ all_diffs (i + 1) tsql pg

  -- Two lists of rows agree: no row is nil, and their rows are equal one by one.
  abbrev pub Agree : List (Row v) → List (Row v) → Type 0
  Agree [] [] = Unit
  Agree (some t ∷ tsql) (some p ∷ pg) = (rows_equal v t p ≡ true) × Agree tsql pg
  Agree _ _ = ⊥

  abbrev longer : List (Row v) → List (Row v) → ℕ
  longer tsql pg = if ltb (length tsql) (length pg) then length pg else length tsql
