-- ===== src/Spsynth.antt =====
-- server/src/internal/spsynth: whether a generated PL/pgSQL procedure answers as the T-SQL one does.
-- shadow_compare.go is here, the validators of validator.go in Spsynth/Validator.antt. A row is a
-- slice, `none` for nil. The conversions to float64, the tolerant comparison of two of them
-- (math.Abs(fa-fb) < 1e-9) and reflect.DeepEqual are a parameter, `Values`, and so is sort.Slice by
-- the printed rows, `sort`.
pub mod Compare
pub mod Validator
pub mod Aggregate
use ace.Prelude.{
  ℕ, zero, suc, ◌+◌, Bool, true, false, ◌&&◌, not, Option, none, some, List, [], ◌∷◌, ◌++◌, length,
  max, ltb, ◌==◌, if◌then◌else◌,
}

pub data Any (Other : Type 0) : Type 0 where
  float32 : ℕ → Any Other
  float64 : ℕ → Any Other
  int : ℕ → Any Other
  int32 : ℕ → Any Other
  int64 : ℕ → Any Other
  other : Other → Any Other

pub record Values : Type 1 where
  pub Other : Type 0
  pub Float64 : Type 0
  pub of_float32 : ℕ → Float64
  pub of_float64 : ℕ → Float64
  pub of_int : ℕ → Float64
  pub of_int32 : ℕ → Float64
  pub near : Float64 → Float64 → Bool
  pub deep_equal : Any Other → Any Other → Bool

pub data Reason : Type 0 where
  extra_in_pg : Reason
  extra_in_tsql : Reason
  values_differ : Reason

module _ (v : Values) where
  abbrev pub Row : Type 0
  Row = Option (List (Any v.Other))

  pub record RowDiff : Type 0 where
    pub row_index : ℕ
    pub tsql_row : Row
    pub pg_row : Row
    pub reason : Reason

  pub record DiffReport : Type 0 where
    pub total_rows : ℕ
    pub diff_count : ℕ
    pub diffs : List RowDiff
    pub equal : Bool

  unfoldable pub to_float64 : Any v.Other → Option v.Float64
  to_float64 (float32 x) = some (v.of_float32 x)
  to_float64 (float64 x) = some (v.of_float64 x)
  to_float64 (int x) = some (v.of_int x)
  to_float64 (int32 x) = some (v.of_int32 x)
  to_float64 (int64 x) = some (v.of_int x)
  to_float64 (other x) = none

  abbrev both_floats : Option v.Float64 → Option v.Float64 → Bool → Bool
  both_floats (some fa) (some fb) deep = v.near fa fb
  both_floats _ _ deep = deep

  unfoldable pub normalize_value : Any v.Other → Any v.Other → Bool
  normalize_value a b = both_floats (to_float64 a) (to_float64 b) (v.deep_equal a b)

  -- The loop over the columns.
  unfoldable pub columns_equal : List (Any v.Other) → List (Any v.Other) → Bool
  columns_equal (a ∷ row) (b ∷ row') =
      let rest = columns_equal row row' in if not (normalize_value a b) then false else rest
  columns_equal _ _ = true

  unfoldable pub rows_equal : List (Any v.Other) → List (Any v.Other) → Bool
  rows_equal a b = if not (length a == length b) then false else columns_equal a b

  abbrev pub diff_cap : ℕ
  diff_cap = 100

  -- The row at the loop's index, nil behind the last one, and the rows behind it.
  abbrev pub row_or_nil : List Row → Row
  row_or_nil [] = none
  row_or_nil (r ∷ rows) = r

  abbrev pub behind : List Row → List Row
  behind [] = []
  behind (r ∷ rows) = rows

  -- The switch: what a pair of rows adds to the differences.
  unfoldable pub diff_of : ℕ → Row → Row → List RowDiff
  diff_of i none pg_row =
      record { row_index = i; tsql_row = none; pg_row = pg_row; reason = extra_in_pg } ∷ []
  diff_of i (some t) none =
      record { row_index = i; tsql_row = some t; pg_row = none; reason = extra_in_tsql } ∷ []
  diff_of i (some t) (some p) =
      if not (rows_equal t p)
      then record { row_index = i; tsql_row = some t; pg_row = some p; reason = values_differ } ∷ []
      else []

  -- The loop, for the rounds that are left.
  unfoldable pub compare_rows : ℕ → ℕ → List Row → List Row → List RowDiff → List RowDiff
  compare_rows zero i tsql pg diffs = diffs
  compare_rows (suc rounds) i tsql pg diffs =
      let rest =
        compare_rows rounds (i + 1) (behind tsql) (behind pg)
          (diffs ++ diff_of i (row_or_nil tsql) (row_or_nil pg)) in
      if ltb (length diffs) diff_cap then rest else diffs

  unfoldable pub compare_outputs : (List Row → List Row) → List Row → List Row → DiffReport
  compare_outputs sort tsql_out pg_out =
      let tsql_sorted = sort tsql_out in
      let pg_sorted = sort pg_out in
      let max_len =
        if ltb (length tsql_sorted) (length pg_sorted)
        then length pg_sorted
        else length tsql_sorted in
      let diffs = compare_rows max_len 0 tsql_sorted pg_sorted [] in
      record {
        total_rows = max_len;
        diff_count = length diffs;
        diffs = diffs;
        equal = length diffs == 0;
      }
