-- ===== src/Tests/Stores.antt =====
-- The memory store, the retriever and the comparison of results at concrete inputs.
use ace.Prelude.{
  Bool, Bool-cases, inl, inr, ℕ, ◌+◌, ◌*◌, ◌/◌, ◌≡◌, ◌↔◌, refl, true, false, none, some, List, [],
  ◌∷◌, map, ◌++◌, min, length, arith, ltb, if◌then◌else◌, ltb→lt, ◌==◌, String, le→ltb, All,
}
use mathlib.Core.List.{Perm}
use mathlib.Core.List.Perm
use ace.Memory.{
  insertion_sort, sort_from, sink, rises, swap_pair, cosine_sim, Floats, IsFloats, MemoryEntry,
  Pair, candidates_of, normalize, search,
}
use ace.Memory.Refines.{Op, upserted, deleted, run, find, run_refines}
use ace.Memory.Best.{search_lem, IsCandidate}
use ace.Memory.Sink.{Descending}
use ace.Memory.Retriever.{ScoredEntry, IsSort, IsOrder, Sorted}
use ace.Spsynth.{Values, int, Row, DiffReport, compare_outputs}
use ace.Spsynth.Validator.{report, run_round, Runner, shadow_validate, property_validate}
use ace.Spsynth.Aggregate.{property_validate-shadow_validate, shadow_validate_lem, NoDiffs}

-- Natural numbers in the place of floats.
abbrev floats : Floats
floats = record {
  Float32 = ℕ;
  Float64 = ℕ;
  widen = λ x. x;
  narrow = λ x. x;
  ratio = λ n d. n / d;
  add = λ x y. x + y;
  mul = λ x y. x * y;
  div = λ x y. x / y;
  neg = λ x. x;
  sqrt = λ x. x;
  pow = λ x y. x;
  gt = λ x y. ltb y x;
  eq = λ x y. x == y;
}

abbrev floats-IsFloats : IsFloats floats
floats-IsFloats = record {
  IsNumber = λ x. Unit;
  gt_asymm = λ a b h. ground (arith, ltb→lt b a h);
  gt_neg_trans = λ a b c n h k. le→ltb c a (ground (arith, h, k));
  zero_one = refl;
}

abbrev memory_of : String → ℕ → List ℕ → MemoryEntry floats
memory_of id player_id embedding = record {
  id = id;
  npc_id = 7;
  player_id = player_id;
  content = "met";
  event_type = "first_meet";
  importance = 1;
  created_at = 0;
  embedding = embedding;
}

abbrev first : MemoryEntry floats
first = memory_of "a" 1 (0 ∷ 1 ∷ [])

abbrev second : MemoryEntry floats
second = memory_of "b" 1 (1 ∷ 0 ∷ [])

abbrev foreign : MemoryEntry floats
foreign = memory_of "c" 2 (1 ∷ 0 ∷ [])

abbrev ops : List (Op floats)
ops = upserted first ∷ upserted second ∷ upserted foreign ∷ deleted "a" ∷ []

run_refines_example : find floats (run floats [] ops) "c" ≡ some foreign
run_refines_example = (run_refines floats ops).1 "c"

abbrev query : List ℕ
query = 1 ∷ 0 ∷ []

abbrev stored : List (MemoryEntry floats)
stored = first ∷ second ∷ foreign ∷ []

search_second : search floats stored 7 1 query 1 ≡ second ∷ []
unfolding search normalize ace.Memory.candidates_of ace.Memory.insertion_sort ace.Memory.sort_from
    ace.Memory.sink ace.Memory.rises ace.Memory.swap_pair ace.Memory.cosine_sim
search_second = refl

search_lem_example :
    let candidates = candidates_of floats stored 7 1 (normalize floats query) in
    (chosen : List (Pair floats)) × (rest : List (Pair floats)) × (search floats stored 7 1 query 1
      ≡ map (λ (p : Pair floats). p.e) chosen)
    × Perm (chosen ++ rest) candidates
    × Descending floats (chosen ++ rest)
    × (length chosen ≡ min 1 (length candidates))
    × All (IsCandidate floats stored 7 1 query) chosen
search_lem_example = search_lem floats 7 1 query floats-IsFloats stored 1 (tt, (tt, (tt, tt)))

abbrev Scored : Type 0
Scored = ScoredEntry floats

-- A sort to stand for sort.Slice.
abbrev insert : (Scored → Scored → Bool) → Scored → List Scored → List Scored
insert less x [] = x ∷ []
insert less x (y ∷ ys) = let rest = insert less x ys in if less y x then y ∷ rest else x ∷ y ∷ ys

abbrev sort_scored : (Scored → Scored → Bool) → List Scored → List Scored
sort_scored less [] = []
sort_scored less (x ∷ xs) = insert less x (sort_scored less xs)

module _ (less : Scored → Scored → Bool) where
  insert-perm : (x : Scored) (ys : List Scored) → Perm (insert less x ys) (x ∷ ys)
  insert-perm x [] = Perm.refl (x ∷ [])
  insert-perm x (y ∷ ys) = elim (Bool-cases (less y x)) [
    | inl e ↦ rw e (Perm.trans (Perm.cons y (insert-perm x ys)) (Perm.swap x y ys))
    | inr e ↦ rw e (Perm.refl (x ∷ y ∷ ys))
  ]

  sort_scored-perm : (xs : List Scored) → Perm (sort_scored less xs) xs
  sort_scored-perm [] = Perm.refl []
  sort_scored-perm (x ∷ xs) =
      Perm.trans (insert-perm x (sort_scored less xs)) (Perm.cons x (sort_scored-perm xs))

  insert-All :
      (P : Scored → Type 0) (x : Scored) (ys : List Scored)
      → P x
      → All P ys
      → All P (insert less x ys)
  insert-All P x [] p h = (p, tt)
  insert-All P x (y ∷ ys) p h = elim (Bool-cases (less y x)) [
    | inl e ↦ rw e (h.0, insert-All P x ys p h.1)
    | inr e ↦ rw e (p, h)
  ]

  module _ (P : Scored → Type 0) (order : IsOrder floats less P) where
    below :
        (x y : Scored) (ys : List Scored)
        → P y
        → less y x ≡ false
        → All (λ (b : Scored). less b y ≡ false) ys
        → All (λ (b : Scored). less b x ≡ false) ys
    below x y [] p e h = tt
    below x y (b ∷ ys) p e h = (order.less_neg_trans b y x p h.0 e, below x y ys p e h.1)

    insert-Sorted :
        (x : Scored) (ys : List Scored)
        → All P ys
        → Sorted floats less ys
        → Sorted floats less (insert less x ys)
    insert-Sorted x [] p h = (tt, tt)
    insert-Sorted x (y ∷ ys) p h = elim (Bool-cases (less y x)) [
      | inl e ↦ rw e (
        insert-All (λ (b : Scored). less b y ≡ false) x ys (order.less_asymm y x e) h.0,
        insert-Sorted x ys p.1 h.1,
      )
      | inr e ↦ rw e ((e, below x y ys p.0 e h.0), h)
    ]

    sort_scored-All : (xs : List Scored) → All P xs → All P (sort_scored less xs)
    sort_scored-All [] p = tt
    sort_scored-All (x ∷ xs) p = insert-All P x (sort_scored less xs) p.0 (sort_scored-All xs p.1)

    sort_scored-Sorted : (xs : List Scored) → All P xs → Sorted floats less (sort_scored less xs)
    sort_scored-Sorted [] p = tt
    sort_scored-Sorted (x ∷ xs) p =
        insert-Sorted x (sort_scored less xs) (sort_scored-All xs p.1) (sort_scored-Sorted xs p.1)

abbrev sort_scored-IsSort : IsSort floats sort_scored
sort_scored-IsSort = record {
  sort-perm = sort_scored-perm;
  sort-nil = λ less. refl;
  sort-sorted = sort_scored-Sorted;
}

abbrev hours : ℕ → ℕ → ℕ
hours created_at now = now

-- Numbers as values.
abbrev values : Values
values = record {
  Other = ℕ;
  Float64 = ℕ;
  of_float32 = λ x. x;
  of_float64 = λ x. x;
  of_int = λ x. x;
  of_int32 = λ x. x;
  near = λ x y. x == y;
  deep_equal = λ a b. false;
}

abbrev by_first : List (Row values) → List (Row values)
by_first rows = rows

abbrev one_row : List (Row values)
one_row = some (int 1 ∷ []) ∷ []

abbrev two_rows : List (Row values)
two_rows = some (int 1 ∷ []) ∷ some (int 2 ∷ []) ∷ []

-- The T-SQL side answers with its argument, the PG side too, unless it is 5.
abbrev tsql : Runner values by_first ℕ ℕ
tsql = λ s a. (s, some (some (int a ∷ []) ∷ []))

abbrev pg : Runner values by_first ℕ ℕ
pg = λ s a. (s + 1, if a == 5 then none else some (some (int a ∷ []) ∷ []))

property_validate-shadow_validate_example :
    property_validate values by_first ℕ ℕ ℕ 0
      (some tsql)
      (some pg)
      (some (λ i s. (s + 1, s)))
      3
      (some 4)
      0
    ≡ shadow_validate values by_first ℕ ℕ (some tsql) (some pg) 0 (4 ∷ 5 ∷ 6 ∷ [])
property_validate-shadow_validate_example =
    property_validate-shadow_validate values by_first ℕ ℕ ℕ (λ i s. (s + 1, s)) 0 tsql pg 3 (some 4)
      0

abbrev row_of_number : ℕ → List (Row values)
row_of_number n = some (int n ∷ []) ∷ []

abbrev two_reports : List (DiffReport values)
two_reports =
    compare_outputs values by_first (row_of_number 1) (row_of_number 1)
    ∷ compare_outputs values by_first (row_of_number 2) (row_of_number 2)
    ∷ []

shadow_validate_lem_example :
    (d : DiffReport values) × (shadow_validate values by_first ℕ ℕ
        (some tsql)
        (some pg)
        0
        (1 ∷ 2 ∷ [])
      ≡ report d)
    × ((d.equal ≡ true) ↔ All (NoDiffs values by_first ℕ ℕ) two_reports)
    × (d.diff_count ≡ length d.diffs)
unfolding run_round
shadow_validate_lem_example =
    shadow_validate_lem values by_first ℕ ℕ tsql pg 0 (1 ∷ 2 ∷ []) two_reports refl
