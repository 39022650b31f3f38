-- ===== src/Memory/Retriever.antt =====
-- server/src/internal/memory/retriever.go: recalling the memories with the best total score from a
-- larger shortlist of a vector store. The store is memory.go's interface VectorStore, of which
-- Recall calls Search only; FakeVectorStore is one. `hours` is the time package's
-- now.Sub(createdAt).Hours(), and `sort` is sort.Slice, which takes the comparison. A negative
-- `topK` is a zero one here.
use ace.Prelude.{
  ℕ, ◌*◌, ◌≡◌, Bool, true, Option, none, some, List, [], ◌∷◌, map, All, length, take, ltb, ◌==◌,
  if◌then◌else◌, false,
}
use mathlib.Core.List.{Perm}
use ace.Memory.{Floats, MemoryEntry, normalize, cosine_sim, search}

pub record VectorStore (f : Floats) : Type 1 where
  pub State : Type 0
  pub search : State → ℕ → ℕ → List f.Float32 → ℕ → Option (List (MemoryEntry f))

abbrev pub fake_vector_store : (f : Floats) → VectorStore f
fake_vector_store f = record {
  State = List (MemoryEntry f);
  search =
      λ entries npc_id player_id query top_k. some (search f entries npc_id player_id query top_k);
}

module _ (f : Floats) where
  pub record ScoredEntry : Type 0 where
    pub entry : MemoryEntry f
    pub score : f.Float64

  abbrev pub half_life_days : f.Float64
  half_life_days = f.ratio 7 1

  abbrev pub recency_bonus : f.Float64
  recency_bonus = f.ratio 15 100

  module _ (hours : ℕ → ℕ → f.Float64) where
    unfoldable pub time_decay : ℕ → ℕ → f.Float64
    time_decay created_at now =
        let days = f.div (hours created_at now) (f.ratio 24 1) in
        let age = if f.gt (f.ratio 0 1) days then f.ratio 0 1 else days in
        f.pow (f.ratio 2 1) (f.div (f.neg age) half_life_days)

    unfoldable pub score_of : ℕ → List f.Float32 → MemoryEntry f → ScoredEntry
    score_of now normalized_query e = record {
      entry = e;
      score =
          f.add
            (f.add (f.mul (cosine_sim f normalized_query e.embedding) (f.ratio 7 10))
              (f.mul (f.widen e.importance) (f.ratio 3 10)))
            (f.mul (time_decay e.created_at now) recency_bonus);
    }

    -- The comparison that is handed to sort.Slice.
    unfoldable pub by_score : ScoredEntry → ScoredEntry → Bool
    by_score a b = f.gt a.score b.score

    module _ (vectors : VectorStore f)
        (sort : (ScoredEntry → ScoredEntry → Bool) → List ScoredEntry → List ScoredEntry) where
      -- What is done with the candidates that the store returns.
      unfoldable pub rank : ℕ → List f.Float32 → ℕ → List (MemoryEntry f) → List (MemoryEntry f)
      rank now query top_k [] = []
      rank now query top_k (c ∷ candidates) =
          let scored = sort by_score (map (score_of now (normalize f query)) (c ∷ candidates)) in
          map (λ (s : ScoredEntry). s.entry)
            (if ltb top_k (length scored) then take top_k scored else scored)

      unfoldable pub recall :
          vectors.State → ℕ → ℕ → ℕ → List f.Float32 → ℕ → Option (List (MemoryEntry f))
      recall state now npc_id player_id query top_k =
          if top_k == 0
          then some []
          else elim (vectors.search state npc_id player_id query (top_k * 3)) [
            | none ↦ none
            | some candidates ↦ some (rank now query top_k candidates)
          ]

  -- From the greatest score to the least.
  abbrev pub DescendingScores : List ScoredEntry → Type 0
  DescendingScores [] = Unit
  DescendingScores (a ∷ xs) =
      All (λ (b : ScoredEntry). f.gt b.score a.score ≡ false) xs × DescendingScores xs

  -- A comparison that sort.Slice accepts among the entries in `P`: asymmetric, and what it does not
  -- put before one another is transitive.
  pub record IsOrder (less : ScoredEntry → ScoredEntry → Bool) (P : ScoredEntry → Type 0)
      : Type 0 where
    pub less_asymm : (a b : ScoredEntry) → less a b ≡ true → less b a ≡ false
    pub less_neg_trans :
        (a b c : ScoredEntry) → P b → less a b ≡ false → less b c ≡ false → less a c ≡ false

  abbrev pub Sorted : (ScoredEntry → ScoredEntry → Bool) → List ScoredEntry → Type 0
  Sorted less [] = Unit
  Sorted less (a ∷ xs) = All (λ (b : ScoredEntry). less b a ≡ false) xs × Sorted less xs

  -- sort.Slice rearranges, and sorts by any such comparison; equal elements come in any order.
  pub record IsSort
      (sort : (ScoredEntry → ScoredEntry → Bool) → List ScoredEntry → List ScoredEntry)
      : Type 1 where
    pub sort-perm :
        (less : ScoredEntry → ScoredEntry → Bool) (xs : List ScoredEntry) → Perm (sort less xs) xs
    pub sort-nil : (less : ScoredEntry → ScoredEntry → Bool) → sort less [] ≡ []
    pub sort-sorted :
        (less : ScoredEntry → ScoredEntry → Bool) (P : ScoredEntry → Type 0)
        → IsOrder less P
        → (xs : List ScoredEntry) → All P xs
        → Sorted less (sort less xs)
