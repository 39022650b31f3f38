-- ===== src/Memory/Best.antt =====
-- Search returns the candidates that are most similar to the query.
use ace.Prelude.{
  ℕ, ◌≡◌, refl, ap, ◌∙◌, sym, subst, not, ◌||◌, List, [], ◌∷◌, ◌++◌, map, arith, length, take, drop,
  min, ltb, ltb-false→le, if◌then◌else◌, ◌==◌, ==_iff, Bool-cases, inl, inr, length-take,
  take-append-drop, take_of_length-le, All, All-take, if_true, if_false,
}
use mathlib.Core.List.{Perm}
use ace.Memory.{
  Floats, IsFloats, MemoryEntry, Pair, insertion_sort, candidates_of, normalize, cosine_sim, search,
}
use ace.Memory.Sink.{
  Descending, IsScored, insertion_sort-perm, insertion_sort-All, insertion_sort-Descending,
  length-insertion_sort,
}

module _ (f : Floats) (entries : List (MemoryEntry f)) (npc_id player_id : ℕ) where
  -- A candidate is of this NPC and this player, and scored by its similarity to the query.
  abbrev pub IsCandidate : List f.Float32 → Pair f → Type 0
  IsCandidate query p =
      (p.e.npc_id ≡ npc_id)
      × (p.e.player_id ≡ player_id)
      × (p.sim ≡ cosine_sim f (normalize f query) (normalize f p.e.embedding))

  abbrev pub Comparable : IsFloats f → List f.Float32 → Type 0
  Comparable laws query =
      All
        (λ (e : MemoryEntry f).
          laws.IsNumber (cosine_sim f (normalize f query) (normalize f e.embedding)))
        entries

module _ (f : Floats) (npc_id player_id : ℕ) (query : List f.Float32) where
  candidates_of-All :
      (entries : List (MemoryEntry f))
      → All
          (IsCandidate f entries npc_id player_id query)
          (candidates_of f entries npc_id player_id (normalize f query))
  unfolding candidates_of
  candidates_of-All [] = tt
  candidates_of-All (e ∷ entries) =
      elim (Bool-cases (not (e.npc_id == npc_id) || not (e.player_id == player_id))) [
        | inl out ↦ rw out (candidates_of-All entries)
        | inr here ↦ rw here ((ground arith, ground arith, refl), candidates_of-All entries)
      ]

  candidates_of-IsScored :
      (laws : IsFloats f) (entries : List (MemoryEntry f))
      → Comparable f entries npc_id player_id laws query
      → IsScored f laws (candidates_of f entries npc_id player_id (normalize f query))
  unfolding candidates_of
  candidates_of-IsScored laws [] h = tt
  candidates_of-IsScored laws (e ∷ entries) h =
      elim (Bool-cases (not (e.npc_id == npc_id) || not (e.player_id == player_id))) [
        | inl out ↦ rw out (candidates_of-IsScored laws entries h.1)
        | inr here ↦ rw here (h.0, candidates_of-IsScored laws entries h.1)
      ]

  search-take :
      (entries : List (MemoryEntry f)) (top_k : ℕ)
      → search f entries npc_id player_id query top_k
        ≡ map
            (λ (p : Pair f). p.e)
            (take top_k
              (insertion_sort f (candidates_of f entries npc_id player_id (normalize f query))))
  unfolding search
  search-take entries top_k =
      let sorted =
        insertion_sort f (candidates_of f entries npc_id player_id (normalize f query)) in
      let es = map (λ (p : Pair f). p.e) in
      let short = ltb top_k (length sorted) in
      elim (Bool-cases (top_k == 0)) [
        | inl z ↦
            if_true (top_k == 0) [] (es (if short then take top_k sorted else sorted)) z
            ∙ ap (λ n. es (take n sorted)) {x = 0} {y = top_k} (sym ((==_iff top_k 0).0 z))
        | inr n ↦
            if_false (top_k == 0) [] (es (if short then take top_k sorted else sorted)) n
            ∙ elim (Bool-cases short) [
              | inl e ↦ ap es (if_true short (take top_k sorted) sorted e)
              | inr e ↦ ap es (
                  if_false short (take top_k sorted) sorted e
                  ∙ sym (take_of_length-le top_k sorted (ltb-false→le top_k (length sorted) e)))
            ]
      ]

  -- Search splits the candidates of the NPC and the player, whose similarities are numbers, into those
  -- it returns and the rest: it returns `topK` of them, or all if there are fewer, in descending
  -- order of similarity, and none of the rest is more similar than one of them. An entry of another
  -- NPC or another player is never returned.
  pub search_lem :
      (laws : IsFloats f) (entries : List (MemoryEntry f)) (top_k : ℕ)
      → Comparable f entries npc_id player_id laws query
      → let candidates = candidates_of f entries npc_id player_id (normalize f query) in
        (chosen : List (Pair f)) × (rest : List (Pair f)) × (search f entries npc_id player_id query
            top_k
          ≡ map (λ (p : Pair f). p.e) chosen)
        × Perm (chosen ++ rest) candidates
        × Descending f (chosen ++ rest)
        × (length chosen ≡ min top_k (length candidates))
        × All (IsCandidate f entries npc_id player_id query) chosen
  search_lem laws entries top_k h =
      let candidates = candidates_of f entries npc_id player_id (normalize f query) in
      let sorted = insertion_sort f candidates in
      let whole = sym (take-append-drop top_k sorted) in
      (
        take top_k sorted,
        drop top_k sorted,
        search-take entries top_k,
        subst (λ l. Perm l candidates) whole (insertion_sort-perm f candidates),
        subst (Descending f) whole
            (insertion_sort-Descending f laws candidates (candidates_of-IsScored laws entries h)),
        omega (arith, length-take top_k sorted, length-insertion_sort f candidates),
        All-take (IsCandidate f entries npc_id player_id query) top_k sorted (
            insertion_sort-All f (IsCandidate f entries npc_id player_id query) candidates
              (candidates_of-All entries)),
      )
