-- ===== src/Memory.antt =====
-- server/src/internal/memory: what an NPC remembers of a player. memory.go's MemoryEntry and
-- fake_store.go's FakeVectorStore are here, with the vector arithmetic of retriever.go that both
-- use; retriever.go's Recall is in Memory/Retriever.antt. Floating-point numbers are a parameter: a
-- `Floats` names the operations of float32 and float64 that the code uses, and `IsFloats` what it
-- relies on. The mutex makes each method one step. `Upsert` and `Delete` never fail, so their nil
-- error is left out.
pub mod Sink
pub mod Best
pub mod Refines
pub mod Retriever
pub mod Recall
use ace.Prelude.{
  ℕ, zero, suc, ◌-◌, ◌*◌, ◌≡◌, Bool, true, false, not, ◌&&◌, ◌||◌, Option, none, some, List, [],
  ◌∷◌, map, length, take, ltb, ◌==◌, if◌then◌else◌, String, str_eq,
}

pub record Floats : Type 1 where
  pub Float32 : Type 0
  pub Float64 : Type 0
  pub widen : Float32 → Float64
  pub narrow : Float64 → Float32
  -- `ratio n d` is the constant n / d
  pub ratio : ℕ → ℕ → Float64
  pub add : Float64 → Float64 → Float64
  pub mul : Float64 → Float64 → Float64
  pub div : Float64 → Float64 → Float64
  pub neg : Float64 → Float64
  pub sqrt : Float64 → Float64
  pub pow : Float64 → Float64 → Float64
  pub gt : Float64 → Float64 → Bool
  pub eq : Float64 → Float64 → Bool

-- Comparison is asymmetric, and its negation is transitive through a number, which is any value but
-- NaN; zero is not above one.
pub record IsFloats (f : Floats) : Type 1 where
  pub IsNumber : f.Float64 → Type 0
  pub gt_asymm : (a b : f.Float64) → f.gt a b ≡ true → f.gt b a ≡ false
  pub gt_neg_trans :
      (a b c : f.Float64) → IsNumber b → f.gt a b ≡ false → f.gt b c ≡ false → f.gt a c ≡ false
  pub zero_one : f.gt (f.ratio 0 1) (f.ratio 1 1) ≡ false

module _ (f : Floats) where
  pub record MemoryEntry : Type 0 where
    pub id : String
    pub npc_id : ℕ
    pub player_id : ℕ
    pub content : String
    pub event_type : String
    pub importance : f.Float32
    pub created_at : ℕ
    pub embedding : List f.Float32

  sum_sq : f.Float64 → List f.Float32 → f.Float64
  sum_sq acc [] = acc
  sum_sq acc (x ∷ v) = sum_sq (f.add acc (f.mul (f.widen x) (f.widen x))) v

  -- A nil vector is the empty one.
  unfoldable pub normalize : List f.Float32 → List f.Float32
  unfolding sum_sq
  normalize [] = []
  normalize (x ∷ v) =
      let total = sum_sq (f.ratio 0 1) (x ∷ v) in
      if f.eq total (f.ratio 0 1)
      then map (λ (_ : f.Float32). f.narrow (f.ratio 0 1)) (x ∷ v)
      else map (λ y. f.narrow (f.div (f.widen y) (f.sqrt total))) (x ∷ v)

  dot_from : f.Float64 → List f.Float32 → List f.Float32 → f.Float64
  dot_from acc (x ∷ a) (y ∷ b) = dot_from (f.add acc (f.mul (f.widen x) (f.widen y))) a b
  dot_from acc a b = acc

  clamp_low : f.Float64 → f.Float64
  clamp_low dot = if f.gt (f.ratio 0 1) dot then f.ratio 0 1 else dot

  clamp_high : f.Float64 → f.Float64
  clamp_high dot = if f.gt dot (f.ratio 1 1) then f.ratio 1 1 else dot

  unfoldable pub cosine_sim : List f.Float32 → List f.Float32 → f.Float64
  unfolding dot_from clamp_low clamp_high
  cosine_sim a b =
      if length a == 0 || length b == 0 || not (length a == length b)
      then f.ratio 0 1
      else clamp_high (clamp_low (dot_from (f.ratio 0 1) a b))

  pub record Pair : Type 0 where
    pub e : MemoryEntry
    pub sim : f.Float64

  -- The swap of the elements at `j` and behind it.
  unfoldable pub swap_pair : List Pair → ℕ → List Pair
  swap_pair (a ∷ b ∷ rest) zero = b ∷ a ∷ rest
  swap_pair (a ∷ rest) (suc j) = a ∷ swap_pair rest j
  swap_pair rest j = rest

  -- Whether the element behind `j` has the greater similarity.
  unfoldable pub rises : List Pair → ℕ → Bool
  rises (a ∷ b ∷ rest) zero = f.gt b.sim a.sim
  rises (a ∷ rest) (suc j) = rises rest j
  rises rest j = false

  -- The inner loop, from `j` down.
  unfoldable pub sink : ℕ → List Pair → List Pair
  sink zero candidates = candidates
  sink (suc j) candidates =
      let rest = sink j (swap_pair candidates j) in if rises candidates j then rest else candidates

  -- The outer loop, from `i`, for the rounds that are left.
  unfoldable pub sort_from : ℕ → ℕ → List Pair → List Pair
  sort_from zero i candidates = candidates
  sort_from (suc rounds) i candidates = sort_from rounds (suc i) (sink i candidates)

  unfoldable pub insertion_sort : List Pair → List Pair
  insertion_sort candidates = sort_from (length candidates - 1) 1 candidates

  -- The candidates of one NPC and one player, in the store's order.
  unfoldable pub candidates_of : List MemoryEntry → ℕ → ℕ → List f.Float32 → List Pair
  candidates_of [] npc_id player_id norm_q = []
  candidates_of (e ∷ entries) npc_id player_id norm_q =
      let rest = candidates_of entries npc_id player_id norm_q in
      if not (e.npc_id == npc_id) || not (e.player_id == player_id)
      then rest
      else record { e = e; sim = cosine_sim norm_q (normalize e.embedding) } ∷ rest

  -- A negative `topK` is a zero one here.
  unfoldable pub search : List MemoryEntry → ℕ → ℕ → List f.Float32 → ℕ → List MemoryEntry
  search entries npc_id player_id query top_k =
      if top_k == 0
      then []
      else let candidates =
          insertion_sort (candidates_of entries npc_id player_id (normalize query)) in
        map (λ (p : Pair). p.e)
          (if ltb top_k (length candidates) then take top_k candidates else candidates)

  unfoldable pub upsert : List MemoryEntry → MemoryEntry → List MemoryEntry
  upsert [] entry = entry ∷ []
  upsert (e ∷ entries) entry =
      let rest = upsert entries entry in if str_eq e.id entry.id then entry ∷ entries else e ∷ rest

  -- The last element, and those before it.
  unfoldable pub split_last : MemoryEntry → List MemoryEntry → MemoryEntry × List MemoryEntry
  split_last e [] = (e, [])
  split_last e (next ∷ entries) = let (last, before) = split_last next entries in (last, e ∷ before)

  -- The last element takes the deleted one's place.
  unfoldable pub fill_hole : List MemoryEntry → List MemoryEntry
  fill_hole [] = []
  fill_hole (e ∷ entries) = let (last, before) = split_last e entries in last ∷ before

  unfoldable pub delete_entry : List MemoryEntry → String → List MemoryEntry
  delete_entry [] id = []
  delete_entry (e ∷ entries) id =
      let rest = delete_entry entries id in if str_eq e.id id then fill_hole entries else e ∷ rest
