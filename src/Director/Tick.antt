-- ===== src/Director/Tick.antt =====
-- What one tick of the director decides.
use ace.Prelude.{ℕ, ◌≤◌, ◌<◌, ◌≡◌, ◌⊎◌, true, false, List, [], ◌∷◌, length, All}
use ace.Bytes.{codes}
use ace.Director.{
  NpcSnapshot, EventSnapshot, WorldState, Action, spawn_event, idle_npc_list, wander,
}

-- Some event is active.
pub data SomeActive : List EventSnapshot → Type 0 where
  now : {ev : EventSnapshot} {l : List EventSnapshot} → ev.active ≡ true → SomeActive (ev ∷ l)
  later : {ev : EventSnapshot} {l : List EventSnapshot} → SomeActive l → SomeActive (ev ∷ l)

-- The first NPC of a list that is idle.
pub data FirstIdle : NpcSnapshot → List NpcSnapshot → Type 0 where
  here : {a : NpcSnapshot} {l : List NpcSnapshot} → a.is_idle ≡ true → FirstIdle a (a ∷ l)
  there :
      {a b : NpcSnapshot} {l : List NpcSnapshot}
      → b.is_idle ≡ false
      → FirstIdle a l
      → FirstIdle a (b ∷ l)

module _ (float_add : ℕ → ℕ → ℕ) (state : WorldState) where
  -- The elite spawn, exactly if there are at least five players and no event is active.
  abbrev pub Spawns : List Action → Type 0
  Spawns actions =
      ((actions ≡ spawn_event 210010 700901 3 (codes "heuristic_elite") ∷ [])
        × (5 ≤ length state.players)
        × All (λ (ev : EventSnapshot). ev.active ≡ false) state.events)
      ⊎ ((actions ≡ []) × ((length state.players < 5) ⊎ SomeActive state.events))

  -- A walk of the first idle NPC, exactly if at least four are idle.
  abbrev pub Wanders : List Action → Type 0
  Wanders actions =
      ((npc : NpcSnapshot) × (actions ≡ wander float_add npc ∷ [])
        × FirstIdle npc state.npcs
        × (4 ≤ length (idle_npc_list state.npcs)))
      ⊎ ((actions ≡ []) × (length (idle_npc_list state.npcs) < 4))
