-- ===== src/Tests/Ticks.antt =====
-- The director at concrete inputs.
use ace.Prelude.{ℕ, ◌+◌, ◌%◌, ◌^◌, Bool, true, false, List, [], ◌∷◌}
use ace.Director.{WorldState, Action, inject_quest}

-- Sums of the patterns stand for the float32 addition.
abbrev add : ℕ → ℕ → ℕ
add a b = (a + b) % 2 ^ 32

abbrev quests : WorldState → List Action × Bool
quests state = (inject_quest 5 [] 1 0 ∷ [], false)

abbrev festive : WorldState
festive = record {
  players = [];
  npcs = [];
  events = record { event_id = []; event_type = []; zone_id = 1; active = true } ∷ [];
}
