-- ===== src/Director.antt =====
-- server/src/internal/director: the world director's tick, its actions and their descriptions. The
-- LLM orchestrator is an argument, which gives actions and whether it failed; a float32 is its bit
-- pattern and `float_add` their addition. A string is its bytes, an integer its two's complement
-- pattern. The actions' `Apply` is a stub in the code and is left out, as are the snapshot times.
pub mod Tick
pub mod Decimal
use ace.Prelude.{
  ℕ, zero, suc, ◌+◌, ◌-◌, ◌*◌, ◌/◌, ◌%◌, ◌^◌, Bool, true, false, ◌&&◌, ◌||◌, List, [], ◌∷◌, ◌++◌,
  length, ltb, leb, ◌==◌, if◌then◌else◌,
}
use ace.Bytes.{Bytes, codes}

pub record PlayerSnapshot : Type 0 where
  pub player_id : ℕ
  pub name : Bytes
  pub level : ℕ
  pub zone_id : ℕ
  pub x : ℕ
  pub y : ℕ
  pub z : ℕ
  pub is_online : Bool

pub record NpcSnapshot : Type 0 where
  pub npc_id : ℕ
  pub template_id : ℕ
  pub name : Bytes
  pub zone_id : ℕ
  pub x : ℕ
  pub y : ℕ
  pub z : ℕ
  pub is_idle : Bool
  pub hp : ℕ
  pub max_hp : ℕ

pub record EventSnapshot : Type 0 where
  pub event_id : Bytes
  pub event_type : Bytes
  pub zone_id : ℕ
  pub active : Bool

pub record WorldState : Type 0 where
  pub players : List PlayerSnapshot
  pub npcs : List NpcSnapshot
  pub events : List EventSnapshot

pub data Action : Type 0 where
  spawn_event : ℕ → ℕ → ℕ → Bytes → Action
  change_weather : ℕ → Bytes → ℕ → ℕ → Action
  move_npc : ℕ → ℕ → ℕ → ℕ → Bytes → Action
  inject_quest : ℕ → List ℕ → ℕ → ℕ → Action

unfoldable pub active_event_count : List EventSnapshot → ℕ
active_event_count [] = 0
active_event_count (ev ∷ events) =
    let count = active_event_count events in if ev.active then count + 1 else count

unfoldable pub idle_npc_list : List NpcSnapshot → List NpcSnapshot
idle_npc_list [] = []
idle_npc_list (npc ∷ npcs) =
    let idle = idle_npc_list npcs in if npc.is_idle then npc ∷ idle else idle

unfoldable pub spawn_rule : WorldState → List Action
unfolding active_event_count
spawn_rule state =
    if leb 5 (length state.players) && active_event_count state.events == 0
    then spawn_event 210010 700901 3 (codes "heuristic_elite") ∷ []
    else []

module _ (float_add : ℕ → ℕ → ℕ) where
  -- 0x42480000 is 50 as a float32.
  abbrev pub wander : NpcSnapshot → Action
  wander npc = move_npc npc.npc_id (float_add npc.x 0x42480000) npc.y npc.z (codes "wander")

  pub move_first : List NpcSnapshot → List Action
  move_first [] = []
  move_first (npc ∷ idle) = if ltb 3 (length (npc ∷ idle)) then wander npc ∷ [] else []

  unfoldable pub move_rule : WorldState → List Action
  unfolding idle_npc_list move_first
  move_rule state = move_first (idle_npc_list state.npcs)

  unfoldable pub heuristic_actions : WorldState → List Action
  heuristic_actions state = spawn_rule state ++ move_rule state

  -- The actions, and whether the orchestrator's error is returned.
  unfoldable pub decide_tick : (WorldState → List Action × Bool) → WorldState → List Action × Bool
  decide_tick orchestrate state =
      if length state.players == 0 && (length state.npcs == 0 && length state.events == 0)
      then ([], false)
      else let actions = heuristic_actions state in
        let (llm_actions, failed) = orchestrate state in
        if failed then (actions, true) else (actions ++ llm_actions, false)

-- The loop that fills `buf` from its end, on the room it has; `n > 0` is a signed comparison.
unfoldable pub digits_of : ℕ → ℕ → Bytes → Bytes
digits_of zero n acc = acc
digits_of (suc room) n acc =
    let rest = digits_of room (n / 10) ((48 + n % 10) ∷ acc) in
    if n == 0 || leb (2 ^ 63) n then acc else rest

-- With a buffer of this size.
unfoldable pub itoa_in : ℕ → ℕ → Bytes
itoa_in size n =
    if n == 0
    then codes "0"
    else if leb (2 ^ 63) n
    then codes "-" ++ digits_of size ((2 ^ 64 - n) % 2 ^ 64) []
    else digits_of size n []

unfoldable pub itoa_int : ℕ → Bytes
itoa_int = itoa_in 20

-- An int32 as an int.
abbrev pub widen : ℕ → ℕ
widen n = if leb (2 ^ 31) n then n + (2 ^ 64 - 2 ^ 32) else n

unfoldable pub describe : Action → Bytes
unfolding itoa_int
describe (spawn_event zone template count tag) =
    codes "spawn_event zone="
    ++ (itoa_int (widen zone)
        ++ (codes " template="
            ++ (itoa_int (widen template)
                ++ (codes " count=" ++ (itoa_int count ++ (codes " tag=" ++ tag))))))
describe (change_weather zone weather intensity duration) =
    codes "change_weather zone=" ++ (itoa_int (widen zone) ++ (codes " type=" ++ weather))
describe (move_npc id x y z mode) =
    codes "move_npc id=" ++ (itoa_int id ++ (codes " mode=" ++ mode))
describe (inject_quest template targets zone expiry) =
    codes "inject_quest template="
    ++ (itoa_int (widen template)
        ++ (codes " zone="
            ++ (itoa_int (widen zone) ++ (codes " targets=" ++ itoa_int (length targets)))))

unfoldable pub action_type : Action → Bytes
action_type (spawn_event zone template count tag) = codes "spawn_event"
action_type (change_weather zone weather intensity duration) = codes "change_weather"
action_type (move_npc id x y z mode) = codes "move_npc"
action_type (inject_quest template targets zone expiry) = codes "inject_quest"
