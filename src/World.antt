-- ===== src/World.antt =====
-- server/src/internal/ecs/world.go and entity.go: the world's components per entity. A Go map is an
-- association list, a method that takes the lock is a function from the world to the world after it,
-- and a stored pointer is the component it points to. A float is its bit pattern; the float32 test of
-- `GetNearby` is an argument. Entity ids do not pass 64 bits.
pub mod Index
pub mod Buffs
pub mod Components
use ace.Prelude.{
  ℕ, zero, suc, ◌+◌, ◌^◌, ◌%◌, Bool, true, false, not, ◌&&◌, Option, none, some, List, [], ◌∷◌,
  ◌++◌, map, length, String, str_eq, ltb, leb, ◌==◌, if◌then◌else◌, lookup, delete, store,
}

pub record PlayerComp : Type 0 where
  pub account_id : ℕ
  pub account : String
  pub gateway_seq_id : ℕ
  pub remote_addr : String
  pub char_name : String

pub record PositionComp : Type 0 where
  pub world_id : ℕ
  pub map_num : ℕ
  pub x : ℕ
  pub y : ℕ
  pub z : ℕ
  pub heading : ℕ

pub record NpcComp : Type 0 where
  pub template_id : ℕ
  pub level : ℕ
  pub ai_script : String

pub record BuffEntry : Type 0 where
  pub buff_id : ℕ
  pub is_dot : Bool
  pub damage_per_tick : ℕ
  pub element : String
  pub expires_at_tick : ℕ

-- The empty struct.
pub data Present : Type 0 where
  present : Present

abbrev pub StatsComp : Type 0
StatsComp = List (String × ℕ)

pub record World : Type 0 where
  pub alive : List (ℕ × Present)
  pub players : List (ℕ × PlayerComp)
  pub positions : List (ℕ × PositionComp)
  pub npcs : List (ℕ × NpcComp)
  pub stats : List (ℕ × StatsComp)
  pub buffs : List (ℕ × List BuffEntry)
  pub by_seq_id : List (ℕ × ℕ)

unfoldable pub new_world : World
new_world = record {
  alive = [];
  players = [];
  positions = [];
  npcs = [];
  stats = [];
  buffs = [];
  by_seq_id = [];
}

-- The counter of ids, which all worlds share, and the world after the call.
unfoldable pub new_entity : ℕ → World → ℕ × ℕ × World
new_entity counter w =
    (counter + 1, counter + 1, record w { alive = store w.alive (counter + 1) present })

unfoldable pub destroy_entity : World → ℕ → World
destroy_entity w e =
    let index : List (ℕ × ℕ) = elim (lookup w.players e) [
      | none ↦ w.by_seq_id
      | some p ↦ delete w.by_seq_id p.gateway_seq_id
    ] in
    record {
      alive = delete w.alive e;
      players = delete w.players e;
      positions = delete w.positions e;
      npcs = delete w.npcs e;
      stats = delete w.stats e;
      buffs = delete w.buffs e;
      by_seq_id = index;
    }

unfoldable pub set_player : World → ℕ → PlayerComp → World
set_player w e c = record w {
  players = store w.players e c;
  by_seq_id = store w.by_seq_id c.gateway_seq_id e;
}

unfoldable pub get_player : World → ℕ → Option PlayerComp
get_player w e = lookup w.players e

unfoldable pub set_position : World → ℕ → PositionComp → World
set_position w e c = record w { positions = store w.positions e c }

unfoldable pub get_position : World → ℕ → Option PositionComp
get_position w e = lookup w.positions e

unfoldable pub count : World → ℕ
count w = length w.alive

unfoldable pub set_npc : World → ℕ → NpcComp → World
set_npc w e c = record w { npcs = store w.npcs e c }

unfoldable pub get_npc : World → ℕ → Option NpcComp
get_npc w e = lookup w.npcs e

pub stat_of : StatsComp → String → Option ℕ
stat_of [] key = none
stat_of (p ∷ sc) key = if str_eq p.0 key then some p.1 else stat_of sc key

pub put_stat : StatsComp → String → ℕ → StatsComp
put_stat [] key val = (key, val) ∷ []
put_stat (p ∷ sc) key val = if str_eq p.0 key then (p.0, val) ∷ sc else p ∷ put_stat sc key val

abbrev pub stats_or_new : Option StatsComp → StatsComp
stats_or_new none = []
stats_or_new (some sc) = sc

abbrev pub stat_in : String → Option StatsComp → Option ℕ
stat_in key none = none
stat_in key (some sc) = stat_of sc key

unfoldable pub set_stat : World → ℕ → String → ℕ → World
unfolding put_stat
set_stat w e key val = record w {
  stats = store w.stats e (put_stat (stats_or_new (lookup w.stats e)) key val);
}

unfoldable pub get_stat : World → ℕ → String → Option ℕ
get_stat w e key = stat_in key (lookup w.stats e)

abbrev pub entries : Option (List BuffEntry) → List BuffEntry
entries none = []
entries (some list) = list

abbrev pub buffs_of : World → ℕ → List BuffEntry
buffs_of w e = entries (lookup w.buffs e)

-- The loop of `AddBuff`: the first entry with the same id is replaced, or else the entry appended.
pub refresh : List BuffEntry → BuffEntry → List BuffEntry
refresh [] entry = entry ∷ []
refresh (b ∷ list) entry =
    let rest = refresh list entry in if b.buff_id == entry.buff_id then entry ∷ list else b ∷ rest

unfoldable pub add_buff : World → ℕ → BuffEntry → World
unfolding refresh
add_buff w e entry = record w { buffs = store w.buffs e (refresh (buffs_of w e) entry) }

unfoldable pub get_buffs : World → ℕ → List BuffEntry
get_buffs w e = buffs_of w e

-- Moves the patterns of int64 into the order of the signed numbers that they stand for.
abbrev pub signed_order : ℕ → ℕ
signed_order n = (n + 2 ^ 63) % 2 ^ 64

-- The entries that have expired and those that have not, in order.
pub split_expired : List BuffEntry → ℕ → List BuffEntry × List BuffEntry
split_expired [] tick = ([], [])
split_expired (b ∷ list) tick =
    let rest = split_expired list tick in
    if leb (signed_order b.expires_at_tick) (signed_order tick)
    then (b ∷ rest.0, rest.1)
    else (rest.0, b ∷ rest.1)

unfoldable pub remove_expired_buffs : World → ℕ → ℕ → World × List BuffEntry
unfolding split_expired
remove_expired_buffs w e tick =
    let (expired, active) = split_expired (buffs_of w e) tick in
    if length expired == 0
    then (w, expired)
    else (record w { buffs = store w.buffs e active }, expired)

unfoldable pub get_entity_by_seq_id : World → ℕ → Option ℕ
get_entity_by_seq_id w seq_id = lookup w.by_seq_id seq_id

pub find_name : List (ℕ × PlayerComp) → String → Option ℕ
find_name [] name = none
find_name (p ∷ m) name = if str_eq p.1.char_name name then some p.0 else find_name m name

unfoldable pub find_player_by_name : World → String → Option ℕ
unfolding find_name
find_player_by_name w name = if str_eq name "" then none else find_name w.players name

unfoldable pub all_players : World → List ℕ
all_players w = map (λ (p : ℕ × PlayerComp). p.0) w.players

unfoldable pub all_npcs : World → List ℕ
all_npcs w = map (λ (p : ℕ × NpcComp). p.0) w.npcs

abbrev is_player : World → ℕ → Bool
is_player w id = elim (lookup w.players id) [ none ↦ false | some p ↦ true ]

module _ (within : PositionComp → PositionComp → Bool) where
  pub nearby : (ℕ → Bool) → ℕ → PositionComp → List (ℕ × PositionComp) → List ℕ
  nearby keep e center [] = []
  nearby keep e center (p ∷ m) =
      let rest = nearby keep e center m in
      if p.0 == e
      then rest
      else if not (keep p.0)
      then rest
      else if within center p.1
      then p.0 ∷ rest
      else rest

  unfoldable pub get_nearby : World → ℕ → List ℕ
  unfolding nearby
  get_nearby w e = elim (lookup w.positions e) [
    | none ↦ []
    | some center ↦ nearby (λ id. true) e center w.positions
  ]

  unfoldable pub get_nearby_players : World → ℕ → List ℕ
  unfolding nearby
  get_nearby_players w e = elim (lookup w.positions e) [
    | none ↦ []
    | some center ↦ nearby (is_player w) e center w.positions
  ]
