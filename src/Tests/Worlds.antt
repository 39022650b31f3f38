-- ===== src/Tests/Worlds.antt =====
-- The world's components at concrete inputs.
use ace.Prelude.{◌≡◌, ◌≤◌, ◌<◌, ◌↔◌, true, false, none, some, [], ◌∷◌, arith, lookup, All}
use ace.World.{
  World, PlayerComp, BuffEntry, new_world, destroy_entity, set_player, get_player, get_position,
  get_npc, get_stat, get_buffs, add_buff, remove_expired_buffs, signed_order, get_entity_by_seq_id,
}
use ace.World.Index.{Reachable, fresh, after, player, get_entity_by_seq_id_iff}
use ace.World.Buffs.{Unique, buff_with, Mixed, add_buff_lem, remove_expired_buffs_lem}
use ace.World.Components.{destroy_entity_lem, Below}

abbrev ann : PlayerComp
ann = record {
  account_id = 1;
  account = "ann";
  gateway_seq_id = 50;
  remote_addr = "";
  char_name = "Ann";
}

abbrev ann_again : PlayerComp
ann_again = record ann { gateway_seq_id = 51 }

abbrev with_ann : World
with_ann = set_player new_world 1 ann

with_ann-Reachable : Reachable with_ann
unfolding new_world
with_ann-Reachable =
    after fresh
      (player 1 ann (λ b e. absurd (ground (arith, e)), λ f e. absurd (ground (arith, e))))

get_entity_by_seq_id_iff_example :
    (get_entity_by_seq_id with_ann 50 ≡ some 1)
    ↔ ((c : PlayerComp) × (get_player with_ann 1 ≡ some c) × (c.gateway_seq_id ≡ 50))
get_entity_by_seq_id_iff_example = get_entity_by_seq_id_iff with_ann 50 1 with_ann-Reachable

abbrev bleed : BuffEntry
bleed = record {
  buff_id = 3;
  is_dot = true;
  damage_per_tick = 5;
  element = "bleed";
  expires_at_tick = 20;
}

abbrev haste : BuffEntry
haste = record {
  buff_id = 4;
  is_dot = false;
  damage_per_tick = 0;
  element = "";
  expires_at_tick = 40;
}

abbrev buffed : World
buffed = record new_world { buffs = (1, bleed ∷ haste ∷ []) ∷ [] }

buffed-Unique : Unique (get_buffs buffed 1)
unfolding get_buffs new_world
buffed-Unique = (((λ e. omega (arith, e)), tt), (tt, tt))

add_buff_lem_example :
    Unique (get_buffs (add_buff buffed 1 bleed) 1)
    × (buff_with (get_buffs (add_buff buffed 1 bleed) 1) 3 ≡ some bleed)
    × (get_buffs (add_buff buffed 1 bleed) 2 ≡ get_buffs buffed 2)
add_buff_lem_example = add_buff_lem buffed 1 2 3 bleed buffed-Unique (λ e. omega (arith, e))

remove_expired_buffs_lem_example :
    Mixed
      (remove_expired_buffs buffed 1 30).1
      (get_buffs (remove_expired_buffs buffed 1 30).0 1)
      (get_buffs buffed 1)
    × All
        (λ (b : BuffEntry). signed_order b.expires_at_tick ≤ signed_order 30)
        (remove_expired_buffs buffed 1 30).1
    × All
        (λ (b : BuffEntry). signed_order 30 < signed_order b.expires_at_tick)
        (get_buffs (remove_expired_buffs buffed 1 30).0 1)
    × (get_buffs (remove_expired_buffs buffed 1 30).0 2 ≡ get_buffs buffed 2)
remove_expired_buffs_lem_example = remove_expired_buffs_lem buffed 1 2 30 (λ e. omega (arith, e))

abbrev without : World
without = destroy_entity with_ann 1

destroy_entity_lem_example :
    (lookup without.alive 1 ≡ none)
    × (get_player without 1 ≡ none)
    × (get_position without 1 ≡ none)
    × (get_npc without 1 ≡ none)
    × (get_stat without 1 "hp" ≡ none)
    × (get_buffs without 1 ≡ [])
    × (lookup without.alive 2 ≡ lookup with_ann.alive 2)
    × (get_player without 2 ≡ get_player with_ann 2)
    × (get_position without 2 ≡ get_position with_ann 2)
    × (get_npc without 2 ≡ get_npc with_ann 2)
    × (get_stat without 2 "hp" ≡ get_stat with_ann 2 "hp")
    × (get_buffs without 2 ≡ get_buffs with_ann 2)
destroy_entity_lem_example = destroy_entity_lem with_ann 1 2 "hp" (λ e. omega (arith, e))

new_world-Below : Below 8 new_world.alive
unfolding new_world
new_world-Below = tt
