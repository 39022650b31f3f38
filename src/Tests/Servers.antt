-- ===== src/Tests/Servers.antt =====
-- The dispatcher, the log batcher, the administration API and the auth port at concrete inputs.
use ace.Prelude.{
  ℕ, ◌≡◌, ◌≢◌, refl, true, false, none, some, List, [], ◌∷◌, ◌++◌, arith, str_eq, lookup, length,
  ◌==◌, if◌then◌else◌,
}
use ace.Bytes.{codes}
use ace.World.{new_entity, set_player, get_player, destroy_entity, new_world, get_entity_by_seq_id}
use ace.Dispatcher.{
  start_session, send_character_list, send_to_player, Dispatcher, PlayerEnterEvent, new_dispatcher,
  on_player_enter, on_player_leave,
}
use ace.Dispatcher.Enter.{entity_at}
use ace.Dispatcher.Sessions.{Reachable, fresh, after, entered, dispatcher_lem}
use ace.Dispatcher.CharacterList.{Database, text, int64, character_list, column, row_int32}
use ace.Dispatcher.CharacterList.Parse.{parse_character_list-character_list}
use ace.TinyClient.Reading.{parse_character_list}
use ace.Logd.{LogRow, new_batcher, add, tick, pending_count, ch_append}
use ace.Logd.Flushing.{waiting}
use ace.Logd.Batches.{Call, added, ticked, run, all_accepted, batcher_lem}

abbrev enters : PlayerEnterEvent
enters = record { account_id = 7; account = "ann"; gateway_seq_id = 3; remote_addr = "10.0.0.1" }

abbrev entered_once : Dispatcher
entered_once = on_player_enter none true (new_dispatcher 5 new_world) enters

entered_once-Reachable : Reachable entered_once
unfolding new_dispatcher
entered_once-Reachable = after (fresh 5) (entered none true enters refl)

dispatcher_lem_example :
    let gone = on_player_leave entered_once 3 in
    (entity_at (lookup entered_once.sessions 3) ≡ get_entity_by_seq_id entered_once.world 3)
    × (lookup gone.sessions 3 ≡ none)
    × (get_entity_by_seq_id gone.world 3 ≡ none)
    × ((e : ℕ) → lookup gone.subscriptions e ≢ some 3)
dispatcher_lem_example = dispatcher_lem entered_once 3 entered_once-Reachable

-- A second enter event under the same id: the first entity stays when the session ends.
abbrev entered_twice : Dispatcher
entered_twice = on_player_enter none true entered_once enters

left_behind :
    (get_player (on_player_leave entered_twice 3).world 6 ≢ none)
    × (lookup (on_player_leave entered_twice 3).subscriptions 6 ≡ some 3)
unfolding on_player_leave on_player_enter new_dispatcher new_world new_entity set_player get_player
    destroy_entity start_session send_character_list send_to_player
left_behind = (λ e. ground (arith, e), refl)

abbrev database : Database
database = record {
  call_sp = λ name n.
      if str_eq name "aion_GetCharIdList"
      then some ((("char_id", int64 41) ∷ []) ∷ (("char_id", int64 42) ∷ []) ∷ [])
      else if n == 42
      then some ((("user_id", text (codes "Bob")) ∷ []) ∷ [])
      else some [];
  to_int = λ x. x;
  to_float32 = λ x. x;
}

parse_character_list-character_list_example :
    parse_character_list (character_list (some database) 7) ≡ (1, 42, codes "Bob")
unfolding column row_int32
parse_character_list-character_list_example =
    parse_character_list-character_list database 7 (ground arith) (
      (ground arith, ground arith),
      ((ground arith, ground arith), ((ground arith, ground arith), tt)),
    )

abbrev row : ℕ → LogRow
row n = record { row_ts = n; service = []; row_level = []; row_msg = []; row_attrs = [] }

-- Three records, the second of which the driver refuses, and a tick too early.
abbrev calls : List Call
calls =
    added true true true 10 (row 1)
    ∷ added true false true 11 (row 2)
    ∷ ticked true 12
    ∷ added true true true 13 (row 3)
    ∷ []

batcher_lem_example :
    let start = new_batcher 100 5 in
    let b = run start calls in
    (pending_count b ≡ length (waiting b))
    × (b.w.sent ++ waiting b ≡ all_accepted start calls)
    × (waiting (tick true 20 b).0 ≡ [])
    × ((tick true 20 b).0.w.sent ≡ all_accepted start calls)
unfolding new_batcher add tick ch_append
batcher_lem_example = batcher_lem 100 5 20 calls (ground arith)
