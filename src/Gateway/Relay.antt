-- ===== src/Gateway/Relay.antt =====
-- server/src/cmd/gateway/game.go `runGameCMRelayLoop` with slot_map.go and the session's selected
-- character. One round of the loop is a function from the loop's variables and a packet to the
-- variables after it, what the gateway sends and publishes, and whether the loop goes on. A write to
-- the client that fails ends the loop as a failed read does; a run is the rounds before that.
pub mod Characters
use ace.Prelude.{
  ℕ, zero, suc, ◌+◌, ◌%◌, ◌^◌, Bool, true, false, not, ◌||◌, Option, none, some, List, [], ◌∷◌,
  ◌++◌, ◌==◌, if◌then◌else◌, replicate,
}
use ace.Bytes.{Bytes, put_le}
use ace.Gateway.Creation.{parse_create_char_info, create_character_ok, create_character_response}

abbrev pub slot_cm_time_check : ℕ
slot_cm_time_check = 38

abbrev pub slot_cm_mac_address : ℕ
slot_cm_mac_address = 194

abbrev pub slot_cm_character_list : ℕ
slot_cm_character_list = 215

abbrev pub slot_cm_create_character : ℕ
slot_cm_create_character = 216

abbrev pub slot_cm_enter_world : ℕ
slot_cm_enter_world = 187

abbrev pub slot_cm_quit : ℕ
slot_cm_quit = 3

-- `slotToLuaOpcode58`, a table of two entries.
unfoldable pub slot_to_lua_opcode : ℕ → Option ℕ
slot_to_lua_opcode slot =
    if slot == slot_cm_enter_world
    then some 0x15
    else if slot == slot_cm_character_list
    then some 0x11
    else none

-- The Lua opcode and the payload, if the slot is mapped. The character id is a 32-bit pattern.
unfoldable pub translate_client_cm : ℕ → Bytes → ℕ → Option (ℕ × Bytes)
unfolding slot_to_lua_opcode
translate_client_cm slot payload selected_char_id = elim (slot_to_lua_opcode slot) [
  | none ↦ none
  | some op ↦
      if slot == slot_cm_enter_world
      then some (op, put_le 4 selected_char_id ++ payload)
      else some (op, payload)
]

pub record Relay : Type 0 where
  pub selected_char_id : ℕ
  pub creation_window_opened : Bool
  pub next_player_obj_id : ℕ

pub data Effect : Type 0 where
  send : ℕ → Bytes → Effect
  publish : ℕ → Bytes → Effect

pub data Next : Type 0 where
  continue : Next
  quit : Next
  panicked : Next

unfoldable pub start : Relay
start = record { selected_char_id = 0; creation_window_opened = false; next_player_obj_id = 1001 }

-- `sendGameCharacterListBurst`: raw opcodes and payloads, in order.
unfoldable pub character_list_burst : ℕ → List Effect
character_list_burst play_ok2 =
    let props = replicate 33 0 ++ (put_le 4 4 ++ replicate 46 0) in
    send 0xF0 props
    ∷ send 0xF0 props
    ∷ send 0xF0 props
    ∷ send 0x14F []
    ∷ send 200 (0 ∷ put_le 4 play_ok2 ++ 0 ∷ [])
    ∷ send 200 (2 ∷ put_le 4 play_ok2 ++ 0 ∷ [])
    ∷ []

-- The branch of CM_CREATE_CHARACTER: the first request opens the window, the next one creates.
unfoldable pub create_character : Relay → Bytes → ℕ → Relay × List Effect × Next
create_character r payload now =
    if not r.creation_window_opened
    then (
      record r { creation_window_opened = true },
      send 0xC9 (create_character_response 22) ∷ [],
      continue,
    )
    else let obj_id = r.next_player_obj_id in
      let r' : Relay = record r {
        next_player_obj_id = (obj_id + 1) % 2 ^ 32;
        selected_char_id = obj_id;
      } in
      elim (create_character_ok obj_id (parse_create_char_info payload) now) [
        | none ↦ (r', [], panicked)
        | some answer ↦
            (record r' { creation_window_opened = false }, send 0xC9 answer ∷ [], continue)
      ]

unfoldable pub forward : Relay → ℕ → Bytes → Effect
forward r slot payload = elim (translate_client_cm slot payload r.selected_char_id) [
  | none ↦ publish (slot % 2 ^ 16) payload
  | some m ↦ publish m.0 m.1
]

unfoldable pub relay_step : Relay → ℕ → Bytes → ℕ → Relay × List Effect × Next
relay_step r slot payload now =
    if slot == slot_cm_character_list
    then (r, character_list_burst 0, continue)
    else if slot == slot_cm_create_character
    then create_character r payload now
    else if slot == slot_cm_time_check || slot == slot_cm_mac_address
    then (r, [], continue)
    else if slot == slot_cm_quit
    then (r, [], quit)
    else (r, forward r slot payload ∷ [], continue)
