-- ===== src/Gateway/Login.antt =====
-- server/src/cmd/gateway: how a login passes from the auth port to the game port. The auth port
-- (main.go handleAuthConn, handshake.go) stores a 16-byte token and tells the client its four
-- numbers; the game port (game.go handleGameConn) rebuilds the token from the client's
-- CM_L2AUTH_LOGIN_CHECK and verifies it. `verify` is the token store's VerifyRaw. A list of packets
-- that ends is a read that fails; a failed write ends the handler likewise and is left aside, and so
-- are the answers the game port sends in these phases. The relay loop is that of Gateway/Relay.antt.
pub mod Token
pub mod Events
pub mod Conn
use ace.Prelude.{
  ℕ, zero, suc, ◌+◌, ◌%◌, ◌^◌, Bool, true, false, ◌||◌, Option, none, some, List, [], ◌∷◌, ◌++◌,
  length, take, drop, replicate, ltb, ◌==◌, if◌then◌else◌,
}
use ace.Bytes.{Bytes, put_le, get_le}
use ace.SessionStore.{Data, Verified, verified, token_not_found, pipeline_failed, unmarshal_failed}
use ace.Gateway.Relay.{Effect, send, publish, start, slot_cm_mac_address, slot_cm_time_check}
use ace.Gateway.Relay.Characters.{ClientPacket, relay_run}

-- The token, from the patterns of an int64 and of int32s.
unfoldable pub session_token : ℕ → ℕ → ℕ → ℕ → Bytes
session_token account_id login_ok play_ok1 play_ok2 =
    put_le 4 account_id ++ (put_le 4 login_ok ++ (put_le 4 play_ok1 ++ put_le 4 play_ok2))

-- The payload of SM_LOGIN_OK, 67 bytes.
unfoldable pub sm_login_ok : ℕ → ℕ → Bytes
sm_login_ok account_id login_ok =
    put_le 4 account_id
    ++ (put_le 4 login_ok
        ++ (replicate 8 0 ++ (put_le 4 0x3ea ++ (replicate 28 0 ++ replicate 0x13 0))))

-- The payload of SM_PLAY_OK, 23 bytes.
unfoldable pub sm_play_ok : ℕ → ℕ → ℕ → Bytes
sm_play_ok play_ok1 play_ok2 server_id =
    put_le 4 play_ok1 ++ (put_le 4 play_ok2 ++ server_id % 256 ∷ replicate 0x0E 0)

-- What the game port makes of a CM_L2AUTH_LOGIN_CHECK payload of at least 16 bytes.
unfoldable pub l2auth_token : Bytes → Bytes
l2auth_token payload =
    let play_ok2 = get_le (take 4 payload) in
    let play_ok1 = get_le (take 4 (drop 4 payload)) in
    let acct_id = get_le (take 4 (drop 8 payload)) in
    let login_ok = get_le (take 4 (drop 12 payload)) in
    put_le 4 acct_id ++ (put_le 4 login_ok ++ (put_le 4 play_ok1 ++ put_le 4 play_ok2))

abbrev pub slot_cm_l2auth_login_check : ℕ
slot_cm_l2auth_login_check = 218

abbrev pub max_attempts : ℕ
max_attempts = 10

pub data Event : Type 0 where
  player_enter : ℕ → Bytes → Event
  packet_event : ℕ → Bytes → Event
  player_leave : ℕ → Event

module _ {S : Type 0} (verify : S → Bytes → S × Verified) where
  -- Phase 2: the session data and the packets that are left, once a token is verified.
  unfoldable pub auth_loop : ℕ → S → List ClientPacket → S × Option (Data × List ClientPacket)
  auth_loop zero s packets = (s, none)
  auth_loop (suc n) s [] = (s, none)
  auth_loop (suc n) s (p ∷ packets) =
      let rest = auth_loop n s packets in
      let checked = verify s (l2auth_token p.1) in
      if p.0 == slot_cm_l2auth_login_check
      then (if ltb (length p.1) 16 then (s, none) else elim checked.1 [
        | verified v ↦ (checked.0, some (v, packets))
        | _ ↦ (checked.0, none)
      ])
      else rest

-- Phase 3: the packets that are left when the handler goes on to the world, if it does. It does so
-- after the first packet that is not informational, and also when all its attempts were
-- informational.
unfoldable pub character_list_loop : ℕ → List ClientPacket → Option (List ClientPacket)
character_list_loop zero packets = some packets
character_list_loop (suc n) [] = none
character_list_loop (suc n) (p ∷ packets) =
    let rest = character_list_loop n packets in
    if p.0 == slot_cm_mac_address || p.0 == slot_cm_time_check then rest else some packets

-- What the relay loop publishes.
abbrev pub packet_events : List Effect → List Event
packet_events [] = []
packet_events (send opcode payload ∷ effects) = packet_events effects
packet_events (publish opcode payload ∷ effects) =
    packet_event opcode payload ∷ packet_events effects

-- The events of a session in the world, with the packets that are left for the relay loop.
abbrev pub world_events : Data → Option (List ClientPacket) → List Event
world_events v none = []
world_events v (some packets) =
    player_enter v.account_id v.account ∷ packet_events (relay_run start packets).1

abbrev pub leave_events : Data → List Event
leave_events v = elim v.account [ [] ↦ [] | c ∷ cs ↦ player_leave v.account_id ∷ [] ]

module _ {S : Type 0} (verify : S → Bytes → S × Verified) where
  -- The whole life of a connection: the store after its login, and the events it publishes in order,
  -- the last one from the deferred function, which runs also when the relay loop panics.
  unfoldable pub game_conn : S → List ClientPacket → S × List Event
  unfolding auth_loop character_list_loop
  game_conn s packets =
      let result = auth_loop verify max_attempts s packets in
      elim result.1 [
        | none ↦ (result.0, [])
        | some r ↦
            (result.0, world_events r.0 (character_list_loop max_attempts r.1) ++ leave_events r.0)
      ]
