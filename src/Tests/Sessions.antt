-- ===== src/Tests/Sessions.antt =====
-- Logins, tokens and the relay loop at concrete inputs.
use ace.Bytes.Equal.{bytes_eq, bytes_eq_refl, bytes_eq_sound}
use ace.Prelude.{
  drop, ℕ, ◌^◌, ◌≡◌, ◌≢◌, ◌≤◌, ◌<◌, ◌⊎◌, refl, ap, ◌∙◌, sym, true, false, none, some, Option, List,
  [], ◌∷◌, ◌++◌, arith, replicate, length, get_elem?, if◌then◌else◌, inl, inr, if_true, if_false,
  Bool-cases,
}
use ace.Bytes.{Bytes, codes, put_le, all_bytes, all_bytes-IsBytes}
use ace.SessionStore.{
  Data, Redis, IsRedis, Json, IsJson, Verified, verified, token_not_found, store_token, verify_raw,
  key_of, nil_verify_raw,
}
use ace.SessionStore.OneTime.{verify_raw-store_token}
use ace.Gateway.Login.{
  Event, session_token, sm_login_ok, sm_play_ok, l2auth_token, game_conn, player_enter,
  character_list_loop, auth_loop,
}
use ace.Gateway.Login.Token.{l2auth_payload, l2auth_token-session_token}
use ace.Gateway.Login.Events.{Enters, Leaves, Published}
use ace.Gateway.Login.Conn.{game_conn-Verified, game_conn_once}
use ace.Gateway.Creation.{CharInfo, create_character_ok}
use ace.Gateway.Creation.Fits.{create_character_ok_lem}
use ace.Gateway.Relay.{
  publish, continue, quit, start, relay_step, forward, translate_client_cm, character_list_burst,
}
use ace.Gateway.Relay.Characters.{
  ClientPacket, relay_run, create_count, enter_world_lem, relay_step-safe, relay_run-safe,
}

-- A Redis that never fails, as a function.
abbrev mem_set : (Bytes → Option Bytes) → Bytes → Option Bytes → Bytes → Option Bytes
mem_set s k v k' = if bytes_eq k k' then v else s k'

abbrev pub mem_redis : Redis
mem_redis = record {
  State = Bytes → Option Bytes;
  reachable = λ s. true;
  set = λ s k v. some (mem_set s k (some v));
  get = λ s k. s k;
  del = λ s k. mem_set s k none;
}

mem_set_self : (s : Bytes → Option Bytes) (k : Bytes) (v : Option Bytes) → mem_set s k v k ≡ v
mem_set_self s k v = if_true (bytes_eq k k) v (s k) (bytes_eq_refl k)

mem_set_ne :
    (s : Bytes → Option Bytes) (k k' : Bytes) (v : Option Bytes) → k ≢ k' → mem_set s k v k' ≡ s k'
mem_set_ne s k k' v ne = elim (Bool-cases (bytes_eq k k')) [
  | inl e ↦ absurd (ne (bytes_eq_sound k k' e))
  | inr e ↦ if_false (bytes_eq k k') v (s k') e
]

some_inj : {A : Type 0} {a b : A} → some a ≡ some b → a ≡ b
some_inj e = ground arith

mem_redis-IsRedis : IsRedis mem_redis
mem_redis-IsRedis = record {
  get-set_self = λ s s' k v e.
      ap (λ (t : Bytes → Option Bytes). t k) (sym (some_inj e)) ∙ mem_set_self s k (some v);
  get-set_ne = λ s s' k k' v ne e.
      ap (λ (t : Bytes → Option Bytes). t k') (sym (some_inj e)) ∙ mem_set_ne s k k' (some v) ne;
  get-del_self = λ s k. mem_set_self s k none;
  get-del_ne = λ s k k' ne. mem_set_ne s k k' none ne;
}

abbrev toy_unmarshal : Bytes → Option Data
toy_unmarshal [] = none
toy_unmarshal (a ∷ []) = none
toy_unmarshal (a ∷ b ∷ name) = some (record { account_id = a; account = name; server_id = b })

abbrev pub toy_json : Json
toy_json = record {
  marshal = λ v. v.account_id ∷ v.server_id ∷ v.account;
  unmarshal = toy_unmarshal;
}

toy_json-IsJson : IsJson toy_json
toy_json-IsJson = record { unmarshal-marshal = λ v h. refl }

abbrev ann : Data
ann = record { account_id = 7; account = codes "ann"; server_id = 10 }

abbrev bob : Data
bob = record { account_id = 8; account = codes "bob"; server_id = 10 }

abbrev pub nothing : Bytes → Option Bytes
nothing = λ k. none

abbrev ticket : Bytes
ticket = l2auth_payload (sm_login_ok 7 100) (sm_play_ok 200 300 10) (replicate 8 0)

abbrev token : Bytes
token = l2auth_token ticket

abbrev one_token : Bytes → Option Bytes
one_token = mem_set nothing (key_of token) (some (toy_json.marshal ann))

abbrev two_tokens : Bytes → Option Bytes
two_tokens = mem_set one_token (key_of (1 ∷ [])) (some (toy_json.marshal bob))

token-IsBytes : (all_bytes token ≡ true) × (length token ≡ 16) × (16 ≤ length ticket)
unfolding l2auth_token sm_login_ok sm_play_ok all_bytes
token-IsBytes = (refl, refl, omega arith)

token-ne : token ≢ 1 ∷ []
token-ne = λ e. omega (arith, token-IsBytes.1, ap length e)

verify_raw-store_token_example :
    ((verify_raw mem_redis toy_json two_tokens token).1 ≡ verified ann)
    × ((verify_raw mem_redis toy_json (verify_raw mem_redis toy_json two_tokens token).0 token).1
        ≡ token_not_found)
    × ((verify_raw mem_redis toy_json two_tokens token).0 (key_of (1 ∷ []))
        ≡ some (toy_json.marshal bob))
unfolding store_token
verify_raw-store_token_example =
    verify_raw-store_token mem_redis toy_json mem_redis-IsRedis toy_json-IsJson nothing one_token
      two_tokens token (1 ∷ []) ann bob (all_bytes-IsBytes token token-IsBytes.0) (omega arith, tt)
      token-ne (omega arith, (omega arith, (omega arith, tt))) refl refl refl refl

-- In the world at time 3, with a packet that is forwarded and one that asks for the list again.
abbrev in_world : List ClientPacket
in_world = (215, [], 2) ∷ (99, 5 ∷ [], 3) ∷ (215, [], 4) ∷ []

game_conn_once_example :
    ((enter : List Event) × (leave : List Event) × Enters ann
        (some ((99, 5 ∷ [], 3) ∷ (215, [], 4) ∷ []))
        enter
      × Leaves ann leave
      × ((game_conn (verify_raw mem_redis toy_json) two_tokens ((218, ticket, 1) ∷ in_world)).1
          ≡ enter ++ leave))
    × ((game_conn
          (verify_raw mem_redis toy_json)
          (game_conn (verify_raw mem_redis toy_json) two_tokens ((218, ticket, 1) ∷ in_world)).0
          ((218, ticket, 1) ∷ [])).1
        ≡ [])
unfolding store_token character_list_loop relay_run relay_step forward translate_client_cm
    character_list_burst
game_conn_once_example =
    game_conn_once mem_redis toy_json mem_redis-IsRedis toy_json-IsJson nothing one_token two_tokens
      ticket (1 ∷ []) ann bob in_world [] 1 token-IsBytes.2
      (all_bytes-IsBytes token token-IsBytes.0) (omega arith, tt) token-ne
      (omega arith, (omega arith, (omega arith, tt))) refl refl refl refl

-- The store of the development mode lets everyone in as the same account.
abbrev dev_verify : ℕ → Bytes → ℕ × Verified
dev_verify s raw_token = (s, nil_verify_raw 1 raw_token)

abbrev dev_run : List ClientPacket
dev_run = (0, [], 1) ∷ (218, replicate 16 0, 2) ∷ (215, [], 3) ∷ []

dev_events : (game_conn dev_verify 0 dev_run).1 ≢ []
unfolding game_conn auth_loop character_list_loop nil_verify_raw
dev_events = λ e. ground arith

game_conn-Verified_example :
    (i : ℕ) × (payload : Bytes) × (now : ℕ) × (v : Data) × (i < 10)
    × (get_elem? dev_run i ≡ some (218, payload, now))
    × (16 ≤ length payload)
    × ((dev_verify 0 (l2auth_token payload)).1 ≡ verified v)
    × ((leave : List Event) × Leaves v leave
        × (((k : ℕ) × (relayed : List Event) × (i < k)
              × (k ≤ 20)
              × Published (relay_run start (drop k dev_run)).1 relayed
              × ((game_conn dev_verify 0 dev_run).1
                  ≡ (player_enter v.account_id v.account ∷ relayed) ++ leave))
            ⊎ ((game_conn dev_verify 0 dev_run).1 ≡ leave)))
game_conn-Verified_example = game_conn-Verified dev_verify 0 dev_run dev_events

l2auth_token-session_token_example : l2auth_token ticket ≡ session_token 7 100 200 300
l2auth_token-session_token_example = l2auth_token-session_token 7 100 200 300 10 (replicate 8 0)

abbrev dull : CharInfo
dull = record { name = codes "Hero"; gender = 0; race = 1; class = 2; appearance = replicate 561 0 }

create_character_ok_lem_example :
    ((length dull.appearance ≤ 560)
      × ((b : Bytes) × (create_character_ok 1001 dull 5 ≡ some b) × (length b ≡ 756)))
    ⊎ ((560 < length dull.appearance) × (create_character_ok 1001 dull 5 ≡ none))
create_character_ok_lem_example = create_character_ok_lem 1001 dull 5

abbrev requests : List ClientPacket
requests = (216, [], 5) ∷ (216, [], 6) ∷ (38, [], 7) ∷ []

requests-small : create_count requests < 2 ^ 31
unfolding create_count
requests-small = omega arith

enter_world_lem_example :
    ((relay_run start requests).0.next_player_obj_id ≡ 1002)
    × ((relay_run start requests).0.creation_window_opened ≡ false)
    × (relay_step (relay_run start requests).0 187 (3 ∷ []) 8
        ≡ ((relay_run start requests).0, publish 0x15 (put_le 4 1001 ++ 3 ∷ []) ∷ [], continue))
unfolding create_count
enter_world_lem_example = enter_world_lem requests (3 ∷ []) 8 requests-small (
    relay_run-safe requests start
      ((omega arith, refl), ((omega arith, refl), ((omega arith, refl), tt))))

relay_step-safe_example : (relay_step start 3 (replicate 632 0) 5).2 ≡ quit
relay_step-safe_example = relay_step-safe start 3 (replicate 632 0) 5 (omega arith)
