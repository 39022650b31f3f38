-- ===== src/Dispatcher.antt =====
-- server/src/cmd/world/dispatcher.go: the sessions of the world server, from the events that a player
-- enters and leaves, and the packets passed to the Lua router. The ECS is ace.World; the database,
-- the Lua machine and the message bus are outside: `call_sp` is DBBridge.CallSP with one argument,
-- an entered event says whether its subscription succeeded, and what is published is listed. A
-- subscription is kept under the entity id its handler captures. The character list is in
-- Dispatcher/CharacterList.antt.
pub mod CharacterList
pub mod Enter
pub mod Leave
pub mod Sessions
use ace.Prelude.{
  ℕ, zero, suc, ◌≡◌, Bool, true, false, Option, none, some, List, [], ◌∷◌, ◌++◌, String, lookup,
  delete, store, if◌then◌else◌,
}
use ace.Bytes.{Bytes}
use ace.World.{World, PlayerComp, new_entity, set_player, get_player, destroy_entity}
use ace.Dispatcher.CharacterList.{Database, character_list}

pub record PlayerEnterEvent : Type 0 where
  pub account_id : ℕ
  pub account : String
  pub gateway_seq_id : ℕ
  pub remote_addr : String

pub record PacketEvent : Type 0 where
  pub gateway_seq_id : ℕ
  pub opcode : ℕ
  pub payload : Bytes

-- `unsub` is the entity under which the subscription stands, or `none` for the function that does
-- nothing.
pub record PlayerSession : Type 0 where
  pub entity_id : ℕ
  pub account_id : ℕ
  pub account : String
  pub gateway_seq_id : ℕ
  pub unsub : Option ℕ

-- The dispatcher with the world, the counter of entity ids, and the bus: the subscriptions with the
-- session ids of their subjects, and the packets published so far.
pub record Dispatcher : Type 0 where
  pub counter : ℕ
  pub world : World
  pub sessions : List (ℕ × PlayerSession)
  pub subscriptions : List (ℕ × ℕ)
  pub published : List PacketEvent

abbrev pub sm_character_list : ℕ
sm_character_list = 0x10

unfoldable pub new_dispatcher : ℕ → World → Dispatcher
new_dispatcher counter world = record {
  counter = counter;
  world = world;
  sessions = [];
  subscriptions = [];
  published = [];
}

unfoldable pub send_to_player : Dispatcher → ℕ → ℕ → Bytes → Dispatcher
send_to_player d gateway_seq_id opcode payload = record d {
  published =
      d.published
      ++ record { gateway_seq_id = gateway_seq_id; opcode = opcode; payload = payload } ∷ [];
}

unfoldable pub send_character_list : Option Database → Dispatcher → ℕ → ℕ → Dispatcher
unfolding send_to_player
send_character_list db d account_id gateway_seq_id =
    send_to_player d gateway_seq_id sm_character_list (character_list db account_id)

-- The session and its entity, before the character list is sent.
unfoldable pub start_session : Bool → Dispatcher → PlayerEnterEvent → Dispatcher
start_session subscribed d ev =
    let (counter, entity_id, created) = new_entity d.counter d.world in
    let world = set_player created entity_id (record {
      account_id = ev.account_id;
      account = ev.account;
      gateway_seq_id = ev.gateway_seq_id;
      remote_addr = ev.remote_addr;
      char_name = "";
    }) in
    record d {
      counter = counter;
      world = world;
      sessions = store d.sessions ev.gateway_seq_id (record {
        entity_id = entity_id;
        account_id = ev.account_id;
        account = ev.account;
        gateway_seq_id = ev.gateway_seq_id;
        unsub = if subscribed then some entity_id else none;
      });
      subscriptions =
          if subscribed then store d.subscriptions entity_id ev.gateway_seq_id else d.subscriptions;
    }

unfoldable pub on_player_enter : Option Database → Bool → Dispatcher → PlayerEnterEvent → Dispatcher
on_player_enter db subscribed d ev =
    send_character_list db (start_session subscribed d ev) ev.account_id ev.gateway_seq_id

abbrev pub unsubscribed : Option ℕ → List (ℕ × ℕ) → List (ℕ × ℕ)
unsubscribed none subscriptions = subscriptions
unsubscribed (some entity_id) subscriptions = delete subscriptions entity_id

unfoldable pub on_player_leave : Dispatcher → ℕ → Dispatcher
on_player_leave d gateway_seq_id = elim (lookup d.sessions gateway_seq_id) [
  | none ↦ d
  | some sess ↦ record d {
    sessions = delete d.sessions gateway_seq_id;
    subscriptions = unsubscribed sess.unsub d.subscriptions;
    world = destroy_entity d.world sess.entity_id;
  }
]

-- What the router is called with; `Number` is Lua's, and `number` the conversion to it.
pub record LuaContext (Number : Type 0) : Type 0 where
  pub gateway_seq_id : Number
  pub entity_id : Number
  pub account : Option (Number × String)

unfoldable pub dispatch_cm :
    {Number : Type 0}
    → (ℕ → Number)
    → Bool
    → Dispatcher
    → ℕ
    → ℕ
    → PacketEvent
    → Option (Number × LuaContext Number × Bytes)
dispatch_cm {Number} number router d gateway_seq_id entity_id ev =
    let ctx : LuaContext Number = record {
      gateway_seq_id = number gateway_seq_id;
      entity_id = number entity_id;
      account = elim (get_player d.world entity_id) [
        | none ↦ none
        | some p ↦ some (number p.account_id, p.account)
      ];
    } in
    if router then some (number ev.opcode, ctx, ev.payload) else none
