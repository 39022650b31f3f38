-- ===== src/Gateway/Login/Events.antt =====
-- What a game connection publishes of its session, said without the functions that compute it.
use ace.Prelude.{ℕ, ◌≡◌, ◌≢◌, ◌⊎◌, refl, Option, none, some, List, [], ◌∷◌, arith, inl, inr}
use ace.Bytes.{Bytes}
use ace.SessionStore.{Data}
use ace.Gateway.Relay.{Effect, send, publish, start}
use ace.Gateway.Relay.Characters.{ClientPacket, relay_run}
use ace.Gateway.Login.{
  Event, player_enter, player_leave, packet_event, packet_events, world_events, leave_events,
}

-- The events that a list of effects publishes, in order.
pub data Published : List Effect → List Event → Type 0 where
  done : Published [] []
  unseen :
      {effects : List Effect} {events : List Event} (opcode : ℕ) (payload : Bytes)
      → Published effects events
      → Published (send opcode payload ∷ effects) events
  seen :
      {effects : List Effect} {events : List Event} (opcode : ℕ) (payload : Bytes)
      → Published effects events
      → Published (publish opcode payload ∷ effects) (packet_event opcode payload ∷ events)

-- The leave event is there exactly if the account's name is not empty.
abbrev pub Leaves : Data → List Event → Type 0
Leaves v events =
    ((v.account ≡ []) × (events ≡ []))
    ⊎ ((v.account ≢ []) × (events ≡ player_leave v.account_id ∷ []))

-- The enter event and behind it what the relay loop publishes, if it is reached.
abbrev pub Enters : Data → Option (List ClientPacket) → List Event → Type 0
Enters v none events = events ≡ []
Enters v (some packets) events =
    (relayed : List Event) × (events ≡ player_enter v.account_id v.account ∷ relayed)
    × Published (relay_run start packets).1 relayed

pub packet_events-Published : (effects : List Effect) → Published effects (packet_events effects)
packet_events-Published [] = done
packet_events-Published (send opcode payload ∷ effects) =
    unseen opcode payload (packet_events-Published effects)
packet_events-Published (publish opcode payload ∷ effects) =
    seen opcode payload (packet_events-Published effects)

pub world_events-Enters :
    (v : Data) (packets : Option (List ClientPacket)) → Enters v packets (world_events v packets)
world_events-Enters v none = refl
world_events-Enters v (some packets) =
    (packet_events (relay_run start packets).1, refl, packet_events-Published _)

pub leave_events-Leaves : (v : Data) → Leaves v (leave_events v)
leave_events-Leaves v = by_name v.account refl
  where
    by_name : (name : Bytes) → v.account ≡ name → Leaves v (leave_events v)
    by_name [] e = inl (e, rw e refl)
    by_name (c ∷ cs) e = inr (λ none_left. absurd (ground (arith, e, none_left)), rw e refl)
