-- ===== src/Dispatcher/Sessions.antt =====
-- The dispatcher's sessions and the world's players are the same.
use ace.Prelude.{
  ℕ, ◌≤◌, ◌≡◌, ◌≢◌, refl, ap, ◌∙◌, sym, Bool, Option, none, some, arith, lookup, lookup-delete_self,
  Option-cases, inl, inr,
}
use ace.World.{World, new_world, get_entity_by_seq_id}
use ace.World.Index.{same-IsIndexed}
use ace.Dispatcher.{Dispatcher, PlayerEnterEvent, new_dispatcher, on_player_enter, on_player_leave}
use ace.Dispatcher.CharacterList.{Database}
use ace.Dispatcher.Enter.{entity_at, Matches, on_player_enter-Matches}
use ace.Dispatcher.Leave.{on_player_leave_is, on_player_leave_unknown, on_player_leave-Matches}

sessions_after :
    (d : Dispatcher) (seq : ℕ) → Matches d → lookup (on_player_leave d seq).sessions seq ≡ none
sessions_after d seq ok = elim (Option-cases (lookup d.sessions seq)) [
  | inl missing ↦
      ap (λ (t : Dispatcher). lookup t.sessions seq) (on_player_leave_unknown d seq missing)
      ∙ missing
  | inr found ↦
      ap (λ (t : Dispatcher). lookup t.sessions seq) (on_player_leave_is d ok seq found.0 found.1)
      ∙ lookup-delete_self d.sessions seq
]

no_subscriber :
    (d : Dispatcher) (seq : ℕ)
    → Matches d
    → lookup d.sessions seq ≡ none
    → (e : ℕ) → lookup d.subscriptions e ≢ some seq
no_subscriber d seq ok missing e h =
    let (s, at, un) = ok.subscribers e seq h in absurd (ground (arith, missing, at))

-- What happens to a dispatcher: a player enters under an id that no session has, a session ends, or a
-- Lua handler changes the world but for its players, creating entities as it likes.
pub data Step : Dispatcher → Dispatcher → Type 0 where
  entered :
      {d : Dispatcher} (db : Option Database) (subscribed : Bool) (ev : PlayerEnterEvent)
      → lookup d.sessions ev.gateway_seq_id ≡ none
      → Step d (on_player_enter db subscribed d ev)
  left : {d : Dispatcher} (gateway_seq_id : ℕ) → Step d (on_player_leave d gateway_seq_id)
  handled :
      {d : Dispatcher} (world : World) (counter : ℕ)
      → d.counter ≤ counter
      → world.players ≡ d.world.players
      → world.by_seq_id ≡ d.world.by_seq_id
      → Step d (record d { world = world; counter = counter })

pub data Reachable : Dispatcher → Type 0 where
  fresh : (counter : ℕ) → Reachable (new_dispatcher counter new_world)
  after : {d d' : Dispatcher} → Reachable d → Step d d' → Reachable d'

new_dispatcher-Matches : (counter : ℕ) → Matches (new_dispatcher counter new_world)
unfolding new_dispatcher new_world
new_dispatcher-Matches counter = record {
  indexed = record {
    sound = λ seq e h. absurd (ground (arith, h));
    complete = λ e c h. absurd (ground (arith, h));
  };
  bounded = λ e c h. absurd (ground (arith, h));
  agree = λ seq. refl;
  subscribers = λ e seq h. absurd (ground (arith, h));
}

Step-Matches : (d d' : Dispatcher) → Matches d → Step d d' → Matches d'
Step-Matches d d' ok (entered db subscribed ev unknown) =
    on_player_enter-Matches d ok ev unknown db subscribed
Step-Matches d d' ok (left seq) = on_player_leave-Matches d seq ok
Step-Matches d d' ok (handled world counter more ps is) = record {
  indexed = same-IsIndexed d.world world ok.indexed ps is;
  bounded = λ e c h. omega (arith, ok.bounded e c (ap (λ m. lookup m e) (sym ps) ∙ h));
  agree = λ seq. ok.agree seq ∙ ap (λ m. lookup m seq) (sym is);
  subscribers = ok.subscribers;
}

pub Reachable-Matches : (d : Dispatcher) → Reachable d → Matches d
Reachable-Matches d (fresh counter) = new_dispatcher-Matches counter
Reachable-Matches d (after {d = before} {d' = now} r step) =
    Step-Matches before now (Reachable-Matches before r) step

-- In every state that a new dispatcher reaches by enter events under ids that no session has at that
-- time, leave events, and Lua handlers that leave the world's players alone: the entity of a stored
-- session is the one the world finds under the session's id, and an id without a session leads to
-- none. After a leave event the id has neither session nor entity, and no subscription delivers
-- its packets.
pub dispatcher_lem :
    (d : Dispatcher) (seq : ℕ)
    → Reachable d
    → let gone = on_player_leave d seq in
      (entity_at (lookup d.sessions seq) ≡ get_entity_by_seq_id d.world seq)
      × (lookup gone.sessions seq ≡ none)
      × (get_entity_by_seq_id gone.world seq ≡ none)
      × ((e : ℕ) → lookup gone.subscriptions e ≢ some seq)
unfolding get_entity_by_seq_id
dispatcher_lem d seq r =
    let ok = Reachable-Matches d r in
    let ok' = on_player_leave-Matches d seq ok in
    let none_left = sessions_after d seq ok in
    (
      ok.agree seq,
      none_left,
      sym (ok'.agree seq) ∙ ap entity_at none_left,
      no_subscriber (on_player_leave d seq) seq ok' none_left,
    )
