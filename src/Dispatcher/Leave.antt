-- ===== src/Dispatcher/Leave.antt =====
-- A leave event keeps what holds of the sessions.
use ace.Prelude.{
  ℕ, ◌≤◌, ◌≡◌, ◌≢◌, ap, ◌∙◌, sym, Option, none, some, arith, lookup, delete, lookup-delete_self,
  lookup-delete_ne, subst, Option-cases, inl, inr,
}
use ace.World.{World, PlayerComp, destroy_entity}
use ace.World.Index.{
  same_or_ne, some_inj, destroy_entity-IsIndexed, index_found, players_after, kept,
}
use ace.Dispatcher.{Dispatcher, PlayerSession, on_player_leave, unsubscribed}
use ace.Dispatcher.Enter.{entity_at, Matches}

module _ (d : Dispatcher) (ok : Matches d) (seq : ℕ) (s : PlayerSession)
    (here : lookup d.sessions seq ≡ some s) where
  abbrev left_world : World
  left_world = destroy_entity d.world s.entity_id

  indexed_here : lookup d.world.by_seq_id seq ≡ some s.entity_id
  indexed_here = sym (ok.agree seq) ∙ ap entity_at here

  index_after : left_world.by_seq_id ≡ delete d.world.by_seq_id seq
  index_after =
      let (c, at, id) = ok.indexed.sound seq s.entity_id indexed_here in
      index_found d.world s.entity_id c at ∙ ap (delete d.world.by_seq_id) id

  agree_left :
      (q : ℕ) → entity_at (lookup (delete d.sessions seq) q) ≡ lookup left_world.by_seq_id q
  agree_left q = elim (same_or_ne seq q) [
    | inl same ↦
        ap (λ n. entity_at (lookup (delete d.sessions seq) n)) (sym same)
        ∙ ap entity_at (lookup-delete_self d.sessions seq)
        ∙ sym (lookup-delete_self d.world.by_seq_id seq)
        ∙ ap (lookup (delete d.world.by_seq_id seq)) same
        ∙ ap (λ m. lookup m q) (sym index_after)
    | inr ne ↦
        ap entity_at (lookup-delete_ne d.sessions seq q ne)
        ∙ ok.agree q
        ∙ sym (lookup-delete_ne d.world.by_seq_id seq q ne)
        ∙ ap (λ m. lookup m q) (sym index_after)
  ]

  bounded_left : (f : ℕ) (c : PlayerComp) → lookup left_world.players f ≡ some c → f ≤ d.counter
  bounded_left f c h =
      ok.bounded f c
        (kept d.world s.entity_id ok.indexed f c
          (ap (λ m. lookup m f) (sym (players_after d.world s.entity_id)) ∙ h)).1

  -- A subscription that is left is not the session's.
  remaining :
      (u : Option ℕ) (f q : ℕ)
      → lookup (unsubscribed u d.subscriptions) f ≡ some q
      → (u ≢ some f) × (lookup d.subscriptions f ≡ some q)
  remaining none f q h = (λ eq. absurd (ground (arith, eq)), h)
  remaining (some e0) f q h =
      let ne : e0 ≢ f = λ eq. ground (
        arith,
        lookup-delete_self d.subscriptions e0,
        ap (lookup (delete d.subscriptions e0)) eq,
        h,
      ) in
      (λ eq. ne (some_inj eq), sym (lookup-delete_ne d.subscriptions e0 f ne) ∙ h)

  subscribers_left :
      (f q : ℕ)
      → lookup (unsubscribed s.unsub d.subscriptions) f ≡ some q
      → (t : PlayerSession) × (lookup (delete d.sessions seq) q ≡ some t) × (t.unsub ≡ some f)
  subscribers_left f q h =
      let (other, old) = remaining s.unsub f q h in
      let (t, at, un) = ok.subscribers f q old in
      let ne : seq ≢ q = λ eq. other (
        ap (λ (r : PlayerSession). r.unsub) (some_inj (sym here ∙ ap (lookup d.sessions) eq ∙ at))
        ∙ un) in
      (t, lookup-delete_ne d.sessions seq q ne ∙ at, un)

  abbrev left_state : Dispatcher
  left_state = record d {
    sessions = delete d.sessions seq;
    subscriptions = unsubscribed s.unsub d.subscriptions;
    world = left_world;
  }

  pub on_player_leave_is : on_player_leave d seq ≡ left_state
  unfolding on_player_leave
  on_player_leave_is = ap after here
    where
      after : Option PlayerSession → Dispatcher
      after none = d
      after (some t) = record d {
        sessions = delete d.sessions seq;
        subscriptions = unsubscribed t.unsub d.subscriptions;
        world = destroy_entity d.world t.entity_id;
      }

  left_state-Matches : Matches left_state
  left_state-Matches = record {
    indexed = destroy_entity-IsIndexed d.world s.entity_id ok.indexed;
    bounded = bounded_left;
    agree = agree_left;
    subscribers = subscribers_left;
  }

pub on_player_leave_unknown :
    (d : Dispatcher) (seq : ℕ) → lookup d.sessions seq ≡ none → on_player_leave d seq ≡ d
unfolding on_player_leave
on_player_leave_unknown d seq missing = ground arith

pub on_player_leave-Matches :
    (d : Dispatcher) (seq : ℕ) → Matches d → Matches (on_player_leave d seq)
on_player_leave-Matches d seq ok = elim (Option-cases (lookup d.sessions seq)) [
  | inl missing ↦ subst Matches (sym (on_player_leave_unknown d seq missing)) ok
  | inr found ↦
      subst Matches (sym (on_player_leave_is d ok seq found.0 found.1))
        (left_state-Matches d ok seq found.0 found.1)
]
