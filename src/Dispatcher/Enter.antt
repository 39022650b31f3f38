-- ===== src/Dispatcher/Enter.antt =====
-- What holds of the sessions, the world and the subscriptions, and that an enter event keeps it.
use ace.Prelude.{
  ℕ, ◌+◌, ◌≤◌, ◌≡◌, ◌≢◌, refl, ap, ◌∙◌, sym, Bool, true, false, Option, none, some, arith, lookup,
  store, lookup-store_self, lookup-store_ne, inl, inr, if◌then◌else◌,
}
use ace.World.{World, PlayerComp, new_entity, set_player}
use ace.World.Index.{IsIndexed, MaySet, same_or_ne, some_inj, set_player-IsIndexed, same-IsIndexed}
use ace.Dispatcher.{
  Dispatcher, PlayerSession, PlayerEnterEvent, start_session, on_player_enter, send_character_list,
  send_to_player,
}
use ace.Dispatcher.CharacterList.{Database}

abbrev pub entity_at : Option PlayerSession → Option ℕ
entity_at none = none
entity_at (some s) = some s.entity_id

-- Sessions and world agree, no player's entity is above the counter, and a subscription is that of a
-- session.
pub record Matches (d : Dispatcher) : Type 0 where
  pub indexed : IsIndexed d.world
  pub bounded : (e : ℕ) (c : PlayerComp) → lookup d.world.players e ≡ some c → e ≤ d.counter
  pub agree : (seq : ℕ) → entity_at (lookup d.sessions seq) ≡ lookup d.world.by_seq_id seq
  pub subscribers :
      (e seq : ℕ)
      → lookup d.subscriptions e ≡ some seq
      → (s : PlayerSession) × (lookup d.sessions seq ≡ some s) × (s.unsub ≡ some e)

module _ (d : Dispatcher) (ok : Matches d) (ev : PlayerEnterEvent)
    (fresh : lookup d.sessions ev.gateway_seq_id ≡ none) where
  abbrev e : ℕ
  e = d.counter + 1

  abbrev seq : ℕ
  seq = ev.gateway_seq_id

  abbrev comp : PlayerComp
  comp = record {
    account_id = ev.account_id;
    account = ev.account;
    gateway_seq_id = seq;
    remote_addr = ev.remote_addr;
    char_name = "";
  }

  abbrev created : World
  created = (new_entity d.counter d.world).2

  created_players : created.players ≡ d.world.players
  unfolding new_entity
  created_players = refl

  created_index : created.by_seq_id ≡ d.world.by_seq_id
  unfolding new_entity
  created_index = refl

  may : MaySet created e comp
  may = (
    λ b at.
        absurd (omega (arith, ok.bounded e b (ap (λ m. lookup m e) (sym created_players) ∙ at))),
    λ f at. absurd (
        ground (
          arith,
          ap entity_at fresh,
          ok.agree seq,
          ap (λ m. lookup m seq) (sym created_index) ∙ at,
        )),
  )

  abbrev session : Bool → PlayerSession
  session subscribed = record {
    entity_id = e;
    account_id = ev.account_id;
    account = ev.account;
    gateway_seq_id = seq;
    unsub = if subscribed then some e else none;
  }

  bounded_after :
      (f : ℕ) (c : PlayerComp)
      → lookup (store d.world.players e comp) f ≡ some c
      → f ≤ d.counter + 1
  bounded_after f c h = elim (same_or_ne e f) [
    | inl same ↦ omega (arith, same)
    | inr ne ↦ omega (arith, ok.bounded f c (sym (lookup-store_ne d.world.players e f comp ne) ∙ h))
  ]

  agree_after :
      (subscribed : Bool) (q : ℕ)
      → entity_at (lookup (store d.sessions seq (session subscribed)) q)
        ≡ lookup (store d.world.by_seq_id seq e) q
  agree_after subscribed q = elim (same_or_ne seq q) [
    | inl same ↦
        ap (λ n. entity_at (lookup (store d.sessions seq (session subscribed)) n)) (sym same)
        ∙ ap entity_at (lookup-store_self d.sessions seq (session subscribed))
        ∙ sym (lookup-store_self d.world.by_seq_id seq e)
        ∙ ap (lookup (store d.world.by_seq_id seq e)) same
    | inr ne ↦
        ap entity_at (lookup-store_ne d.sessions seq q (session subscribed) ne)
        ∙ ok.agree q
        ∙ sym (lookup-store_ne d.world.by_seq_id seq q e ne)
  ]

  -- An earlier subscription's session is still there.
  still :
      (subscribed : Bool) (f q : ℕ)
      → lookup d.subscriptions f ≡ some q
      → (s : PlayerSession) × (lookup (store d.sessions seq (session subscribed)) q ≡ some s)
        × (s.unsub ≡ some f)
  still subscribed f q h =
      let (s, at, un) = ok.subscribers f q h in
      let ne : seq ≢ q = λ eq. ground (arith, fresh, ap (lookup d.sessions) eq, at) in
      (s, lookup-store_ne d.sessions seq q (session subscribed) ne ∙ at, un)

  subscribers_after :
      (subscribed : Bool) (f q : ℕ)
      → lookup (if subscribed then store d.subscriptions e seq else d.subscriptions) f ≡ some q
      → (s : PlayerSession) × (lookup (store d.sessions seq (session subscribed)) q ≡ some s)
        × (s.unsub ≡ some f)
  subscribers_after false f q h = still false f q h
  subscribers_after true f q h = elim (same_or_ne e f) [
    | inl same ↦
        let q_is : seq ≡ q = some_inj (
          sym (lookup-store_self d.subscriptions e seq)
          ∙ ap (lookup (store d.subscriptions e seq)) same
          ∙ h) in
        (
          session true,
          ap (lookup (store d.sessions seq (session true))) (sym q_is)
              ∙ lookup-store_self d.sessions seq (session true),
          ap some same,
        )
    | inr ne ↦ still true f q (sym (lookup-store_ne d.subscriptions e f seq ne) ∙ h)
  ]

  pub on_player_enter-Matches :
      (db : Option Database) (subscribed : Bool) → Matches (on_player_enter db subscribed d ev)
  unfolding on_player_enter start_session send_character_list send_to_player new_entity set_player
  on_player_enter-Matches db subscribed = record {
    indexed =
        set_player-IsIndexed created e comp
          (same-IsIndexed d.world created ok.indexed created_players created_index) may;
    bounded = bounded_after;
    agree = agree_after subscribed;
    subscribers = subscribers_after subscribed;
  }
