-- ===== src/Gateway/Login/Conn.antt =====
-- Which connections enter the world.
use ace.Prelude.{
  subst, ◌+◌, ◌||◌, drop, drop-drop, ℕ, zero, suc, ◌<◌, ◌≤◌, ◌≡◌, ◌≢◌, ap, ◌∙◌, true, some, List,
  [], ◌∷◌, ◌++◌, arith, length, ◌==◌, get_elem?, Bool-cases, Option-cases, inl, inr, ◌⊎◌,
}
use ace.Bytes.{Bytes, IsBytes}
use ace.SessionStore.{
  Data, Verified, verified, token_not_found, Redis, IsRedis, Json, IsJson, IsAscii, store_token,
  verify_raw,
}
use ace.SessionStore.OneTime.{verify_raw-store_token}
use ace.Gateway.Login.{
  l2auth_token, slot_cm_l2auth_login_check, max_attempts, Event, player_enter, auth_loop,
  character_list_loop, game_conn, leave_events, packet_events, world_events,
}
use ace.Gateway.Relay.{start, slot_cm_mac_address, slot_cm_time_check}
use ace.Gateway.Relay.Characters.{ClientPacket, relay_run}
use ace.Gateway.Login.Events.{
  Published, Leaves, Enters, packet_events-Published, world_events-Enters, leave_events-Leaves,
}

character_list_loop-drop :
    (n : ℕ) (packets rest : List ClientPacket)
    → character_list_loop n packets ≡ some rest
    → (m : ℕ) × (m ≤ n) × (rest ≡ drop m packets)
unfolding character_list_loop
character_list_loop-drop zero packets rest e = (0, omega arith, ground (arith, e))
character_list_loop-drop (suc n) [] rest e = absurd (ground (arith, e))
character_list_loop-drop (suc n) (p ∷ packets) rest e =
    elim (Bool-cases (p.0 == slot_cm_mac_address || p.0 == slot_cm_time_check)) [
      | inl more ↦
          let (m, le, is) = character_list_loop-drop n packets rest (ground (arith, e, more)) in
          (suc m, omega (arith, le), is)
      | inr over ↦ (1, omega arith, ground (arith, e, over))
    ]

module _ {S : Type 0} (verify : S → Bytes → S × Verified) where
  -- Where the data of an authenticated connection comes from, and what is left behind it.
  auth_loop-Verified :
      (n : ℕ) (s : S) (packets rest : List ClientPacket) (v : Data)
      → (auth_loop verify n s packets).1 ≡ some (v, rest)
      → (i : ℕ) × (payload : Bytes) × (now : ℕ) × (i < n)
        × (get_elem? packets i ≡ some (slot_cm_l2auth_login_check, payload, now))
        × (16 ≤ length payload)
        × ((verify s (l2auth_token payload)).1 ≡ verified v)
        × (rest ≡ drop (suc i) packets)
  unfolding auth_loop
  auth_loop-Verified zero s packets rest v e = absurd (ground arith)
  auth_loop-Verified (suc n) s [] rest v e = absurd (ground arith)
  auth_loop-Verified (suc n) s (p ∷ packets) rest v e =
      elim (Bool-cases (p.0 == slot_cm_l2auth_login_check)) [
        | inl here ↦
            (0, p.1, p.2, ground arith, ground arith, ground arith, ground arith, ground arith)
        | inr there ↦
            let (i, payload, now, lt, at, long, ok, is) =
              auth_loop-Verified n s packets rest v (ground arith) in
            (suc i, payload, now, omega arith, at, long, ok, is)
      ]

  -- A connection that publishes anything has, among its first ten packets, sent a
  -- CM_L2AUTH_LOGIN_CHECK of at least 16 bytes whose token the store verified. It then publishes
  -- either that session's enter event, behind it in order what the relay loop publishes for the
  -- packets behind some later one of the first twenty, and last the session's leave event, or the
  -- leave event alone. The leave event is there exactly if the account's name is not empty.
  pub game_conn-Verified :
      (s : S) (packets : List ClientPacket)
      → (game_conn verify s packets).1 ≢ []
      → (i : ℕ) × (payload : Bytes) × (now : ℕ) × (v : Data) × (i < 10)
        × (get_elem? packets i ≡ some (slot_cm_l2auth_login_check, payload, now))
        × (16 ≤ length payload)
        × ((verify s (l2auth_token payload)).1 ≡ verified v)
        × ((leave : List Event) × Leaves v leave
            × (((k : ℕ) × (relayed : List Event) × (i < k)
                  × (k ≤ 20)
                  × Published (relay_run start (drop k packets)).1 relayed
                  × ((game_conn verify s packets).1
                      ≡ (player_enter v.account_id v.account ∷ relayed) ++ leave))
                ⊎ ((game_conn verify s packets).1 ≡ leave)))
  unfolding game_conn
  game_conn-Verified s packets some_event =
      elim (Option-cases (auth_loop verify max_attempts s packets).1) [
        | inl e ↦ absurd (some_event (ground arith))
        | inr r ↦
            let (d, e) = r in
            let (i, payload, now, lt, at, long, ok, is) =
              auth_loop-Verified max_attempts s packets d.1 d.0 e in
            (
              i,
              payload,
              now,
              d.0,
              lt,
              at,
              long,
              ok,
              (
                leave_events d.0,
                leave_events-Leaves d.0,
                elim (Option-cases (character_list_loop max_attempts d.1)) [
                  | inl c ↦ inr (ground arith)
                  | inr c ↦
                      let (rest, f) = c in
                      let (m, le, there) = character_list_loop-drop max_attempts d.1 rest f in
                      let behind : rest ≡ drop (suc i + m) packets =
                        there ∙ ap (drop m) is ∙ drop-drop (suc i) m packets in
                      inl (
                        suc i + m,
                        packet_events (relay_run start (drop (suc i + m) packets)).1,
                        omega arith,
                        omega (arith, lt, le),
                        packet_events-Published _,
                        subst
                            (λ l.
                              (game_conn verify s packets).1
                              ≡ (player_enter d.0.account_id d.0.account
                                  ∷ packet_events (relay_run start l).1)
                                ++ leave_events d.0)
                            behind (ground (arith, e, f)),
                      )
                ],
              ),
            )
      ]

  game_conn-accepted :
      (s : S) (payload : Bytes) (packets : List ClientPacket) (now : ℕ) (v : Data)
      → 16 ≤ length payload
      → (verify s (l2auth_token payload)).1 ≡ verified v
      → game_conn verify s ((slot_cm_l2auth_login_check, payload, now) ∷ packets) ≡ (
        (verify s (l2auth_token payload)).0,
        world_events v (character_list_loop 10 packets) ++ leave_events v,
      )
  unfolding game_conn auth_loop
  game_conn-accepted s payload packets now v long ok = ground arith

  game_conn-refused :
      (s : S) (payload : Bytes) (packets : List ClientPacket) (now : ℕ)
      → (verify s (l2auth_token payload)).1 ≡ token_not_found
      → (game_conn verify s ((slot_cm_l2auth_login_check, payload, now) ∷ packets)).1 ≡ []
  unfolding game_conn auth_loop
  game_conn-refused s payload packets now missing = ground arith

-- A token that the auth port has stored, with another token stored after it, lets one connection in
-- that presents it in its first packet: this one publishes the stored account's enter event and the
-- relay loop's events, in order, if the handler gets past the wait for the character list, and last
-- its leave event, if the account's name is not empty. A second connection that presents the same
-- payload publishes nothing. Redis is reachable in both verifications. The payload has at least 16 bytes, the
-- tokens are different, the account's name is ASCII text, and Redis and JSON are lawful.
pub game_conn_once :
    (r : Redis) (j : Json)
    → IsRedis r
    → IsJson j
    → (s s1 s2 : r.State) (payload other : Bytes) (v w : Data) (more more' : List ClientPacket)
      (now : ℕ)
    → 16 ≤ length payload
    → IsBytes (l2auth_token payload)
    → IsBytes other
    → l2auth_token payload ≢ other
    → IsAscii v.account
    → store_token r j s (l2auth_token payload) v ≡ some s1
    → store_token r j s1 other w ≡ some s2
    → r.reachable s2 ≡ true
    → r.reachable (verify_raw r j s2 (l2auth_token payload)).0 ≡ true
    → let first =
        game_conn (verify_raw r j) s2 ((slot_cm_l2auth_login_check, payload, now) ∷ more) in
      let second =
        game_conn (verify_raw r j) first.0 ((slot_cm_l2auth_login_check, payload, now) ∷ more') in
      ((enter : List Event) × (leave : List Event) × Enters v (character_list_loop 10 more) enter
        × Leaves v leave
        × (first.1 ≡ enter ++ leave))
      × (second.1 ≡ [])
game_conn_once r j lr lj s s1 s2 payload other v w more more' now long bt bo ne ascii put put' up
      up' =
    let once =
      verify_raw-store_token r j lr lj s s1 s2 (l2auth_token payload) other v w bt bo ne ascii put
        put' up up' in
    let let_in = game_conn-accepted (verify_raw r j) s2 payload more now v long once.0 in
    (
      (
        world_events v (character_list_loop 10 more),
        leave_events v,
        world_events-Enters v (character_list_loop 10 more),
        leave_events-Leaves v,
        ap (λ (t : r.State × List Event). t.1) let_in,
      ),
      game_conn-refused (verify_raw r j) _ payload more' now (
          ap (λ (t : r.State × List Event). (verify_raw r j t.0 (l2auth_token payload)).1) let_in
          ∙ once.1),
    )
