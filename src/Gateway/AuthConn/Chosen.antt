-- ===== src/Gateway/AuthConn/Chosen.antt =====
-- The last steps of an auth-port connection, once an account is verified: what they store and
-- publish for it.
use ace.Prelude.{
  ℕ, ◌≡◌, ◌⊎◌, refl, Bool, true, false, Option, none, some, [], not, length, get_or, ltb, ◌==◌, All,
  Bool-cases, inl, inr,
}
use ace.Bytes.{Bytes}
use ace.Crypto.BlowfishLe.{BlockCipher}
use ace.SessionStore.{Redis, Json, store_token, encode_to_string}
use ace.Gateway.Login.{session_token, sm_play_ok}
use ace.Gateway.AuthPort.{AuthRead, auth_packet, read_error, body_empty, read_auth_packet}
use ace.Gateway.AuthConn.{
  AuthConnDeps, Random, Writes, Effect, sent, published, PlayerLoginEvent, Outcome, send,
  login_failed, token_for, play, await_play, await_server_list, login_event, after_store,
  login_fail_system_error, packet,
}

-- Nothing is published.
abbrev Unpublished : Effect → Type 0
Unpublished (sent bytes) = Unit
Unpublished (published ev) = ⊥

-- Only this event is.
abbrev pub Publishes : PlayerLoginEvent → Effect → Type 0
Publishes ev (sent bytes) = Unit
Publishes ev (published other) = other ≡ ev

module _ (r : Redis) (j : Json) (s : r.State) where
  abbrev pub Quiet : Outcome r j → Type 0
  Quiet o = (o.0 ≡ s) × All Unpublished o.1

  module _ (deps : AuthConnDeps) (rand : Random) where
    -- The token of an account whose credentials a client has sent and the database has accepted is
    -- stored, and its login event published.
    abbrev pub LetIn : ℕ → Bytes → Outcome r j → Type 0
    LetIn account_id account o =
        (server_id : ℕ) × (store_token r j s
            (session_token account_id rand.login_ok rand.play_ok1 rand.play_ok2)
            (record { account_id = account_id; account = account; server_id = server_id })
          ≡ some o.0)
        × All
            (Publishes (record {
              account_id = account_id;
              account = account;
              server_id = server_id;
              token_hex =
                  encode_to_string
                    (session_token account_id rand.login_ok rand.play_ok1 rand.play_ok2);
            }))
            o.1

    abbrev pub Chosen : ℕ → Bytes → Outcome r j → Type 0
    Chosen account_id account o = Quiet o ⊎ LetIn account_id account o

    stop-Chosen : (account_id : ℕ) (account : Bytes) → Chosen account_id account (s, [])
    stop-Chosen account_id account = inl (refl, tt)

    pub send-Chosen :
        (account_id : ℕ) (account : Bytes) (ok : Bool) (bytes : Bytes) (next : Outcome r j)
        → Chosen account_id account next
        → Chosen account_id account (send r j ok bytes s next)
    send-Chosen account_id account false bytes next h = stop-Chosen account_id account
    send-Chosen account_id account true bytes next (inl h) = inl (h.0, (tt, h.1))
    send-Chosen account_id account true bytes next (inr h) = inr (h.0, h.1, (tt, h.2))

    module _ (w : Writes) (c : BlockCipher) where
      pub login_failed-Quiet :
          (write : Bool) (reason : ℕ) → Quiet (login_failed r j deps rand w c s write reason)
      login_failed-Quiet true reason = (refl, (tt, tt))
      login_failed-Quiet false reason = (refl, tt)

      module _ (account_id : ℕ) (account : Bytes) where
        after_store-Chosen :
            (server_id : ℕ) (o : Option r.State)
            → store_token r j s
                (token_for r j deps rand w c account_id)
                (record { account_id = account_id; account = account; server_id = server_id })
              ≡ o
            → Chosen account_id account
                (after_store r j deps rand w c s account_id account server_id o)
        after_store-Chosen server_id none stored =
            inl (login_failed-Quiet w.play login_fail_system_error)
        after_store-Chosen server_id (some s') stored =
            inr (server_id, store_is w.play s' stored, (refl, only_sent w.play s'))
          where
            packet_of : Bytes
            packet_of =
                packet r j deps rand w c 0x07 (sm_play_ok rand.play_ok1 rand.play_ok2 server_id)

            store_is :
                (ok : Bool) (t : r.State)
                → store_token r j s
                    (token_for r j deps rand w c account_id)
                    (record { account_id = account_id; account = account; server_id = server_id })
                  ≡ some t
                → store_token r j s
                    (token_for r j deps rand w c account_id)
                    (record { account_id = account_id; account = account; server_id = server_id })
                  ≡ some (send r j ok packet_of t (t, [])).0
            store_is true t h = h
            store_is false t h = h

            only_sent :
                (ok : Bool) (t : r.State)
                → All
                    (Publishes (login_event r j deps rand w c account_id account server_id))
                    (send r j ok packet_of t (t, [])).1
            only_sent true t = (tt, tt)
            only_sent false t = tt

        await_play-Chosen :
            (read : AuthRead)
            → Chosen account_id account (await_play r j deps rand w c s account_id account read)
        unfolding await_play play
        await_play-Chosen (read_error e) = stop-Chosen account_id account
        await_play-Chosen body_empty = stop-Chosen account_id account
        await_play-Chosen (auth_packet opcode payload rest) =
            let server_id = get_or payload 8 0 in
            let chosen =
              after_store-Chosen server_id
                (store_token r j s (token_for r j deps rand w c account_id)
                  (record { account_id = account_id; account = account; server_id = server_id }))
                refl in
            elim (Bool-cases (not (opcode == 0x02))) [
              | inl e ↦ rw e (stop-Chosen account_id account)
              | inr e ↦ rw e (elim (Bool-cases (ltb (length payload) 9)) [
                | inl f ↦ rw f (stop-Chosen account_id account)
                | inr f ↦ rw f chosen
              ])
            ]

        pub await_server_list-Chosen :
            (read : AuthRead)
            → Chosen account_id account
                (await_server_list r j deps rand w c s account_id account read)
        unfolding await_server_list
        await_server_list-Chosen (read_error e) = stop-Chosen account_id account
        await_server_list-Chosen body_empty = stop-Chosen account_id account
        await_server_list-Chosen (auth_packet opcode payload rest) =
            elim (Bool-cases (not (opcode == 0x05))) [
              | inl e ↦ rw e (stop-Chosen account_id account)
              | inr e ↦ rw e (
                  send-Chosen account_id account w.server_list _ _
                    (await_play-Chosen (read_auth_packet (some c) rest)))
            ]
