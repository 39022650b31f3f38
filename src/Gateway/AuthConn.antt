-- ===== src/Gateway/AuthConn.antt =====
-- server/src/cmd/gateway: the whole of an auth-port connection, main.go's handleAuthConn with
-- verifyAccount, and the packets that handshake.go sends in it. What comes in is the stream of bytes,
-- what goes out and is published is a list of effects in order; whether a write succeeds is given for
-- each, and a failed one ends the handler. Redis and JSON are those of ace.SessionStore, the key
-- schedule of Blowfish and the account procedure are parameters, the random numbers arguments.
pub mod Xor
pub mod Chosen
pub mod Safe
use ace.Prelude.{
  ℕ, zero, suc, ◌+◌, ◌-◌, ◌*◌, ◌/◌, ◌%◌, ◌^◌, Bool, true, false, ◌||◌, not, Option, none, some,
  List, [], ◌∷◌, ◌++◌, length, take, drop, replicate, get_or, ltb, ◌==◌, if◌then◌else◌,
}
use ace.Prelude.Xor.{bit_xor}
use ace.Bytes.{Bytes, put_le, get_le}
use ace.Crypto.BlowfishLe.{BlockCipher, encrypt_block, over_blocks, new_blowfish_le}
use ace.Crypto.Rsa.{RsaKeyPair, decrypt_credentials, parse_credentials, credential_block_size}
use ace.SessionStore.{Data, Redis, Json, store_token, encode_to_string}
use ace.Gateway.Login.{session_token, sm_login_ok, sm_play_ok}
use ace.Gateway.AuthPort.{
  AuthRead, auth_packet, read_error, body_empty, send_auth_packet, read_auth_packet,
}
use ace.Gateway.AuthConn.Xor.{enc_xor_pass}

pub record ServerEntry : Type 0 where
  pub id : ℕ
  pub host : ℕ × ℕ × ℕ × ℕ
  pub port : ℕ
  pub online : ℕ
  pub max_players : ℕ

-- The body of SM_KEY before its encryption.
unfoldable pub sm_init : ℕ → Bytes → Bytes → Bytes
sm_init session_id rsa_scrambled bf_static_key =
    0
    ∷ (put_le 4 session_id
        ++ (put_le 4 0xc621
            ++ (rsa_scrambled
                ++ (replicate 16 0
                    ++ (bf_static_key
                        ++ (replicate 7 0
                            ++ (0
                                ∷ 0
                                ∷ 0
                                ∷ 0
                                ∷ 0
                                ∷ (put_le 2 0 ++ (0 ∷ (put_le 4 0x3FCE09ED ++ put_le 4 0))))))))))

-- The length with checksum and seed, aligned to eight bytes.
abbrev pub key_body_len : ℕ → ℕ
key_body_len size =
    let body_len = size + 4 + 4 in
    if not (body_len % 8 == 0) then body_len + (8 - body_len % 8) else body_len

-- `none` for a modulus or a key of a wrong length.
unfoldable pub sm_key : BlockCipher → ℕ → Bytes → Bytes → ℕ → Option Bytes
sm_key c session_id rsa_scrambled bf_static_key seed =
    let body = sm_init session_id rsa_scrambled bf_static_key in
    let body_len = key_body_len (length body) in
    let padded = body ++ replicate (body_len - length body) 0 in
    let sealed =
      over_blocks (body_len / 8) (encrypt_block c) (enc_xor_pass padded 0 body_len seed) in
    if not (length rsa_scrambled == credential_block_size) || not (length bf_static_key == 16)
    then none
    else some (put_le 2 ((2 + body_len) % 2 ^ 16) ++ sealed)

-- The payload of SM_AUTH_GG, 39 bytes.
unfoldable pub sm_auth_gg : ℕ → Bytes
sm_auth_gg session_id =
    put_le 4 session_id
    ++ (replicate 16 0
        ++ (put_le 4 0xCD5000
            ++ (put_le 4 0
                ++ (put_le 4 (0x0b * 2 ^ 24)
                    ++ (put_le 4 (bit_xor session_id 0xCD5000) ++ replicate 3 0)))))

unfoldable pub server_entries : List ServerEntry → Bytes
server_entries [] = []
server_entries (srv ∷ servers) =
    let (a, b, c, d) = srv.host in
    (srv.id % 256 ∷ a ∷ b ∷ c ∷ d ∷ put_le 2 srv.port)
    ++ ((0 ∷ 0 ∷ 0 ∷ 0 ∷ put_le 2 srv.online)
        ++ (put_le 2 srv.max_players ++ (1 ∷ 1 ∷ 0 ∷ 0 ∷ 0 ∷ 0 ∷ server_entries servers)))

unfoldable pub sm_server_list : List ServerEntry → Bytes
sm_server_list servers =
    (length servers % 256 ∷ 1 ∷ server_entries servers) ++ (put_le 2 1 ++ (1 ∷ replicate 13 0))

-- handleCMAuthLoginRaw: the account and the password.
unfoldable pub handle_cm_auth_login_raw : RsaKeyPair → Bytes → Option (Bytes × Bytes)
handle_cm_auth_login_raw rsa_kp payload =
    if ltb (length payload) credential_block_size
    then none
    else elim (decrypt_credentials rsa_kp (take credential_block_size payload)) [
      | none ↦ none
      | some plain ↦ parse_credentials plain
    ]

-- A nil database accepts any credentials, as account 1.
unfoldable pub verify_account : Option (Bytes → Bytes → Option ℕ) → Bytes → Bytes → Option ℕ
verify_account none account password = some 1
verify_account (some sp) account password = sp account password

abbrev pub login_fail_invalid_credentials : ℕ
login_fail_invalid_credentials = 0x03

abbrev pub login_fail_system_error : ℕ
login_fail_system_error = 0x0F

pub record PlayerLoginEvent : Type 0 where
  pub account_id : ℕ
  pub account : Bytes
  pub server_id : ℕ
  pub token_hex : Bytes

pub data Effect : Type 0 where
  sent : Bytes → Effect
  published : PlayerLoginEvent → Effect

-- Which writes succeed.
pub record Writes : Type 0 where
  pub key : Bool
  pub auth_gg : Bool
  pub login : Bool
  pub server_list : Bool
  pub play : Bool

pub record Random : Type 0 where
  pub seed : ℕ
  pub login_ok : ℕ
  pub play_ok1 : ℕ
  pub play_ok2 : ℕ

pub record AuthConnDeps : Type 0 where
  pub rsa_kp : RsaKeyPair
  pub scrambled_modulus : Bytes
  pub bf_key : Bytes
  pub db : Option (Bytes → Bytes → Option ℕ)
  pub servers : List ServerEntry

module _ (r : Redis) (j : Json) where
  -- The token store after the connection, and what went out.
  abbrev pub Outcome : Type 0
  Outcome = r.State × List Effect

  abbrev pub emit : Effect → Outcome → Outcome
  emit e o = (o.0, e ∷ o.1)

  -- A write, and what follows if it succeeds.
  abbrev pub send : Bool → Bytes → r.State → Outcome → Outcome
  send succeeds packet s next = if succeeds then emit (sent packet) next else (s, [])

  module _ (deps : AuthConnDeps) (rand : Random) (w : Writes) (c : BlockCipher) where
    abbrev pub packet : ℕ → Bytes → Bytes
    packet = send_auth_packet (some c)

    abbrev pub login_failed : r.State → Bool → ℕ → Outcome
    login_failed s write reason = send write (packet 0x01 (reason ∷ [])) s (s, [])

    abbrev pub token_for : ℕ → Bytes
    token_for account_id = session_token account_id rand.login_ok rand.play_ok1 rand.play_ok2

    abbrev pub login_event : ℕ → Bytes → ℕ → PlayerLoginEvent
    login_event account_id account server_id = record {
      account_id = account_id;
      account = account;
      server_id = server_id;
      token_hex = encode_to_string (token_for account_id);
    }

    -- Steps 10 and 11, if the token is stored.
    abbrev pub after_store : r.State → ℕ → Bytes → ℕ → Option r.State → Outcome
    after_store s account_id account server_id none = login_failed s w.play login_fail_system_error
    after_store s account_id account server_id (some s') =
        emit (published (login_event account_id account server_id))
          (send w.play (packet 0x07 (sm_play_ok rand.play_ok1 rand.play_ok2 server_id)) s' (s', []))

    -- Step 9, once the server is chosen.
    unfoldable pub play : r.State → ℕ → Bytes → ℕ → Outcome
    play s account_id account server_id = after_store s account_id account server_id (
        store_token r j s (token_for account_id)
          (record { account_id = account_id; account = account; server_id = server_id }))

    -- Step 8.
    unfoldable pub await_play : r.State → ℕ → Bytes → AuthRead → Outcome
    await_play s account_id account (auth_packet opcode payload rest) =
        let chosen = play s account_id account (get_or payload 8 0) in
        if not (opcode == 0x02) then (s, []) else if ltb (length payload) 9 then (s, []) else chosen
    await_play s account_id account _ = (s, [])

    -- Steps 6 and 7.
    unfoldable pub await_server_list : r.State → ℕ → Bytes → AuthRead → Outcome
    await_server_list s account_id account (auth_packet opcode payload rest) =
        let next = await_play s account_id account (read_auth_packet (some c) rest) in
        if not (opcode == 0x05)
        then (s, [])
        else send w.server_list (packet 0x04 (sm_server_list deps.servers)) s next
    await_server_list s account_id account _ = (s, [])

    -- Step 5, if the account is verified.
    abbrev pub after_verify : r.State → Bytes → Bytes → Option ℕ → Outcome
    after_verify s account rest none = login_failed s w.login login_fail_invalid_credentials
    after_verify s account rest (some account_id) =
        send w.login (packet 0x03 (sm_login_ok account_id rand.login_ok)) s
          (await_server_list s account_id account (read_auth_packet (some c) rest))

    -- Step 4, if the credentials are readable.
    abbrev pub after_credentials : r.State → Bytes → Option (Bytes × Bytes) → Outcome
    after_credentials s rest none = login_failed s w.login login_fail_invalid_credentials
    after_credentials s rest (some (account, password)) =
        after_verify s account rest (verify_account deps.db account password)

    -- What is done with the payload of CM_AUTH_LOGIN.
    unfoldable pub authenticate : r.State → Bytes → Bytes → Outcome
    authenticate s payload rest =
        after_credentials s rest (handle_cm_auth_login_raw deps.rsa_kp payload)

    -- Step 3.
    unfoldable pub await_login : r.State → AuthRead → Outcome
    await_login s (auth_packet opcode payload rest) =
        let next = authenticate s payload rest in if not (opcode == 0x00) then (s, []) else next
    await_login s _ = (s, [])

    -- A session id of fewer than four bytes is zero.
    abbrev pub client_session_id : Bytes → ℕ
    client_session_id payload = if ltb (length payload) 4 then 0 else get_le (take 4 payload)

    -- Step 2.
    unfoldable pub first_packet : r.State → AuthRead → Outcome
    first_packet s (auth_packet opcode payload rest) =
        let direct = authenticate s payload rest in
        let after_gg = await_login s (read_auth_packet (some c) rest) in
        if opcode == 0x07
        then send w.auth_gg (packet 0x0B (sm_auth_gg (client_session_id payload))) s after_gg
        else if opcode == 0x00
        then direct
        else (s, [])
    first_packet s _ = (s, [])

  -- Both the key packet and the session make a cipher from the same key.
  module _ (deps : AuthConnDeps) (rand : Random) (w : Writes) (session_id : ℕ) where
    abbrev pub after_key : r.State → Bytes → BlockCipher → Option Bytes → Outcome
    after_key s stream c none = (s, [])
    after_key s stream c (some key) =
        send w.key key s (first_packet deps rand w c s (read_auth_packet (some c) stream))

    abbrev pub after_cipher : r.State → Bytes → Option BlockCipher → Outcome
    after_cipher s stream none = (s, [])
    after_cipher s stream (some c) =
        after_key s stream c (sm_key c session_id deps.scrambled_modulus deps.bf_key rand.seed)

    unfoldable pub handle_auth_conn : (Bytes → Option BlockCipher) → r.State → Bytes → Outcome
    handle_auth_conn schedule s stream =
        after_cipher s stream (new_blowfish_le schedule deps.bf_key)
