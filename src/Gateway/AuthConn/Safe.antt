-- ===== src/Gateway/AuthConn/Safe.antt =====
-- For whom an auth-port connection stores a token and publishes a login.
use ace.Prelude.{
  ℕ, ◌≡◌, ◌⊎◌, refl, ap, Bool, true, false, Option, none, some, not, ◌==◌, ==_iff, Bool-cases, inl,
  inr, arith,
}
use ace.Bytes.{Bytes}
use ace.Crypto.BlowfishLe.{BlockCipher, new_blowfish_le}
use ace.SessionStore.{Redis, Json}
use ace.Gateway.AuthPort.{AuthRead, auth_packet, read_error, body_empty, read_auth_packet}
use ace.Gateway.AuthConn.{
  AuthConnDeps, Random, Writes, Outcome, send, handle_cm_auth_login_raw, verify_account,
  authenticate, await_login, after_verify, after_credentials, after_key, after_cipher, first_packet,
  handle_auth_conn, sm_key, login_fail_invalid_credentials,
}
use ace.Gateway.AuthConn.Chosen.{
  Quiet, LetIn, Chosen, send-Chosen, login_failed-Quiet, await_server_list-Chosen,
}

-- A CM_AUTH_LOGIN with this payload comes first in the stream, or second after a CM_AUTH_GG.
pub data LoginPacket (c : BlockCipher) (stream : Bytes) (payload : Bytes) : Type 0 where
  first :
      (rest : Bytes)
      → read_auth_packet (some c) stream ≡ auth_packet 0x00 payload rest
      → LoginPacket c stream payload
  second :
      (gg after rest : Bytes)
      → read_auth_packet (some c) stream ≡ auth_packet 0x07 gg after
      → read_auth_packet (some c) after ≡ auth_packet 0x00 payload rest
      → LoginPacket c stream payload

module _ (r : Redis) (j : Json) (s : r.State) where
  module _ (deps : AuthConnDeps) (rand : Random) where
    -- `Came` says which payloads came from the client.
    abbrev pub Proved : (Bytes → Type 0) → ℕ → Bytes → Type 0
    Proved Came account_id account =
        (payload : Bytes) × (password : Bytes) × Came payload
        × (handle_cm_auth_login_raw deps.rsa_kp payload ≡ some (account, password))
        × (verify_account deps.db account password ≡ some account_id)

    abbrev pub Safe : (Bytes → Type 0) → Outcome r j → Type 0
    Safe Came o =
        Quiet r j s o
        ⊎ ((account_id : ℕ) × (account : Bytes) × Proved Came account_id account
            × LetIn r j s deps rand account_id account o)

    send-Safe :
        (Came : Bytes → Type 0) (ok : Bool) (bytes : Bytes) (next : Outcome r j)
        → Safe Came next
        → Safe Came (send r j ok bytes s next)
    send-Safe Came false bytes next h = inl (refl, tt)
    send-Safe Came true bytes next (inl h) = inl (h.0, (tt, h.1))
    send-Safe Came true bytes next (inr h) =
        let (account_id, account, proved, chosen) = h in
        let (server_id, stored, all) = chosen in
        inr (account_id, account, proved, (server_id, stored, (tt, all)))

    module _ (w : Writes) (c : BlockCipher) where
      module _ (account_id : ℕ) (account : Bytes) where
        Chosen-Safe :
            (Came : Bytes → Type 0) (o : Outcome r j)
            → Proved Came account_id account
            → Chosen r j s deps rand account_id account o
            → Safe Came o
        Chosen-Safe Came o proved (inl quiet) = inl quiet
        Chosen-Safe Came o proved (inr let_in) = inr (account_id, account, proved, let_in)

      module _ (Came : Bytes → Type 0) where
        after_verify-Safe :
            (payload account password rest : Bytes) (o : Option ℕ)
            → Came payload
            → handle_cm_auth_login_raw deps.rsa_kp payload ≡ some (account, password)
            → verify_account deps.db account password ≡ o
            → Safe Came (after_verify r j deps rand w c s account rest o)
        after_verify-Safe payload account password rest none came cred known =
            inl (login_failed-Quiet r j s deps rand w c w.login login_fail_invalid_credentials)
        after_verify-Safe payload account password rest (some account_id) came cred known =
            Chosen-Safe account_id account Came _ (payload, password, came, cred, known)
              (send-Chosen r j s deps rand account_id account w.login _ _ (
                await_server_list-Chosen r j s deps rand w c account_id account
                  (read_auth_packet (some c) rest)))

        authenticate-Safe :
            (payload rest : Bytes)
            → Came payload
            → Safe Came (authenticate r j deps rand w c s payload rest)
        unfolding authenticate
        authenticate-Safe payload rest came =
            by_credentials (handle_cm_auth_login_raw deps.rsa_kp payload) refl
          where
            by_credentials :
                (o : Option (Bytes × Bytes))
                → handle_cm_auth_login_raw deps.rsa_kp payload ≡ o
                → Safe Came (after_credentials r j deps rand w c s rest o)
            by_credentials none cred =
                inl (login_failed-Quiet r j s deps rand w c w.login login_fail_invalid_credentials)
            by_credentials (some (account, password)) cred =
                after_verify-Safe payload account password rest
                  (verify_account deps.db account password) came cred refl

        abbrev Logins : AuthRead → Type 0
        Logins read = (payload rest : Bytes) → read ≡ auth_packet 0x00 payload rest → Came payload

        await_login-Safe :
            (read : AuthRead) → Logins read → Safe Came (await_login r j deps rand w c s read)
        unfolding await_login
        await_login-Safe (read_error e) logins = inl (refl, tt)
        await_login-Safe body_empty logins = inl (refl, tt)
        await_login-Safe (auth_packet opcode payload rest) logins =
            elim (Bool-cases (not (opcode == 0x00))) [
              | inl e ↦ rw e (inl (refl, tt))
              | inr e ↦ rw e (
                  authenticate-Safe payload rest (
                    logins payload rest
                      (ap (λ n. auth_packet n payload rest) {x = opcode} {y = 0} (ground arith))))
            ]

        first_packet-Safe :
            (read : AuthRead)
            → Logins read
            → ((gg after : Bytes)
                → read ≡ auth_packet 0x07 gg after
                → Logins (read_auth_packet (some c) after))
            → Safe Came (first_packet r j deps rand w c s read)
        unfolding first_packet
        first_packet-Safe (read_error e) logins later = inl (refl, tt)
        first_packet-Safe body_empty logins later = inl (refl, tt)
        first_packet-Safe (auth_packet opcode payload rest) logins later =
            elim (Bool-cases (opcode == 0x07)) [
              | inl e ↦ rw e (
                  send-Safe Came w.auth_gg _ _ (
                    await_login-Safe (read_auth_packet (some c) rest) (
                      later payload rest
                        (ap (λ n. auth_packet n payload rest) ((==_iff opcode 0x07).0 e)))))
              | inr e ↦ rw e (elim (Bool-cases (opcode == 0x00)) [
                | inl f ↦ rw f (
                    authenticate-Safe payload rest (
                      logins payload rest
                        (ap (λ n. auth_packet n payload rest) ((==_iff opcode 0x00).0 f))))
                | inr f ↦ rw f (inl (refl, tt))
              ])
            ]

    -- The payload came in this stream, under a cipher of the gateway's key.
    abbrev pub InStream : (Bytes → Option BlockCipher) → Bytes → Bytes → Type 0
    InStream schedule stream payload =
        (c : BlockCipher) × (new_blowfish_le schedule deps.bf_key ≡ some c)
        × LoginPacket c stream payload

    -- Whatever a client sends and whichever writes fail, an auth-port connection either leaves the
    -- token store as it was and publishes nothing, or: a CM_AUTH_LOGIN came first in the stream, or
    -- second after a CM_AUTH_GG, whose payload holds, under the gateway's RSA key, an account and a
    -- password that the account database accepted; exactly the token of that account, with its name
    -- and a server, was stored; and no login event but that account's was published.
    pub handle_auth_conn-Safe :
        (w : Writes) (session_id : ℕ) (schedule : Bytes → Option BlockCipher) (stream : Bytes)
        → Safe
            (InStream schedule stream)
            (handle_auth_conn r j deps rand w session_id schedule s stream)
    unfolding handle_auth_conn
    handle_auth_conn-Safe w session_id schedule stream =
        by_cipher (new_blowfish_le schedule deps.bf_key) refl
      where
        by_key :
            (c : BlockCipher) (o : Option Bytes)
            → new_blowfish_le schedule deps.bf_key ≡ some c
            → Safe (InStream schedule stream) (after_key r j deps rand w session_id s stream c o)
        by_key c none e = inl (refl, tt)
        by_key c (some key) e = send-Safe (InStream schedule stream) w.key key _ (
            first_packet-Safe w c (InStream schedule stream) (read_auth_packet (some c) stream)
              (λ payload rest at. (c, e, first rest at))
              (λ gg after at payload rest at'. (c, e, second gg after rest at at')))

        by_cipher :
            (o : Option BlockCipher)
            → new_blowfish_le schedule deps.bf_key ≡ o
            → Safe (InStream schedule stream) (after_cipher r j deps rand w session_id s stream o)
        by_cipher none e = inl (refl, tt)
        by_cipher (some c) e =
            by_key c (sm_key c session_id deps.scrambled_modulus deps.bf_key rand.seed) e
