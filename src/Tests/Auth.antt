-- ===== src/Tests/Auth.antt =====
-- The auth port's packets at a concrete input.
use ace.Prelude.{
  ℕ, ◌+◌, ◌^◌, true, List, none, length, replicate, if◌then◌else◌, ◌≡◌, refl, some, [], ◌∷◌, ◌++◌,
  arith, take,
}
use ace.Bytes.{Bytes, codes, put_le}
use ace.Bytes.Equal.{bytes_eq}
use ace.Tests.Sessions.{mem_redis, toy_json, nothing}
use ace.SessionStore.{store_token}
use ace.Crypto.Rsa.{decrypt_credentials, parse_credentials, null_term_string, fill_block}
use ace.Crypto.BlowfishLe.{
  new_blowfish_le, over_blocks, encrypt_block, decrypt_block, convert_block,
}
use ace.Packet.{read_packet_from_conn}
use ace.Gateway.AuthConn.{
  AuthConnDeps, Random, Writes, Effect, sent, published, Outcome, handle_auth_conn, first_packet,
  await_login, authenticate, await_server_list, await_play, play, handle_cm_auth_login_raw,
  verify_account, sm_key,
}
use ace.Gateway.AuthConn.Xor.{enc_xor_pass, enc_loop, dec_xor_pass, dec_loop, ecx_pos_from}
use ace.Gateway.AuthConn.Safe.{Safe, InStream, handle_auth_conn-Safe}
use ace.Crypto.BlowfishLe.{BlockCipher, IsLawful}
use ace.Gateway.AuthPort.{send_auth_packet, read_auth_packet, auth_packet}
use ace.Gateway.AuthPort.Checksum.{words_xor}
use ace.Gateway.AuthPort.Packets.{read_auth_packet-send_auth_packet}

abbrev plain_cipher : BlockCipher
plain_cipher = record { encrypt = λ b. b; decrypt = λ b. b }

plain_cipher-IsLawful : IsLawful plain_cipher
plain_cipher-IsLawful = record { encrypt-IsBlock = λ b h. h; decrypt-encrypt = λ b h. refl }

read_auth_packet-send_auth_packet_example :
    (got : Bytes) × (read_auth_packet
        (some plain_cipher)
        (send_auth_packet (some plain_cipher) 7 (5 ∷ 6 ∷ []) ++ 1 ∷ [])
      ≡ auth_packet 7 got (1 ∷ []))
    × (take 2 got ≡ 5 ∷ 6 ∷ [])
    × (words_xor (7 ∷ got) ≡ 0)
read_auth_packet-send_auth_packet_example =
    read_auth_packet-send_auth_packet 7 (5 ∷ 6 ∷ []) (omega arith) (omega arith, (omega arith, tt))
      (some plain_cipher) plain_cipher-IsLawful (omega arith) (1 ∷ [])

-- A frame of the client's, and a credential block that is its own ciphertext.
abbrev frame : Bytes → Bytes
frame body = put_le 2 (2 + length body) ++ body

abbrev credentials : Bytes
credentials = 0 ∷ (codes "ann" ++ (replicate 14 0 ++ (codes "pw" ++ replicate 108 0)))

abbrev login_stream : Bytes
login_stream =
    frame (7 ∷ replicate 15 0)
    ++ (frame (0 ∷ (credentials ++ replicate 7 0))
        ++ (frame (5 ∷ replicate 7 0) ++ frame (2 ∷ (replicate 8 0 ++ (10 ∷ replicate 6 0)))))

abbrev deps : AuthConnDeps
deps = record {
  rsa_kp = record { n = 256 ^ 128; e = 1; d = 1 };
  scrambled_modulus = replicate 128 1;
  bf_key = replicate 16 2;
  db = some (λ account password. if bytes_eq password (codes "pw") then some 7 else none);
  servers = [];
}

abbrev rand : Random
rand = record { seed = 1; login_ok = 100; play_ok1 = 200; play_ok2 = 300 }

abbrev writes : Writes
writes = record { key = true; auth_gg = true; login = true; server_list = true; play = true }

abbrev outcome : Outcome mem_redis toy_json
outcome =
    handle_auth_conn mem_redis toy_json deps rand writes 1 (λ key. some plain_cipher) nothing
      login_stream

handle_auth_conn-Safe_example :
    Safe mem_redis toy_json nothing deps rand
      (InStream mem_redis toy_json nothing deps rand (λ key. some plain_cipher) login_stream)
      outcome
handle_auth_conn-Safe_example =
    handle_auth_conn-Safe mem_redis toy_json nothing deps rand writes 1 (λ key. some plain_cipher)
      login_stream

-- The login of this stream is published.
events_of : List Effect → List ℕ
events_of [] = []
events_of (sent bytes ∷ effects) = events_of effects
events_of (published ev ∷ effects) = ev.account_id ∷ events_of effects

login_published : (events_of outcome.1 ≡ 7 ∷ []) × (length outcome.1 ≡ 6)
unfolding events_of handle_auth_conn first_packet await_login authenticate await_server_list
    await_play play handle_cm_auth_login_raw verify_account decrypt_credentials parse_credentials
    null_term_string fill_block read_auth_packet read_packet_from_conn new_blowfish_le over_blocks
    encrypt_block decrypt_block convert_block sm_key store_token bytes_eq
login_published = (refl, refl)

-- The backward pass undoes the forward one, up to the place of the accumulator.
xor_round :
    take 16 (dec_xor_pass (enc_xor_pass (replicate 16 9 ++ replicate 8 0) 0 24 77) 0 24)
    ≡ replicate 16 9
unfolding enc_xor_pass enc_loop dec_xor_pass dec_loop ecx_pos_from
xor_round = refl
