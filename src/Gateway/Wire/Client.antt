-- ===== src/Gateway/Wire/Client.antt =====
-- What a client makes of the gateway's frames on the game port.
use ace.Prelude.{ℕ, ◌+◌, ◌%◌, ◌^◌, ◌<◌, ◌≡◌, refl, ap, ◌∙◌, true, ◌∷◌, arith, length, take, drop}
use ace.Bytes.{Bytes, get_le, get_le-put_le_of_lt}
use ace.Crypto.GameCrypt.{GameCrypt, encode_server_opcode, encipher_key, decrypt_body, encrypt}
use ace.Crypto.GameCrypt.Opcode.{
  decode_server_opcode, decode-encode_server_opcode, decipher_key, decipher-encipher_key,
}
use ace.Crypto.GameCrypt.Stream.{decrypt_body-encrypt_body}
use ace.Gateway.Wire.{send_game_sm_key, send_game_server_packet, server_body, length-encrypt}

encode_server_opcode-lt : (op v : ℕ) → encode_server_opcode op v < 2 ^ 16
unfolding encode_server_opcode
encode_server_opcode-lt op v = omega arith

encipher_key-lt : (k vb : ℕ) → encipher_key k vb < 2 ^ 32
unfolding encipher_key
encipher_key-lt k vb = omega arith

-- SM_KEY is 11 bytes long, as its header says; the client finds the opcode 72 in it, and behind it
-- the connection's 32-bit base key.
pub send_game_sm_key_lem :
    (base_key version : ℕ)
    → base_key < 2 ^ 32
    → (length (send_game_sm_key base_key version) ≡ 11)
      × (get_le (take 2 (send_game_sm_key base_key version)) ≡ 11)
      × (decode_server_opcode (get_le (take 2 (drop 2 (send_game_sm_key base_key version)))) version
          ≡ 72)
      × (decipher_key (get_le (drop 7 (send_game_sm_key base_key version))) (version % 256)
          ≡ base_key)
unfolding send_game_sm_key
send_game_sm_key_lem base_key version h = (
  refl,
  refl,
  ap (λ t. decode_server_opcode t version)
        (get_le-put_le_of_lt 2 (encode_server_opcode 72 version)
          (encode_server_opcode-lt 72 version))
      ∙ decode-encode_server_opcode 72 version (omega arith),
  ap (λ t. decipher_key t (version % 256))
        (get_le-put_le_of_lt 4 (encipher_key base_key (version % 256))
          (encipher_key-lt base_key (version % 256)))
      ∙ decipher-encipher_key base_key (version % 256) h (omega arith),
)

encrypt-on :
    (gc : GameCrypt) (b : ℕ) (bs : Bytes)
    → gc.enabled ≡ true
    → decrypt_body gc.server_key (encrypt gc (b ∷ bs)).1 ≡ b ∷ bs
unfolding encrypt
encrypt-on gc b bs on = ground (arith, decrypt_body-encrypt_body gc.server_key (b ∷ bs))

-- A frame to the client, once encryption is on: behind the length header, the body deciphers with
-- the server key to a header that holds the opcode and to the payload; and the length header holds
-- the frame's length if the frame fits it.
pub send_game_server_packet_lem :
    (gc : GameCrypt) (version raw_opcode : ℕ) (payload : Bytes)
    → gc.enabled ≡ true
    → raw_opcode < 2 ^ 16
    → length payload + 7 < 2 ^ 16
    → let wire = (send_game_server_packet gc version raw_opcode payload).1 in
      let plain = decrypt_body gc.server_key (drop 2 wire) in
      (get_le (take 2 wire) ≡ length wire)
      × (decode_server_opcode (get_le (take 2 plain)) version ≡ raw_opcode)
      × (drop 5 plain ≡ payload)
unfolding send_game_server_packet
send_game_server_packet_lem gc version raw_opcode payload on small fits =
    let body = server_body version raw_opcode payload in
    let plain : decrypt_body gc.server_key (encrypt gc body).1 ≡ body =
      unfold server_body in encrypt-on gc _ _ on in
    let size : length body ≡ length payload + 5 = unfold server_body in omega arith in
    (
      get_le-put_le_of_lt 2 ((2 + length body) % 2 ^ 16) (omega arith)
          ∙ omega (arith, length-encrypt gc body, size),
      ap (λ p. decode_server_opcode (get_le (take 2 p)) version) plain
          ∙ (unfold server_body in
              ap (λ t. decode_server_opcode t version)
                (get_le-put_le_of_lt 2 (encode_server_opcode (raw_opcode % 2 ^ 16) version)
                  (encode_server_opcode-lt (raw_opcode % 2 ^ 16) version))
              ∙ decode-encode_server_opcode (raw_opcode % 2 ^ 16) version (omega arith)
              ∙ omega arith),
      ap (drop 5) plain ∙ (unfold server_body in refl),
    )
