-- ===== src/Tests/Ciphers.antt =====
-- The ciphers and the RSA block at concrete inputs.
use ace.Prelude.{
  length, take, drop, ◌≡◌, refl, true, [], ◌∷◌, ◌++◌, arith, replicate, List, map, some,
}
use ace.Bytes.{Bytes, all_bytes, all_bytes-IsBytes}
use ace.Crypto.GameCrypt.{GameCrypt, encrypt, decrypt, validate_client}
use ace.Crypto.GameCrypt.Session.{receive_all, genuine, noise, end, receive_all-Traffic}
use ace.Crypto.GameCrypt.Opcode.{client_body}
use ace.Crypto.XorCipher.{XorCipher}
use ace.Packet.{Packet, padded, padding}
use ace.Gateway.Session.{Session, in_game}
use ace.Gateway.Session.Exchange.{Message, down, up, exchange, meant, exchange-meant}
use ace.TinyClient.Conn.{Client, packet_body}
use ace.Crypto.BlowfishLe.{BlockCipher, IsLawful, encrypt_packet, decrypt_packet}
use ace.Crypto.BlowfishLe.Laws.{decrypt_packet-encrypt_packet}
use ace.Crypto.Rsa.{scramble_modulus, unscramble_modulus}
use ace.Crypto.Rsa.Scramble.{unscramble-scramble}

abbrev key : Bytes
key = 1 ∷ 2 ∷ 3 ∷ 4 ∷ 0xa1 ∷ 0x6c ∷ 0x54 ∷ 0x87 ∷ []

abbrev peer : GameCrypt
peer = record { server_key = key; client_key = key; enabled = true }

abbrev hello : Bytes
hello = client_body 300 (7 ∷ 8 ∷ [])

abbrev junk : Bytes
junk = 1 ∷ 2 ∷ 3 ∷ []

receive_all-Traffic_example : (receive_all peer (junk ∷ (encrypt peer hello).1 ∷ [])).1 ≡ hello ∷ []
unfolding decrypt validate_client
receive_all-Traffic_example =
    receive_all-Traffic peer peer (junk ∷ (encrypt peer hello).1 ∷ []) (hello ∷ []) refl refl
      (noise junk refl (genuine hello refl end))

abbrev fresh : XorCipher
fresh = record { state = 1234 }

abbrev plain_cipher : BlockCipher
plain_cipher = record { encrypt = λ b. b; decrypt = λ b. b }

plain_cipher-IsLawful : IsLawful plain_cipher
plain_cipher-IsLawful = record { encrypt-IsBlock = λ b h. h; decrypt-encrypt = λ b h. refl }

abbrev gateway : Session
gateway = record {
  state = in_game;
  bf_cipher = some plain_cipher;
  xor_enc = fresh;
  xor_dec = fresh;
}

abbrev client : Client
client = record { bf = some plain_cipher; xor_enc = fresh; xor_dec = fresh }

abbrev greeting : Packet
greeting = record { buf = 0 ∷ 0 ∷ 5 ∷ 0 ∷ 9 ∷ []; rpos = 4 }

abbrev talk : List Message
talk = up 300 (7 ∷ 8 ∷ []) ∷ down greeting ∷ down greeting ∷ up 301 [] ∷ []

exchange-meant_example : exchange gateway client talk ≡ map meant talk
unfolding padded padding packet_body
exchange-meant_example =
    exchange-meant plain_cipher plain_cipher-IsLawful gateway client talk
      (record { keys = refl; gateway_bf = refl; client_bf = refl; down_xor = refl; up_xor = refl })
      (omega arith)

abbrev packet : Bytes
packet = 12 ∷ 0 ∷ 1 ∷ 2 ∷ 3 ∷ 4 ∷ 5 ∷ 6 ∷ 7 ∷ 8 ∷ 9 ∷ 10 ∷ []

decrypt_packet-encrypt_packet_example :
    (decrypt_packet plain_cipher (encrypt_packet plain_cipher packet) ≡ packet)
    × (length (encrypt_packet plain_cipher packet) ≡ 12)
    × (take 2 (encrypt_packet plain_cipher packet) ≡ 12 ∷ 0 ∷ [])
    × (drop 10 (encrypt_packet plain_cipher packet) ≡ 9 ∷ 10 ∷ [])
unfolding all_bytes
decrypt_packet-encrypt_packet_example =
    decrypt_packet-encrypt_packet plain_cipher plain_cipher-IsLawful packet
      (all_bytes-IsBytes packet refl)

abbrev modulus : Bytes
modulus = hello ++ (junk ++ replicate 118 200)

unscramble-scramble_example : unscramble_modulus (scramble_modulus modulus) ≡ modulus
unscramble-scramble_example = unscramble-scramble modulus refl
