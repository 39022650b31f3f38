-- ===== src/Gateway/Wire.antt =====
-- server/src/cmd/gateway/game.go, the packet I/O of the game port: SM_KEY, the frames to the client
-- and the frames from it. A write gives the bytes that go out; a read takes the bytes that arrive,
-- and the write and read deadlines are left aside.
pub mod Client
use ace.Prelude.{
  ℕ, zero, suc, ◌+◌, ◌-◌, ◌%◌, ◌^◌, ◌≤◌, ◌<◌, ◌≡◌, refl, ap, ap₂, ◌∙◌, sym, Bool, true, false, List,
  [], ◌∷◌, ◌++◌, arith, length, take, drop, ltb, if◌then◌else◌, not,
}
use ace.Bytes.{Bytes, put_le, get_le, get_le-put_le_of_lt}
use ace.Crypto.GameCrypt.{
  GameCrypt, encrypt, decrypt, encode_server_opcode, decode_client_opcode, encipher_key,
  server_packet_code, validate_client,
}
use ace.Crypto.GameCrypt.Opcode.{
  client_body, encode_client_opcode, encode_client_opcode-lt, decode_client_opcode_inverse,
  validate-client_body,
}
use ace.Crypto.GameCrypt.Stream.{decrypt-encrypt, length-encrypt_body}
use ace.Packet.{Error, Result, ok, err, header_size, read_packet_from_conn}
use ace.Packet.Conn.{IsFramed, read_packet_lem}

abbrev game_op_sm_key : ℕ
game_op_sm_key = 72

-- The base key is the 32-bit pattern of an int32.
unfoldable pub send_game_sm_key : ℕ → ℕ → Bytes
send_game_sm_key base_key version =
    let op_enc = encode_server_opcode game_op_sm_key version in
    put_le 2 11
    ++ (put_le 2 op_enc
        ++ server_packet_code
          ∷ (put_le 2 (65535 - op_enc) ++ put_le 4 (encipher_key base_key (version % 256))))

-- The body before its encryption.
unfoldable pub server_body : ℕ → ℕ → Bytes → Bytes
server_body version raw_opcode payload =
    let op_enc = encode_server_opcode (raw_opcode % 2 ^ 16) version in
    put_le 2 op_enc ++ server_packet_code ∷ (put_le 2 (65535 - op_enc) ++ payload)

-- The cipher after the call, and the frame. The length wraps as uint16.
unfoldable pub send_game_server_packet : GameCrypt → ℕ → ℕ → Bytes → GameCrypt × Bytes
send_game_server_packet gc version raw_opcode payload =
    let body = server_body version raw_opcode payload in
    let (gc', wire, sent) = encrypt gc body in (gc', put_le 2 ((2 + length body) % 2 ^ 16) ++ wire)

pub data ReadError : Type 0 where
  packet_error : Error → ReadError
  body_too_short : ℕ → ReadError
  validation_failed : ReadError

-- A slot and a payload, with the bytes that follow the frame.
pub data GameRead : Type 0 where
  packet : ℕ → Bytes → Bytes → GameRead
  failed : ReadError → GameRead

unfoldable pub read_game_packet : GameCrypt → ℕ → Bytes → GameCrypt × GameRead
read_game_packet gc version stream = elim (read_packet_from_conn stream) [
  | err e ↦ (gc, failed (packet_error e))
  | ok r ↦
      let body = drop header_size r.0 in
      if ltb (length body) 5
      then (gc, failed (body_too_short (length body)))
      else let (gc', plain, accepted) = decrypt gc body in
        if not accepted
        then (gc', failed validation_failed)
        else (gc', packet (decode_client_opcode (get_le (take 2 plain)) version) (drop 5 plain) r.1)
]

-- What a client sends for a slot and a payload, and its cipher afterwards.
abbrev pub client_frame : GameCrypt → ℕ → ℕ → Bytes → GameCrypt × Bytes
client_frame gc version slot payload =
    let body = client_body (encode_client_opcode slot version) payload in
    ((encrypt gc body).0, put_le 2 (2 + length body) ++ (encrypt gc body).1)

pub length-encrypt : (gc : GameCrypt) (body : Bytes) → length (encrypt gc body).1 ≡ length body
unfolding encrypt
length-encrypt gc body = ground (arith, length-encrypt_body gc.server_key body)

read_game_lem :
    (gc : GameCrypt) (version : ℕ) (stream raw rest : Bytes)
    → read_packet_from_conn stream ≡ ok (raw, rest)
    → 5 ≤ length (drop 2 raw)
    → (decrypt gc (drop 2 raw)).2 ≡ true
    → read_game_packet gc version stream ≡ (
      (decrypt gc (drop 2 raw)).0,
      packet
          (decode_client_opcode (get_le (take 2 (decrypt gc (drop 2 raw)).1)) version)
          (drop 5 (decrypt gc (drop 2 raw)).1)
          rest,
    )
unfolding read_game_packet
read_game_lem gc version stream raw rest e room accepted = ground arith

module _ (s r : GameCrypt) (version slot : ℕ) (payload rest : Bytes) (on : s.enabled ≡ true)
    (same : r.client_key ≡ s.server_key) (small : slot < 2 ^ 16)
    (fits : length payload + 7 < 2 ^ 16) where
  abbrev encoded : ℕ
  encoded = encode_client_opcode slot version

  abbrev body : Bytes
  body = client_body encoded payload

  abbrev frame : Bytes
  frame = (client_frame s version slot payload).1

  encoded-lt : encoded < 65536
  encoded-lt = encode_client_opcode-lt slot version

  frame-IsFramed : IsFramed frame
  frame-IsFramed = (
    omega (arith, length-encrypt s body),
    get_le-put_le_of_lt 2 (2 + length body) (omega arith) ∙ omega (arith, length-encrypt s body),
    omega (arith, length-encrypt s body),
  )

  -- The gateway reads a client's frame, whatever bytes follow it on the connection, as the slot and
  -- the payload that the client meant, and leaves the bytes that follow; and the two ciphers agree
  -- again for the next frame. The client's cipher is on and has the gateway's client key, the slot
  -- has 16 bits, and the frame fits its length field.
  pub read_game_packet-client_frame :
      ((read_game_packet r version (frame ++ rest)).1 ≡ packet slot payload rest)
      × ((read_game_packet r version (frame ++ rest)).0.client_key
          ≡ (client_frame s version slot payload).0.server_key)
      × ((client_frame s version slot payload).0.enabled ≡ true)
  read_game_packet-client_frame =
      let step =
        decrypt-encrypt s r body on same (validate-client_body encoded payload encoded-lt) in
      let read =
        read_game_lem r version (frame ++ rest) frame rest
          (read_packet_lem frame rest frame-IsFramed) (omega (arith, length-encrypt s body))
          step.1 in
      let opcode_back : decode_client_opcode (get_le (take 2 body)) version ≡ slot =
        ap (λ t. decode_client_opcode t version) (get_le-put_le_of_lt 2 encoded encoded-lt)
        ∙ (decode_client_opcode_inverse slot version small).0 in
      (
        ap (λ (t : GameCrypt × GameRead). t.1) read
            ∙ ap (λ p. packet (decode_client_opcode (get_le (take 2 p)) version) (drop 5 p) rest)
                step.2
            ∙ ap (λ o. packet o payload rest) opcode_back,
        ap (λ (t : GameCrypt × GameRead). t.0.client_key) read ∙ step.3,
        step.4,
      )
