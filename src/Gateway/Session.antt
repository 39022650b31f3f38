-- ===== src/Gateway/Session.antt =====
-- server/src/cmd/gateway/session.go: the stage of a client's connection, its ciphers, and the packets
-- with a two-byte opcode that pass them. Encryption is done in place, so a packet that has been sent
-- holds what went out.
pub mod Wire
pub mod Exchange
use ace.Prelude.{
  Bool, true, false, Option, none, some, ◌++◌, length, take, drop, ltb, ◌&&◌, if◌then◌else◌,
}
use ace.Bytes.{Bytes}
use ace.Crypto.XorCipher.{XorCipher, new_xor_cipher, encode, decode}
use ace.Crypto.BlowfishLe.{BlockCipher, encrypt_packet, decrypt_packet}
use ace.Packet.{
  Packet, Result, ok, err, ◌>>=◌, header_size, bytes, from_bytes, read_packet_from_conn,
}

pub data SessionState : Type 0 where
  new : SessionState
  keys_sent : SessionState
  authed : SessionState
  in_game : SessionState

-- Whether a state is keys_sent or a later one.
abbrev pub has_keys : SessionState → Bool
has_keys new = false
has_keys keys_sent = true
has_keys authed = true
has_keys in_game = true

pub record Session : Type 0 where
  pub state : SessionState
  pub bf_cipher : Option BlockCipher
  pub xor_enc : XorCipher
  pub xor_dec : XorCipher

unfoldable pub new_session : Session
new_session = record {
  state = new;
  bf_cipher = none;
  xor_enc = new_xor_cipher;
  xor_dec = new_xor_cipher;
}

-- A packet under the session's Blowfish cipher, if it has one and the keys are sent.
abbrev pub under_cipher : (BlockCipher → Bytes → Bytes) → Option BlockCipher → Bool → Bytes → Bytes
under_cipher f none keys raw = raw
under_cipher f (some c) keys raw = if keys then f c raw else raw

unfoldable pub send_packet : Session → Packet → Session × Packet
send_packet s pkt =
    let keys = has_keys s.state in
    let raw = under_cipher encrypt_packet s.bf_cipher keys (bytes pkt) in
    let e = encode s.xor_enc (drop header_size raw) in
    if keys && ltb header_size (length raw)
    then (record s { xor_enc = e.0 }, record pkt { buf = take header_size raw ++ e.1 })
    else (s, record pkt { buf = raw })

-- The bytes of a packet without its ciphers, and the session after it.
unfoldable pub decode_packet : Session → Bytes → Session × Bytes
decode_packet s packet =
    let keys = has_keys s.state in
    let raw = under_cipher decrypt_packet s.bf_cipher keys packet in
    let d = decode s.xor_dec (drop header_size raw) in
    if keys && ltb header_size (length raw)
    then (record s { xor_dec = d.0 }, take header_size raw ++ d.1)
    else (s, raw)

-- The packet, the session after the read, and the bytes behind it.
unfoldable pub read_packet : Session → Bytes → Result (Packet × Session × Bytes)
unfolding decode_packet
read_packet s stream = do
  (packet, rest) ← read_packet_from_conn stream
  pkt ← from_bytes (decode_packet s packet).1
  ok (pkt, (decode_packet s packet).0, rest)
