-- ===== src/Gateway/AuthPort.antt =====
-- server/src/cmd/gateway, session.go and handshake.go: the packets of the auth port, with a one-byte
-- opcode, a checksum over 32-bit words, and Blowfish over whole blocks. The cipher is `none` until
-- the session has one and its keys are sent. A write gives the bytes that go out.
pub mod Checksum
pub mod Packets
use ace.Prelude.{
  ℕ, zero, suc, ◌+◌, ◌-◌, ◌/◌, ◌%◌, ◌^◌, Option, none, some, List, [], ◌∷◌, ◌++◌, length, take,
  drop, replicate, ltb, if◌then◌else◌,
}
use ace.Prelude.Xor.{bit_xor}
use ace.Bytes.{Bytes, put_le, get_le}
use ace.Crypto.BlowfishLe.{BlockCipher, encrypt_block, decrypt_block, over_blocks}
use ace.Packet.{Error, Result, ok, err, header_size, read_packet_from_conn}

-- The loop of `appendChecksum` from `i` to `count`, on the rounds left.
unfoldable pub xor_words : ℕ → Bytes → ℕ → ℕ → ℕ → ℕ
xor_words zero bytes i count chksum = chksum
xor_words (suc rounds) bytes i count chksum =
    let rest =
      xor_words rounds bytes (i + 4) count (bit_xor chksum (get_le (take 4 (drop i bytes)))) in
    if ltb i count then rest else chksum

unfoldable pub append_checksum : Bytes → ℕ → ℕ → Bytes
append_checksum bytes offset size =
    if ltb size 8
    then bytes
    else let count = offset + size - 4 in
      take count bytes
      ++ (put_le 4 (xor_words count bytes offset count 0) ++ drop (count + 4) bytes)

-- The blocks of a body under the session's cipher, if it has one.
abbrev pub encrypted : Option BlockCipher → Bytes → Bytes
encrypted none body = body
encrypted (some c) body = over_blocks (length body / 8) (encrypt_block c) body

abbrev pub decrypted : Option BlockCipher → Bytes → Bytes
decrypted none body = body
decrypted (some c) body = over_blocks (length body / 8) (decrypt_block c) body

-- The body before its encryption: one to eight bytes of padding behind the four of the checksum.
unfoldable pub auth_body : ℕ → Bytes → Bytes
auth_body opcode payload =
    let content_len = 1 + length payload in
    let body_len = content_len + 4 + (8 - (content_len + 4) % 8) in
    append_checksum ((opcode ∷ payload) ++ replicate (body_len - content_len) 0) 0 body_len

unfoldable pub send_auth_packet : Option BlockCipher → ℕ → Bytes → Bytes
send_auth_packet cipher opcode payload =
    let body = auth_body opcode payload in
    put_le 2 ((2 + length body) % 2 ^ 16) ++ encrypted cipher body

pub data AuthRead : Type 0 where
  auth_packet : ℕ → Bytes → Bytes → AuthRead
  read_error : Error → AuthRead
  body_empty : AuthRead

-- The opcode and what follows it, and the bytes behind the packet.
abbrev pub opened : Bytes → Bytes → AuthRead
opened [] rest = body_empty
opened (opcode ∷ payload) rest = auth_packet opcode payload rest

abbrev pub after_read : Option BlockCipher → Result (Bytes × Bytes) → AuthRead
after_read cipher (err e) = read_error e
after_read cipher (ok r) = opened (decrypted cipher (drop header_size r.0)) r.1

unfoldable pub read_auth_packet : Option BlockCipher → Bytes → AuthRead
read_auth_packet cipher stream = after_read cipher (read_packet_from_conn stream)
