-- ===== src/Gateway/Session/Wire.antt =====
-- The bytes of one packet between a gateway session and the test client, a header of two bytes `h`
-- and a body, through the ciphers of one side.
use ace.Prelude.{
  Option, ◌%◌, ℕ, ◌+◌, ◌-◌, ◌/◌, ◌≤◌, ◌<◌, ◌^◌, ◌≡◌, refl, ap, ◌∙◌, some, true, false, ◌++◌, arith,
  length, take, drop, ltb, take-append, drop-append, append_assoc,
}
use ace.Bytes.{Bytes, get_le, put_le}
use ace.Crypto.XorCipher.{encode, decode}
use ace.Crypto.BlowfishLe.{BlockCipher, encrypt_block, decrypt_block, over_blocks}
use ace.Crypto.BlowfishLe.Laws.{encrypt_packet_lem, decrypt_packet_lem}
use ace.Packet.{Packet, ok, bytes, read_full}
use ace.Packet.Conn.{read_full_lem}
use ace.Gateway.Session.{Session, has_keys, send_packet, decode_packet}
use ace.TinyClient.Conn
use ace.TinyClient.Conn.{Client, packet_body, encrypt_body, decrypt_body}

module _ (c : BlockCipher) where
  abbrev pub enc : Bytes → Bytes
  enc b = over_blocks (length b / 8) (encrypt_block c) b

  abbrev pub dec : Bytes → Bytes
  dec b = over_blocks (length b / 8) (decrypt_block c) b

  module _ (s : Session) (keys : has_keys s.state ≡ true) (bf : s.bf_cipher ≡ some c) (h b : Bytes)
      (two : length h ≡ 2) where
    pub send_packet_lem :
        (p : Packet)
        → bytes p ≡ h ++ b
        → 2 < length (h ++ enc b)
        → send_packet s p ≡ (
          record s { xor_enc = (encode s.xor_enc (enc b)).0 },
          record p { buf = h ++ (encode s.xor_enc (enc b)).1 },
        )
    unfolding send_packet
    send_packet_lem p e long =
        let long' : ltb 2 (length (h ++ enc b)) ≡ true = ground arith in
        rw
          (
            keys,
            bf,
            e,
            encrypt_packet_lem c h b two,
            long',
            take-append 2 h (enc b) two,
            drop-append 2 h (enc b) two,
          )
          refl

    pub decode_packet_lem :
        2 < length (h ++ dec b)
        → decode_packet s (h ++ b)
          ≡ (record s { xor_dec = (decode s.xor_dec (dec b)).0 }, h ++ (decode s.xor_dec (dec b)).1)
    unfolding decode_packet
    decode_packet_lem long =
        let long' : ltb 2 (length (h ++ dec b)) ≡ true = ground arith in
        rw
          (
            keys,
            bf,
            decrypt_packet_lem c h b two,
            long',
            take-append 2 h (dec b) two,
            drop-append 2 h (dec b) two,
          )
          refl

  module _ (k : Client) (bf : k.bf ≡ some c) (h b : Bytes) (two : length h ≡ 2) where
    pub client_read_lem :
        (rest plain : Bytes)
        → get_le h ≡ 2 + length b
        → dec (decode k.xor_dec b).1 ≡ plain
        → 2 ≤ length b
        → 2 ≤ length plain
        → Conn.read_packet k ((h ++ b) ++ rest)
          ≡ ok (
            (get_le (take 2 plain), drop 2 plain),
            record k { xor_dec = (decode k.xor_dec b).0 },
            rest,
          )
    unfolding Conn.read_packet decrypt_body
    client_read_lem rest plain total e room room' =
        let first = ap (read_full 2) (append_assoc h b rest) ∙ read_full_lem 2 h (b ++ rest) two in
        let second = read_full_lem (get_le h - 2) b rest (omega (arith, total)) in
        let lo : ltb (get_le h) 4 ≡ false = ground (arith, total) in
        let lo' : ltb (length plain) 2 ≡ false = ground arith in
        rw (first, lo, second, bf, e, lo') refl

  -- What the client writes: its packet body under the XOR encoder, then under the block cipher.
  pub client_send_lem :
      (k : Client) (op : ℕ) (payload : Bytes)
      → k.bf ≡ some c
      → Conn.send_packet k op payload ≡ (
        record k { xor_enc = (encode k.xor_enc (packet_body op payload)).0 },
        put_le 2 ((2 + length (packet_body op payload)) % 2 ^ 16)
            ++ enc (encode k.xor_enc (packet_body op payload)).1,
      )
  unfolding Conn.send_packet encrypt_body
  client_send_lem k op payload bf =
      let body = packet_body op payload in
      ap
        (λ (t : Option BlockCipher).
          let s = Conn.sealed k t body in (s.0, put_le 2 ((2 + length body) % 2 ^ 16) ++ s.1))
        bf
