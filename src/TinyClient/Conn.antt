-- ===== src/TinyClient/Conn.antt =====
-- server/src/cmd/tinyclient/main.go: the packets of the test client on the game port, and the ciphers
-- they pass. A write gives the bytes that go out, a read takes them from the bytes that arrive. The
-- client has a Blowfish cipher once its encryption is on.
use ace.Prelude.{
  ℕ, ◌+◌, ◌-◌, ◌/◌, ◌%◌, ◌^◌, Option, none, some, ◌++◌, length, take, drop, replicate, ltb,
  if◌then◌else◌,
}
use ace.Bytes.{Bytes, put_le, get_le}
use ace.Crypto.XorCipher.{XorCipher, new_xor_cipher, encode, decode}
use ace.Crypto.BlowfishLe.{BlockCipher, encrypt_block, decrypt_block, over_blocks, new_blowfish_le}
use ace.Packet.{
  Result, ok, err, too_short, bad_length, ◌>>=◌, header_size, min_packet_size, block_size,
  read_full,
}

pub record Client : Type 0 where
  pub bf : Option BlockCipher
  pub xor_enc : XorCipher
  pub xor_dec : XorCipher

abbrev pub activated : Client → Option BlockCipher → Option Client
activated c none = none
activated c (some bf) =
    some (record { bf = some bf; xor_enc = new_xor_cipher; xor_dec = new_xor_cipher })

unfoldable pub activate_crypto : (Bytes → Option BlockCipher) → Client → Bytes → Option Client
activate_crypto schedule c bf_key = activated c (new_blowfish_le schedule bf_key)

unfoldable pub encrypt_body : BlockCipher → Bytes → Bytes
encrypt_body bf body = over_blocks (length body / block_size) (encrypt_block bf) body

unfoldable pub decrypt_body : BlockCipher → Bytes → Bytes
decrypt_body bf body = over_blocks (length body / block_size) (decrypt_block bf) body

-- The body of a packet before its encryption, and what it passes on the way out and in.
unfoldable pub packet_body : ℕ → Bytes → Bytes
packet_body opcode payload =
    put_le 2 opcode
    ++ (payload ++ replicate ((block_size - (2 + length payload) % block_size) % block_size) 0)

abbrev pub sealed : Client → Option BlockCipher → Bytes → Client × Bytes
sealed c none body = (c, body)
sealed c (some bf) body =
    let e = encode c.xor_enc body in (record c { xor_enc = e.0 }, encrypt_body bf e.1)

abbrev pub unsealed : Client → Option BlockCipher → Bytes → Client × Bytes
unsealed c none body = (c, body)
unsealed c (some bf) body =
    let d = decode c.xor_dec body in (record c { xor_dec = d.0 }, decrypt_body bf d.1)

unfoldable pub send_packet : Client → ℕ → Bytes → Client × Bytes
unfolding packet_body
send_packet c opcode payload =
    let body = packet_body opcode payload in
    let s = sealed c c.bf body in (s.0, put_le 2 ((header_size + length body) % 2 ^ 16) ++ s.1)

-- The opcode and the payload, the client after the read, and the bytes behind the packet.
unfoldable pub read_packet : Client → Bytes → Result ((ℕ × Bytes) × Client × Bytes)
read_packet c stream = do
  (header, rest) ← read_full header_size stream
  let total_len = get_le header
  if ltb total_len min_packet_size then err (bad_length total_len) else do
    (body, rest') ← read_full (total_len - header_size) rest
    let d = unsealed c c.bf body
    if ltb (length d.1) 2
        then err (too_short (length d.1))
        else ok ((get_le (take 2 d.1), drop 2 d.1), d.0, rest')
