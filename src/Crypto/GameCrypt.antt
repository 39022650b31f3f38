-- ===== src/Crypto/GameCrypt.antt =====
-- server/src/internal/crypto/gamecrypt.go: the stream cipher of the game port. A body is chained
-- byte by byte with an 8-byte key and a 64-byte static key; after each packet the key, read as a
-- little-endian 64-bit number, grows by the packet's length. The mutex makes each method atomic,
-- so a method is a function from the state to the state after it. `i & 63` and `i & 7` of an index
-- are written as remainders, and an int32 is its 32-bit pattern.
pub mod Stream
pub mod Session
pub mod Opcode
use ace.Prelude.{
  ℕ, zero, suc, ◌+◌, ◌-◌, ◌*◌, ◌%◌, ◌^◌, Bool, true, false, not, ◌&&◌, List, [], ◌∷◌, ◌++◌, length,
  get_or, take, drop, ltb, ◌==◌, if◌then◌else◌,
}
use ace.Prelude.Xor.{bit_xor}
use ace.Bytes.{Bytes, codes, put_le, get_le}

abbrev pub game_static_key : Bytes
game_static_key = codes "nKO/WctQ0AVLbpzfBkS6NevDYT8ourG5CRlmdjyJ72aswx4EPq1UgZhFMXH?3iI9"

abbrev pub server_packet_code : ℕ
server_packet_code = 0x44

abbrev pub client_packet_code : ℕ
client_packet_code = 0x7D

pub record GameCrypt : Type 0 where
  pub server_key : Bytes
  pub client_key : Bytes
  pub enabled : Bool

pub new_game_crypt : ℕ → GameCrypt
new_game_crypt base_key =
    let key = put_le 4 base_key ++ 0xa1 ∷ 0x6c ∷ 0x54 ∷ 0x87 ∷ [] in
    record { server_key = key; client_key = key; enabled = false }

pub enable : GameCrypt → GameCrypt
enable gc = record gc { enabled = true }

pub is_enabled : GameCrypt → Bool
is_enabled gc = gc.enabled

-- What byte `i` is combined with, beside the previous cipher byte.
abbrev pub pad : Bytes → ℕ → ℕ
pad key i = bit_xor (get_or game_static_key (i % 64) 0) (get_or key (i % 8) 0)

-- The loop of `Encrypt` from index `i` on.
pub encrypt_from : Bytes → ℕ → ℕ → Bytes → Bytes
encrypt_from key i prev [] = []
encrypt_from key i prev (b ∷ bs) =
    let c = bit_xor b (bit_xor (pad key i) prev) in c ∷ encrypt_from key (i + 1) c bs

-- The loop of `Decrypt` from index `i` on; `prev` is the byte before its decryption.
pub decrypt_from : Bytes → ℕ → ℕ → Bytes → Bytes
decrypt_from key i prev [] = []
decrypt_from key i prev (c ∷ cs) =
    bit_xor c (bit_xor (pad key i) prev) ∷ decrypt_from key (i + 1) c cs

pub encrypt_body : Bytes → Bytes → Bytes
unfolding encrypt_from
encrypt_body key [] = []
encrypt_body key (b ∷ bs) = let c = bit_xor b (get_or key 0 0) in c ∷ encrypt_from key 1 c bs

pub decrypt_body : Bytes → Bytes → Bytes
unfolding decrypt_from
decrypt_body key [] = []
decrypt_body key (c ∷ cs) = bit_xor c (get_or key 0 0) ∷ decrypt_from key 1 c cs

unfoldable pub evolve_key : Bytes → ℕ → Bytes
evolve_key key size = put_le 8 ((get_le key + size) % 2 ^ 64)

-- The packet after the call, and whether it was encrypted.
unfoldable pub encrypt : GameCrypt → Bytes → GameCrypt × Bytes × Bool
encrypt gc body =
    let size = length body in
    if not gc.enabled
    then (record gc { enabled = true }, body, false)
    else if size == 0
    then (gc, body, true)
    else (
      record gc { server_key = evolve_key gc.server_key size },
      encrypt_body gc.server_key body,
      true,
    )

-- `data[2]` is the static code, and `data[3:5]` the complement of `data[0:2]`.
unfoldable pub validate_client : Bytes → Bool
validate_client body =
    if ltb (length body) 5
    then false
    else if not (get_or body 2 0 == client_packet_code)
    then false
    else get_le (take 2 body) == 65535 - get_le (take 2 (drop 3 body))

-- The packet after the call, and whether it passed the validation.
unfoldable pub decrypt : GameCrypt → Bytes → GameCrypt × Bytes × Bool
decrypt gc body =
    let size = length body in
    if ltb size 5
    then (gc, body, false)
    else let plain = decrypt_body gc.client_key body in
      if validate_client plain
      then (record gc { client_key = evolve_key gc.client_key size }, plain, true)
      else (gc, plain, false)

-- SM_KEY's obfuscated key. The low byte of the constant is free, so `|` is a sum; sums wrap as int32.
pub encipher_add_const : ℕ → ℕ
encipher_add_const version_byte = if version_byte == 0xD5 then 0x3FF2CCD7 else 0x3FF2CCCF

unfoldable pub encipher_key : ℕ → ℕ → ℕ
unfolding encipher_add_const
encipher_key base_key version_byte =
    (bit_xor base_key (0xCD92E400 + version_byte) + encipher_add_const version_byte) % 2 ^ 32

pub opcode_xor_mask : ℕ → ℕ
opcode_xor_mask version_byte =
    if version_byte == 0xD5
    then 0xD5
    else if version_byte == 0xCE
    then 0xDF
    else if version_byte == 0xCB
    then 0xDB
    else 0xDF

pub client_decode_sub : ℕ → ℕ
client_decode_sub version_byte = if version_byte == 0xD5 then 0x0E else 0x0C

-- The version is a non-negative int.
unfoldable pub encode_server_opcode : ℕ → ℕ → ℕ
unfolding opcode_xor_mask
encode_server_opcode raw_opcode internal_version =
    let vb = internal_version % 256 in bit_xor (raw_opcode + vb) (opcode_xor_mask vb) % 2 ^ 16

-- The intermediate values are 64-bit ints, taken by their patterns: a negative one wraps.
unfoldable pub decode_client_opcode : ℕ → ℕ → ℕ
unfolding opcode_xor_mask client_decode_sub
decode_client_opcode encoded internal_version =
    let vb = internal_version % 256 in
    let mask = opcode_xor_mask vb in
    let v = (bit_xor encoded mask + 2 ^ 64 - client_decode_sub vb) % 2 ^ 64 in
    (bit_xor v mask + 2 ^ 64 - vb) % 2 ^ 64 % 2 ^ 16
