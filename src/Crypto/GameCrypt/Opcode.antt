-- ===== src/Crypto/GameCrypt/Opcode.antt =====
-- The header of a game-port body and the obfuscation of its opcode and of the key.
use ace.Prelude.{ℕ, ◌+◌, ◌-◌, ◌%◌, ◌^◌, ◌<◌, ◌≡◌, ap, ◌∙◌, true, ◌∷◌, ◌++◌, arith}
use ace.Prelude.Xor.{bit_xor, bit_xor_cancel, bit_xor_mod, bit_xor-lt}
use ace.Bytes.{Bytes, put_le}
use ace.Crypto.GameCrypt.{
  validate_client, client_packet_code, encode_server_opcode, decode_client_opcode, opcode_xor_mask,
  client_decode_sub, encipher_key, encipher_add_const,
}

-- A client body: the opcode, the static code, the opcode's complement, and the payload.
abbrev pub client_body : ℕ → Bytes → Bytes
client_body op payload = put_le 2 op ++ client_packet_code ∷ (put_le 2 (65535 - op) ++ payload)

pub validate-client_body :
    (op : ℕ) (payload : Bytes) → op < 65536 → validate_client (client_body op payload) ≡ true
unfolding validate_client
validate-client_body op payload h = ground arith

-- What a client computes from an opcode: the inverse of `DecodeClientOpcode`.
pub encode_client_opcode : ℕ → ℕ → ℕ
encode_client_opcode op internal_version =
    let vb = internal_version % 256 in
    let mask = opcode_xor_mask vb in
    bit_xor ((bit_xor ((op + vb) % 65536) mask + client_decode_sub vb) % 65536) mask

mask-lt : (vb : ℕ) → opcode_xor_mask vb < 2 ^ 16
unfolding opcode_xor_mask
mask-lt vb = ground arith

sub-lt : (vb : ℕ) → client_decode_sub vb < 16
unfolding client_decode_sub
sub-lt vb = ground arith

module _ (x mask : ℕ) (hm : mask < 2 ^ 16) where
  -- The low 16 digits of an exclusive or with a 16-bit mask.
  xor_low : bit_xor x mask % 2 ^ 16 ≡ bit_xor (x % 2 ^ 16) mask
  xor_low = bit_xor_mod 16 x mask ∙ ap (bit_xor (x % 2 ^ 16)) (omega arith)

module _ (mask sub vb : ℕ) (hm : mask < 2 ^ 16) (hs : sub < 16) (hv : vb < 256) where
  abbrev enc : ℕ → ℕ
  enc op = bit_xor ((bit_xor ((op + vb) % 65536) mask + sub) % 65536) mask

  abbrev mid : ℕ → ℕ
  mid e = (bit_xor e mask + 2 ^ 64 - sub) % 2 ^ 64

  abbrev dec : ℕ → ℕ
  dec e = (bit_xor (mid e) mask + 2 ^ 64 - vb) % 2 ^ 64 % 2 ^ 16

  dec-enc : (op : ℕ) → op < 65536 → dec (enc op) ≡ op
  dec-enc op h =
      let s = (op + vb) % 65536 in
      let y = bit_xor s mask in
      let y_lt : y < 2 ^ 16 = bit_xor-lt 16 s mask (omega arith) hm in
      let mid_low : mid (enc op) % 2 ^ 16 ≡ y =
        omega (arith, bit_xor_cancel ((y + sub) % 65536) mask) in
      let back : bit_xor (mid (enc op)) mask % 2 ^ 16 ≡ s =
        xor_low (mid (enc op)) mask hm ∙ ap (λ t. bit_xor t mask) mid_low ∙ bit_xor_cancel s mask in
      omega (arith, back)

  enc-dec : (e : ℕ) → e < 65536 → enc (dec e) ≡ e
  enc-dec e h =
      let w = bit_xor (mid e) mask in
      let x_lt : bit_xor e mask < 2 ^ 16 = bit_xor-lt 16 e mask (omega arith) hm in
      let s_low : (dec e + vb) % 65536 ≡ w % 2 ^ 16 = omega arith in
      let y_low : bit_xor ((dec e + vb) % 65536) mask ≡ mid e % 2 ^ 16 =
        ap (λ t. bit_xor t mask) (s_low ∙ xor_low (mid e) mask hm)
        ∙ bit_xor_cancel (mid e % 2 ^ 16) mask in
      let x_back : (bit_xor ((dec e + vb) % 65536) mask + sub) % 65536 ≡ bit_xor e mask =
        omega (arith, y_low) in
      ap (λ t. bit_xor t mask) x_back ∙ bit_xor_cancel e mask

pub encode_client_opcode-lt :
    (op internal_version : ℕ) → encode_client_opcode op internal_version < 2 ^ 16
unfolding encode_client_opcode
encode_client_opcode-lt op v =
    bit_xor-lt 16 _ (opcode_xor_mask (v % 256)) (omega arith) (mask-lt (v % 256))

pub decode_client_opcode_inverse :
    (op internal_version : ℕ)
    → op < 65536
    → (decode_client_opcode (encode_client_opcode op internal_version) internal_version ≡ op)
      × (encode_client_opcode (decode_client_opcode op internal_version) internal_version ≡ op)
unfolding decode_client_opcode encode_client_opcode
decode_client_opcode_inverse op v h =
    let vb = v % 256 in
    (
      dec-enc (opcode_xor_mask vb) (client_decode_sub vb) vb (mask-lt vb) (sub-lt vb) (omega arith)
          op h,
      enc-dec (opcode_xor_mask vb) (client_decode_sub vb) vb (mask-lt vb) (sub-lt vb) (omega arith)
          op h,
    )

-- What a client computes from a server opcode and from SM_KEY's obfuscated key.
pub decode_server_opcode : ℕ → ℕ → ℕ
decode_server_opcode e internal_version =
    let vb = internal_version % 256 in (bit_xor e (opcode_xor_mask vb) + 65536 - vb) % 65536

pub decipher_key : ℕ → ℕ → ℕ
decipher_key enc version_byte =
    bit_xor ((enc + 2 ^ 32 - encipher_add_const version_byte) % 2 ^ 32) (0xCD92E400 + version_byte)

-- Every 16-bit server opcode can be read back from its obfuscated form, for every version, also
-- where the sum with the version byte passes 16 bits.
pub decode-encode_server_opcode :
    (op internal_version : ℕ)
    → op < 65536
    → decode_server_opcode (encode_server_opcode op internal_version) internal_version ≡ op
unfolding decode_server_opcode encode_server_opcode
decode-encode_server_opcode op v h =
    let vb = v % 256 in
    let mask = opcode_xor_mask vb in
    let low = xor_low (op + vb) mask (mask-lt vb) in
    omega (arith, ap (λ t. bit_xor t mask) low ∙ bit_xor_cancel ((op + vb) % 2 ^ 16) mask)

add_const-lt : (vb : ℕ) → encipher_add_const vb < 2 ^ 32
unfolding encipher_add_const
add_const-lt vb = ground arith

-- The client recovers the 32-bit base key from SM_KEY, for every version byte.
pub decipher-encipher_key :
    (base_key version_byte : ℕ)
    → base_key < 2 ^ 32
    → version_byte < 256
    → decipher_key (encipher_key base_key version_byte) version_byte ≡ base_key
unfolding decipher_key encipher_key
decipher-encipher_key k vb hk hv =
    let c : ℕ = 0xCD92E400 + vb in
    let x_lt : bit_xor k c < 2 ^ 32 = bit_xor-lt 32 k c hk (omega arith) in
    let back : ((bit_xor k c + encipher_add_const vb) % 2 ^ 32 + 2 ^ 32 - encipher_add_const vb)
          % 2 ^ 32
        ≡ bit_xor k c =
      omega (arith, add_const-lt vb) in
    ap (λ t. bit_xor t c) back ∙ bit_xor_cancel k c
