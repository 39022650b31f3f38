-- ===== src/Crypto/BlowfishLe.antt =====
-- server/src/internal/crypto/blowfish_le.go: NCSoft's Blowfish with little-endian words, in ECB mode
-- over a packet behind its two-byte length header. The block cipher itself is
-- golang.org/x/crypto/blowfish, a parameter here: what `NewCipher` gives for a key is a
-- `BlockCipher`, and `IsLawful` states what the code relies on, that decryption undoes encryption of
-- an eight-byte block.
pub mod Laws
use ace.Prelude.{
  ℕ, zero, suc, ◌+◌, ◌/◌, Bool, true, Option, none, some, List, [], ◌∷◌, ◌++◌, ◌≡◌, ◌||◌, length,
  take, drop, ltb, if◌then◌else◌,
}
use mathlib.Core.List.{reverse}
use ace.Bytes.{Bytes, IsBytes, put_le, get_le}

pub record BlockCipher : Type 0 where
  pub encrypt : Bytes → Bytes
  pub decrypt : Bytes → Bytes

abbrev pub IsBlock : Bytes → Type 0
IsBlock b = (length b ≡ 8) × IsBytes b

pub record IsLawful (c : BlockCipher) : Type 0 where
  pub encrypt-IsBlock : (b : Bytes) → IsBlock b → IsBlock (c.encrypt b)
  pub decrypt-encrypt : (b : Bytes) → IsBlock b → c.decrypt (c.encrypt b) ≡ b

-- binary.BigEndian
abbrev pub put_be : ℕ → ℕ → Bytes
put_be w v = reverse (put_le w v)

abbrev pub get_be : Bytes → ℕ
get_be bs = get_le (reverse bs)

-- Both directions read two little-endian words, hand them over as big-endian ones, and convert the
-- result back.
unfoldable pub convert_block : (Bytes → Bytes) → Bytes → Bytes
convert_block inner src =
    let xl = get_le (take 4 src) in
    let xr = get_le (take 4 (drop 4 src)) in
    let tmp = inner (put_be 4 xl ++ put_be 4 xr) in
    let rl = get_be (take 4 tmp) in
    let rr = get_be (take 4 (drop 4 tmp)) in put_le 4 rl ++ put_le 4 rr

-- The loop over the whole blocks of a payload; the bytes behind the last one stay.
unfoldable pub over_blocks : ℕ → (Bytes → Bytes) → Bytes → Bytes
over_blocks zero f payload = payload
over_blocks (suc n) f payload = f (take 8 payload) ++ over_blocks n f (drop 8 payload)

pub over_packet : (Bytes → Bytes) → Bytes → Bytes
over_packet f pkt =
    if ltb (length pkt) 2
    then pkt
    else take 2 pkt ++ over_blocks (length (drop 2 pkt) / 8) f (drop 2 pkt)

module _ (c : BlockCipher) where
  unfoldable pub encrypt_block : Bytes → Bytes
  encrypt_block = convert_block c.encrypt

  unfoldable pub decrypt_block : Bytes → Bytes
  decrypt_block = convert_block c.decrypt

  pub encrypt_packet : Bytes → Bytes
  encrypt_packet = over_packet encrypt_block

  pub decrypt_packet : Bytes → Bytes
  decrypt_packet = over_packet decrypt_block

-- `schedule` is blowfish.NewCipher, which may refuse a key.
unfoldable pub new_blowfish_le : (Bytes → Option BlockCipher) → Bytes → Option BlockCipher
new_blowfish_le schedule key =
    if ltb (length key) 1 || ltb 56 (length key) then none else schedule key
