-- ===== src/Packet.antt =====
-- server/src/internal/aionproto/packet.go: packets with a two-byte length header, a two-byte opcode
-- and a payload padded to the cipher's blocks. A connection is the bytes that will still arrive on
-- it. A float32 field is its IEEE 754 pattern, so it is written and read as a uint32.
pub mod Frame
pub mod Fields
pub mod Conn
use ace.Prelude.{
  ℕ, zero, suc, ◌+◌, ◌-◌, ◌*◌, ◌%◌, ◌^◌, Bool, true, false, ◌||◌, List, [], ◌∷◌, ◌++◌, length, take,
  drop, get_or, replicate, ltb, leb, ◌==◌, if◌then◌else◌,
}
use ace.Bytes.{Bytes, put_le, get_le}

abbrev pub header_size : ℕ
header_size = 2

abbrev pub min_packet_size : ℕ
min_packet_size = 4

abbrev pub max_packet_size : ℕ
max_packet_size = 0xFFFF

abbrev pub block_size : ℕ
block_size = 8

pub data Error : Type 0 where
  too_short : ℕ → Error
  bad_length : ℕ → Error
  truncated : ℕ → ℕ → Error
  unexpected_eof : Error

pub data Result {ℓ} (A : Type ℓ) : Type ℓ where
  ok : A → Result A
  err : Error → Result A

infixl 5 ◌>>=◌
abbrev pub ◌>>=◌ {ℓ κ} : {A : Type ℓ} {B : Type κ} → Result A → (A → Result B) → Result B
ok a >>= f = f a
err e >>= f = err e

pub record Packet : Type 0 where
  pub buf : Bytes
  pub rpos : ℕ

unfoldable pub new_packet : ℕ → Packet
new_packet opcode = record { buf = 0 ∷ 0 ∷ put_le 2 opcode; rpos = 4 }

unfoldable pub opcode : Packet → ℕ
opcode p =
    if ltb (length p.buf) min_packet_size then 0 else get_le (take 2 (drop header_size p.buf))

-- The zeros that `Bytes` appends to a buffer of this length.
unfoldable pub padding : ℕ → ℕ
padding n = let rem = (n - header_size) % block_size in if rem == 0 then 0 else block_size - rem

unfoldable pub padded : Bytes → Bytes
padded buf = buf ++ replicate (padding (length buf)) 0

-- `Bytes`: the packet's buffer after the call, which is also the result. The length wraps as uint16.
unfoldable pub bytes : Packet → Bytes
unfolding padded padding
bytes p = let buf = padded p.buf in put_le 2 (length buf % 2 ^ 16) ++ drop 2 buf

abbrev append_bytes : Packet → Bytes → Packet
append_bytes p b = record p { buf = p.buf ++ b }

unfoldable pub write_byte : Packet → ℕ → Packet
write_byte p v = append_bytes p (v ∷ [])

unfoldable pub write_uint16 : Packet → ℕ → Packet
write_uint16 p v = append_bytes p (put_le 2 v)

unfoldable pub write_uint32 : Packet → ℕ → Packet
write_uint32 p v = append_bytes p (put_le 4 v)

unfoldable pub write_uint64 : Packet → ℕ → Packet
write_uint64 p v = append_bytes p (put_le 8 v)

unfoldable pub write_bytes : Packet → Bytes → Packet
write_bytes p b = append_bytes p b

-- The code points of the text, each cut to 16 bits, and a null.
pub utf16_units : List ℕ → Bytes
utf16_units [] = 0 ∷ 0 ∷ []
utf16_units (r ∷ rs) = put_le 2 (r % 2 ^ 16) ++ utf16_units rs

unfoldable pub write_string_utf16 : Packet → List ℕ → Packet
unfolding utf16_units
write_string_utf16 p s = append_bytes p (utf16_units s)

unfoldable pub from_bytes : Bytes → Result Packet
from_bytes raw =
    if ltb (length raw) min_packet_size
    then err (too_short (length raw))
    else let declared = get_le (take 2 raw) in
      if ltb declared min_packet_size || ltb max_packet_size declared
      then err (bad_length declared)
      else if ltb (length raw) declared
      then err (truncated (length raw) declared)
      else ok (record { buf = take declared raw; rpos = 4 })

unfoldable pub read_byte : Packet → Result (ℕ × Packet)
read_byte p =
    if leb (length p.buf) p.rpos
    then err unexpected_eof
    else ok (get_or p.buf p.rpos 0, record p { rpos = p.rpos + 1 })

unfoldable pub read_bytes : Packet → ℕ → Result (Bytes × Packet)
read_bytes p n =
    if ltb (length p.buf) (p.rpos + n)
    then err unexpected_eof
    else ok (take n (drop p.rpos p.buf), record p { rpos = p.rpos + n })

-- What ReadUint16, ReadUint32 and ReadUint64 share.
pub read_le : ℕ → Packet → Result (ℕ × Packet)
read_le w p =
    if ltb (length p.buf) (p.rpos + w)
    then err unexpected_eof
    else ok (get_le (take w (drop p.rpos p.buf)), record p { rpos = p.rpos + w })

unfoldable pub read_uint16 : Packet → Result (ℕ × Packet)
unfolding read_le
read_uint16 = read_le 2

unfoldable pub read_uint32 : Packet → Result (ℕ × Packet)
unfolding read_le
read_uint32 = read_le 4

unfoldable pub read_uint64 : Packet → Result (ℕ × Packet)
unfolding read_le
read_uint64 = read_le 8

unfoldable pub remaining : Packet → ℕ
remaining p = length p.buf - p.rpos

-- io.ReadFull: the next `n` bytes, or an error if fewer arrive.
pub read_full : ℕ → Bytes → Result (Bytes × Bytes)
read_full n stream =
    if ltb (length stream) n then err unexpected_eof else ok (take n stream, drop n stream)

unfoldable pub read_packet_from_conn : Bytes → Result (Bytes × Bytes)
unfolding read_full
read_packet_from_conn stream = do
  (header, rest) ← read_full header_size stream
  let total = get_le header
  if ltb total min_packet_size || ltb max_packet_size total
      then err (bad_length total)
      else do (body, rest') ← read_full (total - header_size) rest; ok (header ++ body, rest')
