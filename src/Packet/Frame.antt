-- ===== src/Packet/Frame.antt =====
-- The wire form of a packet: length header, padding, and reading it back.
use ace.Prelude.{
  ℕ, ◌+◌, ◌-◌, ◌%◌, ◌^◌, ◌≤◌, ◌<◌, ◌≡◌, ◌≢◌, refl, ap, ◌∙◌, sym, ◌++◌, arith, length, replicate,
  take, drop, ltb, if_false, le→ltb, length-append, length-replicate, length-drop, length-take,
  take-append, drop-append, drop-append_le, take-append_le, drop-drop, take_of_length-le,
}
use ace.Bytes.{Bytes, put_le, get_le, get_le-put_le_of_lt}
use ace.Packet.{Packet, ok, padding, padded, bytes, from_bytes, opcode}

-- The padding fills the last block.
pub padding_lem : (n : ℕ) → 2 ≤ n → ((n + padding n - 2) % 8 ≡ 0) × (padding n < 8)
unfolding padding
padding_lem n h = ground arith

pub length-padded : (b : Bytes) → length (padded b) ≡ length b + padding (length b)
unfolding padded
length-padded b =
    length-append b _ ∙ ap (λ t. length b + t) (length-replicate (padding (length b)) 0)

pub length-bytes : (p : Packet) → 2 ≤ length p.buf → length (bytes p) ≡ length (padded p.buf)
unfolding bytes
length-bytes p h = omega (
  arith,
  length-append (put_le 2 (length (padded p.buf) % 2 ^ 16)) (drop 2 (padded p.buf)),
  length-drop 2 (padded p.buf),
  length-padded p.buf,
)

-- The bytes behind the length header are the padded buffer's.
pub drop-bytes : (p : Packet) → 2 ≤ length p.buf → drop 2 (bytes p) ≡ drop 2 (padded p.buf)
unfolding bytes
drop-bytes p h =
    drop-append 2 (put_le 2 (length (padded p.buf) % 2 ^ 16)) (drop 2 (padded p.buf)) refl

pub header-bytes : (p : Packet) → get_le (take 2 (bytes p)) ≡ length (padded p.buf) % 2 ^ 16
unfolding bytes
header-bytes p =
    ap get_le
      (take-append 2 (put_le 2 (length (padded p.buf) % 2 ^ 16)) (drop 2 (padded p.buf)) refl)
    ∙ get_le-put_le_of_lt 2 (length (padded p.buf) % 2 ^ 16) (omega arith)

pub opcode_lem :
    (b : Bytes) (r : ℕ)
    → 4 ≤ length b
    → opcode (record { buf = b; rpos = r }) ≡ get_le (take 2 (drop 2 b))
unfolding opcode
opcode_lem b r h = if_false (ltb (length b) 4) 0 _ (le→ltb (length b) 4 h)

module _ (p : Packet) (room : 4 ≤ length p.buf) where
  payload_head : drop 2 (bytes p) ≡ drop 2 p.buf ++ replicate (padding (length p.buf)) 0
  unfolding padded
  payload_head =
      drop-bytes p (omega arith)
      ∙ drop-append_le 2 p.buf (replicate (padding (length p.buf)) 0) (omega arith)

  pub opcode-bytes : opcode (record { buf = bytes p; rpos = 4 }) ≡ opcode p
  opcode-bytes =
      opcode_lem (bytes p) 4 (omega (arith, length-bytes p (omega arith), length-padded p.buf))
      ∙ ap (λ t. get_le (take 2 t)) payload_head
      ∙ ap get_le (take-append_le 2 (drop 2 p.buf) _ (omega (arith, length-drop 2 p.buf)))
      ∙ sym (opcode_lem p.buf p.rpos room)

  pub payload-bytes : drop 4 (bytes p) ≡ drop 4 p.buf ++ replicate (padding (length p.buf)) 0
  unfolding padded
  payload-bytes =
      sym (drop-drop 2 2 (bytes p))
      ∙ ap (drop 2) (drop-bytes p (omega arith))
      ∙ drop-drop 2 2 (padded p.buf)
      ∙ drop-append_le 4 p.buf _ room

  pub from_bytes_accepts :
      length (padded p.buf) < 2 ^ 16
      → from_bytes (bytes p) ≡ ok (record { buf = bytes p; rpos = 4 })
  unfolding from_bytes
  from_bytes_accepts fits = ground (
    arith,
    length-bytes p (omega arith),
    length-padded p.buf,
    header-bytes p,
    take_of_length-le (length (padded p.buf)) (bytes p),
  )

  -- A packet whose padded form fits the length header is read back whole: with its opcode, its
  -- payload followed by the padding zeros, and whole cipher blocks behind the header.
  pub from_bytes-bytes :
      length (padded p.buf) < 2 ^ 16
      → (q : Packet) × (from_bytes (bytes p) ≡ ok q)
        × (opcode q ≡ opcode p)
        × (q.rpos ≡ 4)
        × (drop 4 q.buf ≡ drop 4 p.buf ++ replicate (padding (length p.buf)) 0)
        × ((length q.buf - 2) % 8 ≡ 0)
  from_bytes-bytes fits = (
    record { buf = bytes p; rpos = 4 },
    from_bytes_accepts fits,
    opcode-bytes,
    refl,
    payload-bytes,
    omega (
      arith,
      length-bytes p (omega arith),
      length-padded p.buf,
      padding_lem (length p.buf) (omega arith),
    ),
  )

  oversize-length :
      (q : Packet)
      → 2 ^ 16 ≤ length (padded p.buf)
      → from_bytes (bytes p) ≡ ok q
      → length q.buf < length (bytes p)
  unfolding from_bytes
  oversize-length q big read = ground (
    arith,
    length-bytes p (omega arith),
    length-padded p.buf,
    header-bytes p,
    length-take (get_le (take 2 (bytes p))) (bytes p),
  )

  -- A packet whose padded form does not fit the header is sent all the same; its header then says at
  -- least 65,536 bytes too few, and `FromBytes` does not give the packet back.
  pub bytes_oversize :
      2 ^ 16 ≤ length (padded p.buf)
      → (get_le (take 2 (bytes p)) + 2 ^ 16 ≤ length (bytes p))
        × (from_bytes (bytes p) ≢ ok (record { buf = bytes p; rpos = 4 }))
  bytes_oversize big = (
    omega (arith, length-bytes p (omega arith), header-bytes p),
    λ e. absurd (omega (arith, oversize-length (record { buf = bytes p; rpos = 4 }) big e)),
  )
