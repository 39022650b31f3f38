-- ===== src/Packet/Conn.antt =====
-- Packets cut out of a byte stream.
use ace.Prelude.{
  ℕ, zero, suc, ◌-◌, ◌^◌, ◌≤◌, ◌<◌, ◌≡◌, refl, ap, ap₂, ◌∙◌, sym, List, [], ◌∷◌, ◌++◌, arith,
  length, take, drop, ltb, if_false, le→ltb, length-append, length-drop, length-take, take-append,
  drop-append, take-append-drop, append_assoc, All, take_of_length-le,
}
use ace.Bytes.{Bytes, get_le}
use ace.Packet.{
  Packet, Result, ok, err, unexpected_eof, padded, bytes, read_full, read_packet_from_conn,
  from_bytes,
}
use ace.Packet.Frame.{length-bytes, length-padded, header-bytes}

-- A packet whose header says how long it is.
abbrev pub IsFramed : Bytes → Type 0
IsFramed raw = (4 ≤ length raw) × (get_le (take 2 raw) ≡ length raw) × (length raw < 2 ^ 16)

bytes-IsFramed :
    (p : Packet) → 4 ≤ length p.buf → length (padded p.buf) < 2 ^ 16 → IsFramed (bytes p)
bytes-IsFramed p room fits =
    ground (arith, length-bytes p (omega arith), length-padded p.buf, header-bytes p)

pub read_full_lem :
    (n : ℕ) (us rest : Bytes) → length us ≡ n → read_full n (us ++ rest) ≡ ok (us, rest)
unfolding read_full
read_full_lem n us rest e =
    if_false (ltb (length (us ++ rest)) n) (err unexpected_eof) _
      (le→ltb (length (us ++ rest)) n (omega (arith, length-append us rest)))
    ∙ ap₂ {C = Result (Bytes × Bytes)} (λ a b. ok (a, b)) (take-append n us rest e)
        (drop-append n us rest e)

read_full_header :
    (raw rest : Bytes)
    → 4 ≤ length raw
    → read_full 2 (raw ++ rest) ≡ ok (take 2 raw, drop 2 raw ++ rest)
read_full_header raw rest room =
    ap (λ t. read_full 2 (t ++ rest)) (sym (take-append-drop 2 raw))
    ∙ ap (read_full 2) (append_assoc (take 2 raw) (drop 2 raw) rest)
    ∙ read_full_lem 2 (take 2 raw) (drop 2 raw ++ rest) (omega (arith, length-take 2 raw))

pub read_packet_lem :
    (raw rest : Bytes) → IsFramed raw → read_packet_from_conn (raw ++ rest) ≡ ok (raw, rest)
unfolding read_packet_from_conn
read_packet_lem raw rest h = ground (
  arith,
  read_full_header raw rest h.0,
  read_full_lem (get_le (take 2 raw) - 2) (drop 2 raw) rest (omega (arith, h.1, length-drop 2 raw)),
  take-append-drop 2 raw,
  h.1,
  h.2,
)

-- The packets that a reader takes from a stream, on fuel, until an error, and the bytes it has not
-- consumed by then.
pub read_all : ℕ → Bytes → List Bytes × Bytes
read_all zero stream = ([], stream)
read_all (suc fuel) stream = elim (read_packet_from_conn stream) [
  | ok r ↦ let rest = read_all fuel r.1 in (r.0 ∷ rest.0, rest.1)
  | err e ↦ ([], stream)
]

abbrev pub concat : List Bytes → Bytes
concat [] = []
concat (b ∷ bs) = b ++ concat bs

read_all_step :
    (n : ℕ) (raw stream rest : Bytes)
    → read_packet_from_conn stream ≡ ok (raw, rest)
    → read_all (suc n) stream ≡ (raw ∷ (read_all n rest).0, (read_all n rest).1)
unfolding read_all
read_all_step n raw stream rest e = rw (e, read_all) refl

-- Framed packets written one after the other are cut out of the stream again, all of them and in
-- order, and the bytes behind them are left alone.
pub read_all-concat :
    (raws : List Bytes) (rest : Bytes)
    → All IsFramed raws
    → read_all (length raws) (concat raws ++ rest) ≡ (raws, rest)
read_all-concat [] rest h = unfold read_all in refl
read_all-concat (raw ∷ raws) rest h = rw (append_assoc raw (concat raws) rest) (
    read_all_step (length raws) raw (raw ++ (concat raws ++ rest)) (concat raws ++ rest)
      (read_packet_lem raw (concat raws ++ rest) h.0)
    ∙ ap (λ (t : List Bytes × Bytes). (raw ∷ t.0, t.1)) (read_all-concat raws rest h.1))

-- A packet is never taken from a stream that holds only a part of it.
pub read_packet-partial :
    (raw : Bytes) (n : ℕ)
    → IsFramed raw
    → n < length raw
    → read_packet_from_conn (take n raw) ≡ err unexpected_eof
unfolding read_packet_from_conn read_full
read_packet-partial raw n h short =
    ground (arith, length-take n raw, length-drop 2 (take n raw), h.1, h.2)

pub from_bytes-framed :
    (raw : Bytes) → IsFramed raw → from_bytes raw ≡ ok (record { buf = raw; rpos = 4 })
unfolding from_bytes
from_bytes-framed raw h = ground (arith, h.0, h.1, h.2, take_of_length-le (length raw) raw)
