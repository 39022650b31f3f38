-- ===== src/Packet/Fields.antt =====
-- The fields of a payload: what a writer appends, one after the other, and what a reader of the
-- received packet takes in the same order.
use ace.Prelude.{
  ℕ, zero, suc, ◌+◌, ◌^◌, ◌≤◌, ◌<◌, ◌≡◌, refl, ap, ◌∙◌, sym, List, [], ◌∷◌, ◌++◌, arith, length,
  replicate, take, drop, get_or, ltb, leb, if_false, subst, le→ltb, length-append, length-replicate,
  length-drop, take-append, drop-append, append_assoc, append-nil, drop-drop, All,
}
use ace.Bytes.{Bytes, put_le, get_le, length-put_le, get_le-put_le_of_lt}
use ace.Packet.{
  Packet, Result, ok, err, ◌>>=◌, unexpected_eof, padding, padded, bytes, from_bytes, opcode,
  new_packet, write_byte, write_uint16, write_uint32, write_uint64, write_bytes, read_byte,
  read_uint16, read_uint32, read_uint64, read_bytes, read_le, remaining,
}
use ace.Packet.Frame.{
  from_bytes_accepts, opcode-bytes, payload-bytes, length-padded, length-bytes, padding_lem,
}

pub data Field : Type 0 where
  byte : ℕ → Field
  uint16 : ℕ → Field
  uint32 : ℕ → Field
  uint64 : ℕ → Field
  raw : Bytes → Field

-- The value fits the field.
abbrev pub Fits : Field → Type 0
Fits (byte v) = v < 2 ^ 8
Fits (uint16 v) = v < 2 ^ 16
Fits (uint32 v) = v < 2 ^ 32
Fits (uint64 v) = v < 2 ^ 64
Fits (raw b) = Unit

unfoldable pub write_field : Packet → Field → Packet
write_field p (byte v) = write_byte p v
write_field p (uint16 v) = write_uint16 p v
write_field p (uint32 v) = write_uint32 p v
write_field p (uint64 v) = write_uint64 p v
write_field p (raw b) = write_bytes p b

unfoldable pub write_fields : Packet → List Field → Packet
write_fields p [] = p
write_fields p (f ∷ fs) = write_fields (write_field p f) fs

-- Reads a field of the same kind.
pub read_field : Packet → Field → Result (Field × Packet)
read_field p (byte v) = read_byte p >>= λ r. ok (byte r.0, r.1)
read_field p (uint16 v) = read_uint16 p >>= λ r. ok (uint16 r.0, r.1)
read_field p (uint32 v) = read_uint32 p >>= λ r. ok (uint32 r.0, r.1)
read_field p (uint64 v) = read_uint64 p >>= λ r. ok (uint64 r.0, r.1)
read_field p (raw b) = read_bytes p (length b) >>= λ r. ok (raw r.0, r.1)

pub read_fields : Packet → List Field → Result (List Field × Packet)
read_fields p [] = ok ([], p)
read_fields p (f ∷ fs) = read_field p f >>= λ r. read_fields r.1 fs >>= λ s. ok (r.0 ∷ s.0, s.1)

-- The bytes of the fields.
wire_of : Field → Bytes
wire_of (byte v) = v ∷ []
wire_of (uint16 v) = put_le 2 v
wire_of (uint32 v) = put_le 4 v
wire_of (uint64 v) = put_le 8 v
wire_of (raw b) = b

wires_of : List Field → Bytes
unfolding wire_of
wires_of [] = []
wires_of (f ∷ fs) = wire_of f ++ wires_of fs

write_field_lem : (p : Packet) (f : Field) → write_field p f ≡ record p { buf = p.buf ++ wire_of f }
unfolding write_field write_byte write_uint16 write_uint32 write_uint64 write_bytes wire_of
write_field_lem p (byte v) = refl
write_field_lem p (uint16 v) = refl
write_field_lem p (uint32 v) = refl
write_field_lem p (uint64 v) = refl
write_field_lem p (raw b) = refl

write_fields_lem :
    (p : Packet) (fs : List Field) → write_fields p fs ≡ record p { buf = p.buf ++ wires_of fs }
unfolding write_fields wires_of
write_fields_lem p [] = ap (λ b. record p { buf = b }) (sym (append-nil p.buf))
write_fields_lem p (f ∷ fs) =
    ap (λ q. write_fields q fs) (write_field_lem p f)
    ∙ write_fields_lem (record p { buf = p.buf ++ wire_of f }) fs
    ∙ ap (λ b. record p { buf = b }) (append_assoc p.buf (wire_of f) (wires_of fs))

-- What is left to read.
abbrev Ahead : Packet → Bytes → Type 0
Ahead p bs = (p.rpos ≤ length p.buf) × (drop p.rpos p.buf ≡ bs)

skip : Packet → ℕ → Packet
skip p n = record p { rpos = p.rpos + n }

skip-Ahead :
    (p : Packet) (us rest : Bytes)
    → Ahead p (us ++ rest)
    → Ahead (skip p (length us)) rest × (take (length us) (drop p.rpos p.buf) ≡ us)
unfolding skip
skip-Ahead p us rest h = (
  (
    omega (arith, length-drop p.rpos p.buf, ap length h.1, length-append us rest),
    sym (drop-drop p.rpos (length us) p.buf)
        ∙ ap (drop (length us)) h.1
        ∙ drop-append (length us) us rest refl,
  ),
  ap (take (length us)) h.1 ∙ take-append (length us) us rest refl,
)

read_le_lem :
    (w v : ℕ) (p : Packet) (rest : Bytes)
    → v < 256 ^ w
    → Ahead p (put_le w v ++ rest)
    → (read_le w p ≡ ok (v, skip p w)) × Ahead (skip p w) rest
read_le_lem w v p rest small h =
    let e = length-put_le w v in
    let s : Ahead (skip p w) rest × (take w (drop p.rpos p.buf) ≡ put_le w v) =
      subst (λ n. Ahead (skip p n) rest × (take n (drop p.rpos p.buf) ≡ put_le w v)) e
        (skip-Ahead p (put_le w v) rest h) in
    (
      unfold read_le skip in
          if_false (ltb (length p.buf) (p.rpos + w)) (err unexpected_eof) _
            (le→ltb (length p.buf) (p.rpos + w) s.0.0)
          ∙ ap (λ n. ok (n, skip p w)) (ap get_le s.1 ∙ get_le-put_le_of_lt w v small),
      s.0,
    )

get_or-drop : (n : ℕ) (xs : Bytes) (x : ℕ) (rest : Bytes) → drop n xs ≡ x ∷ rest → get_or xs n 0 ≡ x
get_or-drop zero [] x rest e = absurd (omega (arith, ap length e))
get_or-drop zero (y ∷ ys) x rest e = ap (λ l. get_or l 0 0) e
get_or-drop (suc n) [] x rest e = absurd (omega (arith, ap length e))
get_or-drop (suc n) (y ∷ ys) x rest e = get_or-drop n ys x rest e

width : Field → ℕ
unfolding wire_of
width f = length (wire_of f)

read_field_lem :
    (f : Field) (p : Packet) (rest : Bytes)
    → Fits f
    → Ahead p (wire_of f ++ rest)
    → (read_field p f ≡ ok (f, skip p (width f))) × Ahead (skip p (width f)) rest
unfolding read_field wire_of width
read_field_lem (byte v) p rest small h =
    let s = skip-Ahead p (v ∷ []) rest h in
    let e : read_byte p ≡ ok (v, skip p 1) =
      (unfold read_byte skip in
        if_false (leb (length p.buf) p.rpos) (err unexpected_eof) _
          (ground (arith, length-drop p.rpos p.buf, ap length h.1))
        ∙ ap {B = Result (ℕ × Packet)} (λ n. ok (n, record p { rpos = p.rpos + 1 }))
            (get_or-drop p.rpos p.buf v rest h.1)) in
    (ap {B = Result (Field × Packet)} (λ r. r >>= λ t. ok (byte t.0, t.1)) e, s.0)
read_field_lem (uint16 v) p rest small h =
    let s = read_le_lem 2 v p rest (omega arith) h in
    (
      unfold read_uint16 in
          ap {B = Result (Field × Packet)} (λ r. r >>= λ t. ok (uint16 t.0, t.1)) s.0,
      s.1,
    )
read_field_lem (uint32 v) p rest small h =
    let s = read_le_lem 4 v p rest (omega arith) h in
    (
      unfold read_uint32 in
          ap {B = Result (Field × Packet)} (λ r. r >>= λ t. ok (uint32 t.0, t.1)) s.0,
      s.1,
    )
read_field_lem (uint64 v) p rest small h =
    let s = read_le_lem 8 v p rest (omega arith) h in
    (
      unfold read_uint64 in
          ap {B = Result (Field × Packet)} (λ r. r >>= λ t. ok (uint64 t.0, t.1)) s.0,
      s.1,
    )
read_field_lem (raw b) p rest small h =
    let s = skip-Ahead p b rest h in
    let e : read_bytes p (length b) ≡ ok (b, skip p (length b)) =
      (unfold read_bytes skip in
        if_false (ltb (length p.buf) (p.rpos + length b)) (err unexpected_eof) _
          (le→ltb (length p.buf) (p.rpos + length b) s.0.0)
        ∙ ap {B = Result (Bytes × Packet)} (λ n. ok (n, record p { rpos = p.rpos + length b }))
            s.1) in
    (ap {B = Result (Field × Packet)} (λ r. r >>= λ t. ok (raw t.0, t.1)) e, s.0)

read_fields_lem :
    (fs : List Field) (p : Packet) (rest : Bytes)
    → All Fits fs
    → Ahead p (wires_of fs ++ rest)
    → (q : Packet) × (read_fields p fs ≡ ok (fs, q)) × Ahead q rest
unfolding read_fields wires_of
read_fields_lem [] p rest fit h = (p, refl, h)
read_fields_lem (f ∷ fs) p rest fit h =
    let here =
      read_field_lem f p (wires_of fs ++ rest) fit.0
        (h.0, h.1 ∙ append_assoc (wire_of f) (wires_of fs) rest) in
    let (q, e, ahead) = read_fields_lem fs (skip p (width f)) rest fit.1 here.1 in
    (
      q,
      ap {B = Result (List Field × Packet)}
            (λ r. r >>= λ t. read_fields t.1 fs >>= λ s. ok (t.0 ∷ s.0, s.1)) here.0
          ∙ ap {B = Result (List Field × Packet)} (λ r. r >>= λ s. ok (f ∷ s.0, s.1)) e,
      ahead,
    )

opcode-new_packet :
    (op r : ℕ) (bs : Bytes)
    → op < 2 ^ 16
    → opcode (record { buf = (0 ∷ 0 ∷ put_le 2 op) ++ bs; rpos = r }) ≡ op
unfolding opcode
opcode-new_packet op r bs h =
    if_false (ltb (length ((0 ∷ 0 ∷ put_le 2 op) ++ bs)) 4) 0 _
      (le→ltb _ 4 (omega (arith, length-append (0 ∷ 0 ∷ put_le 2 op) bs)))
    ∙ get_le-put_le_of_lt 2 op h

-- A packet built by a run of field writes, each value in its field's range, is read back whole from
-- its wire form: the opcode, then the fields in the order they were written, after which less than
-- one cipher block of padding is left. The padded packet has to fit the 16-bit length.
pub read_fields-write_fields :
    (op : ℕ) (fs : List Field)
    → op < 2 ^ 16
    → All Fits fs
    → length (padded (write_fields (new_packet op) fs).buf) < 2 ^ 16
    → (q r : Packet) × (from_bytes (bytes (write_fields (new_packet op) fs)) ≡ ok q)
      × (opcode q ≡ op)
      × (read_fields q fs ≡ ok (fs, r))
      × (remaining r < 8)
unfolding new_packet remaining
read_fields-write_fields op fs small fit fits =
    let p = write_fields (new_packet op) fs in
    let shape = write_fields_lem (new_packet op) fs in
    let buf : p.buf ≡ (0 ∷ 0 ∷ put_le 2 op) ++ wires_of fs = ap (λ (t : Packet). t.buf) shape in
    let room : 4 ≤ length p.buf =
      omega (arith, ap length buf, length-append (0 ∷ 0 ∷ put_le 2 op) (wires_of fs)) in
    let q : Packet = record { buf = bytes p; rpos = 4 } in
    let zeros : Bytes = replicate (padding (length p.buf)) 0 in
    let pad : padding (length p.buf) < 8 = (padding_lem (length p.buf) (omega arith)).1 in
    let ahead : Ahead q (wires_of fs ++ zeros) = (
      omega (arith, length-bytes p (omega arith), length-padded p.buf),
      payload-bytes p room ∙ ap (λ t. drop 4 t ++ zeros) buf,
    ) in
    let (r, read, left) = read_fields_lem fs q zeros fit ahead in
    (
      q,
      r,
      from_bytes_accepts p room fits,
      opcode-bytes p room ∙ ap opcode shape ∙ opcode-new_packet op 4 (wires_of fs) small,
      read,
      omega (
        arith,
        pad,
        length-drop r.rpos r.buf,
        ap length left.1,
        length-replicate {A = ℕ} (padding (length p.buf)) 0,
      ),
    )

read_le-Bounds :
    (w : ℕ) (p q : Packet) (v : ℕ)
    → p.rpos ≤ length p.buf
    → read_le w p ≡ ok (v, q)
    → (q.buf ≡ p.buf) × (q.rpos ≤ length q.buf) × (p.rpos ≤ q.rpos)
unfolding read_le
read_le-Bounds w p q v h e = ground arith
