-- ===== src/Gateway/Session/Exchange.antt =====
-- Conversations between a gateway session and the test client in the packets of session.go, packet by
-- packet, each read from the bytes its sender writes. The test client speaks so on the game port; the
-- gateway itself serves that port in the frames of Gateway/Wire.antt, and in its source nothing calls
-- Session.readPacket and only unused answers call Session.sendPacket.
use ace.Prelude.{
  ℕ, ◌+◌, ◌-◌, ◌/◌, ◌%◌, ◌≤◌, ◌<◌, ◌^◌, ◌≡◌, refl, ap, ap₂, ◌∙◌, sym, some, true, List, [], ◌∷◌,
  ◌++◌, arith, length, take, drop, replicate, map, All, length-append, length-drop, length-take,
  take-append-drop, append-nil, drop-drop, subst, All-append, All-drop,
}
use ace.Bytes.{
  Bytes, IsByte, IsBytes, put_le-IsBytes, replicate-IsBytes, put_le, get_le, get_le-put_le_of_lt,
}
use ace.Crypto.XorCipher.{XorCipher, encode, decode, length-encode, decode-encode, encode-IsBytes}
use ace.Crypto.BlowfishLe.{BlockCipher, IsLawful}
use ace.Crypto.BlowfishLe.Laws.{blocks_undo}
use ace.Packet.{Packet, Result, ok, err, bytes, padded, padding, opcode, read_packet_from_conn}
use ace.Packet.Conn.{IsFramed, from_bytes-framed, read_packet_lem}
use ace.Packet.Frame.{
  drop-bytes, header-bytes, length-bytes, length-padded, opcode_lem, opcode-bytes, payload-bytes,
}
use ace.Gateway.Session.{Session, has_keys, send_packet, decode_packet, read_packet}
use ace.Gateway.Session.Wire.{
  enc, dec, send_packet_lem, decode_packet_lem, client_read_lem, client_send_lem,
}
use ace.TinyClient.Conn
use ace.TinyClient.Conn.{Client, packet_body, encrypt_body}

-- A packet of the gateway, or an opcode and a payload of the client.
pub data Message : Type 0 where
  down : Packet → Message
  up : ℕ → Bytes → Message

-- The opcodes and payloads that the readers get, until a read fails.
unfoldable pub exchange : Session → Client → List Message → List (ℕ × Bytes)
exchange s k [] = []
exchange s k (down p ∷ ms) =
    let sent = send_packet s p in
    elim (Conn.read_packet k sent.1.buf) [ ok r ↦ r.0 ∷ exchange sent.0 r.1 ms | err e ↦ [] ]
exchange s k (up op payload ∷ ms) =
    let sent = Conn.send_packet k op payload in
    elim (read_packet s sent.1) [
      | ok r ↦ (opcode r.0, drop 4 r.0.buf) ∷ exchange r.1 sent.0 ms
      | err e ↦ []
    ]

-- What the sender means: its opcode, its payload, and zeros up to the next block.
abbrev pub meant : Message → ℕ × Bytes
meant (down p) = (opcode p, drop 4 p.buf ++ replicate (padding (length p.buf)) 0)
meant (up op payload) = (op, payload ++ replicate ((8 - (2 + length payload) % 8) % 8) 0)

-- A message of bytes that the length header can count.
abbrev pub Fits : Message → Type 0
Fits (down p) = (4 ≤ length p.buf) × IsBytes p.buf × (length (padded p.buf) < 2 ^ 16)
Fits (up op payload) =
    (op < 2 ^ 16) × IsBytes payload × (2 + length (packet_body op payload) < 2 ^ 16)

-- The keys are sent, both sides have the block cipher, and each XOR decoder is where the other
-- side's encoder is.
pub record InStep (c : BlockCipher) (s : Session) (k : Client) : Type 0 where
  pub keys : has_keys s.state ≡ true
  pub gateway_bf : s.bf_cipher ≡ some c
  pub client_bf : k.bf ≡ some c
  pub down_xor : k.xor_dec ≡ s.xor_enc
  pub up_xor : s.xor_dec ≡ k.xor_enc

under_header :
    (n : ℕ) (b : Bytes)
    → length b ≡ n
    → 2 ≤ length b
    → 2 + n < 2 ^ 16
    → IsFramed (put_le 2 ((2 + n) % 2 ^ 16) ++ b)
under_header n b e room fits = (omega (arith, e), omega (arith, e), omega (arith, e))

module _ (c : BlockCipher) (lawful : IsLawful c) where
  dec-enc : (b : Bytes) → IsBytes b → (dec c (enc c b) ≡ b) × (length (enc c b) ≡ length b)
  dec-enc b h =
      let u = blocks_undo c lawful (length b / 8) b (omega arith) h in (rw (u.1) (u.0), u.1)

  bytes-IsBytes : (p : Packet) → 4 ≤ length p.buf → IsBytes p.buf → IsBytes (drop 2 (bytes p))
  unfolding padded
  bytes-IsBytes p room h = subst IsBytes (sym (drop-bytes p (omega arith))) (
      All-drop IsByte 2 (padded p.buf)
        (All-append IsByte p.buf _ h (replicate-IsBytes (padding (length p.buf)))))

  module _ (s : Session) (k : Client) (i : InStep c s k) where
    down_lem :
        (p : Packet)
        → Fits (down p)
        → (Conn.read_packet k (send_packet s p).1.buf
            ≡ ok (meant (down p), record k { xor_dec = (send_packet s p).0.xor_enc }, []))
          × InStep c (send_packet s p).0 (record k { xor_dec = (send_packet s p).0.xor_enc })
    down_lem p fits =
        let h = take 2 (bytes p) in
        let b = drop 2 (bytes p) in
        let w = (encode s.xor_enc (enc c b)).1 in
        let de = dec-enc b (bytes-IsBytes p fits.0 fits.1) in
        let two : length h ≡ 2 =
          omega
            (arith, length-take 2 (bytes p), length-bytes p (omega arith), length-padded p.buf) in
        let b_length : length b + 2 ≡ length (padded p.buf) =
          omega
            (arith, length-drop 2 (bytes p), length-bytes p (omega arith), length-padded p.buf) in
        let four : 4 ≤ length (padded p.buf) = omega (arith, length-padded p.buf, fits.0) in
        let w_length : length w ≡ length b = length-encode s.xor_enc (enc c b) ∙ de.1 in
        let sent =
          send_packet_lem c s i.keys i.gateway_bf h b two p (sym (take-append-drop 2 (bytes p)))
            (omega (arith, length-append h (enc c b), de.1)) in
        let undone : decode k.xor_dec w ≡ ((encode s.xor_enc (enc c b)).0, enc c b) =
          rw (i.down_xor) (decode-encode s.xor_enc (enc c b)) in
        let read =
          client_read_lem c k i.client_bf h w two [] b (omega (arith, header-bytes p, fits.2))
            (ap (λ (t : XorCipher × Bytes). dec c t.1) undone ∙ de.0) (omega arith) (omega arith) in
        let op : get_le (take 2 b) ≡ opcode p =
          sym (opcode_lem (bytes p) 4 (omega (arith, length-bytes p (omega arith))))
          ∙ opcode-bytes p fits.0 in
        let tail = drop-drop 2 2 (bytes p) ∙ payload-bytes p fits.0 in
        rw (sent) (
          ap (Conn.read_packet k) (sym (append-nil (h ++ w)))
              ∙ read
              ∙ ap₂ {C = Result ((ℕ × Bytes) × Client × Bytes)}
                  (λ (v : ℕ × Bytes) (x : XorCipher). ok (v, record k { xor_dec = x }, []))
                  (ap₂ {C = ℕ × Bytes} (λ (o : ℕ) (t : Bytes). (o, t)) op tail)
                  (ap (λ (t : XorCipher × Bytes). t.0) undone),
          record {
            keys = i.keys;
            gateway_bf = i.gateway_bf;
            client_bf = i.client_bf;
            down_xor = refl;
            up_xor = i.up_xor;
          },
        )

    up_lem :
        (op : ℕ) (payload : Bytes)
        → Fits (up op payload)
        → (q : Packet) × (s' : Session) × (read_packet s (Conn.send_packet k op payload).1
            ≡ ok (q, s', []))
          × ((opcode q, drop 4 q.buf) ≡ meant (up op payload))
          × InStep c s' (Conn.send_packet k op payload).0
    unfolding read_packet packet_body
    up_lem op payload fits =
        let b = packet_body op payload in
        let h = put_le 2 ((2 + length b) % 2 ^ 16) in
        let w = (encode k.xor_enc b).1 in
        let b_bytes : IsBytes b =
          All-append IsByte (put_le 2 op) (payload ++ _) (put_le-IsBytes 2 op)
            (All-append IsByte payload _ fits.1 (replicate-IsBytes _)) in
        let de = dec-enc w (encode-IsBytes k.xor_enc b b_bytes) in
        let w_length : length w ≡ length b = length-encode k.xor_enc b in
        let framed : IsFramed (h ++ enc c w) =
          under_header (length b) (enc c w) (de.1 ∙ w_length) (omega (arith, de.1, w_length))
            (omega (arith, fits.2, de.1, w_length)) in
        let framed' : IsFramed (h ++ b) = under_header (length b) b refl (omega arith) fits.2 in
        let first =
          ap read_packet_from_conn (sym (append-nil (h ++ enc c w)))
          ∙ read_packet_lem (h ++ enc c w) [] framed in
        let opened =
          decode_packet_lem c s i.keys i.gateway_bf h (enc c w) refl
            (omega (arith, de.1, w_length, ap length de.0)) in
        let undone : decode s.xor_dec (dec c (enc c w)) ≡ ((encode k.xor_enc b).0, b) =
          rw (de.0, i.up_xor) (decode-encode k.xor_enc b) in
        let decoded : decode_packet s (h ++ enc c w)
            ≡ (record s { xor_dec = (encode k.xor_enc b).0 }, h ++ b) =
          opened ∙ ap (λ (t : XorCipher × Bytes). (record s { xor_dec = t.0 }, h ++ t.1)) undone in
        rw (client_send_lem c k op payload i.client_bf) (
          record { buf = h ++ b; rpos = 4 },
          record s { xor_dec = (encode k.xor_enc b).0 },
          rw (first, decoded, from_bytes-framed (h ++ b) framed') refl,
          ap (λ (o : ℕ). (o, drop 4 (h ++ b)))
              (opcode_lem (h ++ b) 4 (omega arith) ∙ get_le-put_le_of_lt 2 op fits.0),
          record {
            keys = i.keys;
            gateway_bf = i.gateway_bf;
            client_bf = i.client_bf;
            down_xor = i.down_xor;
            up_xor = refl;
          },
        )

  -- Take a gateway session whose keys are sent and a client with the same block cipher, whose
  -- decryption undoes its encryption, each side's XOR decoder in the state of the other's encoder.
  -- However they then take turns in sending messages of bytes that fit the length header once padded,
  -- each of the gateway's of at least four bytes and each of the client's opcodes of 16 bits, each
  -- reader gets the opcode and the payload of each, with zeros up to the next cipher block behind it.
  pub exchange-meant :
      (s : Session) (k : Client) (ms : List Message)
      → InStep c s k
      → All Fits ms
      → exchange s k ms ≡ map meant ms
  unfolding exchange
  exchange-meant s k [] i h = refl
  exchange-meant s k (down p ∷ ms) i h =
      let d = down_lem s k i p h.0 in
      let ih = exchange-meant _ _ ms d.1 h.1 in
      ap
        (λ (r : Result ((ℕ × Bytes) × Client × Bytes)). elim r [
          | ok v ↦ v.0 ∷ exchange (send_packet s p).0 v.1 ms
          | err e ↦ []
        ])
        d.0
      ∙ ap (λ t. meant (down p) ∷ t) ih
  exchange-meant s k (up op payload ∷ ms) i h =
      let (q, s', read, same, j) = up_lem s k i op payload h.0 in
      let ih = exchange-meant s' _ ms j h.1 in
      ap
        (λ (r : Result (Packet × Session × Bytes)). elim r [
          | ok v ↦ (opcode v.0, drop 4 v.0.buf) ∷ exchange v.1 (Conn.send_packet k op payload).0 ms
          | err e ↦ []
        ])
        read
      ∙ (ap₂ {C = List (ℕ × Bytes)} (λ v t. v ∷ t) same ih)
