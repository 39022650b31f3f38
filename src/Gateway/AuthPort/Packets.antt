-- ===== src/Gateway/AuthPort/Packets.antt =====
-- An auth-port packet from its sender to a reader with the same cipher.
use ace.Prelude.{
  ℕ, suc, ◌+◌, ◌-◌, ◌/◌, ◌%◌, ◌^◌, ◌<◌, ◌≡◌, refl, ap, ◌∙◌, sym, subst, Option, none, some, [], ◌∷◌,
  ◌++◌, arith, length, take, drop, replicate, ltb, All-append, All-take, All-drop, length-append,
  length-replicate, take-append, Bool-cases, inl, inr, if_true, if_false, get_or,
}
use ace.Bytes.{
  replicate-IsBytes, Bytes, IsByte, IsBytes, put_le, get_le-put_le_of_lt, put_le-IsBytes,
}
use ace.Crypto.BlowfishLe.{BlockCipher, IsLawful, encrypt_block, decrypt_block, over_blocks}
use ace.Crypto.BlowfishLe.Laws.{blocks_undo}
use ace.Packet.Conn.{IsFramed, read_packet_lem}
use ace.Gateway.AuthPort.{
  xor_words, append_checksum, encrypted, decrypted, auth_body, send_auth_packet, auth_packet,
  opened, read_auth_packet, after_read,
}
use ace.Gateway.AuthPort.Checksum.{words_xor, append_checksum_lem, take-take}

-- The session's cipher, if it has one, is lawful.
abbrev pub MaybeLawful : Option BlockCipher → Type 0
MaybeLawful none = Unit
MaybeLawful (some c) = IsLawful c

decrypted-encrypted :
    (cipher : Option BlockCipher) (body : Bytes)
    → MaybeLawful cipher
    → IsBytes body
    → (decrypted cipher (encrypted cipher body) ≡ body)
      × (length (encrypted cipher body) ≡ length body)
decrypted-encrypted none body lawful h = (refl, refl)
decrypted-encrypted (some c) body lawful h =
    let both = blocks_undo c lawful (length body / 8) body (omega arith) h in
    (
      ap (λ n. decrypted_in c n (over_blocks (length body / 8) (encrypt_block c) body)) both.1
          ∙ both.0,
      both.1,
    )
  where
    decrypted_in : BlockCipher → ℕ → Bytes → Bytes
    decrypted_in k n bs = over_blocks (n / 8) (decrypt_block k) bs

append_checksum-IsBytes : (bs : Bytes) (size : ℕ) → IsBytes bs → IsBytes (append_checksum bs 0 size)
unfolding append_checksum
append_checksum-IsBytes bs size h =
    let count : ℕ = 0 + size - 4 in
    let v = xor_words count bs 0 count 0 in
    let written : Bytes = take count bs ++ (put_le 4 v ++ drop (count + 4) bs) in
    elim (Bool-cases (ltb size 8)) [
      | inl e ↦ subst IsBytes (sym (if_true (ltb size 8) bs written e)) h
      | inr e ↦ subst IsBytes (sym (if_false (ltb size 8) bs written e)) (
          All-append IsByte (take count bs) (put_le 4 v ++ drop (count + 4) bs)
            (All-take IsByte count bs h)
            (All-append IsByte (put_le 4 v) (drop (count + 4) bs) (put_le-IsBytes 4 v)
              (All-drop IsByte (count + 4) bs h)))
    ]

split_front :
    (n b : ℕ) (us body : Bytes)
    → take (suc n) body ≡ b ∷ us
    → (rest : Bytes) × (body ≡ b ∷ rest) × (take n rest ≡ us)
split_front n b us [] h = absurd (omega (arith, ap length h))
split_front n b us (a ∷ rest) h =
    (rest, ap (λ l. l ∷ rest) (ap (λ l. get_or l 0 0) h), ap (drop 1) h)

module _ (opcode : ℕ) (payload : Bytes) (small : opcode < 256) (h : IsBytes payload) where
  abbrev content_len : ℕ
  content_len = 1 + length payload

  abbrev body_len : ℕ
  body_len = content_len + 4 + (8 - (content_len + 4) % 8)

  abbrev content : Bytes
  content = (opcode ∷ payload) ++ replicate (body_len - content_len) 0

  length-content : length content ≡ body_len
  length-content = omega (
    arith,
    length-append (opcode ∷ payload) (replicate (body_len - content_len) 0),
    length-replicate {A = ℕ} (body_len - content_len) 0,
  )

  content-IsBytes : IsBytes content
  content-IsBytes =
      All-append IsByte (opcode ∷ payload) (replicate (body_len - content_len) 0) (small, h)
        (replicate-IsBytes (body_len - content_len))

  auth_body_is : auth_body opcode payload ≡ append_checksum content 0 (length content)
  unfolding auth_body
  auth_body_is = ap (append_checksum content 0) (sym length-content)

  auth_body_lem :
      (rest : Bytes) × (auth_body opcode payload ≡ opcode ∷ rest)
      × (take (length payload) rest ≡ payload)
      × (words_xor (auth_body opcode payload) ≡ 0)
      × (length (auth_body opcode payload) ≡ body_len)
      × IsBytes (auth_body opcode payload)
  auth_body_lem =
      let checked =
        append_checksum_lem content (body_len / 4 - 2) content-IsBytes
          (omega (arith, length-content)) in
      let sealed = append_checksum content 0 (length content) in
      let front : take (suc (length payload)) sealed ≡ opcode ∷ payload =
        sym (
          take-take (suc (length payload)) (length content - 4) sealed
            (omega (arith, length-content)))
        ∙ ap (take (suc (length payload))) checked.2
        ∙ take-take (suc (length payload)) (length content - 4) content
            (omega (arith, length-content))
        ∙ take-append (suc (length payload)) (opcode ∷ payload)
            (replicate (body_len - content_len) 0) refl in
      let (rest, is, starts) = split_front (length payload) opcode payload sealed front in
      (
        rest,
        auth_body_is ∙ is,
        starts,
        ap words_xor auth_body_is ∙ checked.0,
        ap length auth_body_is ∙ checked.1 ∙ length-content,
        subst IsBytes (sym auth_body_is)
            (append_checksum-IsBytes content (length content) content-IsBytes),
      )

  abbrev wire : Option BlockCipher → Bytes
  wire cipher = send_auth_packet cipher opcode payload

  module _ (cipher : Option BlockCipher) (lawful : MaybeLawful cipher)
      (fits : length payload + 15 < 2 ^ 16) where
    length-wire : length (wire cipher) ≡ 2 + body_len
    unfolding send_auth_packet
    length-wire = omega (
      arith,
      (decrypted-encrypted cipher (auth_body opcode payload) lawful auth_body_lem.5).1,
      auth_body_lem.4,
    )

    wire-IsFramed : IsFramed (wire cipher)
    unfolding send_auth_packet
    wire-IsFramed = (
      omega (arith, length-wire),
      get_le-put_le_of_lt 2 ((2 + length (auth_body opcode payload)) % 2 ^ 16) (omega arith)
          ∙ omega (arith, length-wire, auth_body_lem.4),
      omega (arith, length-wire),
    )

    -- A reader with the sender's cipher, or with none on both sides, gets the opcode and a payload
    -- that starts with the sender's, from whatever bytes follow the packet; all 32-bit words of what
    -- it deciphers cancel out. The cipher is lawful and the payload at most 65,520 bytes long.
    pub read_auth_packet-send_auth_packet :
        (rest : Bytes)
        → (got : Bytes) × (read_auth_packet cipher (send_auth_packet cipher opcode payload ++ rest)
            ≡ auth_packet opcode got rest)
          × (take (length payload) got ≡ payload)
          × (words_xor (opcode ∷ got) ≡ 0)
    unfolding read_auth_packet
    read_auth_packet-send_auth_packet rest =
        let body = auth_body opcode payload in
        let (got, is, starts, cancels, size, bytes) = auth_body_lem in
        let read = read_packet_lem (wire cipher) rest wire-IsFramed in
        let sealed : drop 2 (wire cipher) ≡ encrypted cipher body =
          unfold send_auth_packet in refl in
        let plain : decrypted cipher (drop 2 (wire cipher)) ≡ opcode ∷ got =
          ap (decrypted cipher) sealed ∙ (decrypted-encrypted cipher body lawful bytes).0 ∙ is in
        (
          got,
          ap (after_read cipher) read ∙ ap (λ b. opened b rest) plain,
          starts,
          ap words_xor (sym is) ∙ cancels,
        )
