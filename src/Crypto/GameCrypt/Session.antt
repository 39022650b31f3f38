-- ===== src/Crypto/GameCrypt/Session.antt =====
-- Runs of packets through `Encrypt` and `Decrypt`, with rejected packets in between.
use ace.Prelude.{
  ℕ, ◌+◌, ◌%◌, ◌^◌, ◌<◌, ◌≡◌, refl, ap, ◌∙◌, true, false, List, [], ◌∷◌, arith, length,
  if◌then◌else◌,
}
use ace.Bytes.{Bytes, get_le, get_le-put_le}
use ace.Crypto.GameCrypt.{GameCrypt, encrypt, decrypt, evolve_key, validate_client}
use ace.Crypto.GameCrypt.Stream.{decrypt-encrypt}

-- The bodies that a receiver accepts from a run of packets, and its state after them.
pub receive_all : GameCrypt → List Bytes → GameCrypt × List Bytes
receive_all gc [] = (gc, [])
receive_all gc (wire ∷ wires) =
    let (gc', plain, accepted) = decrypt gc wire in
    let (end, rest) = receive_all gc' wires in if accepted then (end, plain ∷ rest) else (end, rest)

-- What may reach the receiver: packets of the peer, in order, and in between packets that its
-- validation rejects. `sent` are the peer's bodies.
pub data Traffic : GameCrypt → GameCrypt → List Bytes → List Bytes → Type 0 where
  end : {s r : GameCrypt} → Traffic s r [] []
  genuine :
      {s r : GameCrypt} {wires sent : List Bytes} (body : Bytes)
      → validate_client body ≡ true
      → Traffic (encrypt s body).0 (decrypt r (encrypt s body).1).0 wires sent
      → Traffic s r ((encrypt s body).1 ∷ wires) (body ∷ sent)
  noise :
      {s r : GameCrypt} {wires sent : List Bytes} (junk : Bytes)
      → (decrypt r junk).2 ≡ false
      → Traffic s r wires sent
      → Traffic s r (junk ∷ wires) sent

-- A rejected packet leaves the whole state as it was; an accepted one replaces only the client key.
pub decrypt_state :
    (gc : GameCrypt) (wire : Bytes)
    → (decrypt gc wire).0 ≡ (
        if (decrypt gc wire).2
        then record gc { client_key = evolve_key gc.client_key (length wire) }
        else gc)
unfolding decrypt
decrypt_state gc wire = ground arith

receive_all_accepted :
    (gc : GameCrypt) (wire : Bytes) (wires : List Bytes)
    → (decrypt gc wire).2 ≡ true
    → (receive_all gc (wire ∷ wires)).1
      ≡ (decrypt gc wire).1 ∷ (receive_all (decrypt gc wire).0 wires).1
unfolding receive_all
receive_all_accepted gc wire wires h = ground arith

receive_all_rejected :
    (gc : GameCrypt) (wire : Bytes) (wires : List Bytes)
    → (decrypt gc wire).2 ≡ false
    → (receive_all gc (wire ∷ wires)).1 ≡ (receive_all gc wires).1
unfolding receive_all
receive_all_rejected gc wire wires h = ground (arith, decrypt_state gc wire)

-- However rejected packets are mixed in, a receiver that starts with the peer's key accepts the
-- peer's bodies, all of them, unchanged and in order, and nothing else.
pub receive_all-Traffic :
    (s r : GameCrypt) (wires sent : List Bytes)
    → s.enabled ≡ true
    → r.client_key ≡ s.server_key
    → Traffic s r wires sent
    → (receive_all r wires).1 ≡ sent
receive_all-Traffic s r wires sent on same end = unfold receive_all in refl
receive_all-Traffic s r wires sent on same (genuine {wires = ws} {sent = bs} body valid t) =
    let step = decrypt-encrypt s r body on same valid in
    receive_all_accepted r (encrypt s body).1 ws step.1
    ∙ ap (λ p. p ∷ (receive_all (decrypt r (encrypt s body).1).0 ws).1) step.2
    ∙ ap (◌∷◌ body) (receive_all-Traffic (encrypt s body).0 _ ws bs step.4 step.3 t)
receive_all-Traffic s r wires sent on same (noise {wires = ws} junk bad t) =
    receive_all_rejected r junk ws bad ∙ receive_all-Traffic s r ws sent on same t

-- The key after a run of encrypted packets.
pub send_all : GameCrypt → List Bytes → GameCrypt
send_all gc [] = gc
send_all gc (body ∷ bodies) = send_all (encrypt gc body).0 bodies

abbrev pub total_length : List Bytes → ℕ
total_length [] = 0
total_length (b ∷ bs) = length b + total_length bs

encrypt_key :
    (gc : GameCrypt) (body : Bytes)
    → gc.enabled ≡ true
    → get_le gc.server_key < 2 ^ 64
    → (get_le (encrypt gc body).0.server_key ≡ (get_le gc.server_key + length body) % 2 ^ 64)
      × ((encrypt gc body).0.enabled ≡ true)
      × ((encrypt gc body).0.client_key ≡ gc.client_key)
unfolding encrypt evolve_key
encrypt_key gc body on small =
    ground (arith, get_le-put_le 8 ((get_le gc.server_key + length body) % 2 ^ 64))

-- Once encryption is on, the server key, read as a number, is the first key plus the lengths of all
-- bodies sent, modulo 2 ^ 64; sending never touches the client key.
pub send_all-key :
    (gc : GameCrypt) (bodies : List Bytes)
    → gc.enabled ≡ true
    → get_le gc.server_key < 2 ^ 64
    → (get_le (send_all gc bodies).server_key
        ≡ (get_le gc.server_key + total_length bodies) % 2 ^ 64)
      × ((send_all gc bodies).client_key ≡ gc.client_key)
unfolding send_all
send_all-key gc [] on small = (omega arith, refl)
send_all-key gc (body ∷ bodies) on small =
    let step = encrypt_key gc body on small in
    let rest = send_all-key (encrypt gc body).0 bodies step.1 (omega (arith, step.0)) in
    (omega (arith, step.0, rest.0), rest.1 ∙ step.2)
