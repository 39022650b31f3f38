-- ===== src/Crypto/GameCrypt/Stream.antt =====
-- The game port's cipher undoes itself: `Decrypt` with the key that `Encrypt` used gives the body
-- back, and the two keys stay equal from packet to packet.
use ace.Prelude.{ℕ, suc, ◌+◌, ◌≤◌, ◌≡◌, refl, ap, ap₂, true, [], ◌∷◌, arith, length, get_or}
use ace.Prelude.Xor.{bit_xor, bit_xor_cancel}
use ace.Bytes.{Bytes}
use ace.Crypto.GameCrypt.{
  GameCrypt, encrypt_from, decrypt_from, encrypt_body, decrypt_body, encrypt, decrypt, evolve_key,
  validate_client, pad,
}

decrypt_from-encrypt_from :
    (key : Bytes) (i prev : ℕ) (bs : Bytes)
    → decrypt_from key i prev (encrypt_from key i prev bs) ≡ bs
unfolding encrypt_from decrypt_from
decrypt_from-encrypt_from key i prev [] = refl
decrypt_from-encrypt_from key i prev (b ∷ bs) =
    let p = bit_xor (pad key i) prev in
    ap₂ ◌∷◌ (bit_xor_cancel b p) (decrypt_from-encrypt_from key (i + 1) (bit_xor b p) bs)

pub decrypt_body-encrypt_body : (key bs : Bytes) → decrypt_body key (encrypt_body key bs) ≡ bs
unfolding encrypt_body decrypt_body
decrypt_body-encrypt_body key [] = refl
decrypt_body-encrypt_body key (b ∷ bs) =
    let k = get_or key 0 0 in
    ap₂ ◌∷◌ (bit_xor_cancel b k) (decrypt_from-encrypt_from key 1 (bit_xor b k) bs)

length-encrypt_from :
    (key : Bytes) (i prev : ℕ) (bs : Bytes) → length (encrypt_from key i prev bs) ≡ length bs
unfolding encrypt_from
length-encrypt_from key i prev [] = refl
length-encrypt_from key i prev (b ∷ bs) =
    ap suc (length-encrypt_from key (i + 1) (bit_xor b (bit_xor (pad key i) prev)) bs)

pub length-encrypt_body : (key bs : Bytes) → length (encrypt_body key bs) ≡ length bs
unfolding encrypt_body
length-encrypt_body key [] = refl
length-encrypt_body key (b ∷ bs) =
    ap suc (length-encrypt_from key 1 (bit_xor b (get_or key 0 0)) bs)

pub length-evolve_key : (key : Bytes) (n : ℕ) → length (evolve_key key n) ≡ 8
unfolding evolve_key
length-evolve_key key n = refl

-- A validated body has at least the five bytes of its header.
validate-length : (b : Bytes) → validate_client b ≡ true → 5 ≤ length b
unfolding validate_client
validate-length b h = ground arith

-- What a peer that enciphers as `Encrypt` does has sent with the receiver's client key is read back
-- as it was, if it is a client packet; and both keys evolve alike, so they agree on the next packet.
pub decrypt-encrypt :
    (sender receiver : GameCrypt) (body : Bytes)
    → sender.enabled ≡ true
    → receiver.client_key ≡ sender.server_key
    → validate_client body ≡ true
    → let (sender', wire, sent) = encrypt sender body in
      let (receiver', plain, accepted) = decrypt receiver wire in
      (sent ≡ true)
      × (accepted ≡ true)
      × (plain ≡ body)
      × (receiver'.client_key ≡ sender'.server_key)
      × (sender'.enabled ≡ true)
unfolding encrypt decrypt
decrypt-encrypt sender receiver body on same valid = ground (
  arith,
  validate-length body valid,
  decrypt_body-encrypt_body sender.server_key body,
  length-encrypt_body sender.server_key body,
)
