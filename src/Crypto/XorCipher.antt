-- ===== src/Crypto/XorCipher.antt =====
-- server/src/internal/crypto/xor.go: the stateful stream cipher. The state is a uint32 that grows by
-- every cipher byte.
use ace.Prelude.{ℕ, suc, ◌+◌, ◌%◌, ◌^◌, ◌≡◌, refl, ap, ap₂, [], ◌∷◌, ◌++◌, arith, length}
use ace.Prelude.Xor.{bit_xor, bit_xor_cancel, bit_xor-lt}
use ace.Bytes.{Bytes, IsBytes}

pub record XorCipher : Type 0 where
  pub state : ℕ

abbrev pub xor_initial_seed : ℕ
xor_initial_seed = 1234

pub new_xor_cipher : XorCipher
new_xor_cipher = record { state = xor_initial_seed }

pub new_xor_cipher_with_seed : ℕ → XorCipher
new_xor_cipher_with_seed seed = record { state = seed }

abbrev advance : XorCipher → ℕ → XorCipher
advance x c = record { state = (x.state + c) % 2 ^ 32 }

-- The loops work in place; they give the cipher and the bytes after them.
pub encode : XorCipher → Bytes → XorCipher × Bytes
encode x [] = (x, [])
encode x (b ∷ bs) =
    let c = bit_xor b (x.state % 256) in let (x', cs) = encode (advance x c) bs in (x', c ∷ cs)

pub decode : XorCipher → Bytes → XorCipher × Bytes
decode x [] = (x, [])
decode x (c ∷ cs) =
    let b = bit_xor c (x.state % 256) in let (x', bs) = decode (advance x c) cs in (x', b ∷ bs)

pub reset : XorCipher → XorCipher
reset x = record { state = xor_initial_seed }

-- A decoder in the encoder's state reads the bytes back and ends in the encoder's end state.
pub decode-encode : (x : XorCipher) (bs : Bytes) → decode x (encode x bs).1 ≡ ((encode x bs).0, bs)
unfolding encode decode
decode-encode x [] = refl
decode-encode x (b ∷ bs) =
    let c = bit_xor b (x.state % 256) in
    ap₂ (λ (r : XorCipher × Bytes) (d : ℕ). let (x', rest) = r in (x', d ∷ rest))
      (decode-encode (advance x c) bs) (bit_xor_cancel b (x.state % 256))

-- Encoding a stream in pieces, packet by packet, is encoding it at once.
pub encode-append :
    (x : XorCipher) (us bs : Bytes)
    → encode x (us ++ bs)
      ≡ ((encode (encode x us).0 bs).0, (encode x us).1 ++ (encode (encode x us).0 bs).1)
unfolding encode
encode-append x [] bs = refl
encode-append x (b ∷ us) bs =
    let c = bit_xor b (x.state % 256) in
    ap (λ (r : XorCipher × Bytes). let (x', rest) = r in (x', c ∷ rest))
      (encode-append (advance x c) us bs)

pub length-encode : (x : XorCipher) (bs : Bytes) → length (encode x bs).1 ≡ length bs
unfolding encode
length-encode x [] = refl
length-encode x (b ∷ bs) = ap suc (length-encode (advance x (bit_xor b (x.state % 256))) bs)

pub length-decode : (x : XorCipher) (bs : Bytes) → length (decode x bs).1 ≡ length bs
unfolding decode
length-decode x [] = refl
length-decode x (c ∷ cs) = ap suc (length-decode (advance x c) cs)

pub encode-IsBytes : (x : XorCipher) (bs : Bytes) → IsBytes bs → IsBytes (encode x bs).1
unfolding encode
encode-IsBytes x [] h = tt
encode-IsBytes x (b ∷ bs) h =
    let c = bit_xor b (x.state % 256) in
    (bit_xor-lt 8 b (x.state % 256) h.0 (omega arith), encode-IsBytes (advance x c) bs h.1)
