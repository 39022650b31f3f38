-- ===== src/Crypto/Rsa.antt =====
-- server/src/internal/crypto/rsa.go: the scrambled modulus that SM_KEY carries, raw RSA on the
-- credential block, and the credentials in it. Key generation and the PEM file are not modelled: a
-- key pair is its modulus and exponents, as numbers. math/big's byte forms are big-endian.
pub mod Scramble
use ace.Prelude.{
  ℕ, zero, suc, ◌+◌, ◌-◌, ◌%◌, ◌^◌, Bool, true, false, Option, none, some, List, [], ◌∷◌, ◌++◌,
  length, take, drop, get_or, set, replicate, ltb, ◌==◌, if◌then◌else◌, not,
}
use ace.Prelude.Xor.{bit_xor}
use ace.Bytes.{Bytes, put_le, get_le}
use mathlib.Core.List.{reverse}

abbrev pub credential_block_size : ℕ
credential_block_size = 128

abbrev pub account_name_max_len : ℕ
account_name_max_len = 17

-- The round `i` of a loop that swaps `m[a+i]` and `m[b+i]`, and of one that combines `m[a+i]` with
-- `m[b+i]`.
abbrev pub swap_at : ℕ → ℕ → Bytes → Bytes
swap_at a b m = set (set m a (get_or m b 0)) b (get_or m a 0)

abbrev pub xor_at : ℕ → ℕ → Bytes → Bytes
xor_at a b m = set m a (bit_xor (get_or m a 0) (get_or m b 0))

-- `for i := 0; i < n; i++`, with the rounds left first.
pub for_range : ℕ → ℕ → (ℕ → Bytes → Bytes) → Bytes → Bytes
for_range zero i body m = m
for_range (suc n) i body m = for_range n (i + 1) body (body i m)

pub swap_range : ℕ → ℕ → ℕ → Bytes → Bytes
swap_range a b n = for_range n 0 (λ i. swap_at (a + i) (b + i))

pub xor_range : ℕ → ℕ → ℕ → Bytes → Bytes
xor_range a b n = for_range n 0 (λ i. xor_at (a + i) (b + i))

-- `ScrambledModulus` of a modulus in its 128 bytes.
unfoldable pub scramble_modulus : Bytes → Bytes
scramble_modulus m =
    let swapped = swap_range 0 0x4d 4 m in
    let first = xor_range 0 0x40 0x40 swapped in
    let middle = xor_range 0x0d 0x34 4 first in xor_range 0x40 0 0x40 middle

unfoldable pub unscramble_modulus : Bytes → Bytes
unscramble_modulus m =
    let second = xor_range 0x40 0 0x40 m in
    let middle = xor_range 0x0d 0x34 4 second in
    let first = xor_range 0 0x40 0x40 middle in swap_range 0 0x4d 4 first

pub record RsaKeyPair : Type 0 where
  pub n : ℕ
  pub e : ℕ
  pub d : ℕ

-- A number right-aligned in a block of `size` bytes; `none` if it takes more.
unfoldable pub fill_block : ℕ → ℕ → Option Bytes
fill_block size v = if ltb v (256 ^ size) then some (reverse (put_le size v)) else none

-- Raw RSA, with no padding; `none` is an error.
unfoldable pub decrypt_credentials : RsaKeyPair → Bytes → Option Bytes
decrypt_credentials kp ciphertext =
    if not (length ciphertext == credential_block_size)
    then none
    else fill_block credential_block_size (get_le (reverse ciphertext) ^ kp.d % kp.n)

unfoldable pub null_term_string : Bytes → Bytes
null_term_string [] = []
null_term_string (c ∷ b) = if c == 0 then [] else c ∷ null_term_string b

-- The account name and the password, as bytes.
unfoldable pub parse_credentials : Bytes → Option (Bytes × Bytes)
unfolding null_term_string
parse_credentials plain =
    if ltb (length plain) credential_block_size
    then none
    else some (
      null_term_string (take account_name_max_len (drop 1 plain)),
      null_term_string (drop 18 (take credential_block_size plain)),
    )
