-- ===== src/TinyClient.antt =====
-- server/src/cmd/tinyclient/main.go: the protocol side of the test client, which mirrors the
-- gateway: the credential block of the login.
pub mod Login
pub mod Reading
pub mod Conn
use ace.Prelude.{
  ℕ, ◌+◌, ◌-◌, ◌%◌, ◌^◌, Bool, true, false, Option, none, some, List, [], ◌∷◌, ◌++◌, length,
  replicate, ltb, leb, if◌then◌else◌,
}
use mathlib.Core.List.{reverse}
use ace.Bytes.{Bytes, get_le}
use ace.Crypto.Rsa.{fill_block, credential_block_size}

abbrev pub account_name_max : ℕ
account_name_max = 17

abbrev pub password_max_len : ℕ
password_max_len = 110

abbrev pub rsa_public_exp : ℕ
rsa_public_exp = 65537

-- The scramble byte, the account name and the password, each padded with zeros.
abbrev pub plain_block : Bytes → Bytes → Bytes
plain_block account password =
    0
    ∷ ((account ++ replicate (account_name_max - length account) 0)
        ++ (password ++ replicate (password_max_len - length password) 0))

-- The public exponent is a parameter, so that no call of this computes the power by itself.
abbrev pub raw_rsa : ℕ → ℕ → ℕ → ℕ
raw_rsa e n m = m ^ e % n

unfoldable pub encrypt_credentials : ℕ → Bytes → Bytes → Option Bytes
encrypt_credentials n account password =
    if ltb account_name_max (length account)
    then none
    else if ltb password_max_len (length password)
    then none
    else let m = get_le (reverse (plain_block account password)) in
      if leb n m then none else fill_block credential_block_size (raw_rsa rsa_public_exp n m)
