-- ===== src/TinyClient/Login.antt =====
-- What the client's credential block means to the gateway.
use ace.Prelude.{
  ℕ, zero, suc, ◌-◌, ◌^◌, ◌≤◌, ◌<◌, ◌≡◌, refl, ap, ap₂, ◌∙◌, sym, false, none, some, [], ◌∷◌, ◌++◌,
  arith, length, replicate, take, drop, ltb, leb, ◌==◌, All, All-append, length-append,
  length-replicate, take-append, drop-append, take_of_length-le, lt→ltb, le→ltb, if_false, not,
  subst,
}
use mathlib.Core.List.{reverse, reverse-reverse, reverse-append}
use native.Mathlib.Nat.{mod-lt, lt_of_lt_of_le}
use ace.Bytes.{
  replicate-IsBytes, Bytes, IsByte, IsBytes, put_le, get_le, length-put_le, get_le-put_le_of_lt,
  put_le-get_le, get_le-lt,
}
use ace.Crypto.Rsa.{
  RsaKeyPair, fill_block, decrypt_credentials, null_term_string, parse_credentials,
}
use ace.TinyClient.{plain_block, encrypt_credentials, raw_rsa, rsa_public_exp}

abbrev pub IsText : Bytes → Type 0
IsText = All (λ c. (0 < c) × (c < 256))

length-reverse : (bs : Bytes) → length (reverse bs) ≡ length bs
length-reverse [] = refl
length-reverse (b ∷ bs) =
    ap length (reverse-append (b ∷ []) bs)
    ∙ omega (arith, length-append (reverse bs) (b ∷ []), length-reverse bs)

reverse-IsBytes : (bs : Bytes) → IsBytes bs → IsBytes (reverse bs)
reverse-IsBytes [] h = tt
reverse-IsBytes (b ∷ bs) h =
    rw (reverse-append (b ∷ []) bs)
      (All-append IsByte (reverse bs) (b ∷ []) (reverse-IsBytes bs h.1) (h.0, tt))

-- A text in a field that zeros fill is read back, up to the text's end.
null_term_padded : (s : Bytes) (k : ℕ) → IsText s → null_term_string (s ++ replicate k 0) ≡ s
unfolding null_term_string
null_term_padded [] zero h = refl
null_term_padded [] (suc k) h = refl
null_term_padded (c ∷ s) k h = ground (arith, null_term_padded s k h.1)

text-IsBytes : (s : Bytes) → IsText s → IsBytes s
text-IsBytes [] h = tt
text-IsBytes (c ∷ s) h = (h.0.1, text-IsBytes s h.1)

fill_block_lem :
    (size v : ℕ)
    → v < 256 ^ size
    → (b : Bytes) × (fill_block size v ≡ some b) × (length b ≡ size) × (get_le (reverse b) ≡ v)
unfolding fill_block
fill_block_lem size v h = (
  reverse (put_le size v),
  rw (lt→ltb v (256 ^ size) h),
  length-reverse (put_le size v) ∙ length-put_le size v,
  ap get_le (reverse-reverse (put_le size v)) ∙ get_le-put_le_of_lt size v h,
)

-- The block that holds the number of a sequence of `size` bytes is that sequence.
fill_block-get_le :
    (size : ℕ) (b : Bytes)
    → length b ≡ size
    → IsBytes b
    → (get_le (reverse b) < 256 ^ size) × (fill_block size (get_le (reverse b)) ≡ some b)
unfolding fill_block
fill_block-get_le size b e h =
    let r : length (reverse b) ≡ size = length-reverse b ∙ e in
    let lt : get_le (reverse b) < 256 ^ size =
      subst (λ t. get_le (reverse b) < 256 ^ t) r (get_le-lt (reverse b) (reverse-IsBytes b h)) in
    (
      lt,
      rw (lt→ltb (get_le (reverse b)) (256 ^ size) lt) (
          ap some (
            ap reverse (
              ap (λ t. put_le t (get_le (reverse b))) (sym r)
              ∙ put_le-get_le (reverse b) (reverse-IsBytes b h))
            ∙ reverse-reverse b)),
    )

module _ (account password : Bytes) (ta : IsText account) (tp : IsText password)
    (fa : length account ≤ 17) (fp : length password ≤ 110) where
  abbrev account_field : Bytes
  account_field = account ++ replicate (17 - length account) 0

  abbrev password_field : Bytes
  password_field = password ++ replicate (110 - length password) 0

  length-account_field : length account_field ≡ 17
  length-account_field = omega (
    arith,
    length-append account (replicate (17 - length account) 0),
    length-replicate {A = ℕ} (17 - length account) 0,
  )

  length-password_field : length password_field ≡ 110
  length-password_field = omega (
    arith,
    length-append password (replicate (110 - length password) 0),
    length-replicate {A = ℕ} (110 - length password) 0,
  )

  length-plain_block : length (plain_block account password) ≡ 128
  length-plain_block = omega (
    arith,
    length-append account_field password_field,
    length-account_field,
    length-password_field,
  )

  field-IsBytes : (s : Bytes) (k : ℕ) → IsText s → IsBytes (s ++ replicate k 0)
  field-IsBytes s k h = All-append IsByte s (replicate k 0) (text-IsBytes s h) (replicate-IsBytes k)

  plain_block-IsBytes : IsBytes (plain_block account password)
  plain_block-IsBytes = (
    omega arith,
    All-append IsByte account_field password_field (field-IsBytes account (17 - length account) ta)
        (field-IsBytes password (110 - length password) tp),
  )

  parse-plain_block : parse_credentials (plain_block account password) ≡ some (account, password)
  unfolding parse_credentials
  parse-plain_block =
      let all = account_field ++ password_field in
      let whole : take 127 all ≡ all =
        take_of_length-le 127 all (omega (arith, length-plain_block)) in
      if_false (ltb (length (plain_block account password)) 128) none _
        (le→ltb _ 128 (omega (arith, length-plain_block)))
      ∙ ap some (
          ap₂ (λ (x y : Bytes). (x, y))
            (ap null_term_string (take-append 17 account_field password_field length-account_field)
              ∙ null_term_padded account (17 - length account) ta)
            (ap null_term_string (
                ap (drop 17) whole
                ∙ drop-append 17 account_field password_field length-account_field)
              ∙ null_term_padded password (110 - length password) tp))

pos_of_lt : {a n : ℕ} → a < n → 0 < n
pos_of_lt h = omega arith

lt→leb : (a b : ℕ) → b < a → leb a b ≡ false
lt→leb a b h = ground arith

abbrev pub message : Bytes → Bytes → ℕ
message account password = get_le (reverse (plain_block account password))

-- With a key whose private exponent undoes the public one on the login's number, and a modulus above
-- that number and of at most 128 bytes, the gateway decrypts the client's credential block, and
-- parses from it the account name and the password that the client was given, if these are bytes
-- other than zero, at most 17 and 110 of them.
pub login_credentials :
    (kp : RsaKeyPair) (account password : Bytes)
    → IsText account
    → IsText password
    → length account ≤ 17
    → length password ≤ 110
    → message account password < kp.n
    → kp.n ≤ 256 ^ 128
    → raw_rsa kp.d kp.n (raw_rsa rsa_public_exp kp.n (message account password))
      ≡ message account password
    → (cipher plain : Bytes) × (encrypt_credentials kp.n account password ≡ some cipher)
      × (decrypt_credentials kp cipher ≡ some plain)
      × (parse_credentials plain ≡ some (account, password))
unfolding encrypt_credentials decrypt_credentials
login_credentials kp account password ta tp fa fp below room undoes =
    let number = raw_rsa rsa_public_exp kp.n (message account password) in
    let number_lt : number < 256 ^ 128 = lt_of_lt_of_le (mod-lt _ (pos_of_lt below)) room in
    let (cipher, filled, len, num) = fill_block_lem 128 number number_lt in
    let plain = plain_block account password in
    (
      cipher,
      plain,
      if_false (ltb 17 (length account)) none _ (le→ltb 17 (length account) fa)
          ∙ if_false (ltb 110 (length password)) none _ (le→ltb 110 (length password) fp)
          ∙ if_false (leb kp.n (message account password)) none _ (lt→leb _ _ below)
          ∙ filled,
      if_false (not (length cipher == 128)) none _ (rw len)
          ∙ ap (λ t. fill_block 128 (raw_rsa kp.d kp.n t)) num
          ∙ ap (fill_block 128) undoes
          ∙ (fill_block-get_le 128 plain (length-plain_block account password ta tp fa fp)
              (plain_block-IsBytes account password ta tp fa fp)).1,
      parse-plain_block account password ta tp fa fp,
    )
