-- ===== src/Tests/Key.antt =====
-- A login at a concrete key. With the modulus one above the login's number `m`, that number is -1
-- modulo it, and an odd power of -1 is -1.
use ace.Prelude.{ℕ, zero, suc, ◌+◌, ◌*◌, ◌%◌, ◌^◌, ◌≡◌, ap, ◌∙◌, some, arith}
use native.Mathlib.Nat.{pow-suc, pow-zero, add-mul-mod_self_right, mod-suc}
use ace.Bytes.{Bytes, codes}
use ace.Crypto.Rsa.{RsaKeyPair, decrypt_credentials, parse_credentials}
use ace.TinyClient.{encrypt_credentials, raw_rsa, rsa_public_exp}
use ace.TinyClient.Login.{message, login_credentials}

-- Two more factors `m` change nothing modulo `m + 1`.
square_step : (x m : ℕ) → x * (m * m) % suc m ≡ x % suc m
square_step x zero = grind arith
square_step x (suc k) =
    ap (λ t. t % suc (suc k)) split ∙ add-mul-mod_self_right x (x * k) (suc (suc k))
  where
    split : x * (suc k * suc k) ≡ x + x * k * suc (suc k)
    split = grind arith

two_more : (m k : ℕ) → m ^ (2 + k) ≡ m ^ k * (m * m)
two_more m k =
    ap (λ t. m ^ t) {x = 2 + k} {y = suc (suc k)} (omega arith)
    ∙ pow-suc m (suc k)
    ∙ ap (λ t. t * m) (pow-suc m k)
    ∙ product (m ^ k) m
  where
    product : (x y : ℕ) → x * y * y ≡ x * (y * y)
    product x y = grind arith

first_power : (m : ℕ) → m ^ (1 + (0 + 0)) ≡ m
first_power m = pow-suc m 0 ∙ omega (arith, pow-zero m, ap (λ t. t * m) (pow-zero m))

odd_power : (j m : ℕ) → m ^ (1 + (j + j)) % suc m ≡ m
odd_power zero m = ap (λ t. t % suc m) (first_power m) ∙ mod-suc m
odd_power (suc j) m =
    ap (λ t. m ^ t % suc m) {x = 1 + (suc j + suc j)} {y = 2 + (1 + (j + j))} (omega arith)
    ∙ ap (λ t. t % suc m) (two_more m (1 + (j + j)))
    ∙ square_step (m ^ (1 + (j + j))) m
    ∙ odd_power j m

-- The public exponent 65,537 is odd, and so is 1.
undone : (m : ℕ) → raw_rsa 1 (suc m) (raw_rsa rsa_public_exp (suc m) m) ≡ m
undone m = ap (raw_rsa 1 (suc m)) (odd_power 32768 m) ∙ odd_power 0 m

abbrev account : Bytes
account = codes "ab"

abbrev password : Bytes
password = codes "c"

abbrev key : RsaKeyPair
key = record { n = suc (message account password); e = 65537; d = 1 }

login_credentials_example :
    (cipher plain : Bytes) × (encrypt_credentials key.n account password ≡ some cipher)
    × (decrypt_credentials key cipher ≡ some plain)
    × (parse_credentials plain ≡ some (account, password))
login_credentials_example =
    login_credentials key account password
      ((omega arith, omega arith), ((omega arith, omega arith), tt))
      ((omega arith, omega arith), tt) (omega arith) (omega arith) (omega arith) (omega arith)
      (undone (message account password))
