-- ===== src/SessionStore.antt =====
-- server/src/internal/session/store.go: one-time session tokens in Redis. The Redis server and the
-- JSON form of the stored data are parameters: `Redis` and `Json` hold the operations that the code
-- calls, `IsRedis` and `IsJson` what their documentation promises. A failed command is `none`. The
-- random bytes of a token are an argument; the expiry after the TTL is Redis's, and not modelled.
pub mod OneTime
pub mod Hex
use ace.Prelude.{
  ℕ, zero, suc, ◌+◌, ◌%◌, ◌/◌, ◌<◌, ◌≡◌, ◌≢◌, Bool, true, false, not, Option, none, some, List, [],
  ◌∷◌, ◌++◌, All, get_or, take, replicate, if◌then◌else◌, length, ◌-◌,
}
use ace.Bytes.{Bytes, codes}

pub record Data : Type 0 where
  pub account_id : ℕ
  pub account : Bytes
  pub server_id : ℕ

pub record Redis : Type 1 where
  pub State : Type 0
  pub reachable : State → Bool
  pub set : State → Bytes → Bytes → Option State
  pub get : State → Bytes → Option Bytes
  pub del : State → Bytes → State

pub record Json : Type 0 where
  pub marshal : Data → Bytes
  pub unmarshal : Bytes → Option Data

-- A string that JSON keeps: it replaces invalid UTF-8, so the law speaks of ASCII.
abbrev pub IsAscii : Bytes → Type 0
IsAscii = All (λ c. c < 128)

pub record IsJson (j : Json) : Type 0 where
  pub unmarshal-marshal : (v : Data) → IsAscii v.account → j.unmarshal (j.marshal v) ≡ some v

pub record IsRedis (r : Redis) : Type 0 where
  pub get-set_self : (s s' : r.State) (k v : Bytes) → r.set s k v ≡ some s' → r.get s' k ≡ some v
  pub get-set_ne :
      (s s' : r.State) (k k' v : Bytes) → k ≢ k' → r.set s k v ≡ some s' → r.get s' k' ≡ r.get s k'
  pub get-del_self : (s : r.State) (k : Bytes) → r.get (r.del s k) k ≡ none
  pub get-del_ne : (s : r.State) (k k' : Bytes) → k ≢ k' → r.get (r.del s k) k' ≡ r.get s k'

pub hex_digit : ℕ → ℕ
hex_digit n = get_or (codes "0123456789abcdef") n 0

pub encode_to_string : Bytes → Bytes
encode_to_string [] = []
encode_to_string (b ∷ bs) = hex_digit (b / 16) ∷ hex_digit (b % 16) ∷ encode_to_string bs

abbrev pub key_prefix : Bytes
key_prefix = codes "aion:session:"

abbrev pub key_of : Bytes → Bytes
key_of raw_token = key_prefix ++ encode_to_string raw_token

pub data Verified : Type 0 where
  verified : Data → Verified
  token_not_found : Verified
  pipeline_failed : Verified
  unmarshal_failed : Verified

module _ (r : Redis) (j : Json) where
  unfoldable pub store_token : r.State → Bytes → Data → Option r.State
  store_token s raw_token v = r.set s (key_of raw_token) (j.marshal v)

  -- `Issue` and `IssueRaw`: the raw token is 16 random bytes, the result its hexadecimal form too.
  unfoldable pub issue_raw : r.State → Bytes → Data → Option (r.State × Bytes × Bytes)
  issue_raw s random v = elim (r.set s (key_of random) (j.marshal v)) [
    | none ↦ none
    | some s' ↦ some (s', random, encode_to_string random)
  ]

  -- GET and DEL in one transaction.
  unfoldable pub verify : r.State → Bytes → r.State × Verified
  verify s token =
      let key = key_prefix ++ token in
      if not (r.reachable s) then (s, pipeline_failed) else elim (r.get s key) [
        | none ↦ (r.del s key, token_not_found)
        | some payload ↦ elim (j.unmarshal payload) [
          | none ↦ (r.del s key, unmarshal_failed)
          | some v ↦ (r.del s key, verified v)
        ]
      ]

  unfoldable pub verify_raw : r.State → Bytes → r.State × Verified
  unfolding verify
  verify_raw s raw_token = verify s (encode_to_string raw_token)

-- NilStore, the store of the development mode: any token is accepted.
unfoldable pub nil_verify_raw : ℕ → Bytes → Verified
nil_verify_raw dev_account_id raw_token =
    verified (record { account_id = dev_account_id; account = codes "dev"; server_id = 10 })
