-- ===== src/SessionStore/OneTime.antt =====
-- A token is good once, for the data it was stored with, and no other token's use disturbs it.
use ace.Prelude.{◌≡◌, ◌≢◌, ap, ◌∙◌, sym, true, none, some, arith}
use ace.Bytes.{Bytes, IsBytes}
use ace.SessionStore.{
  Data, Redis, IsRedis, Json, IsJson, IsAscii, Verified, verified, token_not_found, store_token,
  verify, verify_raw, key_of,
}
use ace.SessionStore.Hex.{key_of_inj}

module _ (r : Redis) (j : Json) (lr : IsRedis r) (lj : IsJson j) where
  verify_raw_found :
      (s : r.State) (token : Bytes) (v : Data)
      → r.reachable s ≡ true
      → r.get s (key_of token) ≡ some (j.marshal v)
      → IsAscii v.account
      → verify_raw r j s token ≡ (r.del s (key_of token), verified v)
  unfolding verify_raw verify
  verify_raw_found s token v up found ascii = ground (arith, lj.unmarshal-marshal v ascii)

  verify_raw_missing :
      (s : r.State) (token : Bytes)
      → r.reachable s ≡ true
      → r.get s (key_of token) ≡ none
      → verify_raw r j s token ≡ (r.del s (key_of token), token_not_found)
  unfolding verify_raw verify
  verify_raw_missing s token up missing = ground arith

  -- While Redis can be reached, a stored token verifies to the data that it was stored with, once:
  -- the second time it is not found. That holds also if another token is stored in between.
  pub verify_raw-store_token :
      (s s1 s2 : r.State) (token other : Bytes) (v w : Data)
      → IsBytes token
      → IsBytes other
      → token ≢ other
      → IsAscii v.account
      → store_token r j s token v ≡ some s1
      → store_token r j s1 other w ≡ some s2
      → r.reachable s2 ≡ true
      → r.reachable (verify_raw r j s2 token).0 ≡ true
      → ((verify_raw r j s2 token).1 ≡ verified v)
        × ((verify_raw r j (verify_raw r j s2 token).0 token).1 ≡ token_not_found)
        × (r.get (verify_raw r j s2 token).0 (key_of other) ≡ some (j.marshal w))
  unfolding store_token
  verify_raw-store_token s s1 s2 token other v w bt bo ne ascii put put' up up' =
      let apart : key_of other ≢ key_of token = λ e. ne (key_of_inj token other bt bo (sym e)) in
      let found : r.get s2 (key_of token) ≡ some (j.marshal v) =
        lr.get-set_ne s1 s2 (key_of other) (key_of token) (j.marshal w) apart put'
        ∙ lr.get-set_self s s1 (key_of token) (j.marshal v) put in
      let first = verify_raw_found s2 token v up found ascii in
      let after : (verify_raw r j s2 token).0 ≡ r.del s2 (key_of token) =
        ap (λ (t : r.State × Verified). t.0) first in
      (
        ap (λ (t : r.State × Verified). t.1) first,
        ap (λ (t : r.State × Verified). t.1)
            (verify_raw_missing (verify_raw r j s2 token).0 token up'
              (ap (λ t. r.get t (key_of token)) after ∙ lr.get-del_self s2 (key_of token))),
        ap (λ t. r.get t (key_of other)) after
            ∙ lr.get-del_ne s2 (key_of token) (key_of other) (λ e. apart (sym e))
            ∙ lr.get-set_self s1 s2 (key_of other) (j.marshal w) put',
      )
