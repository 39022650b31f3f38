-- ===== src/Admin/Auth.antt =====
-- server/src/cmd/admin, auth.go, auth_pg.go and rbac.go: users, tokens, and the two middlewares that
-- guard the API. `Jwt` is golang-jwt: the algorithm a token's header names, the claims of a token
-- whose signature and expiry are good, and signing. bcrypt.CompareHashAndPassword is `bcrypt`; the
-- comparisons whose results the code drops only spend time and are left out. A token's claims hold
-- their times in seconds. The random token id is
-- an argument.
use ace.Prelude.{
  ℕ, ◌+◌, ◌*◌, ◌/◌, Bool, true, false, ◌||◌, not, Option, none, some, List, [], ◌∷◌, length, drop,
  ltb, ◌==◌, if◌then◌else◌,
}
use mathlib.Core.List.{reverse}
use ace.Bytes.{Bytes, codes}
use ace.Bytes.Equal.{bytes_eq}
use ace.Admin.{Request, Claims, Response, error_body, login_body, write_json, has_prefix}

pub record Jwt : Type 0 where
  pub alg_of : Bytes → Option Bytes
  pub valid : Bytes → ℕ → Bytes → Option Claims
  pub sign : Bytes → Claims → Option Bytes

abbrev pub role_superadmin : Bytes
role_superadmin = codes "superadmin"

abbrev pub role_gm : Bytes
role_gm = codes "gm"

abbrev pub role_readonly : Bytes
role_readonly = codes "readonly"

abbrev pub jwt_min_secret_bytes : ℕ
jwt_min_secret_bytes = 32

-- A second in nanoseconds. Unix and NewNumericDate drop the part of an instant behind the second.
abbrev pub second : ℕ
second = 1000000000

-- Two hours.
abbrev pub token_ttl : ℕ
token_ttl = 2 * 3600 * 1000000000

pub record UserRecord : Type 0 where
  pub passhash : Bytes
  pub role : Bytes

unfoldable pub find_user : List (Bytes × UserRecord) → Bytes → Option UserRecord
find_user [] login = none
find_user (u ∷ users) login = if bytes_eq u.0 login then some u.1 else find_user users login

-- A row of admin_users.
pub record AdminUser : Type 0 where
  pub pass_hash : Bytes
  pub user_role : Bytes
  pub disabled : Bool

pub data Selected : Type 0 where
  no_rows : Selected
  select_failed : Selected
  user_row : AdminUser → Selected

module _ (bcrypt : Bytes → Bytes → Bool) where
  -- memUserStore.verify
  unfoldable pub mem_verify : List (Bytes × UserRecord) → Bytes → Bytes → Option Bytes
  mem_verify users login password = elim (find_user users login) [
    | none ↦ none
    | some rec ↦ if bcrypt rec.passhash password then some rec.role else none
  ]

  -- pgUserStore.verify, whose two kinds of error the caller does not tell apart.
  unfoldable pub pg_verify : (Bytes → Selected) → Bytes → Bytes → Option Bytes
  pg_verify select login password = elim (select login) [
    | no_rows ↦ none
    | select_failed ↦ none
    | user_row u ↦
        if u.disabled then none else if bcrypt u.pass_hash password then some u.user_role else none
  ]

-- `verify` is the user store's.
pub record AuthStore : Type 0 where
  pub verify : Bytes → Bytes → Option Bytes
  pub secret : Bytes

unfoldable pub load_auth_store_with_store :
    Bytes → Option (Bytes → Bytes → Option Bytes) → Option AuthStore
load_auth_store_with_store secret none = none
load_auth_store_with_store secret (some verify) =
    if ltb (length secret) jwt_min_secret_bytes
    then none
    else some (record { verify = verify; secret = secret })

-- strings.TrimSpace of ASCII text.
abbrev pub is_space : ℕ → Bool
is_space c = c == 32 || (c == 9 || (c == 10 || (c == 11 || (c == 12 || c == 13))))

unfoldable pub trim_left : Bytes → Bytes
trim_left [] = []
trim_left (c ∷ s) = let rest = trim_left s in if is_space c then rest else c ∷ s

unfoldable pub trim_space : Bytes → Bytes
trim_space s = reverse (trim_left (reverse (trim_left s)))

abbrev pub bearer : Bytes
bearer = codes "Bearer "

abbrev pub cookie_or_empty : Option Bytes → Bytes
cookie_or_empty none = []
cookie_or_empty (some value) = value

unfoldable pub extract_bearer : Request → Bytes
extract_bearer r =
    if has_prefix r.authorization bearer
    then trim_space (drop 7 r.authorization)
    else cookie_or_empty r.cookie

module _ (jwt : Jwt) where
  unfoldable pub sign_token : AuthStore → Bytes → ℕ → Bytes → Bytes → Option (Bytes × ℕ)
  sign_token store jti now sub role =
      elim (jwt.sign store.secret (record {
        role = role;
        subject = sub;
        issued_at = now / second;
        expires_at = (now + token_ttl) / second;
        jti = jti;
        issuer = codes "aion-admin";
      })) [ none ↦ none | some signed ↦ some (signed, now + token_ttl) ]

  -- The key function refuses any algorithm but HS256 before a key is given out.
  unfoldable pub parse_token : AuthStore → ℕ → Bytes → Option Claims
  parse_token store now raw = elim (jwt.alg_of raw) [
    | none ↦ none
    | some alg ↦ if not (bytes_eq alg (codes "HS256")) then none else jwt.valid store.secret now raw
  ]

  -- POST /admin/login, with what the JSON of the body says, if it is JSON.
  unfoldable pub handle_login :
      AuthStore → Bytes → ℕ → (Bytes → Option (Bytes × Bytes)) → Request → Response
  handle_login store jti now decode r = elim (decode r.body) [
    | none ↦ write_json 400 (error_body (codes "invalid json"))
    | some req ↦ elim (store.verify req.0 req.1) [
      | none ↦ write_json 401 (error_body (codes "invalid credentials"))
      | some role ↦ elim (sign_token store jti now req.0 role) [
        | none ↦ write_json 500 (error_body (codes "sign failed"))
        | some signed ↦ record {
          status = 200;
          headers = [];
          set_cookie = some signed;
          body = login_body signed.0 (signed.1 / second) role;
        }
      ]
    ]
  ]

  -- The middleware before a handler that wants claims.
  unfoldable pub auth_middleware : AuthStore → ℕ → (Claims → Response) → Request → Response
  auth_middleware store now next r =
      if length (extract_bearer r) == 0
      then write_json 401 (error_body (codes "missing token"))
      else elim (parse_token store now (extract_bearer r)) [
        | none ↦ write_json 401 (error_body (codes "invalid token"))
        | some claims ↦ next claims
      ]

unfoldable pub role_in : List Bytes → Bytes → Bool
role_in [] role = false
role_in (r ∷ allowed) role = if bytes_eq r role then true else role_in allowed role

-- requireRole, with the claims that the context has.
unfoldable pub require_role : List Bytes → (Claims → Response) → Option Claims → Response
require_role allowed next none = write_json 500 (error_body (codes "rbac misconfigured"))
require_role allowed next (some claims) =
    if role_in allowed claims.role
    then next claims
    else write_json 403 (error_body (codes "forbidden"))
