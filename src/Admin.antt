-- ===== src/Admin.antt =====
-- server/src/cmd/admin: the administration API. Middlewares and handlers are functions from the
-- server's state and a request to the state after it and a response: middleware.go's limiter is in
-- Admin/Limiter.antt, auth.go, auth_pg.go and rbac.go in Admin/Auth.antt, router.go in
-- Admin/Router.antt. Strings are bytes, and times are instants in nanoseconds. Token buckets
-- (golang.org/x/time/rate), JSON web tokens (golang-jwt), bcrypt, the table of users and JSON are
-- parameters.
pub mod Limiter
pub mod Auth
pub mod Router
pub mod Guarded
pub mod Login
use ace.Prelude.{
  ℕ, zero, suc, Bool, true, false, ◌&&◌, ◌||◌, Option, none, some, List, [], ◌∷◌, ◌++◌, length, ltb,
  leb, ◌==◌, if◌then◌else◌,
}
use ace.Bytes.{Bytes, codes}
use ace.Bytes.Equal.{bytes_eq}

pub data Method : Type 0 where
  get_method : Method
  post_method : Method
  options_method : Method
  other_method : Method

-- An absent header is the empty string, an absent cookie `none`.
pub record Request : Type 0 where
  pub method : Method
  pub remote_addr : Bytes
  pub origin : Bytes
  pub authorization : Bytes
  pub cookie : Option Bytes
  pub body : Bytes

pub record Claims : Type 0 where
  pub role : Bytes
  pub subject : Bytes
  pub issued_at : ℕ
  pub expires_at : ℕ
  pub jti : Bytes
  pub issuer : Bytes

pub data Body : Type 0 where
  error_body : Bytes → Body
  status_ok : Body
  metrics : Body
  no_body : Body
  login_body : Bytes → ℕ → Bytes → Body
  players : Body
  player : Bytes → Body
  banned : Bytes → Bytes → Body
  kicked : Bytes → Bytes → Body
  stats : Body

-- The cookie that a login sets, with its expiry, is a header of its own here.
pub record Response : Type 0 where
  pub status : ℕ
  pub headers : List (Bytes × Bytes)
  pub set_cookie : Option (Bytes × ℕ)
  pub body : Body

abbrev pub write_json : ℕ → Body → Response
write_json status body = record { status = status; headers = []; set_cookie = none; body = body }

-- strings.HasPrefix
unfoldable pub has_prefix : Bytes → Bytes → Bool
has_prefix s [] = true
has_prefix [] (p ∷ prefix) = false
has_prefix (c ∷ s) (p ∷ prefix) = let rest = has_prefix s prefix in if c == p then rest else false

unfoldable pub is_loopback_origin : Bytes → Bool
is_loopback_origin origin =
    has_prefix origin (codes "http://127.0.0.1")
    || (has_prefix origin (codes "https://127.0.0.1")
        || (has_prefix origin (codes "http://localhost")
            || (has_prefix origin (codes "https://localhost")
                || (has_prefix origin (codes "http://[::1]")
                    || has_prefix origin (codes "https://[::1]")))))

-- The headers that corsMiddleware adds.
unfoldable pub cors_headers : Bytes → List (Bytes × Bytes)
cors_headers origin =
    if ltb 0 (length origin) && is_loopback_origin origin
    then (codes "Access-Control-Allow-Origin", origin)
      ∷ (codes "Access-Control-Allow-Credentials", codes "true")
      ∷ (codes "Access-Control-Allow-Methods", codes "GET, POST, PUT, DELETE, OPTIONS")
      ∷ (codes "Access-Control-Allow-Headers", codes "Authorization, Content-Type")
      ∷ []
    else []

-- The part before the last colon, if there is one, and at least one byte before it.
unfoldable pub before_last_colon : Bytes → Option Bytes
before_last_colon [] = none
before_last_colon (c ∷ addr) = elim (before_last_colon addr) [
  | some host ↦ some (c ∷ host)
  | none ↦ if c == 58 then some [] else none
]

abbrev host_or : Bytes → Option Bytes → Bytes
host_or addr (some (c ∷ host)) = c ∷ host
host_or addr _ = addr

unfoldable pub key_by_ip : Request → Bytes
key_by_ip r = host_or r.remote_addr (before_last_colon r.remote_addr)

abbrev ip_key : Request → Bytes
ip_key r = codes "ip:" ++ key_by_ip r

-- With the claims that the request's context has.
unfoldable pub key_by_sub_or_ip : Option Claims → Request → Bytes
key_by_sub_or_ip none r = ip_key r
key_by_sub_or_ip (some c) r =
    if ltb 0 (length c.subject) then codes "sub:" ++ c.subject else ip_key r
