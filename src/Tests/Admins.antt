-- ===== src/Tests/Admins.antt =====
-- The administration API at concrete inputs.
use ace.Prelude.{
  min, leb, ℕ, ◌+◌, ◌*◌, ◌-◌, ◌<◌, ◌≤◌, ◌≡◌, ◌≢◌, refl, ap, ◌∙◌, sym, Bool, true, false, Option,
  none, some, [], arith, length, ltb, ◌==◌, if◌then◌else◌, inl, inr, All, lt→ltb, Bool-cases, subst,
  ◌&&◌, ==_iff, if_true, if_false, ap₂,
}
use ace.Bytes.{Bytes, codes}
use ace.Bytes.Equal.{bytes_eq, bytes_eq_refl, bytes_eq_sound}
use ace.Admin.{
  Method, post_method, get_method, Request, Claims, banned, login_body, write_json, has_prefix,
  key_by_sub_or_ip, is_loopback_origin,
}
use ace.Admin.Limiter.{Bucket, LimiterEntry, RateLimiter, entry_of, allow, collect}
use ace.Admin.Limiter.Collect.{IsBucket, request, empty, allow-collect}
use ace.Admin.Auth.{
  Jwt, AuthStore, second, token_ttl, extract_bearer, parse_token, handle_login, auth_middleware,
  role_gm, role_in, require_role, is_space,
}
use ace.Admin.Login.{IsJwt, handle_login-auth_middleware}
use ace.Admin.Router.{ban_player, api, Server, new_router, serve, serve_api, roles_of}
use ace.Admin.Guarded.{MayUse, new_router-guarded}

-- A bucket of sixty tokens that gets one per second, as its amount when it was last used.
abbrev full : ℕ
full = 60000000000

abbrev one : ℕ
one = 1000000000

abbrev level_of : Option (ℕ × ℕ) → ℕ → ℕ
level_of none now = full
level_of (some (amount, last)) now = min full (amount + (now - last))

abbrev bucket : Bucket
bucket = record {
  Tokens = Option (ℕ × ℕ);
  fresh = none;
  take_token = λ t now. (
    some (if leb one (level_of t now) then level_of t now - one else level_of t now, now),
    leb one (level_of t now),
  );
}

abbrev UsedAt : Option (ℕ × ℕ) → ℕ → Type 0
UsedAt none seen = Unit
UsedAt (some (amount, last)) seen = (last ≡ seen) × (amount ≤ full)

level_of_full : (t : Option (ℕ × ℕ)) (now : ℕ) → level_of t now ≤ full
level_of_full none now = omega arith
level_of_full (some (amount, last)) now = omega arith

lowered : (n : ℕ) → n ≤ full → (if leb one n then n - one else n) ≤ full
lowered n h = ground arith

level_of_refilled :
    (t : Option (ℕ × ℕ)) (seen now : ℕ)
    → UsedAt t seen
    → seen ≤ now
    → level_of t now ≡ min full (level_of t seen + 1 * (now - seen))
level_of_refilled none seen now u h = omega arith
level_of_refilled (some (amount, last)) seen now u h = omega arith

level_now : (amount now : ℕ) → amount ≤ full → min full (amount + (now - now)) ≡ amount
level_now amount now h = omega arith

abbrev bucket-IsBucket : IsBucket bucket
bucket-IsBucket = record {
  full = full;
  one = one;
  rate = 1;
  level = level_of;
  UsedBy = UsedAt;
  used = λ t now. (refl, lowered (level_of t now) (level_of_full t now));
  full_at_first = λ now. refl;
  refilled = level_of_refilled;
  allowed = λ t now. refl;
  taken = λ t now.
      level_now (if leb one (level_of t now) then level_of t now - one else level_of t now) now
        (lowered (level_of t now) (level_of_full t now));
}

abbrev ip : Bytes
ip = codes "ip:10.0.0.1"

abbrev limiter : RateLimiter bucket
limiter = (allow bucket [] ip 5).0

allow-collect_example :
    let plain = allow bucket limiter ip 9000000000000 in
    let collected = allow bucket (collect bucket limiter 8000000000000) ip 9000000000000 in
    (collected.1 ≡ plain.1)
    × ((d : LimiterEntry bucket) × (e : LimiterEntry bucket) × (entry_of bucket collected.0 ip
          ≡ some d)
        × (entry_of bucket plain.0 ip ≡ some e)
        × (level_of d.lim 9000000000001 ≡ level_of e.lim 9000000000001))
    × (entry_of bucket plain.0 [] ≡ entry_of bucket limiter [])
allow-collect_example =
    allow-collect bucket bucket-IsBucket limiter 8000000000000 9000000000000 9000000000001 ip []
      (omega arith) (request [] ip 5 empty) (omega arith) (omega arith)
      (λ e. ground (arith, ap length e))

-- Only one login's claims are ever signed, and its token is one letter.
abbrev eve : Claims
eve = record {
  role = role_gm;
  subject = codes "eve";
  issued_at = 9;
  expires_at = 7209;
  jti = [];
  issuer = codes "aion-admin";
}

abbrev ticket : Bytes
ticket = codes "T"

abbrev claims_of : Bytes → Bytes → ℕ → ℕ → Bytes → Bytes → Claims
claims_of role subject issued_at expires_at jti issuer = record {
  role = role;
  subject = subject;
  issued_at = issued_at;
  expires_at = expires_at;
  jti = jti;
  issuer = issuer;
}

abbrev is_eve : Claims → Bool
is_eve c =
    bytes_eq c.role eve.role
    && (bytes_eq c.subject eve.subject
        && (c.issued_at == eve.issued_at
            && (c.expires_at == eve.expires_at
                && (bytes_eq c.jti eve.jti && bytes_eq c.issuer eve.issuer))))

both : (a b : Bool) → (a && b) ≡ true → (a ≡ true) × (b ≡ true)
both true b h = (refl, h)
both false b h = absurd (ground (arith, h))

is_eve_sound : (c : Claims) → is_eve c ≡ true → c ≡ eve
is_eve_sound c h =
    let (role, h1) = both (bytes_eq c.role eve.role) _ h in
    let (subject, h2) = both (bytes_eq c.subject eve.subject) _ h1 in
    let (issued, h3) = both (c.issued_at == eve.issued_at) _ h2 in
    let (expires, h4) = both (c.expires_at == eve.expires_at) _ h3 in
    let (jti, issuer) = both (bytes_eq c.jti eve.jti) _ h4 in
    ap (λ x. claims_of x c.subject c.issued_at c.expires_at c.jti c.issuer)
      (bytes_eq_sound c.role eve.role role)
    ∙ ap (λ x. claims_of eve.role x c.issued_at c.expires_at c.jti c.issuer)
        (bytes_eq_sound c.subject eve.subject subject)
    ∙ ap (λ x. claims_of eve.role eve.subject x c.expires_at c.jti c.issuer)
        ((==_iff c.issued_at eve.issued_at).0 issued)
    ∙ ap (λ x. claims_of eve.role eve.subject eve.issued_at x c.jti c.issuer)
        ((==_iff c.expires_at eve.expires_at).0 expires)
    ∙ ap (λ x. claims_of eve.role eve.subject eve.issued_at eve.expires_at x c.issuer)
        (bytes_eq_sound c.jti eve.jti jti)
    ∙ ap (claims_of eve.role eve.subject eve.issued_at eve.expires_at eve.jti)
        (bytes_eq_sound c.issuer eve.issuer issuer)

abbrev jwt : Jwt
jwt = record {
  alg_of = λ raw. if bytes_eq raw ticket then some (codes "HS256") else none;
  valid = λ secret now raw.
      if bytes_eq raw ticket && ltb now (eve.expires_at * second) then some eve else none;
  sign = λ secret c. if is_eve c then some ticket else none;
}

-- What was signed is eve's, and the token is the letter.
signed_eve :
    (secret : Bytes) (c : Claims) (t : Bytes)
    → jwt.sign secret c ≡ some t
    → (c ≡ eve) × (t ≡ ticket)
signed_eve secret c t h = elim (Bool-cases (is_eve c)) [
  | inl e ↦ (is_eve_sound c e, some_ticket t (sym (if_true (is_eve c) _ _ e) ∙ h))
  | inr n ↦ absurd (nothing t (sym (if_false (is_eve c) _ _ n) ∙ h))
]
  where
    some_ticket : (u : Bytes) → some ticket ≡ some u → u ≡ ticket
    some_ticket u e = ground (arith, e)

    nothing : (u : Bytes) → none ≡ some u → ⊥
    nothing u e = ground (arith, e)

ticket-text : (length ticket ≢ 0) × All (λ c. is_space c ≡ false) ticket
ticket-text = (λ e. ground (arith, e), (refl, tt))

ticket-valid :
    (secret : Bytes) (now : ℕ)
    → now < eve.expires_at * second
    → jwt.valid secret now ticket ≡ some eve
ticket-valid secret now h =
    if_true (bytes_eq ticket ticket && ltb now (eve.expires_at * second)) _ _
      (ap₂ ◌&&◌ (bytes_eq_refl ticket) (lt→ltb now (eve.expires_at * second) h))

ticket-alg : jwt.alg_of ticket ≡ some (codes "HS256")
ticket-alg = if_true (bytes_eq ticket ticket) _ _ (bytes_eq_refl ticket)

abbrev jwt-IsJwt : IsJwt jwt
jwt-IsJwt = record {
  sign-alg = λ secret c t h. ap jwt.alg_of (signed_eve secret c t h).1 ∙ ticket-alg;
  sign-valid = λ secret c t now h lt.
      let (c_is, t_is) = signed_eve secret c t h in
      ap (jwt.valid secret now) t_is
      ∙ ticket-valid secret now (subst (λ (d : Claims). now < d.expires_at * second) c_is lt)
      ∙ ap some (sym c_is);
  sign-text = λ secret c t h.
      subst (λ u. (length u ≢ 0) × All (λ x. is_space x ≡ false) u)
        (sym (signed_eve secret c t h).1) ticket-text;
}

abbrev store : AuthStore
store = record {
  verify = λ login password. if bytes_eq password (codes "pw") then some role_gm else none;
  secret = codes "0123456789abcdef0123456789abcdef";
}

abbrev ask : Method → Bytes → Option Bytes → Request
ask method authorization cookie = record {
  method = method;
  remote_addr = codes "10.0.0.1:5";
  origin = [];
  authorization = authorization;
  cookie = cookie;
  body = [];
}

handle_login-auth_middleware_example :
    (handle_login jwt store [] 9500000000
        (λ body. some (codes "eve", codes "pw"))
        (ask post_method [] none)
      ≡ record {
        status = 200;
        headers = [];
        set_cookie = some (ticket, 9500000000 + token_ttl);
        body = login_body ticket 7209 role_gm;
      })
    × (auth_middleware jwt store 7208999999999
          (λ c. write_json 202 (banned [] c.subject))
          (ask get_method [] (some ticket))
        ≡ write_json 202 (banned [] (codes "eve")))
unfolding bytes_eq has_prefix
handle_login-auth_middleware_example =
    handle_login-auth_middleware jwt jwt-IsJwt store [] 9500000000 (codes "eve") role_gm ticket refl
      (λ body. some (codes "eve", codes "pw")) (ask post_method [] none)
      (ask get_method [] (some ticket)) (codes "pw") 7208999999999
      (λ c. write_json 202 (banned [] c.subject)) refl refl (omega arith) (inr (refl, refl))

abbrev server : Server bucket jwt
server = record { auth = store; login_limit = []; api_limit = [] }

new_router-guarded_example :
    (claims : Claims) × ((allow bucket []
        (key_by_sub_or_ip none (ask post_method [] (some ticket)))
        5000).1
      ≡ true)
    × (jwt.alg_of (extract_bearer (ask post_method [] (some ticket))) ≡ some (codes "HS256"))
    × (jwt.valid store.secret 5000 (extract_bearer (ask post_method [] (some ticket)))
        ≡ some claims)
    × MayUse (ban_player (codes "9")) claims.role
    × ((new_router bucket jwt
          (λ body. none)
          []
          server
          5000
          (ask post_method [] (some ticket))
          (api (ban_player (codes "9")))).1.body
        ≡ (serve_api (ban_player (codes "9")) claims).body)
unfolding new_router serve allow entry_of auth_middleware extract_bearer parse_token require_role
    role_in roles_of serve_api bytes_eq has_prefix
new_router-guarded_example =
    new_router-guarded jwt bucket (λ body. none) [] server 5000 (ask post_method [] (some ticket))
      (ban_player (codes "9")) (λ e. ground (arith, e)) (omega arith)

-- An origin that only starts like a loopback address gets the CORS headers.
foreign_origin : is_loopback_origin (codes "http://127.0.0.1.evil.example") ≡ true
unfolding is_loopback_origin has_prefix
foreign_origin = refl
