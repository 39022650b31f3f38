-- ===== src/Admin/Login.antt =====
-- A login, and the requests that its token is for.
use ace.Prelude.{
  ℕ, ◌+◌, ◌*◌, ◌/◌, ◌<◌, ◌≡◌, ◌≢◌, ◌⊎◌, refl, ap, ◌∙◌, sym, true, false, Option, some, [], ◌∷◌,
  ◌++◌, append-nil, arith, length, drop, All, ◌==◌, if_true, if_false, inl, inr,
}
use mathlib.Core.List.{reverse, reverse_aux}
use ace.Bytes.{Bytes, codes}
use ace.Bytes.Equal.{bytes_eq_refl}
use ace.Admin.{Request, Claims, Response, login_body, has_prefix}
use ace.Admin.Auth.{
  Jwt, AuthStore, second, token_ttl, is_space, trim_left, trim_space, bearer, extract_bearer,
  sign_token, parse_token, handle_login, auth_middleware,
}

abbrev NoSpace : Bytes → Type 0
NoSpace = All (λ c. is_space c ≡ false)

-- A signed token names HS256, is not empty and has no space, and is valid under the secret it was
-- signed with before the second in which it expires.
pub record IsJwt (jwt : Jwt) : Type 0 where
  pub sign-alg :
      (secret : Bytes) (c : Claims) (t : Bytes)
      → jwt.sign secret c ≡ some t
      → jwt.alg_of t ≡ some (codes "HS256")
  pub sign-valid :
      (secret : Bytes) (c : Claims) (t : Bytes) (now : ℕ)
      → jwt.sign secret c ≡ some t
      → now < c.expires_at * second
      → jwt.valid secret now t ≡ some c
  pub sign-text :
      (secret : Bytes) (c : Claims) (t : Bytes)
      → jwt.sign secret c ≡ some t
      → (length t ≢ 0) × All (λ c. is_space c ≡ false) t

reverse_aux-NoSpace : (s r : Bytes) → NoSpace s → NoSpace r → NoSpace (reverse_aux s r)
reverse_aux-NoSpace [] r h k = k
reverse_aux-NoSpace (c ∷ s) r h k = reverse_aux-NoSpace s (c ∷ r) h.1 (h.0, k)

reverse_twice : (s r u : Bytes) → reverse_aux (reverse_aux s r) u ≡ reverse_aux r (s ++ u)
reverse_twice [] r u = refl
reverse_twice (c ∷ s) r u = reverse_twice s (c ∷ r) u

trim_left_lem : (s : Bytes) → NoSpace s → trim_left s ≡ s
unfolding trim_left
trim_left_lem [] h = refl
trim_left_lem (c ∷ s) h = if_false (is_space c) (trim_left s) (c ∷ s) h.0

trim_space_lem : (s : Bytes) → NoSpace s → trim_space s ≡ s
unfolding trim_space
trim_space_lem s h =
    ap (λ t. reverse (trim_left (reverse t))) (trim_left_lem s h)
    ∙ ap reverse (trim_left_lem (reverse s) (reverse_aux-NoSpace s [] h tt))
    ∙ reverse_twice s [] []
    ∙ append-nil s

-- A request presents a token in the header, or, without a bearer header, in the cookie.
abbrev pub Presents : Request → Bytes → Type 0
Presents r t =
    (r.authorization ≡ bearer ++ t)
    ⊎ ((has_prefix r.authorization bearer ≡ false) × (r.cookie ≡ some t))

bearer-prefix : (t : Bytes) → has_prefix (bearer ++ t) bearer ≡ true
unfolding has_prefix
bearer-prefix t = refl

extract_bearer_lem : (r : Request) (t : Bytes) → NoSpace t → Presents r t → extract_bearer r ≡ t
unfolding extract_bearer
extract_bearer_lem r t h (inl header) =
    if_true (has_prefix r.authorization bearer) _ _
      (ap (λ a. has_prefix a bearer) header ∙ bearer-prefix t)
    ∙ ap (λ a. trim_space (drop 7 a)) header
    ∙ trim_space_lem t h
extract_bearer_lem r t h (inr cookie) = ground (arith, cookie.0, cookie.1)

module _ (jwt : Jwt) (law : IsJwt jwt) (store : AuthStore) (jti : Bytes) (now : ℕ)
    (user role t : Bytes) where
  -- What a login signs.
  abbrev pub login_claims : Claims
  login_claims = record {
    role = role;
    subject = user;
    issued_at = now / second;
    expires_at = (now + token_ttl) / second;
    jti = jti;
    issuer = codes "aion-admin";
  }

  module _ (signed : jwt.sign store.secret login_claims ≡ some t) where
    sign_token_lem : sign_token jwt store jti now user role ≡ some (t, now + token_ttl)
    unfolding sign_token
    sign_token_lem = ground (arith, signed)

    parse_token_lem :
        (later : ℕ)
        → later < (now + token_ttl) / second * second
        → parse_token jwt store later t ≡ some login_claims
    unfolding parse_token
    parse_token_lem later h =
        let alg = law.sign-alg store.secret login_claims t signed in
        let valid = law.sign-valid store.secret login_claims t later signed h in
        ground (arith, alg, valid, bytes_eq_refl (codes "HS256"))

    auth_middleware_lem :
        (later : ℕ) (next : Claims → Response) (r : Request)
        → later < (now + token_ttl) / second * second
        → Presents r t
        → auth_middleware jwt store later next r ≡ next login_claims
    unfolding auth_middleware
    auth_middleware_lem later next r h shown =
        let (size, text) = law.sign-text store.secret login_claims t signed in
        let raw = extract_bearer_lem r t text shown in
        let parsed = ap (parse_token jwt store later) raw ∙ parse_token_lem later h in
        let there : (length (extract_bearer r) == 0) ≡ false =
          not_empty (extract_bearer r) (λ e. size (sym (ap length raw) ∙ e)) in
        ground (arith, there, parsed)
      where
        not_empty : (s : Bytes) → length s ≢ 0 → (length s == 0) ≡ false
        not_empty s n = ground (arith, n)

    -- A login whose user and password the store accepts answers 200 with the signed token in the
    -- cookie and in the body, with the role; and until the second begins in which two hours are over,
    -- a request that presents the token, in the header or in the cookie, reaches the handler behind
    -- the authentication with this user's claims, whose times are cut to whole seconds. The token
    -- is one that signing these claims gave, by a JWT library under whose laws a signed token is
    -- valid until it expires.
    pub handle_login-auth_middleware :
        (decode : Bytes → Option (Bytes × Bytes)) (r1 r2 : Request) (password : Bytes)
        → (later : ℕ) (next : Claims → Response) → decode r1.body ≡ some (user, password)
        → store.verify user password ≡ some role
        → later < (now + token_ttl) / second * second
        → Presents r2 t
        → (handle_login jwt store jti now decode r1 ≡ record {
          status = 200;
          headers = [];
          set_cookie = some (t, now + token_ttl);
          body = login_body t ((now + token_ttl) / second) role;
        })
          × (auth_middleware jwt store later next r2 ≡ next login_claims)
    unfolding handle_login
    handle_login-auth_middleware decode r1 r2 password later next json known h shown =
        (ground (arith, json, known, sign_token_lem), auth_middleware_lem later next r2 h shown)
