-- ===== src/Admin/Guarded.antt =====
-- Who gets an answer from the API.
use ace.Prelude.{
  ℕ, ◌<◌, ◌≡◌, ◌≢◌, ◌⊎◌, refl, ap, ◌∙◌, sym, true, false, Option, none, some, List, [], ◌∷◌, arith,
  length, ◌==◌, if_true, if_false, Bool-cases, Option-cases, inl, inr,
}
use ace.Bytes.{Bytes, codes}
use ace.Bytes.Equal.{bytes_eq, bytes_eq_sound}
use ace.Admin.{
  Method, get_method, post_method, options_method, other_method, Request, Claims, Response,
  error_body, write_json, key_by_sub_or_ip,
}
use ace.Admin.Limiter.{Bucket, allow}
use ace.Admin.Auth.{
  Jwt, AuthStore, role_superadmin, role_gm, role_readonly, extract_bearer, parse_token,
  auth_middleware, role_in, require_role,
}
use ace.Admin.Router.{
  ApiEndpoint, list_players, get_player, ban_player, kick_player, server_stats, api_not_found, api,
  roles_of, serve_api, guarded, rate_limited, Server, serve, cors_answer, new_router,
}

-- Reading is for all three roles, changing for two of them.
abbrev pub MayUse : ApiEndpoint → Bytes → Type 0
MayUse (ban_player id) role = (role ≡ role_superadmin) ⊎ (role ≡ role_gm)
MayUse (kick_player id) role = (role ≡ role_superadmin) ⊎ (role ≡ role_gm)
MayUse api_not_found role = ⊥
MayUse _ role = (role ≡ role_superadmin) ⊎ ((role ≡ role_gm) ⊎ (role ≡ role_readonly))

role_in_two : (a b role : Bytes) → role_in (a ∷ b ∷ []) role ≡ true → (role ≡ a) ⊎ (role ≡ b)
unfolding role_in
role_in_two a b role h = elim (Bool-cases (bytes_eq a role)) [
  | inl e ↦ inl (sym (bytes_eq_sound a role e))
  | inr e ↦ elim (Bool-cases (bytes_eq b role)) [
    | inl f ↦ inr (sym (bytes_eq_sound b role f))
    | inr f ↦ absurd (ground arith)
  ]
]

role_in_three :
    (a b c role : Bytes)
    → role_in (a ∷ b ∷ c ∷ []) role ≡ true
    → (role ≡ a) ⊎ ((role ≡ b) ⊎ (role ≡ c))
role_in_three a b c role h = elim (Bool-cases (bytes_eq a role)) [
  | inl e ↦ inl (sym (bytes_eq_sound a role e))
  | inr e ↦ inr (role_in_two b c role (first_is_not a b c role e ∙ h))
]
  where
    first_is_not :
        (x y z r : Bytes)
        → bytes_eq x r ≡ false
        → role_in (y ∷ z ∷ []) r ≡ role_in (x ∷ y ∷ z ∷ []) r
    first_is_not x y z r n = unfold role_in in ground arith

-- An endpoint that succeeds for some claims is one their role may use.
require_role-Ok :
    (allowed : List Bytes) (next : Claims → Response) (claims : Claims)
    → (require_role allowed next (some claims)).status < 400
    → (role_in allowed claims.role ≡ true) × (require_role allowed next (some claims) ≡ next claims)
unfolding require_role
require_role-Ok allowed next claims h = elim (Bool-cases (role_in allowed claims.role)) [
  | inl e ↦ (e, if_true (role_in allowed claims.role) _ _ e)
  | inr e ↦ absurd (
      omega (
        arith,
        h,
        ap (λ (r : Response). r.status)
            (if_false (role_in allowed claims.role) (next claims)
              (write_json 403 (error_body (codes "forbidden"))) e),
      ))
]

guarded-Ok :
    (e : ApiEndpoint) (claims : Claims)
    → (guarded e claims).status < 400
    → MayUse e claims.role × (guarded e claims ≡ serve_api e claims)
unfolding roles_of
guarded-Ok list_players claims h =
    let (is, same) = require_role-Ok (roles_of list_players) (serve_api list_players) claims h in
    (role_in_three role_superadmin role_gm role_readonly claims.role is, same)
guarded-Ok (get_player id) claims h =
    let (is, same) =
      require_role-Ok (roles_of (get_player id)) (serve_api (get_player id)) claims h in
    (role_in_three role_superadmin role_gm role_readonly claims.role is, same)
guarded-Ok (ban_player id) claims h =
    let (is, same) =
      require_role-Ok (roles_of (ban_player id)) (serve_api (ban_player id)) claims h in
    (role_in_two role_superadmin role_gm claims.role is, same)
guarded-Ok (kick_player id) claims h =
    let (is, same) =
      require_role-Ok (roles_of (kick_player id)) (serve_api (kick_player id)) claims h in
    (role_in_two role_superadmin role_gm claims.role is, same)
guarded-Ok server_stats claims h =
    let (is, same) = require_role-Ok (roles_of server_stats) (serve_api server_stats) claims h in
    (role_in_three role_superadmin role_gm role_readonly claims.role is, same)
guarded-Ok api_not_found claims h = absurd (omega (arith, h))

module _ (jwt : Jwt) where
  auth_middleware-Ok :
      (store : AuthStore) (now : ℕ) (next : Claims → Response) (r : Request)
      → (auth_middleware jwt store now next r).status < 400
      → (claims : Claims) × (parse_token jwt store now (extract_bearer r) ≡ some claims)
        × (auth_middleware jwt store now next r ≡ next claims)
  unfolding auth_middleware
  auth_middleware-Ok store now next r h = elim (Bool-cases (length (extract_bearer r) == 0)) [
    | inl none_given ↦ absurd (ground arith)
    | inr given ↦ elim (Option-cases (parse_token jwt store now (extract_bearer r))) [
      | inl bad ↦ absurd (ground arith)
      | inr good ↦ (good.0, good.1, ground arith)
    ]
  ]

  -- A token that is accepted names HS256, and the library finds it valid under the store's secret.
  parse_token-valid :
      (store : AuthStore) (now : ℕ) (raw : Bytes) (claims : Claims)
      → parse_token jwt store now raw ≡ some claims
      → (jwt.alg_of raw ≡ some (codes "HS256")) × (jwt.valid store.secret now raw ≡ some claims)
  unfolding parse_token
  parse_token-valid store now raw claims h = elim (Option-cases (jwt.alg_of raw)) [
    | inl missing ↦ absurd (ground arith)
    | inr named ↦ elim (Bool-cases (bytes_eq named.0 (codes "HS256"))) [
      | inl e ↦ (named.1 ∙ ap some (bytes_eq_sound named.0 (codes "HS256") e), ground arith)
      | inr e ↦ absurd (ground arith)
    ]
  ]

  module _ (k : Bucket) (decode : Bytes → Option (Bytes × Bytes)) (jti : Bytes) where
    serve-Ok :
        (s : Server k jwt) (now : ℕ) (r : Request) (e : ApiEndpoint)
        → (serve k jwt decode jti s now r (api e)).1.status < 400
        → ((allow k s.api_limit (key_by_sub_or_ip none r) now).1 ≡ true)
          × (serve k jwt decode jti s now r (api e)).1
            ≡ auth_middleware jwt s.auth now (guarded e) r
    unfolding serve
    serve-Ok s now r e h =
        let ok = (allow k s.api_limit (key_by_sub_or_ip none r) now).1 in
        let inner = auth_middleware jwt s.auth now (guarded e) r in
        elim (Bool-cases ok) [
          | inl yes' ↦ (yes', if_true ok inner rate_limited yes')
          | inr no' ↦ absurd (
              omega
                (arith, h, ap (λ (t : Response). t.status) (if_false ok inner rate_limited no')))
        ]

    cors_answer-status :
        (m : Method) (s : Server k jwt) (origin : Bytes) (served : Server k jwt × Response)
        → m ≢ options_method
        → ((cors_answer k jwt decode jti m s origin served).1.status ≡ served.1.status)
          × ((cors_answer k jwt decode jti m s origin served).1.body ≡ served.1.body)
    cors_answer-status get_method s origin served ne = (refl, refl)
    cors_answer-status post_method s origin served ne = (refl, refl)
    cors_answer-status options_method s origin served ne = absurd (ne refl)
    cors_answer-status other_method s origin served ne = (refl, refl)

    -- A request to the API, other than OPTIONS, that gets a status below 400 had a token from its
    -- rate limiter, which goes by the client's address, and carries a token, in the header or the
    -- cookie, that names HS256 and that the library finds valid at that time under the server's
    -- secret; its role is one of the endpoint's, superadmin or gm for banning and kicking, and the
    -- body is the handler's for these claims.
    pub new_router-guarded :
        (s : Server k jwt) (now : ℕ) (r : Request) (e : ApiEndpoint)
        → r.method ≢ options_method
        → (new_router k jwt decode jti s now r (api e)).1.status < 400
        → (claims : Claims) × ((allow k s.api_limit (key_by_sub_or_ip none r) now).1 ≡ true)
          × (jwt.alg_of (extract_bearer r) ≡ some (codes "HS256"))
          × (jwt.valid s.auth.secret now (extract_bearer r) ≡ some claims)
          × MayUse e claims.role
          × ((new_router k jwt decode jti s now r (api e)).1.body ≡ (serve_api e claims).body)
    unfolding new_router
    new_router-guarded s now r e ne h =
        let served = serve k jwt decode jti s now r (api e) in
        let (same_status, same_body) = cors_answer-status r.method s r.origin served ne in
        let (let_in, inner) = serve-Ok s now r e (omega (arith, h, same_status)) in
        let status_of : Response → ℕ = λ t. t.status in
        let (claims, parsed, next) =
          auth_middleware-Ok s.auth now (guarded e) r
            (omega (arith, h, same_status, ap status_of inner)) in
        let (alg, valid) = parse_token-valid s.auth now (extract_bearer r) claims parsed in
        let (may, answer) =
          guarded-Ok e claims (omega (arith, h, same_status, ap status_of (inner ∙ next))) in
        (
          claims,
          let_in,
          alg,
          valid,
          may,
          same_body ∙ ap (λ (t : Response). t.body) (inner ∙ next ∙ answer),
        )
