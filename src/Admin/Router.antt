-- ===== src/Admin/Router.antt =====
-- server/src/cmd/admin/router.go: which middlewares stand before which handler. The matching of the
-- path is go-chi's: an `Endpoint` is what it finds for a request, with the {id} of the path.
-- Recoverer, RequestID and Logger pass a request on and are left out.
use ace.Prelude.{ℕ, Option, none, some, List, [], ◌∷◌, ◌++◌, if◌then◌else◌}
use ace.Bytes.{Bytes, codes}
use ace.Admin.{
  Method, options_method, Request, Claims, Response, error_body, status_ok, metrics, no_body,
  players, player, banned, kicked, stats, write_json, cors_headers, key_by_ip, key_by_sub_or_ip,
}
use ace.Admin.Limiter.{Bucket, RateLimiter, allow}
use ace.Admin.Auth.{
  Jwt, AuthStore, role_superadmin, role_gm, role_readonly, handle_login, auth_middleware,
  require_role,
}

pub data ApiEndpoint : Type 0 where
  list_players : ApiEndpoint
  get_player : Bytes → ApiEndpoint
  ban_player : Bytes → ApiEndpoint
  kick_player : Bytes → ApiEndpoint
  server_stats : ApiEndpoint
  -- a path under /api/v1 that nothing matches
  api_not_found : ApiEndpoint

pub data Endpoint : Type 0 where
  healthz : Endpoint
  metrics_page : Endpoint
  login : Endpoint
  api : ApiEndpoint → Endpoint
  not_found : Endpoint

-- The roles that may use an endpoint.
unfoldable pub roles_of : ApiEndpoint → List Bytes
roles_of (ban_player id) = role_superadmin ∷ role_gm ∷ []
roles_of (kick_player id) = role_superadmin ∷ role_gm ∷ []
roles_of _ = role_superadmin ∷ role_gm ∷ role_readonly ∷ []

abbrev pub not_found_page : Response
not_found_page = write_json 404 no_body

-- The handlers, which name the subject of the claims in the context.
unfoldable pub serve_api : ApiEndpoint → Claims → Response
serve_api list_players claims = write_json 200 players
serve_api (get_player id) claims = write_json 200 (player id)
serve_api (ban_player id) claims = write_json 202 (banned id claims.subject)
serve_api (kick_player id) claims = write_json 202 (kicked id claims.subject)
serve_api server_stats claims = write_json 200 stats
serve_api api_not_found claims = not_found_page

abbrev pub guarded : ApiEndpoint → Claims → Response
guarded api_not_found claims = not_found_page
guarded e claims = require_role (roles_of e) (serve_api e) (some claims)

abbrev pub rate_limited : Response
rate_limited = record {
  status = 429;
  headers = (codes "Retry-After", codes "1") ∷ [];
  set_cookie = none;
  body = error_body (codes "rate limited");
}

module _ (k : Bucket) (jwt : Jwt) where
  -- routerDeps, with the two limiters' state.
  pub record Server : Type 0 where
    pub auth : AuthStore
    pub login_limit : RateLimiter k
    pub api_limit : RateLimiter k

  module _ (decode : Bytes → Option (Bytes × Bytes)) (jti : Bytes) where
    -- The limiter of the API runs before the authentication, so the context has no claims yet.
    unfoldable pub serve : Server → ℕ → Request → Endpoint → Server × Response
    serve s now r healthz = (s, write_json 200 status_ok)
    serve s now r metrics_page = (s, write_json 200 metrics)
    serve s now r not_found = (s, not_found_page)
    serve s now r login =
        let (login_limit, ok) = allow k s.login_limit (key_by_ip r) now in
        (
          record s { login_limit = login_limit },
          if ok then handle_login jwt s.auth jti now decode r else rate_limited,
        )
    serve s now r (api e) =
        let (api_limit, ok) = allow k s.api_limit (key_by_sub_or_ip none r) now in
        (
          record s { api_limit = api_limit },
          if ok then auth_middleware jwt s.auth now (guarded e) r else rate_limited,
        )

    -- corsMiddleware around what is served; an OPTIONS request ends there.
    abbrev pub cors_answer : Method → Server → Bytes → Server × Response → Server × Response
    cors_answer options_method s origin served =
        (s, record (write_json 204 no_body) { headers = cors_headers origin })
    cors_answer _ s origin served =
        (served.0, record served.1 { headers = cors_headers origin ++ served.1.headers })

    unfoldable pub new_router : Server → ℕ → Request → Endpoint → Server × Response
    new_router s now r e = cors_answer r.method s r.origin (serve s now r e)
