-- ===== src/Admin/Limiter.antt =====
-- server/src/cmd/admin/middleware.go, rateLimiter: a token bucket for each key, and the collection of
-- idle ones. A bucket is a parameter: `fresh` is rate.NewLimiter of the limiter's rate and burst, and
-- `take_token` is Allow at a time. A map is an association list.
pub mod Collect
use ace.Prelude.{
  ℕ, ◌+◌, ◌-◌, ◌*◌, ◌<◌, ◌≤◌, ◌≡◌, ◌≢◌, refl, ap, ◌∙◌, sym, subst, Bool, true, false, Option, none,
  some, List, [], ◌∷◌, arith, ltb, ltb→lt, if◌then◌else◌, if_true, if_false, Bool-cases,
  Option-cases, inl, inr, ◌⊎◌,
}
use ace.Bytes.{Bytes}
use ace.Bytes.Equal.{bytes_eq, bytes_eq_refl, bytes_eq_sound, bytes_eq_ne}

pub record Bucket : Type 1 where
  pub Tokens : Type 0
  pub fresh : Tokens
  pub take_token : Tokens → ℕ → Tokens × Bool

abbrev pub idle_evict_after : ℕ
idle_evict_after = 30 * 60 * 1000000000

module _ (k : Bucket) where
  pub record LimiterEntry : Type 0 where
    pub lim : k.Tokens
    pub last_seen : ℕ

  abbrev pub RateLimiter : Type 0
  RateLimiter = List (Bytes × LimiterEntry)

  unfoldable pub entry_of : RateLimiter → Bytes → Option LimiterEntry
  entry_of [] key = none
  entry_of (p ∷ entries) key = if bytes_eq p.0 key then some p.1 else entry_of entries key

  unfoldable pub put_entry : RateLimiter → Bytes → LimiterEntry → RateLimiter
  put_entry [] key e = (key, e) ∷ []
  put_entry (p ∷ entries) key e =
      let rest = put_entry entries key e in
      if bytes_eq p.0 key then (key, e) ∷ entries else p ∷ rest

  abbrev pub tokens_or_fresh : Option LimiterEntry → k.Tokens
  tokens_or_fresh none = k.fresh
  tokens_or_fresh (some e) = e.lim

  -- Whether the key gets a token now.
  unfoldable pub allow : RateLimiter → Bytes → ℕ → RateLimiter × Bool
  allow entries key now =
      let (lim, ok) = k.take_token (tokens_or_fresh (entry_of entries key)) now in
      (put_entry entries key (record { lim = lim; last_seen = now }), ok)

  -- One tick of the collection; times do not run backwards.
  unfoldable pub collect : RateLimiter → ℕ → RateLimiter
  collect [] now = []
  collect (p ∷ entries) now =
      let rest = collect entries now in
      if ltb idle_evict_after (now - p.1.last_seen) then rest else p ∷ rest
