-- ===== src/RateLimit.antt =====
-- plugin/ratelimit.go: `RateLimiter` and `RateLimiterMiddleware`. The token bucket of
-- golang.org/x/time/rate is the parameter `Limiter`, with `NewLimiter` and `Allow`; its rate and
-- burst are what the constructor closes over. `net.SplitHostPort` is the parameter `split`.
pub mod Isolation
use openbao_teradata_secret.Common.{
  ℕ, Bool, true, false, not, ◌&&◌, List, [], ◌∷◌, Option, none, some, any, length, ltb,
  if◌then◌else◌,
}
use openbao_teradata_secret.Common.Bytes.{Bytes, codes, is_empty, has_prefix}
use openbao_teradata_secret.Common.Map.{Map, lookup, insert}

-- A token bucket, with the clock that it reads.
pub record Bucket : Type 1 where
  pub Limiter : Type 0
  pub new_limiter : Limiter
  pub allow : ℕ → Limiter → Limiter × Bool

-- A request: its path, and the remote address of its connection, if it has one.
pub record Request : Type 0 where
  pub path : Bytes
  pub remote_addr : Option Bytes

-- `RateLimitError`, as far as it depends on the request.
pub record RateLimitError : Type 0 where
  pub key : Bytes

-- `getClientIP`; a nil request is `none`, and so is an address that `split` refuses.
unfoldable pub get_client_ip : (Bytes → Option Bytes) → Option Request → Bytes
get_client_ip split none = codes "unknown"
get_client_ip split (some req) = elim req.remote_addr [
  | none ↦ codes "unknown"
  | some addr ↦
      if is_empty addr then codes "unknown" else (elim (split addr) [ none ↦ addr | some ip ↦ ip ])
]

-- `excludePaths`
abbrev pub exclude_paths : List Bytes
exclude_paths = codes "health" ∷ codes "version" ∷ codes "api-version" ∷ codes "pool-stats" ∷ []

-- `isExcluded`
unfoldable pub is_excluded : Bytes → Bool
is_excluded path = any (has_prefix path) exclude_paths

module _ (b : Bucket) where
  -- `RateLimiterMiddleware` with its `RateLimiter`.
  pub record Middleware : Type 0 where
    pub limiters : Map b.Limiter
    pub enabled : Bool

  -- `getLimiter`
  unfoldable pub get_limiter : Middleware → Bytes → Middleware × b.Limiter
  get_limiter m key = elim (lookup key m.limiters) [
    | some limiter ↦ (m, limiter)
    | none ↦ (record m { limiters = insert key b.new_limiter m.limiters }, b.new_limiter)
  ]

  -- `Allow`: the bucket in the map is the one that `limiter.Allow` changes.
  unfoldable pub allow : Middleware → Bytes → ℕ → Middleware × Bool
  unfolding get_limiter
  allow m key now =
      let (m', limiter) = get_limiter m key in
      let (limiter', allowed) = b.allow now limiter in
      (record m' { limiters = insert key limiter' m'.limiters }, allowed)

  -- `cleanupExpired`
  unfoldable pub cleanup_expired : Middleware → Middleware
  cleanup_expired m = if ltb 1000 (length m.limiters) then record m { limiters = [] } else m

  -- `RateLimit`; a nil error is `none`.
  unfoldable pub rate_limit :
      (Bytes → Option Bytes) → Middleware → Request → ℕ → Middleware × Option RateLimitError
  rate_limit split m req now =
      if not m.enabled
      then (m, none)
      else if is_excluded req.path
      then (m, none)
      else (let ip = get_client_ip split (some req) in
          let (m', allowed) = allow m ip now in
          if not allowed then (m', some (record { key = ip })) else (m', none))

  -- `SetEnabled`
  unfoldable pub set_enabled : Middleware → Bool → Middleware
  set_enabled m enabled = record m { enabled = enabled }
