-- ===== src/RateLimit/Isolation.antt =====
-- plugin/ratelimit.go: which bucket decides on a request, and which it changes.
use openbao_teradata_secret.Common.{
  ℕ, ◌≡◌, inl, inr, Bool, not, ◌&&◌, Option, none, some, arith, Option-cases, if◌then◌else◌,
}
use openbao_teradata_secret.Common.Bytes.{Bytes, bytes_eq, bytes_eq_iff}
use openbao_teradata_secret.Common.Map.{lookup, insert}
use openbao_teradata_secret.Common.Map.Laws
use openbao_teradata_secret.RateLimit.{
  Bucket, Request, get_client_ip, is_excluded, Middleware, allow, rate_limit,
}

module _ (b : Bucket) where
  -- The bucket of a client; a client not seen before has a new one.
  abbrev pub bucket : Middleware b → Bytes → b.Limiter
  bucket m key = elim (lookup key m.limiters) [ none ↦ b.new_limiter | some l ↦ l ]

  -- `Allow` is decided by the bucket of the key alone, and changes no other bucket.
  allow_lem :
      (m : Middleware b) (key : Bytes) (now : ℕ)
      → ((allow b m key now).1 ≡ (b.allow now (bucket m key)).1)
        × ((j : Bytes)
            → bucket (allow b m key now).0 j
              ≡ (if bytes_eq key j then (b.allow now (bucket m key)).0 else bucket m j))
  unfolding allow
  allow_lem m key now = elim (Option-cases (lookup key m.limiters)) [
    | inr (l, e) ↦
        (ground arith, λ j. ground (arith, Laws.lookup-insert key j (b.allow now l).0 m.limiters))
    | inl e ↦ (
      ground arith,
      λ j. ground (
        arith,
        Laws.lookup-insert key j (b.allow now b.new_limiter).0
            (insert key b.new_limiter m.limiters),
        Laws.lookup-insert key j b.new_limiter m.limiters,
      ),
    )
  ]

  -- Whether `RateLimit` looks at a request.
  abbrev pub is_limited : Middleware b → Request → Bool
  is_limited m req = m.enabled && not (is_excluded req.path)

  -- RateLimit refuses a request exactly when limiting is on, the path is not excluded and the
  -- bucket of the client has no token; it changes no bucket but that one.
  pub rate_limit_lem :
      (split : Bytes → Option Bytes) (m : Middleware b) (req : Request) (now : ℕ)
      → ((rate_limit b split m req now).1 ≡ (
          if is_limited m req && not (b.allow now (bucket m (get_client_ip split (some req)))).1
          then some (record { key = get_client_ip split (some req) })
          else none))
        × ((j : Bytes)
            → bucket (rate_limit b split m req now).0 j ≡ (
                if is_limited m req && bytes_eq (get_client_ip split (some req)) j
                then (b.allow now (bucket m j)).0
                else bucket m j))
  unfolding rate_limit
  rate_limit_lem split m req now =
      let ip = get_client_ip split (some req) in
      let one = allow_lem m ip now in
      (ground (arith, one.0), λ j. ground (arith, one.1 j, bytes_eq_iff ip j))
