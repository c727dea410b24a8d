-- ===== src/Leases/Extend.antt =====
-- plugin/path_extend_lease.go: how far a lease is extended, and what an extension writes.
use openbao_teradata_secret.Common.{
  ℕ, ◌+◌, ◌*◌, ◌≤◌, ◌<◌, ◌≡◌, Bool, true, false, arith, if◌then◌else◌,
}
use openbao_teradata_secret.Common.Int.{ℤ, pos, negsuc, pos_part, sub_ℕ, lebℤ, ltbℤ, ◌-ℤ◌}
use openbao_teradata_secret.Leases.{seconds, add_time, Times, wanted_ttl, granted_ttl}
use openbao_teradata_secret.Model.{Role, second}
use openbao_teradata_secret.Outcome.{ok, err}
use openbao_teradata_secret.Retry.{Error}

-- The TTL that is left, or the one wanted if that is shorter.
abbrev capped : ℕ → ℕ → ℕ → ℤ → ℤ
capped max since created wanted =
    let remaining = pos max -ℤ sub_ℕ since created in
    if ltbℤ remaining wanted then remaining else wanted

capped_bounds :
    (max since created : ℕ) (wanted : ℤ)
    → lebℤ (capped max since created wanted) (pos 0) ≡ false
    → (add_time since (capped max since created wanted) ≤ created + max)
      × (0 < pos_part (capped max since created wanted))
      × (pos_part (capped max since created wanted) ≤ pos_part wanted)
capped_bounds max since created (pos n) h = ground arith
capped_bounds max since created (negsuc n) h = ground arith

granted_cases :
    (a b : Bool) (x y : Error) (t ttl : ℤ)
    → (if a then err x else if b then err y else ok t) ≡ ok ttl
    → (b ≡ false) × (t ≡ ttl)
granted_cases a b x y t ttl h = ground arith

-- Where the role has a positive maximal TTL, a granted TTL is positive, no longer than the one
-- wanted, and ends no later than the maximum after the creation of the credential.
pub granted_bounds :
    (requested : ℤ) (role : Role) (created m : ℕ) (times : Times) (ttl : ℤ)
    → role.max_ttl ≡ pos m
    → 0 < m
    → granted_ttl requested role created times ≡ ok ttl
    → (add_time times.at_second_since ttl ≤ created + m * second)
      × (0 < pos_part ttl)
      × (pos_part ttl ≤ pos_part (wanted_ttl requested role.default_ttl))
unfolding granted_ttl
granted_bounds requested role created m times ttl e p h =
    let limited : ltbℤ (pos 0) (seconds (pos m)) ≡ true = ground arith in
    let wanted = wanted_ttl requested role.default_ttl in
    let (positive, same) =
      granted_cases _ _ _ _ (capped (m * second) times.at_second_since created wanted) ttl
        (rw (e, limited) at h) in
    rw (← same) (capped_bounds (m * second) times.at_second_since created wanted positive)
