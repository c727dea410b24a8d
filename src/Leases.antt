-- ===== src/Leases.antt =====
-- plugin/path_extend_lease.go: `pathExtendLeaseHandler`. Durations are integers of nanoseconds; the
-- source's are int64, and TTLs beyond 292 years, which would overflow them, are left out. The
-- readings of the clock are fields of `Times`, in the order of the calls.
pub mod Extend
pub mod Extended
use openbao_teradata_secret.Common.{
  ℕ, suc, ◌+◌, ◌-◌, ◌*◌, Bool, true, false, Option, none, some, if◌then◌else◌,
}
use openbao_teradata_secret.Common.Bytes.{Bytes, codes, is_empty}
use openbao_teradata_secret.Common.Int.{ℤ, pos, negsuc, pos_part, sub_ℕ, lebℤ, ltbℤ, ◌+ℤ◌, ◌-ℤ◌}
use openbao_teradata_secret.Credentials.{
  World, SetTimes, get_credential_by_lease_id, store_credential, cache_credential, and_then,
}
use openbao_teradata_secret.Model.{Credential, Role, second, is_expired}
use openbao_teradata_secret.Outcome.{Outcome, ok, err, panic, ◌>>=◌}
use openbao_teradata_secret.Retry.{Error, plain}
use openbao_teradata_secret.Roles.{get_role}
use openbao_teradata_secret.Storage.{Storage}

-- `time.Duration(n) * time.Second`
abbrev pub seconds : ℤ → ℤ
seconds (pos n) = pos (n * second)
seconds (negsuc n) = negsuc (suc n * second - 1)

-- `t.Add(d)`
abbrev pub add_time : ℕ → ℤ → ℕ
add_time t d = pos_part (pos t +ℤ d)

pub record Times : Type 0 where
  pub at_expiry : ℕ
  pub at_first_since : ℕ
  pub at_second_since : ℕ
  pub at_renewal : ℕ
  pub at_extension : ℕ
  pub at_cache : SetTimes

-- The TTL before it is capped.
unfoldable pub wanted_ttl : ℤ → ℤ → ℤ
wanted_ttl requested default_ttl =
    if ltbℤ (pos 0) requested then seconds requested else seconds default_ttl

-- The TTL that is granted to a lease created at `created`.
unfoldable pub granted_ttl : ℤ → Role → ℕ → Times → Outcome Error ℤ
granted_ttl requested role created times =
    let max_ttl = seconds role.max_ttl in
    if ltbℤ (pos 0) max_ttl
    then (if lebℤ max_ttl (sub_ℕ times.at_first_since created)
        then err (plain (codes "lease has reached maximum TTL and cannot be extended further"))
        else (let remaining = max_ttl -ℤ sub_ℕ times.at_second_since created in
            let wanted = wanted_ttl requested role.default_ttl in
            let ttl = if ltbℤ remaining wanted then remaining else wanted in
            if lebℤ ttl (pos 0)
            then err (plain (codes "lease has reached maximum TTL and cannot be extended"))
            else ok ttl))
    else ok (wanted_ttl requested role.default_ttl)

-- The response, with the TTL in nanoseconds.
pub record Response : Type 0 where
  pub credential : Credential
  pub ttl : ℤ

module _ (st : Storage) where
  -- The writes at the end.
  unfoldable pub renew :
      Credential → Bytes → ℤ → Times → World st → World st × Outcome Error Response
  renew cred username ttl times w =
      let cred' = record cred {
        last_renewed = times.at_renewal;
        expires_at = add_time times.at_extension ttl;
      } in
      let (store', stored) = store_credential st username cred' w.store in
      and_then (record w { store = store' }, stored)
        λ w'. (
          cache_credential st username cred' times.at_cache w',
          ok (record { credential = cred'; ttl = ttl }),
        )

  -- The checks on the lease found.
  unfoldable pub extend_found :
      ℤ → Times → World st → Credential × Bytes → World st × Outcome Error Response
  unfolding renew
  extend_found requested times w (cred, username) = elim (get_role st cred.role_name w.store) [
    | err e ↦ (w, err e)
    | panic ↦ (w, panic)
    | ok none ↦ (w, err (plain (codes "role not found for lease")))
    | ok (some role) ↦
        if is_expired cred times.at_expiry
        then (w, err (plain (codes "lease has expired and cannot be extended")))
        else (elim (granted_ttl requested role cred.created_at times) [
          | err e ↦ (w, err e)
          | panic ↦ (w, panic)
          | ok ttl ↦ renew cred username ttl times w
        ])
  ]

  -- `pathExtendLeaseHandler`
  unfoldable pub extend_lease : Bytes → ℤ → Times → World st → World st × Outcome Error Response
  unfolding extend_found
  extend_lease lease_id requested times w =
      if is_empty lease_id
      then (w, err (plain (codes "lease_id is required")))
      else (elim (get_credential_by_lease_id st lease_id w.store) [
        | err e ↦ (w, err e)
        | panic ↦ (w, panic)
        | ok none ↦ (w, err (plain (codes "lease not found")))
        | ok (some found) ↦ extend_found requested times w found
      ])
