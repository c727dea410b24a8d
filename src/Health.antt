-- ===== src/Health.antt =====
-- plugin/backend.go, lines 355-426: what the health of the pools in the registry says about whether
-- the plugin can operate. A backend without a registry is `none`.
pub mod Operate
use openbao_teradata_secret.Common.{
  Bool, true, false, not, ◌&&◌, ◌||◌, ◌≡◌, refl, List, [], ◌∷◌, Option, none, some, all,
  if◌then◌else◌, arith, Bool-cases, Option-cases,
}
use openbao_teradata_secret.Common.Bytes.{Bytes, is_empty}
use openbao_teradata_secret.Database.{Driver}
use openbao_teradata_secret.Registry.{
  ConnectionState, unknown, healthy, unhealthy, closed, Registry,
}
use openbao_teradata_secret.Registry.Pools.{get_connection, list_connections}
use openbao_teradata_secret.Registry.Upkeep.{get_state}

-- `state == storage.StateHealthy`
abbrev pub is_healthy_state : ConnectionState → Bool
is_healthy_state healthy = true
is_healthy_state unknown = false
is_healthy_state unhealthy = false
is_healthy_state closed = false

-- The reasons that `CanOperate` gives: no pool is known to be down, the pools that are, or the region
-- with the pools that are up.
pub data Refusal : Type 0 where
  unavailable : Refusal
  pools_unavailable : List Bytes → Refusal
  region_unavailable : Bytes → List Bytes → Refusal

pub record Status : Type 0 where
  pub is_degraded : Bool
  pub degraded_pools : List Bytes
  pub healthy_pools : List Bytes

module _ (d : Driver) where
  -- `IsPoolHealthy`
  unfoldable pub is_pool_healthy : Option (Registry d) → Bytes → Bool
  is_pool_healthy none region = false
  is_pool_healthy (some r) region = elim (get_connection d r region) [
    | none ↦ false
    | some c ↦
        let (state, e) = get_state d c in elim e [ some x ↦ false | none ↦ is_healthy_state state ]
  ]

  -- `AreAllPoolsHealthy`
  unfoldable pub are_all_pools_healthy : Option (Registry d) → Bool
  unfolding is_pool_healthy
  are_all_pools_healthy none = false
  are_all_pools_healthy (some r) =
      let names = list_connections d r in
      if all (is_pool_healthy (some r)) names
      then (elim names [ [] ↦ false | x ∷ xs ↦ true ])
      else false

  -- The loop of `GetDegradationStatus`, from the back.
  unfoldable pub sort_pools : (Bytes → Bool) → List Bytes → Status
  sort_pools up [] = record { is_degraded = false; degraded_pools = []; healthy_pools = [] }
  sort_pools up (name ∷ names) =
      let rest = sort_pools up names in
      if up name
      then record rest { healthy_pools = name ∷ rest.healthy_pools }
      else record rest { is_degraded = true; degraded_pools = name ∷ rest.degraded_pools }

  -- `GetDegradationStatus`
  unfoldable pub get_degradation_status : Option (Registry d) → Status
  unfolding sort_pools is_pool_healthy
  get_degradation_status none = record {
    is_degraded = true;
    degraded_pools = [];
    healthy_pools = [];
  }
  get_degradation_status (some r) = sort_pools (is_pool_healthy (some r)) (list_connections d r)

  -- The reason of `CanOperate`.
  unfoldable pub refusal : Bytes → Status → Refusal
  refusal region s = elim s.healthy_pools [
    | x ∷ xs ↦ region_unavailable region (x ∷ xs)
    | [] ↦ elim s.degraded_pools [ x ∷ xs ↦ pools_unavailable (x ∷ xs) | [] ↦ unavailable ]
  ]

  -- `CanOperate`: `none` for `true, ""`.
  unfoldable pub can_operate : Option (Registry d) → Bytes → Option Refusal
  unfolding are_all_pools_healthy get_degradation_status is_pool_healthy refusal
  can_operate reg region =
      if are_all_pools_healthy reg
      then none
      else if not (get_degradation_status reg).is_degraded
      then none
      else if not (is_empty region) && is_pool_healthy reg region
      then none
      else some (refusal region (get_degradation_status reg))
