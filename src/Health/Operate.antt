-- ===== src/Health/Operate.antt =====
-- plugin/backend.go: when `CanOperate` lets the plugin operate.
use openbao_teradata_secret.Common.{
  Bool, true, not, ◌≡◌, ◌≢◌, ◌↔◌, ◌⊎◌, inl, inr, refl, List, [], ◌∷◌, none, some, all, arith,
  Bool-cases,
}
use openbao_teradata_secret.Common.Bytes.{Bytes, is_empty}
use openbao_teradata_secret.Database.{Driver}
use openbao_teradata_secret.Registry.{Registry}
use openbao_teradata_secret.Registry.Pools.{list_connections}
use openbao_teradata_secret.Health.{
  is_pool_healthy, are_all_pools_healthy, sort_pools, get_degradation_status, can_operate,
  unavailable, refusal,
}

is_empty_iff : (s : Bytes) → (not (is_empty s) ≡ true) ↔ (s ≢ [])
is_empty_iff [] = ground arith
is_empty_iff (c ∷ s) = ground arith

module _ (d : Driver) where
  sort_pools_degraded :
      (up : Bytes → Bool) (names : List Bytes)
      → (sort_pools d up names).is_degraded ≡ not (all up names)
  unfolding sort_pools
  sort_pools_degraded up [] = refl
  sort_pools_degraded up (name ∷ names) = elim (Bool-cases (up name)) [
    | inl up_now ↦ rw up_now (sort_pools_degraded up names)
    | inr down ↦ rw down
  ]

  are_all_up :
      (r : Registry d)
      → are_all_pools_healthy d (some r) ≡ true
      → all (is_pool_healthy d (some r)) (list_connections d r) ≡ true
  unfolding are_all_pools_healthy
  are_all_up r h = ground arith

  degradation_status_lem :
      (r : Registry d)
      → (get_degradation_status d (some r)).is_degraded
        ≡ not (all (is_pool_healthy d (some r)) (list_connections d r))
  unfolding get_degradation_status
  degradation_status_lem r = sort_pools_degraded (is_pool_healthy d (some r)) (list_connections d r)

  can_operate-none : (region : Bytes) → can_operate d none region ≡ some unavailable
  unfolding can_operate are_all_pools_healthy get_degradation_status is_pool_healthy refusal
  can_operate-none region = elim (Bool-cases (not (is_empty region))) [
    | inl named ↦ rw named
    | inr unnamed ↦ rw unnamed
  ]

  can_operate-some :
      (region : Bytes) (r : Registry d)
      → (can_operate d (some r) region ≡ none) ↔ (
          (all (is_pool_healthy d (some r)) (list_connections d r) ≡ true)
          ⊎ ((region ≢ []) × (is_pool_healthy d (some r) region ≡ true)))
  unfolding can_operate
  can_operate-some region r =
      ground (arith, are_all_up r, degradation_status_lem r, is_empty_iff region)

  -- Without a registry CanOperate refuses every region. With one it lets the plugin operate
  -- exactly if each of the pools is healthy, where there may be none, or a region is named and
  -- its pool is healthy.
  pub can_operate_lem :
      (region : Bytes)
      → (can_operate d none region ≡ some unavailable)
        × ((r : Registry d)
            → (can_operate d (some r) region ≡ none) ↔ (
                (all (is_pool_healthy d (some r)) (list_connections d r) ≡ true)
                ⊎ ((region ≢ []) × (is_pool_healthy d (some r) region ≡ true))))
  can_operate_lem region = (can_operate-none region, can_operate-some region)
