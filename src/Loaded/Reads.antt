-- ===== src/Loaded/Reads.antt =====
-- plugin/query_cache.go: what a read through the cache answers after a load or an invalidation.
use openbao_teradata_secret.Common.{
  ℕ, ◌+◌, ◌≤◌, ◌≡◌, refl, Option, none, some, inl, inr, arith, length, leb, Bool-cases,
  Option-cases, if◌then◌else◌,
}
use openbao_teradata_secret.Common.Bytes.{Bytes, codes, bytes_eq, bytes_eq_iff, bytes_eq_refl}
use openbao_teradata_secret.Common.Map.{lookup}
use openbao_teradata_secret.Common.Map.Laws
use openbao_teradata_secret.Loaded.{
  Value, config, role, config_key, role_key, Times, as_config, as_role, keep_loaded, get_through,
  get_config, get_config_by_name, get_cached_config, get_cached_role, invalidate_role_cache,
}
use openbao_teradata_secret.Model.{Config, Role}
use openbao_teradata_secret.Outcome.{Outcome, ok}
use openbao_teradata_secret.QueryCache
use openbao_teradata_secret.QueryCache.{Entry, Cache, tick, evict_lru}
use openbao_teradata_secret.QueryCache.Branches.{
  get_miss, get_fresh, delete_absent, delete_present, fresh_entry,
}
use openbao_teradata_secret.Retry.{Error}
use openbao_teradata_secret.Roles.{get_role}
use openbao_teradata_secret.Storage.{Storage}

module _ {V : Type 0} where
  evict_lru-ttl : (c : Cache V) → (evict_lru c).ttl ≡ c.ttl
  unfolding evict_lru
  evict_lru-ttl c = ground arith

  -- The entry that a `Set` leaves under its key.
  lookup-set_self :
      (c : Cache V) (key : Bytes) (value : V) (t1 t2 t3 : ℕ)
      → (x : Entry V) × (lookup key (QueryCache.set c key value t1 t2 t3).entries ≡ some x)
        × (x.value ≡ value)
        × (x.expires_at ≡ t1 + c.ttl)
  unfolding QueryCache.set
  lookup-set_self c key value t1 t2 t3 = elim (Option-cases (lookup key c.entries)) [
    | inr (x, e) ↦ (
      record x { value = value; expires_at = t1 + c.ttl; access_time = t2 },
      rw (e, QueryCache.set, Laws.lookup-insert_self),
      refl,
      refl,
    )
    | inl e ↦ elim (Bool-cases (leb c.max_size (length c.entries))) [
      | inr room ↦ (
        fresh_entry c key value t1 t2 t3,
        rw (e, QueryCache.set, room, Laws.lookup-insert_self),
        refl,
        refl,
      )
      | inl full ↦ (
        fresh_entry (evict_lru c) key value t1 t2 t3,
        rw (e, QueryCache.set, full, Laws.lookup-insert_self),
        refl,
        rw (evict_lru-ttl c),
      )
    ]
  ]

  lookup-delete_other :
      (c : Cache V) (key j : Bytes)
      → lookup j (QueryCache.delete c key).entries
        ≡ (if bytes_eq key j then none else lookup j c.entries)
  lookup-delete_other c key j = elim (Option-cases (lookup key c.entries)) [
    | inl e ↦ rw (delete_absent c key e) (ground (arith, bytes_eq_iff key j))
    | inr (x, e) ↦ rw (delete_present c key x e) (Laws.lookup-delete key j c.entries)
  ]

module _ {V A : Type 0} (wrap : A → V) (unwrap : V → Option A) (key : Bytes) where
  -- Without an entry the answer is what storage says, and a value is stored.
  get_through-absent :
      (load : Outcome Error (Option A)) (t : Times) (c : Cache V)
      → lookup key c.entries ≡ none
      → get_through wrap unwrap key load t (some c)
        ≡ (some (keep_loaded wrap key t (record c { miss_count = tick c.miss_count }) load), load)
  unfolding get_through
  get_through-absent load t c absent =
      let miss = get_miss c key t.get_expiry t.get_touch absent in rw (get_through, miss, miss)

  -- An entry of the right type that has not expired is the answer.
  get_through-present :
      (load : Outcome Error (Option A)) (t : Times) (c : Cache V) (x : Entry V) (a : A)
      → lookup key c.entries ≡ some x
      → unwrap x.value ≡ some a
      → t.get_expiry ≤ x.expires_at
      → (get_through wrap unwrap key load t (some c)).1 ≡ ok (some a)
  unfolding get_through
  get_through-present load t c x a found same fresh =
      rw (get_through, get_fresh c key t.get_expiry t.get_touch x found (ground arith), same)

  -- A value loaded is answered again within the TTL, whatever storage says then.
  get_through-again :
      (a : A) (load : Outcome Error (Option A)) (t t' : Times) (c : Cache V)
      → lookup key c.entries ≡ none
      → unwrap (wrap a) ≡ some a
      → t'.get_expiry ≤ t.set_expiry + c.ttl
      → (get_through wrap unwrap key load t'
          (get_through wrap unwrap key (ok (some a)) t (some c)).0).1
        ≡ ok (some a)
  unfolding keep_loaded
  get_through-again a load t t' c absent back fresh =
      let missed = record c { miss_count = tick c.miss_count } in
      let (x, found, same, expiry) =
        lookup-set_self missed key (wrap a) t.set_expiry t.set_created t.set_touch in
      rw (get_through-absent (ok (some a)) t c absent)
        (get_through-present load t' _ x a found (rw (same) back) (rw (expiry) fresh))

module _ {R : Type 0} (st : Storage) where
  -- A role that a read on a cache without an entry for it has loaded is answered until the TTL
  -- has passed, whatever the storage has then.
  pub get_cached_role-again :
      (name : Bytes) (s s' : st.State) (r : Role) (t t' : Times) (c : Cache (Value R))
      → lookup (role_key name) c.entries ≡ none
      → get_role st name s ≡ ok (some r)
      → t'.get_expiry ≤ t.set_expiry + c.ttl
      → (get_cached_role st name s' t' (get_cached_role st name s t (some c)).0).1 ≡ ok (some r)
  unfolding get_cached_role
  get_cached_role-again name s s' r t t' c absent loaded fresh = rw loaded (
      get_through-again role as_role (role_key name) r (get_role st name s') t t' c absent refl
        fresh)

  -- invalidateRoleCache deletes the entry of the role and no other, and a read of the role after
  -- it answers what storage says.
  pub get_cached_role-invalidate :
      (name : Bytes) (s : st.State) (t : Times) (c : Cache (Value R)) (j : Bytes)
      → ((get_cached_role st name s t (invalidate_role_cache name (some c))).1 ≡ get_role st name s)
        × (invalidate_role_cache name (some c) ≡ some (QueryCache.delete c (role_key name)))
        × (lookup j (QueryCache.delete c (role_key name)).entries
            ≡ (if bytes_eq (role_key name) j then none else lookup j c.entries))
  unfolding get_cached_role invalidate_role_cache
  get_cached_role-invalidate name s t c j =
      let key = role_key name in
      let law = lookup-delete_other c key in
      (
        rw (
            get_through-absent role as_role key (get_role st name s) t (QueryCache.delete c key)
              (rw (law key, bytes_eq_refl))),
        refl,
        law j,
      )

  -- Once the configuration without a name is loaded by a read on a cache without an entry for it,
  -- it is answered for the region named default until the TTL has passed.
  pub get_cached_config-default :
      (s : st.State) (cfg : Config) (t t' : Times) (c : Cache (Value R))
      → lookup (codes "config:default") c.entries ≡ none
      → get_config st s ≡ ok (some cfg)
      → t'.get_expiry ≤ t.set_expiry + c.ttl
      → (get_cached_config st
          (codes "default")
          s
          t'
          (get_cached_config st (codes "") s t (some c)).0).1
        ≡ ok (some cfg)
  unfolding get_cached_config get_config_by_name config_key
  get_cached_config-default s cfg t t' c absent loaded fresh = rw loaded (
      get_through-again config as_config (codes "config:default") cfg
        (get_config_by_name st (codes "default") s) t t' c absent refl fresh)
