-- ===== src/QueryCache/Eviction.antt =====
-- plugin/query_cache.go: `evictLRU` within `Set`, and `cleanupExpired` before `Get`.
use openbao_teradata_secret.Common.{
  ℕ, ◌≤◌, ◌≡◌, refl, none, some, arith, length, ltb, if◌then◌else◌,
}
use openbao_teradata_secret.Common.Bytes.{Bytes, bytes_eq}
use openbao_teradata_secret.Common.Map.{lookup, AllEntries}
use openbao_teradata_secret.Common.Map.Laws
use openbao_teradata_secret.QueryCache
use openbao_teradata_secret.QueryCache.{Entry, Cache, cleanup_expired, evict_lru}
use openbao_teradata_secret.QueryCache.Branches.{set_full, fresh_entry}
use openbao_teradata_secret.QueryCache.Invariant.{IsValid, evict_lru_lem}

module _ {V : Type 0} where
  -- Set of a new key on a well-formed query cache that is full drops exactly one entry, which no
  -- other entry was touched before, stores the new one and leaves every other key as it was.
  pub set_full-evicts :
      (c : Cache V) (key : Bytes) (value : V) (t1 t2 t3 : ℕ)
      → IsValid c
      → lookup key c.entries ≡ none
      → c.max_size ≤ length c.entries
      → (k : Bytes) × (x : Entry V) × (lookup k c.entries ≡ some x)
        × AllEntries (λ e. x.access_time ≤ e.access_time) c.entries
        × ((j : Bytes)
            → lookup j (QueryCache.set c key value t1 t2 t3).entries ≡ (
                if bytes_eq key j
                then some (fresh_entry c key value t1 t2 t3)
                else if bytes_eq k j
                then none
                else lookup j c.entries))
  set_full-evicts c key value t1 t2 t3 v absent full =
      let (k, x, found, least, gone) = evict_lru_lem c v (omega (arith, v.positive)) in
      (
        k,
        x,
        found,
        least,
        λ j.
            rw (set_full c key value t1 t2 t3 _ absent (ground arith) gone refl)
              (rw (Laws.lookup-insert, Laws.lookup-delete)),
      )

  -- The ticker of a well-formed query cache may sweep at any time: a Get at that time or later
  -- answers the same.
  pub get-cleanup_expired :
      (c : Cache V) (now : ℕ) (key : Bytes) (t1 t2 : ℕ)
      → IsValid c
      → now ≤ t1
      → (QueryCache.get (cleanup_expired c now) key t1 t2).1 ≡ (QueryCache.get c key t1 t2).1
  unfolding cleanup_expired QueryCache.get
  get-cleanup_expired c now key t1 t2 v later = ground (
    arith,
    Laws.lookup-delete_where (λ k (e : Entry V). ltb e.expires_at now) key c.entries
        v.sound.distinct,
  )
