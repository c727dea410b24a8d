-- ===== src/Loaded.antt =====
-- plugin/query_cache.go from line 231, with `getConfig` and `getConfigByName` of
-- plugin/path_config.go and `getStatement` of plugin/path_statements.go: configurations, roles and
-- statements read through the query cache, which is `none` where the backend has none. SHA-256, with
-- the printing of the arguments of a query, is the parameter `digest`.
pub mod Reads
use openbao_teradata_secret.Common.{
  ℕ, Bool, true, false, List, ◌++◌, Option, none, some, take, if◌then◌else◌,
}
use openbao_teradata_secret.Common.Bytes.{Bytes, codes, is_empty}
use openbao_teradata_secret.Model.{Config, Role, Statement}
use openbao_teradata_secret.Outcome.{Outcome, ok, err, panic, ◌>>=◌}
use openbao_teradata_secret.QueryCache
use openbao_teradata_secret.QueryCache.{Cache, Stats}
use openbao_teradata_secret.Retry.{Error}
use openbao_teradata_secret.Roles.{get_role}
use openbao_teradata_secret.Storage.{Storage}

-- What the cache holds: the types that the code asserts of an `interface{}`. `R` is `QueryResult`.
pub data Value (R : Type 0) : Type 0 where
  config : Config → Value R
  role : Role → Value R
  statement : Statement → Value R
  query_result : R → Value R

-- `CacheKeyBuilder`
unfoldable pub config_key : Bytes → Bytes
config_key region = if is_empty region then codes "config:default" else codes "config:" ++ region

unfoldable pub role_key : Bytes → Bytes
role_key name = codes "role:" ++ name

unfoldable pub statement_key : Bytes → Bytes
statement_key name = codes "statement:" ++ name

unfoldable pub query_key : (Bytes → List Bytes → Bytes) → Bytes → List Bytes → Bytes
query_key digest query args = codes "query:" ++ take 16 (digest query args)

-- The readings of the clock: two by `Get`, three by `Set`.
pub record Times : Type 0 where
  pub get_expiry : ℕ
  pub get_touch : ℕ
  pub set_expiry : ℕ
  pub set_created : ℕ
  pub set_touch : ℕ

abbrev pub as_config : {R : Type 0} → Value R → Option Config
as_config (config c) = some c
as_config v = none

abbrev pub as_role : {R : Type 0} → Value R → Option Role
as_role (role r) = some r
as_role v = none

abbrev pub as_statement : {R : Type 0} → Value R → Option Statement
as_statement (statement s) = some s
as_statement v = none

abbrev pub as_query_result : {R : Type 0} → Value R → Option R
as_query_result (query_result r) = some r
as_query_result v = none

-- A hit of the right type.
abbrev pub asserted : {V A : Type 0} → (V → Option A) → Option V → Option A
asserted unwrap none = none
asserted unwrap (some v) = unwrap v

-- What a load leaves in the cache: a value that is not nil is stored.
unfoldable pub keep_loaded :
    {V A : Type 0} → (A → V) → Bytes → Times → Cache V → Outcome Error (Option A) → Cache V
keep_loaded wrap key t c (ok (some a)) =
    QueryCache.set c key (wrap a) t.set_expiry t.set_created t.set_touch
keep_loaded wrap key t c (ok none) = c
keep_loaded wrap key t c (err e) = c
keep_loaded wrap key t c panic = c

-- The common text of `getCachedConfig`, `getCachedRole` and `getCachedStatement`.
unfoldable pub get_through :
    {V A : Type 0}
    → (A → V)
    → (V → Option A)
    → Bytes
    → Outcome Error (Option A)
    → Times
    → Option (Cache V)
    → Option (Cache V) × Outcome Error (Option A)
unfolding keep_loaded
get_through wrap unwrap key load t none = (none, load)
get_through wrap unwrap key load t (some c) =
    let (c', result) = QueryCache.get c key t.get_expiry t.get_touch in
    elim (asserted unwrap result) [
      | some a ↦ (some c', ok (some a))
      | none ↦ (some (keep_loaded wrap key t c' load), load)
    ]

module _ (st : Storage) where
  -- `getConfig`
  unfoldable pub get_config : st.State → Outcome Error (Option Config)
  get_config s = st.get (codes "config") s >>= λ found. elim found [
    | none ↦ ok none
    | some entry ↦ st.decode_config entry >>= λ cfg. ok (some cfg)
  ]

  -- `getConfigByName`
  unfoldable pub get_config_by_name : Bytes → st.State → Outcome Error (Option Config)
  get_config_by_name name s =
      if is_empty name
      then get_config s
      else (st.get (codes "config/" ++ name) s >>= λ found. elim found [
        | none ↦ ok none
        | some entry ↦ st.decode_config entry >>= λ cfg. ok (some cfg)
      ])

  -- `getStatement`
  unfoldable pub get_statement : Bytes → st.State → Outcome Error (Option Statement)
  get_statement name s = st.get (codes "statements/" ++ name) s >>= λ found. elim found [
    | none ↦ ok none
    | some entry ↦ st.decode_statement entry >>= λ stmt. ok (some stmt)
  ]

module _ {R : Type 0} (st : Storage) where
  unfoldable pub get_cached_config :
      Bytes
      → st.State
      → Times
      → Option (Cache (Value R))
      → Option (Cache (Value R)) × Outcome Error (Option Config)
  get_cached_config region s =
      get_through config as_config (config_key region) (get_config_by_name st region s)

  unfoldable pub get_cached_role :
      Bytes
      → st.State
      → Times
      → Option (Cache (Value R))
      → Option (Cache (Value R)) × Outcome Error (Option Role)
  get_cached_role name s = get_through role as_role (role_key name) (get_role st name s)

  unfoldable pub get_cached_statement :
      Bytes
      → st.State
      → Times
      → Option (Cache (Value R))
      → Option (Cache (Value R)) × Outcome Error (Option Statement)
  get_cached_statement name s =
      get_through statement as_statement (statement_key name) (get_statement st name s)

module _ {R : Type 0} (digest : Bytes → List Bytes → Bytes) where
  -- `getCachedQueryResult`, which loads nothing and returns no error.
  unfoldable pub get_cached_query_result :
      Bytes → List Bytes → ℕ → ℕ → Option (Cache (Value R)) → Option (Cache (Value R)) × Option R
  get_cached_query_result query args t1 t2 none = (none, none)
  get_cached_query_result query args t1 t2 (some c) =
      let (c', result) = QueryCache.get c (query_key digest query args) t1 t2 in
      (some c', asserted as_query_result result)

  -- `cacheQueryResult`, with nil as `none`.
  unfoldable pub cache_query_result :
      Bytes
      → Option R
      → List Bytes
      → ℕ
      → ℕ
      → ℕ
      → Option (Cache (Value R))
      → Option (Cache (Value R))
  cache_query_result query result args t1 t2 t3 none = none
  cache_query_result query none args t1 t2 t3 (some c) = some c
  cache_query_result query (some r) args t1 t2 t3 (some c) =
      some (QueryCache.set c (query_key digest query args) (query_result r) t1 t2 t3)

  unfoldable pub invalidate_query_cache :
      Bytes → List Bytes → Option (Cache (Value R)) → Option (Cache (Value R))
  invalidate_query_cache query args none = none
  invalidate_query_cache query args (some c) =
      some (QueryCache.delete c (query_key digest query args))

module _ {V : Type 0} where
  unfoldable pub invalidate_config_cache : Bytes → Option (Cache V) → Option (Cache V)
  invalidate_config_cache region none = none
  invalidate_config_cache region (some c) = some (
      if is_empty region
      then QueryCache.delete c (codes "config:default")
      else QueryCache.delete c (config_key region))

  unfoldable pub invalidate_role_cache : Bytes → Option (Cache V) → Option (Cache V)
  invalidate_role_cache name none = none
  invalidate_role_cache name (some c) = some (QueryCache.delete c (role_key name))

  -- `invalidateRoleCacheByPrefix`, which does not read its argument.
  unfoldable pub invalidate_role_cache_by_prefix : Bytes → Option (Cache V) → Option (Cache V)
  invalidate_role_cache_by_prefix role_prefix none = none
  invalidate_role_cache_by_prefix role_prefix (some c) =
      some (QueryCache.delete_by_prefix c (codes "role:")).0

  unfoldable pub invalidate_statement_cache : Bytes → Option (Cache V) → Option (Cache V)
  invalidate_statement_cache name none = none
  invalidate_statement_cache name (some c) = some (QueryCache.delete c (statement_key name))

  unfoldable pub invalidate_all_query_cache : Option (Cache V) → Option (Cache V)
  invalidate_all_query_cache none = none
  invalidate_all_query_cache (some c) = some (QueryCache.clear c)

  unfoldable pub get_query_cache_stats : Option (Cache V) → Stats
  get_query_cache_stats none = record {
    hits = 0;
    misses = 0;
    evictions = 0;
    size = 0;
    max_size = 0;
    ttl = 0;
  }
  get_query_cache_stats (some c) = QueryCache.stats c
