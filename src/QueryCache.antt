-- ===== src/QueryCache.antt =====
-- plugin/query_cache.go, lines 17-234: `queryResultCache`, the cache of loaded configurations,
-- roles, statements and query results. A method is a function of the state that it locks; each
-- reading of the clock that it makes is an argument, in order. Times are nanoseconds since the
-- zero time, so `IsZero` is a test for 0. The counters are int64 bit patterns, with wrap-around.
-- The ticker goroutine is the operation `cleanup_expired`, called at any time.
pub mod Branches
pub mod Invariant
pub mod Eviction
pub mod History
pub mod Coherence
use openbao_teradata_secret.Common.{
  ℕ, ◌+◌, ◌%◌, ◌^◌, Bool, true, false, not, ◌||◌, List, [], ◌∷◌, Option, none, some, length, ltb,
  leb, ◌==◌, if◌then◌else◌,
}
use openbao_teradata_secret.Common.Bytes.{Bytes, is_empty, has_prefix}
use openbao_teradata_secret.Common.Int.{ℤ, pos, lebℤ, pos_part}
use openbao_teradata_secret.Common.Map
use openbao_teradata_secret.Common.Map.{Map, lookup, insert}
use openbao_teradata_secret.Oldest.{oldest}

-- `queryCacheEntry`; the field `Element` is never set.
pub record Entry (V : Type 0) : Type 0 where
  pub key : Bytes
  pub value : V
  pub expires_at : ℕ
  pub created_at : ℕ
  pub access_time : ℕ

pub record Cache (V : Type 0) : Type 0 where
  pub entries : Map (Entry V)
  pub ttl : ℕ
  pub max_size : ℕ
  pub hit_count : ℕ
  pub miss_count : ℕ
  pub evict_count : ℕ
  pub done : Bool

-- 5 minutes, in nanoseconds.
abbrev pub default_ttl : ℕ
default_ttl = 300_000_000_000

abbrev pub default_max_size : ℕ
default_max_size = 1000

-- `n++` on an int64.
unfoldable pub tick : ℕ → ℕ
tick n = (n + 1) % 2 ^ 64

-- A counter after one tick for each item.
unfoldable pub ticks : {A : Type 0} → List A → ℕ → ℕ
unfolding tick
ticks [] n = n
ticks (x ∷ xs) n = ticks xs (tick n)

-- `newQueryResultCache`
unfoldable pub new : {V : Type 0} → ℤ → ℤ → Cache V
new ttl max_size = record {
  entries = [];
  ttl = if lebℤ ttl (pos 0) then default_ttl else pos_part ttl;
  max_size = if lebℤ max_size (pos 0) then default_max_size else pos_part max_size;
  hit_count = 0;
  miss_count = 0;
  evict_count = 0;
  done = false;
}

module _ {V : Type 0} where
  unfoldable pub delete_entry : Cache V → Bytes → Cache V
  unfolding tick
  delete_entry c key = record c {
    entries = Map.delete key c.entries;
    evict_count = tick c.evict_count;
  }

  -- `Get` on the entry found: `t1` is read at the test of expiry, `t2` at the touch.
  unfoldable pub get_entry : Cache V → Bytes → ℕ → ℕ → Entry V → Cache V × Option V
  unfolding delete_entry tick
  get_entry c key t1 t2 entry =
      if ltb entry.expires_at t1
      then (let c' = delete_entry c key in (record c' { miss_count = tick c'.miss_count }, none))
      else (
        record c {
          entries = insert key (record entry { access_time = t2 }) c.entries;
          hit_count = tick c.hit_count;
        },
        some entry.value,
      )

  unfoldable pub get : Cache V → Bytes → ℕ → ℕ → Cache V × Option V
  unfolding get_entry tick
  get c key t1 t2 = elim (lookup key c.entries) [
    | none ↦ (record c { miss_count = tick c.miss_count }, none)
    | some entry ↦ get_entry c key t1 t2 entry
  ]

  unfoldable pub evict_lru : Cache V → Cache V
  unfolding oldest tick
  evict_lru c =
      let key = (oldest (λ (e : Entry V). e.access_time) [] 0 c.entries).0 in
      if not (is_empty key)
      then record c { entries = Map.delete key c.entries; evict_count = tick c.evict_count }
      else c

  -- `Set`: the expiry is counted from `t1`; a new entry is created at `t2` and touched at `t3`,
  -- an old one is touched at `t2`.
  unfoldable pub set : Cache V → Bytes → V → ℕ → ℕ → ℕ → Cache V
  set c key value t1 t2 t3 = elim (lookup key c.entries) [
    | some entry ↦ record c {
      entries =
          insert key (record entry { value = value; expires_at = t1 + c.ttl; access_time = t2 })
            c.entries;
    }
    | none ↦
        let c' = if leb c.max_size (length c.entries) then evict_lru c else c in
        record c' {
          entries =
              insert key
                (record {
                  key = key;
                  value = value;
                  expires_at = t1 + c'.ttl;
                  created_at = t2;
                  access_time = t3;
                })
                c'.entries;
        }
  ]

  -- `Delete` and `Invalidate`
  unfoldable pub delete : Cache V → Bytes → Cache V
  unfolding delete_entry
  delete c key = elim (lookup key c.entries) [ none ↦ c | some _ ↦ delete_entry c key ]

  -- `DeleteByPrefix` and `InvalidateByPrefix`: the keys deleted are returned.
  unfoldable pub delete_by_prefix : Cache V → Bytes → Cache V × List Bytes
  unfolding ticks
  delete_by_prefix c prefix =
      let matches = λ (key : Bytes) (entry : Entry V). has_prefix key prefix in
      let deleted = Map.keys_where matches c.entries in
      (
        record c {
          entries = Map.delete_where matches c.entries;
          evict_count = ticks deleted c.evict_count;
        },
        deleted,
      )

  -- `Clear`
  unfoldable pub clear : Cache V → Cache V
  clear c = record c { entries = [] }

  unfoldable pub cleanup_expired : Cache V → ℕ → Cache V
  unfolding ticks
  cleanup_expired c now =
      let expired = λ (key : Bytes) (entry : Entry V). ltb entry.expires_at now in
      record c {
        entries = Map.delete_where expired c.entries;
        evict_count = ticks (Map.keys_where expired c.entries) c.evict_count;
      }

  -- `Close`: a second call returns at once.
  unfoldable pub close : Cache V → Cache V
  close c = if c.done then c else record c { done = true }

-- `queryCacheStats`
pub record Stats : Type 0 where
  pub hits : ℕ
  pub misses : ℕ
  pub evictions : ℕ
  pub size : ℕ
  pub max_size : ℕ
  pub ttl : ℕ

unfoldable pub stats : {V : Type 0} → Cache V → Stats
stats c = record {
  hits = c.hit_count;
  misses = c.miss_count;
  evictions = c.evict_count;
  size = length c.entries;
  max_size = c.max_size;
  ttl = c.ttl;
}
