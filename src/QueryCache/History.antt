-- ===== src/QueryCache/History.antt =====
-- plugin/query_cache.go: runs of the cache against a map that has no capacity, loses nothing and
-- never evicts. The calls of a run come in any order, as the lock serialises them.
use openbao_teradata_secret.Common.{
  ℕ, ◌+◌, ◌<◌, ◌≡◌, Bool, true, false, [], Option, none, some, arith, length, if◌then◌else◌,
}
use openbao_teradata_secret.Common.Bytes.{Bytes, bytes_eq, is_empty, has_prefix}
use openbao_teradata_secret.Common.Int.{ℤ}
use openbao_teradata_secret.Common.Map.{Map, lookup}
use openbao_teradata_secret.Common.Map.Laws
use openbao_teradata_secret.QueryCache
use openbao_teradata_secret.QueryCache.{Entry, Cache, tick, evict_lru}
use openbao_teradata_secret.QueryCache.Invariant.{
  IsSound, IsValid, get-IsValid, set-IsValid, delete-IsValid, sweep-IsValid,
}

-- A call of a method, with the readings of the clock that it makes.
pub data Call (V : Type 0) : Type 0 where
  get : Bytes → ℕ → ℕ → Call V
  set : Bytes → V → ℕ → ℕ → ℕ → Call V
  delete : Bytes → Call V
  delete_by_prefix : Bytes → Call V
  clear : Call V
  cleanup : ℕ → Call V
  close : Call V

-- For each key the value last stored and its expiry, if no call has removed it since.
abbrev pub Ideal : Type 0 → Type 0
Ideal V = Bytes → Option (V × ℕ)

module _ {V : Type 0} where
  unfoldable pub exec : Call V → Cache V → Cache V
  exec (get key t1 t2) c = (QueryCache.get c key t1 t2).0
  exec (set key value t1 t2 t3) c = QueryCache.set c key value t1 t2 t3
  exec (delete key) c = QueryCache.delete c key
  exec (delete_by_prefix prefix) c = (QueryCache.delete_by_prefix c prefix).0
  exec clear c = QueryCache.clear c
  exec (cleanup now) c = QueryCache.cleanup_expired c now
  exec close c = QueryCache.close c

  -- The clock is past the zero time at a touch, and the keys are those of the key builder.
  abbrev pub IsProper : Call V → Type 0
  IsProper (get key t1 t2) = (0 < t2) × (is_empty key ≡ false)
  IsProper (set key value t1 t2 t3) = (0 < t2) × (0 < t3) × (is_empty key ≡ false)
  IsProper _ = Unit

  unfoldable pub note : ℕ → Call V → Ideal V → Bytes → Option (V × ℕ)
  note ttl (set key value t1 t2 t3) h j = if bytes_eq key j then some (value, t1 + ttl) else h j
  note ttl (delete key) h j = if bytes_eq key j then none else h j
  note ttl (delete_by_prefix prefix) h j = if has_prefix j prefix then none else h j
  note ttl clear h j = none
  note ttl (get key t1 t2) h j = h j
  note ttl (cleanup now) h j = h j
  note ttl close h j = h j

  -- A run from a new cache. Between two calls the order in which Go visits a map may change.
  pub data Run (ttl max_size : ℤ) : Cache V → Ideal V → Type 0 where
    start : Run ttl max_size (QueryCache.new ttl max_size) (λ j. none)
    call :
        {c : Cache V} {h : Ideal V} (k : Call V)
        → IsProper k
        → Run ttl max_size c h
        → Run ttl max_size (exec k c) (note c.ttl k h)
    reorder :
        {c : Cache V} {h : Ideal V} (m : Map (Entry V))
        → IsSound m
        → length m ≡ length c.entries
        → ((j : Bytes) → lookup j m ≡ lookup j c.entries)
        → Run ttl max_size c h
        → Run ttl max_size (record c { entries = m }) h

  IsValid-if : (b : Bool) {c d : Cache V} → IsValid c → IsValid d → IsValid (if b then c else d)
  IsValid-if true v w = v
  IsValid-if false v w = w

  exec-IsValid : (k : Call V) (c : Cache V) → IsProper k → IsValid c → IsValid (exec k c)
  unfolding exec QueryCache.delete_by_prefix QueryCache.clear QueryCache.cleanup_expired
      QueryCache.close
  exec-IsValid (get key t1 t2) c p v = get-IsValid c key t1 t2 p.0 p.1 v
  exec-IsValid (set key value t1 t2 t3) c p v = set-IsValid c key value t1 t2 t3 p.0 p.1 p.2 v
  exec-IsValid (delete key) c p v = delete-IsValid c key v
  exec-IsValid (delete_by_prefix prefix) c p v = sweep-IsValid c _ _ v
  exec-IsValid clear c p v = record {
    sound = record { distinct = tt; touched = tt; no_empty_key = Laws.lookup-nil [] };
    bounded = omega arith;
    positive = v.positive;
  }
  exec-IsValid (cleanup now) c p v = sweep-IsValid c _ _ v
  exec-IsValid close c p v =
      IsValid-if c.done v (record { sound = v.sound; bounded = v.bounded; positive = v.positive })

  new-IsValid : (ttl max_size : ℤ) → IsValid {V = V} (QueryCache.new ttl max_size)
  unfolding QueryCache.new
  new-IsValid ttl max_size = record {
    sound = record { distinct = tt; touched = tt; no_empty_key = Laws.lookup-nil [] };
    bounded = omega arith;
    positive = ground arith;
  }

  -- In every run of a new query cache whose keys are not empty and whose clock is past the zero
  -- time there is one entry to a key and never more entries than the maximal size, which is
  -- positive.
  pub Run-IsValid :
      (ttl max_size : ℤ) (c : Cache V) (h : Ideal V) → Run ttl max_size c h → IsValid c
  Run-IsValid ttl max_size c h start = new-IsValid ttl max_size
  Run-IsValid ttl max_size c h (call {c = d} {h = g} k p r) =
      exec-IsValid k d p (Run-IsValid ttl max_size d g r)
  Run-IsValid ttl max_size c h (reorder {c = d} m s l same r) =
      let v = Run-IsValid ttl max_size d h r in
      record { sound = s; bounded = omega (arith, v.bounded); positive = v.positive }
