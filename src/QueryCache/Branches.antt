-- ===== src/QueryCache/Branches.antt =====
-- plugin/query_cache.go: `Get`, `Set` and `Delete` on each branch, as equations for rewriting.
use openbao_teradata_secret.Common.{ℕ, ◌+◌, ◌≡◌, true, false, none, some, length, leb, ltb}
use openbao_teradata_secret.Common.Bytes.{Bytes}
use openbao_teradata_secret.Common.Map
use openbao_teradata_secret.Common.Map.{Map, lookup, insert}
use openbao_teradata_secret.QueryCache.{Entry, Cache, tick, evict_lru, get, set, delete}

module _ {V : Type 0} (c : Cache V) (key : Bytes) where
  pub get_miss :
      (t1 t2 : ℕ)
      → lookup key c.entries ≡ none
      → get c key t1 t2 ≡ (record c { miss_count = tick c.miss_count }, none)
  unfolding get
  get_miss t1 t2 e = rw (e, get)

  pub get_stale :
      (t1 t2 : ℕ) (x : Entry V)
      → lookup key c.entries ≡ some x
      → ltb x.expires_at t1 ≡ true
      → get c key t1 t2 ≡ (
        record c {
          entries = Map.delete key c.entries;
          miss_count = tick c.miss_count;
          evict_count = tick c.evict_count;
        },
        none,
      )
  unfolding get
  get_stale t1 t2 x e old = rw (e, get, old)

  pub get_fresh :
      (t1 t2 : ℕ) (x : Entry V)
      → lookup key c.entries ≡ some x
      → ltb x.expires_at t1 ≡ false
      → get c key t1 t2 ≡ (
        record c {
          entries = insert key (record x { access_time = t2 }) c.entries;
          hit_count = tick c.hit_count;
        },
        some x.value,
      )
  unfolding get
  get_fresh t1 t2 x e fresh = rw (e, get, fresh)

  abbrev pub fresh_entry : V → ℕ → ℕ → ℕ → Entry V
  fresh_entry value t1 t2 t3 = record {
    key = key;
    value = value;
    expires_at = t1 + c.ttl;
    created_at = t2;
    access_time = t3;
  }

  pub set_old :
      (value : V) (t1 t2 t3 : ℕ) (x : Entry V)
      → lookup key c.entries ≡ some x
      → set c key value t1 t2 t3 ≡ record c {
        entries =
            insert key
              (record x { value = value; expires_at = t1 + c.ttl; access_time = t2 })
              c.entries;
      }
  unfolding set
  set_old value t1 t2 t3 x e = rw (e, set)

  pub set_room :
      (value : V) (t1 t2 t3 : ℕ)
      → lookup key c.entries ≡ none
      → leb c.max_size (length c.entries) ≡ false
      → set c key value t1 t2 t3
        ≡ record c { entries = insert key (fresh_entry value t1 t2 t3) c.entries }
  unfolding set
  set_room value t1 t2 t3 e room = rw (e, set, room)

  pub set_full :
      (value : V) (t1 t2 t3 : ℕ) (c' : Cache V)
      → lookup key c.entries ≡ none
      → leb c.max_size (length c.entries) ≡ true
      → evict_lru c ≡ c'
      → c'.ttl ≡ c.ttl
      → set c key value t1 t2 t3
        ≡ record c' { entries = insert key (fresh_entry value t1 t2 t3) c'.entries }
  unfolding set
  set_full value t1 t2 t3 c' e full ev same = rw (e, set, full, ev, ← same)

  pub delete_absent : lookup key c.entries ≡ none → delete c key ≡ c
  unfolding delete
  delete_absent e = rw (e, delete)

  pub delete_present :
      (x : Entry V)
      → lookup key c.entries ≡ some x
      → delete c key
        ≡ record c { entries = Map.delete key c.entries; evict_count = tick c.evict_count }
  unfolding delete
  delete_present x e = rw (e, delete)
