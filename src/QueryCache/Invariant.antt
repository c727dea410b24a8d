-- ===== src/QueryCache/Invariant.antt =====
-- plugin/query_cache.go: the well-formedness of `queryResultCache` under its methods.
use openbao_teradata_secret.Common.{
  ℕ, ◌+◌, ◌≤◌, ◌<◌, ◌≡◌, refl, Bool, false, [], none, some, inl, inr, arith, length, leb, ltb,
  Bool-cases, Option-cases,
}
use openbao_teradata_secret.Common.Bytes.{Bytes, bytes_eq_iff, is_empty}
use openbao_teradata_secret.Common.Map
use openbao_teradata_secret.Common.Map.{Map, lookup, insert, Distinct, AllEntries}
use openbao_teradata_secret.Common.Map.Laws
use openbao_teradata_secret.QueryCache
use openbao_teradata_secret.QueryCache.{
  Entry, Cache, tick, evict_lru, delete_entry, get_entry, delete_by_prefix, clear, cleanup_expired,
  close,
}
use openbao_teradata_secret.QueryCache.Branches.{
  get_miss, get_stale, get_fresh, set_old, set_room, set_full, delete_absent, delete_present,
  fresh_entry,
}
use openbao_teradata_secret.Oldest.{oldest, oldest_lem}

module _ {V : Type 0} where
  -- The entries of a map that evicts by time: one to a key, none at the empty key, each touched.
  pub record IsSound (m : Map (Entry V)) : Type 0 where
    pub distinct : Distinct m
    pub touched : AllEntries (λ e. 0 < e.access_time) m
    pub no_empty_key : lookup [] m ≡ none

  pub record IsValid (c : Cache V) : Type 0 where
    pub sound : IsSound c.entries
    pub bounded : length c.entries ≤ c.max_size
    pub positive : 0 < c.max_size

  insert-IsSound :
      (k : Bytes) (e : Entry V) (m : Map (Entry V))
      → is_empty k ≡ false
      → 0 < e.access_time
      → IsSound m
      → IsSound (insert k e m)
  insert-IsSound k e m named t s = record {
    distinct = Laws.insert-Distinct k e m s.distinct;
    touched = Laws.AllEntries-insert _ k e m t s.touched;
    no_empty_key = rw Laws.lookup-insert (ground (arith, bytes_eq_iff k [], s.no_empty_key));
  }

  delete-IsSound : (k : Bytes) (m : Map (Entry V)) → IsSound m → IsSound (Map.delete k m)
  delete-IsSound k m s = record {
    distinct = Laws.delete-Distinct k m s.distinct;
    touched = Laws.AllEntries-delete _ k m s.touched;
    no_empty_key = rw Laws.lookup-delete (ground (arith, s.no_empty_key));
  }

  delete_where-IsSound :
      (p : Bytes → Entry V → Bool) (m : Map (Entry V)) → IsSound m → IsSound (Map.delete_where p m)
  delete_where-IsSound p m s = record {
    distinct = Laws.delete_where-Distinct p m s.distinct;
    touched = Laws.AllEntries-delete_where _ p m s.touched;
    no_empty_key = rw (Laws.lookup-delete_where p [] m s.distinct, s.no_empty_key);
  }

  -- A full cache loses an entry that no other was touched before.
  pub evict_lru_lem :
      (c : Cache V)
      → IsValid c
      → 0 < length c.entries
      → (k : Bytes) × (x : Entry V) × (lookup k c.entries ≡ some x)
        × AllEntries (λ e. x.access_time ≤ e.access_time) c.entries
        × (evict_lru c
            ≡ record c { entries = Map.delete k c.entries; evict_count = tick c.evict_count })
  unfolding evict_lru
  evict_lru_lem c v h =
      let time_of = λ (e : Entry V). e.access_time in
      let k = (oldest time_of [] 0 c.entries).0 in
      let (x, found, same, least) =
        oldest_lem time_of c.entries v.sound.distinct v.sound.touched h in
      (
        k,
        x,
        found,
        least,
        elim (Bool-cases (is_empty k)) [
          | inl e ↦ absurd (ground (arith, v.sound.no_empty_key))
          | inr e ↦ rw e
        ],
      )

  pub get-IsValid :
      (c : Cache V) (key : Bytes) (t1 t2 : ℕ)
      → 0 < t2
      → is_empty key ≡ false
      → IsValid c
      → IsValid (QueryCache.get c key t1 t2).0
  get-IsValid c key t1 t2 pos named v = elim (Option-cases (lookup key c.entries)) [
    | inl e ↦
        rw (get_miss c key t1 t2 e)
          (record { sound = v.sound; bounded = v.bounded; positive = v.positive })
    | inr (x, e) ↦ elim (Bool-cases (ltb x.expires_at t1)) [
      | inl old ↦ rw (get_stale c key t1 t2 x e old) (record {
        sound = delete-IsSound key c.entries v.sound;
        bounded = omega (arith, Laws.length-delete-le key c.entries, v.bounded);
        positive = v.positive;
      })
      | inr fresh ↦ rw (get_fresh c key t1 t2 x e fresh) (record {
        sound = insert-IsSound key _ c.entries named pos v.sound;
        bounded = omega (
          arith,
          Laws.length-insert_old key (record x { access_time = t2 }) c.entries x e,
          v.bounded,
        );
        positive = v.positive;
      })
    ]
  ]

  -- After `evict_lru` on a full cache there is room for one more entry.
  room-evict_lru :
      (c : Cache V)
      → IsValid c
      → 0 < length c.entries
      → IsValid (evict_lru c) × (length (evict_lru c).entries + 1 ≤ c.max_size)
  room-evict_lru c v h =
      let (k, x, found, least, e) = evict_lru_lem c v h in
      let l = Laws.length-delete k c.entries x v.sound.distinct found in
      rw e (
        record {
          sound = delete-IsSound k c.entries v.sound;
          bounded = omega (arith, l, v.bounded);
          positive = v.positive;
        },
        omega (arith, l, v.bounded),
      )

  insert_new-IsValid :
      (c : Cache V) (key : Bytes) (e : Entry V)
      → is_empty key ≡ false
      → 0 < e.access_time
      → IsValid c
      → length c.entries + 1 ≤ c.max_size
      → IsValid (record c { entries = insert key e c.entries })
  insert_new-IsValid c key e named pos v room = record {
    sound = insert-IsSound key e c.entries named pos v.sound;
    bounded = omega (arith, Laws.length-insert-le key e c.entries);
    positive = v.positive;
  }

  pub set-IsValid :
      (c : Cache V) (key : Bytes) (value : V) (t1 t2 t3 : ℕ)
      → 0 < t2
      → 0 < t3
      → is_empty key ≡ false
      → IsValid c
      → IsValid (QueryCache.set c key value t1 t2 t3)
  set-IsValid c key value t1 t2 t3 p2 p3 named v = elim (Option-cases (lookup key c.entries)) [
    | inr (x, e) ↦ rw (set_old c key value t1 t2 t3 x e) (record {
      sound = insert-IsSound key _ c.entries named p2 v.sound;
      bounded = omega (
        arith,
        Laws.length-insert_old key
            (record x { value = value; expires_at = t1 + c.ttl; access_time = t2 }) c.entries x e,
        v.bounded,
      );
      positive = v.positive;
    })
    | inl e ↦ elim (Bool-cases (leb c.max_size (length c.entries))) [
      | inr room ↦
          rw (set_room c key value t1 t2 t3 e room)
            (insert_new-IsValid c key (fresh_entry c key value t1 t2 t3) named p3 v (ground arith))
      | inl full ↦
          let some_entry : 0 < length c.entries = ground (arith, v.positive) in
          let (k, x, found, least, gone) = evict_lru_lem c v some_entry in
          let (v', room) = room-evict_lru c v some_entry in
          rw (set_full c key value t1 t2 t3 (evict_lru c) e full refl (rw gone)) (
            insert_new-IsValid (evict_lru c) key (fresh_entry c key value t1 t2 t3) named p3 v'
              (rw gone (rw gone at room)))
    ]
  ]

  pub delete-IsValid : (c : Cache V) (key : Bytes) → IsValid c → IsValid (QueryCache.delete c key)
  delete-IsValid c key v = elim (Option-cases (lookup key c.entries)) [
    | inl e ↦ rw (delete_absent c key e) v
    | inr (x, e) ↦ rw (delete_present c key x e) (record {
      sound = delete-IsSound key c.entries v.sound;
      bounded = omega (arith, Laws.length-delete-le key c.entries, v.bounded);
      positive = v.positive;
    })
  ]

  pub sweep-IsValid :
      (c : Cache V) (p : Bytes → Entry V → Bool) (n : ℕ)
      → IsValid c
      → IsValid (record c { entries = Map.delete_where p c.entries; evict_count = n })
  sweep-IsValid c p n v = record {
    sound = delete_where-IsSound p c.entries v.sound;
    bounded = omega (arith, Laws.length-delete_where p c.entries, v.bounded);
    positive = v.positive;
  }
