-- ===== src/QueryCache/Coherence.antt =====
-- plugin/query_cache.go: what `Get` answers, against the history of the calls.
use openbao_teradata_secret.Common.{
  ℕ, ◌+◌, ◌≤◌, ◌≡◌, refl, Bool, true, false, Option, none, some, inl, inr, arith, length, leb, ltb,
  Bool-cases, Option-cases, if◌then◌else◌,
}
use openbao_teradata_secret.Common.Bytes.{Bytes, bytes_eq, bytes_eq_iff}
use openbao_teradata_secret.Common.Int.{ℤ}
use openbao_teradata_secret.Common.Map
use openbao_teradata_secret.Common.Map.{Map, lookup, insert, Distinct}
use openbao_teradata_secret.Common.Map.Laws
use openbao_teradata_secret.QueryCache
use openbao_teradata_secret.QueryCache.{Entry, Cache, tick, evict_lru}
use openbao_teradata_secret.QueryCache.Branches.{
  get_miss, get_stale, get_fresh, set_old, set_room, set_full, delete_absent, delete_present,
  fresh_entry,
}
use openbao_teradata_secret.QueryCache.History.{
  Call, get, set, delete, delete_by_prefix, clear, cleanup, close, exec, Ideal, note, Run, start,
  call, reorder, Run-IsValid,
}
use openbao_teradata_secret.QueryCache.Invariant.{IsValid, evict_lru_lem}

module _ {V : Type 0} where
  -- Every entry holds what the history has for its key.
  pub record Coherent (m : Map (Entry V)) (h : Bytes → Option (V × ℕ)) : Type 0 where
    pub agrees :
        (j : Bytes) (e : Entry V) → lookup j m ≡ some e → h j ≡ some (e.value, e.expires_at)

  Coherent-if :
      (b : Bool) (c : Cache V) {h : Ideal V}
      → Coherent c.entries h
      → Coherent (if b then c else record c { done = true }).entries h
  Coherent-if true c a = a
  Coherent-if false c a = a

  Coherent-insert :
      (k : Bytes) (e : Entry V) (m : Map (Entry V)) (h : Ideal V)
      → Coherent m h
      → Coherent (insert k e m) (λ j. if bytes_eq k j then some (e.value, e.expires_at) else h j)
  Coherent-insert k e m h a = record {
    agrees = λ j x f. ground (arith, Laws.lookup-insert k j e m, a.agrees j x);
  }

  Coherent-delete :
      (k : Bytes) (m : Map (Entry V)) (h : Ideal V) → Coherent m h → Coherent (Map.delete k m) h
  Coherent-delete k m h a = record {
    agrees = λ j x f. ground (arith, Laws.lookup-delete k j m, a.agrees j x);
  }

  -- A touch changes neither a value nor an expiry.
  Coherent-touch :
      (k : Bytes) (x : Entry V) (t : ℕ) (m : Map (Entry V)) (h : Ideal V)
      → lookup k m ≡ some x
      → Coherent m h
      → Coherent (insert k (record x { access_time = t }) m) h
  Coherent-touch k x t m h found a = record {
    agrees = λ j y f. ground (
      arith,
      Laws.lookup-insert k j (record x { access_time = t }) m,
      bytes_eq_iff k j,
      a.agrees j y,
      a.agrees k x,
    );
  }

  get-Coherent :
      (c : Cache V) (key : Bytes) (t1 t2 : ℕ) (h : Ideal V)
      → Coherent c.entries h
      → Coherent (QueryCache.get c key t1 t2).0.entries h
  get-Coherent c key t1 t2 h a = elim (Option-cases (lookup key c.entries)) [
    | inl e ↦ rw (get_miss c key t1 t2 e) a
    | inr (x, e) ↦ elim (Bool-cases (ltb x.expires_at t1)) [
      | inl old ↦ rw (get_stale c key t1 t2 x e old) (Coherent-delete key c.entries h a)
      | inr fresh ↦ rw (get_fresh c key t1 t2 x e fresh) (Coherent-touch key x t2 c.entries h e a)
    ]
  ]

  set-Coherent :
      (c : Cache V) (key : Bytes) (value : V) (t1 t2 t3 : ℕ) (h : Ideal V)
      → IsValid c
      → Coherent c.entries h
      → Coherent
          (QueryCache.set c key value t1 t2 t3).entries
          (λ j. if bytes_eq key j then some (value, t1 + c.ttl) else h j)
  set-Coherent c key value t1 t2 t3 h v a = elim (Option-cases (lookup key c.entries)) [
    | inr (x, e) ↦ rw (set_old c key value t1 t2 t3 x e) (
        Coherent-insert key (record x { value = value; expires_at = t1 + c.ttl; access_time = t2 })
          c.entries h a)
    | inl e ↦ elim (Bool-cases (leb c.max_size (length c.entries))) [
      | inr room ↦
          rw (set_room c key value t1 t2 t3 e room)
            (Coherent-insert key (fresh_entry c key value t1 t2 t3) c.entries h a)
      | inl full ↦
          let (k, x, found, least, gone) = evict_lru_lem c v (ground (arith, v.positive)) in
          rw (set_full c key value t1 t2 t3 _ e full gone refl) (
            Coherent-insert key (fresh_entry c key value t1 t2 t3) (Map.delete k c.entries) h
              (Coherent-delete k c.entries h a))
    ]
  ]

  exec-Coherent :
      (k : Call V) (c : Cache V) (h : Ideal V)
      → IsValid c
      → Coherent c.entries h
      → Coherent (exec k c).entries (note c.ttl k h)
  unfolding exec note QueryCache.delete_by_prefix QueryCache.clear QueryCache.cleanup_expired
      QueryCache.close
  exec-Coherent (get key t1 t2) c h v a = get-Coherent c key t1 t2 h a
  exec-Coherent (set key value t1 t2 t3) c h v a = set-Coherent c key value t1 t2 t3 h v a
  exec-Coherent (delete key) c h v a = elim (Option-cases (lookup key c.entries)) [
    | inl e ↦
        rw (delete_absent c key e)
          (record { agrees = λ j x f. ground (arith, bytes_eq_iff key j, a.agrees j x) })
    | inr (x, e) ↦ rw (delete_present c key x e) (record {
      agrees = λ j y f. ground (arith, Laws.lookup-delete key j c.entries, a.agrees j y);
    })
  ]
  exec-Coherent (delete_by_prefix prefix) c h v a = record {
    agrees = λ j x f.
        let (kept, other) = Laws.delete_where_kept _ j c.entries x v.sound.distinct f in
        rw other (a.agrees j x kept);
  }
  exec-Coherent clear c h v a = record { agrees = λ j x f. cc (Laws.lookup-nil {V = Entry V} j) }
  exec-Coherent (cleanup now) c h v a = record {
    agrees = λ j x f. a.agrees j x (Laws.delete_where_kept _ j c.entries x v.sound.distinct f).0;
  }
  exec-Coherent close c h v a = Coherent-if c.done c a

  new-Coherent :
      (ttl max_size : ℤ) → Coherent (QueryCache.new {V = V} ttl max_size).entries (λ j. none)
  unfolding QueryCache.new
  new-Coherent ttl max_size = record {
    agrees = λ j x f. absurd (cc (Laws.lookup-nil {V = Entry V} j));
  }

  Run-Coherent :
      (ttl max_size : ℤ) (c : Cache V) (h : Ideal V) → Run ttl max_size c h → Coherent c.entries h
  Run-Coherent ttl max_size c h start = new-Coherent ttl max_size
  Run-Coherent ttl max_size c h (call {c = d} {h = g} k p r) =
      exec-Coherent k d g (Run-IsValid ttl max_size d g r) (Run-Coherent ttl max_size d g r)
  Run-Coherent ttl max_size c h (reorder {c = d} m s l same r) = record {
    agrees = λ j x f. (Run-Coherent ttl max_size d h r).agrees j x (cc (same j));
  }

  -- After any run of calls on a new query cache, in any order and with any map order between
  -- them, whose keys are not empty and whose clock is past the zero time, a value that Get
  -- answers is the one that the last Set of the key stored, no call has removed the key since,
  -- and the expiry set then has not passed.
  pub get-answer :
      (ttl max_size : ℤ) (c : Cache V) (h : Ideal V) (key : Bytes) (t1 t2 : ℕ) (value : V)
      → Run ttl max_size c h
      → (QueryCache.get c key t1 t2).1 ≡ some value
      → (expires : ℕ) × (h key ≡ some (value, expires)) × (t1 ≤ expires)
  get-answer ttl max_size c h key t1 t2 value r answered =
      elim (Option-cases (lookup key c.entries)) [
        | inl e ↦ absurd (cc (get_miss c key t1 t2 e))
        | inr (x, e) ↦ elim (Bool-cases (ltb x.expires_at t1)) [
          | inl old ↦ absurd (cc (get_stale c key t1 t2 x e old))
          | inr fresh ↦ (
            x.expires_at,
            ground (
              arith,
              (Run-Coherent ttl max_size c h r).agrees key x e,
              get_fresh c key t1 t2 x e fresh,
            ),
            ground arith,
          )
        ]
      ]
