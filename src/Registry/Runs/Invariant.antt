-- ===== src/Registry/Runs/Invariant.antt =====
-- storage/db_registry.go: what holds of every registry that calls lead to.
use openbao_teradata_secret.Common.{
  ℕ, zero, suc, ◌≡◌, refl, inl, inr, [], ◌∷◌, Option, none, some, arith, Option-cases,
}
use openbao_teradata_secret.Common.Bytes.{Bytes}
use openbao_teradata_secret.Common.Map
use openbao_teradata_secret.Common.Map.{Map, lookup, insert, Distinct, AllEntries}
use openbao_teradata_secret.Common.Map.Laws
use openbao_teradata_secret.Database.{Driver}
use openbao_teradata_secret.Outcome.{Outcome, Outcome-cases}
use openbao_teradata_secret.Registry.{
  DbConfig, with_defaults, ConnectionState, unknown, healthy, unhealthy, closed, Connection,
  Registry,
}
use openbao_teradata_secret.Registry.Defaults.{IsFitted, with_defaults-IsFitted}
use openbao_teradata_secret.Registry.Pools
use openbao_teradata_secret.Registry.Pools.{
  new_connection, add_connection, add_opened, update_connection, remove_connection,
}
use openbao_teradata_secret.Registry.Pools.Branches.{Stored, add_opened-Stored}
use openbao_teradata_secret.Registry.Runs.{
  Op, add, update, remove, check, cleanup, top_up, shutdown, run_op, Reach, start, after,
}
use openbao_teradata_secret.Registry.Upkeep.{
  checked, check_health, check_all, cleanup_idle_connections, cleanup_all, ping_each,
  ensure_min_connections, ensure_all, touch_last_used, to_open,
}
use openbao_teradata_secret.Registry.Upkeep.Idle.{cleanup_idle_connections_cases}
use openbao_teradata_secret.Retry.{Error, Context}

module _ (d : Driver) where
  -- A healthy connection has no health error.
  abbrev pub Agrees : ConnectionState → Option Error → Type 0
  Agrees healthy e = e ≡ none
  Agrees unknown e = Unit
  Agrees unhealthy e = Unit
  Agrees closed e = Unit

  -- A connection whose sizes fit and whose state agrees with its health error.
  pub record IsSound (c : Connection d) : Type 0 where
    pub fitted : IsFitted c.config
    pub agrees : Agrees c.state c.health_check_err

  -- One connection to a name, and each of them sound.
  pub record IsValid (m : Map (Connection d)) : Type 0 where
    pub distinct : Distinct m
    pub sound : AllEntries IsSound m

  new_connection-IsSound :
      (config : DbConfig) (db : d.Db) (t1 t2 : ℕ)
      → IsSound (new_connection d (with_defaults config) db t1 t2)
  new_connection-IsSound config db t1 t2 = record {
    fitted = (with_defaults-IsFitted config).0;
    agrees = tt;
  }

  insert-IsValid :
      (name : Bytes) (c : Connection d) (m : Map (Connection d))
      → IsSound c
      → IsValid m
      → IsValid (insert name c m)
  insert-IsValid name c m s v = record {
    distinct = Laws.insert-Distinct name c m v.distinct;
    sound = Laws.AllEntries-insert _ name c m s v.sound;
  }

  delete-IsValid : (name : Bytes) (m : Map (Connection d)) → IsValid m → IsValid (Map.delete name m)
  delete-IsValid name m v = record {
    distinct = Laws.delete-Distinct name m v.distinct;
    sound = Laws.AllEntries-delete _ name m v.sound;
  }

  Stored-IsValid :
      (r : Registry d) (name : Bytes) (config : DbConfig) (t1 t2 : ℕ)
      (p : Registry d × Outcome Error (Connection d))
      → Stored d r name (with_defaults config) t1 t2 p
      → IsValid r.connections
      → IsValid p.0.connections
  Stored-IsValid r name config t1 t2 p (inl (db, done, same)) v =
      rw same (insert-IsValid name _ r.connections (new_connection-IsSound config db t1 t2) v)
  Stored-IsValid r name config t1 t2 p (inr (failed, same)) v = rw same v

  -- The same names in the same order, with every connection sound.
  abbrev Kept : Map (Connection d) → Map (Connection d) → Type 0
  Kept [] [] = Unit
  Kept [] (p ∷ m) = ⊥
  Kept (p ∷ m) [] = ⊥
  Kept ((j, b) ∷ m) ((k, c) ∷ n) = (j ≡ k) × (IsSound b → IsSound c) × Kept m n

  Kept-same : (m : Map (Connection d)) → Kept m m
  Kept-same [] = tt
  Kept-same ((k, c) ∷ m) = (refl, (λ s. s), Kept-same m)

  Kept-lookup :
      (j : Bytes) (m n : Map (Connection d)) → Kept m n → lookup j m ≡ none → lookup j n ≡ none
  unfolding lookup
  Kept-lookup j [] [] k h = refl
  Kept-lookup j [] (p ∷ n) k h = absurd k
  Kept-lookup j (p ∷ m) [] k h = absurd k
  Kept-lookup j ((i, b) ∷ m) ((l, c) ∷ n) k h = ground (arith, Kept-lookup j m n k.2)

  Kept-IsValid : (m n : Map (Connection d)) → Kept m n → IsValid m → IsValid n
  Kept-IsValid [] [] k v = v
  Kept-IsValid [] (p ∷ n) k v = absurd k
  Kept-IsValid (p ∷ m) [] k v = absurd k
  Kept-IsValid ((i, b) ∷ m) ((l, c) ∷ n) k v =
      let rest = Kept-IsValid m n k.2 (record { distinct = v.distinct.1; sound = v.sound.1 }) in
      record {
        distinct = (rw (← k.0) (Kept-lookup i m n k.2 v.distinct.0), rest.distinct);
        sound = (k.1 v.sound.0, rest.sound);
      }

  checked-IsSound :
      (c : Connection d) (e : Option Error) (now : ℕ) → IsSound c → IsSound (checked d c e now)
  unfolding checked
  checked-IsSound c none now s = record { fitted = s.fitted; agrees = refl }
  checked-IsSound c (some e) now s = record { fitted = s.fitted; agrees = tt }

  check_all-Kept :
      (clock : Bytes → ℕ) (m : Map (Connection d)) (w : d.State) → Kept m (check_all d clock m w).1
  unfolding check_all check_health checked
  check_all-Kept clock [] w = tt
  check_all-Kept clock ((name, c) ∷ m) w =
      (refl, checked-IsSound c _ (clock name), check_all-Kept clock m _)

  cleanup-IsSound :
      (c : Connection d) (clock : ℕ → ℕ) (w : d.State)
      → IsSound c
      → IsSound (cleanup_idle_connections d c clock w).1
  cleanup-IsSound c clock w s = elim (cleanup_idle_connections_cases d c clock w) [
    | inl same ↦ rw same s
    | inr (n, k, some_closed, fits, old, same) ↦ rw same (record { fitted = s.fitted; agrees = tt })
  ]

  cleanup_all-Kept :
      (clock : Bytes → ℕ → ℕ) (m : Map (Connection d)) (w : d.State)
      → Kept m (cleanup_all d clock m w).1
  unfolding cleanup_all
  cleanup_all-Kept clock [] w = tt
  cleanup_all-Kept clock ((name, c) ∷ m) w =
      (refl, cleanup-IsSound c (clock name) w, cleanup_all-Kept clock m _)

  ping_each-IsSound :
      (n : ℕ) (clock : ℕ → ℕ) (c : Connection d) (w : d.State)
      → IsSound c
      → IsSound (ping_each d n clock c w).1
  unfolding ping_each touch_last_used
  ping_each-IsSound zero clock c w s = s
  ping_each-IsSound (suc n) clock c w s = elim (Option-cases (d.ping c.database w).1) [
    | inr (e, failed) ↦ rw (ping_each, failed) s
    | inl went ↦
        rw (ping_each, went)
          (ping_each-IsSound n clock (record c { last_used = clock n }) (d.ping c.database w).0
            (record { fitted = s.fitted; agrees = s.agrees }))
  ]

  ensure_all-Kept :
      (clock : Bytes → ℕ → ℕ) (m : Map (Connection d)) (w : d.State)
      → Kept m (ensure_all d clock m w).1
  unfolding ensure_all ensure_min_connections
  ensure_all-Kept clock [] w = tt
  ensure_all-Kept clock ((name, c) ∷ m) w =
      let n = to_open d c.config (d.stats c.database w) in
      let sound = ping_each-IsSound n (clock name) c w in
      elim (Option-cases (ping_each d n (clock name) c w).2) [
        | inr (e, failed) ↦ rw (ensure_all, failed) (refl, sound, Kept-same m)
        | inl went ↦ rw (ensure_all, went) (refl, sound, ensure_all-Kept clock m _)
      ]

  add-IsValid :
      (ctx : Context) (r : Registry d) (name : Bytes) (config : DbConfig) (t1 t2 : ℕ)
      → IsValid r.connections
      → IsValid (add_connection d ctx r name config t1 t2).0.connections
  unfolding add_connection
  add-IsValid ctx r name config t1 t2 v = elim (Option-cases (lookup name r.connections)) [
    | inr (c, present) ↦ rw (present, add_connection) v
    | inl absent ↦
        let opened = d.open_db (with_defaults config).connection_string r.world in
        elim (Outcome-cases opened.1) [
          | inl (db, done) ↦
              rw (absent, add_connection, done)
                (Stored-IsValid r name config t1 t2
                  (add_opened d ctx r name (with_defaults config) db opened.0 t1 t2)
                  (add_opened-Stored d ctx r name (with_defaults config) db opened.0 t1 t2) v)
          | inr (inl (e, failed)) ↦ rw (absent, add_connection, failed) v
          | inr (inr failed) ↦ rw (absent, add_connection, failed) v
        ]
  ]

  remove-IsValid :
      (r : Registry d) (name : Bytes)
      → IsValid r.connections
      → IsValid (remove_connection d r name).connections
  unfolding remove_connection
  remove-IsValid r name v = elim (Option-cases (lookup name r.connections)) [
    | inr (c, present) ↦ rw (present, remove_connection) (delete-IsValid name r.connections v)
    | inl absent ↦ rw (absent, remove_connection) (delete-IsValid name r.connections v)
  ]

  update-IsValid :
      (r : Registry d) (name : Bytes) (config : DbConfig) (t1 t2 : ℕ)
      → IsValid r.connections
      → IsValid (update_connection d r name config t1 t2).0.connections
  unfolding update_connection
  update-IsValid r name config t1 t2 v =
      let r1 = remove_connection d r name in
      let v1 = remove-IsValid r name v in
      let opened = d.open_db (with_defaults config).connection_string r1.world in
      elim (Outcome-cases opened.1) [
        | inl (db, done) ↦
            rw (update_connection, done)
              (insert-IsValid name _ r1.connections (new_connection-IsSound config db t1 t2) v1)
        | inr (inl (e, failed)) ↦ rw (update_connection, failed) v1
        | inr (inr failed) ↦ rw (update_connection, failed) v1
      ]

  run_op-IsValid :
      (op : Op) (r : Registry d) → IsValid r.connections → IsValid (run_op d op r).connections
  unfolding run_op Pools.shutdown_pools
  run_op-IsValid (add ctx name config t1 t2) r v = add-IsValid ctx r name config t1 t2 v
  run_op-IsValid (update name config t1 t2) r v = update-IsValid r name config t1 t2 v
  run_op-IsValid (remove name) r v = remove-IsValid r name v
  run_op-IsValid (check clock) r v =
      Kept-IsValid r.connections _ (check_all-Kept clock r.connections r.world) v
  run_op-IsValid (cleanup clock) r v =
      Kept-IsValid r.connections _ (cleanup_all-Kept clock r.connections r.world) v
  run_op-IsValid (top_up clock) r v =
      Kept-IsValid r.connections _ (ensure_all-Kept clock r.connections r.world) v
  run_op-IsValid shutdown r v = record { distinct = tt; sound = tt }

  -- Whatever calls and jobs ran on a new registry, and whatever the database did between them,
  -- the registry has one connection to a name, the sizes of every connection fit one another, and
  -- a healthy connection has no health error.
  pub Reach-IsValid : (r : Registry d) → Reach d r → IsValid r.connections
  unfolding Pools.new
  Reach-IsValid r (start w) = record { distinct = tt; sound = tt }
  Reach-IsValid r (after {r = r'} op w h) = run_op-IsValid op r' (Reach-IsValid r' h)
