-- ===== src/Registry/Runs.antt =====
-- storage/db_registry.go: any sequence of calls and jobs on a new registry. The calls of a run come in
-- any order, as the locks serialise them.
pub mod Invariant
use openbao_teradata_secret.Common.{ℕ}
use openbao_teradata_secret.Common.Bytes.{Bytes}
use openbao_teradata_secret.Database.{Driver}
use openbao_teradata_secret.Registry.{DbConfig, Connection, Registry}
use openbao_teradata_secret.Registry.Pools
use openbao_teradata_secret.Registry.Upkeep.{check_all, cleanup_all, ensure_all}
use openbao_teradata_secret.Retry.{Context}

-- A call, with the readings of the clock that it makes.
pub data Op : Type 0 where
  add : Context → Bytes → DbConfig → ℕ → ℕ → Op
  update : Bytes → DbConfig → ℕ → ℕ → Op
  remove : Bytes → Op
  check : (Bytes → ℕ) → Op
  cleanup : (Bytes → ℕ → ℕ) → Op
  top_up : (Bytes → ℕ → ℕ) → Op
  shutdown : Op

module _ (d : Driver) where
  unfoldable pub run_op : Op → Registry d → Registry d
  run_op (add ctx name config t1 t2) r = (Pools.add_connection d ctx r name config t1 t2).0
  run_op (update name config t1 t2) r = (Pools.update_connection d r name config t1 t2).0
  run_op (remove name) r = Pools.remove_connection d r name
  run_op (check clock) r =
      let (w, m) = check_all d clock r.connections r.world in record { connections = m; world = w }
  run_op (cleanup clock) r =
      let (w, m) = cleanup_all d clock r.connections r.world in
      record { connections = m; world = w }
  run_op (top_up clock) r =
      let (w, m, e) = ensure_all d clock r.connections r.world in
      record { connections = m; world = w }
  run_op shutdown r = Pools.shutdown_pools d r

  -- The registries that calls lead to. Between two calls the database may do what it likes.
  pub data Reach : Registry d → Type 0 where
    start : (w : d.State) → Reach (Pools.new d w)
    after :
        {r : Registry d} (op : Op) (w : d.State)
        → Reach r
        → Reach (record (run_op op r) { world = w })
