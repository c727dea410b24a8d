-- ===== src/Registry/Pools.antt =====
-- storage/db_registry.go: the operations of `DBRegistry` on its map, each under its lock.
pub mod Branches
pub mod Added
use openbao_teradata_secret.Common.{
  ℕ, Bool, true, false, List, [], ◌∷◌, Option, none, some, map, ltb, if◌then◌else◌,
}
use openbao_teradata_secret.Common.Bytes.{Bytes, codes}
use openbao_teradata_secret.Common.Int.{pos, ltbℤ}
use openbao_teradata_secret.Common.Map
use openbao_teradata_secret.Common.Map.{Map, lookup, insert}
use openbao_teradata_secret.Database.{Driver, DbStats, as_operation}
use openbao_teradata_secret.Outcome.{Outcome, ok, err, panic}
use openbao_teradata_secret.Registry.{
  DbConfig, with_defaults, ConnectionState, unknown, closed, Connection, Registry,
}
use openbao_teradata_secret.Retry
use openbao_teradata_secret.Retry.{Error, Context, wrap, do_retry}

module _ (d : Driver) where
  -- `NewDBRegistry`
  unfoldable pub new : d.State → Registry d
  new world = record { connections = []; world = world }

  -- `GetConnection`
  unfoldable pub get_connection : Registry d → Bytes → Option (Connection d)
  get_connection r name = lookup name r.connections

  -- `ListConnections`
  abbrev pub names : Map (Connection d) → List Bytes
  names [] = []
  names ((name, conn) ∷ m) = name ∷ names m

  unfoldable pub list_connections : Registry d → List Bytes
  list_connections r = names r.connections

  -- A connection just made; `t1` and `t2` are read for its times.
  abbrev pub new_connection : DbConfig → d.Db → ℕ → ℕ → Connection d
  new_connection config db t1 t2 = record {
    config = config;
    database = db;
    state = unknown;
    last_health_check = t1;
    last_used = t2;
    health_check_err = none;
  }

  -- Stores a connection just made.
  abbrev pub store_new :
      Registry d → d.State → Bytes → Connection d → Registry d × Outcome Error (Connection d)
  store_new r w name conn =
      (record { connections = insert name conn r.connections; world = w }, ok conn)

  -- `AddConnection` after `sql.Open`: the limits are set, and the database is pinged with retries.
  unfoldable pub add_opened :
      Context
      → Registry d
      → Bytes
      → DbConfig
      → d.Db
      → d.State
      → ℕ
      → ℕ
      → Registry d × Outcome Error (Connection d)
  add_opened ctx r name config db w t1 t2 =
      let w1 =
        d.set_limits db config.max_open_connections config.max_idle_connections
          config.max_connection_lifetime w in
      let run =
        do_retry ctx (some (record { max_attempts = config.max_retries }))
          (λ s. as_operation (d.ping db s)) w1 in
      elim run.outcome [
        | ok _ ↦ store_new r run.state name (new_connection config db t1 t2)
        | err e ↦ (
          record r { world = d.close db run.state },
          wrap (codes "failed to connect to database: ") (err e),
        )
        | panic ↦ (record r { world = run.state }, panic)
      ]

  -- `AddConnection`
  unfoldable pub add_connection :
      Context → Registry d → Bytes → DbConfig → ℕ → ℕ → Registry d × Outcome Error (Connection d)
  unfolding add_opened
  add_connection ctx r name config t1 t2 = elim (lookup name r.connections) [
    | some conn ↦ (r, ok conn)
    | none ↦
        let c = with_defaults config in
        let (w, opened) = d.open_db c.connection_string r.world in
        elim opened [
          | ok db ↦ add_opened ctx r name c db w t1 t2
          | err e ↦ (record r { world = w }, wrap (codes "failed to open database: ") (err e))
          | panic ↦ (record r { world = w }, panic)
        ]
  ]

  -- `RemoveConnection`
  unfoldable pub remove_connection : Registry d → Bytes → Registry d
  remove_connection r name = elim (lookup name r.connections) [
    | none ↦ record r { connections = Map.delete name r.connections }
    | some conn ↦ record {
      connections = Map.delete name r.connections;
      world = d.close conn.database r.world;
    }
  ]

  -- `UpdateConnection`: the old connection is closed and dropped first, and the new database is not
  -- pinged.
  unfoldable pub update_connection :
      Registry d → Bytes → DbConfig → ℕ → ℕ → Registry d × Outcome Error (Connection d)
  unfolding remove_connection
  update_connection r name config t1 t2 =
      let r1 = remove_connection r name in
      let c = with_defaults config in
      let (w, opened) = d.open_db c.connection_string r1.world in
      elim opened [
        | ok db ↦
            store_new r1
              (d.set_limits db c.max_open_connections c.max_idle_connections
                c.max_connection_lifetime w)
              name (new_connection c db t1 t2)
        | err e ↦ (record r1 { world = w }, wrap (codes "failed to open database: ") (err e))
        | panic ↦ (record r1 { world = w }, panic)
      ]

  -- `GetConnectionStats` and `GetDetailedConnectionStats`, with nothing for the error.
  unfoldable pub get_connection_stats :
      Registry d → Bytes → Option (ConnectionState × ℕ × ℕ × Option Error)
  get_connection_stats r name = elim (lookup name r.connections) [
    | none ↦ none
    | some conn ↦
        let stats = d.stats conn.database r.world in
        some (conn.state, stats.open_connections, stats.idle, conn.health_check_err)
  ]

  -- The loop at the end of `Shutdown`.
  abbrev pub close_all : Map (Connection d) → d.State → d.State
  close_all [] w = w
  close_all ((name, conn) ∷ m) w = close_all m (d.close conn.database w)

  unfoldable pub shutdown_pools : Registry d → Registry d
  shutdown_pools r = record { connections = []; world = close_all r.connections r.world }
