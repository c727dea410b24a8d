-- ===== src/Registry/Pools/Added.antt =====
-- storage/db_registry.go: what adding and updating a connection answers and stores.
use openbao_teradata_secret.Common.{
  ℕ, ◌≡◌, refl, ◌⊎◌, inl, inr, none, some, arith, Option-cases, if◌then◌else◌, ◌++◌,
}
use openbao_teradata_secret.Common.Bytes.{Bytes, codes, bytes_eq}
use openbao_teradata_secret.Common.Map.{lookup}
use openbao_teradata_secret.Common.Map.Laws
use openbao_teradata_secret.Database.{Driver}
use openbao_teradata_secret.Outcome.{ok, err, panic, Outcome-cases}
use openbao_teradata_secret.Registry.{DbConfig, with_defaults, Connection, Registry}
use openbao_teradata_secret.Registry.Pools.{
  add_connection, remove_connection, update_connection, new_connection,
}
use openbao_teradata_secret.Registry.Pools.Branches.{Stored, add_opened-Stored}
use openbao_teradata_secret.Retry.{Error, Context, plain, error_text}

module _ (d : Driver) where
  -- `AddConnection` of a name that the registry has answers the connection it has and changes nothing.
  -- Otherwise it stores and answers a new one with the defaults set, or it fails and the map of
  -- connections is as before.
  pub add_connection_cases :
      (ctx : Context) (r : Registry d) (name : Bytes) (config : DbConfig) (t1 t2 : ℕ)
      → ((c : Connection d) × (lookup name r.connections ≡ some c)
          × (add_connection d ctx r name config t1 t2 ≡ (r, ok c)))
        ⊎ ((lookup name r.connections ≡ none)
            × Stored d r name
                (with_defaults config)
                t1
                t2
                (add_connection d ctx r name config t1 t2))
  unfolding add_connection
  add_connection_cases ctx r name config t1 t2 = elim (Option-cases (lookup name r.connections)) [
    | inr (c, present) ↦ inl (c, present, rw (present, add_connection))
    | inl absent ↦
        let opened = d.open_db (with_defaults config).connection_string r.world in
        inr (
          absent,
          elim (Outcome-cases opened.1) [
            | inl (db, done) ↦
                rw (absent, add_connection, done)
                  (add_opened-Stored d ctx r name (with_defaults config) db opened.0 t1 t2)
            | inr (inl (e, failed)) ↦
                rw (absent, add_connection, failed) (inr (inl (_, refl), refl))
            | inr (inr failed) ↦ rw (absent, add_connection, failed) (inr (inr refl, refl))
          ],
        )
  ]

  pub add_connection_new :
      (ctx : Context) (r r' : Registry d) (name : Bytes) (config : DbConfig) (t1 t2 : ℕ)
      (c : Connection d)
      → lookup name r.connections ≡ none
      → add_connection d ctx r name config t1 t2 ≡ (r', ok c)
      → (db : d.Db) × (c ≡ new_connection d (with_defaults config) db t1 t2)
  add_connection_new ctx r r' name config t1 t2 c absent added =
      elim (add_connection_cases ctx r name config t1 t2) [
        | inl (x, present, same) ↦ absurd (cc)
        | inr (a, inl (db, done, stored)) ↦ (db, cc)
        | inr (a, inr (inl (e, failed), kept)) ↦ absurd (cc)
        | inr (a, inr (inr failed, kept)) ↦ absurd (cc)
      ]

  lookup-remove_connection :
      (r : Registry d) (name j : Bytes)
      → lookup j (remove_connection d r name).connections
        ≡ (if bytes_eq name j then none else lookup j r.connections)
  unfolding remove_connection
  lookup-remove_connection r name j = elim (Option-cases (lookup name r.connections)) [
    | inr (c, present) ↦ rw (present, remove_connection) (Laws.lookup-delete name j r.connections)
    | inl absent ↦ rw (absent, remove_connection) (Laws.lookup-delete name j r.connections)
  ]

  -- UpdateConnection stores and answers a new connection with the defaults set, or it fails and
  -- the registry has no connection of the name any more, the one that it had included; every
  -- other name keeps its connection.
  pub lookup-update_connection :
      (r : Registry d) (name : Bytes) (config : DbConfig) (t1 t2 : ℕ) (j : Bytes)
      → ((c : Connection d) × ((update_connection d r name config t1 t2).1 ≡ ok c)
          × (c.config ≡ with_defaults config)
          × (lookup j (update_connection d r name config t1 t2).0.connections
              ≡ (if bytes_eq name j then some c else lookup j r.connections)))
        ⊎ ((((e : Error) × ((update_connection d r name config t1 t2).1 ≡ err e))
              ⊎ ((update_connection d r name config t1 t2).1 ≡ panic))
            × (lookup j (update_connection d r name config t1 t2).0.connections
                ≡ (if bytes_eq name j then none else lookup j r.connections)))
  unfolding update_connection
  lookup-update_connection r name config t1 t2 j =
      let r1 = remove_connection d r name in
      let gone = lookup-remove_connection r name j in
      let opened = d.open_db (with_defaults config).connection_string r1.world in
      elim (Outcome-cases opened.1) [
        | inl (db, done) ↦ inl (
          new_connection d (with_defaults config) db t1 t2,
          rw (done, update_connection),
          refl,
          rw (done, update_connection)
              (ground (
                arith,
                gone,
                Laws.lookup-insert name j (new_connection d (with_defaults config) db t1 t2)
                    r1.connections,
              )),
        )
        | inr (inl (e, failed)) ↦ inr (
          inl (
            plain (codes "failed to open database: " ++ error_text e),
            rw (failed, update_connection),
          ),
          rw (failed, update_connection) gone,
        )
        | inr (inr failed) ↦
            inr (inr (rw (failed, update_connection)), rw (failed, update_connection) gone)
      ]
