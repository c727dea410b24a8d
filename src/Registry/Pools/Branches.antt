-- ===== src/Registry/Pools/Branches.antt =====
-- storage/db_registry.go: what adding, updating and removing a connection leaves in the map.
use openbao_teradata_secret.Common.{ℕ, ◌≡◌, refl, ◌⊎◌, inl, inr, some}
use openbao_teradata_secret.Common.Bytes.{Bytes}
use openbao_teradata_secret.Common.Map.{insert}
use openbao_teradata_secret.Database.{Driver, as_operation}
use openbao_teradata_secret.Outcome.{Outcome, ok, err, panic, Outcome-cases}
use openbao_teradata_secret.Registry.{DbConfig, Connection, Registry}
use openbao_teradata_secret.Registry.Pools.{add_opened, new_connection}
use openbao_teradata_secret.Retry.{Error, Context, do_retry}

module _ (d : Driver) where
  -- What an operation that may store a connection leaves: it stored the one that it answers, or it
  -- failed and the map has what it had before.
  abbrev pub Stored :
      Registry d → Bytes → DbConfig → ℕ → ℕ → Registry d × Outcome Error (Connection d) → Type 0
  Stored r name config t1 t2 (r', o) =
      ((db : d.Db) × (o ≡ ok (new_connection d config db t1 t2))
        × (r'.connections ≡ insert name (new_connection d config db t1 t2) r.connections))
      ⊎ (((e : Error) × (o ≡ err e)) ⊎ (o ≡ panic)) × (r'.connections ≡ r.connections)

  pub add_opened-Stored :
      (ctx : Context) (r : Registry d) (name : Bytes) (c : DbConfig) (db : d.Db) (w : d.State)
      (t1 t2 : ℕ)
      → Stored r name c t1 t2 (add_opened d ctx r name c db w t1 t2)
  unfolding add_opened
  add_opened-Stored ctx r name c db w t1 t2 =
      let run =
        do_retry ctx (some (record { max_attempts = c.max_retries }))
          (λ s. as_operation (d.ping db s))
          (d.set_limits db c.max_open_connections c.max_idle_connections c.max_connection_lifetime
            w) in
      elim (Outcome-cases run.outcome) [
        | inl (u, done) ↦ rw (add_opened, done) (inl (db, refl, refl))
        | inr (inl (e, failed)) ↦ rw (add_opened, failed) (inr (inl (_, refl), refl))
        | inr (inr failed) ↦ rw (add_opened, failed) (inr (inr refl, refl))
      ]
