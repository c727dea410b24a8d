-- ===== src/Registry/Upkeep/Idle.antt =====
-- storage/db_registry.go: how many connections are opened, and what the cleanup closes.
use openbao_teradata_secret.Common.{
  ℕ, zero, suc, ◌+◌, ◌≤◌, ◌<◌, ◌≡◌, refl, ◌⊎◌, inl, inr, true, ◌&&◌, arith, ltb, leb, Bool-cases,
}
use openbao_teradata_secret.Common.Int.{pos, lebℤ, pos_part}
use openbao_teradata_secret.Database.{Driver, DbStats}
use openbao_teradata_secret.Registry.{DbConfig, closed, Connection}
use openbao_teradata_secret.Registry.Upkeep.{
  batch_size, is_evictable, evict, cleanup_idle_connections, to_open,
}

module _ (d : Driver) where
  -- Topping up opens no more connections than are missing, and exceeds neither the least number of
  -- idle ones nor the most open ones.
  pub to_open_bounds :
      (config : DbConfig) (stats : DbStats)
      → (0 < to_open d config stats)
      → (stats.idle + to_open d config stats ≤ pos_part config.min_connections)
        × (stats.open_connections + to_open d config stats ≤ pos_part config.max_open_connections)
  unfolding to_open
  to_open_bounds config stats h = ground arith

  -- The database closed so many times.
  abbrev pub closes : d.Db → ℕ → d.State → d.State
  closes db zero w = w
  closes db (suc n) w = closes db n (d.close db w)

  evict-closes :
      (c : Connection d) (clock : ℕ → ℕ) (idle left i evicted : ℕ) (w : d.State)
      → (n : ℕ) × (n ≤ left)
        × (evict d c clock idle left i evicted w ≡ (closes c.database n w, evicted + n))
        × ((n ≡ 0) ⊎ ((k : ℕ) × (is_evictable d c.config c.last_used (clock k) ≡ true)))
  unfolding evict
  evict-closes c clock idle zero i evicted w = (0, omega arith, ground arith, inl refl)
  evict-closes c clock idle (suc left) i evicted w = elim (Bool-cases (ltb evicted idle)) [
    | inr full ↦ (0, omega arith, rw (evict, full) (ground arith), inl refl)
    | inl more ↦ elim (Bool-cases (is_evictable d c.config c.last_used (clock i))) [
      | inl old ↦
          let (n, fits, same, why) =
            evict-closes c clock idle left (i + 1) (evicted + 1) (d.close c.database w) in
          (suc n, omega arith, rw (evict, more, old, same) (ground arith), inr (i, old))
      | inr young ↦
          let (n, fits, same, why) = evict-closes c clock idle left (i + 1) evicted w in
          (n, omega arith, rw (evict, more, young, same), why)
    ]
  ]

  -- A cleanup leaves a connection and the database alone, or it closes the whole database, at least
  -- once and at most as often as a batch is large, and marks the connection closed; then the
  -- database had been idle for long enough at one of the readings of the clock.
  pub cleanup_idle_connections_cases :
      (c : Connection d) (clock : ℕ → ℕ) (w : d.State)
      → (cleanup_idle_connections d c clock w ≡ (w, c))
        ⊎ ((n : ℕ) × (k : ℕ) × (0 < n)
            × (n ≤ batch_size d c.config (d.stats c.database w).idle)
            × (is_evictable d c.config c.last_used (clock k) ≡ true)
            × (cleanup_idle_connections d c clock w
                ≡ (closes c.database n w, record c { state = closed })))
  unfolding cleanup_idle_connections
  cleanup_idle_connections_cases c clock w =
      let idle = (d.stats c.database w).idle in
      elim (Bool-cases
        (lebℤ c.config.idle_timeout (pos 0) && lebℤ c.config.min_evictable_idle_time (pos 0))) [
          | inl off ↦ inl (rw off)
          | inr on ↦ elim (Bool-cases (leb idle 0)) [
            | inl busy ↦ inl (rw (on, busy))
            | inr some_idle ↦
                let (n, fits, same, why) =
                  evict-closes c clock idle (batch_size d c.config idle) 0 0 w in
                elim why [
                  | inl nothing ↦ inl (rw (on, some_idle, same, nothing))
                  | inr (k, old) ↦ elim (Bool-cases (ltb 0 (0 + n))) [
                    | inl closed_some ↦
                        inr (n, k, ground arith, fits, old, rw (on, some_idle, same, closed_some))
                    | inr nothing ↦
                        let z : n ≡ 0 = ground arith in inl (rw (on, some_idle, same, z))
                  ]
                ]
          ]
        ]
