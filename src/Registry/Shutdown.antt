-- ===== src/Registry/Shutdown.antt =====
-- storage/db_registry.go: when `Shutdown` gets to the pools.
use openbao_teradata_secret.Common.{ℕ, ◌-◌, ◌≤◌, ◌<◌, ◌≡◌, ◌↔◌, refl, Bool, true, false, arith, ◌⊎◌}
use openbao_teradata_secret.Registry.Jobs.{
  Job, Phase, begun, on_health, on_cleanup, on_min_conns, at_pools, crashed, Jobs, Ends, closes,
  cancel_job, Step, cancels, health_ends, cleanup_ends, min_conns_ends, receives_health,
  receives_cleanup, receives_min_conns, crashes, Reach, here, after,
}

-- Since a job with `n` goroutines: its channel is closed only if there was one.
record IsSince (n : ℕ) (j : Job) : Type 0 where
  fewer : j.running ≤ n
  had_one : (j.closed ≡ false) ⊎ (0 < n)

Ends-IsSince : (n : ℕ) (j j' : Job) → IsSince n j → Ends j j' → IsSince n j'
Ends-IsSince n j j' i (closes k c o r same) = rw same (ground arith)

-- What `Shutdown` has received.
abbrev has_health : Phase → Bool
has_health begun = false
has_health on_health = false
has_health on_cleanup = true
has_health on_min_conns = true
has_health at_pools = true
has_health crashed = false

abbrev has_cleanup : Phase → Bool
has_cleanup begun = false
has_cleanup on_health = false
has_cleanup on_cleanup = false
has_cleanup on_min_conns = true
has_cleanup at_pools = true
has_cleanup crashed = false

abbrev has_min_conns : Phase → Bool
has_min_conns begun = false
has_min_conns on_health = false
has_min_conns on_cleanup = false
has_min_conns on_min_conns = false
has_min_conns at_pools = true
has_min_conns crashed = false

record IsAfter (s t : Jobs) : Type 0 where
  health : IsSince s.health.running t.health
  cleanup : IsSince s.cleanup.running t.cleanup
  min_conns : IsSince s.min_conns.running t.min_conns
  got_health : (has_health t.phase ≡ false) ⊎ (0 < s.health.running)
  got_cleanup : (has_cleanup t.phase ≡ false) ⊎ (0 < s.cleanup.running)
  got_min_conns : (has_min_conns t.phase ≡ false) ⊎ (0 < s.min_conns.running)

Step-IsAfter : (s t u : Jobs) → IsAfter s t → Step t u → IsAfter s u
Step-IsAfter s t u a (cancels p same) = rw same (ground arith)
Step-IsAfter s t u a (health_ends j e same) =
    let since = Ends-IsSince s.health.running t.health j a.health e in rw same (ground arith)
Step-IsAfter s t u a (cleanup_ends j e same) =
    let since = Ends-IsSince s.cleanup.running t.cleanup j a.cleanup e in rw same (ground arith)
Step-IsAfter s t u a (min_conns_ends j e same) =
    let since = Ends-IsSince s.min_conns.running t.min_conns j a.min_conns e in
    rw same (ground arith)
Step-IsAfter s t u a (receives_health p c same) = rw same (ground arith)
Step-IsAfter s t u a (receives_cleanup p c same) = rw same (ground arith)
Step-IsAfter s t u a (receives_min_conns p c same) = rw same (ground arith)
Step-IsAfter s t u a (crashes two same) = rw same (ground arith)

-- A call of Shutdown that begins before any channel is closed.
pub record IsFresh (s : Jobs) : Type 0 where
  pub begins : s.phase ≡ begun
  pub health_open : s.health.closed ≡ false
  pub cleanup_open : s.cleanup.closed ≡ false
  pub min_conns_open : s.min_conns.closed ≡ false

Reach-IsAfter : (s t : Jobs) → IsFresh s → Reach s t → IsAfter s t
Reach-IsAfter s t f here = ground arith
Reach-IsAfter s t f (after {t = u} r step) = Step-IsAfter s u t (Reach-IsAfter s u f r) step

-- The jobs once each has closed its channel, and how `Shutdown` gets there.
abbrev closed_job : Job → Job
closed_job j = record { running = j.running - 1; closed = true; cancelled = true }

closes_first : (j : Job) → j.closed ≡ false → 0 < j.running → Ends (cancel_job j) (closed_job j)
closes_first j o r = closes (j.running - 1) refl o (omega arith) refl

abbrev with_phase : Phase → Jobs → Jobs
with_phase p s = record {
  health = closed_job s.health;
  cleanup = closed_job s.cleanup;
  min_conns = closed_job s.min_conns;
  phase = p;
}

gets_on :
    (s : Jobs)
    → IsFresh s
    → 0 < s.health.running
    → 0 < s.cleanup.running
    → 0 < s.min_conns.running
    → Reach s (with_phase at_pools s)
gets_on s f h c m =
    let all_closed : Reach s (with_phase on_health s) =
      after
        (after
          (after (after here (cancels f.begins refl))
            (health_ends (closed_job s.health) (closes_first s.health f.health_open h) refl))
          (cleanup_ends (closed_job s.cleanup) (closes_first s.cleanup f.cleanup_open c) refl))
        (min_conns_ends (closed_job s.min_conns) (closes_first s.min_conns f.min_conns_open m)
          refl) in
    let cleanup_next : Reach s (with_phase on_cleanup s) =
      after all_closed (receives_health refl refl refl) in
    let min_conns_next : Reach s (with_phase on_min_conns s) =
      after cleanup_next (receives_cleanup refl refl refl) in
    after min_conns_next (receives_min_conns refl refl refl)

came_on :
    (s t : Jobs)
    → IsAfter s t
    → t.phase ≡ at_pools
    → (0 < s.health.running) × ((0 < s.cleanup.running) × (0 < s.min_conns.running))
came_on s t a p = ground arith

-- A call of Shutdown that begins before any of the channels is closed can get to the pools
-- exactly if each of the three jobs has at least one goroutine.
pub shutdown_gets_on_iff :
    (s : Jobs)
    → IsFresh s
    → ((t : Jobs) × Reach s t × (t.phase ≡ at_pools))
      ↔ ((0 < s.health.running) × ((0 < s.cleanup.running) × (0 < s.min_conns.running)))
shutdown_gets_on_iff s f = (
  λ (t, r, p). came_on s t (Reach-IsAfter s t f r) p,
  λ (h, (c, m)). (with_phase at_pools s, gets_on s f h c m, refl),
)
