-- ===== src/Odbc/KeepAlive.antt =====
-- odbc/odbc.go: the goroutine of `StartKeepAlive` next to a call of `StopKeepAlive`, which `Close`
-- begins with: how the two share the lock of the connection.
pub mod Stuck
use openbao_teradata_secret.Common.{Bool, true, false, ◌≡◌}

-- The goroutine: in the `select`, at `RLock`, holding the lock for the ping, and returned, which
-- closes `keepAliveDone`.
pub data Keeper : Type 0 where
  selecting at_lock pinging returned : Keeper

-- The call: not begun, at `Lock`, holding the lock and waiting for `keepAliveDone`, and returned.
pub data Stopper : Type 0 where
  not_begun at_lock waiting returned : Stopper

pub record KeepAlive : Type 0 where
  pub keeper : Keeper
  pub stopper : Stopper

-- `StartKeepAlive` has started the goroutine.
abbrev pub started : KeepAlive
started = record { keeper = selecting; stopper = not_begun }

-- The call cancels the context as soon as it has the lock.
abbrev pub is_cancelled : Stopper → Bool
is_cancelled not_begun = false
is_cancelled at_lock = false
is_cancelled waiting = true
is_cancelled returned = true

-- Whether the call holds the lock.
abbrev pub is_locked : Stopper → Bool
is_locked not_begun = false
is_locked at_lock = false
is_locked waiting = true
is_locked returned = false

abbrev pub is_pinging : Keeper → Bool
is_pinging selecting = false
is_pinging at_lock = false
is_pinging pinging = true
is_pinging returned = false

-- A step of one of the two. A `select` with the ticker and a done context may take either case.
pub data Step : KeepAlive → KeepAlive → Type 0 where
  tick :
      (s : Stopper)
      → Step (record { keeper = selecting; stopper = s }) (record { keeper = at_lock; stopper = s })
  cancelled :
      (s : Stopper)
      → is_cancelled s ≡ true
      → Step
          (record { keeper = selecting; stopper = s })
          (record { keeper = returned; stopper = s })
  lock :
      (s : Stopper)
      → is_locked s ≡ false
      → Step (record { keeper = at_lock; stopper = s }) (record { keeper = pinging; stopper = s })
  pinged :
      (s : Stopper)
      → Step (record { keeper = pinging; stopper = s }) (record { keeper = selecting; stopper = s })
  give_up :
      (s : Stopper)
      → Step (record { keeper = pinging; stopper = s }) (record { keeper = returned; stopper = s })
  stop :
      (k : Keeper)
      → Step (record { keeper = k; stopper = not_begun }) (record { keeper = k; stopper = at_lock })
  stop_locked :
      (k : Keeper)
      → is_pinging k ≡ false
      → Step (record { keeper = k; stopper = at_lock }) (record { keeper = k; stopper = waiting })
  stopped :
      Step
        (record { keeper = returned; stopper = waiting })
        (record { keeper = returned; stopper = returned })

-- What the two may come to.
pub data Reach : KeepAlive → Type 0 where
  start : Reach started
  after : {s t : KeepAlive} → Reach s → Step s t → Reach t
