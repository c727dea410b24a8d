-- ===== src/Odbc/KeepAlive/Stuck.antt =====
-- odbc/odbc.go: when the goroutine of the keep-alive and a call of `StopKeepAlive` come to an end.
use openbao_teradata_secret.Common.{Bool, true, false, not, ◌≡◌, refl, ◌↔◌, ◌⊎◌, inl, inr, arith}
use openbao_teradata_secret.Odbc.KeepAlive.{
  Keeper, Stopper, KeepAlive, Step, Reach, start, after, selecting, at_lock, pinging, waiting,
  returned, not_begun, tick, cancelled, lock, pinged, give_up, stop, stop_locked, stopped,
  is_pinging,
}

-- The call holds the lock only while the goroutine is not pinging, and returns after it.
abbrev is_valid : Keeper → Stopper → Bool
is_valid k not_begun = true
is_valid k at_lock = true
is_valid k waiting = not (is_pinging k)
is_valid returned returned = true
is_valid selecting returned = false
is_valid at_lock returned = false
is_valid pinging returned = false

Step-IsValid :
    {s t : KeepAlive}
    → Step s t
    → is_valid s.keeper s.stopper ≡ true
    → is_valid t.keeper t.stopper ≡ true
Step-IsValid (tick not_begun) v = refl
Step-IsValid (tick at_lock) v = refl
Step-IsValid (tick waiting) v = refl
Step-IsValid (tick returned) v = absurd (ground arith)
Step-IsValid (cancelled not_begun c) v = refl
Step-IsValid (cancelled at_lock c) v = refl
Step-IsValid (cancelled waiting c) v = refl
Step-IsValid (cancelled returned c) v = refl
Step-IsValid (lock not_begun c) v = refl
Step-IsValid (lock at_lock c) v = refl
Step-IsValid (lock waiting c) v = absurd (ground arith)
Step-IsValid (lock returned c) v = absurd (ground arith)
Step-IsValid (pinged not_begun) v = refl
Step-IsValid (pinged at_lock) v = refl
Step-IsValid (pinged waiting) v = refl
Step-IsValid (pinged returned) v = absurd (ground arith)
Step-IsValid (give_up not_begun) v = refl
Step-IsValid (give_up at_lock) v = refl
Step-IsValid (give_up waiting) v = refl
Step-IsValid (give_up returned) v = refl
Step-IsValid (stop k) v = refl
Step-IsValid (stop_locked k free) v = ground arith
Step-IsValid stopped v = refl

Reach-IsValid : {s : KeepAlive} → Reach s → is_valid s.keeper s.stopper ≡ true
Reach-IsValid start = refl
Reach-IsValid (after r step) = Step-IsValid step (Reach-IsValid r)

abbrev pub finished : KeepAlive
finished = record { keeper = returned; stopper = returned }

-- The goroutine is at `RLock`, and the call has the lock and waits for the goroutine.
abbrev pub deadlock : KeepAlive
deadlock = record { keeper = at_lock; stopper = waiting }

abbrev IsFinal : KeepAlive → Type 0
IsFinal s = (s ≡ finished) ⊎ (s ≡ deadlock)

-- A state with a next step, or one of the two.
step_or_end :
    (k : Keeper) (p : Stopper)
    → is_valid k p ≡ true
    → ((t : KeepAlive) × Step (record { keeper = k; stopper = p }) t)
      ⊎ IsFinal (record { keeper = k; stopper = p })
step_or_end k not_begun v = inl (_, stop k)
step_or_end selecting at_lock v = inl (_, tick at_lock)
step_or_end at_lock at_lock v = inl (_, lock at_lock refl)
step_or_end pinging at_lock v = inl (_, pinged at_lock)
step_or_end returned at_lock v = inl (_, stop_locked returned refl)
step_or_end selecting waiting v = inl (_, tick waiting)
step_or_end at_lock waiting v = inr (inr refl)
step_or_end pinging waiting v = absurd (ground arith)
step_or_end returned waiting v = inl (_, stopped)
step_or_end returned returned v = inr (inl refl)
step_or_end selecting returned v = absurd (ground arith)
step_or_end at_lock returned v = absurd (ground arith)
step_or_end pinging returned v = absurd (ground arith)

no_step_finished : (t : KeepAlive) → ¬ (Step finished t)
no_step_finished t step = elim step [ ]

no_step_deadlock : (t : KeepAlive) → ¬ (Step deadlock t)
no_step_deadlock t (lock waiting free) = absurd (ground arith)

-- A state that the goroutine of StartKeepAlive and a call of StopKeepAlive come to has no next
-- step exactly if both have returned, or the goroutine waits for the read lock while the call has
-- the lock and waits for the goroutine.
pub stuck_iff :
    (s : KeepAlive) → Reach s → ((t : KeepAlive) → ¬ (Step s t)) ↔ ((s ≡ finished) ⊎ (s ≡ deadlock))
stuck_iff s r = (
  (λ stuck. elim (step_or_end s.keeper s.stopper (Reach-IsValid r)) [
    | inl (t, step) ↦ absurd (stuck t step)
    | inr end ↦ end
  ]),
  (λ end. elim end [ inl same ↦ rw same no_step_finished | inr same ↦ rw same no_step_deadlock ]),
)
