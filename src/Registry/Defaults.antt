-- ===== src/Registry/Defaults.antt =====
-- storage/db_registry.go: the numbers of connections in a configuration with its defaults set.
use openbao_teradata_secret.Common.{
  ℕ, ◌*◌, ◌≡◌, ◌⊎◌, inl, inr, refl, true, false, [], ◌∷◌, arith, Bool-cases, if◌then◌else◌,
}
use openbao_teradata_secret.Common.Bytes.{Bytes, codes, is_empty}
use openbao_teradata_secret.Common.Int.{ℤ, pos, negsuc, ltbℤ, ◌≤ℤ◌}
use openbao_teradata_secret.Registry.{
  DbConfig, fit_sizes, with_defaults, if_zero, if_not_positive, at_most, second, millisecond,
}

not_lt : (a b : ℤ) → a ≤ℤ b → ltbℤ b a ≡ false
not_lt a b h = ground arith

at_most_same : (a b : ℤ) → a ≤ℤ b → at_most a b ≡ a
at_most_same a b h = rw (not_lt a b h)

at_most_le : (a b : ℤ) → at_most a b ≤ℤ b
at_most_le a b = elim (Bool-cases (ltbℤ b a)) [
  | inl above ↦ rw above (omega arith)
  | inr below ↦ rw below (ground arith)
]

raised_bounds :
    (idle min max : ℤ)
    → idle ≤ℤ max
    → min ≤ℤ max
    → (min ≤ℤ (if ltbℤ idle min then min else idle))
      × ((if ltbℤ idle min then min else idle) ≤ℤ max)
raised_bounds idle min max h k = elim (Bool-cases (ltbℤ idle min)) [
  | inl less ↦ rw less (omega arith, k)
  | inr more ↦ rw more (ground arith, h)
]

-- The least is at most the most idle, and these are at most the most open.
fit_sizes_bounds :
    (min idle max : ℤ)
    → ((fit_sizes min idle max).0 ≤ℤ (fit_sizes min idle max).1)
      × ((fit_sizes min idle max).1 ≤ℤ max)
unfolding fit_sizes
fit_sizes_bounds min idle max =
    raised_bounds (at_most idle max) (at_most (if ltbℤ min (pos 0) then pos 0 else min) max) max
      (at_most_le idle max) (at_most_le (if ltbℤ min (pos 0) then pos 0 else min) max)

-- The least is not negative, or it is the most open.
at_most_cases : (a b : ℤ) → (pos 0 ≤ℤ a) → (pos 0 ≤ℤ at_most a b) ⊎ (at_most a b ≡ b)
at_most_cases a b h = elim (Bool-cases (ltbℤ b a)) [
  | inl above ↦ inr (rw above)
  | inr below ↦ inl (rw below h)
]

not_negative : (min : ℤ) → pos 0 ≤ℤ (if ltbℤ min (pos 0) then pos 0 else min)
not_negative min = elim (Bool-cases (ltbℤ min (pos 0))) [
  | inl less ↦ rw less (omega arith)
  | inr more ↦ rw more (ground arith)
]

at_most_negative : (max : ℤ) → ltbℤ max (pos 0) ≡ true → at_most (pos 0) max ≡ max
at_most_negative max h = rw h

clamped_negative :
    (min max : ℤ)
    → ltbℤ min (pos 0) ≡ true
    → min ≡ max
    → at_most (if ltbℤ min (pos 0) then pos 0 else min) max ≡ min
clamped_negative min max h e =
    let same : at_most (pos 0) min ≡ min = at_most_negative min h in rw (h, ← e) same

lifo_again :
    (s : Bytes)
    → (let t = if is_empty s then codes "lifo" else s in if is_empty t then codes "lifo" else t)
      ≡ (if is_empty s then codes "lifo" else s)
lifo_again [] = refl
lifo_again (c ∷ s) = refl

clamped :
    (min max : ℤ)
    → ((pos 0 ≤ℤ min) ⊎ (min ≡ max))
    → min ≤ℤ max
    → at_most (if ltbℤ min (pos 0) then pos 0 else min) max ≡ min
clamped min max (inl p) h = rw (not_lt (pos 0) min p) (at_most_same min max h)
clamped min max (inr e) h = elim (Bool-cases (ltbℤ min (pos 0))) [
  | inr more ↦ rw more (at_most_same min max h)
  | inl less ↦ clamped_negative min max less e
]

fit_sizes_fixed :
    (min idle max : ℤ)
    → ((pos 0 ≤ℤ min) ⊎ (min ≡ max))
    → min ≤ℤ idle
    → idle ≤ℤ max
    → fit_sizes min idle max ≡ (min, idle)
unfolding fit_sizes
fit_sizes_fixed min idle max p h k =
    rw (clamped min max p (omega arith), at_most_same idle max k, not_lt min idle h)

fit_sizes_again :
    (min idle max : ℤ)
    → fit_sizes (fit_sizes min idle max).0 (fit_sizes min idle max).1 max ≡ fit_sizes min idle max
fit_sizes_again min idle max =
    let (low, high) = fit_sizes_bounds min idle max in
    fit_sizes_fixed (fit_sizes min idle max).0 (fit_sizes min idle max).1 max
      (unfold fit_sizes in
        at_most_cases (if ltbℤ min (pos 0) then pos 0 else min) max (not_negative min))
      low high

if_zero_again : (z : ℤ) (d : ℕ) → if_zero (if_zero z d) d ≡ if_zero z d
if_zero_again (pos n) d = ground arith
if_zero_again (negsuc n) d = refl

if_not_positive_again :
    (z : ℤ) (d : ℕ) → if_not_positive (if_not_positive z d) d ≡ if_not_positive z d
if_not_positive_again (pos n) d = ground arith
if_not_positive_again (negsuc n) d = ground arith

-- Setting the defaults again changes nothing.
with_defaults_again : (c : DbConfig) → with_defaults (with_defaults c) ≡ with_defaults c
unfolding with_defaults
with_defaults_again c = rw (
  fit_sizes_again c.min_connections c.max_idle_connections c.max_open_connections,
  if_zero_again c.health_check_interval (30 * second),
  if_zero_again c.health_check_timeout (5 * second),
  if_zero_again c.connection_timeout (10 * second),
  if_zero_again c.idle_timeout (300 * second),
  if_zero_again c.max_connection_lifetime (3600 * second),
  if_zero_again c.max_retries 3,
  if_zero_again c.initial_retry_interval (100 * millisecond),
  if_zero_again c.max_retry_interval (5 * second),
  if_not_positive_again c.eviction_batch_size 1,
  if_not_positive_again c.eviction_grace_period (30 * second),
  lifo_again c.eviction_policy,
)

-- The sizes of a configuration that is handed to a pool.
abbrev pub IsFitted : DbConfig → Type 0
IsFitted c =
    (c.min_connections ≤ℤ c.max_idle_connections)
    × (c.max_idle_connections ≤ℤ c.max_open_connections)

-- With the defaults set, the least number of connections is at most the most idle ones and these are
-- at most the most open ones, whatever was asked for; setting the defaults again changes nothing.
pub with_defaults-IsFitted :
    (c : DbConfig)
    → IsFitted (with_defaults c) × (with_defaults (with_defaults c) ≡ with_defaults c)
unfolding with_defaults
with_defaults-IsFitted c = (
  fit_sizes_bounds c.min_connections c.max_idle_connections c.max_open_connections,
  with_defaults_again c,
)
