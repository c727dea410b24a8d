-- ===== src/Oldest.antt =====
-- The loops of `evictLRU` in plugin/query_cache.go and `evictOldest` in
-- plugin/credential_cache.go: they differ in the time that they compare, here `time_of`. Time 0 is
-- the zero time, which `IsZero` tests for.
use openbao_teradata_secret.Common.{
  ℕ, ◌≤◌, ◌<◌, ◌≡◌, refl, sym, Bool, true, false, ◌||◌, [], ◌∷◌, some, inl, inr, ◌⊎◌, arith, length,
  ltb, ◌==◌, if◌then◌else◌,
}
use openbao_teradata_secret.Common.Bytes.{Bytes, bytes_eq_iff, is_empty}
use openbao_teradata_secret.Common.Map.{Map, lookup, Distinct, AllEntries}

module _ {V : Type 0} (time_of : V → ℕ) where
  -- The loop of `evictLRU` and of `evictOldest`, from the key and time found so far.
  unfoldable pub oldest : Bytes → ℕ → Map V → Bytes × ℕ
  oldest key time [] = (key, time)
  oldest key time ((j, e) ∷ m) =
      let older = time == 0 || ltb (time_of e) time in
      oldest (if older then j else key) (if older then time_of e else time) m

  -- The clock never reads the zero time at a touch.
  abbrev pub Touched : Map V → Type 0
  Touched = AllEntries (λ e. 0 < time_of e)

  -- What the loop has found is the seed, or an entry of the list, and nothing in the list is older.
  pub record Picks (key : Bytes) (time : ℕ) (m : Map V) (r : Bytes × ℕ) : Type 0 where
    pub le_seed : r.1 ≤ time
    pub least : AllEntries (λ e. r.1 ≤ time_of e) m
    pub positive : 0 < r.1

  least-le :
      (a b : ℕ) (m : Map V)
      → a ≤ b
      → AllEntries (λ e. b ≤ time_of e) m
      → AllEntries (λ e. a ≤ time_of e) m
  least-le a b [] h p = tt
  least-le a b ((j, e) ∷ m) h p = (omega arith, least-le a b m h p.1)

  oldest-Picks :
      (key : Bytes) (time : ℕ) (m : Map V)
      → 0 < time
      → Touched m
      → Picks key time m (oldest key time m)
  unfolding oldest
  oldest-Picks key time [] p t = record { le_seed = omega arith; least = tt; positive = p }
  oldest-Picks key time ((j, e) ∷ m) p t = ground (
    arith,
    oldest-Picks (if time == 0 || ltb (time_of e) time then j else key)
        (if time == 0 || ltb (time_of e) time then time_of e else time) m,
  )

  -- The pick is the seed, or an entry of the list.
  abbrev Found : Bytes → ℕ → Map V → Bytes × ℕ → Type 0
  Found key time m r =
      (r.0 ≡ key) × (r.1 ≡ time) ⊎ ((x : V) × (lookup r.0 m ≡ some x) × (time_of x ≡ r.1))

  module _ (j : Bytes) (e : V) (m : Map V) (d : Distinct ((j, e) ∷ m)) where
    lookup_later : (k : Bytes) (x : V) → lookup k m ≡ some x → lookup k ((j, e) ∷ m) ≡ some x
    unfolding lookup
    lookup_later k x f = ground (arith, bytes_eq_iff j k)

    lookup_here : (k : Bytes) → k ≡ j → lookup k ((j, e) ∷ m) ≡ some e
    unfolding lookup
    lookup_here k h = ground (arith, bytes_eq_iff j k)

    Found-old :
        (r : Bytes × ℕ)
        → Found j (time_of e) m r
        → (x : V) × (lookup r.0 ((j, e) ∷ m) ≡ some x) × (time_of x ≡ r.1)
    Found-old r (inl (k, t)) = (e, lookup_here r.0 k, sym t)
    Found-old r (inr (x, f, t)) = (x, lookup_later r.0 x f, t)

    Found-young :
        (key : Bytes) (time : ℕ) (r : Bytes × ℕ)
        → Found key time m r
        → Found key time ((j, e) ∷ m) r
    Found-young key time r (inl s) = inl s
    Found-young key time r (inr (x, f, t)) = inr (x, lookup_later r.0 x f, t)

    Found-step :
        (key : Bytes) (time : ℕ) (b : Bool)
        → Found j (time_of e) m (oldest j (time_of e) m)
        → Found key time m (oldest key time m)
        → Found key time
            ((j, e) ∷ m)
            (oldest (if b then j else key) (if b then time_of e else time) m)
    Found-step key time true old young = inr (Found-old (oldest j (time_of e) m) old)
    Found-step key time false old young = Found-young key time (oldest key time m) young

  oldest-Found :
      (key : Bytes) (time : ℕ) (m : Map V) → Distinct m → Found key time m (oldest key time m)
  unfolding oldest
  oldest-Found key time [] d = inl (refl, refl)
  oldest-Found key time ((j, e) ∷ m) d =
      Found-step j e m d key time (time == 0 || ltb (time_of e) time)
        (oldest-Found j (time_of e) m d.1) (oldest-Found key time m d.1)

  -- On a cache with entries the pick is an entry, and no entry was touched before it.
  pub oldest_lem :
      (m : Map V)
      → Distinct m
      → Touched m
      → 0 < length m
      → (x : V) × (lookup (oldest [] 0 m).0 m ≡ some x)
        × (time_of x ≡ (oldest [] 0 m).1)
        × AllEntries (λ e. time_of x ≤ time_of e) m
  unfolding oldest
  oldest_lem [] d t h = elim h [ ]
  oldest_lem ((j, e) ∷ m) d t h =
      let p = oldest-Picks j (time_of e) m t.0 t.1 in
      let (x, f, s) =
        Found-old j e m d (oldest j (time_of e) m) (oldest-Found j (time_of e) m d.1) in
      (x, f, s, least-le (time_of x) _ ((j, e) ∷ m) (omega arith) (p.le_seed, p.least))

  -- A key was picked only from entries.
  pub oldest_nonempty : (m : Map V) → is_empty (oldest [] 0 m).0 ≡ false → 0 < length m
  unfolding oldest
  oldest_nonempty [] h = absurd (cc)
  oldest_nonempty (e ∷ m) h = omega arith
