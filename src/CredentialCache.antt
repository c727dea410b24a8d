-- ===== src/CredentialCache.antt =====
-- plugin/credential_cache.go: `credentialCache`. A method is a function of the state that it
-- locks; each reading of the clock is an argument, in order. `Get` gives its lock up before it
-- deletes an expired entry, so it is two functions, `get_locked` and `get_expired`, between which
-- other calls may run. `newCredentialCache` checks neither argument; backend.go passes 5 minutes
-- and 10000, and the model takes both as naturals. The counters are int64 bit patterns; `hitCount`
-- and `missCount` are written under a read lock, and the model has no lost update.
pub mod Eviction
pub mod Reads
use openbao_teradata_secret.Common.{
  ℕ, ◌+◌, ◌-◌, Bool, true, false, not, ◌&&◌, List, [], ◌∷◌, Option, none, some, length, ltb, leb,
  if◌then◌else◌,
}
use openbao_teradata_secret.Common.Bytes.{Bytes, bytes_eq, is_empty}
use openbao_teradata_secret.Common.Map
use openbao_teradata_secret.Common.Map.{Map, lookup, insert}
use openbao_teradata_secret.Model.{Credential}
use openbao_teradata_secret.Oldest.{oldest}
use openbao_teradata_secret.Outcome.{Outcome, ok, err, panic}
use openbao_teradata_secret.QueryCache.{tick, ticks}

-- `cacheEntry`
pub record Entry : Type 0 where
  pub credential : Credential
  pub expires_at : ℕ
  pub created_at : ℕ

pub record Cache : Type 0 where
  pub entries : Map Entry
  pub ttl : ℕ
  pub max_size : ℕ
  pub hit_count : ℕ
  pub miss_count : ℕ
  pub evict_count : ℕ

-- `newCredentialCache`
unfoldable pub new : ℕ → ℕ → Cache
new ttl max_size = record {
  entries = [];
  ttl = ttl;
  max_size = max_size;
  hit_count = 0;
  miss_count = 0;
  evict_count = 0;
}

-- What the locked part of `Get` found.
pub data Found : Type 0 where
  missing : Found
  expired : Found
  hit : Credential → Found

-- The part of `Get` up to the test of expiry at `now`.
unfoldable pub get_locked : Cache → Bytes → ℕ → Cache × Found
unfolding tick
get_locked c username now = elim (lookup username c.entries) [
  | none ↦ (record c { miss_count = tick c.miss_count }, missing)
  | some entry ↦
      if ltb entry.expires_at now
      then (c, expired)
      else (record c { hit_count = tick c.hit_count }, hit entry.credential)
]

-- `Delete` and `Invalidate`
unfoldable pub delete : Cache → Bytes → Cache
delete c username = record c { entries = Map.delete username c.entries }

-- The rest of `Get` on an expired entry.
unfoldable pub get_expired : Cache → Bytes → Cache
unfolding delete tick
get_expired c username = let c' = delete c username in record c' { miss_count = tick c'.miss_count }

-- `Get` with nothing in between.
unfoldable pub get : Cache → Bytes → ℕ → Cache × Option Credential
unfolding get_locked get_expired
get c username now =
    let (c', found) = get_locked c username now in
    elim found [
      | missing ↦ (c', none)
      | expired ↦ (get_expired c' username, none)
      | hit cred ↦ (c', some cred)
    ]

-- `evictOldest`; `now.Sub(oldestTime) > c.ttl` is a comparison of integers.
unfoldable pub evict_oldest : Cache → ℕ → Cache
unfolding tick
evict_oldest c now =
    let (key, time) = oldest (λ (e : Entry). e.created_at) [] 0 c.entries in
    if not (is_empty key) && ltb (time + c.ttl) now
    then record c { entries = Map.delete key c.entries; evict_count = tick c.evict_count }
    else c

-- `Set`: `now` is read by `evictOldest`, `t1` for the expiry, `t2` for the creation.
unfoldable pub set : Cache → Bytes → Credential → ℕ → ℕ → ℕ → Cache
set c username cred now t1 t2 =
    let c' = if leb c.max_size (length c.entries) then evict_oldest c now else c in
    record c' {
      entries =
          insert username (record { credential = cred; expires_at = t1 + c'.ttl; created_at = t2 })
            c'.entries;
    }

-- `DeleteByRole`: the usernames deleted are returned.
unfoldable pub delete_by_role : Cache → Bytes → Cache × List Bytes
delete_by_role c role_name =
    let matches =
      λ (username : Bytes) (entry : Entry). bytes_eq entry.credential.role_name role_name in
    (record c { entries = Map.delete_where matches c.entries }, Map.keys_where matches c.entries)

-- `Clear`
unfoldable pub clear : Cache → Cache
clear c = record c { entries = [] }

unfoldable pub cleanup_expired : Cache → ℕ → Cache
unfolding ticks
cleanup_expired c now =
    let old = λ (username : Bytes) (entry : Entry). ltb entry.expires_at now in
    record c {
      entries = Map.delete_where old c.entries;
      evict_count = ticks (Map.keys_where old c.entries) c.evict_count;
    }

-- The rest of a round of `warmCache`, on what storage answered: only a credential is stored.
unfoldable pub warm_loaded :
    {E : Type 0} → Cache → Bytes → ℕ → ℕ → Outcome E (Option Credential) → Cache
warm_loaded c username t1 t2 (ok (some cred)) = record c {
  entries =
      insert username (record { credential = cred; expires_at = t1 + c.ttl; created_at = t2 })
        c.entries;
}
warm_loaded c username t1 t2 (ok none) = c
warm_loaded c username t1 t2 (err e) = c
warm_loaded c username t1 t2 panic = c

-- One round of `warmCache`: `load` is the read of storage, `t1` and `t2` the clock.
unfoldable pub warm_one :
    {E : Type 0} → (Bytes → Outcome E (Option Credential)) → Bytes × ℕ × ℕ → Cache → Cache
unfolding warm_loaded
warm_one load (username, t1, t2) c = elim (lookup username c.entries) [
  | some _ ↦ c
  | none ↦ warm_loaded c username t1 t2 (load username)
]

-- `warmCache`, which returns no error.
unfoldable pub warm_cache :
    {E : Type 0} → (Bytes → Outcome E (Option Credential)) → List (Bytes × ℕ × ℕ) → Cache → Cache
unfolding warm_one
warm_cache load [] c = c
warm_cache load (u ∷ us) c = warm_cache load us (warm_one load u c)

-- `Stats`
unfoldable pub stats : Cache → ℕ × ℕ × ℕ × ℕ
stats c = (c.hit_count, c.miss_count, c.evict_count, length c.entries)
