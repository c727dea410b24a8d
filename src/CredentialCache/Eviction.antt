-- ===== src/CredentialCache/Eviction.antt =====
-- plugin/credential_cache.go: which entries `Set` drops, and how the map grows.
use openbao_teradata_secret.Common.{
  ℕ, ◌+◌, ◌≤◌, ◌<◌, ◌≡◌, not, ◌&&◌, [], none, some, ◌⊎◌, inl, inr, arith, length, ltb, leb,
  Bool-cases, if◌then◌else◌,
}
use openbao_teradata_secret.Common.Bytes.{Bytes, bytes_eq, bytes_eq_iff, is_empty}
use openbao_teradata_secret.Common.Map
use openbao_teradata_secret.Common.Map.{Map, lookup, insert, Distinct, AllEntries}
use openbao_teradata_secret.Common.Map.Laws
use openbao_teradata_secret.CredentialCache
use openbao_teradata_secret.CredentialCache.{Entry, Cache, evict_oldest}
use openbao_teradata_secret.Model.{Credential}
use openbao_teradata_secret.Oldest.{oldest, oldest_lem, oldest_nonempty}
use openbao_teradata_secret.QueryCache.{tick}

-- One entry to a key, and an entry expires at most the cache's TTL after its creation.
pub record IsValid (c : Cache) : Type 0 where
  pub distinct : Distinct c.entries
  pub born : AllEntries (λ (e : Entry). 0 < e.created_at) c.entries
  pub aged : AllEntries (λ (e : Entry). e.expires_at ≤ e.created_at + c.ttl) c.entries

abbrev pub new_entry : Cache → Credential → ℕ → ℕ → Entry
new_entry c cred t1 t2 = record { credential = cred; expires_at = t1 + c.ttl; created_at = t2 }

-- `evictOldest` does nothing, or deletes an entry that is older than the TTL.
evict_oldest_cases :
    (c : Cache) (now : ℕ)
    → IsValid c
    → (evict_oldest c now ≡ c)
      ⊎ ((k : Bytes) × (x : Entry) × (lookup k c.entries ≡ some x)
          × (x.created_at + c.ttl < now)
          × (evict_oldest c now
              ≡ record c { entries = Map.delete k c.entries; evict_count = tick c.evict_count }))
unfolding evict_oldest
evict_oldest_cases c now v =
    let time_of = λ (e : Entry). e.created_at in
    let r : Bytes × ℕ = oldest time_of [] 0 c.entries in
    elim (Bool-cases (not (is_empty r.0) && ltb (r.1 + c.ttl) now)) [
      | inr keep ↦ inl (rw keep)
      | inl drop ↦
          let (x, found, same, least) =
            oldest_lem time_of c.entries v.distinct v.born
              (oldest_nonempty time_of c.entries (ground arith)) in
          inr (r.0, x, found, ground arith, rw drop)
    ]

-- What `evictOldest` deletes has expired.
evict_oldest-live :
    (c : Cache) (now : ℕ) (j : Bytes) (e : Entry)
    → IsValid c
    → lookup j c.entries ≡ some e
    → now ≤ e.expires_at
    → lookup j (evict_oldest c now).entries ≡ some e
evict_oldest-live c now j e v found live = elim (evict_oldest_cases c now v) [
  | inl same ↦ rw same found
  | inr (k, x, at_k, old, gone) ↦
      let young : x.expires_at ≤ x.created_at + c.ttl =
        Laws.AllEntries-lookup _ k c.entries x v.aged at_k in
      rw (gone, Laws.lookup-delete) (ground (arith, bytes_eq_iff k j))
]

evict_oldest_same : (c : Cache) (now : ℕ) → IsValid c → (evict_oldest c now).ttl ≡ c.ttl
evict_oldest_same c now v = elim (evict_oldest_cases c now v) [
  | inl same ↦ rw same
  | inr (k, x, at_k, old, gone) ↦ rw gone
]

evict_oldest-IsValid : (c : Cache) (now : ℕ) → IsValid c → IsValid (evict_oldest c now)
evict_oldest-IsValid c now v = elim (evict_oldest_cases c now v) [
  | inl same ↦ rw same v
  | inr (k, x, at_k, old, gone) ↦ rw gone (record {
    distinct = Laws.delete-Distinct k c.entries v.distinct;
    born = Laws.AllEntries-delete _ k c.entries v.born;
    aged = Laws.AllEntries-delete _ k c.entries v.aged;
  })
]

-- If no entry is older than the TTL, nothing is evicted.
evict_oldest_young :
    (c : Cache) (now : ℕ)
    → IsValid c
    → AllEntries (λ (e : Entry). now ≤ e.created_at + c.ttl) c.entries
    → evict_oldest c now ≡ c
evict_oldest_young c now v young = elim (evict_oldest_cases c now v) [
  | inl same ↦ same
  | inr (k, x, at_k, old, gone) ↦
      let fits : now ≤ x.created_at + c.ttl =
        Laws.AllEntries-lookup (λ (e : Entry). now ≤ e.created_at + c.ttl) k c.entries x young
          at_k in
      absurd (omega arith)
]

insert-IsValid :
    (c : Cache) (username : Bytes) (cred : Credential) (t1 t2 : ℕ)
    → 0 < t2
    → t1 ≤ t2
    → IsValid c
    → IsValid (record c { entries = insert username (new_entry c cred t1 t2) c.entries })
insert-IsValid c username cred t1 t2 pos order v = record {
  distinct = Laws.insert-Distinct username _ c.entries v.distinct;
  born = Laws.AllEntries-insert _ username (new_entry c cred t1 t2) c.entries pos v.born;
  aged = Laws.AllEntries-insert _ username (new_entry c cred t1 t2) c.entries (omega arith) v.aged;
}

-- Set of the credential cache, with a clock that is past the zero time and does not run
-- backwards, keeps one entry to a key, each created after the zero time and expiring at most the
-- TTL after its creation.
pub set-IsValid :
    (c : Cache) (username : Bytes) (cred : Credential) (now t1 t2 : ℕ)
    → 0 < t2
    → t1 ≤ t2
    → IsValid c
    → IsValid (CredentialCache.set c username cred now t1 t2)
unfolding CredentialCache.set
set-IsValid c username cred now t1 t2 pos order v =
    elim (Bool-cases (leb c.max_size (length c.entries))) [
      | inr room ↦ rw room (insert-IsValid c username cred t1 t2 pos order v)
      | inl full ↦ rw full (
          insert-IsValid (evict_oldest c now) username cred t1 t2 pos order
            (evict_oldest-IsValid c now v))
    ]

-- Where an entry of a well-formed credential cache is live at the time that Set reads first, Set
-- leaves it, or the new entry under the same username: what it evicts has expired.
pub set-keeps_live :
    (c : Cache) (username : Bytes) (cred : Credential) (now t1 t2 : ℕ) (j : Bytes) (e : Entry)
    → IsValid c
    → lookup j c.entries ≡ some e
    → now ≤ e.expires_at
    → lookup j (CredentialCache.set c username cred now t1 t2).entries
      ≡ (if bytes_eq username j then some (new_entry c cred t1 t2) else some e)
unfolding CredentialCache.set
set-keeps_live c username cred now t1 t2 j e v found live =
    elim (Bool-cases (leb c.max_size (length c.entries))) [
      | inr room ↦ rw (room, Laws.lookup-insert, found)
      | inl full ↦ rw (
        full,
        Laws.lookup-insert,
        evict_oldest-live c now j e v found live,
        evict_oldest_same c now v,
      )
    ]

-- While no entry of a well-formed credential cache is older than the TTL, Set of a new username
-- adds an entry, whatever the maximal size.
pub set-grows :
    (c : Cache) (username : Bytes) (cred : Credential) (now t1 t2 : ℕ)
    → IsValid c
    → lookup username c.entries ≡ none
    → AllEntries (λ (e : Entry). now ≤ e.created_at + c.ttl) c.entries
    → length (CredentialCache.set c username cred now t1 t2).entries ≡ length c.entries + 1
unfolding CredentialCache.set
set-grows c username cred now t1 t2 v absent young =
    elim (Bool-cases (leb c.max_size (length c.entries))) [
      | inr room ↦ rw (room) (Laws.length-insert_new username _ c.entries absent)
      | inl full ↦
          rw (full, evict_oldest_young c now v young)
            (Laws.length-insert_new username _ c.entries absent)
    ]
