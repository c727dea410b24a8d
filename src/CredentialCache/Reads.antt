-- ===== src/CredentialCache/Reads.antt =====
-- plugin/credential_cache.go: what `Get`, `DeleteByRole` and `warmCache` answer and leave behind.
use mathlib.Core.Path.{subst}
use openbao_teradata_secret.Common.{
  ℕ, ◌+◌, ◌≤◌, ◌≡◌, refl, List, [], ◌∷◌, Option, none, some, ◌⊎◌, inl, inr, arith, length, ltb, leb,
  Bool-cases, Option-cases, if◌then◌else◌,
}
use openbao_teradata_secret.Common.Bytes.{Bytes, bytes_eq, bytes_eq_iff, bytes_eq_refl}
use openbao_teradata_secret.Common.Map.{lookup, Distinct}
use openbao_teradata_secret.Common.Map.Laws
use openbao_teradata_secret.CredentialCache
use openbao_teradata_secret.CredentialCache.{
  Entry, Cache, expired, get_locked, get_expired, cleanup_expired, evict_oldest, warm_loaded,
  warm_one, warm_cache,
}
use openbao_teradata_secret.CredentialCache.Eviction.{new_entry}
use openbao_teradata_secret.Model.{Credential}
use openbao_teradata_secret.Outcome.{Outcome, ok, err, panic}

-- The credential that a cache holds for a username at a time.
abbrev pub live : ℕ → Option Entry → Option Credential
live now none = none
live now (some e) = if ltb e.expires_at now then none else some e.credential

get-live :
    (c : Cache) (username : Bytes) (now : ℕ)
    → (CredentialCache.get c username now).1 ≡ live now (lookup username c.entries)
unfolding CredentialCache.get
get-live c username now = ground arith

-- Get of the credential cache answers the live credential of the username, and leaves what is
-- live for any username, then or later, as it was.
pub get_lem :
    (c : Cache) (username : Bytes) (now : ℕ) (j : Bytes) (t : ℕ)
    → now ≤ t
    → ((CredentialCache.get c username now).1 ≡ live now (lookup username c.entries))
      × (live t (lookup j (CredentialCache.get c username now).0.entries)
          ≡ live t (lookup j c.entries))
unfolding CredentialCache.get
get_lem c username now j t later = (
  get-live c username now,
  ground (arith, Laws.lookup-delete username j c.entries, bytes_eq_iff username j),
)

evict_oldest_same : (c : Cache) (now : ℕ) → (evict_oldest c now).ttl ≡ c.ttl
unfolding evict_oldest
evict_oldest_same c now = ground arith

lookup-set_self :
    (c : Cache) (username : Bytes) (cred : Credential) (now t1 t2 : ℕ)
    → lookup username (CredentialCache.set c username cred now t1 t2).entries
      ≡ some (new_entry c cred t1 t2)
unfolding CredentialCache.set
lookup-set_self c username cred now t1 t2 = elim (Bool-cases (leb c.max_size (length c.entries))) [
  | inr room ↦ rw (room, Laws.lookup-insert_self)
  | inl full ↦ rw (full, Laws.lookup-insert_self, evict_oldest_same c now)
]

-- A credential just stored is answered until the TTL of the cache has passed, whatever was in the
-- cache.
pub get-set :
    (c : Cache) (username : Bytes) (cred : Credential) (now t1 t2 t : ℕ)
    → t ≤ t1 + c.ttl
    → (CredentialCache.get (CredentialCache.set c username cred now t1 t2) username t).1 ≡ some cred
get-set c username cred now t1 t2 t fresh =
    rw (get-live _ username t, lookup-set_self c username cred now t1 t2) (ground arith)

-- Where Get of the credential cache finds an expired entry, a Set that falls between its two
-- halves is lost: the next Get answers nothing.
pub set-between_get :
    (c : Cache) (username : Bytes) (cred : Credential) (now t0 t1 t2 t : ℕ)
    → (get_locked c username now).1 ≡ expired
    → (CredentialCache.get
        (get_expired
          (CredentialCache.set (get_locked c username now).0 username cred t0 t1 t2)
          username)
        username
        t).1
      ≡ none
unfolding get_expired
set-between_get c username cred now t0 t1 t2 t h =
    rw (get-live _ username t, Laws.lookup-delete, bytes_eq_refl)

-- After DeleteByRole on a map with one entry to a key no entry of the role is left, every other
-- entry is, and as many usernames are returned as entries were deleted.
pub delete_by_role_lem :
    (c : Cache) (role : Bytes)
    → Distinct c.entries
    → ((j : Bytes)
        → lookup j (CredentialCache.delete_by_role c role).0.entries ≡ (elim (lookup j c.entries) [
          | none ↦ none
          | some e ↦ if bytes_eq e.credential.role_name role then none else some e
        ]))
      × (length (CredentialCache.delete_by_role c role).0.entries
            + length (CredentialCache.delete_by_role c role).1
          ≡ length c.entries)
unfolding CredentialCache.delete_by_role
delete_by_role_lem c role d =
    let matches = λ (username : Bytes) (e : Entry). bytes_eq e.credential.role_name role in
    (
      λ j. Laws.lookup-delete_where matches j c.entries d,
      Laws.length-delete_where matches c.entries,
    )

-- The ticker of a credential cache with one entry to a key may sweep at any time: a Get at that
-- time or later answers the same.
pub get-sweep :
    (c : Cache) (now : ℕ) (username : Bytes) (t : ℕ)
    → Distinct c.entries
    → now ≤ t
    → (CredentialCache.get (cleanup_expired c now) username t).1
      ≡ (CredentialCache.get c username t).1
unfolding cleanup_expired
get-sweep c now username t d later =
    rw (get-live _ username t, Laws.lookup-delete_where _ username c.entries d)
      (ground (arith, get-live c username t))

-- What a round may do to the entry of a username.
abbrev Warmed :
    {E : Type 0} → (Bytes → Outcome E (Option Credential)) → Cache → Cache → Bytes → Type 0
Warmed load c d j =
    ((e : Entry) → lookup j c.entries ≡ some e → lookup j d.entries ≡ some e)
    × (lookup j c.entries ≡ none
        → (lookup j d.entries ≡ none)
          ⊎ ((e : Entry) × (lookup j d.entries ≡ some e) × (load j ≡ ok (some e.credential))))

unchanged-Warmed :
    {E : Type 0} (load : Bytes → Outcome E (Option Credential)) (c : Cache) (j : Bytes)
    → Warmed load c c j
unchanged-Warmed load c j = (λ e f. f, λ f. inl f)

warm_loaded-Warmed :
    {E : Type 0} (load : Bytes → Outcome E (Option Credential)) (u : Bytes) (t1 t2 : ℕ) (c : Cache)
    (j : Bytes) (o : Outcome E (Option Credential))
    → lookup u c.entries ≡ none
    → load u ≡ o
    → Warmed load c (warm_loaded c u t1 t2 o) j
unfolding warm_loaded
warm_loaded-Warmed load u t1 t2 c j (ok none) absent l = unchanged-Warmed load c j
warm_loaded-Warmed load u t1 t2 c j (err e) absent l = unchanged-Warmed load c j
warm_loaded-Warmed load u t1 t2 c j panic absent l = unchanged-Warmed load c j
warm_loaded-Warmed load u t1 t2 c j (ok (some cred)) absent l =
    let law = Laws.lookup-insert u j (new_entry c cred t1 t2) c.entries in
    (
      λ e f. ground (arith, law, bytes_eq_iff u j),
      λ f. elim (Bool-cases (bytes_eq u j)) [
        | inl same ↦
            let q : u ≡ j = (bytes_eq_iff u j).0 same in
            inr (
              new_entry c cred t1 t2,
              ground (arith, law),
              subst (λ k. load k ≡ ok (some cred)) q l,
            )
        | inr differ ↦ inl (ground (arith, law))
      ],
    )

lookup-warm_one :
    {E : Type 0} (load : Bytes → Outcome E (Option Credential)) (u : Bytes) (t1 t2 : ℕ) (c : Cache)
    (j : Bytes)
    → Warmed load c (warm_one load (u, t1, t2) c) j
unfolding warm_one
lookup-warm_one load u t1 t2 c j = elim (Option-cases (lookup u c.entries)) [
  | inr (x, present) ↦ rw (present, warm_one) (unchanged-Warmed load c j)
  | inl absent ↦ rw (absent, warm_one) (warm_loaded-Warmed load u t1 t2 c j (load u) absent refl)
]

warm_cache-Warmed :
    {E : Type 0} (load : Bytes → Outcome E (Option Credential)) (us : List (Bytes × ℕ × ℕ))
    (c : Cache) (j : Bytes)
    → ((e : Entry) → lookup j c.entries ≡ some e → lookup j (warm_cache load us c).entries ≡ some e)
      × ((e : Entry)
          → lookup j c.entries ≡ none
          → lookup j (warm_cache load us c).entries ≡ some e
          → load j ≡ ok (some e.credential))
unfolding warm_cache
warm_cache-Warmed load [] c j = (λ e f. f, λ e f g. absurd (cc))
warm_cache-Warmed load ((u, t1, t2) ∷ us) c j =
    let first = lookup-warm_one load u t1 t2 c j in
    let rest = warm_cache-Warmed load us (warm_one load (u, t1, t2) c) j in
    (
      λ e f. rest.0 e (first.0 e f),
      λ e f g. elim (first.1 f) [
        | inl still ↦ rest.1 e still g
        | inr (x, added, loaded) ↦ ground (arith, rest.0 x added)
      ],
    )

-- Warming leaves what the credential cache has for a username, or adds an entry where there was
-- none, with the credential that storage has.
pub lookup-warm_cache :
    {E : Type 0} (load : Bytes → Outcome E (Option Credential)) (us : List (Bytes × ℕ × ℕ))
    (c : Cache) (j : Bytes)
    → (lookup j (warm_cache load us c).entries ≡ lookup j c.entries)
      ⊎ ((lookup j c.entries ≡ none)
          × ((e : Entry) × (lookup j (warm_cache load us c).entries ≡ some e)
              × (load j ≡ ok (some e.credential))))
lookup-warm_cache load us c j =
    let (kept, added) = warm_cache-Warmed load us c j in
    elim (Option-cases (lookup j c.entries)) [
      | inr (e, present) ↦ inl (rw (kept e present, present))
      | inl absent ↦ elim (Option-cases (lookup j (warm_cache load us c).entries)) [
        | inl still ↦ inl (rw (still, absent))
        | inr (e, present) ↦ inr (absent, (e, present, added e absent present))
      ]
    ]
