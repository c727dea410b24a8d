-- ===== src/Credentials.antt =====
-- plugin/path_creds.go, lines 81-113 and 805-896: credentials in storage, and the cache before it.
pub mod Listing
use openbao_teradata_secret.Common.{
  ℕ, ◌+◌, List, [], ◌∷◌, ◌++◌, Option, none, some, length, drop, if◌then◌else◌,
}
use openbao_teradata_secret.Common.Bytes.{Bytes, codes, bytes_eq, has_prefix}
use openbao_teradata_secret.CredentialCache
use openbao_teradata_secret.CredentialCache.{Cache}
use openbao_teradata_secret.Model.{Credential}
use openbao_teradata_secret.Outcome.{Outcome, ok, err, panic, ◌>>=◌}
use openbao_teradata_secret.Retry.{Error}
use openbao_teradata_secret.Storage.{Storage}

-- `credentialPrefix`
abbrev pub credential_prefix : Bytes
credential_prefix = codes "creds/"

-- `strings.TrimPrefix(entry, credentialPrefix)`
unfoldable pub trim_prefix : Bytes → Bytes
trim_prefix entry =
    if has_prefix entry credential_prefix then drop (length credential_prefix) entry else entry

-- Goes on with the value of a write that succeeded.
abbrev pub and_then {ℓ} :
    {S : Type 0} {A : Type ℓ}
    → S × Outcome Error (Unit {0})
    → (S → S × Outcome Error A)
    → S × Outcome Error A
and_then (s, ok u) k = k s
and_then (s, err e) k = (s, err e)
and_then (s, panic) k = (s, panic)

-- The readings of the clock by `Set`: at the eviction, for the expiry, for the creation.
abbrev pub SetTimes : Type 0
SetTimes = ℕ × ℕ × ℕ

module _ (st : Storage) where
  -- `getCredential`
  unfoldable pub get_credential : Bytes → st.State → Outcome Error (Option Credential)
  get_credential username s = st.get (credential_prefix ++ username) s >>= λ found. elim found [
    | none ↦ ok none
    | some entry ↦ st.decode_credential entry >>= λ cred. ok (some cred)
  ]

  -- `storeCredential`
  unfoldable pub store_credential :
      Bytes → Credential → st.State → st.State × Outcome Error (Unit {0})
  store_credential username cred s = elim (st.encode_credential cred) [
    | ok entry ↦ st.put (credential_prefix ++ username) entry s
    | err e ↦ (s, err e)
    | panic ↦ (s, panic)
  ]

  -- `deleteCredential`
  unfoldable pub delete_credential : Bytes → st.State → st.State × Outcome Error (Unit {0})
  delete_credential username = st.delete (credential_prefix ++ username)

  -- Whether a credential read belongs to a role.
  abbrev pub counts : Bytes → Option Credential → ℕ
  counts role_name none = 0
  counts role_name (some cred) = if bytes_eq cred.role_name role_name then 1 else 0

  -- The loop of `countCredentialsByRole` over the entries listed.
  unfoldable pub count_entries : Bytes → List Bytes → st.State → Outcome Error ℕ
  count_entries role_name [] s = ok 0
  count_entries role_name (entry ∷ entries) s = get_credential (trim_prefix entry) s >>= λ cred.
      count_entries role_name entries s >>= λ n. ok (counts role_name cred + n)

  -- `countCredentialsByRole`
  unfoldable pub count_credentials_by_role : Bytes → st.State → Outcome Error ℕ
  unfolding count_entries
  count_credentials_by_role role_name s =
      st.list credential_prefix s >>= λ entries. count_entries role_name entries s

  -- The loop of `getCredentialByLeaseID`.
  unfoldable pub find_lease :
      Bytes → List Bytes → st.State → Outcome Error (Option (Credential × Bytes))
  find_lease lease_id [] s = ok none
  find_lease lease_id (entry ∷ entries) s =
      let later = find_lease lease_id entries s in
      get_credential (trim_prefix entry) s >>= λ found. elim found [
        | none ↦ later
        | some cred ↦
            if bytes_eq cred.lease_id lease_id then ok (some (cred, trim_prefix entry)) else later
      ]

  -- `getCredentialByLeaseID`
  unfoldable pub get_credential_by_lease_id :
      Bytes → st.State → Outcome Error (Option (Credential × Bytes))
  get_credential_by_lease_id lease_id s =
      st.list credential_prefix s >>= λ entries. find_lease lease_id entries s

  -- The loop of `listAllLeases`.
  unfoldable pub read_leases : List Bytes → st.State → Outcome Error (List Credential)
  read_leases [] s = ok []
  read_leases (entry ∷ entries) s =
      let later = read_leases entries s in
      get_credential (trim_prefix entry) s >>= λ found. elim found [
        | none ↦ later
        | some cred ↦ later >>= λ leases. ok (cred ∷ leases)
      ]

  -- `listAllLeases`
  unfoldable pub list_all_leases : st.State → Outcome Error (List Credential)
  list_all_leases s = st.list credential_prefix s >>= λ entries. read_leases entries s

  -- What the handlers share: storage, and the credential cache.
  pub record World : Type 0 where
    pub store : st.State
    pub cache : Cache

  -- `cacheCredential`
  unfoldable pub cache_credential : Bytes → Credential → SetTimes → World → World
  cache_credential username cred (now, t1, t2) w = record w {
    cache = CredentialCache.set w.cache username cred now t1 t2;
  }

  -- `invalidateCachedCredential`
  unfoldable pub invalidate_cached_credential : Bytes → World → World
  invalidate_cached_credential username w = record w {
    cache = CredentialCache.delete w.cache username;
  }

  -- `getCachedCredential`; `now` is read by the cache's `Get`.
  unfoldable pub get_cached_credential :
      Bytes → ℕ → SetTimes → World → World × Outcome Error (Option Credential)
  unfolding cache_credential
  get_cached_credential username now times w =
      let (cache', hit) = CredentialCache.get w.cache username now in
      let w' = record w { cache = cache' } in
      elim hit [
        | some cred ↦ (w', ok (some cred))
        | none ↦ elim (get_credential username w.store) [
          | ok (some cred) ↦ (cache_credential username cred times w', ok (some cred))
          | ok none ↦ (w', ok none)
          | err e ↦ (w', err e)
          | panic ↦ (w', panic)
        ]
      ]
