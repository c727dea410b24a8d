-- ===== src/Leases/Extended.antt =====
-- plugin/path_extend_lease.go: what a successful extension has checked, answers and leaves behind.
use openbao_teradata_secret.Common.{
  ℕ, ◌≡◌, refl, inl, inr, false, Option, some, ◌++◌, arith, Bool-cases, Option-cases, ◌∙◌, sym, ap,
  ◌≤◌, ◌<◌, ◌*◌, ◌+◌, ◌-◌,
}
use openbao_teradata_secret.Common.Bytes.{Bytes, is_empty}
use openbao_teradata_secret.Common.Int.{ℤ, pos, negsuc, pos_part}
use openbao_teradata_secret.Credentials.{
  World, credential_prefix, get_credential, get_credential_by_lease_id, store_credential,
  cache_credential, and_then,
}
use openbao_teradata_secret.Leases.{
  add_time, Times, granted_ttl, wanted_ttl, Response, renew, extend_found, extend_lease,
}
use openbao_teradata_secret.Model.{Credential, Role, second, is_expired}
use openbao_teradata_secret.Leases.Extend.{granted_bounds}
use openbao_teradata_secret.Outcome.{Outcome, ok, err, panic, ◌>>=◌, Outcome-cases}
use openbao_teradata_secret.Retry.{Error}
use openbao_teradata_secret.Roles.{get_role}
use openbao_teradata_secret.Storage.{Storage, IsReliable}

-- A chain of writes that succeeds went on from the first one.
and_then-ok :
    {S A : Type 0} (s s' : S) (o : Outcome Error (Unit {0})) (a : A) (k : S → S × Outcome Error A)
    → and_then (s, o) k ≡ (s', ok a)
    → (o ≡ ok tt) × (k s ≡ (s', ok a))
and_then-ok s s' (ok u) a k h = (refl, h)
and_then-ok s s' (err e) a k h = absurd (cc)
and_then-ok s s' panic a k h = absurd (cc)

-- A TTL that ends in time from one reading of the clock ends late by no more than the time from it
-- to a later reading.
expiry_bounds :
    (ttl : ℤ) (since now limit most : ℕ)
    → add_time since ttl ≤ limit
    → 0 < pos_part ttl
    → pos_part ttl ≤ most
    → since ≤ now
    → (add_time now ttl ≤ limit + (now - since))
      × (now < add_time now ttl)
      × (add_time now ttl ≤ now + most)
expiry_bounds (pos n) since now limit most ends positive wanted later = ground arith
expiry_bounds (negsuc n) since now limit most ends positive wanted later = absurd (omega arith)

module _ (st : Storage) where
  -- A credential stored is read back.
  get-store_credential :
      (username : Bytes) (c : Credential) (s s' : st.State)
      → IsReliable st
      → store_credential st username c s ≡ (s', ok tt)
      → get_credential st username s' ≡ ok (some c)
  unfolding store_credential get_credential
  get-store_credential username c s s' r h = elim (Outcome-cases (st.encode_credential c)) [
    | inl (e, encoded) ↦ rw (
      r.get-put (credential_prefix ++ username) e s s' (rw (store_credential, encoded) at h),
      ◌>>=◌,
      r.decode-encode_credential c e encoded,
    )
    | inr (inl (e, failed)) ↦ absurd (cc (rw (store_credential, failed) at h))
    | inr (inr failed) ↦ absurd (cc (rw (store_credential, failed) at h))
  ]

  abbrev pub renewed : Credential → ℤ → Times → Credential
  renewed cred ttl times = record cred {
    last_renewed = times.at_renewal;
    expires_at = add_time times.at_extension ttl;
  }

  renew-ok :
      (cred : Credential) (username : Bytes) (ttl : ℤ) (times : Times) (w w' : World st)
      (resp : Response)
      → renew st cred username ttl times w ≡ (w', ok resp)
      → (store_credential st username (renewed cred ttl times) w.store ≡ (w'.store, ok tt))
        × (resp ≡ record { credential = renewed cred ttl times; ttl = ttl })
  unfolding renew cache_credential
  renew-ok cred username ttl times w w' resp h =
      let done = store_credential st username (renewed cred ttl times) w.store in
      let (stored, rest) = and_then-ok (record w { store = done.0 }) w' done.1 resp _ h in
      (ground arith, ground arith)

  -- What a successful extension of the lease of a credential rests on and leaves.
  pub record IsExtended (requested : ℤ) (times : Times) (w w' : World st) (resp : Response)
      (cred : Credential) (username : Bytes) : Type 0 where
    pub alive : is_expired cred times.at_expiry ≡ false
    pub role : Role
    pub loaded : get_role st cred.role_name w.store ≡ ok (some role)
    pub granted : granted_ttl requested role cred.created_at times ≡ ok resp.ttl
    pub answered : resp.credential ≡ renewed cred resp.ttl times
    pub read_back : get_credential st username w'.store ≡ ok (some resp.credential)

  abbrev after_granted :
      Credential → Bytes → Times → World st → Outcome Error ℤ → World st × Outcome Error Response
  after_granted cred username times w (err e) = (w, err e)
  after_granted cred username times w panic = (w, panic)
  after_granted cred username times w (ok ttl) = renew st cred username ttl times w

  granted-ok :
      (cred : Credential) (username : Bytes) (times : Times) (w w' : World st) (resp : Response)
      (o : Outcome Error ℤ)
      → IsReliable st
      → after_granted cred username times w o ≡ (w', ok resp)
      → (o ≡ ok resp.ttl)
        × (resp.credential ≡ renewed cred resp.ttl times)
        × (get_credential st username w'.store ≡ ok (some resp.credential))
  granted-ok cred username times w w' resp (err e) r h = absurd (cc)
  granted-ok cred username times w w' resp panic r h = absurd (cc)
  granted-ok cred username times w w' resp (ok ttl) r h =
      let (stored, same) = renew-ok cred username ttl times w w' resp h in
      let back = get-store_credential username (renewed cred ttl times) w.store w'.store r stored in
      (rw same, rw same, rw same back)

  extend_found-IsExtended :
      (requested : ℤ) (times : Times) (w w' : World st) (resp : Response) (cred : Credential)
      (username : Bytes)
      → IsReliable st
      → extend_found st requested times w (cred, username) ≡ (w', ok resp)
      → IsExtended requested times w w' resp cred username
  unfolding extend_found
  extend_found-IsExtended requested times w w' resp cred username r h =
      elim (Outcome-cases (get_role st cred.role_name w.store)) [
        | inr (inl (e, failed)) ↦ absurd (cc (rw (extend_found, failed) at h))
        | inr (inr failed) ↦ absurd (cc (rw (extend_found, failed) at h))
        | inl (found, loaded) ↦ elim (Option-cases found) [
          | inl missing ↦ absurd (cc (rw (extend_found, loaded, missing) at h))
          | inr (role, present) ↦ elim (Bool-cases (is_expired cred times.at_expiry)) [
            | inl old ↦ absurd (cc (rw (extend_found, loaded, present, old) at h))
            | inr alive ↦ elim (Outcome-cases (granted_ttl requested role cred.created_at times)) [
              | inr (inl (e, failed)) ↦
                  absurd (cc (rw (extend_found, loaded, present, alive, failed) at h))
              | inr (inr failed) ↦
                  absurd (cc (rw (extend_found, loaded, present, alive, failed) at h))
              | inl (ttl, granted) ↦
                  let (same, answered, back) =
                    granted-ok cred username times w w' resp (ok ttl) r
                      (rw (extend_found, loaded, present, alive, granted) at h) in
                  record {
                    alive = alive;
                    role = role;
                    loaded = loaded ∙ rw present;
                    granted = granted ∙ same;
                    answered = answered;
                    read_back = back;
                  }
            ]
          ]
        ]
      ]

  -- If extending a lease over a reliable storage succeeds, the lease was found, its credential
  -- had not expired, its role granted the TTL answered, the credential answered is the one found
  -- with a new expiry and renewal time, and the storage then has it under the username.
  pub extend_lease-IsExtended :
      (lease_id : Bytes) (requested : ℤ) (times : Times) (w w' : World st) (resp : Response)
      → IsReliable st
      → extend_lease st lease_id requested times w ≡ (w', ok resp)
      → (cred : Credential) × (username : Bytes) × (get_credential_by_lease_id st lease_id w.store
          ≡ ok (some (cred, username)))
        × IsExtended requested times w w' resp cred username
  unfolding extend_lease
  extend_lease-IsExtended lease_id requested times w w' resp r h =
      elim (Bool-cases (is_empty lease_id)) [
        | inl empty ↦ absurd (cc (rw (extend_lease, empty) at h))
        | inr named ↦ elim (Outcome-cases (get_credential_by_lease_id st lease_id w.store)) [
          | inr (inl (e, failed)) ↦ absurd (cc (rw (extend_lease, named, failed) at h))
          | inr (inr failed) ↦ absurd (cc (rw (extend_lease, named, failed) at h))
          | inl (found, listed) ↦ elim (Option-cases found) [
            | inl missing ↦ absurd (cc (rw (extend_lease, named, listed, missing) at h))
            | inr ((cred, username), present) ↦ (
              cred,
              username,
              listed ∙ rw present,
              extend_found-IsExtended requested times w w' resp cred username r
                  (rw (extend_lease, named, listed, present) at h),
            )
          ]
        ]
      ]

  found_injective :
      {A : Type 0} (a b : A) → Path (Outcome Error (Option A)) (ok (some a)) (ok (some b)) → a ≡ b
  found_injective a b h = cc

  -- If extending a lease over a reliable storage succeeds and its role has a positive maximal
  -- TTL, the new expiry of the credential exceeds the maximum after its creation by no more than
  -- the time between the reading of the clock that the TTL was capped with and the one that it
  -- was added to, which is not the earlier; it is later than that second reading, by no more than
  -- the TTL wanted.
  pub extend_lease_bounds :
      (lease_id : Bytes) (requested : ℤ) (times : Times) (w w' : World st) (resp : Response)
      (cred : Credential) (username : Bytes) (role : Role) (m : ℕ)
      → IsReliable st
      → get_credential_by_lease_id st lease_id w.store ≡ ok (some (cred, username))
      → get_role st cred.role_name w.store ≡ ok (some role)
      → role.max_ttl ≡ pos m
      → 0 < m
      → times.at_second_since ≤ times.at_extension
      → extend_lease st lease_id requested times w ≡ (w', ok resp)
      → (resp.credential.expires_at
          ≤ cred.created_at + m * second + (times.at_extension - times.at_second_since))
        × (times.at_extension < resp.credential.expires_at)
        × (resp.credential.expires_at
            ≤ times.at_extension + pos_part (wanted_ttl requested role.default_ttl))
  extend_lease_bounds lease_id requested times w w' resp cred username role m r listed loaded e p
        later h =
      let (cred', username', found, x) =
        extend_lease-IsExtended lease_id requested times w w' resp r h in
      let same = found_injective (cred, username) (cred', username') (sym listed ∙ found) in
      let c_same : cred ≡ cred' = ap (λ (y : Credential × Bytes). y.0) same in
      let role_same : role ≡ x.role = found_injective role x.role (
        sym loaded
        ∙ rw (ap (λ (y : Credential). get_role st y.role_name w.store) c_same) x.loaded) in
      let (ends, positive, wanted) =
        granted_bounds requested role cred.created_at m times resp.ttl e p
          (rw (role_same, ap (λ (y : Credential). y.created_at) c_same) x.granted) in
      let answered = ap (λ (y : Credential). y.expires_at) x.answered in
      rw answered (
        expiry_bounds resp.ttl times.at_second_since times.at_extension
          (cred.created_at + m * second) (pos_part (wanted_ttl requested role.default_ttl)) ends
          positive wanted later)
