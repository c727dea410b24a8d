-- ===== src/Revoke/Never.antt =====
-- plugin/path_revoke_creds.go and plugin/path_bulk_revoke.go: what the revocations come to, given that
-- `retry.Do` panics without a configuration.
use openbao_teradata_secret.Common.{
  ℕ, ◌≡◌, ◌≢◌, refl, sym, inl, inr, List, [], ◌∷◌, Option, none, some, Option-cases,
}
use openbao_teradata_secret.Common.Bytes.{Bytes}
use openbao_teradata_secret.CredentialCache
use openbao_teradata_secret.Credentials.{
  World, SetTimes, get_credential, get_cached_credential, cache_credential,
}
use openbao_teradata_secret.Database.{Driver}
use openbao_teradata_secret.Issue.Making.{State}
use openbao_teradata_secret.Model.{Role}
use openbao_teradata_secret.Odbc.Username.{validate_username}
use openbao_teradata_secret.Outcome.{Outcome, ok, err, panic, bind-ok, Outcome-cases}
use openbao_teradata_secret.Retry.{Error, Context, do_retry}
use openbao_teradata_secret.Revoke.{
  revoke_user, revoke_credential, revocation_plan, path_revoke_creds,
}
use openbao_teradata_secret.Issue.Permitted.{ok_injective}
use openbao_teradata_secret.Loaded.{get_config}
use openbao_teradata_secret.Odbc.Build.{append_query_timeout}
use openbao_teradata_secret.Revoke.Bulk.{
  required_config, Result, count_revoked, and_next, revoke_named, revoke_each,
  path_bulk_revoke_creds,
}
use openbao_teradata_secret.Roles.{get_role}
use openbao_teradata_secret.Storage.{Storage}

and_next_failed :
    {S : Type 0} (username : Bytes) (r : S × Outcome Error (Unit {0}))
    (next : S → S × Outcome Error (List Result)) (rs : List Result)
    → r.1 ≢ ok tt
    → (and_next username r next).1 ≡ ok rs
    → (e : Error) × (rest : List Result) × ((next r.0).1 ≡ ok rest)
      × (rs ≡ (username, some e) ∷ rest)
and_next_failed username (s, ok u) next rs bad h = absurd (bad refl)
and_next_failed username (s, panic) next rs bad h = absurd (cc)
and_next_failed username (s, err e) next rs bad h =
    let (rest, later, whole) = bind-ok (next s).1 _ rs h in
    (e, rest, later, sym (ok_injective whole))

module _ (st : Storage) (d : Driver) (inner : d.State → Context) (ctx : Context) where
  revoke_credential-panics :
      (conn_string : Bytes) (role : Option Role) (username : Bytes) (s : State st d)
      → revoke_credential st d inner ctx conn_string role username s ≡ (s, panic)
  unfolding revoke_credential revoke_user do_retry
  revoke_credential-panics conn_string role username s = refl

  pub get_cached_credential-store :
      (username : Bytes) (now : ℕ) (times : SetTimes) (w : World st)
      → (get_cached_credential st username now times w).0.store ≡ w.store
  unfolding get_cached_credential cache_credential
  get_cached_credential-store username now times w =
      elim (Option-cases (CredentialCache.get w.cache username now).1) [
        | inr (c, hit) ↦ rw (get_cached_credential, hit)
        | inl miss ↦ elim (Outcome-cases (get_credential st username w.store)) [
          | inr (inl (e, failed)) ↦ rw (get_cached_credential, miss, failed)
          | inr (inr failed) ↦ rw (get_cached_credential, miss, failed)
          | inl (found, read) ↦ elim (Option-cases found) [
            | inl gone ↦ rw (get_cached_credential, miss, read, gone)
            | inr (c, there) ↦ rw (get_cached_credential, miss, read, there)
          ]
        ]
      ]

  -- No success, and neither a call of the database nor a write to storage.
  pub record IsFailure {A : Type 0} (s : State st d) (r : State st d × Outcome Error A)
      : Type 0 where
    pub no_success : (a : A) → r.1 ≢ ok a
    pub same_world : r.0.world ≡ s.world
    pub same_store : r.0.creds.store ≡ s.creds.store

  pub failure :
      {A : Type 0} (s s' : State st d) (o : Outcome Error A)
      → s'.world ≡ s.world
      → s'.creds.store ≡ s.creds.store
      → ((a : A) → o ≢ ok a)
      → IsFailure s (s', o)
  failure s s' o world store bad = record {
    no_success = bad;
    same_world = world;
    same_store = store;
  }

  -- pathRevokeCredsHandler never succeeds, and it neither calls the database nor writes to
  -- storage: it ends in an error before it connects, or it panics.
  pub path_revoke_creds-IsFailure :
      (username : Bytes) (now : ℕ) (times : SetTimes) (s : State st d)
      → IsFailure s (path_revoke_creds st d inner ctx username now times s)
  unfolding path_revoke_creds
  path_revoke_creds-IsFailure username now times s =
      elim (Option-cases (validate_username username)) [
        | inr (e, invalid) ↦
            rw (path_revoke_creds, invalid) (failure s s _ refl refl (λ a h. absurd (cc)))
        | inl valid ↦
            let cached = get_cached_credential st username now times s.creds in
            let same = get_cached_credential-store username now times s.creds in
            let s1 : State st d = record s { creds = cached.0 } in
            elim (Outcome-cases cached.1) [
              | inr (inl (e, failed)) ↦
                  rw (path_revoke_creds, valid, failed)
                    (failure s s1 _ refl same (λ a h. absurd (cc)))
              | inr (inr failed) ↦
                  rw (path_revoke_creds, valid, failed)
                    (failure s s1 panic refl same (λ a h. absurd (cc)))
              | inl (found, read) ↦ elim (Option-cases found) [
                | inl gone ↦
                    rw (path_revoke_creds, valid, read, gone)
                      (failure s s1 _ refl same (λ a h. absurd (cc)))
                | inr (cred, there) ↦
                    elim (Outcome-cases (revocation_plan st d inner cred cached.0.store)) [
                      | inr (inl (e, failed)) ↦
                          rw (path_revoke_creds, valid, read, there, failed)
                            (failure s s1 (err e) refl same (λ a h. absurd (cc)))
                      | inr (inr failed) ↦
                          rw (path_revoke_creds, valid, read, there, failed)
                            (failure s s1 panic refl same (λ a h. absurd (cc)))
                      | inl (rc, planned) ↦
                          rw
                            (
                              path_revoke_creds,
                              valid,
                              read,
                              there,
                              planned,
                              revoke_credential-panics _ rc.0 username s1,
                            )
                            (failure s s1 panic refl same (λ a h. absurd (cc)))
                    ]
              ]
            ]
      ]

  revoke_named-fails :
      (conn_string username : Bytes) (now : ℕ) (times : SetTimes) (s : State st d)
      → (revoke_named st d inner ctx conn_string username now times s).1 ≢ ok tt
  unfolding revoke_named
  revoke_named-fails conn_string username now times s =
      elim (Option-cases (validate_username username)) [
        | inr (e, invalid) ↦ rw (revoke_named, invalid) (λ h. absurd (cc))
        | inl valid ↦
            let cached = get_cached_credential st username now times s.creds in
            elim (Outcome-cases cached.1) [
              | inr (inl (e, failed)) ↦ rw (revoke_named, valid, failed) (λ h. absurd (cc))
              | inr (inr failed) ↦ rw (revoke_named, valid, failed) (λ h. absurd (cc))
              | inl (found, read) ↦ elim (Option-cases found) [
                | inl gone ↦ rw (revoke_named, valid, read, gone) (λ h. absurd (cc))
                | inr (cred, there) ↦
                    elim (Outcome-cases (get_role st cred.role_name cached.0.store)) [
                      | inr (inl (e, failed)) ↦
                          rw (revoke_named, valid, read, there, failed) (λ h. absurd (cc))
                      | inr (inr failed) ↦
                          rw (revoke_named, valid, read, there, failed) (λ h. absurd (cc))
                      | inl (role, found_role) ↦
                          rw
                            (
                              revoke_named,
                              valid,
                              read,
                              there,
                              found_role,
                              revoke_credential-panics conn_string role username
                                  (record s { creds = cached.0 }),
                            )
                            (λ h. absurd (cc))
                    ]
              ]
            ]
      ]

  revoke_each-none :
      (conn_string : Bytes) (clock : List Bytes → ℕ × SetTimes) (names : List Bytes)
      (s : State st d) (rs : List Result)
      → (revoke_each st d inner ctx conn_string clock names s).1 ≡ ok rs
      → count_revoked rs ≡ 0
  unfolding revoke_each
  revoke_each-none conn_string clock [] s rs = λ h. rw (← ok_injective h) refl
  revoke_each-none conn_string clock (n ∷ ns) s rs = λ h.
      let (e, rest, later, whole) =
        and_next_failed n (revoke_named st d inner ctx conn_string n (clock ns).0 (clock ns).1 s)
          (revoke_each st d inner ctx conn_string clock ns) rs
          (revoke_named-fails conn_string n (clock ns).0 (clock ns).1 s) h in
      rw whole (revoke_each-none conn_string clock ns _ rest later)

  -- If pathBulkRevokeCredsHandler answers at all, it has revoked none of the credentials.
  pub path_bulk_revoke_creds-none :
      (usernames : Option (List Bytes)) (clock : List Bytes → ℕ × SetTimes) (s : State st d)
      (rs : List Result)
      → (path_bulk_revoke_creds st d inner ctx usernames clock s).1 ≡ ok rs
      → count_revoked rs ≡ 0
  unfolding path_bulk_revoke_creds
  path_bulk_revoke_creds-none none clock s rs = λ h. absurd (cc)
  path_bulk_revoke_creds-none (some []) clock s rs = λ h. absurd (cc)
  path_bulk_revoke_creds-none (some (n ∷ ns)) clock s rs =
      elim (Outcome-cases (required_config (get_config st s.creds.store))) [
        | inr (inl (e, failed)) ↦ rw (path_bulk_revoke_creds, failed) (λ h. absurd (cc))
        | inr (inr failed) ↦ rw (path_bulk_revoke_creds, failed) (λ h. absurd (cc))
        | inl (cfg, read) ↦
            rw (path_bulk_revoke_creds, read)
              (λ h.
                revoke_each-none (append_query_timeout cfg.connection_string cfg.query_timeout)
                  clock (n ∷ ns) s rs h)
      ]
