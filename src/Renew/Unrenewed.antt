-- ===== src/Renew/Unrenewed.antt =====
-- plugin/path_renew_creds.go: what a renewal comes to, given that `retry.Do` panics without a
-- configuration.
use openbao_teradata_secret.Common.{◌≡◌, refl, inl, inr, Option-cases}
use openbao_teradata_secret.Common.Bytes.{Bytes}
use openbao_teradata_secret.Credentials.{get_cached_credential}
use openbao_teradata_secret.Database.{Driver}
use openbao_teradata_secret.Issue.{PasswordDraws, drawn_password}
use openbao_teradata_secret.Issue.Making.{State}
use openbao_teradata_secret.Model.{Credential}
use openbao_teradata_secret.Odbc.Username.{validate_username}
use openbao_teradata_secret.Outcome.{err, panic, Outcome-cases}
use openbao_teradata_secret.Renew.{
  Plan, Times, renewal_plan, renew_user, renew_planned, path_renew_creds,
}
use openbao_teradata_secret.Retry.{Context, do_retry}
use openbao_teradata_secret.Revoke.Never.{IsFailure, failure, get_cached_credential-store}
use openbao_teradata_secret.Storage.{Storage}

module _ (st : Storage) (d : Driver) (inner : d.State → Context) (ctx : Context) where
  renew_planned-panics :
      (p : Plan) (cred : Credential) (username password : Bytes) (times : Times) (s : State st d)
      → renew_planned st d inner ctx p cred username password times s ≡ (s, panic)
  unfolding renew_planned renew_user do_retry
  renew_planned-panics p cred username password times s = refl

  -- pathRenewCredsHandler never succeeds, and it neither calls the database nor writes to
  -- storage: it ends in an error before it connects, or it panics.
  pub path_renew_creds-IsFailure :
      (username : Bytes) (draws : PasswordDraws) (times : Times) (s : State st d)
      → IsFailure st d inner ctx s (path_renew_creds st d inner ctx username draws times s)
  unfolding path_renew_creds
  path_renew_creds-IsFailure username draws times s =
      elim (Option-cases (validate_username username)) [
        | inr (e, invalid) ↦
            rw (path_renew_creds, invalid)
              (failure st d inner ctx s s _ refl refl (λ a h. absurd (cc)))
        | inl valid ↦
            let cached =
              get_cached_credential st username times.at_lookup times.at_lookup_cache s.creds in
            let same =
              get_cached_credential-store st d inner ctx username times.at_lookup
                times.at_lookup_cache s.creds in
            let s1 : State st d = record s { creds = cached.0 } in
            elim (Outcome-cases cached.1) [
              | inr (inl (e, failed)) ↦
                  rw (path_renew_creds, valid, failed)
                    (failure st d inner ctx s s1 _ refl same (λ a h. absurd (cc)))
              | inr (inr failed) ↦
                  rw (path_renew_creds, valid, failed)
                    (failure st d inner ctx s s1 panic refl same (λ a h. absurd (cc)))
              | inl (found, read) ↦ elim (Option-cases found) [
                | inl gone ↦
                    rw (path_renew_creds, valid, read, gone)
                      (failure st d inner ctx s s1 _ refl same (λ a h. absurd (cc)))
                | inr (cred, there) ↦
                    elim (Outcome-cases
                      (renewal_plan st d inner cred (drawn_password draws) cached.0.store)) [
                        | inr (inl (e, failed)) ↦
                            rw (path_renew_creds, valid, read, there, failed)
                              (failure st d inner ctx s s1 (err e) refl same (λ a h. absurd (cc)))
                        | inr (inr failed) ↦
                            rw (path_renew_creds, valid, read, there, failed)
                              (failure st d inner ctx s s1 panic refl same (λ a h. absurd (cc)))
                        | inl (p, planned) ↦
                            rw
                              (
                                path_renew_creds,
                                valid,
                                read,
                                there,
                                planned,
                                renew_planned-panics p cred username (drawn_password draws) times
                                    s1,
                              )
                              (failure st d inner ctx s s1 panic refl same (λ a h. absurd (cc)))
                      ]
              ]
            ]
      ]
