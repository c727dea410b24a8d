-- ===== src/Issue/Issued.antt =====
-- plugin/path_creds.go: what holds once a credential was handed out.
use openbao_teradata_secret.Common.{
  ◌≡◌, refl, sym, ap, ◌∙◌, ◌⊎◌, inl, inr, true, false, Option, none, some, ◌++◌, Bool-cases,
}
use openbao_teradata_secret.Common.Bytes.{Bytes, codes, is_empty}
use openbao_teradata_secret.Credentials.{
  get_credential, store_credential, credential_prefix, cache_credential,
}
use openbao_teradata_secret.Database.{Driver}
use openbao_teradata_secret.Degradation.{Flags}
use openbao_teradata_secret.Issue.{
  Plan, Draws, Times, Made, plan, fill_in, build_teradata_create_user_sql, generate_username,
  password_for, checked,
}
use openbao_teradata_secret.Issue.Making.{
  State, Sql, create_user, issue, record_credential, new_credential, path_creds_read, Response,
}
use openbao_teradata_secret.Model.{Credential}
use openbao_teradata_secret.Odbc.Username.{validate_username}
use openbao_teradata_secret.Outcome.{Outcome, ok, ◌>>=◌, bind-ok, Outcome-cases}
use openbao_teradata_secret.Registry.{Registry}
use openbao_teradata_secret.Retry.{Error}
use openbao_teradata_secret.Security.Password.{validate_password}
use openbao_teradata_secret.Storage.{Storage, IsReliable}
use openbao_teradata_secret.Issue.Permitted.{
  ok_injective, checked-ok, IsPermitted, plan-IsPermitted,
}

module _ (st : Storage) (d : Driver) (sql : Sql d) where
  -- The user is made: the text that creates it was executed without an error, and so was the creation
  -- statement, if there is one.
  abbrev pub IsCreated : Plan → Bytes → Bytes → d.State → d.State → Type 0
  IsCreated p username password w w' =
      (w1 : d.State) × (sql p.config (build_teradata_create_user_sql username password) w
        ≡ (w1, ok tt))
      × (((is_empty p.creation ≡ true) × (w' ≡ w1))
          ⊎ ((is_empty p.creation ≡ false)
              × (sql p.config (fill_in username password p.creation) w1 ≡ (w', ok tt))))

  create_user-ok :
      (p : Plan) (username password : Bytes) (w w' : d.State)
      → create_user d sql p username password w ≡ (w', ok tt)
      → IsCreated p username password w w'
  unfolding create_user
  create_user-ok p username password w w' =
      let created = sql p.config (build_teradata_create_user_sql username password) w in
      elim (Outcome-cases created.1) [
        | inr (inl (e, failed)) ↦ rw (create_user, failed) (λ h. absurd (cc))
        | inr (inr failed) ↦ rw (create_user, failed) (λ h. absurd (cc))
        | inl (u, done) ↦ elim (Bool-cases (is_empty p.creation)) [
          | inl no_statement ↦
              rw (create_user, done, no_statement)
                (λ h. (
                  created.0,
                  refl,
                  inl (refl, sym (ap (λ (x : d.State × Outcome Error (Unit {0})). x.0) h)),
                ))
          | inr statement ↦
              let extended = sql p.config (fill_in username password p.creation) created.0 in
              elim (Outcome-cases extended.1) [
                | inr (inl (e, failed)) ↦
                    rw (create_user, done, statement, failed) (λ h. absurd (cc))
                | inr (inr failed) ↦ rw (create_user, done, statement, failed) (λ h. absurd (cc))
                | inl (u2, done2) ↦
                    rw (create_user, done, statement, done2)
                      (λ h. (created.0, refl, inr (refl, ap (λ o. (extended.0, o)) done2 ∙ h)))
              ]
        ]
      ]

  -- The credential is stored, to be read back under its user name, and what was made says so.
  pub record IsRecorded (p : Plan) (name region username password : Bytes) (times : Times)
      (s' : State st d) (m : Made) : Type 0 where
    pub is_made : m ≡ record {
      password = password;
      credential = new_credential st d sql p name region username times;
    }
    pub is_kept : get_credential st username s'.creds.store ≡ ok (some m.credential)

  store_credential-kept :
      (username : Bytes) (cred : Credential) (w w' : st.State)
      → IsReliable st
      → store_credential st username cred w ≡ (w', ok tt)
      → get_credential st username w' ≡ ok (some cred)
  unfolding store_credential get_credential
  store_credential-kept username cred w w' r = elim (Outcome-cases (st.encode_credential cred)) [
    | inr (inl (e, failed)) ↦ rw (store_credential, failed) (λ h. absurd (cc))
    | inr (inr failed) ↦ rw (store_credential, failed) (λ h. absurd (cc))
    | inl (entry, encoded) ↦
        rw (store_credential, encoded)
          (λ h. rw (
            r.get-put (credential_prefix ++ username) entry w w' h,
            r.decode-encode_credential cred entry encoded,
          ))
  ]

  record_credential-IsRecorded :
      (p : Plan) (name region username password : Bytes) (times : Times) (s s' : State st d)
      (m : Made)
      → IsReliable st
      → record_credential st d sql p name region username password times s ≡ (s', ok m)
      → IsRecorded p name region username password times s' m × (s'.world ≡ s.world)
  unfolding record_credential cache_credential
  record_credential-IsRecorded p name region username password times s s' m r =
      let cred = new_credential st d sql p name region username times in
      let (store', stored) = store_credential st username cred s.creds.store in
      elim (Outcome-cases stored) [
        | inr (inl (e, failed)) ↦ rw (record_credential, failed) (λ h. absurd (cc))
        | inr (inr failed) ↦ rw (record_credential, failed) (λ h. absurd (cc))
        | inl (u, done) ↦
            rw (record_credential, done)
              (λ h.
                rw
                  (
                    ← ap (λ (x : State st d × Outcome Error Made). x.0) h,
                    ← ok_injective (ap (λ (x : State st d × Outcome Error Made). x.1) h),
                  )
                  (
                    record {
                      is_made = refl;
                      is_kept =
                          store_credential-kept username cred s.creds.store store' r
                            (ap (λ o. (store', o)) done);
                    },
                    refl,
                  ))
      ]

  -- A user was made, with a valid name and a valid password, and its credential is recorded.
  pub record IsIssued (p : Plan) (name region : Bytes) (draws : Draws) (times : Times)
      (s s' : State st d) (m : Made) : Type 0 where
    pub valid_username :
        validate_username
          (generate_username p.role.username_prefix p.role.username_suffix draws.suffix)
        ≡ none
    pub valid_password : validate_password (password_for p.role draws) ≡ none
    pub is_created :
        IsCreated p
          (generate_username p.role.username_prefix p.role.username_suffix draws.suffix)
          (password_for p.role draws)
          s.world
          s'.world
    pub is_recorded :
        IsRecorded p name region
          (generate_username p.role.username_prefix p.role.username_suffix draws.suffix)
          (password_for p.role draws)
          times
          s'
          m

  pub issue-IsIssued :
      (p : Plan) (name region : Bytes) (draws : Draws) (times : Times) (s s' : State st d)
      (m : Made)
      → IsReliable st
      → issue st d sql p name region draws times s ≡ (s', ok m)
      → IsIssued p name region draws times s s' m
  unfolding issue
  issue-IsIssued p name region draws times s s' m r =
      let username = generate_username p.role.username_prefix p.role.username_suffix draws.suffix in
      let password = password_for p.role draws in
      let checks : Outcome Error (Unit {0}) =
        checked (codes "generated username validation failed: ") (validate_username username)
        >>= λ u.
            checked (codes "generated password validation failed: ") (validate_password password) in
      elim (Outcome-cases checks) [
        | inr (inl (e, failed)) ↦ rw (issue, failed) (λ h. absurd (cc))
        | inr (inr failed) ↦ rw (issue, failed) (λ h. absurd (cc))
        | inl (u, passed) ↦
            let (u1, name_ok, password_ok) =
              bind-ok
                (checked (codes "generated username validation failed: ")
                  (validate_username username))
                _ u passed in
            let made = create_user d sql p username password s.world in
            elim (Outcome-cases made.1) [
              | inr (inl (e, failed)) ↦ rw (issue, passed, failed) (λ h. absurd (cc))
              | inr (inr failed) ↦ rw (issue, passed, failed) (λ h. absurd (cc))
              | inl (u2, done) ↦
                  rw (issue, passed, done)
                    (λ h.
                      let (recorded, same_world) =
                        record_credential-IsRecorded p name region username password times
                          (record s { world = made.0 }) s' m r h in
                      record {
                        valid_username =
                            checked-ok (codes "generated username validation failed: ") _ name_ok;
                        valid_password =
                            checked-ok (codes "generated password validation failed: ") _
                              password_ok;
                        is_created = rw same_world (
                            create_user-ok p username password s.world made.0
                              (ap (λ o. (made.0, o)) done));
                        is_recorded = recorded;
                      })
            ]
      ]

  -- If pathCredsRead answers credentials over a reliable storage, then the role exists and its
  -- quota has room, the configuration lets the role in, the backend can operate on the region,
  -- the user name and the password are valid, the SQL that makes the user and then the creation
  -- statement, if there is one, were executed without an error, and the credential is read back
  -- from storage under the user name. The creation statement is the one of the template that the
  -- role names, or the one of the role where it names none or that one is empty.
  pub path_creds_read-IsIssued :
      (flags : Flags) (registry : Option (Registry d)) (name region : Bytes) (draws : Draws)
      (times : Times) (s : State st d) (resp : Response st d sql)
      → IsReliable st
      → (path_creds_read st d sql flags registry name region draws times s).1 ≡ ok resp
      → (p : Plan) × IsPermitted st d flags registry name region s.creds.store p
        × IsIssued p name region draws times s
            (path_creds_read st d sql flags registry name region draws times s).0
            resp.made
  unfolding path_creds_read
  path_creds_read-IsIssued flags registry name region draws times s resp r =
      elim (Outcome-cases (plan st d flags registry name region s.creds.store)) [
        | inr (inl (e, failed)) ↦ rw (path_creds_read, failed) (λ h. absurd (cc))
        | inr (inr failed) ↦ rw (path_creds_read, failed) (λ h. absurd (cc))
        | inl (p, planned) ↦
            rw (path_creds_read, planned)
              (λ h.
                let made = issue st d sql p name region draws times s in
                let (m, done, answered) = bind-ok made.1 _ resp h in
                (
                  p,
                  plan-IsPermitted st d flags registry name region s.creds.store p planned,
                  rw (← ap (λ (x : Response st d sql). x.made) (ok_injective answered)) (
                      issue-IsIssued p name region draws times s made.0 m r
                        (ap (λ o. (made.0, o)) done)),
                ))
      ]
