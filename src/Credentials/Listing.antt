-- ===== src/Credentials/Listing.antt =====
-- plugin/path_creds.go: `countCredentialsByRole` beside `listAllLeases`.
use openbao_teradata_secret.Common.{
  ℕ, ◌+◌, ◌≡◌, refl, ◌∙◌, inl, inr, List, [], ◌∷◌, arith, Option-cases, if◌then◌else◌,
}
use openbao_teradata_secret.Common.Bytes.{Bytes, bytes_eq}
use openbao_teradata_secret.Credentials.{
  credential_prefix, trim_prefix, get_credential, count_entries, count_credentials_by_role,
  read_leases, list_all_leases,
}
use openbao_teradata_secret.Model.{Credential}
use openbao_teradata_secret.Outcome.{Outcome, ok, err, panic, ◌>>=◌, Outcome-cases}
use openbao_teradata_secret.Retry.{Error}
use openbao_teradata_secret.Storage.{Storage}

-- How many of the leases are of a role.
abbrev pub of_role : Bytes → List Credential → ℕ
of_role role_name [] = 0
of_role role_name (cred ∷ leases) =
    (if bytes_eq cred.role_name role_name then 1 else 0) + of_role role_name leases

-- A sum after a list that may fail.
add_one :
    (role_name : Bytes) (cred : Credential) (o : Outcome Error (List Credential))
    → ((o >>= λ leases. ok (of_role role_name leases)) >>= λ n.
        ok ((if bytes_eq cred.role_name role_name then 1 else 0) + n))
      ≡ ((o >>= λ leases. ok (cred ∷ leases)) >>= λ leases. ok (of_role role_name leases))
add_one role_name cred (ok leases) = refl
add_one role_name cred (err e) = refl
add_one role_name cred panic = refl

add_none : (o : Outcome Error ℕ) → (o >>= λ n. ok (0 + n)) ≡ o
add_none (ok n) = ground arith
add_none (err e) = refl
add_none panic = refl

module _ (st : Storage) where
  count_entries-read_leases :
      (role_name : Bytes) (entries : List Bytes) (s : st.State)
      → count_entries st role_name entries s
        ≡ (read_leases st entries s >>= λ leases. ok (of_role role_name leases))
  unfolding count_entries read_leases
  count_entries-read_leases role_name [] s = refl
  count_entries-read_leases role_name (entry ∷ entries) s =
      let rest = count_entries-read_leases role_name entries s in
      elim (Outcome-cases (get_credential st (trim_prefix entry) s)) [
        | inr (inl (e, failed)) ↦ rw (count_entries, read_leases, failed)
        | inr (inr failed) ↦ rw (count_entries, read_leases, failed)
        | inl (found, read) ↦ elim (Option-cases found) [
          | inl missing ↦ rw (count_entries, read_leases, read, missing) (add_none _ ∙ rest)
          | inr (cred, present) ↦
              rw (count_entries, read_leases, read, present, rest)
                (add_one role_name cred (read_leases st entries s))
        ]
      ]

  -- countCredentialsByRole counts the leases of the role that listAllLeases lists, and fails as
  -- it fails.
  pub count_credentials_by_role-list_all_leases :
      (role_name : Bytes) (s : st.State)
      → count_credentials_by_role st role_name s
        ≡ (list_all_leases st s >>= λ leases. ok (of_role role_name leases))
  unfolding count_credentials_by_role list_all_leases
  count_credentials_by_role-list_all_leases role_name s =
      elim (Outcome-cases (st.list credential_prefix s)) [
        | inr (inl (e, failed)) ↦ rw (count_credentials_by_role, list_all_leases, failed)
        | inr (inr failed) ↦ rw (count_credentials_by_role, list_all_leases, failed)
        | inl (entries, listed) ↦
            rw (count_credentials_by_role, list_all_leases, listed)
              (count_entries-read_leases role_name entries s)
      ]
