-- ===== src/Issue/Batch/Counted.antt =====
-- plugin/path_creds.go: how many credentials `pathCredsBatchRead` hands out.
use openbao_teradata_secret.Common.{
  ℕ, zero, suc, ◌+◌, ◌≡◌, ◌≤◌, ◌<◌, refl, sym, ap, ◌∙◌, ◌⊎◌, inl, inr, true, false, List, Option,
  length, arith, if◌then◌else◌,
}
use openbao_teradata_secret.Common.Bytes.{Bytes}
use openbao_teradata_secret.Common.Int.{ℤ, pos, pos_part, ltbℤ, ◌-ℤ◌, ◌≤ℤ◌}
use openbao_teradata_secret.Credentials.{count_credentials_by_role}
use openbao_teradata_secret.Database.{Driver}
use openbao_teradata_secret.Degradation.{Flags}
use openbao_teradata_secret.Issue.{Plan, Draws, Times, Made, plan}
use openbao_teradata_secret.Issue.Batch.{
  clamp, batch_count, batch_plan, issue_each, BatchResponse, path_creds_batch_read,
}
use openbao_teradata_secret.Issue.Making.{State, Sql, issue}
use openbao_teradata_secret.Issue.Permitted.{HasRoom, IsPermitted, plan-IsPermitted, ok_injective}
use openbao_teradata_secret.Model.{Role}
use openbao_teradata_secret.Outcome.{ok, bind-ok, Outcome-cases}
use openbao_teradata_secret.Registry.{Registry}
use openbao_teradata_secret.Storage.{Storage}

clamp_bounds : (count : ℤ) → (0 < clamp count) × (clamp count ≤ 100)
unfolding clamp
clamp_bounds count = ground arith

-- So many credentials are within the limits: one to a hundred, and no more than the quota leaves.
abbrev pub IsWithin : (st : Storage) → Role → Bytes → st.State → ℕ → Type 0
IsWithin st role name s n =
    (0 < n)
    × (n ≤ 100)
    × ((ltbℤ (pos 0) role.max_credentials ≡ false)
        ⊎ ((k : ℕ) × (count_credentials_by_role st name s ≡ ok k)
            × (pos (k + n) ≤ℤ role.max_credentials)))

capped :
    (max : ℤ) (k m : ℕ)
    → 0 < m
    → m ≤ 100
    → ltbℤ (pos k) max ≡ true
    → let n = if ltbℤ (max -ℤ pos k) (pos m) then pos_part (max -ℤ pos k) else m in
      (0 < n) × (n ≤ 100) × (pos (k + n) ≤ℤ max)
capped max k m positive small room = ground arith

limited : (max : ℤ) (k : ℕ) → ltbℤ (pos k) max ≡ true → ltbℤ (pos 0) max ≡ true
limited max k h = ground arith

batch_count-IsWithin :
    (st : Storage) (role : Role) (name : Bytes) (count : ℤ) (s : st.State) (n : ℕ)
    → HasRoom st role name s
    → batch_count st role name count s ≡ ok n
    → IsWithin st role name s n
unfolding batch_count
batch_count-IsWithin st role name count s n (inl unlimited) =
    rw (batch_count, unlimited)
      (λ h. rw (← ok_injective h) ((clamp_bounds count).0, (clamp_bounds count).1, inl refl))
batch_count-IsWithin st role name count s n (inr (k, counted, left)) =
    rw (batch_count, limited role.max_credentials k left, counted)
      (λ h.
        let (some_made, small, fits) =
          capped role.max_credentials k (clamp count) (clamp_bounds count).0 (clamp_bounds count).1
            left in
        rw (← ok_injective h) (some_made, small, inr (k, refl, fits)))

module _ (st : Storage) (d : Driver) (sql : Sql d) where
  length-issue_each :
      (p : Plan) (name region : Bytes) (draws : ℕ → Draws) (times : ℕ → Times) (n : ℕ)
      (s : State st d) (ms : List Made)
      → (issue_each st d sql p name region draws times n s).1 ≡ ok ms
      → length ms ≡ n
  unfolding issue_each
  length-issue_each p name region draws times zero s ms = λ h. rw (← ok_injective h) refl
  length-issue_each p name region draws times (suc left) s ms =
      elim (Outcome-cases (issue st d sql p name region (draws left) (times left) s).1) [
        | inr (inl (e, failed)) ↦ rw (issue_each, failed) (λ h. absurd (cc))
        | inr (inr failed) ↦ rw (issue_each, failed) (λ h. absurd (cc))
        | inl (m, made) ↦
            rw (issue_each, made)
              (λ h.
                let (rest, done, whole) = bind-ok _ _ ms h in
                rw (
                  ← ok_injective whole,
                  length-issue_each p name region draws times left _ rest done,
                ))
      ]

  -- If pathCredsBatchRead answers, the checks of pathCredsRead hold, and it has made between one
  -- and a hundred credentials, and where the role has a maximum, no more than the maximum has
  -- room for beside those that storage counts.
  pub path_creds_batch_read-IsWithin :
      (flags : Flags) (registry : Option (Registry d)) (name region : Bytes) (count : ℤ)
      (draws : ℕ → Draws) (times : ℕ → Times) (s : State st d) (resp : BatchResponse st d sql)
      → (path_creds_batch_read st d sql flags registry name region count draws times s).1 ≡ ok resp
      → (p : Plan) × IsPermitted st d flags registry name region s.creds.store p
        × IsWithin st p.role name s.creds.store (length resp.credentials)
  unfolding path_creds_batch_read batch_plan
  path_creds_batch_read-IsWithin flags registry name region count draws times s resp =
      elim (Outcome-cases (batch_plan st d sql flags registry name region count s.creds.store)) [
        | inr (inl (e, failed)) ↦ rw (path_creds_batch_read, failed) (λ h. absurd (cc))
        | inr (inr failed) ↦ rw (path_creds_batch_read, failed) (λ h. absurd (cc))
        | inl (pn, planned) ↦
            rw (path_creds_batch_read, planned)
              (λ h.
                let (p, read, h1) =
                  bind-ok (plan st d flags registry name region s.creds.store) _ pn planned in
                let (n, counted, h2) =
                  bind-ok (batch_count st p.role name count s.creds.store) _ pn h1 in
                let each = issue_each st d sql pn.0 name region draws times pn.1 s in
                let (ms, done, answered) = bind-ok each.1 _ resp h in
                let count_made : length resp.credentials ≡ n =
                  ap (λ (x : BatchResponse st d sql). length x.credentials)
                    (sym (ok_injective answered))
                  ∙ length-issue_each pn.0 name region draws times pn.1 s ms done
                  ∙ ap (λ (x : Plan × ℕ). x.1) (sym (ok_injective h2)) in
                let permitted =
                  plan-IsPermitted st d flags registry name region s.creds.store p read in
                (
                  p,
                  permitted,
                  rw count_made (
                      batch_count-IsWithin st p.role name count s.creds.store n permitted.has_room
                        counted),
                ))
      ]
