-- ===== src/Storage.antt =====
-- What the plugin uses of OpenBao's `logical.Storage` and of its JSON coding, which are not part of
-- the repository: parameters of the model, with the documented behaviour that theorems rely on.
use openbao_teradata_secret.Common.{◌≡◌, ◌≢◌, List, Option, none, some}
use openbao_teradata_secret.Common.Bytes.{Bytes}
use openbao_teradata_secret.Model.{Credential, Config, Role, Statement}
use openbao_teradata_secret.Outcome.{Outcome, ok}
use openbao_teradata_secret.Retry.{Error}

-- `Get`, `Put`, `Delete` and `List` on a state, and the coding of each kind of entry. A write
-- returns the new state beside its result.
pub record Storage : Type 1 where
  pub State : Type 0
  pub Entry : Type 0
  pub get : Bytes → State → Outcome Error (Option Entry)
  pub put : Bytes → Entry → State → State × Outcome Error (Unit {0})
  pub delete : Bytes → State → State × Outcome Error (Unit {0})
  pub list : Bytes → State → Outcome Error (List Bytes)
  pub encode_credential : Credential → Outcome Error Entry
  pub decode_credential : Entry → Outcome Error Credential
  pub encode_role : Role → Outcome Error Entry
  pub decode_role : Entry → Outcome Error Role
  pub decode_config : Entry → Outcome Error Config
  pub decode_statement : Entry → Outcome Error Statement

-- A write that succeeds is read back, a delete that succeeds leaves no entry, neither touches
-- another key, and decoding undoes encoding.
pub record IsReliable (st : Storage) : Type 0 where
  pub get-put :
      (k : Bytes) (e : st.Entry) (s s' : st.State)
      → st.put k e s ≡ (s', ok tt)
      → st.get k s' ≡ ok (some e)
  pub get-put_ne :
      (k j : Bytes) (e : st.Entry) (s s' : st.State)
      → st.put k e s ≡ (s', ok tt)
      → k ≢ j
      → st.get j s' ≡ st.get j s
  pub get-delete :
      (k : Bytes) (s s' : st.State) → st.delete k s ≡ (s', ok tt) → st.get k s' ≡ ok none
  pub get-delete_ne :
      (k j : Bytes) (s s' : st.State)
      → st.delete k s ≡ (s', ok tt)
      → k ≢ j
      → st.get j s' ≡ st.get j s
  pub decode-encode_credential :
      (c : Credential) (e : st.Entry)
      → st.encode_credential c ≡ ok e
      → st.decode_credential e ≡ ok c
