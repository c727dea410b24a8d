-- ===== src/Odbc/Build/Fields.antt =====
-- odbc/odbc.go: the settings of a connection string as keys with the values that they may have.
use openbao_teradata_secret.Common.{
  append-nil, ◌≡◌, refl, ◌∙◌, ap, Bool, true, false, List, [], ◌∷◌, ◌++◌, Option, none, some, inl,
  inr, Bool-cases, if◌then◌else◌,
}
use openbao_teradata_secret.Common.Bytes.{Bytes, codes, is_empty, to_lower, bytes_eq}
use openbao_teradata_secret.Common.Decimal.{decimal}
use openbao_teradata_secret.Common.Int.{ℤ, pos, ltbℤ, pos_part}
use openbao_teradata_secret.Common.Map.{Map, lookup, insert}
use openbao_teradata_secret.Common.Map.Laws.{lookup-insert}
use openbao_teradata_secret.Odbc.Build.{text_setting, number_setting, flag_setting}
use openbao_teradata_secret.Security.Connection.Parsed.{stored}

-- Keys with the values that they may have.
abbrev pub Fields : Type 0
Fields = List (Bytes × Option Bytes)

abbrev pub optional : Fields → List (Bytes × Bytes)
optional [] = []
optional ((key, none) ∷ fs) = optional fs
optional ((key, some v) ∷ fs) = (key, v) ∷ optional fs

abbrev pub or_kept : Option Bytes → Option Bytes → Option Bytes
or_kept none old = old
or_kept (some v) old = some v

-- The last value under a key, or the one there was.
abbrev pub last_of : Bytes → Fields → Option Bytes → Option Bytes
last_of k [] old = old
last_of k ((key, o) ∷ fs) old =
    last_of k fs (if bytes_eq (to_lower key) k then or_kept o old else old)

pub lookup-stored :
    (k : Bytes) (fs : Fields) (m : Map Bytes)
    → lookup k (stored (optional fs) m) ≡ last_of k fs (lookup k m)
lookup-stored k [] m = refl
lookup-stored k ((key, none) ∷ fs) m = elim (Bool-cases (bytes_eq (to_lower key) k)) [
  | inl same ↦ rw same (lookup-stored k fs m)
  | inr other ↦ rw other (lookup-stored k fs m)
]
lookup-stored k ((key, some v) ∷ fs) m =
    lookup-stored k fs (insert (to_lower key) v m)
    ∙ ap (last_of k fs) (lookup-insert (to_lower key) k v m)

-- What a setting is worth: `none` where it is left out.
abbrev pub text_of : Bytes → Option Bytes
text_of v = if is_empty v then none else some v

abbrev pub number_of : ℤ → Option Bytes
number_of n = if ltbℤ (pos 0) n then some (decimal (pos_part n)) else none

abbrev pub flag_of : Bool → Option Bytes
flag_of on = if on then some (codes "1") else none

pub text_part : (key v : Bytes) → text_setting key v ≡ optional ((key, text_of v) ∷ [])
text_part key v = elim (Bool-cases (is_empty v)) [ inl empty ↦ rw empty | inr full ↦ rw full ]

pub number_part : (key : Bytes) (n : ℤ) → number_setting key n ≡ optional ((key, number_of n) ∷ [])
number_part key n = elim (Bool-cases (ltbℤ (pos 0) n)) [
  | inl positive ↦ rw positive
  | inr left_out ↦ rw left_out
]

pub flag_part : (key : Bytes) (on : Bool) → flag_setting key on ≡ optional ((key, flag_of on) ∷ [])
flag_part key true = refl
flag_part key false = refl

optional-append : (fs gs : Fields) → optional (fs ++ gs) ≡ optional fs ++ optional gs
optional-append [] gs = refl
optional-append ((key, none) ∷ fs) gs = optional-append fs gs
optional-append ((key, some v) ∷ fs) gs = rw (optional-append fs gs)

-- Each part is that of its field.
abbrev pub AreParts : List (List (Bytes × Bytes)) → Fields → Type 0
AreParts [] [] = Unit
AreParts [] (f ∷ fs) = ⊥
AreParts (part ∷ parts) [] = ⊥
AreParts (part ∷ parts) (f ∷ fs) = (part ≡ optional (f ∷ [])) × AreParts parts fs

abbrev pub append_parts : List (Bytes × Bytes) → List (List (Bytes × Bytes)) → List (Bytes × Bytes)
append_parts first [] = first
append_parts first (part ∷ parts) = append_parts (first ++ part) parts

fields_snoc :
    (gs : Fields) (f : Bytes × Option Bytes) (fs : Fields) → (gs ++ f ∷ []) ++ fs ≡ gs ++ f ∷ fs
fields_snoc [] f fs = refl
fields_snoc (g ∷ gs) f fs = rw (fields_snoc gs f fs)

pub append_parts-optional :
    (first : List (Bytes × Bytes)) (gs : Fields) (parts : List (List (Bytes × Bytes))) (fs : Fields)
    → first ≡ optional gs
    → AreParts parts fs
    → append_parts first parts ≡ optional (gs ++ fs)
append_parts-optional first gs [] [] h a = rw (append-nil gs) h
append_parts-optional first gs [] (f ∷ fs) h a = absurd a
append_parts-optional first gs (part ∷ parts) [] h a = absurd a
append_parts-optional first gs (part ∷ parts) (f ∷ fs) h a =
    let more : first ++ part ≡ optional (gs ++ f ∷ []) =
      rw (optional-append gs (f ∷ []), h, a.0) refl in
    append_parts-optional (first ++ part) (gs ++ f ∷ []) parts fs more a.1
    ∙ ap optional (fields_snoc gs f fs)
