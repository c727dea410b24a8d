-- ===== src/Security/Session/Safe.antt =====
-- security/sql_validation.go and plugin/path_creds.go: the session variables that pass, the
-- statements made of them, and merging.
use openbao_teradata_secret.Common.{
  ℕ, ◌≡◌, refl, Bool, true, false, not, [], ◌∷◌, ◌++◌, Option, none, some, any, All, length, ltb,
  ◌==◌, arith, if◌then◌else◌,
}
use openbao_teradata_secret.Common.Bytes.{
  Bytes, codes, has_prefix, contains, contains_byte, to_upper, upper_byte, is_lower, bytes_eq_iff,
}
use openbao_teradata_secret.Common.Map.{Map, lookup, insert, Distinct}
use openbao_teradata_secret.Common.Map.Laws
use openbao_teradata_secret.Security.Session.{
  SessionError, invalid_session_var, session_var_too_long, dangerous_pattern,
  max_session_var_name_length, max_session_var_value_length, valid_name_chars, symbol_patterns,
  session_patterns, session_keywords, validate_session_variable, validate_each,
  validate_session_variables, copy_into, merge_session_variables, build_session_variable_sql,
}
use openbao_teradata_secret.Security.Sql.{keyword_stands}

has_prefix-to_upper : (s p : Bytes) → any is_lower p ≡ true → has_prefix (to_upper s) p ≡ false
unfolding has_prefix to_upper upper_byte
has_prefix-to_upper s [] h = absurd (cc)
has_prefix-to_upper [] (x ∷ p) h = refl
has_prefix-to_upper (c ∷ s) (x ∷ p) h = ground (arith, has_prefix-to_upper s p)

-- A text with a lower-case letter is not found in an upper-case text.
contains-to_upper : (s p : Bytes) → any is_lower p ≡ true → contains (to_upper s) p ≡ false
unfolding contains to_upper
contains-to_upper [] p h = has_prefix-to_upper [] p h
contains-to_upper (c ∷ s) p h =
    ground (arith, has_prefix-to_upper (c ∷ s) p h, contains-to_upper s p h)

-- The patterns with a letter of ValidateSessionVariables stop no value.
pub word_patterns_idle :
    (value : Bytes)
    → any (contains (to_upper value)) session_patterns
      ≡ any (contains (to_upper value)) symbol_patterns
word_patterns_idle value = ground (
  arith,
  contains-to_upper value (codes "0x") refl,
  contains-to_upper value (codes "char(") refl,
  contains-to_upper value (codes "nchar(") refl,
  contains-to_upper value (codes "varchar(") refl,
)

lookup-copy_into :
    (vars result : Map Bytes) (j : Bytes)
    → Distinct vars
    → lookup j (copy_into vars result)
      ≡ (elim (lookup j vars) [ some v ↦ some v | none ↦ lookup j result ])
unfolding copy_into lookup
lookup-copy_into [] result j d = refl
lookup-copy_into ((k, v) ∷ vars) result j d = ground (
  arith,
  lookup-copy_into vars (insert k v result) j d.1,
  Laws.lookup-insert k j v result,
  bytes_eq_iff k j,
)

-- In mergeSessionVariables of two maps with one value to a key the variable of the role wins, and
-- one that the role does not have is that of the configuration.
pub lookup-merge_session_variables :
    (config_vars role_vars : Map Bytes) (j : Bytes)
    → Distinct config_vars
    → Distinct role_vars
    → lookup j (merge_session_variables config_vars role_vars)
      ≡ (elim (lookup j role_vars) [ some v ↦ some v | none ↦ lookup j config_vars ])
unfolding merge_session_variables
lookup-merge_session_variables config_vars role_vars j d d' = ground (
  arith,
  lookup-copy_into role_vars (copy_into config_vars []) j d',
  lookup-copy_into config_vars [] j d,
  Laws.lookup-nil {V = Bytes} j,
)

-- A byte by which a value could leave its place in a statement: `;`, a quote or a backslash.
abbrev pub breaking_bytes : Bytes
breaking_bytes = b';' ∷ 39 ∷ 34 ∷ 92 ∷ []

abbrev Without : Bytes → ℕ → Type 0
Without s b = contains_byte s b ≡ false

-- No breaking byte is in the text.
abbrev pub IsWhole : Bytes → Type 0
IsWhole s = All (Without s) breaking_bytes

append-Without : (s t : Bytes) (b : ℕ) → Without s b → Without t b → Without (s ++ t) b
unfolding contains_byte
append-Without [] t b h k = k
append-Without (c ∷ s) t b h k = ground (arith, append-Without s t b)

upper-Without :
    (s : Bytes) (b : ℕ) → upper_byte b ≡ b → contains (to_upper s) (b ∷ []) ≡ false → Without s b
unfolding contains contains_byte to_upper has_prefix
upper-Without [] b h k = refl
upper-Without (c ∷ s) b h k = ground (arith, upper-Without s b h)

member-differs :
    (chars : Bytes) (c b : ℕ)
    → contains_byte chars c ≡ true
    → contains_byte chars b ≡ false
    → (c == b) ≡ false
unfolding contains_byte
member-differs [] c b h k = absurd (cc)
member-differs (x ∷ chars) c b h k = ground (arith, member-differs chars c b)

name-Without :
    (chars name : Bytes) (b : ℕ)
    → any (λ c. not (contains_byte chars c)) name ≡ false
    → contains_byte chars b ≡ false
    → Without name b
unfolding contains_byte
name-Without chars [] b h k = refl
name-Without chars (c ∷ name) b h k =
    let rest = name-Without chars name b in
    let differs = member-differs chars c b in ground (arith, rest, differs)

append-IsWhole : (s t : Bytes) → IsWhole s → IsWhole t → IsWhole (s ++ t)
append-IsWhole s t (h1, (h2, (h3, (h4, _)))) (k1, (k2, (k3, (k4, _)))) = (
  append-Without s t b';' h1 k1,
  (append-Without s t 39 h2 k2, (append-Without s t 34 h3 k3, (append-Without s t 92 h4 k4, tt))),
)

-- The symbols that a value may not have are not in it.
value-IsWhole :
    (value : Bytes) → any (contains (to_upper value)) session_patterns ≡ false → IsWhole value
unfolding upper_byte
value-IsWhole value h = (
  upper-Without value b';' refl (ground arith),
  (
    upper-Without value 39 refl (ground arith),
    (upper-Without value 34 refl (ground arith), (upper-Without value 92 refl (ground arith), tt)),
  ),
)

name-IsWhole :
    (name : Bytes) → any (λ c. not (contains_byte valid_name_chars c)) name ≡ false → IsWhole name
unfolding contains_byte
name-IsWhole name h =
    let without = name-Without valid_name_chars name in
    (without b';' h refl, (without 39 h refl, (without 34 h refl, (without 92 h refl, tt))))

set-IsWhole : IsWhole (codes "SET ")
unfolding contains_byte
set-IsWhole = (refl, (refl, (refl, (refl, tt))))

equals-IsWhole : IsWhole (codes " = ")
unfolding contains_byte
equals-IsWhole = (refl, (refl, (refl, (refl, tt))))

-- Five tests, each with an error.
five_tests :
    (a b c d e : Bool) (x y z u v : SessionError)
    → (if a
        then some x
        else if b
        then some y
        else if c
        then some z
        else if d
        then some u
        else if e
        then some v
        else none)
      ≡ none
    → (c ≡ false) × (d ≡ false)
five_tests a b c d e x y z u v h = ground arith

statement-IsWhole :
    (name value : Bytes)
    → validate_session_variable name value ≡ none
    → IsWhole (codes "SET " ++ (name ++ (codes " = " ++ value)))
unfolding validate_session_variable
statement-IsWhole name value h =
    let (named, symbols) =
      five_tests (ltb max_session_var_name_length (length name))
        (ltb max_session_var_value_length (length value))
        (any (λ c. not (contains_byte valid_name_chars c)) name)
        (any (contains (to_upper value)) session_patterns)
        (any (keyword_stands (codes "_(") (to_upper value)) session_keywords) session_var_too_long
        session_var_too_long invalid_session_var dangerous_pattern dangerous_pattern h in
    append-IsWhole (codes "SET ") _ set-IsWhole (
      append-IsWhole name _ (name-IsWhole name named)
        (append-IsWhole (codes " = ") value equals-IsWhole (value-IsWhole value symbols)))

both_none :
    (o rest : Option SessionError)
    → (let r : Option SessionError = elim o [ some e ↦ some e | none ↦ rest ] in r) ≡ none
    → (o ≡ none) × (rest ≡ none)
both_none none rest h = (refl, h)
both_none (some e) rest h = absurd (cc)

build-IsWhole :
    (vars : Map Bytes) → validate_each vars ≡ none → All IsWhole (build_session_variable_sql vars)
unfolding validate_each build_session_variable_sql
build-IsWhole [] h = tt
build-IsWhole ((name, value) ∷ vars) h =
    let (first, others) = both_none (validate_session_variable name value) (validate_each vars) h in
    (statement-IsWhole name value first, build-IsWhole vars others)

-- No statement made of session variables that ValidateSessionVariables accepts has a semicolon, a
-- quote, a double quote or a backslash.
pub build_session_variable_sql-IsWhole :
    (vars : Map Bytes)
    → validate_session_variables vars ≡ none
    → All IsWhole (build_session_variable_sql vars)
unfolding validate_session_variables
build_session_variable_sql-IsWhole vars h = build-IsWhole vars (ground arith)
