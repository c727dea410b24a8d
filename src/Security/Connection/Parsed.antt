-- ===== src/Security/Connection/Parsed.antt =====
-- security/connection.go: what is parsed from a text of plain pairs, and what a connection string
-- that passes is like.
use openbao_teradata_secret.Common.{
  ℕ, ◌≡◌, ◌≢◌, refl, Bool, true, false, not, List, [], ◌∷◌, ◌++◌, Option, none, some, any, ◌==◌,
  All, arith, ◌∙◌,
}
use openbao_teradata_secret.Common.Bytes.{
  Bytes, is_empty, is_space, to_lower, trim_space, trim_left, trim_right,
}
use openbao_teradata_secret.Common.Map.{Map, insert}
use openbao_teradata_secret.Security.Connection.{
  Scan, step, step_plain, store_pair, write, scan, new_scan, is_key_byte, parse_connection_string,
  validate_key_value_pair, validate_pairs, validate_parsed, has_required,
  validate_connection_string,
}

-- A byte of a value that the parser gives no meaning to.
abbrev pub IsValueByte : ℕ → Type 0
IsValueByte c =
    (is_space c ≡ false) × ((c == 92) ≡ false) × ((c == 34) ≡ false) × ((c == b';') ≡ false)

-- A key of letters, digits, `_` and `-`, and a value of plain bytes.
abbrev pub IsPlainPair : Bytes × Bytes → Type 0
IsPlainPair (key, value) =
    (is_empty key ≡ false) × All (λ c. is_key_byte c ≡ true) key × All IsValueByte value

-- `key=value;` for each pair.
abbrev pub render : List (Bytes × Bytes) → Bytes
render [] = []
render ((key, value) ∷ pairs) = key ++ b'=' ∷ (value ++ b';' ∷ render pairs)

-- The map with each pair stored, in order, under its key in lower case.
abbrev pub stored : List (Bytes × Bytes) → Map Bytes → Map Bytes
stored [] m = m
stored ((key, value) ∷ pairs) m = stored pairs (insert (to_lower key) value m)

-- The states of the scan between quotes and escapes.
abbrev pub scanning : Map Bytes → Bytes → Bytes → Bool → Scan
scanning m key value in_value = record {
  pairs = m;
  current_key = key;
  current_value = value;
  in_value = in_value;
  in_quote = false;
  escaped = false;
}

step-key :
    (m : Map Bytes) (key : Bytes) (last : Bool) (c : ℕ)
    → is_key_byte c ≡ true
    → step (scanning m key [] false) last c ≡ some (scanning m (key ++ c ∷ []) [] false)
unfolding step step_plain write
step-key m key last c h = ground arith

step-value :
    (m : Map Bytes) (key value : Bytes) (last : Bool) (c : ℕ)
    → IsValueByte c
    → step (scanning m key value true) last c ≡ some (scanning m key (value ++ c ∷ []) true)
unfolding step step_plain write
step-value m key value last c h = ground arith

pub append_nil : (s : Bytes) → s ++ [] ≡ s
append_nil [] = refl
append_nil (c ∷ s) = rw (append_nil s)

append_one : (s more : Bytes) (c : ℕ) → (s ++ c ∷ []) ++ more ≡ s ++ c ∷ more
append_one [] more c = refl
append_one (d ∷ s) more c = rw (append_one s more c)

pub scan-step :
    (s s' : Scan) (c : ℕ) (rest : Bytes)
    → step s (is_empty rest) c ≡ some s'
    → scan s (c ∷ rest) ≡ scan s' rest
unfolding scan
scan-step s s' c rest h = rw (scan, h)

pub scan-key :
    (m : Map Bytes) (key more rest : Bytes)
    → All (λ c. is_key_byte c ≡ true) more
    → scan (scanning m key [] false) (more ++ rest) ≡ scan (scanning m (key ++ more) [] false) rest
scan-key m key [] rest a = rw (append_nil key)
scan-key m key (c ∷ more) rest a = rw (← append_one key more c) (
    scan-step _ _ c (more ++ rest) (step-key m key _ c a.0)
    ∙ scan-key m (key ++ c ∷ []) more rest a.1)

pub scan-value :
    (m : Map Bytes) (key value more rest : Bytes)
    → All IsValueByte more
    → scan (scanning m key value true) (more ++ rest)
      ≡ scan (scanning m key (value ++ more) true) rest
scan-value m key value [] rest a = rw (append_nil value)
scan-value m key value (c ∷ more) rest a = rw (← append_one value more c) (
    scan-step _ _ c (more ++ rest) (step-value m key value _ c a.0)
    ∙ scan-value m key (value ++ c ∷ []) more rest a.1)

trim_right-dense : (s : Bytes) → All (λ c. is_space c ≡ false) s → trim_right s ≡ s
unfolding trim_right
trim_right-dense [] a = refl
trim_right-dense (c ∷ s) a = ground (arith, trim_right-dense s a.1)

trim_space-dense : (s : Bytes) → All (λ c. is_space c ≡ false) s → trim_space s ≡ s
unfolding trim_space trim_left
trim_space-dense [] a = refl
trim_space-dense (c ∷ s) a = rw (a.0) (trim_right-dense (c ∷ s) a)

pub key_dense : (s : Bytes) → All (λ c. is_key_byte c ≡ true) s → All (λ c. is_space c ≡ false) s
key_dense [] a = tt
key_dense (c ∷ s) a = (ground arith, key_dense s a.1)

value_dense : (s : Bytes) → All IsValueByte s → All (λ c. is_space c ≡ false) s
value_dense [] a = tt
value_dense (c ∷ s) a = (a.0.0, value_dense s a.1)

pub store_plain :
    (m : Map Bytes) (key value : Bytes)
    → IsPlainPair (key, value)
    → store_pair (scanning m key value true) ≡ insert (to_lower key) value m
unfolding store_pair
store_plain m key value h =
    rw (
      trim_space-dense key (key_dense key h.1),
      trim_space-dense value (value_dense value h.2),
      h.0,
    )

pub step-equals :
    (m : Map Bytes) (key : Bytes) (last : Bool)
    → step (scanning m key [] false) last b'=' ≡ some (scanning m key [] true)
unfolding step step_plain
step-equals m key last = ground arith

step-semicolon :
    (m : Map Bytes) (key value : Bytes) (last : Bool)
    → IsPlainPair (key, value)
    → step (scanning m key value true) last b';'
      ≡ some (scanning (insert (to_lower key) value m) [] [] false)
unfolding step step_plain
step-semicolon m key value last h = rw (store_plain m key value h)

pub scan-pair :
    (m : Map Bytes) (key value rest : Bytes)
    → IsPlainPair (key, value)
    → scan (scanning m [] [] false) (key ++ b'=' ∷ (value ++ b';' ∷ rest))
      ≡ scan (scanning (insert (to_lower key) value m) [] [] false) rest
scan-pair m key value rest h =
    scan-key m [] key _ h.1
    ∙ scan-step _ _ b'=' _ (step-equals m key _)
    ∙ scan-value m key [] value _ h.2
    ∙ scan-step _ _ b';' rest (step-semicolon m key value _ h)

scan-render :
    (m : Map Bytes) (pairs : List (Bytes × Bytes))
    → All IsPlainPair pairs
    → scan (scanning m [] [] false) (render pairs) ≡ some (scanning (stored pairs m) [] [] false)
unfolding scan
scan-render m [] a = refl
scan-render m ((key, value) ∷ pairs) a =
    scan-pair m key value (render pairs) a.0 ∙ scan-render (insert (to_lower key) value m) pairs a.1

-- A text of key=value; for each of some plain pairs is parsed into the map of these pairs under
-- their keys in lower case; of two pairs with one key the later counts.
pub parse_connection_string-render :
    (pairs : List (Bytes × Bytes))
    → All IsPlainPair pairs
    → parse_connection_string (render pairs) ≡ some (stored pairs [])
unfolding parse_connection_string new_scan
parse_connection_string-render pairs a = rw (parse_connection_string, scan-render [] pairs a)

-- The keys of a map that passes.
abbrev pub AllKeys : (Bytes → Type 0) → Map Bytes → Type 0
AllKeys P [] = Unit
AllKeys P ((key, value) ∷ pairs) = P key × AllKeys P pairs

-- A key of at least one letter, digit, `_` or `-`, and no other byte.
abbrev pub IsKey : Bytes → Type 0
IsKey key = (is_empty key ≡ false) × All (λ c. is_key_byte c ≡ true) key

any-not : (s : Bytes) → any (λ r. not (is_key_byte r)) s ≡ false → All (λ c. is_key_byte c ≡ true) s
any-not [] h = tt
any-not (c ∷ s) h = (ground arith, any-not s (ground arith))

validate_key_value_pair-IsKey : (key : Bytes) → validate_key_value_pair key ≡ none → IsKey key
unfolding validate_key_value_pair
validate_key_value_pair-IsKey key h = (ground arith, any-not key (ground arith))

validate_pairs-AllKeys : (m : Map Bytes) → validate_pairs m ≡ none → AllKeys IsKey m
unfolding validate_pairs
validate_pairs-AllKeys [] h = tt
validate_pairs-AllKeys ((key, value) ∷ m) h =
    (validate_key_value_pair-IsKey key (ground arith), validate_pairs-AllKeys m (ground arith))

validate_parsed-some :
    (o : Option (Map Bytes))
    → validate_parsed o ≡ none
    → (m : Map Bytes) × (o ≡ some m) × (m ≢ []) × AllKeys IsKey m
unfolding validate_parsed
validate_parsed-some none h = absurd (cc)
validate_parsed-some (some []) h = absurd (cc)
validate_parsed-some (some (pair ∷ m)) h =
    (pair ∷ m, refl, λ e. absurd (cc), validate_pairs-AllKeys (pair ∷ m) h)

-- A connection string that ValidateConnectionString accepts names a DSN or a server and is parsed
-- into at least one pair, with every key of letters, digits, underscores and dashes.
pub validate_connection_string-parses :
    (s : Bytes)
    → validate_connection_string s ≡ none
    → (has_required (trim_space s) ≡ true)
      × ((m : Map Bytes) × (parse_connection_string (trim_space s) ≡ some m)
          × (m ≢ [])
          × AllKeys IsKey m)
unfolding validate_connection_string
validate_connection_string-parses s h =
    (ground arith, validate_parsed-some (parse_connection_string (trim_space s)) (ground arith))
