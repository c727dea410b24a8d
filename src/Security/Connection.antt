-- ===== src/Security/Connection.antt =====
-- security/connection.go: `ValidateConnectionString`, with `parseConnectionString`. A nil error is
-- `none`. The order in which `range` visits the pairs decides which key an error quotes, and the
-- errors stand here without the texts that they quote.
pub mod Parsed
use openbao_teradata_secret.Common.{
  ℕ, Bool, true, false, not, ◌&&◌, ◌||◌, List, [], ◌∷◌, ◌++◌, Option, none, some, any, ◌==◌,
  if◌then◌else◌,
}
use openbao_teradata_secret.Common.Bytes.{
  Bytes, codes, is_empty, contains, is_space, is_letter, is_digit, to_lower, trim_space,
}
use openbao_teradata_secret.Common.Map.{Map, insert}

pub data ConnectionError : Type 0 where
  empty_connection_string missing_dsn invalid_format invalid_key_value : ConnectionError

-- `requiredKeywords`
abbrev pub required_keywords : List Bytes
required_keywords = codes "dsn" ∷ codes "server" ∷ codes "servers" ∷ []

-- The variables of the loop in `parseConnectionString`.
pub record Scan : Type 0 where
  pub pairs : Map Bytes
  pub current_key : Bytes
  pub current_value : Bytes
  pub in_value : Bool
  pub in_quote : Bool
  pub escaped : Bool

unfoldable pub new_scan : Scan
new_scan = record {
  pairs = [];
  current_key = [];
  current_value = [];
  in_value = false;
  in_quote = false;
  escaped = false;
}

-- Stores the pair gathered, if it has a key.
unfoldable pub store_pair : Scan → Map Bytes
store_pair s =
    let key = trim_space s.current_key in
    if is_empty key then s.pairs else insert (to_lower key) (trim_space s.current_value) s.pairs

-- `WriteRune` to the value or to the key.
unfoldable pub write : Scan → ℕ → Scan
write s ch =
    if s.in_value
    then record s { current_value = s.current_value ++ ch ∷ [] }
    else record s { current_key = s.current_key ++ ch ∷ [] }

-- `ch == ';' || ch == '\n' || ch == '\r'`
abbrev pub is_separator : ℕ → Bool
is_separator ch = ch == b';' || (ch == 10 || ch == 13)

-- The tests after those of the escape and the quote.
unfoldable pub step_plain : Scan → ℕ → Scan
unfolding write store_pair
step_plain s ch =
    if ch == b'=' && (not s.in_quote && not s.in_value)
    then record s { in_value = true }
    else if is_separator ch && (not s.in_quote && s.in_value)
    then record s { pairs = store_pair s; current_key = []; current_value = []; in_value = false }
    else if is_space ch && (not s.in_quote && not s.in_value)
    then s
    else write s ch

-- One round of the loop; `last` says that no byte follows, and `none` is `ErrInvalidFormat`.
unfoldable pub step : Scan → Bool → ℕ → Option Scan
unfolding step_plain
step s last ch =
    if s.escaped
    then some (
        if s.in_value
        then record s { current_value = s.current_value ++ ch ∷ []; escaped = false }
        else record s { escaped = false })
    else if ch == 92 && not last
    then some (record s { escaped = true })
    else if ch == 34
    then (if not s.in_quote && not s.in_value
        then none
        else some (record s { in_quote = not s.in_quote }))
    else some (step_plain s ch)

-- The loop.
unfoldable pub scan : Scan → Bytes → Option Scan
unfolding step
scan s [] = some s
scan s (ch ∷ rest) = elim (step s (is_empty rest) ch) [ none ↦ none | some s' ↦ scan s' rest ]

-- `parseConnectionString`
unfoldable pub parse_connection_string : Bytes → Option (Map Bytes)
unfolding scan new_scan store_pair
parse_connection_string conn_string = elim (scan new_scan conn_string) [
  | none ↦ none
  | some s ↦ some (if is_empty s.current_key then s.pairs else store_pair s)
]

-- `validateKeyValuePair`
abbrev pub is_key_byte : ℕ → Bool
is_key_byte r = is_letter r || (is_digit r || (r == b'_' || r == b'-'))

unfoldable pub validate_key_value_pair : Bytes → Option ConnectionError
validate_key_value_pair key =
    if is_empty key
    then some invalid_key_value
    else if contains key (32 ∷ [])
    then some invalid_key_value
    else if any (λ r. not (is_key_byte r)) key
    then some invalid_key_value
    else none

-- The loop over the pairs.
unfoldable pub validate_pairs : Map Bytes → Option ConnectionError
unfolding validate_key_value_pair
validate_pairs [] = none
validate_pairs ((key, value) ∷ pairs) =
    let rest = validate_pairs pairs in
    elim (validate_key_value_pair key) [ some e ↦ some e | none ↦ rest ]

-- Whether the text has one of the keywords that it must have, in any case.
unfoldable pub has_required : Bytes → Bool
has_required conn_string =
    any (λ req. contains (to_lower conn_string) (req ++ b'=' ∷ [])) required_keywords

-- The tests of `ValidateConnectionString` on what was parsed.
unfoldable pub validate_parsed : Option (Map Bytes) → Option ConnectionError
unfolding validate_pairs
validate_parsed none = some invalid_format
validate_parsed (some []) = some invalid_format
validate_parsed (some (pair ∷ pairs)) = validate_pairs (pair ∷ pairs)

-- `ValidateConnectionString`
unfoldable pub validate_connection_string : Bytes → Option ConnectionError
validate_connection_string conn_string =
    let trimmed = trim_space conn_string in
    if is_empty trimmed
    then some empty_connection_string
    else if not (has_required trimmed)
    then some missing_dsn
    else validate_parsed (parse_connection_string trimmed)
