-- ===== src/Odbc/Build/Joined.antt =====
-- odbc/odbc.go: the connection strings that are built, read back by the parser of
-- security/connection.go.
use openbao_teradata_secret.Common.{
  append-nil, append_assoc, ℕ, ◌≡◌, refl, ◌∙◌, true, false, List, [], ◌∷◌, ◌++◌, Option, none, some,
  All, arith, inl, inr, Option-cases, if◌then◌else◌,
}
use openbao_teradata_secret.Common.Bytes.{
  Bytes, is_empty, is_space, to_lower, trim_space, trim_left, trim_right,
}
use openbao_teradata_secret.Common.Map.{Map, insert}
use openbao_teradata_secret.Odbc.Build.{
  TeradataConnectionConfig, settings, param, joined, build_teradata_connection_string, append_all,
}
use openbao_teradata_secret.Security.Connection.{
  Scan, parse_connection_string, scan, new_scan, store_pair,
}
use openbao_teradata_secret.Security.Connection.Parsed.{
  IsPlainPair, stored, scanning, scan-step, scan-key, scan-value, step-equals, scan-pair,
  store_plain, append_nil, key_dense,
}

-- What `parseConnectionString` does after its loop.
abbrev finish : Option Scan → Option (Map Bytes)
finish none = none
finish (some s) = some (if is_empty s.current_key then s.pairs else store_pair s)

finish-scan : (s : Bytes) → parse_connection_string s ≡ finish (scan new_scan s)
unfolding parse_connection_string
finish-scan s = elim (Option-cases (scan new_scan s)) [
  | inl bad ↦ rw (parse_connection_string, bad)
  | inr (t, good) ↦ rw (parse_connection_string, good)
]

scan_last :
    (m : Map Bytes) (key value : Bytes)
    → IsPlainPair (key, value)
    → scan (scanning m [] [] false) (param (key, value)) ≡ some (scanning m key value true)
unfolding scan
scan_last m key value h =
    scan-key m [] key (b'=' ∷ value) h.1
    ∙ scan-step (scanning m key [] false) (scanning m key [] true) b'=' value
        (step-equals m key (is_empty value))
    ∙ (rw (append_nil value) at (scan-value m key [] value [] h.2))

finish_last :
    (m : Map Bytes) (key value : Bytes)
    → IsPlainPair (key, value)
    → finish (scan (scanning m [] [] false) (param (key, value)))
      ≡ some (insert (to_lower key) value m)
finish_last m key value h = rw (scan_last m key value h, h.0, store_plain m key value h)

finish-joined :
    (m : Map Bytes) (pairs : List (Bytes × Bytes))
    → All IsPlainPair pairs
    → finish (scan (scanning m [] [] false) (joined pairs)) ≡ some (stored pairs m)
unfolding scan
finish-joined m [] a = refl
finish-joined m ((key, value) ∷ []) a = finish_last m key value a.0
finish-joined m ((key, value) ∷ q ∷ ps) a =
    rw
      (
        append_assoc key (b'=' ∷ value) (b';' ∷ joined (q ∷ ps)),
        scan-pair m key value (joined (q ∷ ps)) a.0,
      )
      (finish-joined (insert (to_lower key) value m) (q ∷ ps) a.1)

pub parse-joined :
    (pairs : List (Bytes × Bytes))
    → All IsPlainPair pairs
    → parse_connection_string (joined pairs) ≡ some (stored pairs [])
unfolding new_scan
parse-joined pairs a = finish-scan (joined pairs) ∙ finish-joined [] pairs a

-- If its values have no space, quote, backslash or semicolon, the string that
-- BuildTeradataConnectionString builds is parsed into the settings that it was built from.
pub parse-build_teradata_connection_string :
    (cfg : TeradataConnectionConfig)
    → All IsPlainPair (settings cfg)
    → parse_connection_string (build_teradata_connection_string cfg)
      ≡ some (stored (settings cfg) [])
unfolding build_teradata_connection_string
parse-build_teradata_connection_string cfg a = parse-joined (settings cfg) a

joined-append :
    (p q : Bytes × Bytes) (ps qs : List (Bytes × Bytes))
    → joined (p ∷ ps) ++ b';' ∷ joined (q ∷ qs) ≡ joined ((p ∷ ps) ++ (q ∷ qs))
joined-append p q [] qs = refl
joined-append p q (p' ∷ ps) qs = rw (
  append_assoc (param p) (b';' ∷ joined (p' ∷ ps)) (b';' ∷ joined (q ∷ qs)),
  joined-append p' q ps qs,
)

trim_space_head : (c : ℕ) (s : Bytes) → is_space c ≡ false → is_empty (trim_space (c ∷ s)) ≡ false
unfolding trim_space trim_left trim_right
trim_space_head c s h = ground (arith)

joined_full :
    (p : Bytes × Bytes) (ps : List (Bytes × Bytes))
    → IsPlainPair p
    → is_empty (trim_space (joined (p ∷ ps))) ≡ false
joined_full ([], value) ps a = absurd (ground arith)
joined_full (c ∷ key, value) [] a =
    trim_space_head c (key ++ b'=' ∷ value) (key_dense (c ∷ key) a.1).0
joined_full (c ∷ key, value) (q ∷ qs) a =
    trim_space_head c ((key ++ b'=' ∷ value) ++ b';' ∷ joined (q ∷ qs)) (key_dense (c ∷ key) a.1).0

-- Settings appended to the string of some plain settings give the string of all of them.
pub append_all-joined :
    (pairs more : List (Bytes × Bytes))
    → All IsPlainPair pairs
    → append_all (joined pairs) more ≡ joined (pairs ++ more)
unfolding trim_space trim_left trim_right
append_all-joined [] [] a = refl
append_all-joined [] (q ∷ qs) a = refl
append_all-joined (p ∷ ps) [] a = rw (append-nil ps)
append_all-joined (p ∷ ps) (q ∷ qs) a = rw (joined_full p ps a.0) (joined-append p q ps qs)
