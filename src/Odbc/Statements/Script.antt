-- ===== src/Odbc/Statements/Script.antt =====
-- odbc/odbc.go: what `parseSQLStatements` and the loop of `executeMultipleStatementsOnce` make of a
-- text that was put together from statements.
use openbao_teradata_secret.Common.{
  append_assoc, ◌≡◌, refl, ap, true, false, List, [], ◌∷◌, ◌++◌, Option, none, some, ◌==◌, All,
  arith, inl, inr, Option-cases,
}
use openbao_teradata_secret.Common.Bytes.{
  Bytes, is_empty, is_space, contains_byte, trim_space, trim_left, trim_right, ends_with,
}
use openbao_teradata_secret.Database.{Driver, as_operation}
use openbao_teradata_secret.Odbc.Statements.{
  split_lines, parse_lines, parse_sql_statements, trim_semicolon, to_send, send,
  execute_multiple_once,
}
use openbao_teradata_secret.Outcome.{Outcome, ok, Outcome-cases}
use openbao_teradata_secret.Retry.{Error}

abbrev StartsDense : Bytes → Type 0
StartsDense [] = ⊥
StartsDense (c ∷ s) = is_space c ≡ false

abbrev EndsDense : Bytes → Type 0
EndsDense [] = ⊥
EndsDense (c ∷ []) = is_space c ≡ false
EndsDense (c ∷ d ∷ s) = EndsDense (d ∷ s)

-- A text on one line that is not empty, neither begins nor ends with a space, and does not end
-- with a semicolon.
pub record IsStatement (t : Bytes) : Type 0 where
  pub starts_dense : StartsDense t
  pub ends_dense : EndsDense t
  pub one_line : contains_byte t b'\n' ≡ false
  pub unfinished : ends_with t b';' ≡ false

-- Each statement on a line of its own, with a semicolon behind all but the last.
abbrev pub script : List Bytes → Bytes
script [] = []
script (t ∷ []) = t
script (t ∷ u ∷ ts) = t ++ b';' ∷ b'\n' ∷ script (u ∷ ts)

dense_full : (s : Bytes) → StartsDense s → is_empty s ≡ false
dense_full [] h = absurd h
dense_full (c ∷ s) h = refl

trim_left_dense : (s : Bytes) → StartsDense s → trim_left s ≡ s
unfolding trim_left
trim_left_dense [] h = absurd h
trim_left_dense (c ∷ s) h = rw h

dense-append : (s t : Bytes) → StartsDense s → StartsDense (s ++ t)
dense-append [] t h = absurd h
dense-append (c ∷ s) t h = h

trim_right_dense : (s : Bytes) → EndsDense s → trim_right s ≡ s
unfolding trim_right
trim_right_dense [] h = absurd h
trim_right_dense (c ∷ []) h = rw h
trim_right_dense (c ∷ d ∷ s) h = ground (arith, trim_right_dense (d ∷ s) h)

trim_right_newline : (s : Bytes) → EndsDense s → trim_right (s ++ b'\n' ∷ []) ≡ s
unfolding trim_right
trim_right_newline [] h = absurd h
trim_right_newline (c ∷ []) h = rw h
trim_right_newline (c ∷ d ∷ s) h = ground (arith, trim_right_newline (d ∷ s) h)

ends_semicolon : (s : Bytes) → EndsDense (s ++ b';' ∷ [])
ends_semicolon [] = refl
ends_semicolon (c ∷ []) = refl
ends_semicolon (c ∷ d ∷ s) = ends_semicolon (d ∷ s)

ends_with_semicolon : (s : Bytes) → ends_with (s ++ b';' ∷ []) b';' ≡ true
unfolding ends_with
ends_with_semicolon [] = refl
ends_with_semicolon (c ∷ []) = refl
ends_with_semicolon (c ∷ d ∷ s) = ends_with_semicolon (d ∷ s)

trim_line : (s : Bytes) → StartsDense s → EndsDense s → trim_space s ≡ s
unfolding trim_space
trim_line s a b = rw (trim_left_dense s a) (trim_right_dense s b)

trim_ended_line : (s : Bytes) → StartsDense s → EndsDense s → trim_space (s ++ b'\n' ∷ []) ≡ s
unfolding trim_space
trim_ended_line s a b =
    rw (trim_left_dense (s ++ b'\n' ∷ []) (dense-append s (b'\n' ∷ []) a)) (trim_right_newline s b)

trim_semicolon_ended : (s : Bytes) → trim_semicolon (s ++ b';' ∷ []) ≡ s
unfolding trim_semicolon
trim_semicolon_ended [] = refl
trim_semicolon_ended (c ∷ []) = ground arith
trim_semicolon_ended (c ∷ d ∷ s) = ground (arith, trim_semicolon_ended (d ∷ s))

trim_semicolon_none : (s : Bytes) → ends_with s b';' ≡ false → trim_semicolon s ≡ s
unfolding trim_semicolon ends_with
trim_semicolon_none [] h = refl
trim_semicolon_none (c ∷ []) h = ground arith
trim_semicolon_none (c ∷ d ∷ s) h = ground (arith, trim_semicolon_none (d ∷ s) h)

-- A statement is sent as it is, with its semicolon behind it or without.
to_send_ended : (t : Bytes) → IsStatement t → to_send ((t ++ b';' ∷ []) ++ b'\n' ∷ []) ≡ some t
unfolding to_send
to_send_ended t i =
    let dense = dense-append t (b';' ∷ []) i.starts_dense in
    rw (
      trim_ended_line (t ++ b';' ∷ []) dense (ends_semicolon t),
      dense_full (t ++ b';' ∷ []) dense,
      trim_semicolon_ended t,
      trim_line t i.starts_dense i.ends_dense,
      dense_full t i.starts_dense,
    )

to_send_last : (t : Bytes) → IsStatement t → to_send (t ++ b'\n' ∷ []) ≡ some t
unfolding to_send
to_send_last t i = rw (
  trim_ended_line t i.starts_dense i.ends_dense,
  dense_full t i.starts_dense,
  trim_semicolon_none t i.unfinished,
  trim_line t i.starts_dense i.ends_dense,
  dense_full t i.starts_dense,
)

split_lines_one : (s : Bytes) → contains_byte s b'\n' ≡ false → split_lines s ≡ s ∷ []
unfolding split_lines contains_byte
split_lines_one [] h = refl
split_lines_one (c ∷ s) h =
    let other : (c == b'\n') ≡ false = ground arith in rw (other, split_lines_one s (ground arith))

split_lines_first :
    (s rest : Bytes)
    → contains_byte s b'\n' ≡ false
    → split_lines (s ++ b'\n' ∷ rest) ≡ s ∷ split_lines rest
unfolding split_lines contains_byte
split_lines_first [] rest h = refl
split_lines_first (c ∷ s) rest h =
    let other : (c == b'\n') ≡ false = ground arith in
    rw (other, split_lines_first s rest (ground arith))

abbrev kept : Option Bytes → List Bytes → List Bytes
kept none ts = ts
kept (some t) ts = t ∷ ts

-- What the loop sends of a list of statements.
abbrev pub texts : (Bytes → Option Bytes) → List Bytes → List Bytes
texts prepare [] = []
texts prepare (stmt ∷ stmts) = kept (prepare stmt) (texts prepare stmts)

one_line_ended :
    (t : Bytes) → contains_byte t b'\n' ≡ false → contains_byte (t ++ b';' ∷ []) b'\n' ≡ false
unfolding contains_byte
one_line_ended [] h = refl
one_line_ended (c ∷ t) h = ground (arith, one_line_ended t (ground arith))

parse_last : (t : Bytes) → IsStatement t → parse_lines [] (t ∷ []) ≡ (t ++ b'\n' ∷ []) ∷ []
unfolding parse_lines
parse_last t i =
    rw (trim_line t i.starts_dense i.ends_dense, dense_full t i.starts_dense, i.unfinished)
      (rw (dense_full (t ++ b'\n' ∷ []) (dense-append t (b'\n' ∷ []) i.starts_dense)))

parse_first :
    (t : Bytes) (lines : List Bytes)
    → IsStatement t
    → parse_lines [] ((t ++ b';' ∷ []) ∷ lines)
      ≡ ((t ++ b';' ∷ []) ++ b'\n' ∷ []) ∷ parse_lines [] lines
unfolding parse_lines
parse_first t lines i =
    let dense = dense-append t (b';' ∷ []) i.starts_dense in
    rw (
      trim_line (t ++ b';' ∷ []) dense (ends_semicolon t),
      dense_full (t ++ b';' ∷ []) dense,
      ends_with_semicolon t,
    )

-- The statements that are sent of a script are those that it was put together from.
pub texts-script :
    (ts : List Bytes) → All IsStatement ts → texts to_send (parse_sql_statements (script ts)) ≡ ts
unfolding parse_sql_statements parse_lines split_lines trim_space trim_left trim_right
texts-script [] a = refl
texts-script (t ∷ []) a = rw (split_lines_one t a.0.one_line, parse_last t a.0, to_send_last t a.0)
texts-script (t ∷ u ∷ ts) a =
    let ended = t ++ b';' ∷ [] in
    let rest = script (u ∷ ts) in
    let ih = texts-script (u ∷ ts) a.1 in
    rw
      (
        ← append_assoc t (b';' ∷ []) (b'\n' ∷ rest),
        split_lines_first ended rest (one_line_ended t a.0.one_line),
        parse_first t (split_lines rest) a.0,
        to_send_ended t a.0,
      )
      (ap (λ (x : List Bytes). t ∷ x) ih)

script_more :
    (t rest : Bytes) → StartsDense t → is_empty (trim_space (t ++ b';' ∷ b'\n' ∷ rest)) ≡ false
unfolding trim_space trim_left trim_right
script_more [] rest h = absurd h
script_more (c ∷ t) rest h = ground arith

-- A script is not blank.
pub script_full :
    (t : Bytes) (ts : List Bytes) → IsStatement t → is_empty (trim_space (script (t ∷ ts))) ≡ false
unfolding trim_space trim_left trim_right
script_full t [] i = rw (trim_line t i.starts_dense i.ends_dense) (dense_full t i.starts_dense)
script_full t (u ∷ ts) i = script_more t (script (u ∷ ts)) i.starts_dense

-- The database executes texts one after the other, each without an error.
pub data Sends (d : Driver) (db : d.Db) : List Bytes → d.State → d.State → Type 0 where
  sent_none : {s s' : d.State} → s ≡ s' → Sends d db [] s s'
  sent :
      {t : Bytes} {ts : List Bytes} {s s1 s' : d.State}
      → d.exec db t s ≡ (s1, none)
      → Sends d db ts s1 s'
      → Sends d db (t ∷ ts) s s'

exec-ok :
    {S : Type 0} (r : S × Option Error)
    → (as_operation r).1 ≡ ok tt
    → r ≡ ((as_operation r).0, none)
exec-ok (s, none) h = refl
exec-ok (s, some e) h = absurd (cc)

module _ (d : Driver) (db : d.Db) where
  abbrev run_one : Bytes → d.State → d.State × Outcome Error (Unit {0})
  run_one sql s = as_operation (d.exec db sql s)

  -- What `send` does without an error is to execute its texts.
  pub send-Sends :
      (prepare : Bytes → Option Bytes) (stmts : List Bytes) (s s' : d.State)
      → send run_one prepare stmts s ≡ (s', ok tt)
      → Sends d db (texts prepare stmts) s s'
  unfolding send
  send-Sends prepare [] s s' =
      λ h. sent_none (ap (λ (x : d.State × Outcome Error (Unit {0})). x.0) h)
  send-Sends prepare (stmt ∷ stmts) s s' = elim (Option-cases (prepare stmt)) [
    | inl none_left ↦ rw (send, none_left) (λ h. send-Sends prepare stmts s s' h)
    | inr (text, there) ↦ elim (Outcome-cases (run_one text s).1) [
      | inr (inl (e, failed)) ↦ rw (send, there, failed) (λ h. absurd (cc))
      | inr (inr failed) ↦ rw (send, there, failed) (λ h. absurd (cc))
      | inl (u, fine) ↦
          rw (send, there, fine)
            (λ h.
              sent (exec-ok (d.exec db text s) fine)
                (send-Sends prepare stmts (run_one text s).0 s' h))
    ]
  ]

  -- Sending a script without an error executes its statements, all of them and in their order.
  pub execute_multiple_once-Sends :
      (ts : List Bytes) (s s' : d.State)
      → All IsStatement ts
      → execute_multiple_once run_one (script ts) s ≡ (s', ok tt)
      → Sends d db ts s s'
  unfolding execute_multiple_once
  execute_multiple_once-Sends ts s s' a h =
      rw (texts-script ts a) at (send-Sends to_send (parse_sql_statements (script ts)) s s' h)
