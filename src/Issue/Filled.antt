-- ===== src/Issue/Filled.antt =====
-- plugin/path_creds.go: what the two `strings.ReplaceAll` make of a statement that is put together from
-- plain texts and the placeholders of the user name and the password.
use openbao_teradata_secret.Common.{
  ◌≡◌, refl, ap, ◌∙◌, false, List, [], ◌∷◌, ◌++◌, ◌==◌, All, arith,
}
use openbao_teradata_secret.Common.Bytes.{Bytes, codes, contains_byte, has_prefix}
use openbao_teradata_secret.Issue.{fill_in}
use openbao_teradata_secret.Odbc.Build.{replace_all}

pub data Piece : Type 0 where
  plain_text : Bytes → Piece
  the_username the_password : Piece

-- A plain text has no opening brace.
abbrev pub IsPlain : Piece → Type 0
IsPlain (plain_text t) = contains_byte t b'{' ≡ false
IsPlain the_username = Unit
IsPlain the_password = Unit

-- What stands for a piece, with texts for the placeholders.
abbrev piece_text : Bytes → Bytes → Piece → Bytes
piece_text username password (plain_text t) = t
piece_text username password the_username = username
piece_text username password the_password = password

abbrev pub put_together : Bytes → Bytes → List Piece → Bytes
put_together username password [] = []
put_together username password (p ∷ ps) =
    piece_text username password p ++ put_together username password ps

-- The statement as a role has it.
abbrev pub template : List Piece → Bytes
template = put_together (codes "{{username}}") (codes "{{password}}")

-- A text without an opening brace is passed over.
replace_all-plain :
    (old new t rest : Bytes)
    → contains_byte t b'{' ≡ false
    → replace_all (b'{' ∷ old) new 0 (t ++ rest) ≡ t ++ replace_all (b'{' ∷ old) new 0 rest
unfolding replace_all contains_byte has_prefix
replace_all-plain old new [] rest h = refl
replace_all-plain old new (c ∷ t) rest h =
    let other : (c == b'{') ≡ false = ground arith in
    rw (replace_all, has_prefix, other, replace_all-plain old new t rest (ground arith))

replace_username :
    (username : Bytes) (ps : List Piece)
    → All IsPlain ps
    → replace_all (codes "{{username}}") username 0 (template ps)
      ≡ put_together username (codes "{{password}}") ps
unfolding replace_all has_prefix
replace_username username [] a = refl
replace_username username (plain_text t ∷ ps) a =
    replace_all-plain (codes "{username}}") username t (template ps) a.0
    ∙ ap (λ (x : Bytes). t ++ x) (replace_username username ps a.1)
replace_username username (the_username ∷ ps) a =
    ap (λ (x : Bytes). username ++ x) (replace_username username ps a.1)
replace_username username (the_password ∷ ps) a =
    ap (λ (x : Bytes). codes "{{password}}" ++ x) (replace_username username ps a.1)

replace_password :
    (username password : Bytes) (ps : List Piece)
    → contains_byte username b'{' ≡ false
    → All IsPlain ps
    → replace_all
        (codes "{{password}}")
        password
        0
        (put_together username (codes "{{password}}") ps)
      ≡ put_together username password ps
unfolding replace_all has_prefix
replace_password username password [] h a = refl
replace_password username password (plain_text t ∷ ps) h a =
    replace_all-plain (codes "{password}}") password t _ a.0
    ∙ ap (λ (x : Bytes). t ++ x) (replace_password username password ps h a.1)
replace_password username password (the_username ∷ ps) h a =
    replace_all-plain (codes "{password}}") password username _ h
    ∙ ap (λ (x : Bytes). username ++ x) (replace_password username password ps h a.1)
replace_password username password (the_password ∷ ps) h a =
    ap (λ (x : Bytes). password ++ x) (replace_password username password ps h a.1)

-- A statement that is put together from texts without an opening brace and the placeholders of
-- the user name and the password is filled in with the user name and the password in the places
-- of their placeholders, and is otherwise as it was, whatever the password is, if the user name
-- has no opening brace.
pub fill_in-template :
    (username password : Bytes) (pieces : List Piece)
    → contains_byte username b'{' ≡ false
    → All IsPlain pieces
    → fill_in username password (template pieces) ≡ put_together username password pieces
unfolding fill_in
fill_in-template username password pieces h a =
    rw (replace_username username pieces a) (replace_password username password pieces h a)
