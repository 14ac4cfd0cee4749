-- ===== src/Setup/Quoting/Reading.antt =====
-- setup.rs: a reader gets back the argument that was quoted.
use salmon.Base.{
  leb, any, ℕ, Bool, true, false, ◌||◌, Option, none, some, [], ◌∷◌, ◌++◌, ◌≡◌, refl, sym, ap, ◌∙◌,
  arith, Text, codes, ◌==◌, if◌then◌else◌, Bool-cases, inl, inr, append_assoc,
}
use mathlib.Core.Path.{subst}
use mathlib.Core.Option
use salmon.Setup.Quoting.{exec_character, exec_characters, desktop_exec_argument, one_of}

-- What has a meaning of its own for a POSIX shell, outside quotes: operators, expansions, patterns,
-- quoting, comments, history, and blanks and other controls, which end a word.
abbrev pub is_special : ℕ → Bool
is_special c = leb c 32 || c == 127 || one_of (codes "|&;<>()$`\\\"'*?[]#~!{}^") c

-- How a POSIX shell reads one word that is made of characters without a meaning, '…' and "…". What
-- it would expand, or read as the end of the word, is no part of such a word.
pub data Mode : Type 0 where
  plain : Mode
  single : Mode
  double : Mode

-- the next mode, and what a byte adds to the word
unfoldable pub shell_step : Mode → ℕ → Option (Mode × Text)
shell_step plain c =
    if c == b'\''
    then some (single, [])
    else if c == b'"'
    then some (double, [])
    else if is_special c
    then none
    else some (plain, c ∷ [])
shell_step single c = if c == b'\'' then some (plain, []) else some (single, c ∷ [])
shell_step double c =
    if c == b'"'
    then some (plain, [])
    else if one_of (codes "$`\\") c
    then none
    else some (double, c ∷ [])

abbrev pub ends : Mode → Option Text
ends plain = some []
ends single = none
ends double = none

unfoldable pub shell_word : Mode → Text → Option Text
shell_word mode [] = ends mode
shell_word mode (c ∷ cs) = elim (shell_step mode c) [
  | none ↦ none
  | some (next, added) ↦ Option.map (λ rest. added ++ rest) (shell_word next cs)
]

-- How a desktop reads the first argument of an `Exec` line. First the value of the key, which is
-- of type string: a backslash and the byte after it stand for one byte, and a backslash with any
-- other byte for the two.
unfoldable pub key_escape : ℕ → Text
key_escape c =
    if c == b'\\'
    then b'\\' ∷ []
    else if c == b's'
    then b' ' ∷ []
    else if c == b'n'
    then 10 ∷ []
    else if c == b't'
    then 9 ∷ []
    else if c == b'r'
    then 13 ∷ []
    else b'\\' ∷ c ∷ []

-- `true`: after a backslash
unfoldable pub key_value : Bool → Text → Text
key_value false [] = []
key_value true [] = b'\\' ∷ []
key_value false (c ∷ cs) =
    let rest = key_value (c == b'\\') cs in if c == b'\\' then rest else c ∷ rest
key_value true (c ∷ cs) = key_escape c ++ key_value false cs

-- Then the argument, inside its double quotes: a backslash goes before `"`, `` ` ``, `$` and
-- itself, which do not stand alone, and `%%` is a percent sign.
pub data ExecMode : Type 0 where
  inside : ExecMode
  escaped : ExecMode
  percent : ExecMode

abbrev pub in_argument : ℕ → Option (Text × Text) → Option (Text × Text)
in_argument c = Option.map (λ read. (c ∷ read.0, read.1))

-- the argument, and what follows it
unfoldable pub exec_argument : ExecMode → Text → Option (Text × Text)
exec_argument mode [] = none
exec_argument inside (c ∷ cs) =
    let next = if c == b'\\' then escaped else if c == b'%' then percent else inside in
    let rest = exec_argument next cs in
    if c == b'"'
    then some ([], cs)
    else if one_of (codes "$`") c
    then none
    else if c == b'\\' || c == b'%'
    then rest
    else in_argument c rest
exec_argument escaped (c ∷ cs) =
    let rest = exec_argument inside cs in
    if one_of (codes "\"`$\\") c then in_argument c rest else none
exec_argument percent (c ∷ cs) =
    let rest = exec_argument inside cs in if c == b'%' then in_argument c rest else none

plain_value :
    (c : ℕ) (cs : Text) → (c == b'\\') ≡ false → key_value false (c ∷ cs) ≡ c ∷ key_value false cs
unfolding key_value
plain_value c cs h = rw h refl

exec_plain :
    (c : ℕ) (cs : Text)
    → one_of (codes "\\\"`$%") c ≡ false
    → exec_argument inside (c ∷ cs) ≡ in_argument c (exec_argument inside cs)
unfolding exec_argument
exec_plain c cs h =
    let none_of : ((c == b'\\') ≡ false)
        × ((c == b'"') ≡ false)
        × ((c == b'`') ≡ false)
        × ((c == b'$') ≡ false)
        × ((c == b'%') ≡ false) =
      ground arith in
    rw (none_of.0, none_of.1, none_of.2, none_of.3, none_of.4) refl

same_byte : (a b : ℕ) → (a == b) ≡ true → a ≡ b
same_byte a b h = ground arith

QuotedByte : (c : ℕ) (t : Text) → Type 0
QuotedByte c t =
    exec_argument inside (key_value false (exec_character c ++ t))
    ≡ in_argument c (exec_argument inside (key_value false t))

exec_character_read : (c : ℕ) (t : Text) → QuotedByte c t
unfolding exec_character key_value key_escape exec_argument QuotedByte
exec_character_read c t = elim (Bool-cases (c == b'\\')) [
  | inl e ↦ subst (λ d. QuotedByte d t) (sym (same_byte c b'\\' e)) refl
  | inr backslash ↦ elim (Bool-cases (c == b'"')) [
    | inl e ↦ subst (λ d. QuotedByte d t) (sym (same_byte c b'"' e)) refl
    | inr quote ↦ elim (Bool-cases (c == b'`')) [
      | inl e ↦ subst (λ d. QuotedByte d t) (sym (same_byte c b'`' e)) refl
      | inr backquote ↦ elim (Bool-cases (c == b'$')) [
        | inl e ↦ subst (λ d. QuotedByte d t) (sym (same_byte c b'$' e)) refl
        | inr dollar ↦ elim (Bool-cases (c == b'%')) [
          | inl e ↦ subst (λ d. QuotedByte d t) (sym (same_byte c b'%' e)) refl
          | inr sign ↦
              let itself : exec_character c ≡ c ∷ [] =
                rw (backslash, quote, backquote, dollar, sign) refl in
              ap (λ text. exec_argument inside (key_value false (text ++ t))) itself
              ∙ ap (exec_argument inside) (plain_value c t backslash)
              ∙ exec_plain c (key_value false t)
                  (rw (backslash, quote, backquote, dollar, sign) refl)
        ]
      ]
    ]
  ]
]

exec_read :
    (argument rest : Text)
    → exec_argument inside (key_value false (exec_characters argument ++ b'"' ∷ rest))
      ≡ some (argument, key_value false rest)
unfolding key_value exec_argument QuotedByte
exec_read [] rest = refl
exec_read (c ∷ cs) rest =
    ap (λ text. exec_argument inside (key_value false text))
      (append_assoc (exec_character c) (exec_characters cs) (b'"' ∷ rest))
    ∙ exec_character_read c (exec_characters cs ++ b'"' ∷ rest)
    ∙ ap (in_argument c) (exec_read cs rest)

-- the first argument of a line that begins with a quote
abbrev pub first_argument : Text → Option (Text × Text)
first_argument [] = none
first_argument (c ∷ cs) = if c == b'"' then exec_argument inside cs else none

-- A line of the desktop entry ends at a line feed.
abbrev pub line_of : Text → Text
line_of [] = []
line_of (c ∷ cs) = let rest = line_of cs in if c == 10 then [] else c ∷ rest

abbrev pub has_line_feed : Text → Bool
has_line_feed = any (λ c. c == 10)

line_of-append :
    (text rest : Text) → has_line_feed text ≡ false → line_of (text ++ rest) ≡ text ++ line_of rest
line_of-append [] rest h = refl
line_of-append (c ∷ cs) rest h = ground (arith, line_of-append cs rest (ground arith))

quoted_line_feed : (c : ℕ) → (c == 10) ≡ false → has_line_feed (exec_character c) ≡ false
unfolding exec_character
quoted_line_feed c h = ground arith

has_line_feed-append : (a b : Text) → has_line_feed (a ++ b) ≡ (has_line_feed a || has_line_feed b)
has_line_feed-append [] b = refl
has_line_feed-append (c ∷ a) b = ground (arith, has_line_feed-append a b)

no_line_feed :
    (argument : Text)
    → has_line_feed argument ≡ false
    → has_line_feed (exec_characters argument) ≡ false
no_line_feed [] h = refl
no_line_feed (c ∷ cs) h =
    let here = quoted_line_feed c (ground arith) in
    let later = no_line_feed cs (ground arith) in
    has_line_feed-append (exec_character c) (exec_characters cs) ∙ ground (arith, here, later)

-- A desktop that reads the `Exec` line gets back the argument, whatever bytes it has other than a
-- line feed, and goes on behind it. The line is cut at the first line feed before it is read.
pub desktop_exec_argument_read :
    (argument rest : Text)
    → has_line_feed argument ≡ false
    → first_argument (key_value false (line_of (desktop_exec_argument argument ++ rest)))
      ≡ some (argument, key_value false (line_of rest))
unfolding desktop_exec_argument key_value
desktop_exec_argument_read argument rest h =
    ap (λ text. first_argument (key_value false text))
      (line_of-append (desktop_exec_argument argument) rest whole)
    ∙ ap (λ text. exec_argument inside (key_value false text))
        (append_assoc (exec_characters argument) (b'"' ∷ []) (line_of rest))
    ∙ exec_read argument (line_of rest)
  where
    whole : has_line_feed (desktop_exec_argument argument) ≡ false
    whole =
        let e = has_line_feed-append (exec_characters argument) (b'"' ∷ []) in
        let quiet = no_line_feed argument h in ground (arith, e, quiet)
