-- ===== src/Setup/Quoting.antt =====
-- setup.rs: the quoting of arguments, for desktop entries and for a shell.
pub mod Reading
use salmon.Base.{
  ℕ, Bool, true, false, not, ◌&&◌, ◌||◌, List, [], ◌∷◌, ◌++◌, Text, codes, leb, ◌==◌, all, is_empty,
  if◌then◌else◌,
}

-- The characters that are treated apart are ASCII, so a text is quoted byte by byte.
unfoldable pub exec_character : ℕ → Text
exec_character c =
    if c == b'\\'
    then codes "\\\\\\\\"
    else if c == b'"' || c == b'`'
    then b'\\' ∷ c ∷ []
    else if c == b'$'
    then codes "\\\\$"
    else if c == b'%'
    then codes "%%"
    else c ∷ []

abbrev pub exec_characters : Text → Text
exec_characters [] = []
exec_characters (c ∷ cs) = exec_character c ++ exec_characters cs

unfoldable pub desktop_exec_argument : Text → Text
desktop_exec_argument argument = b'"' ∷ exec_characters argument ++ b'"' ∷ []

abbrev pub is_alphanumeric : ℕ → Bool
is_alphanumeric c = leb b'0' c && leb c b'9' || leb b'a' c && leb c b'z' || leb b'A' c && leb c b'Z'

abbrev pub one_of : Text → ℕ → Bool
one_of [] c = false
one_of (d ∷ ds) c = c == d || one_of ds c

unfoldable pub is_plain : ℕ → Bool
is_plain c = is_alphanumeric c || one_of (codes "_@%+=:,./-") c

-- `replace('\'', "'\"'\"'")`
unfoldable pub quoted : Text → Text
quoted [] = []
quoted (c ∷ cs) = let rest = quoted cs in if c == b'\'' then codes "'\"'\"'" ++ rest else c ∷ rest

unfoldable pub shell_argument : Text → Text
shell_argument argument =
    if not (is_empty argument) && all is_plain argument
    then argument
    else b'\'' ∷ quoted argument ++ b'\'' ∷ []
