-- ===== src/Network/Client/Token.antt =====
-- network/client.rs: `load_bearer_token`.
pub mod Loaded
use salmon.Base.{
  Bool, true, false, not, [], ◌∷◌, ◌++◌, Text, codes, is_empty, any, if◌then◌else◌, leb, ◌==◌, ◌||◌,
  ◌&&◌, ℕ,
}
use salmon.Base.Results.{Result, ok, err}
use salmon.Base.Strings.{trim}
use salmon.Files.{Files, Host, World, Io, ◌>>=◌, ◌>>◌, done, fail, read_contents}

-- `char::is_ascii_whitespace`, which has no vertical tab
abbrev pub is_token_space : ℕ → Bool
is_token_space c = c == 32 || c == 9 || c == 10 || c == 12 || c == 13

-- `valid_header` is the check of `HeaderValue::from_str`.
module _ (host : Host) (valid_header : Text → Bool) where
  unfoldable pub checked_token : Text → Text → Io Text
  checked_token filename token =
      if is_empty token
      then fail (codes "bearer token file " ++ filename ++ codes " is empty")
      else if any is_token_space token
      then fail
          (codes "bearer token file " ++ filename ++ codes " contains whitespace inside the token")
      else if valid_header (codes "Bearer " ++ token)
      then done (codes "Bearer " ++ token)
      else fail (codes "bearer token file " ++ filename ++ codes " is not a valid HTTP token")

  unfoldable pub load_bearer_token : Text → Io Text
  load_bearer_token filename = do
    contents ← read_contents host filename
    checked_token filename (trim contents)
