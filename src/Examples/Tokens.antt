-- ===== src/Examples/Tokens.antt =====
-- cmd/montray-ui/src/bearer_token.rs, the loading of a token, and the quoting of setup.rs.
use salmon.Base.{
  text_lt, ◌≡◌, refl, Bool, true, false, none, some, [], ◌∷◌, ◌++◌, Text, codes, text_eq,
}
use salmon.Base.Results.{ok}
use salmon.Base.Maps.{get, insert}
use salmon.Files.{
  directory, create_dir_all, make_directories, make_directory, make_missing, paths_to, followed,
  file, Host, World, attempt, change, ◌>>=◌,
}
use salmon.Setup.Install.{parent_of}
use salmon.BearerToken.{write_new_token_file, open_and_write, write_token}
use salmon.Network.Client.Token.{load_bearer_token}
use salmon.Network.Client.Token.Loaded.{token_round_trip}
use salmon.Setup.Quoting.{shell_argument, quoted, is_plain, desktop_exec_argument, exec_character}
use salmon.Setup.Quoting.Reading.{first_argument, line_of, key_value, desktop_exec_argument_read}

abbrev healthy : Host
healthy = record { fault = λ call path files. none }

abbrev blank : World
blank = record { files = []; printed = [] }

abbrev written : World
written = record {
  files = (codes "/c", directory) ∷ (codes "/c/t", file (codes "Zm9v")) ∷ [];
  printed = [];
}

abbrev valid_header : Text → Bool
valid_header text = true

token_is_written :
    write_new_token_file healthy (codes "/c/t") (codes "Zm9v") blank ≡ (written, ok tt)
unfolding write_new_token_file parent_of text_eq attempt change ◌>>=◌ open_and_write write_token get
    insert create_dir_all make_directories make_directory make_missing paths_to followed text_lt
token_is_written = refl

token_round_trip_example :
    load_bearer_token healthy valid_header (codes "/c/t") written
    ≡ (written, ok (codes "Bearer " ++ codes "Zm9v"))
token_round_trip_example =
    token_round_trip healthy valid_header (codes "/c/t") (codes "Zm9v") blank written
      (λ path files. refl) refl refl refl token_is_written refl

shown_quoted : shell_argument (codes "it's") ≡ codes "'it'\"'\"'s'"
unfolding shell_argument quoted is_plain
shown_quoted = refl

percent_doubled : desktop_exec_argument (codes "/a$%") ≡ codes "\"/a\\\\$%%\""
unfolding desktop_exec_argument exec_character
percent_doubled = refl

desktop_exec_argument_read_example :
    first_argument (
      key_value false (line_of (desktop_exec_argument (codes "/a$%") ++ codes " --config\nIcon=m")))
    ≡ some (codes "/a$%", key_value false (line_of (codes " --config\nIcon=m")))
desktop_exec_argument_read_example =
    desktop_exec_argument_read (codes "/a$%") (codes " --config\nIcon=m") refl
