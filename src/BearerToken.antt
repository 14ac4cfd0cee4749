-- ===== src/BearerToken.antt =====
-- bearer_token.rs: the credential of one server, in a file of its own.
pub mod Guarded
use salmon.Base.{
  ℕ, Bool, true, false, not, ◌&&◌, Option, none, some, List, [], ◌∷◌, ◌++◌, Text, codes, text_eq,
  if◌then◌else◌, ◌/◌, ◌%◌, ltb, ◌+◌, or_else,
}
use salmon.Base.Results.{Result, ok, err}
use salmon.Base.Maps.{insert, remove, contains_key}
use salmon.Config.Validate.{validate_server_id}
use salmon.Files.{
  create_dir_all, Node, file, Files, Call, create_directory, persist, write_destination, unlink,
  resolve, Host, World, Io, ◌>>=◌, ◌>>◌, done, fail, look, attempt, change, print_line, found,
  path_join, remove_file,
}
use salmon.Setup.Install.{parent_of}

-- The libraries: the working directory, the system's random bytes as the token they encode to, the
-- SHA-256 of a text, and a text as a JSON string.
pub record Tokens : Type 0 where
  pub absolute : Text → Option Text
  pub token : Option Text
  pub digest : Text → List ℕ
  pub to_json : Text → Text

-- `{byte:02x}`
abbrev pub hex_digit : ℕ → ℕ
hex_digit n = if ltb n 10 then b'0' + n else 87 + n

abbrev pub hex : List ℕ → Text
hex [] = []
hex (byte ∷ bytes) = hex_digit (byte / 16) ∷ hex_digit (byte % 16) ∷ hex bytes

module _ (host : Host) where
  -- the failed file is removed, whatever comes of that
  abbrev pub discarded : Text → World × Result Text (Unit {0}) → World × Result Text (Unit {0})
  discarded filename (after, ok value) = (after, ok value)
  discarded filename (after, err failure) =
      ((remove_file host filename after).0, err (codes "write bearer token file: " ++ failure))

  -- `write_all` and `flush`
  unfoldable pub write_token : Text → Io (Unit {0})
  write_token filename = do
    attempt host write_destination filename
    attempt host write_destination filename

  unfoldable pub open_and_write : Text → Text → Files → Io (Unit {0})
  open_and_write filename token files =
      if contains_key filename files
      then fail (
          codes "bearer token file already exists at "
          ++ filename
          ++ codes "; refusing to overwrite it")
      else (attempt host persist filename
          >> (change (insert filename (file token))
              >> (λ world. discarded filename (write_token filename world))))

  unfoldable pub write_new_token_file : Text → Text → Io (Unit {0})
  write_new_token_file filename token = do
    parent ← found (codes "bearer token filename has no parent directory") (parent_of filename)
    create_dir_all host parent
    files ← look
    open_and_write filename token files

  module _ (tokens : Tokens) where
    unfoldable pub instructions : Text → Text → Text → Text → Text
    instructions filename config_filename server_id hash =
        codes "Created bearer token file:\n\n    "
        ++ filename
        ++ codes "\n\nIn "
        ++ config_filename
        ++ codes ", find:\n\nwsClient:\n  servers:\n    - id: "
        ++ server_id
        ++ codes
            "\n\nAnd add this block inside that server entry, alongside id and addr:\n\n      auth:\n        bearerTokenFile: "
        ++ tokens.to_json filename
        ++ codes
            "\n\nIn the corresponding Montray Server configuration, find:\n\ncore:\n  messengers:\n    - webserver:\n\nAnd add this block inside the webserver messenger, alongside listenAddress:\n\n        auth:\n          - id: my-laptop # Identifies this credential; adjust as needed.\n            bearerTokenHash: \"sha256:"
        ++ hash
        ++ codes
            "\"\n\nIf auth already exists in the webserver messenger, add only the new list entry to it."

    -- next to the configuration, unless another file is asked for
    abbrev pub default_output : Text → Text → Io Text
    default_output config_filename server_id = do
      parent ←
          found (codes "Montray UI config filename has no parent directory")
            (parent_of config_filename)
      done (path_join (path_join parent (codes "tokens")) (server_id ++ codes ".token"))

    abbrev pub chosen_output : Option Text → Text → Text → Io Text
    chosen_output none config_filename server_id = default_output config_filename server_id
    chosen_output (some path) config_filename server_id = done path

    abbrev pub checked_id : Text → Io (Unit {0})
    checked_id server_id = elim (validate_server_id server_id) [
      | ok value ↦ done tt
      | err error ↦ fail (codes "invalid server ID")
    ]

    unfoldable pub generate : Text → Text → Option Text → Io Text
    generate config_filename server_id output_filename = do
      checked_id server_id
      config ← found (codes "resolve Montray UI config path") (tokens.absolute config_filename)
      chosen ← chosen_output output_filename config server_id
      filename ← found (codes "resolve bearer token path") (tokens.absolute chosen)
      token ← found (codes "generate bearer token: operating system randomness failed") tokens.token
      write_new_token_file filename token
      print_line host (instructions filename config server_id (hex (tokens.digest token)))
      done filename
