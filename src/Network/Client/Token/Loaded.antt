-- ===== src/Network/Client/Token/Loaded.antt =====
-- network/client.rs and bearer_token.rs: the client accepts the token that the command writes.
use salmon.Base.{
  Bool, true, false, [], ◌∷◌, ◌++◌, ◌≡◌, refl, sym, ap, ◌∙◌, arith, Text, codes, some, text_eq_refl,
  is_empty, any, all, none,
}
use salmon.Base.Results.{Result, ok, err}
use salmon.Base.Strings.{trim}
use salmon.Base.Strings.Words.{is_word_byte, trim_word}
use salmon.Base.Maps.{get, get-insert}
use salmon.Files.{
  file, Files, read, unlink, Host, World, continue, ◌>>=◌, attempt, contents_of, followed,
  read_contents,
}
use salmon.BearerToken.{write_new_token_file}
use salmon.BearerToken.Guarded.{Written, token_file_guarded}
use salmon.Network.Client.Token.{checked_token, load_bearer_token, is_token_space}

no_spaces : (token : Text) → all is_word_byte token ≡ true → any is_token_space token ≡ false
no_spaces [] h = refl
no_spaces (c ∷ cs) h = ground (arith, no_spaces cs)

read_back :
    (host : Host) (filename contents : Text) (world : World)
    → host.fault read filename world.files ≡ none
    → get filename world.files ≡ some (file contents)
    → read_contents host filename world ≡ (world, ok contents)
unfolding read_contents attempt contents_of followed ◌>>=◌
read_back host filename contents world healthy there =
    rw (healthy, contents_of, followed, there) refl

accepted :
    (host : Host) (valid_header : Text → Bool) (filename token : Text) (world : World)
    → all is_word_byte token ≡ true
    → is_empty token ≡ false
    → valid_header (codes "Bearer " ++ token) ≡ true
    → checked_token host valid_header filename (trim token) world
      ≡ (world, ok (codes "Bearer " ++ token))
unfolding checked_token
accepted host valid_header filename token world word full valid =
    ap (λ t. checked_token host valid_header filename t world) (trim_word token word) ∙ passed
  where
    passed :
        checked_token host valid_header filename token world
        ≡ (world, ok (codes "Bearer " ++ token))
    passed = rw (full, no_spaces token word, valid) refl

written_there :
    (filename token : Text) (before : Files) (result : World × Result Text (Unit {0}))
    (after : World)
    → Written filename token before result
    → result ≡ (after, ok tt)
    → get filename after.files ≡ some (file token)
written_there filename token before (now, err failure) after h e = cc
written_there filename token before (now, ok value) after (ready, grown, free, put) e =
    ap (λ r. get filename r.0.files) (sym e)
    ∙ ap (get filename) put
    ∙ ground (arith, get-insert filename filename (file token) ready, text_eq_refl filename)

-- A token file that was written is loaded by the client as the header `Bearer` with this token, if
-- it can be read. The token is any that is not empty and made of ASCII characters other than
-- spaces, as the encoding of random bytes is, and that the header's check takes.
pub token_round_trip :
    (host : Host) (valid_header : Text → Bool) (filename token : Text) (world after : World)
    → ((path : Text) (files : Files) → host.fault unlink path files ≡ none)
    → all is_word_byte token ≡ true
    → is_empty token ≡ false
    → valid_header (codes "Bearer " ++ token) ≡ true
    → write_new_token_file host filename token world ≡ (after, ok tt)
    → host.fault read filename after.files ≡ none
    → load_bearer_token host valid_header filename after ≡ (after, ok (codes "Bearer " ++ token))
unfolding load_bearer_token ◌>>=◌
token_round_trip host valid_header filename token world after removable word full valid written
      healthy =
    let there =
      written_there filename token world.files (write_new_token_file host filename token world)
        after (token_file_guarded host filename token removable world) written in
    ap (continue (λ contents. checked_token host valid_header filename (trim contents)))
      (read_back host filename token after healthy there)
    ∙ accepted host valid_header filename token after word full valid
