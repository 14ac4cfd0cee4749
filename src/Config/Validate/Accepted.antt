-- ===== src/Config/Validate/Accepted.antt =====
-- config.rs: what the rest of the program may rely on once the configuration is accepted.
use salmon.Base.{
  ◌||◌, ℕ, ◌+◌, Bool, true, false, not, List, [], ◌∷◌, ◌≡◌, refl, arith, Text, text_eq, is_empty,
  All,
}
use salmon.Base.Results.{ok, ok_of_ensure}
use salmon.Config.{ServerConfig, Config}
use salmon.Config.Validate.{no_servers, is_seen, check_server, check_servers, validate}
use salmon.Config.Validate.Server.{
  DistinctIds, Fresh, IsAccepted, address-HasAddress, check_server_sound, tunnel-HasTunnel,
  validate_server_id-eq-ok,
}

split_servers :
    (is_loopback_ip : Text → Bool) (index : ℕ) (ids : List Text) (server : ServerConfig)
    (servers : List ServerConfig)
    → check_servers is_loopback_ip index ids (server ∷ servers) ≡ ok tt
    → (check_server is_loopback_ip index ids server ≡ ok tt)
      × (check_servers is_loopback_ip (index + 1) (server.id ∷ ids) servers ≡ ok tt)
unfolding check_servers
split_servers is_loopback_ip index ids server servers h = ground arith

module _ (is_loopback_ip : Text → Bool) where
  check_servers-Fresh :
      (x : Text) (index : ℕ) (ids : List Text) (servers : List ServerConfig)
      → ((y : Text) → is_seen y ids ≡ false → text_eq x y ≡ false)
      → check_servers is_loopback_ip index ids servers ≡ ok tt
      → Fresh x servers
  check_servers-Fresh x index ids [] seen h = tt
  check_servers-Fresh x index ids (server ∷ servers) seen h =
      let (one, rest) = split_servers is_loopback_ip index ids server servers h in
      (
        seen server.id ((check_server_sound is_loopback_ip index ids server one).fresh),
        check_servers-Fresh x (index + 1) (server.id ∷ ids) servers
            (λ y k. seen y (unseen (text_eq server.id y) (is_seen y ids) k)) rest,
      )
    where
      unseen : (a b : Bool) → (a || b) ≡ false → b ≡ false
      unseen true b k = cc
      unseen false b k = k

  check_servers_sound :
      (index : ℕ) (ids : List Text) (servers : List ServerConfig)
      → check_servers is_loopback_ip index ids servers ≡ ok tt
      → All (IsAccepted is_loopback_ip) servers × DistinctIds servers
  check_servers_sound index ids [] h = (tt, tt)
  check_servers_sound index ids (server ∷ servers) h =
      let (one, rest) = split_servers is_loopback_ip index ids server servers h in
      let s = check_server_sound is_loopback_ip index ids server one in
      let (all_ok, distinct) = check_servers_sound (index + 1) (server.id ∷ ids) servers rest in
      (
        (
          (
            validate_server_id-eq-ok server.id s.id_ok,
            address-HasAddress server server.addr s.addr_given s.addr_ok,
            tunnel-HasTunnel is_loopback_ip server server.tunnel s.tunnel_ok,
          ),
          all_ok,
        ),
        (
          check_servers-Fresh server.id (index + 1) (server.id ∷ ids) servers
              (λ y k. head_unseen (text_eq server.id y) (is_seen y ids) k) rest,
          distinct,
        ),
      )
    where
      head_unseen : (a b : Bool) → (a || b) ≡ false → a ≡ false
      head_unseen true b k = cc
      head_unseen false b k = refl

  -- In a configuration that is accepted there is a server, the ids are pairwise different and each
  -- is a plain, unreserved name. A server without an address has a structured SSH tunnel and no
  -- command of its own, and an address that is given is a host and port, with the host in brackets
  -- or without colons and a port between 1 and 65535. A tunnel is of exactly one kind: an SSH tunnel
  -- whose host and user are given and begin with no hyphen, with a remote address that is a host
  -- and port, and a local one that is a loopback address if it is given; or a command that has a
  -- program, with a probe that is not empty if there is one.
  pub validate_sound :
      (config : Config)
      → validate is_loopback_ip config ≡ ok tt
      → (is_empty config.servers ≡ false)
        × All (IsAccepted is_loopback_ip) config.servers
        × DistinctIds config.servers
  unfolding validate
  validate_sound config h =
      let (rest, some_server) =
        ok_of_ensure (not (is_empty config.servers)) no_servers
          (check_servers is_loopback_ip 0 [] config.servers) tt h in
      let (each, distinct) = check_servers_sound 0 [] config.servers rest in
      (ground arith, each, distinct)
