-- ===== src/Domain/Lifecycle.antt =====
-- domain/event.rs: the order in which one server's network events come, which its client and its
-- tunnel keep and the reducer relies on.
use salmon.Base.{
  ◌≡◌, refl, Bool, true, false, not, ◌&&◌, Option, none, some, List, [], ◌∷◌, ◌++◌, Text, text_eq,
  if◌then◌else◌, Option-cases, inl, inr, arith,
}
use salmon.Domain.Event.{
  Event, connected, disconnected, tunnel_ready, tunnel_failed, heartbeat, notification,
}

-- One event about the server `id`, which is online or not: whether it is online afterwards, when
-- the event is in order. A client sends no events of a tunnel.
abbrev pub advance : Text → Bool → Bool → Event → Option Bool
advance id tunnels online (connected i at) = if text_eq i id && not online then some true else none
advance id tunnels online (disconnected i at error) = if text_eq i id then some false else none
advance id tunnels online (tunnel_ready i at) =
    if tunnels && text_eq i id && not online then some false else none
advance id tunnels online (tunnel_failed i at error) =
    if tunnels && text_eq i id then some false else none
advance id tunnels online (heartbeat i at) = if text_eq i id && online then some true else none
advance id tunnels online (notification i received at) =
    if text_eq i id && online then some true else none
advance id tunnels online event = none

abbrev pub track : Text → Bool → Bool → List Event → Option Bool
track id tunnels online [] = some online
track id tunnels online (event ∷ events) = elim (advance id tunnels online event) [
  | none ↦ none
  | some later ↦ track id tunnels later events
]

pub track-append :
    (id : Text) (tunnels online later : Bool) (first second : List Event)
    → track id tunnels online first ≡ some later
    → track id tunnels online (first ++ second) ≡ track id tunnels later second
track-append id tunnels online later [] second h = ground arith
track-append id tunnels online later (event ∷ first) second h =
    elim (Option-cases (advance id tunnels online event)) [
      | inl e ↦ ground arith
      | inr (next, e) ↦
          rw (e, track) (track-append id tunnels next later first second (ground arith))
    ]

-- the server that a network event is about
abbrev pub server_of : Event → Option Text
server_of (connected id at) = some id
server_of (disconnected id at error) = some id
server_of (tunnel_ready id at) = some id
server_of (tunnel_failed id at error) = some id
server_of (heartbeat id at) = some id
server_of (notification id received at) = some id
server_of _ = none

abbrev pub is_about : Text → Event → Bool
is_about id event = elim (server_of event) [ none ↦ false | some i ↦ text_eq i id ]

abbrev pub is_of_tunnel : Event → Bool
is_of_tunnel (tunnel_ready id at) = true
is_of_tunnel (tunnel_failed id at error) = true
is_of_tunnel event = false

advance-client :
    (id : Text) (online later : Bool) (event : Event)
    → advance id false online event ≡ some later
    → (advance id true online event ≡ some later) × (is_of_tunnel event ≡ false)
advance-client id online later (connected i at) h = (h, refl)
advance-client id online later (disconnected i at error) h = (h, refl)
advance-client id online later (heartbeat i at) h = (h, refl)
advance-client id online later (notification i received at) h = (h, refl)
advance-client id online later (tunnel_ready i at) h = cc
advance-client id online later (tunnel_failed i at error) h = cc
advance-client id online later event h = cc

abbrev pub are_quiet : List Event → Bool
are_quiet [] = true
are_quiet (event ∷ events) = not (is_of_tunnel event) && are_quiet events

-- What is in order for a client is in order below a tunnel, and is no event of the tunnel.
pub track-client :
    (id : Text) (online later : Bool) (events : List Event)
    → track id false online events ≡ some later
    → (track id true online events ≡ some later) × (are_quiet events ≡ true)
track-client id online later [] h = (h, refl)
track-client id online later (event ∷ events) h =
    elim (Option-cases (advance id false online event)) [
      | inl e ↦ absurd (ground arith)
      | inr (next, e) ↦
          let (same, quiet) = advance-client id online next event e in
          let (rest, silent) = track-client id next later events (ground arith) in
          (rw (same, track) rest, ground arith)
    ]
