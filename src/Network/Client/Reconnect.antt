-- ===== src/Network/Client/Reconnect.antt =====
-- network/client.rs: `run_connection_loop_with_options`. What happens to one connection attempt
-- and its socket is a round; the loop is a function of the rounds to the actions it takes.
pub mod Backoff
pub mod Order
use salmon.Base.{
  ℕ, zero, ◌+◌, min, Bool, true, false, ◌&&◌, Option, none, some, List, [], ◌∷◌, ◌++◌, map, Text,
  Instant, codes, ◌==◌, if◌then◌else◌,
}
use salmon.Base.Results.{Result, ok, err}
use salmon.Domain.Event.{Event, connected, disconnected}
use salmon.Network.Client.Session.{
  ClientOptions, Codec, Moment, Ended, returned, broken, running, seconds, session,
}

-- `tungstenite::Error`: a refused handshake has a status, which reads as a text.
pub data WebSocketError : Type 0 where
  http : ℕ → Text → WebSocketError
  failure : Text → WebSocketError

unfoldable pub websocket_connection_error : WebSocketError → Bool → Text
websocket_connection_error (http status shown) bearer_provided =
    if status == 401
    then (if bearer_provided
        then codes "server rejected the configured bearer token"
        else codes "server requires authentication, but no bearer token is configured")
    else codes "WebSocket handshake failed: " ++ shown
websocket_connection_error (failure error) bearer_provided = error

-- The end of one connection attempt.
pub data Dialed : Type 0 where
  established : Dialed
  refused : WebSocketError → Dialed
  timed_out : Dialed
  stopped : Dialed

-- One turn of the outer loop: whether the sleep runs to its end, what the attempt gives and when,
-- whether the channel takes `Connected`, the frames, what `tunnel_stopped` answers, and the time
-- of `Disconnected`.
pub record Round : Type 0 where
  pub slept : Bool
  pub dialed : Dialed
  pub connected_at : Instant
  pub delivered : Bool
  pub moments : List Moment
  pub settled : Bool
  pub disconnected_at : Instant

-- What the loop does. `send` is each attempt to send an event.
pub data Action : Type 0 where
  wait : ℕ → Action
  dial : Action
  send : Event → Action

-- the actions of a round, with the delay before the next one unless the loop returns
abbrev pub Done : Type 0
Done = List Action × Option ℕ

abbrev pub stop : Done
stop = ([], none)

abbrev pub after : List Action → Done → Done
after actions done = (actions ++ done.0, done.1)

unfoldable pub next_delay : ClientOptions → ℕ → ℕ
next_delay options delay = min (delay + options.reconnect_step) options.max_reconnect_delay

-- What is fixed for one run.
pub record Client : Type 1 where
  pub codec : Codec
  pub options : ClientOptions
  pub server_id : Text
  pub tunneled : Bool
  pub bearer_provided : Bool

module _ (client : Client) where
  -- a failed attempt or a lost connection, unless the tunnel is what failed
  unfoldable pub report : Round → Text → ℕ → Done
  report round error delay = if client.tunneled && round.settled then stop else (
    send (disconnected client.server_id round.disconnected_at error) ∷ [],
    some (next_delay client.options delay),
  )

  abbrev pub close_session : Round → Ended → Done
  close_session round returned = stop
  close_session round running = stop
  close_session round (broken error) = report round error 0

  abbrev pub connected_session : Round → List Event × Ended → Done
  connected_session round result = after (map send result.0) (close_session round result.1)

  unfoldable pub on_dialed : Round → ℕ → Dialed → Done
  on_dialed round delay (refused error) =
      report round (websocket_connection_error error client.bearer_provided) delay
  on_dialed round delay timed_out =
      report round
        (codes "connection attempt timed out after "
          ++ (seconds client.options.connect_timeout ++ codes " seconds"))
        delay
  on_dialed round delay stopped = stop
  on_dialed round delay established =
      after (send (connected client.server_id round.connected_at) ∷ []) (
        if round.delivered
        then connected_session round
            (session client.codec client.options client.server_id round.moments)
        else stop)

  unfoldable pub attempt : Round → ℕ → Done
  attempt round delay = after (dial ∷ []) (on_dialed round delay round.dialed)

  -- the sleep in front of the attempt
  unfoldable pub run_round : Round → ℕ → Done
  run_round round delay =
      if delay == 0
      then attempt round delay
      else after (wait delay ∷ []) (if round.slept then attempt round delay else stop)

  unfoldable pub connection_loop : ℕ → List Round → List Action
  connection_loop delay [] = []
  connection_loop delay (round ∷ rounds) =
      let (actions, next) = run_round round delay in
      actions ++ elim next [ none ↦ [] | some later ↦ connection_loop later rounds ]

  abbrev pub preparing : Instant → Text → List Action
  preparing at error =
      send (disconnected client.server_id at (codes "preparing connection: " ++ error)) ∷ []

  -- The whole function: `prepared` is what `ConnectionSetup` and its request give, which is the
  -- same in each round.
  unfoldable pub run_connection_loop : Instant → Result Text Unit → List Round → List Action
  run_connection_loop at (err error) rounds = preparing at error
  run_connection_loop at (ok _) rounds = connection_loop 0 rounds
