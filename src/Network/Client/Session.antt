-- ===== src/Network/Client/Session.antt =====
-- network/client.rs: one established connection, from the frames it receives to the events it
-- sends and the reason why it ends.
pub mod Online
use salmon.Base.{
  ℕ, ◌/◌, Bool, true, false, Option, none, some, List, [], ◌∷◌, ◌++◌, Text, Instant, codes, text_eq,
  ltb, length, if◌then◌else◌,
}
use salmon.Base.Decimal.{decimal}
use salmon.Base.Results.{Result, ok, err}
use salmon.Domain.Event.{Event, heartbeat, notification}
use salmon.Domain.Model.{NotificationData}
use salmon.Network.Protocol.{Wire, DecodeError, decode_text_message}

-- Durations are in milliseconds.
pub record ClientOptions : Type 0 where
  pub max_message_bytes : ℕ
  pub connect_timeout : ℕ
  pub read_timeout : ℕ
  pub reconnect_step : ℕ
  pub max_reconnect_delay : ℕ

-- the default options, with the constants in front of them
abbrev pub default_options : ClientOptions
default_options = record {
  max_message_bytes = 1048576;
  connect_timeout = 30000;
  read_timeout = 30000;
  reconnect_step = 1000;
  max_reconnect_delay = 10000;
}

-- `Duration::as_secs` as text
abbrev pub seconds : ℕ → Text
seconds duration = decimal (duration / 1000)

-- `tungstenite::Message`
pub data Message : Type 0 where
  text : Text → Message
  binary : Text → Message
  close : Message
  other : Message  -- a ping, a pong or a raw frame

-- The wait for a frame: the timeout, the three results of `next`, and the shutdown.
pub data Received : Type 0 where
  silent : Received
  ended : Received
  failed : Text → Received
  frame : Message → Received
  stopped : Received

-- One turn of the inner loop. `delivered` says whether the channel takes an event that is sent.
pub record Moment : Type 0 where
  pub at : Instant
  pub received : Received
  pub delivered : Bool

-- What the libraries do with a message, and how their errors read.
pub record Codec : Type 1 where
  pub wire : Wire
  pub describe : DecodeError → Text
  pub utf8_error : Text → Option Text

-- what a turn does
pub data Turn : Type 0 where
  proceed : Turn
  deliver : Event → Turn
  lost : Text → Turn
  finish : Turn

-- how the inner loop ends: by a return, by a `break`, or not yet
pub data Ended : Type 0 where
  returned : Ended
  broken : Text → Ended
  running : Ended

-- the match on the result of a turn, with what the later turns do
unfoldable pub follow : Turn → Bool → List Event × Ended → List Event × Ended
follow proceed delivered rest = rest
follow (deliver event) true rest = (event ∷ rest.0, rest.1)
follow (deliver event) false rest = (event ∷ [], returned)
follow (lost error) delivered rest = ([], broken error)
follow finish delivered rest = ([], returned)

module _ (codec : Codec) (options : ClientOptions) (server_id : Text) where
  abbrev pub decoded : Instant → Result DecodeError (Option NotificationData) → Turn
  decoded at (ok (some message)) = deliver (notification server_id message at)
  decoded at (ok none) = proceed
  decoded at (err error) = lost (codec.describe error)

  unfoldable pub handle : Instant → Message → Turn
  handle at (binary bytes) =
      if text_eq bytes (0 ∷ [])
      then deliver (heartbeat server_id at)
      else elim (codec.utf8_error bytes) [
        | some error ↦ lost (codes "decoding server message: " ++ error)
        | none ↦ decoded at (decode_text_message codec.wire bytes)
      ]
  handle at (text bytes) =
      if ltb options.max_message_bytes (length bytes)
      then lost (codes "server message exceeds 1 MiB")
      else decoded at (decode_text_message codec.wire bytes)
  handle at close = lost (codes "WebSocket connection closed")
  handle at other = proceed

  unfoldable pub turn : Instant → Received → Turn
  turn at silent = lost (
      codes "no server data received for "
      ++ (seconds options.read_timeout ++ codes " seconds; reconnecting"))
  turn at ended = lost (codes "WebSocket connection closed")
  turn at (failed error) = lost error
  turn at (frame message) = handle at message
  turn at stopped = finish

  -- the inner loop: the events that it sends, and its end
  unfoldable pub session : List Moment → List Event × Ended
  session [] = ([], running)
  session (m ∷ ms) = follow (turn m.at m.received) m.delivered (session ms)
