-- ===== src/Examples/Client.antt =====
-- cmd/montray-ui/src/network: the wire protocol and the connection loop at concrete inputs.
use salmon.Base.{
  ◌<◌, ◌↔◌, true, false, some, none, [], ◌∷◌, ◌≡◌, refl, arith, Text, codes, text_eq, is_some,
  length,
}
use salmon.Base.Int.{pos}
use salmon.Base.Results.{ok}
use salmon.Domain.Model.{Incident, IncidentState}
use salmon.Domain.Lifecycle.{track}
use salmon.Network.Protocol.{
  Envelope, Notification, Wire, is_known_event, validate_timestamp, check_items, accept,
  null_as_default, decode_text_message,
}
use salmon.Network.Protocol.Decoding.{IsAcceptable, data_of, decode_iff}
use salmon.Network.Client.Session.{
  Moment, Received, Message, default_options, session, follow, turn, handle,
}
use salmon.Network.Client.Reconnect.{
  Client, Round, Dialed, WebSocketError, connection_loop, run_round, attempt, on_dialed, report,
  next_delay, run_connection_loop,
}
use salmon.Network.Client.Reconnect.Order.{sent, events_in_order}
use salmon.Network.Client.Reconnect.Backoff.{waits, backoffs, Fails, failures_backoff}

abbrev full : Incident
full = record {
  key = codes "disk";
  state = IncidentState.error;
  details = codes "full";
  incident_started_at = codes "now";
  stale = false;
}

abbrev payload : Notification
payload = record {
  time = some (codes "now");
  ongoing_incidents = record {
    total = some (full ∷ []);
    added = none;
    removed = none;
    updated = none;
    num_items_ok = pos 2;
  };
}

-- a wire on which a message is the name of its event
abbrev wire : Wire
wire = record {
  Value = Unit;
  parse_envelope = λ text. some (record { event = text; payload = tt });
  is_null = λ value. false;
  parse_notification = λ value. some payload;
  is_rfc3339 = λ text. text_eq text (codes "now");
}

abbrev update : Text
update = codes "OngoingIncidentsUpdate"

abbrev update_decodes : decode_text_message wire update ≡ ok (some (data_of wire payload))
unfolding decode_text_message is_known_event accept check_items validate_timestamp null_as_default
    text_eq
update_decodes = refl

abbrev update_envelope : Envelope (Unit {0})
update_envelope = record { event = update; payload = tt }

update_known : is_known_event update ≡ true
unfolding is_known_event text_eq
update_known = refl

decode_iff_example :
    (decode_text_message wire update ≡ ok (some (data_of wire payload)))
    ↔ (IsAcceptable wire payload × (data_of wire payload ≡ data_of wire payload))
decode_iff_example =
    decode_iff wire update update_envelope payload (data_of wire payload) refl update_known refl
      refl

abbrev pub client : Client
client = record {
  codec = record { wire = wire; describe = λ error. []; utf8_error = λ bytes. none };
  options = default_options;
  server_id = codes "web";
  tunneled = false;
  bearer_provided = false;
}

abbrev refused_round : Round
refused_round = record {
  slept = true;
  dialed = Dialed.refused (WebSocketError.failure (codes "refused"));
  connected_at = 1;
  delivered = true;
  moments = [];
  settled = false;
  disconnected_at = 2;
}

abbrev heartbeat_moment : Moment
heartbeat_moment = record {
  at = 3;
  received = Received.frame (Message.binary (0 ∷ []));
  delivered = true;
}

abbrev pub lost_round : Round
lost_round = record {
  slept = true;
  dialed = Dialed.established;
  connected_at = 1;
  delivered = true;
  moments = heartbeat_moment ∷ record { at = 4; received = Received.silent; delivered = true } ∷ [];
  settled = false;
  disconnected_at = 5;
}

events_in_order_example :
    is_some (
      track
        (codes "web")
        false
        false
        (sent (run_connection_loop client 0 (ok tt) (refused_round ∷ lost_round ∷ []))))
    ≡ true
events_in_order_example = events_in_order client 0 (ok tt) (refused_round ∷ lost_round ∷ [])

-- the run of that example: a failure, then a connection with a heartbeat, and its loss
run_sends :
    length (sent (run_connection_loop client 0 (ok tt) (refused_round ∷ lost_round ∷ []))) ≡ 4
unfolding run_connection_loop connection_loop run_round attempt on_dialed report next_delay session
    follow turn handle text_eq
run_sends = refl

one_second : 0 < client.options.reconnect_step
one_second = omega arith

ten_seconds : 0 < client.options.max_reconnect_delay
ten_seconds = omega arith

refused-Fails : Fails client refused_round
refused-Fails = (refl, tt, refl)

failures_backoff_example :
    waits (connection_loop client 0 (refused_round ∷ refused_round ∷ refused_round ∷ []))
    ≡ backoffs client.options 1 2
failures_backoff_example =
    failures_backoff client one_second ten_seconds refused_round
      (refused_round ∷ refused_round ∷ []) (refused-Fails, (refused-Fails, (refused-Fails, tt)))
