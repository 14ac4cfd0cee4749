-- ===== src/Network/Protocol.antt =====
-- network/protocol.rs: from a text message to the notification that the reducer takes. What serde
-- and the RFC 3339 parser do is a parameter; the order of the checks is the program's.
pub mod Decoding
use salmon.Base.{
  ℕ, ◌+◌, Bool, true, false, not, ◌||◌, Option, none, some, List, [], ◌∷◌, Text, codes, text_eq,
  is_empty, if◌then◌else◌,
}
use salmon.Base.Int.{ℤ, is_negative, magnitude}
use salmon.Base.Results.{Result, ok, err, ◌>>=◌, ◌>>◌, ensure}
use salmon.Domain.Model.{Incident, NotificationData}

pub record Envelope (Value : Type 0) : Type 0 where
  pub event : Text
  pub payload : Value

-- A list that is missing or `null` on the wire is `none`.
pub record OngoingIncidents : Type 0 where
  pub total : Option (List Incident)
  pub added : Option (List Incident)
  pub removed : Option (List Incident)
  pub updated : Option (List Incident)
  pub num_items_ok : ℤ

pub record Notification : Type 0 where
  pub time : Option Text
  pub ongoing_incidents : OngoingIncidents

-- the four lists by their names in error messages
pub data Section : Type 0 where
  total added removed updated : Section

pub data DecodeError : Type 0 where
  bad_message : DecodeError
  null_payload : Text → DecodeError
  bad_payload : Text → DecodeError
  bad_time : DecodeError
  negative_count : DecodeError
  empty_key : Section → ℕ → DecodeError
  bad_start : Section → ℕ → DecodeError

-- What `serde_json` and `time` do with a message.
pub record Wire : Type 1 where
  pub Value : Type 0
  pub parse_envelope : Text → Option (Envelope Value)
  pub is_null : Value → Bool
  pub parse_notification : Value → Option Notification
  pub is_rfc3339 : Text → Bool

unfoldable pub null_as_default : Option (List Incident) → List Incident
null_as_default none = []
null_as_default (some items) = items

unfoldable pub is_known_event : Text → Bool
is_known_event event =
    text_eq event (codes "OngoingIncidentsSnapshot")
    || text_eq event (codes "OngoingIncidentsUpdate")

-- `option.context(…)?`
abbrev pub required : {A : Type 0} → Option A → DecodeError → Result DecodeError A
required none failure = err failure
required (some a) failure = ok a

module _ (wire : Wire) where
  open wire use {Value, parse_envelope, is_null, parse_notification, is_rfc3339}

  unfoldable pub validate_timestamp : Text → DecodeError → Result DecodeError (Unit {0})
  validate_timestamp timestamp failure = ensure (is_rfc3339 timestamp) failure

  -- the inner loop, from an index on
  unfoldable pub check_items : Section → ℕ → List Incident → Result DecodeError (Unit {0})
  unfolding validate_timestamp
  check_items name index [] = ok tt
  check_items name index (item ∷ items) = do
    ensure (not (is_empty item.key)) (empty_key name index)
    validate_timestamp item.incident_started_at (bad_start name index)
    check_items name (index + 1) items

  check_time : Option Text → Result DecodeError (Unit {0})
  unfolding validate_timestamp
  check_time none = ok tt
  check_time (some timestamp) = validate_timestamp timestamp bad_time

  -- what follows the parse of a known event's payload
  unfoldable pub accept : Notification → Result DecodeError (Option NotificationData)
  unfolding check_time null_as_default
  accept notification = do
    let ongoing = notification.ongoing_incidents
    check_time notification.time
    ensure (not (is_negative ongoing.num_items_ok)) negative_count
    check_items total 0 (null_as_default ongoing.total)
    check_items added 0 (null_as_default ongoing.added)
    check_items removed 0 (null_as_default ongoing.removed)
    check_items updated 0 (null_as_default ongoing.updated)
    ok (
        some (record {
          total = null_as_default ongoing.total;
          added = null_as_default ongoing.added;
          removed = null_as_default ongoing.removed;
          updated = null_as_default ongoing.updated;
          num_items_ok = magnitude ongoing.num_items_ok;
        }))

  known_event : Envelope Value → Result DecodeError (Option NotificationData)
  known_event envelope = do
    ensure (not (is_null envelope.payload)) (null_payload envelope.event)
    notification ← required (parse_notification envelope.payload) (bad_payload envelope.event)
    accept notification

  by_event : Envelope Value → Result DecodeError (Option NotificationData)
  unfolding known_event
  by_event envelope = if is_known_event envelope.event then known_event envelope else ok none

  unfoldable pub decode_text_message : Text → Result DecodeError (Option NotificationData)
  unfolding by_event
  decode_text_message text = do
    envelope ← required (parse_envelope text) bad_message
    by_event envelope
