-- ===== src/Network/Protocol/Decoding.antt =====
-- network/protocol.rs: what is accepted is sound, and all that is sound is accepted.
use mathlib.Core.Path.{subst}
use salmon.Base.{
  ℕ, ◌+◌, Bool, true, false, not, Option, none, some, List, [], ◌∷◌, ◌≡◌, refl, arith, Text,
  is_empty, All, if◌then◌else◌, ◌↔◌, ◌∙◌, ap,
}
use salmon.Base.Int.{magnitude, is_negative}
use salmon.Base.Results.{Result, ok, ◌>>=◌, ok_of_bind, ok_of_ensure}
use salmon.Domain.Model.{Incident, NotificationData}
use salmon.Network.Protocol.{
  total, added, removed, updated, Envelope, Notification, Section, DecodeError, bad_message,
  by_event, bad_payload, null_payload, Wire, is_known_event, required, check_items, check_time,
  accept, known_event, decode_text_message,
}

-- a notification comes only from the first branch of the test on the event's name
branch_taken :
    (known : Bool) (m : Result DecodeError (Option NotificationData)) (received : NotificationData)
    → (if known then m else ok none) ≡ ok (some received)
    → m ≡ ok (some received)
branch_taken true m received h = h
branch_taken false m received h = cc

module _ (wire : Wire) where
  open wire use {Value, parse_envelope, is_null, parse_notification, is_rfc3339}

  -- an incident that the reducer may hold
  abbrev pub IsSound : Incident → Type 0
  IsSound item = (is_empty item.key ≡ false) × (is_rfc3339 item.incident_started_at ≡ true)

  abbrev pub DataIsSound : NotificationData → Type 0
  DataIsSound received =
      All IsSound received.total
      × All IsSound received.added
      × All IsSound received.removed
      × All IsSound received.updated

  check_items-IsSound :
      (name : Section) (index : ℕ) (items : List Incident)
      → check_items wire name index items ≡ ok tt
      → All IsSound items
  unfolding check_items
  check_items-IsSound name index [] h = tt
  check_items-IsSound name index (item ∷ items) h =
      let (h', key) = ok_of_ensure _ _ _ tt h in
      let (rest, start) = ok_of_ensure _ _ _ tt h' in
      ((ground arith, start), check_items-IsSound name (index + 1) items rest)

  check_items_complete :
      (name : Section) (index : ℕ) (items : List Incident)
      → All IsSound items
      → check_items wire name index items ≡ ok tt
  unfolding check_items
  check_items_complete name index [] h = refl
  check_items_complete name index (item ∷ items) h =
      rw (h.0.0, h.0.1) (check_items_complete name (index + 1) items h.1)

  abbrev pub TimeIsSound : Option Text → Type 0
  TimeIsSound none = Unit
  TimeIsSound (some timestamp) = is_rfc3339 timestamp ≡ true

  check_time_sound : (time : Option Text) → check_time wire time ≡ ok tt → TimeIsSound time
  unfolding check_time
  check_time_sound none h = tt
  check_time_sound (some timestamp) h = ground arith

  check_time_complete : (time : Option Text) → TimeIsSound time → check_time wire time ≡ ok tt
  unfolding check_time
  check_time_complete none h = refl
  check_time_complete (some timestamp) h = rw h

  abbrev pub listed : Option (List Incident) → List Incident
  listed none = []
  listed (some items) = items

  -- the data of a payload, with missing lists empty
  abbrev pub data_of : Notification → NotificationData
  data_of n =
      let ongoing = n.ongoing_incidents in
      record {
        total = listed ongoing.total;
        added = listed ongoing.added;
        removed = listed ongoing.removed;
        updated = listed ongoing.updated;
        num_items_ok = magnitude ongoing.num_items_ok;
      }

  pub record IsAcceptable (n : Notification) : Type 0 where
    pub time_ok : TimeIsSound n.time
    pub count_ok : is_negative n.ongoing_incidents.num_items_ok ≡ false
    pub items_ok : DataIsSound (data_of n)

  accept_sound :
      (n : Notification) (received : NotificationData)
      → accept wire n ≡ ok (some received)
      → IsAcceptable n × (data_of n ≡ received)
  unfolding accept
  accept_sound n received h0 =
      let (u0, h1, time) = ok_of_bind _ _ _ h0 in
      let (h2, count) = ok_of_ensure _ _ _ _ h1 in
      let (u1, h3, total_ok) = ok_of_bind _ _ _ h2 in
      let (u2, h4, added_ok) = ok_of_bind _ _ _ h3 in
      let (u3, h5, removed_ok) = ok_of_bind _ _ _ h4 in
      let (u4, h6, updated_ok) = ok_of_bind _ _ _ h5 in
      (
        record {
          time_ok = check_time_sound n.time time;
          count_ok = ground arith;
          items_ok = (
            check_items-IsSound _ 0 _ total_ok,
            check_items-IsSound _ 0 _ added_ok,
            check_items-IsSound _ 0 _ removed_ok,
            check_items-IsSound _ 0 _ updated_ok,
          );
        },
        ground arith,
      )

  accept_complete : (n : Notification) → IsAcceptable n → accept wire n ≡ ok (some (data_of n))
  unfolding accept
  accept_complete n a = rw (check_time_complete n.time a.time_ok) (
      rw a.count_ok (
        rw (
          check_items_complete total 0 _ a.items_ok.0,
          check_items_complete added 0 _ a.items_ok.1,
          check_items_complete removed 0 _ a.items_ok.2,
          check_items_complete updated 0 _ a.items_ok.3,
        )))

  known_event_sound :
      (envelope : Envelope Value) (received : NotificationData)
      → known_event wire envelope ≡ ok (some received)
      → DataIsSound received
  unfolding known_event
  known_event_sound envelope received h =
      let parsing = required (parse_notification envelope.payload) (bad_payload envelope.event) in
      let (h', live) =
        ok_of_ensure (not (is_null envelope.payload)) (null_payload envelope.event)
          (parsing >>= accept wire) (some received) h in
      let (n, accepted, parsed) = ok_of_bind parsing (accept wire) (some received) h' in
      let (sound, same) = accept_sound n received accepted in subst DataIsSound same sound.items_ok

  -- A message that decodes to a notification holds only incidents with a key that is not empty
  -- and a start that is an RFC 3339 timestamp, in all four lists.
  pub decode_sound :
      (text : Text) (received : NotificationData)
      → decode_text_message wire text ≡ ok (some received)
      → DataIsSound received
  unfolding decode_text_message
  decode_sound text received h =
      let reading = required (parse_envelope text) bad_message in
      let (envelope, taken, e) = ok_of_bind reading (by_event wire) (some received) h in
      known_event_sound envelope received
        (branch_taken (is_known_event envelope.event) (known_event wire envelope) received taken)

  -- Of a known event whose payload is not null and parses, the message decodes to a notification
  -- exactly when its time, if there is one, is a timestamp, its count is not negative and all its
  -- incidents have a key and a timestamp; the notification then has the payload's lists, the
  -- missing ones empty, and its count.
  pub decode_iff :
      (text : Text) (envelope : Envelope Value) (n : Notification) (received : NotificationData)
      → parse_envelope text ≡ some envelope
      → is_known_event envelope.event ≡ true
      → is_null envelope.payload ≡ false
      → parse_notification envelope.payload ≡ some n
      → (decode_text_message wire text ≡ ok (some received))
        ↔ (IsAcceptable n × (data_of n ≡ received))
  unfolding decode_text_message
  decode_iff text envelope n received e known live parsed =
      rw (e, known, live, parsed)
        (accept_sound n received, λ k. accept_complete n k.0 ∙ ap (λ d. ok (some d)) k.1)
