-- ===== src/Network/Client/Session/Online.antt =====
-- network/client.rs: the order of the events that one client may send.
use salmon.Base.{
  ◌≡◌, refl, Bool, true, false, Option, none, some, List, [], ◌∷◌, Text, Instant, text_eq,
  text_eq_refl, Bool-cases, Option-cases, inl, inr, ltb, length,
}
use salmon.Base.Results.{Result, ok, err}
use salmon.Domain.Event.{Event}
use salmon.Domain.Model.{NotificationData}
use salmon.Domain.Lifecycle.{advance, track}
use salmon.Network.Protocol.{DecodeError, decode_text_message}
use salmon.Network.Client.Session.{
  ClientOptions, Moment, Message, text, binary, close, other, Received, silent, ended, failed,
  frame, stopped, Codec, decoded, Turn, proceed, deliver, lost, finish, follow, handle, turn,
  session, Ended,
}

-- a turn of the inner loop sends only what an online client may send
abbrev InOrder : Text → Turn → Type 0
InOrder id proceed = Unit
InOrder id (deliver event) = advance id false true event ≡ some true
InOrder id (lost error) = Unit
InOrder id finish = Unit

module _ (codec : Codec) (options : ClientOptions) (id : Text) where
  decoded-InOrder :
      (at : Instant) (result : Result DecodeError (Option NotificationData))
      → InOrder id (decoded codec options id at result)
  decoded-InOrder at (ok (some message)) = rw (text_eq_refl id) refl
  decoded-InOrder at (ok none) = tt
  decoded-InOrder at (err error) = tt

  binary-InOrder :
      (at : Instant) (bytes : Text) → InOrder id (handle codec options id at (binary bytes))
  unfolding handle
  binary-InOrder at bytes = elim (Bool-cases (text_eq bytes (0 ∷ []))) [
    | inl e ↦ rw (e, handle) (rw (text_eq_refl id) refl)
    | inr e ↦
        rw (e, handle)
          (elim (Option-cases (codec.utf8_error bytes)) [
            | inl f ↦ rw f (decoded-InOrder at (decode_text_message codec.wire bytes))
            | inr (error, f) ↦ rw f tt
          ])
  ]

  handle-InOrder :
      (at : Instant) (message : Message) → InOrder id (handle codec options id at message)
  unfolding handle
  handle-InOrder at (binary bytes) = binary-InOrder at bytes
  handle-InOrder at (text bytes) =
      elim (Bool-cases (ltb options.max_message_bytes (length bytes))) [
        | inl e ↦ rw (e, handle) tt
        | inr e ↦ rw (e, handle) (decoded-InOrder at (decode_text_message codec.wire bytes))
      ]
  handle-InOrder at close = tt
  handle-InOrder at other = tt

  turn-InOrder :
      (at : Instant) (received : Received) → InOrder id (turn codec options id at received)
  unfolding turn
  turn-InOrder at silent = tt
  turn-InOrder at ended = tt
  turn-InOrder at (failed error) = tt
  turn-InOrder at (frame message) = handle-InOrder at message
  turn-InOrder at stopped = tt

  follow-online :
      (t : Turn) (delivered : Bool) (rest : List Event × Ended)
      → InOrder id t
      → track id false true rest.0 ≡ some true
      → track id false true (follow t delivered rest).0 ≡ some true
  unfolding follow
  follow-online proceed delivered rest h k = k
  follow-online (deliver event) true rest h k = rw (h, track) k
  follow-online (deliver event) false rest h k = rw (h, track) refl
  follow-online (lost error) delivered rest h k = refl
  follow-online finish delivered rest h k = refl

  pub session_online :
      (moments : List Moment) → track id false true (session codec options id moments).0 ≡ some true
  unfolding session
  session_online [] = refl
  session_online (m ∷ ms) =
      follow-online _ m.delivered _ (turn-InOrder m.at m.received) (session_online ms)
