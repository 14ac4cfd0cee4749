-- ===== src/Network/Client/Reconnect/Order.antt =====
-- network/client.rs: the events of a whole run are in order.
use salmon.Base.{
  ℕ, ◌≡◌, ◌∙◌, refl, Bool, true, false, ◌&&◌, some, List, [], ◌∷◌, ◌++◌, map, Text, Instant,
  text_eq_refl, ◌==◌, if◌then◌else◌, Bool-cases, Option-cases, inl, inr, is_some,
}
use salmon.Base.Results.{Result, ok, err}
use salmon.Domain.Event.{Event, connected}
use salmon.Network.Client.Session.{Ended, returned, broken, running, session}
use salmon.Network.Client.Session.Online.{session_online}
use salmon.Domain.Lifecycle.{track, track-append}
use salmon.Network.Client.Reconnect.{
  Action, wait, dial, send, Client, Round, Dialed, established, refused, timed_out, stopped, Done,
  stop, after, report, close_session, connected_session, on_dialed, attempt, run_round,
  connection_loop, run_connection_loop,
}

-- the events that a run sends, or tries to
abbrev pub sent : List Action → List Event
sent [] = []
sent (wait delay ∷ actions) = sent actions
sent (dial ∷ actions) = sent actions
sent (send event ∷ actions) = event ∷ sent actions

sent-append : (first second : List Action) → sent (first ++ second) ≡ sent first ++ sent second
sent-append [] second = refl
sent-append (wait delay ∷ first) second = sent-append first second
sent-append (dial ∷ first) second = sent-append first second
sent-append (send event ∷ first) second = cc (sent-append first second)

sent-map : (events : List Event) → sent (map send events) ≡ events
sent-map [] = refl
sent-map (event ∷ events) = cc (sent-map events)

-- Events in order from `online` on, and offline when there is a next round.
InOrder : Text → Bool → Done → Type 0
InOrder id online done =
    (later : Bool) × (track id false online (sent done.0) ≡ some later)
    × (is_some done.1 ≡ true → later ≡ false)

module _ (client : Client) where
  abbrev id : Text
  id = client.server_id

  report-InOrder :
      (round : Round) (error : Text) (delay : ℕ) (online : Bool)
      → InOrder id online (report client round error delay)
  unfolding InOrder report
  report-InOrder round error delay online = elim (Bool-cases (client.tunneled && round.settled)) [
    | inl e ↦ rw (e, report) (online, refl, λ h. cc)
    | inr e ↦ rw (e, report) (false, rw (text_eq_refl id, track) refl, λ h. refl)
  ]

  stop-InOrder : (online : Bool) → InOrder id online stop
  unfolding InOrder
  stop-InOrder online = (online, refl, λ h. cc)

  if-InOrder :
      (test online : Bool) (first second : Done)
      → InOrder id online first
      → InOrder id online second
      → InOrder id online (if test then first else second)
  if-InOrder true online first second h k = h
  if-InOrder false online first second h k = k

  after-InOrder :
      (actions : List Action) (done : Done) (online later : Bool)
      → track id false online (sent actions) ≡ some later
      → InOrder id later done
      → InOrder id online (after actions done)
  unfolding InOrder
  after-InOrder actions done online later h (last, k, l) =
      (last, rw (sent-append actions done.0) (track-append id false online later _ _ h ∙ k), l)

  close-InOrder : (round : Round) (how : Ended) → InOrder id true (close_session client round how)
  close-InOrder round returned = stop-InOrder true
  close-InOrder round running = stop-InOrder true
  close-InOrder round (broken error) = report-InOrder round error 0 true

  session-InOrder :
      (round : Round) (result : List Event × Ended)
      → track id false true result.0 ≡ some true
      → InOrder id true (connected_session client round result)
  session-InOrder round result h =
      after-InOrder (map send result.0) _ true true (rw (sent-map result.0) h)
        (close-InOrder round result.1)

  established-InOrder :
      (round : Round) (delay : ℕ) → InOrder id false (on_dialed client round delay established)
  unfolding on_dialed
  established-InOrder round delay =
      after-InOrder (send (connected id round.connected_at) ∷ []) _ false true
        (rw (text_eq_refl id, track) refl)
        (if-InOrder round.delivered true
          (connected_session client round (session client.codec client.options id round.moments))
          stop
          (session-InOrder round _ (session_online client.codec client.options id round.moments))
          (stop-InOrder true))

  dialed-InOrder :
      (round : Round) (delay : ℕ) (dialed : Dialed)
      → InOrder id false (on_dialed client round delay dialed)
  unfolding on_dialed
  dialed-InOrder round delay (refused error) = report-InOrder round _ delay false
  dialed-InOrder round delay timed_out = report-InOrder round _ delay false
  dialed-InOrder round delay stopped = stop-InOrder false
  dialed-InOrder round delay established = established-InOrder round delay

  attempt-InOrder : (round : Round) (delay : ℕ) → InOrder id false (attempt client round delay)
  unfolding attempt
  attempt-InOrder round delay =
      after-InOrder (dial ∷ []) _ false false refl (dialed-InOrder round delay round.dialed)

  round-InOrder : (round : Round) (delay : ℕ) → InOrder id false (run_round client round delay)
  unfolding run_round
  round-InOrder round delay =
      if-InOrder (delay == 0) false (attempt client round delay)
        (after (wait delay ∷ []) (if round.slept then attempt client round delay else stop))
        (attempt-InOrder round delay)
        (after-InOrder (wait delay ∷ []) _ false false refl (
          if-InOrder round.slept false (attempt client round delay) stop
            (attempt-InOrder round delay) (stop-InOrder false)))

  loop_in_order :
      (delay : ℕ) (rounds : List Round)
      → is_some (track id false false (sent (connection_loop client delay rounds))) ≡ true
  unfolding connection_loop InOrder
  loop_in_order delay [] = refl
  loop_in_order delay (round ∷ rounds) =
      let (later, h, offline) = round-InOrder round delay in
      rw (sent-append (run_round client round delay).0 _) (
        rw (track-append id false false later _ _ h)
          (elim (Option-cases (run_round client round delay).1) [
            | inl e ↦ rw e refl
            | inr (next, e) ↦ rw (e, offline (rw e refl)) (loop_in_order next rounds)
          ]))

  -- The events that one client sends are in order, whatever happens to its attempts, its frames
  -- and its channel: all are for its server; it reports a connection only while offline, heartbeats
  -- and notifications only while online, and a loss puts it offline.
  pub events_in_order :
      (at : Instant) (prepared : Result Text Unit) (rounds : List Round)
      → is_some (
          track client.server_id false false (sent (run_connection_loop client at prepared rounds)))
        ≡ true
  unfolding run_connection_loop
  events_in_order at (err error) rounds = rw (text_eq_refl client.server_id, track) refl
  events_in_order at (ok _) rounds = loop_in_order 0 rounds
