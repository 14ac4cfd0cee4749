-- ===== src/Network/Tunnel/Supervisor/Order.antt =====
-- network/tunnel.rs: the events of a tunneled server, the supervisor's and its clients', are in
-- order.
use salmon.Base.{
  Option, none, text_eq, ◌≡◌, ◌∙◌, refl, ap, Bool, true, false, some, List, [], ◌∷◌, ◌++◌,
  if◌then◌else◌, Option-cases, inl, inr, arith, Text, text_eq_refl, is_some,
}
use salmon.Base.Results.{Result, ok, err}
use mathlib.Core.Option
use salmon.Domain.Event.{Event, tunnel_ready, tunnel_failed}
use salmon.Domain.Lifecycle.{advance, track}
use salmon.Network.Client.Reconnect.{Client}
use salmon.Network.Client.Reconnect.Order.{events_in_order}
use salmon.Network.Tunnel.Supervisor.{
  Exit, BeforeReady, WhileReady, Generation, Step, spawn, start_client, stop_client, join_client,
  terminate_process_group, reap, drain_output, send, Outcome, after, stop_generation, sends, report,
  on_exit, on_during, client_events, on_ready, on_before, on_spawned, turn, run_with_spec,
}

-- the events among the steps
abbrev pub reported : List Step → List Event
reported [] = []
reported (send event ∷ steps) = event ∷ reported steps
reported (s ∷ steps) = reported steps

reported-append :
    (first second : List Step) → reported (first ++ second) ≡ reported first ++ reported second
reported-append [] second = refl
reported-append (send event ∷ first) second = cc (reported-append first second)
reported-append (s ∷ first) second = reported-append first second

reported-sends : (events : List Event) → reported (sends events) ≡ events
reported-sends [] = refl
reported-sends (event ∷ events) = cc (reported-sends events)

-- A server is without a tunnel, or its tunnel is ready and it is online or not.
abbrev pub Phase : Type 0
Phase = Option Bool

-- One event about the server `id`: its phase afterwards, when the event is in order. A tunnel
-- becomes ready where there is none, what a client sends comes only while it is ready and keeps
-- the order of clients, and the failure of a tunnel ends it.
abbrev pub enter : Text → Phase → Event → Option Phase
enter id none (tunnel_ready i at) = if text_eq i id then some (some false) else none
enter id phase (tunnel_failed i at error) = if text_eq i id then some none else none
enter id none event = none
enter id (some online) event = Option.map some (advance id false online event)

abbrev pub follow : Text → Phase → List Event → Option Phase
follow id phase [] = some phase
follow id phase (event ∷ events) = elim (enter id phase event) [
  | none ↦ none
  | some later ↦ follow id later events
]

follow-append :
    (id : Text) (phase later : Phase) (first second : List Event)
    → follow id phase first ≡ some later
    → follow id phase (first ++ second) ≡ follow id later second
follow-append id phase later [] second h = ap (λ p. follow_from p) h
  where
    follow_from : Option Phase → Option Phase
    follow_from none = none
    follow_from (some p) = follow id p second
follow-append id phase later (event ∷ first) second h = elim (Option-cases (enter id phase event)) [
  | inl e ↦ absurd (ground arith)
  | inr (next, e) ↦ rw (e, follow) (follow-append id next later first second (ground arith))
]

client_enters :
    (id : Text) (online later : Bool) (event : Event)
    → advance id false online event ≡ some later
    → enter id (some online) event ≡ some (some later)
client_enters id online later (tunnel_failed i at error) h = cc
client_enters id online later event h = ap (Option.map some) h

-- What is in order for a client is in order while its tunnel is ready.
follow-client :
    (id : Text) (online later : Bool) (events : List Event)
    → track id false online events ≡ some later
    → follow id (some online) events ≡ some (some later)
follow-client id online later [] h = ap (Option.map some) h
follow-client id online later (event ∷ events) h =
    elim (Option-cases (advance id false online event)) [
      | inl e ↦ absurd (ground arith)
      | inr (next, e) ↦
          rw (client_enters id online next event e, follow)
            (follow-client id next later events (ground arith))
    ]

-- Events in order from a phase on, and no tunnel when another process starts.
InOrder : Text → Phase → Outcome → Type 0
InOrder id phase outcome =
    (later : Phase) × (follow id phase (reported outcome.0) ≡ some later)
    × (outcome.1 ≡ true → later ≡ none)

after-InOrder :
    (id : Text) (steps : List Step) (outcome : Outcome) (phase later : Phase)
    → follow id phase (reported steps) ≡ some later
    → InOrder id later outcome
    → InOrder id phase (after steps outcome)
unfolding InOrder
after-InOrder id steps outcome phase later h (last, k, l) =
    (last, rw (reported-append steps outcome.0) (follow-append id phase later _ _ h ∙ k), l)

if-InOrder :
    (id : Text) (test : Bool) (phase : Phase) (first second : Outcome)
    → InOrder id phase first
    → InOrder id phase second
    → InOrder id phase (if test then first else second)
if-InOrder id true phase first second h k = h
if-InOrder id false phase first second h k = k

stop-InOrder : (id : Text) (online : Phase) → InOrder id online (stop_generation, false)
unfolding InOrder stop_generation
stop-InOrder id online = (online, refl, λ h. cc)

module _ (client : Client) (probed : Bool) (generation : Generation) where
  abbrev id : Text
  id = client.server_id

  report-InOrder :
      (details : Text) (online : Phase)
      → InOrder id online (report client probed generation details)
  unfolding InOrder report
  report-InOrder details none = (none, rw (text_eq_refl id, follow) refl, λ h. refl)
  report-InOrder details (some online) = (none, rw (text_eq_refl id, follow) refl, λ h. refl)

  on_exit-InOrder :
      (exit : Exit) (online : Phase) → InOrder id online (on_exit client probed generation exit)
  unfolding on_exit
  on_exit-InOrder exit online =
      after-InOrder id (terminate_process_group ∷ drain_output ∷ []) _ online online refl
        (report-InOrder _ online)

  on_during-InOrder :
      (during : WhileReady) (online : Phase)
      → InOrder id online (on_during client probed generation during)
  unfolding on_during InOrder stop_generation
  on_during-InOrder (WhileReady.exited exit) online =
      after-InOrder id (reap ∷ stop_client ∷ join_client ∷ [])
        (on_exit client probed generation exit) online online refl (on_exit-InOrder exit online)
  on_during-InOrder WhileReady.client_stopped online = (online, refl, λ h. cc)
  on_during-InOrder WhileReady.shutdown online = (online, refl, λ h. cc)

  client_in_order :
      (later : Bool) × (follow id (some false) (client_events client probed generation)
        ≡ some (some later))
  client_in_order =
      elim (Option-cases (track id false false (client_events client probed generation))) [
        | inl e ↦ absurd (
            ground (
              arith,
              events_in_order (record client { tunneled = true }) generation.client_at
                  generation.prepared generation.rounds,
            ))
        | inr (later, e) ↦ (later, follow-client id false later _ e)
      ]

  on_ready-InOrder : InOrder id none (on_ready client probed generation)
  unfolding on_ready
  on_ready-InOrder =
      let (online, h) = client_in_order in
      after-InOrder id (send (tunnel_ready id generation.ready_at) ∷ []) _ none (some false)
        (rw (text_eq_refl id, follow) refl)
        (if-InOrder id generation.ready_delivered (some false)
          (after (start_client ∷ sends (client_events client probed generation))
            (on_during client probed generation generation.during))
          (stop_generation, false)
          (after-InOrder id (start_client ∷ sends (client_events client probed generation))
            (on_during client probed generation generation.during) (some false) (some online)
            (ap (follow id (some false)) (reported-sends (client_events client probed generation))
              ∙ h)
            (on_during-InOrder generation.during (some online)))
          (stop-InOrder id (some false)))

  on_before-InOrder :
      (before : BeforeReady) → InOrder id none (on_before client probed generation before)
  unfolding on_before
  on_before-InOrder BeforeReady.ready = on_ready-InOrder
  on_before-InOrder (BeforeReady.exited exit) =
      after-InOrder id (reap ∷ []) (on_exit client probed generation exit) none none refl
        (on_exit-InOrder exit none)
  on_before-InOrder BeforeReady.shutdown = stop-InOrder id none

  on_spawned-InOrder :
      (spawned : Result Text (Unit {0}))
      → InOrder id none (on_spawned client probed generation spawned)
  unfolding on_spawned
  on_spawned-InOrder (err error) = report-InOrder _ none
  on_spawned-InOrder (ok _) = after-InOrder id (spawn ∷ []) _ none none refl (
      if-InOrder id probed none (on_before client probed generation generation.before)
        (on_ready client probed generation) (on_before-InOrder generation.before) on_ready-InOrder)

  turn-InOrder : InOrder id none (turn client probed generation)
  unfolding turn InOrder
  turn-InOrder =
      if-InOrder id generation.stopped none ([], false)
        (on_spawned client probed generation generation.spawned) (none, refl, λ h. refl)
        (on_spawned-InOrder generation.spawned)

continue-in_order :
    (id : Text) (again : Bool) (later : Phase) (rest : List Step)
    → (again ≡ true → later ≡ none)
    → is_some (follow id none (reported rest)) ≡ true
    → is_some (follow id later (reported (if again then rest else []))) ≡ true
continue-in_order id true later rest h k = rw (h refl) k
continue-in_order id false later rest h k = refl

-- The events that the supervisor and the clients inside its tunnels send are in order: a tunnel
-- becomes ready only where there is none, every event of a client lies between that and the
-- failure of its tunnel, after which there is none again, and between the two a client's events
-- come in their own order.
pub supervised_in_order :
    (client : Client) (probed : Bool) (generations : List Generation)
    → is_some (follow client.server_id none (reported (run_with_spec client probed generations)))
      ≡ true
unfolding run_with_spec InOrder
supervised_in_order client probed [] = refl
supervised_in_order client probed (generation ∷ generations) =
    let (later, h, offline) = turn-InOrder client probed generation in
    rw (reported-append (turn client probed generation).0 _) (
      rw (follow-append client.server_id none later _ _ h) (
        continue-in_order client.server_id (turn client probed generation).1 later _ offline
          (supervised_in_order client probed generations)))

abbrev is_online : Phase → Bool
is_online none = false
is_online (some online) = online

enter-advance :
    (id : Text) (phase later : Phase) (event : Event)
    → enter id phase event ≡ some later
    → advance id true (is_online phase) event ≡ some (is_online later)
enter-advance id none later (tunnel_ready i at) h = ground arith
enter-advance id none later (tunnel_failed i at error) h = ground arith
enter-advance id none later event h = cc
enter-advance id (some online) later (tunnel_ready i at) h = cc
enter-advance id (some online) later (tunnel_failed i at error) h = ground arith
enter-advance id (some online) later event h = ground arith

-- Events that are in order for a tunnel are in the order that the reducer relies on.
pub follow-track :
    (id : Text) (phase later : Phase) (events : List Event)
    → follow id phase events ≡ some later
    → track id true (is_online phase) events ≡ some (is_online later)
follow-track id phase later [] h = ground arith
follow-track id phase later (event ∷ events) h = elim (Option-cases (enter id phase event)) [
  | inl e ↦ absurd (ground arith)
  | inr (next, e) ↦
      rw (enter-advance id phase next event e, track)
        (follow-track id next later events (ground arith))
]
