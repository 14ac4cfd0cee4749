-- ===== src/Network/Tunnel/Supervisor.antt =====
-- network/tunnel.rs: `run_with_spec`, the owner of the tunnel process and of the client inside
-- it. What happens to one process is a generation; the loop is a function of the generations to
-- the actions it takes.
pub mod Cleanup
pub mod Order
use salmon.Base.{
  ℕ, Bool, true, false, ◌&&◌, Option, none, some, List, [], ◌∷◌, ◌++◌, Text, Instant, codes,
  is_empty, if◌then◌else◌,
}
use salmon.Base.Results.{Result, ok, err}
use salmon.Domain.Event.{Event, tunnel_ready, tunnel_failed}
use salmon.Network.Client.Reconnect.{Client, Round, run_connection_loop}
use salmon.Network.Client.Reconnect.Order.{sent}

-- `io::Result<ExitStatus>`, with the text of a status or an error
pub data Exit : Type 0 where
  success : Exit
  failure : Text → Exit
  wait_failed : Text → Exit

-- the branch that the first `select!` takes
pub data BeforeReady : Type 0 where
  ready : BeforeReady
  exited : Exit → BeforeReady
  shutdown : BeforeReady

-- the branch that the second `select!` takes
pub data WhileReady : Type 0 where
  exited : Exit → WhileReady
  client_stopped : WhileReady
  shutdown : WhileReady

-- What `drain_output_readers` and `failure_output` give for a process that ended.
pub record Output : Type 0 where
  pub timed_out : Bool
  pub shown : Text

-- One turn of the loop. `ready_delivered` and `failure_delivered` say whether the channel takes
-- the event, `restarts` whether the delay in front of the next process runs to its end.
pub record Generation : Type 0 where
  pub stopped : Bool
  pub spawned : Result Text (Unit {0})
  pub before : BeforeReady
  pub ready_at : Instant
  pub ready_delivered : Bool
  pub client_at : Instant
  pub prepared : Result Text (Unit {0})
  pub rounds : List Round
  pub during : WhileReady
  pub output : Output
  pub failed_at : Instant
  pub failure_delivered : Bool
  pub restarts : Bool

-- What the supervisor does. `reap` is a `wait` for the child that returned.
pub data Step : Type 0 where
  spawn : Step
  start_client : Step
  stop_client : Step
  join_client : Step
  terminate_process_group : Step
  start_kill : Step
  reap : Step
  drain_output : Step
  send : Event → Step

-- the steps of a turn, and whether there is a next one
abbrev pub Outcome : Type 0
Outcome = List Step × Bool

abbrev pub after : List Step → Outcome → Outcome
after steps outcome = (steps ++ outcome.0, outcome.1)

abbrev reason_of : Exit → Text
reason_of success = codes "Tunnel command exited unexpectedly"
reason_of (failure status) = codes "Tunnel command exited: " ++ status
reason_of (wait_failed error) = codes "Waiting for tunnel command failed: " ++ error

unfoldable pub failure_details : Exit → Output → Text
failure_details exit output =
    let open_pipes =
      if output.timed_out
      then 10 ∷ 10 ∷ codes "Tunnel output pipes remained open after the command exited"
      else [] in
    let rest = if is_empty output.shown then [] else 10 ∷ 10 ∷ output.shown in
    reason_of exit ++ (open_pipes ++ rest)

-- `stop_generation`, with `stop_child` in it
unfoldable pub stop_generation : List Step
stop_generation = terminate_process_group ∷ start_kill ∷ reap ∷ drain_output ∷ []

abbrev pub sends : List Event → List Step
sends [] = []
sends (event ∷ events) = send event ∷ sends events

module _ (client : Client) (probed : Bool) where
  -- a failed turn: the event, and the delay in front of the next process
  unfoldable pub report : Generation → Text → Outcome
  report generation details = (
    send (tunnel_failed client.server_id generation.failed_at details) ∷ [],
    generation.failure_delivered && generation.restarts,
  )

  -- the process ended on its own
  unfoldable pub on_exit : Generation → Exit → Outcome
  on_exit generation exit =
      after (terminate_process_group ∷ drain_output ∷ [])
        (report generation (failure_details exit generation.output))

  unfoldable pub on_during : Generation → WhileReady → Outcome
  on_during generation (WhileReady.exited exit) =
      after (reap ∷ stop_client ∷ join_client ∷ []) (on_exit generation exit)
  on_during generation WhileReady.client_stopped =
      (join_client ∷ stop_client ∷ stop_generation, false)
  on_during generation WhileReady.shutdown = (stop_client ∷ join_client ∷ stop_generation, false)

  -- the events of the client inside the tunnel
  abbrev pub client_events : Generation → List Event
  client_events generation = sent (
      run_connection_loop (record client { tunneled = true }) generation.client_at
        generation.prepared generation.rounds)

  -- the tunnel is ready
  unfoldable pub on_ready : Generation → Outcome
  on_ready generation = after (send (tunnel_ready client.server_id generation.ready_at) ∷ []) (
      if generation.ready_delivered
      then after (start_client ∷ sends (client_events generation))
          (on_during generation generation.during)
      else (stop_generation, false))

  unfoldable pub on_before : Generation → BeforeReady → Outcome
  on_before generation BeforeReady.ready = on_ready generation
  on_before generation (BeforeReady.exited exit) = after (reap ∷ []) (on_exit generation exit)
  on_before generation BeforeReady.shutdown = (stop_generation, false)

  unfoldable pub on_spawned : Generation → Result Text (Unit {0}) → Outcome
  on_spawned generation (err error) =
      report generation (codes "Failed to start tunnel command: " ++ error)
  on_spawned generation (ok _) =
      after (spawn ∷ [])
        (if probed then on_before generation generation.before else on_ready generation)

  unfoldable pub turn : Generation → Outcome
  turn generation =
      if generation.stopped then ([], false) else on_spawned generation generation.spawned

  unfoldable pub run_with_spec : List Generation → List Step
  run_with_spec [] = []
  run_with_spec (generation ∷ generations) =
      let (steps, again) = turn generation in
      let rest = run_with_spec generations in steps ++ (if again then rest else [])
