-- ===== src/Network/Tunnel/Supervisor/Cleanup.antt =====
-- network/tunnel.rs: a process is cleaned up before the next one starts and before a return.
use salmon.Base.{
  ◌≡◌, Bool, true, false, not, ◌&&◌, ◌||◌, Option, none, some, List, [], ◌∷◌, if◌then◌else◌,
}
use salmon.Domain.Event.{Event, tunnel_ready, tunnel_failed}
use salmon.Network.Client.Reconnect.{Client}
use salmon.Network.Tunnel.Supervisor.{
  Step, spawn, start_client, stop_client, join_client, terminate_process_group, start_kill, reap,
  drain_output, send, Outcome,
}

-- what a supervisor has running: the child, the rest of its process group, the readers of its
-- output, and the client
pub record Live : Type 0 where
  pub child : Bool
  pub group : Bool
  pub readers : Bool
  pub client : Bool

abbrev pub nothing_live : Live
nothing_live = record { child = false; group = false; readers = false; client = false }

abbrev pub process_live : Live
process_live = record { child = true; group = true; readers = true; client = false }

abbrev pub all_live : Live
all_live = record { child = true; group = true; readers = true; client = true }

-- who may send: a tunnel becomes ready inside a live process without a client, a client sends only
-- while it and the process are there, and a tunnel has failed once nothing is left of it
abbrev pub may_send : Live → Event → Bool
may_send l (tunnel_failed id at error) = not (l.child || l.group || l.readers || l.client)
may_send l (tunnel_ready id at) = l.child && not l.client
may_send l event = l.child && l.client

-- one step, where it is allowed: a process starts only when nothing is left of the one before it, a
-- client only inside a live process, and while a client is there nothing is cleaned up but that the
-- child is waited for
abbrev pub step : Live → Step → Option Live
step l spawn = if l.child || l.group || l.readers || l.client then none else some process_live
step l start_client = if l.child && not l.client then some (record l { client = true }) else none
step l stop_client = some l
step l join_client = if l.client then some (record l { client = false }) else none
step l terminate_process_group = if l.client then none else some (record l { group = false })
step l start_kill = if l.client then none else some l
step l reap = if l.child then some (record l { child = false }) else none
step l drain_output =
    if l.child || l.group || l.client then none else some (record l { readers = false })
step l (send event) = if may_send l event then some l else none

abbrev pub steps_from : Live → List Step → Option Live
steps_from l [] = some l
steps_from l (s ∷ ss) = elim (step l s) [ none ↦ none | some later ↦ steps_from later ss ]

-- the outcome leaves nothing behind
Cleans : Live → Outcome → Type 0
Cleans l outcome = steps_from l outcome.0 ≡ some nothing_live

-- the process has ended, and the rest of its group and its output are still there
abbrev exited_live : Live
exited_live = record { child = false; group = true; readers = true; client = false }
