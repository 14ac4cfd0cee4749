-- ===== src/Examples/Supervisor.antt =====
-- cmd/montray-ui/src/network/tunnel.rs at concrete generations, and the reducer below it.
use salmon.Base.{
  none, true, false, some, List, [], ◌∷◌, ◌≡◌, refl, Text, Instant, codes, text_eq, text_lt,
  is_some,
}
use salmon.Base.Maps.{get, insert}
use salmon.Base.Results.{ok}
use salmon.Domain.Model.{new, new_status, collect_statuses}
use salmon.Domain.Event.{Event}
use salmon.Domain.Lifecycle.{track}
use salmon.Domain.Reducer.Staleness.{Agrees, own, offline_is_stale}
use salmon.Domain.Reducer.WellFormed.{reduce_all}
use salmon.Network.Tunnel.Supervisor.{Exit, BeforeReady, WhileReady, Generation, run_with_spec}
use salmon.Network.Tunnel.Supervisor.Order.{follow, reported, supervised_in_order}
use salmon.Examples.Client.{client, lost_round}

abbrev dying : Generation
dying = record {
  stopped = false;
  spawned = ok tt;
  before = BeforeReady.ready;
  ready_at = 1;
  ready_delivered = true;
  client_at = 1;
  prepared = ok tt;
  rounds = lost_round ∷ [];
  during = WhileReady.exited (Exit.failure (codes "exit status: 255"));
  output = record { timed_out = false; shown = codes "denied" };
  failed_at = 9;
  failure_delivered = true;
  restarts = true;
}

abbrev silent : Generation
silent = record dying { before = BeforeReady.shutdown }

supervised_in_order_example :
    is_some (follow (codes "web") none (reported (run_with_spec client true (dying ∷ silent ∷ []))))
    ≡ true
supervised_in_order_example = supervised_in_order client true (dying ∷ silent ∷ [])

abbrev clock : Instant → Text
clock at = codes "t"

abbrev happened : List Event
happened =
    Event.connected (codes "web") 1
    ∷ Event.heartbeat (codes "web") 2
    ∷ Event.connected (codes "db") 3
    ∷ Event.disconnected (codes "web") 4 (codes "reset")
    ∷ []

web_known :
    get (codes "web") (new (codes "web" ∷ codes "db" ∷ []) []).servers
    ≡ some (new_status (codes "web"))
unfolding new collect_statuses get insert text_eq text_lt
web_known = refl

web_in_order : track (codes "web") true false (own (codes "web") happened) ≡ some false
unfolding text_eq
web_in_order = refl

offline_is_stale_example :
    Agrees (codes "web") false (reduce_all clock (new (codes "web" ∷ codes "db" ∷ []) []) happened)
offline_is_stale_example =
    offline_is_stale clock (codes "web" ∷ codes "db" ∷ []) [] happened (codes "web")
      (new_status (codes "web")) false web_known web_in_order
