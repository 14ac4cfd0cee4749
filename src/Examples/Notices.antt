-- ===== src/Examples/Notices.antt =====
-- cmd/montray-ui/src/notification.rs with two turns of an incident.
use salmon.Base.{◌≢◌, ◌≡◌, ◌≤◌, refl, arith, true, List, [], ◌∷◌, ◌++◌, codes, length, All}
use salmon.Notifications.{
  panicked, NotificationDispatcher, QueuedNotification, pushing, Pushed, shown, failed, Turn,
  enqueue, worker, start_with_sink, run, shutdown_with_timeout, stopped, enqueue_inner, take_turn,
  work_at, receive, after_push,
}
use salmon.Notifications.Turns.{accepted, given}
use salmon.Notifications.Delivery.{delivered_in_order, shutdown_drains, Returns}

abbrev down : QueuedNotification
down = record { title = codes "error: remote"; body = codes "connection lost" }

abbrev up : QueuedNotification
up = record { title = codes "OK: remote"; body = [] }

-- the queue of one slot is full when the third notification comes
abbrev busy : List Turn
busy =
    enqueue down
    ∷ worker shown
    ∷ enqueue up
    ∷ enqueue down
    ∷ worker (failed (codes "no service"))
    ∷ []

third_is_dropped : accepted (run (start_with_sink 1) busy).1 ≡ down ∷ up ∷ []
unfolding run start_with_sink enqueue_inner take_turn work_at receive after_push
third_is_dropped = refl

delivered_in_order_example :
    let done = run (start_with_sink 1) busy in
    ((rest : List QueuedNotification) × (accepted done.1 ≡ given done.1 ++ rest)
      × (done.0.worker ≢ panicked → rest ≡ done.0.queue))
    × (done.0.worker ≡ panicked → done.0.queue ≡ [])
    × (length done.0.queue ≤ 1)
delivered_in_order_example = delivered_in_order 1 busy

abbrev waiting : NotificationDispatcher
waiting = record { capacity = 32; sender = true; queue = down ∷ up ∷ []; worker = pushing up }

abbrev results : List Pushed
results = shown ∷ shown ∷ failed (codes "no service") ∷ shown ∷ shown ∷ shown ∷ shown ∷ []

results-Returns : All Returns results
results-Returns =
    ((λ e. cc), ((λ e. cc), ((λ e. cc), ((λ e. cc), ((λ e. cc), ((λ e. cc), ((λ e. cc), tt)))))))

shutdown_drains_example :
    ((shutdown_with_timeout waiting (codes "2") results).1 ≡ stopped)
    × (given (shutdown_with_timeout waiting (codes "2") results).0 ≡ down ∷ up ∷ [])
shutdown_drains_example =
    shutdown_drains waiting (codes "2") results refl results-Returns (omega arith)
