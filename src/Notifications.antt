-- ===== src/Notifications.antt =====
-- notification.rs: the dispatcher and its worker thread. `sync_channel` is a queue with a bound,
-- and `recv` blocks while the queue is empty and the sender is there. What the two threads do one
-- after the other is a list of turns; what a call of the desktop gives stands in the turn.
pub mod Turns
pub mod Delivery
use salmon.Base.{
  ℕ, Bool, true, false, Option, none, some, List, [], ◌∷◌, ◌++◌, Text, codes, ltb, length,
  if◌then◌else◌,
}

abbrev pub notification_queue_capacity : ℕ
notification_queue_capacity = 32

pub record QueuedNotification : Type 0 where
  pub title : Text
  pub body : Text

pub data EnqueueOutcome : Type 0 where
  queued : EnqueueOutcome
  dropped : EnqueueOutcome
  unavailable : EnqueueOutcome

pub data ShutdownOutcome : Type 0 where
  stopped : ShutdownOutcome
  detached : ShutdownOutcome

-- The worker: in `recv`, in `push`, or at its end.
pub data Worker : Type 0 where
  receiving : Worker
  pushing : QueuedNotification → Worker
  returned : Worker
  panicked : Worker

pub record NotificationDispatcher : Type 0 where
  pub capacity : ℕ
  pub sender : Bool
  pub queue : List QueuedNotification
  pub worker : Worker

unfoldable pub start_with_sink : ℕ → NotificationDispatcher
start_with_sink capacity = record {
  capacity = capacity;
  sender = true;
  queue = [];
  worker = receiving;
}

pub data LogLine : Type 0 where
  warn : Text → LogLine
  error : Text → LogLine
  info : Text → LogLine

-- What can be seen of a turn.
pub data Output : Type 0 where
  answered : QueuedNotification → EnqueueOutcome → Output
  pushed : QueuedNotification → Output
  logged : LogLine → Output

abbrev pub Outputs : Type 0
Outputs = List Output

abbrev pub receiver_gone : Worker → Bool
receiver_gone panicked = true
receiver_gone returned = true
receiver_gone worker = false

unfoldable pub enqueue_inner :
    NotificationDispatcher → QueuedNotification → NotificationDispatcher × Outputs
enqueue_inner d n =
    if d.sender
    then (if receiver_gone d.worker
        then (
          record d { sender = false },
          logged (error (codes "desktop notification worker stopped unexpectedly"))
              ∷ answered n unavailable
              ∷ [],
        )
        else if ltb (length d.queue) d.capacity
        then (record d { queue = d.queue ++ n ∷ [] }, answered n queued ∷ [])
        else (
          d,
          logged (warn (codes "desktop notification queue is full; dropping notification"))
              ∷ answered n dropped
              ∷ [],
        ))
    else (d, answered n unavailable ∷ [])

-- `Drop`, and the first line of the shutdown
unfoldable pub close : NotificationDispatcher → NotificationDispatcher
close d = record d { sender = false }

-- The end of a call of `NotificationSink::push`.
pub data Pushed : Type 0 where
  shown : Pushed
  failed : Text → Pushed
  crashed : Pushed

unfoldable pub receive :
    NotificationDispatcher → List QueuedNotification → NotificationDispatcher × Outputs
receive d [] = if d.sender then (d, []) else (record d { worker = returned }, [])
receive d (n ∷ rest) = (record d { queue = rest; worker = pushing n }, pushed n ∷ [])

-- A panic drops the receiver, and what is queued with it.
unfoldable pub after_push : NotificationDispatcher → Pushed → NotificationDispatcher × Outputs
after_push d shown = (record d { worker = receiving }, [])
after_push d (failed failure) = (record d { worker = receiving }, logged (error failure) ∷ [])
after_push d crashed = (record d { queue = []; worker = panicked }, [])

unfoldable pub work_at : Worker → NotificationDispatcher → Pushed → NotificationDispatcher × Outputs
work_at receiving d result = receive d d.queue
work_at (pushing n) d result = after_push d result
work_at returned d result = (d, [])
work_at panicked d result = (d, [])

-- One move of the worker, if it can make one.
abbrev pub work : NotificationDispatcher → Pushed → NotificationDispatcher × Outputs
work d result = work_at d.worker d result

pub data Turn : Type 0 where
  enqueue : QueuedNotification → Turn
  drop : Turn
  worker : Pushed → Turn

unfoldable pub take_turn : NotificationDispatcher → Turn → NotificationDispatcher × Outputs
take_turn d (enqueue n) = enqueue_inner d n
take_turn d drop = (close d, [])
take_turn d (worker result) = work d result

unfoldable pub run : NotificationDispatcher → List Turn → NotificationDispatcher × Outputs
run d [] = (d, [])
run d (turn ∷ turns) =
    let now = take_turn d turn in let later = run now.0 turns in (later.0, now.1 ++ later.1)

-- the worker's moves until the timeout
unfoldable pub work_all : NotificationDispatcher → List Pushed → NotificationDispatcher × Outputs
work_all d [] = (d, [])
work_all d (result ∷ results) =
    let now = work d result in let later = work_all now.0 results in (later.0, now.1 ++ later.1)

-- `recv_timeout` sees the worker's signal, or that the worker is gone.
unfoldable pub join : Worker → LogLine → Outputs × ShutdownOutcome
join returned late = (logged (info (codes "desktop notification worker stopped")) ∷ [], stopped)
join panicked late = (logged (error (codes "desktop notification worker panicked")) ∷ [], stopped)
join receiving late = (logged late ∷ [], detached)
join (pushing n) late = (logged late ∷ [], detached)

-- `timeout` is the timeout in seconds, as text.
unfoldable pub timeout_line : Text → LogLine
timeout_line timeout =
    warn (
      codes "desktop notification worker did not stop within "
      ++ timeout
      ++ codes "s; detaching it")

unfoldable pub shutdown_with_timeout :
    NotificationDispatcher → Text → List Pushed → Outputs × ShutdownOutcome
shutdown_with_timeout d timeout results =
    let worked = work_all (close d) results in
    let joined = join worked.0.worker (timeout_line timeout) in (worked.1 ++ joined.0, joined.1)
