-- ===== src/Notifications/Delivery.antt =====
-- notification.rs: what reaches the desktop, and in which order.
use mathlib.Core.Path.{subst}
use salmon.Base.{
  inl, inr, ℕ, ◌+◌, ◌*◌, ◌≤◌, Bool, true, false, List, [], ◌∷◌, ◌++◌, ◌≡◌, ◌≢◌, refl, sym, ap, ◌∙◌,
  arith, Text, ltb, length, append_assoc, append-nil, All, if_rule,
}
use salmon.Notifications.{
  NotificationDispatcher, QueuedNotification, Worker, receiving, pushing, returned, panicked,
  Outputs, Pushed, shown, failed, crashed, Turn, enqueue, drop, worker, stopped, start_with_sink,
  enqueue_inner, close, receive, after_push, work_at, take_turn, run, work_all, join,
  shutdown_with_timeout, receiver_gone, LogLine, timeout_line,
}
use salmon.Notifications.Turns.{Turned, accepted, accepted-append, given, given-append, turn-Turned}

-- After these outputs: what was taken in is what was given out, and a rest, which is the queue
-- unless the worker has panicked.
Delivered : NotificationDispatcher → Outputs → Type 0
Delivered d outputs =
    (rest : List QueuedNotification) × (accepted outputs ≡ given outputs ++ rest)
    × (d.worker ≢ panicked → rest ≡ d.queue)

Turned-Delivered :
    (d : NotificationDispatcher) (done : NotificationDispatcher × Outputs) (outputs : Outputs)
    → Turned d done
    → Delivered d outputs
    → Delivered done.0 (outputs ++ done.1)
unfolding Turned Delivered
Turned-Delivered d done outputs (same, bound, inl (there, e)) (rest, f, queue) = (
  done.0.queue,
  accepted-append outputs done.1
      ∙ ap (λ l. l ++ accepted done.1) (f ∙ ap (λ l. given outputs ++ l) (queue there))
      ∙ append_assoc (given outputs) d.queue (accepted done.1)
      ∙ ap (λ l. given outputs ++ l) e
      ∙ sym (append_assoc (given outputs) (given done.1) done.0.queue)
      ∙ ap (λ l. l ++ done.0.queue) (sym (given-append outputs done.1)),
  λ h. refl,
)
Turned-Delivered d done outputs (same, bound, inr (took, gave, gone)) (rest, f, queue) = (
  rest,
  accepted-append outputs done.1
      ∙ ap (λ l. accepted outputs ++ l) took
      ∙ append-nil (accepted outputs)
      ∙ f
      ∙ ap (λ l. l ++ rest)
          (sym (
            given-append outputs done.1
            ∙ ap (λ l. given outputs ++ l) gave
            ∙ append-nil (given outputs))),
  λ h. absurd (h gone),
)

run-Delivered :
    (turns : List Turn) (d : NotificationDispatcher) (outputs : Outputs)
    → Delivered d outputs
    → length d.queue ≤ d.capacity
    → Delivered (run d turns).0 (outputs ++ (run d turns).1)
      × (length (run d turns).0.queue ≤ d.capacity)
unfolding run Turned
run-Delivered [] d outputs h bound = (subst (Delivered d) (sym (append-nil outputs)) h, bound)
run-Delivered (turn ∷ turns) d outputs h bound =
    let (same, keeps, what) = turn-Turned d turn in
    let now = (take_turn d turn) in
    let (k, last) =
      run-Delivered turns now.0 (outputs ++ now.1)
        (Turned-Delivered d now outputs (same, keeps, what) h) (omega (arith, same, keeps bound)) in
    (
      subst (Delivered (run now.0 turns).0) (append_assoc outputs now.1 (run now.0 turns).1) k,
      omega (arith, same, last),
    )

-- A panic of the worker leaves nothing in the queue.
Dropped : NotificationDispatcher → Type 0
Dropped d = d.worker ≡ panicked → d.queue ≡ []

enqueue-Dropped :
    (d : NotificationDispatcher) (n : QueuedNotification)
    → Dropped d
    → Dropped (enqueue_inner d n).0
unfolding enqueue_inner Dropped
enqueue-Dropped d n h =
    if_rule P d.sender _ _
      (λ open_.
        if_rule P (receiver_gone d.worker) _ _ (λ gone. h)
          (λ there.
            if_rule P (ltb (length d.queue) d.capacity) _ _
              (λ fits k. absurd (still_there (sym (ap receiver_gone k) ∙ there))) (λ full. h)))
      (λ closed. h)
  where
    P : NotificationDispatcher × Outputs → Type 0
    P done = done.0.worker ≡ panicked → done.0.queue ≡ []

    still_there : true ≡ false → ⊥
    still_there e = cc

receive-Dropped :
    (d : NotificationDispatcher) (queue : List QueuedNotification)
    → d.worker ≡ receiving
    → Dropped (receive d queue).0
unfolding receive Dropped
receive-Dropped d [] e =
    if_rule {A = NotificationDispatcher × Outputs}
      (λ done. done.0.worker ≡ panicked → done.0.queue ≡ []) d.sender _ _ (λ open_ k. cc)
      (λ closed k. cc)
receive-Dropped d (n ∷ rest) e = λ k. cc

work-Dropped :
    (at : Worker) (d : NotificationDispatcher) (result : Pushed)
    → d.worker ≡ at
    → Dropped d
    → Dropped (work_at at d result).0
unfolding work_at after_push Dropped
work-Dropped receiving d result e h = receive-Dropped d d.queue e
work-Dropped (pushing n) d shown e h = λ k. cc
work-Dropped (pushing n) d (failed failure) e h = λ k. cc
work-Dropped (pushing n) d crashed e h = λ k. refl
work-Dropped returned d result e h = h
work-Dropped panicked d result e h = h

turn-Dropped : (d : NotificationDispatcher) (turn : Turn) → Dropped d → Dropped (take_turn d turn).0
unfolding take_turn close Dropped
turn-Dropped d (enqueue n) h = enqueue-Dropped d n h
turn-Dropped d drop h = h
turn-Dropped d (worker result) h = work-Dropped d.worker d result refl h

run-Dropped : (turns : List Turn) (d : NotificationDispatcher) → Dropped d → Dropped (run d turns).0
unfolding run
run-Dropped [] d h = h
run-Dropped (turn ∷ turns) d h = run-Dropped turns (take_turn d turn).0 (turn-Dropped d turn h)

-- At any point of any run, in whatever order the two threads take their turns, what was given to
-- the desktop is what was accepted, in its order and each as often, but for a rest at its end. The
-- rest is what is in the queue, unless the worker has panicked, after which the queue is empty. The
-- queue is never longer than its capacity.
pub delivered_in_order :
    (capacity : ℕ) (turns : List Turn)
    → let done = run (start_with_sink capacity) turns in
      ((rest : List QueuedNotification) × (accepted done.1 ≡ given done.1 ++ rest)
        × (done.0.worker ≢ panicked → rest ≡ done.0.queue))
      × (done.0.worker ≡ panicked → done.0.queue ≡ [])
      × (length done.0.queue ≤ capacity)
unfolding start_with_sink Delivered Dropped
delivered_in_order capacity turns =
    let (delivered, bound) =
      run-Delivered turns (start_with_sink capacity) [] ([], refl, λ h. refl) (omega arith) in
    (delivered, run-Dropped turns (start_with_sink capacity) (λ h. refl), bound)

-- The worker of a closed queue.
draining : ℕ → List QueuedNotification → Worker → NotificationDispatcher
draining capacity queue at = record {
  capacity = capacity;
  sender = false;
  queue = queue;
  worker = at;
}

abbrev pub Returns : Pushed → Type 0
Returns result = result ≢ crashed

-- what the worker makes of the queue from here on
Drained : List QueuedNotification → NotificationDispatcher × Outputs → Type 0
Drained queue done = (done.0.worker ≡ returned) × (given done.1 ≡ queue)

idle :
    (capacity : ℕ) (results : List Pushed)
    → Drained [] (work_all (draining capacity [] returned) results)
unfolding Drained work_all work_at draining
idle capacity [] = (refl, refl)
idle capacity (result ∷ results) = idle capacity results

abbrev pub at_work : Worker → Bool
at_work receiving = true
at_work (pushing n) = true
at_work returned = false
at_work panicked = false

-- two moves for each waiting notification, one for the one at hand, and one to return
abbrev pub moves : Worker → List QueuedNotification → ℕ
moves (pushing n) queue = 2 * length queue + 2
moves at queue = 2 * length queue + 1

drains :
    (results : List Pushed) (capacity : ℕ) (queue : List QueuedNotification) (at : Worker)
    → All Returns results
    → at_work at ≡ true
    → moves at queue ≤ length results
    → Drained queue (work_all (draining capacity queue at) results)
unfolding work_all work_at receive after_push Drained draining
drains results capacity queue returned ok h enough = cc
drains results capacity queue panicked ok h enough = cc
drains [] capacity queue receiving ok h enough = absurd (omega arith)
drains [] capacity queue (pushing n) ok h enough = absurd (omega arith)
drains (result ∷ results) capacity [] receiving ok h enough = idle capacity results
drains (result ∷ results) capacity (n ∷ rest) receiving ok h enough =
    let (end, all) = drains results capacity rest (pushing n) ok.1 refl (omega arith) in
    (end, ap (λ l. n ∷ l) all)
drains (shown ∷ results) capacity queue (pushing n) ok h enough =
    drains results capacity queue receiving ok.1 refl (omega arith)
drains (failed failure ∷ results) capacity queue (pushing n) ok h enough =
    drains results capacity queue receiving ok.1 refl (omega arith)
drains (crashed ∷ results) capacity queue (pushing n) ok h enough = absurd (ok.0 refl)

join-returned :
    (at : Worker) (line : LogLine)
    → at ≡ returned
    → ((join at line).1 ≡ stopped) × (given (join at line).0 ≡ [])
unfolding join
join-returned at line h = rw h (refl, refl)

-- Shutting down a worker that is at work stops it, and gives everything that was queued to the
-- desktop, in order, whether the calls of the desktop succeed or fail: two moves for each queued
-- notification, and at most two more, are enough before the timeout.
pub shutdown_drains :
    (d : NotificationDispatcher) (timeout : Text) (results : List Pushed)
    → at_work d.worker ≡ true
    → All Returns results
    → moves d.worker d.queue ≤ length results
    → ((shutdown_with_timeout d timeout results).1 ≡ stopped)
      × (given (shutdown_with_timeout d timeout results).0 ≡ d.queue)
unfolding shutdown_with_timeout close draining Drained
shutdown_drains d timeout results h ok enough =
    let worked = work_all (close d) results in
    let (end, all) = drains results d.capacity d.queue d.worker ok h enough in
    let (outcome, quiet) = join-returned worked.0.worker (timeout_line timeout) end in
    (
      outcome,
      given-append worked.1 (join worked.0.worker (timeout_line timeout)).0
          ∙ ap (λ l. given worked.1 ++ l) quiet
          ∙ append-nil (given worked.1)
          ∙ all,
    )
