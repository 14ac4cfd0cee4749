-- ===== src/Notifications/Turns.antt =====
-- notification.rs: what one turn of the two threads takes in and gives out.
use salmon.Base.{
  ◌⊎◌, inl, inr, ◌≤◌, true, false, List, [], ◌∷◌, ◌++◌, ◌≡◌, ◌≢◌, refl, sym, ap, ◌∙◌, arith, ltb,
  length, length-append, append-nil, if_rule, ltb→lt,
}
use salmon.Notifications.{
  NotificationDispatcher, QueuedNotification, queued, dropped, unavailable, Worker, receiving,
  pushing, returned, panicked, answered, pushed, logged, Outputs, Pushed, shown, failed, crashed,
  Turn, enqueue, drop, worker, enqueue_inner, close, receive, after_push, work_at, take_turn,
  receiver_gone,
}

-- the notifications that `enqueue` took
abbrev pub accepted : Outputs → List QueuedNotification
accepted [] = []
accepted (answered n queued ∷ rest) = n ∷ accepted rest
accepted (answered n dropped ∷ rest) = accepted rest
accepted (answered n unavailable ∷ rest) = accepted rest
accepted (pushed n ∷ rest) = accepted rest
accepted (logged line ∷ rest) = accepted rest

-- those that the worker gave to the desktop
abbrev pub given : Outputs → List QueuedNotification
given [] = []
given (answered n outcome ∷ rest) = given rest
given (pushed n ∷ rest) = n ∷ given rest
given (logged line ∷ rest) = given rest

pub given-append : (xs ys : Outputs) → given (xs ++ ys) ≡ given xs ++ given ys
given-append [] ys = refl
given-append (answered n outcome ∷ xs) ys = given-append xs ys
given-append (pushed n ∷ xs) ys = ap (λ l. n ∷ l) (given-append xs ys)
given-append (logged line ∷ xs) ys = given-append xs ys

pub accepted-append : (xs ys : Outputs) → accepted (xs ++ ys) ≡ accepted xs ++ accepted ys
accepted-append [] ys = refl
accepted-append (answered n queued ∷ xs) ys = ap (λ l. n ∷ l) (accepted-append xs ys)
accepted-append (answered n dropped ∷ xs) ys = accepted-append xs ys
accepted-append (answered n unavailable ∷ xs) ys = accepted-append xs ys
accepted-append (pushed n ∷ xs) ys = accepted-append xs ys
accepted-append (logged line ∷ xs) ys = accepted-append xs ys

-- What a turn takes in stands behind what it gives out.
Balanced : NotificationDispatcher → NotificationDispatcher × Outputs → Type 0
Balanced d done =
    (d.queue ++ accepted done.1 ≡ given done.1 ++ done.0.queue)
    × (done.0.capacity ≡ d.capacity)
    × (length d.queue ≤ d.capacity → length done.0.queue ≤ d.capacity)

enqueue-Balanced :
    (d : NotificationDispatcher) (n : QueuedNotification) → Balanced d (enqueue_inner d n)
unfolding Balanced enqueue_inner
enqueue-Balanced d n =
    if_rule (Balanced d) d.sender _ _
      (λ open_.
        if_rule (Balanced d) (receiver_gone d.worker) _ _
          (λ gone. (append-nil d.queue, refl, λ h. h))
          (λ there.
            if_rule (Balanced d) (ltb (length d.queue) d.capacity) _ _
              (λ fits. (
                refl,
                refl,
                λ h. omega (
                  arith,
                  length-append d.queue (n ∷ []),
                  ltb→lt (length d.queue) d.capacity fits,
                ),
              ))
              (λ full. (append-nil d.queue, refl, λ h. h))))
      (λ closed. (append-nil d.queue, refl, λ h. h))

receive-Balanced :
    (d : NotificationDispatcher) (queue : List QueuedNotification)
    → d.queue ≡ queue
    → Balanced d (receive d queue)
unfolding Balanced receive
receive-Balanced d [] e =
    if_rule (Balanced d) d.sender _ _ (λ open_. (append-nil d.queue, refl, λ h. h))
      (λ closed. (append-nil d.queue, refl, λ h. h))
receive-Balanced d (n ∷ rest) e = (append-nil d.queue ∙ e, refl, λ h. omega (arith, h, ap length e))

unchanged-Balanced : (d : NotificationDispatcher) → Balanced d (d, [])
unfolding Balanced
unchanged-Balanced d = (append-nil d.queue, refl, λ h. h)

close-Balanced : (d : NotificationDispatcher) → Balanced d (close d, [])
unfolding Balanced close
close-Balanced d = (append-nil d.queue, refl, λ h. h)

-- What a turn does: it is balanced, or the worker is at its end by a panic, and nothing is taken in
-- or given out.
unfoldable pub Turned : NotificationDispatcher → NotificationDispatcher × Outputs → Type 0
Turned d done =
    (done.0.capacity ≡ d.capacity)
    × (length d.queue ≤ d.capacity → length done.0.queue ≤ d.capacity)
    × (((d.worker ≢ panicked) × (d.queue ++ accepted done.1 ≡ given done.1 ++ done.0.queue))
        ⊎ ((accepted done.1 ≡ []) × (given done.1 ≡ []) × (done.0.worker ≡ panicked)))

Balanced-Turned :
    (d : NotificationDispatcher) (done : NotificationDispatcher × Outputs)
    → d.worker ≢ panicked
    → Balanced d done
    → Turned d done
unfolding Balanced Turned
Balanced-Turned d done there (e, same, bound) = (same, bound, inl (there, e))

panicked_enqueue :
    (d : NotificationDispatcher) (n : QueuedNotification)
    → d.worker ≡ panicked
    → Turned d (enqueue_inner d n)
unfolding enqueue_inner Turned
panicked_enqueue d n h =
    if_rule (Turned d) d.sender _ _
      (λ open_.
        if_rule (Turned d) (receiver_gone d.worker) _ _
          (λ gone. (refl, λ k. k, inr (refl, refl, h)))
          (λ there. absurd (still_there (sym (ap receiver_gone h) ∙ there))))
      (λ closed. (refl, λ k. k, inr (refl, refl, h)))
  where
    still_there : true ≡ false → ⊥
    still_there e = cc

work-Turned :
    (at : Worker) (d : NotificationDispatcher) (result : Pushed)
    → d.worker ≡ at
    → Turned d (work_at at d result)
unfolding work_at after_push Turned
work-Turned receiving d result e = Balanced-Turned d _ (λ h. cc) (receive-Balanced d d.queue refl)
work-Turned (pushing n) d shown e = (refl, λ h. h, inl (λ h. cc, append-nil d.queue))
work-Turned (pushing n) d (failed failure) e = (refl, λ h. h, inl (λ h. cc, append-nil d.queue))
work-Turned (pushing n) d crashed e = (refl, λ h. omega arith, inr (refl, refl, refl))
work-Turned returned d result e = Balanced-Turned d _ (λ h. cc) (unchanged-Balanced d)
work-Turned panicked d result e = (refl, λ h. h, inr (refl, refl, e))

worker_cases : (at : Worker) → (at ≡ panicked) ⊎ (at ≢ panicked)
worker_cases receiving = inr (λ h. cc)
worker_cases (pushing n) = inr (λ h. cc)
worker_cases returned = inr (λ h. cc)
worker_cases panicked = inl refl

pub turn-Turned : (d : NotificationDispatcher) (turn : Turn) → Turned d (take_turn d turn)
unfolding take_turn close Turned
turn-Turned d (worker result) = work-Turned d.worker d result refl
turn-Turned d (enqueue n) = elim (worker_cases d.worker) [
  | inl gone ↦ panicked_enqueue d n gone
  | inr there ↦ Balanced-Turned d _ there (enqueue-Balanced d n)
]
turn-Turned d drop = elim (worker_cases d.worker) [
  | inl gone ↦ closed gone
  | inr there ↦ Balanced-Turned d _ there (close-Balanced d)
]
  where
    closed : d.worker ≡ panicked → Turned d (close d, [])
    closed gone = (refl, λ h. h, inr (refl, refl, gone))
