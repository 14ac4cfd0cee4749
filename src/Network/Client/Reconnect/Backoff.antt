-- ===== src/Network/Client/Reconnect/Backoff.antt =====
-- network/client.rs: the delays between connection attempts.
use salmon.Base.{
  ℕ, zero, suc, ◌+◌, ◌*◌, ◌<◌, min, ◌≡◌, ◌∙◌, ap, refl, Bool, true, false, ◌&&◌, some, List, [],
  ◌∷◌, ◌++◌, sym, ◌==◌, if◌then◌else◌, Bool-cases, inl, inr, arith, All, length,
}
use salmon.Network.Client.Session.{ClientOptions}
use salmon.Network.Client.Reconnect.{
  Action, wait, dial, send, Client, Round, Dialed, established, refused, timed_out, stopped, report,
  on_dialed, attempt, run_round, connection_loop, next_delay,
}

-- the delay after a number of failures in a row
abbrev pub backoff : ClientOptions → ℕ → ℕ
backoff options failures = min (failures * options.reconnect_step) options.max_reconnect_delay

if_true : {A : Type 0} (test : Bool) (a b : A) → test ≡ true → (if test then a else b) ≡ a
if_true test a b h = rw h refl

capped_sum : (a step limit : ℕ) → min (min a limit + step) limit ≡ min (a + step) limit
capped_sum a step limit = ground arith

suc_times : (n step : ℕ) → suc n * step ≡ n * step + step
suc_times n step = omega arith

next_delay-backoff :
    (options : ClientOptions) (failures : ℕ)
    → next_delay options (backoff options failures) ≡ backoff options (suc failures)
unfolding next_delay
next_delay-backoff options failures =
    capped_sum (failures * options.reconnect_step) _ _
    ∙ ap (λ total. min total options.max_reconnect_delay)
        (sym (suc_times failures options.reconnect_step))

first_delay : (options : ClientOptions) → next_delay options 0 ≡ backoff options 1
unfolding next_delay
first_delay options = ground arith

-- the delays in a run
abbrev pub waits : List Action → List ℕ
waits [] = []
waits (wait delay ∷ actions) = delay ∷ waits actions
waits (dial ∷ actions) = waits actions
waits (send event ∷ actions) = waits actions

waits-append : (first second : List Action) → waits (first ++ second) ≡ waits first ++ waits second
waits-append [] second = refl
waits-append (wait delay ∷ first) second = cc (waits-append first second)
waits-append (dial ∷ first) second = waits-append first second
waits-append (send event ∷ first) second = waits-append first second

-- `count` delays, from the one after `failures` failures on
abbrev pub backoffs : ClientOptions → ℕ → ℕ → List ℕ
backoffs options failures zero = []
backoffs options failures (suc count) =
    backoff options failures ∷ backoffs options (suc failures) count

abbrev pub IsFailure : Dialed → Type 0
IsFailure (refused error) = Unit
IsFailure timed_out = Unit
IsFailure stopped = ⊥
IsFailure established = ⊥

module _ (client : Client) where
  -- a round whose attempt fails, and that the shutdown and the tunnel do not cut short
  abbrev pub Fails : Round → Type 0
  Fails round =
      (round.slept ≡ true) × IsFailure round.dialed × (client.tunneled && round.settled ≡ false)

  dialed_fails :
      (round : Round) (delay : ℕ) (dialed : Dialed)
      → IsFailure dialed
      → client.tunneled && round.settled ≡ false
      → ((on_dialed client round delay dialed).1 ≡ some (next_delay client.options delay))
        × (waits (on_dialed client round delay dialed).0 ≡ [])
  unfolding on_dialed report
  dialed_fails round delay (refused error) f h = rw (h) (refl, refl)
  dialed_fails round delay timed_out f h = rw (h) (refl, refl)
  dialed_fails round delay stopped f h = absurd f
  dialed_fails round delay established f h = absurd f

  attempt-Fails :
      (round : Round) (delay : ℕ)
      → Fails round
      → ((attempt client round delay).1 ≡ some (next_delay client.options delay))
        × (waits (attempt client round delay).0 ≡ [])
  unfolding attempt
  attempt-Fails round delay (slept, f, h) = dialed_fails round delay round.dialed f h

  -- the wait of a round: none in front of the first attempt
  wait_of : ℕ → List ℕ
  wait_of delay = if delay == 0 then [] else delay ∷ []

  wait_of_positive : (delay : ℕ) → 0 < delay → wait_of delay ≡ delay ∷ []
  unfolding wait_of
  wait_of_positive delay h = ground arith

  round-Fails :
      (round : Round) (delay : ℕ)
      → Fails round
      → ((run_round client round delay).1 ≡ some (next_delay client.options delay))
        × (waits (run_round client round delay).0 ≡ wait_of delay)
  unfolding run_round wait_of
  round-Fails round delay h =
      let (next, quiet) = attempt-Fails round delay h in
      elim (Bool-cases (delay == 0)) [
        | inl e ↦ rw (e, run_round) (next, quiet)
        | inr e ↦
            rw (e, run_round) (rw (if_true round.slept _ _ h.0) (next, ap (λ ws. delay ∷ ws) quiet))
      ]

  loop_step :
      (round : Round) (rounds : List Round) (delay : ℕ)
      → Fails round
      → waits (connection_loop client delay (round ∷ rounds))
        ≡ wait_of delay ++ waits (connection_loop client (next_delay client.options delay) rounds)
  unfolding connection_loop
  loop_step round rounds delay h =
      let (next, waited) = round-Fails round delay h in
      rw (next, connection_loop)
        (waits-append (run_round client round delay).0 _
          ∙ ap (λ ws. ws ++ waits (connection_loop client (next_delay client.options delay) rounds))
              waited)

  module _ (stepped : 0 < client.options.reconnect_step)
      (limited : 0 < client.options.max_reconnect_delay) where
    wait_of-backoff :
        (failures : ℕ)
        → wait_of (backoff client.options (suc failures))
          ≡ backoff client.options (suc failures) ∷ []
    unfolding wait_of
    wait_of-backoff failures =
        wait_of_positive _ (ground (arith, suc_times failures client.options.reconnect_step))

    later_waits :
        (failures : ℕ) (rounds : List Round)
        → All Fails rounds
        → waits (connection_loop client (backoff client.options (suc failures)) rounds)
          ≡ backoffs client.options (suc failures) (length rounds)
    unfolding connection_loop
    later_waits failures [] h = refl
    later_waits failures (round ∷ rounds) h =
        loop_step round rounds (backoff client.options (suc failures)) h.0
        ∙ rw (wait_of-backoff failures, next_delay-backoff client.options (suc failures))
            (ap (λ ws. backoff client.options (suc failures) ∷ ws)
              (later_waits (suc failures) rounds h.1))

    -- While every attempt fails, the first is made at once and the k-th after it waits k steps,
    -- but no longer than the limit, given that the step and the limit are positive.
    pub failures_backoff :
        (round : Round) (rounds : List Round)
        → All Fails (round ∷ rounds)
        → waits (connection_loop client 0 (round ∷ rounds))
          ≡ backoffs client.options 1 (length rounds)
    unfolding wait_of
    failures_backoff round rounds h =
        loop_step round rounds 0 h.0 ∙ rw (first_delay client.options) (later_waits 0 rounds h.1)
