-- ===== src/Tray/Flash/Cycles.antt =====
-- tray.rs: timers of an icon that was replaced.
use salmon.Base.{
  ℕ, ◌+◌, ◌%◌, ◌^◌, ◌<◌, false, none, List, [], ◌∷◌, ◌≡◌, arith, if◌then◌else◌, Bool-cases, inl,
  inr,
}
use salmon.Tray.{TrayState, icon_identity}
use salmon.Tray.Flash.{FlashCycle, FlashState, shows, apply, tick, is_active}

-- A call of the controller, by the event loop or by a timer.
pub data Call : Type 0 where
  applied : TrayState → Call
  ticked : FlashCycle → Call

unfoldable pub called : FlashState → Call → FlashState
called current (applied state) = (apply current state).0
called current (ticked cycle) = (tick current cycle).0

unfoldable pub run : FlashState → List Call → FlashState
run current [] = current
run current (call ∷ calls) = run (called current call) calls

-- how many cycles a call starts
unfoldable pub starts : FlashState → Call → ℕ
starts current (applied state) = if shows current (icon_identity state) then 0 else 1
starts current (ticked cycle) = 0

unfoldable pub started : FlashState → List Call → ℕ
started current [] = 0
started current (call ∷ calls) = starts current call + started (called current call) calls

generation-called :
    (current : FlashState) (call : Call)
    → current.generation < 2 ^ 64
    → (called current call).generation ≡ (current.generation + starts current call) % 2 ^ 64
unfolding called starts apply tick
generation-called current (applied state) h =
    elim (Bool-cases (shows current (icon_identity state))) [
      | inl same ↦ rw same (ground arith)
      | inr new ↦ rw new (ground arith)
    ]
generation-called current (ticked cycle) h = ground arith

generation-run :
    (current : FlashState) (calls : List Call)
    → current.generation < 2 ^ 64
    → (run current calls).generation ≡ (current.generation + started current calls) % 2 ^ 64
unfolding run started
generation-run current [] h = omega arith
generation-run current (call ∷ calls) h =
    let e = generation-called current call h in
    let bound : (called current call).generation < 2 ^ 64 = omega (arith, e) in
    omega (arith, e, generation-run (called current call) calls bound)

-- A timer of the cycle that was current does nothing any more once the icon has changed: it gets
-- no answer, the state stays as it is, and the cycle is not active. This is so for any calls in
-- between, as long as they start at least one cycle and fewer than 2^64.
pub obsolete_cycle :
    (current : FlashState) (calls : List Call)
    → current.generation < 2 ^ 64
    → 0 < started current calls
    → started current calls < 2 ^ 64
    → (tick (run current calls) (record { generation = current.generation })
        ≡ (run current calls, none))
      × (is_active (run current calls) (record { generation = current.generation }) ≡ false)
unfolding tick is_active
obsolete_cycle current calls bound some_new not_all =
    ground (arith, generation-run current calls bound)
