-- ===== src/Tray/Flash/Cadence.antt =====
-- tray.rs: the frames of a cycle.
use salmon.Base.{
  ℕ, Bool, true, false, not, Option, none, some, List, [], ◌∷◌, ◌≡◌, refl, ap, ◌∙◌, arith,
  if◌then◌else◌, Bool-cases, inl, inr, All, ==_iff,
}
use salmon.Tray.{
  OverallState, TrayState, TrayIconIdentity, unknown_icon, known_icon, icon_identity, is_flashing,
}
use salmon.Tray.Flash.{
  FlashCycle, FlashState, code_of, same_overlay, same_identity, shows, apply, tick, next_generation,
}
use salmon.Tray.Flash.Cycles.{Call, applied, ticked}

abbrev pub shown : Option Bool → List Bool → List Bool
shown none rest = rest
shown (some solid) rest = solid ∷ rest

-- the answers that the timers get
unfoldable pub frames : FlashState → List Call → List Bool
frames current [] = []
frames current (applied state ∷ calls) = frames (apply current state).0 calls
frames current (ticked cycle ∷ calls) =
    shown (tick current cycle).1 (frames (tick current cycle).0 calls)

-- one frame for each timer, the icon and the transparent image in turn
unfoldable pub alternating : Bool → List Call → List Bool
alternating solid [] = []
alternating solid (applied state ∷ calls) = alternating solid calls
alternating solid (ticked cycle ∷ calls) = solid ∷ alternating (not solid) calls

-- Calls that belong to one icon: renderings of the same identity, and the cycle's own timer.
abbrev pub Keeps : TrayState → ℕ → Call → Type 0
Keeps state generation (applied later) = icon_identity later ≡ icon_identity state
Keeps state generation (ticked cycle) = cycle.generation ≡ generation

same_overlay_refl : (overlay : Option OverallState) → same_overlay overlay overlay ≡ true
same_overlay_refl none = refl
same_overlay_refl (some state) = (==_iff (code_of state) (code_of state)).1 refl

same_identity_refl : (icon : TrayIconIdentity) → same_identity icon icon ≡ true
unfolding same_identity
same_identity_refl (unknown_icon n k overlay) = ground (arith, same_overlay_refl overlay)
same_identity_refl (known_icon state overlay) = ground (arith, same_overlay_refl overlay)

-- the state of the controller within a cycle
cycle_state : TrayState → ℕ → Bool → FlashState
cycle_state state generation solid = record {
  icon = some (icon_identity state);
  flashing = is_flashing state;
  showing_solid = solid;
  generation = generation;
}

apply_same :
    (state later : TrayState) (generation : ℕ) (solid : Bool)
    → icon_identity later ≡ icon_identity state
    → (apply (cycle_state state generation solid) later).0 ≡ cycle_state state generation solid
unfolding apply shows cycle_state
apply_same state later generation solid e = ground (arith, same_identity_refl (icon_identity state))

tick_flashing :
    (state : TrayState) (generation : ℕ) (cycle : FlashCycle) (solid : Bool)
    → is_flashing state ≡ true
    → cycle.generation ≡ generation
    → tick (cycle_state state generation solid) cycle
      ≡ (cycle_state state generation (not solid), some (not solid))
unfolding tick cycle_state
tick_flashing state generation cycle solid h e = ground arith

tick_still :
    (state : TrayState) (generation : ℕ) (cycle : FlashCycle) (solid : Bool)
    → is_flashing state ≡ false
    → tick (cycle_state state generation solid) cycle ≡ (cycle_state state generation solid, none)
unfolding tick cycle_state
tick_still state generation cycle solid h = ground arith

frames_flashing :
    (state : TrayState) (generation : ℕ) (calls : List Call) (solid : Bool)
    → is_flashing state ≡ true
    → All (Keeps state generation) calls
    → frames (cycle_state state generation solid) calls ≡ alternating (not solid) calls
unfolding frames alternating
frames_flashing state generation [] solid h k = refl
frames_flashing state generation (applied later ∷ calls) solid h k =
    rw (apply_same state later generation solid k.0)
      (frames_flashing state generation calls solid h k.1)
frames_flashing state generation (ticked cycle ∷ calls) solid h k =
    on_tick (tick_flashing state generation cycle solid h k.0)
      (frames_flashing state generation calls (not solid) h k.1)
  where
    on_tick :
        tick (cycle_state state generation solid) cycle
          ≡ (cycle_state state generation (not solid), some (not solid))
        → frames (cycle_state state generation (not solid)) calls
          ≡ alternating (not (not solid)) calls
        → frames (cycle_state state generation solid) (ticked cycle ∷ calls)
          ≡ not solid ∷ alternating (not (not solid)) calls
    on_tick e rest = ap (λ r. shown r.1 (frames r.0 calls)) e ∙ ap (λ later. not solid ∷ later) rest

frames_still :
    (state : TrayState) (generation : ℕ) (calls : List Call) (solid : Bool)
    → is_flashing state ≡ false
    → All (Keeps state generation) calls
    → frames (cycle_state state generation solid) calls ≡ []
unfolding frames
frames_still state generation [] solid h k = refl
frames_still state generation (applied later ∷ calls) solid h k =
    rw (apply_same state later generation solid k.0)
      (frames_still state generation calls solid h k.1)
frames_still state generation (ticked cycle ∷ calls) solid h k =
    on_tick (tick_still state generation cycle solid h)
      (frames_still state generation calls solid h k.1)
  where
    on_tick :
        tick (cycle_state state generation solid) cycle ≡ (cycle_state state generation solid, none)
        → frames (cycle_state state generation solid) calls ≡ []
        → frames (cycle_state state generation solid) (ticked cycle ∷ calls) ≡ []
    on_tick e rest = ap (λ r. shown r.1 (frames r.0 calls)) e ∙ rest

frames_cycle :
    (state : TrayState) (generation : ℕ) (calls : List Call)
    → All (Keeps state generation) calls
    → frames (cycle_state state generation true) calls
      ≡ (if is_flashing state then alternating false calls else [])
frames_cycle state generation calls k = elim (Bool-cases (is_flashing state)) [
  | inl h ↦ rw h (frames_flashing state generation calls true h k)
  | inr h ↦ rw h (frames_still state generation calls true h k)
]

-- A new icon starts a cycle of the next generation. From then on, as long as every rendering has
-- the same identity, whatever its counts, the cycle's timers show the transparent image and the
-- icon in turn, beginning with the transparent image, and renderings never break the turn. For a
-- state that does not flash the timers get no answer.
pub steady_cadence :
    (current : FlashState) (state : TrayState) (calls : List Call)
    → shows current (icon_identity state) ≡ false
    → All (Keeps state (next_generation current.generation)) calls
    → ((apply current state).1 ≡ some (record { generation = next_generation current.generation }))
      × (frames (apply current state).0 calls
          ≡ (if is_flashing state then alternating false calls else []))
unfolding apply cycle_state
steady_cadence current state calls new k =
    rw new (refl, frames_cycle state (next_generation current.generation) calls k)
