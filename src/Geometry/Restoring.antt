-- ===== src/Geometry/Restoring.antt =====
-- window_geometry.rs: a window that was hidden comes back as it was.
use salmon.Base.{
  ltb, ◌⊎◌, inl, inr, sym, ◌||◌, ◌<◌, ◌≡◌, ◌∙◌, ap, refl, Bool, true, false, Option, none, some,
  List, [], ◌∷◌, ◌++◌, if◌then◌else◌, arith, All,
}
use salmon.Persistence.{WindowGeometry, as_normal}
use salmon.Geometry.Normal.{ShowsNormal}
use salmon.Geometry.{
  Native, with_display, observed, observe_winit_window, is_normal_window_state, Window, Manager,
  normal_of, WindowEvent, redraw_requested, moved, resized, other, set_maximized,
  apply_window_geometry, capture_placement, prepare_show, show_window, hide_window, restore,
  handle_winit_event,
}

-- an event in front of the first redraw
abbrev pub IsEarly : Window × WindowEvent → Type 0
IsEarly (window, redraw_requested) = window.visible ≡ false
IsEarly (window, event) = Unit

unfoldable pub settle : Manager → List (Window × WindowEvent) → Manager
settle manager [] = manager
settle manager ((window, event) ∷ events) =
    settle (handle_winit_event manager window event).0 events

early_same :
    (manager : Manager) (placement : WindowGeometry) (window : Window) (event : WindowEvent)
    → manager.pending_show ≡ some placement
    → IsEarly (window, event)
    → (handle_winit_event manager window event).0 ≡ manager
unfolding handle_winit_event
early_same manager placement window redraw_requested h k = rw (k, handle_winit_event) refl
early_same manager placement window moved h k = ground arith
early_same manager placement window resized h k = ground arith
early_same manager placement window other h k = refl

settle_same :
    (events : List (Window × WindowEvent)) (manager : Manager) (placement : WindowGeometry)
    → manager.pending_show ≡ some placement
    → All IsEarly events
    → settle manager events ≡ manager
unfolding settle
settle_same [] manager placement h k = refl
settle_same ((window, event) ∷ events) manager placement h k =
    rw (early_same manager placement window event h k.0)
      (settle_same events manager placement h k.1)

pending-hide :
    (manager : Manager) (window : Window) (saves : Bool)
    → (hide_window manager window saves true).0.pending_show ≡ (capture_placement manager window).1
unfolding hide_window
pending-hide manager window saves = refl

prepare_pending :
    (manager : Manager) (pending : Option WindowGeometry) (placement : WindowGeometry)
    → manager.pending_show ≡ some placement
    → pending ≡ some placement
    → ((prepare_show manager pending).0.pending_show ≡ some placement)
      × ((prepare_show manager pending).0.last_normal ≡ some (as_normal placement))
unfolding prepare_show
prepare_pending manager none placement h k = cc
prepare_pending manager (some other_placement) placement h k = (h, ap (λ o. normal_of o) k)

show_pending :
    (manager : Manager) (placement : WindowGeometry)
    → manager.pending_show ≡ some placement
    → ((show_window manager true).0.pending_show ≡ some placement)
      × ((show_window manager true).0.last_normal ≡ some (as_normal placement))
unfolding show_window
show_pending manager placement h = prepare_pending manager manager.pending_show placement h h

if_visible :
    {A : Type 0} (visible : Bool) (a b : A) → visible ≡ true → (if visible then a else b) ≡ a
if_visible true a b h = refl
if_visible false a b h = cc

restore_pending :
    (manager : Manager) (placement : WindowGeometry) (window : Window)
    → manager.pending_show ≡ some placement
    → window.visible ≡ true
    → handle_winit_event manager window redraw_requested ≡ restore manager (some placement)
unfolding handle_winit_event
restore_pending manager placement window h visible =
    if_visible window.visible (restore manager manager.pending_show) (manager, []) visible
    ∙ ap (restore manager) h

-- How a window stands, with the bounds that it has in its normal state: it is in that state, or it
-- is maximized or fullscreen and those are the last ones that the manager keeps.
abbrev pub Stands : Manager → Window → WindowGeometry → Type 0
Stands manager window placement =
    ShowsNormal window placement
    ⊎ ((native : Native) × (window.native ≡ some native)
        × ((native.maximized || native.fullscreen) ≡ true)
        × (manager.last_normal ≡ some (as_normal placement))
        × (placement.maximized ≡ native.maximized))

normal_is_captured :
    (manager : Manager) (window : Window) (native : Native) (placement : WindowGeometry)
    → window.native ≡ some native
    → native.maximized ≡ false
    → native.fullscreen ≡ false
    → native.outer_position ≡ some (placement.x, placement.y)
    → native.inner_size ≡ (placement.width, placement.height)
    → 0 < placement.width
    → 0 < placement.height
    → placement.maximized ≡ false
    → (capture_placement manager window).1 ≡ some placement
unfolding capture_placement is_normal_window_state observe_winit_window observed
normal_is_captured manager window native placement h m f p z w l n =
    let wide : ltb 0 placement.width ≡ true = ground arith in
    let high : ltb 0 placement.height ≡ true = ground arith in
    rw (h, m, f, p, z, wide, high) (ap (λ b. some (record placement { maximized = b })) (sym n))

display_of :
    (maximized : Bool) (last : Option WindowGeometry) (placement : WindowGeometry)
    → last ≡ some (as_normal placement)
    → placement.maximized ≡ maximized
    → with_display maximized last ≡ some placement
unfolding as_normal
display_of maximized last placement h e =
    ap (with_display maximized) h ∙ ap (λ m. some (record placement { maximized = m })) (sym e)

display_is_captured :
    (manager : Manager) (window : Window) (native : Native) (placement : WindowGeometry)
    → window.native ≡ some native
    → (native.maximized || native.fullscreen) ≡ true
    → manager.last_normal ≡ some (as_normal placement)
    → placement.maximized ≡ native.maximized
    → (capture_placement manager window).1 ≡ some placement
unfolding capture_placement is_normal_window_state
display_is_captured manager window native placement h d last e =
    let displayed : is_normal_window_state native.maximized native.fullscreen ≡ false =
      ground arith in
    rw (h, displayed) (display_of native.maximized manager.last_normal placement last e)

Stands-captured :
    (manager : Manager) (window : Window) (placement : WindowGeometry)
    → Stands manager window placement
    → (capture_placement manager window).1 ≡ some placement
Stands-captured manager window placement (inl (native, h, m, f, p, z, w, l, n)) =
    normal_is_captured manager window native placement h m f p z w l n
Stands-captured manager window placement (inr (native, h, d, last, e)) =
    display_is_captured manager window native placement h d last e

-- A window that is hidden and shown again comes back at its first visible redraw as it stood: it is
-- asked for the bounds of its normal state and is maximized exactly if it was; these are the normal
-- bounds that are kept, and nothing is left to restore. Moves, resizes and hidden redraws in between,
-- which showing it causes, do not change that. A maximized or fullscreen window must have been in
-- its normal state before, or have been saved.
pub hidden_comes_back :
    (manager : Manager) (window later : Window) (saves : Bool) (placement : WindowGeometry)
    (early : List (Window × WindowEvent))
    → Stands manager window placement
    → All IsEarly early
    → later.visible ≡ true
    → let hidden = (hide_window manager window saves true).0 in
      let (restored, requests) =
        handle_winit_event (settle (show_window hidden true).0 early) later redraw_requested in
      (restored.last_normal ≡ some (as_normal placement))
      × (restored.pending_show ≡ none)
      × (requests
          ≡ set_maximized false
            ∷ (apply_window_geometry placement ++ (set_maximized placement.maximized ∷ [])))
unfolding restore
hidden_comes_back manager window later saves placement early h quiet visible =
    let hidden = (hide_window manager window saves true).0 in
    let (pending, normal) =
      show_pending hidden placement
        (pending-hide manager window saves ∙ Stands-captured manager window placement h) in
    rw (settle_same early (show_window hidden true).0 placement pending quiet) (
      rw (restore_pending (show_window hidden true).0 placement later pending visible)
        (normal, refl, refl))
