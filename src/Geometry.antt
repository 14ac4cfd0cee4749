-- ===== src/Geometry.antt =====
-- cmd/montray-ui/src/window_geometry.rs: `WindowGeometryManager`. What the window answers and what
-- the store does are arguments; what the manager asks of the window is a list of requests.
pub mod Restoring
pub mod Normal
use salmon.Base.{
  ℕ, Bool, true, false, not, ◌&&◌, ◌||◌, Option, none, some, is_some, List, [], ◌∷◌, ◌++◌, ◌==◌,
  ltb, if◌then◌else◌,
}
use salmon.Base.Int.{ℤ, eq_ℤ}
use salmon.Base.Results.{Result, ok, err}
use salmon.Persistence.{WindowGeometry, as_normal}

-- the Winit window, where there is one
pub record Native : Type 0 where
  pub maximized : Bool
  pub fullscreen : Bool
  pub outer_position : Option (ℤ × ℤ)
  pub inner_size : ℕ × ℕ

pub record Window : Type 0 where
  pub native : Option Native
  pub maximized : Bool
  pub fullscreen : Bool
  pub visible : Bool

pub record Manager : Type 0 where
  pub last_normal : Option WindowGeometry
  pub last_persisted : Option WindowGeometry
  pub pending_show : Option WindowGeometry

pub data WindowRequest : Type 0 where
  set_maximized : Bool → WindowRequest
  set_bounds : WindowGeometry → WindowRequest
  show : WindowRequest
  hide : WindowRequest
  request_redraw : WindowRequest

pub data Failure : Type 0 where
  not_saved not_shown not_hidden : Failure

pub data WindowEvent : Type 0 where
  redraw_requested moved resized other : WindowEvent

abbrev pub normal_of : Option WindowGeometry → Option WindowGeometry
normal_of none = none
normal_of (some geometry) = some (as_normal geometry)

unfoldable pub new : Option WindowGeometry → Manager
new saved = record { last_normal = normal_of saved; last_persisted = saved; pending_show = saved }

unfoldable pub apply_window_geometry : WindowGeometry → List WindowRequest
apply_window_geometry geometry =
    if geometry.width == 0 || geometry.height == 0 then [] else set_bounds geometry ∷ []

unfoldable pub is_normal_window_state : Bool → Bool → Bool
is_normal_window_state maximized fullscreen = not maximized && not fullscreen

abbrev pub native_display_state : Window → Option Native → Bool × Bool
native_display_state window none = (window.maximized, window.fullscreen)
native_display_state window (some native) = (native.maximized, native.fullscreen)

-- the bounds of a window in its normal state
unfoldable pub observed : Native → Option (ℤ × ℤ) → Option WindowGeometry
observed native none = none
observed native (some position) =
    if native.maximized
      || native.fullscreen
      || not (ltb 0 native.inner_size.0 && ltb 0 native.inner_size.1)
    then none
    else some (record {
      x = position.0;
      y = position.1;
      width = native.inner_size.0;
      height = native.inner_size.1;
      maximized = false;
    })

abbrev pub observed_of : Option Native → Option WindowGeometry
observed_of none = none
observed_of (some native) = observed native native.outer_position

abbrev pub remember : Manager → Option WindowGeometry → Manager
remember manager none = manager
remember manager (some geometry) = record manager { last_normal = some geometry }

unfoldable pub observe_winit_window : Manager → Window → Manager
observe_winit_window manager window = remember manager (observed_of window.native)

abbrev pub with_display : Bool → Option WindowGeometry → Option WindowGeometry
with_display maximized none = none
with_display maximized (some geometry) = some (record geometry { maximized = maximized })

unfoldable pub capture_placement : Manager → Window → Manager × Option WindowGeometry
capture_placement manager window =
    let (maximized, fullscreen) = native_display_state window window.native in
    let seen =
      if is_normal_window_state maximized fullscreen
      then observe_winit_window manager window
      else manager in
    (seen, with_display maximized seen.last_normal)

-- derived equality
abbrev same_flag : Bool → Bool → Bool
same_flag true b = b
same_flag false b = not b

unfoldable pub same_geometry : WindowGeometry → WindowGeometry → Bool
same_geometry a b =
    eq_ℤ a.x b.x
    && (eq_ℤ a.y b.y
        && (a.width == b.width && (a.height == b.height && same_flag a.maximized b.maximized)))

abbrev pub is_persisted : Option WindowGeometry → WindowGeometry → Bool
is_persisted none placement = false
is_persisted (some persisted) placement = same_geometry persisted placement

-- `saves` says whether the store takes the placement
unfoldable pub persist :
    Manager → Option WindowGeometry → Bool → Manager × Result Failure (Unit {0})
persist manager none saves = (manager, ok tt)
persist manager (some placement) saves =
    if is_persisted manager.last_persisted placement
    then (manager, ok tt)
    else if saves
    then (record manager { last_persisted = some placement }, ok tt)
    else (manager, err not_saved)

-- in front of the `show` of the window
unfoldable pub prepare_show : Manager → Option WindowGeometry → Manager × List WindowRequest
prepare_show manager none = (manager, [])
prepare_show manager (some placement) = (
  record manager { last_normal = some (as_normal placement) },
  set_maximized false ∷ apply_window_geometry placement,
)

unfoldable pub show_window :
    Manager → Bool → Manager × List WindowRequest × Result Failure (Unit {0})
show_window manager shows =
    let (prepared, requests) = prepare_show manager manager.pending_show in
    let redraw = if is_some prepared.pending_show then request_redraw ∷ [] else [] in
    if shows
    then (prepared, requests ++ (show ∷ redraw), ok tt)
    else (prepared, requests ++ (show ∷ []), err not_shown)

abbrev pub is_maximized : Option WindowGeometry → Bool
is_maximized none = false
is_maximized (some placement) = placement.maximized

abbrev pub apply_last_normal : Option WindowGeometry → List WindowRequest
apply_last_normal none = []
apply_last_normal (some geometry) = apply_window_geometry geometry

unfoldable pub hide_window :
    Manager → Window → Bool → Bool → Manager × List WindowRequest × Result Failure (Unit {0})
hide_window manager window saves hides =
    let (captured, placement) = capture_placement manager window in
    let (persisted, save_result) = persist captured placement saves in
    let hidden = record persisted { pending_show = placement } in
    let rest =
      if is_maximized placement
      then set_maximized false ∷ apply_last_normal hidden.last_normal
      else [] in
    if hides then (hidden, hide ∷ rest, save_result) else (hidden, hide ∷ [], err not_hidden)

unfoldable pub save : Manager → Window → Bool → Manager × Result Failure (Unit {0})
save manager window saves =
    let (captured, placement) = capture_placement manager window in persist captured placement saves

-- what an event does when no placement is restored by it
abbrev pub observe_event : Manager → Window → WindowEvent → Manager
observe_event manager window moved =
    if is_some manager.pending_show then manager else observe_winit_window manager window
observe_event manager window resized =
    if is_some manager.pending_show then manager else observe_winit_window manager window
observe_event manager window event = manager

unfoldable pub restore : Manager → Option WindowGeometry → Manager × List WindowRequest
restore manager none = (manager, [])
restore manager (some placement) = (
  record manager { pending_show = none },
  set_maximized false
      ∷ (apply_window_geometry placement ++ (set_maximized placement.maximized ∷ [])),
)

unfoldable pub handle_winit_event : Manager → Window → WindowEvent → Manager × List WindowRequest
handle_winit_event manager window redraw_requested =
    if window.visible then restore manager manager.pending_show else (manager, [])
handle_winit_event manager window event = (observe_event manager window event, [])
