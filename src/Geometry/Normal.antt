-- ===== src/Geometry/Normal.antt =====
-- window_geometry.rs: the bounds that are kept are those of a normal window.
use mathlib.Core.Path.{subst}
use salmon.Base.{
  if_yes, if_no, ◌<◌, not, ◌&&◌, ◌||◌, ltb, All, ap, sym, ◌∙◌, ◌≡◌, refl, Bool, true, false, Option,
  none, some, is_some, List, [], ◌∷◌, if◌then◌else◌, Bool-cases, inl, inr, arith,
}
use salmon.Base.Int.{ℤ}
use salmon.Persistence.{WindowGeometry, as_normal}
use salmon.Geometry.{
  Native, Window, Manager, WindowEvent, redraw_requested, moved, resized, other, new,
  native_display_state, is_normal_window_state, observed, observed_of, remember,
  observe_winit_window, capture_placement, with_display, is_persisted, persist, prepare_show,
  show_window, hide_window, save, restore, handle_winit_event,
}

-- one call of the manager, with what the window and the store answer
pub data Call : Type 0 where
  show_call : Bool → Call
  hide_call : Window → Bool → Bool → Call
  save_call : Window → Bool → Call
  event_call : Window → WindowEvent → Call

unfoldable pub call : Manager → Call → Manager
call manager (show_call shows) = (show_window manager shows).0
call manager (hide_call window saves hides) = (hide_window manager window saves hides).0
call manager (save_call window saves) = (save manager window saves).0
call manager (event_call window event) = (handle_winit_event manager window event).0

unfoldable pub calls : Manager → List Call → Manager
calls manager [] = manager
calls manager (c ∷ cs) = calls (call manager c) cs

-- what a window shows while it is neither maximized nor fullscreen and has an extent
abbrev pub ShowsNormal : Window → WindowGeometry → Type 0
ShowsNormal window bounds =
    (native : Native) × (window.native ≡ some native)
    × (native.maximized ≡ false)
    × (native.fullscreen ≡ false)
    × (native.outer_position ≡ some (bounds.x, bounds.y))
    × (native.inner_size ≡ (bounds.width, bounds.height))
    × (0 < bounds.width)
    × (0 < bounds.height)
    × (bounds.maximized ≡ false)

abbrev pub OnSome : (WindowGeometry → Type 0) → Option WindowGeometry → Type 0
OnSome P none = Unit
OnSome P (some bounds) = P bounds

-- the normal bounds that the window of a call shows have the property
abbrev pub CallShows : (WindowGeometry → Type 0) → Call → Type 0
CallShows P (show_call shows) = Unit
CallShows P (hide_call window saves hides) =
    (bounds : WindowGeometry) → ShowsNormal window bounds → P bounds
CallShows P (save_call window saves) =
    (bounds : WindowGeometry) → ShowsNormal window bounds → P bounds
CallShows P (event_call window event) =
    (bounds : WindowGeometry) → ShowsNormal window bounds → P bounds

bounds_of : Native → ℤ × ℤ → WindowGeometry
bounds_of native position = record {
  x = position.0;
  y = position.1;
  width = native.inner_size.0;
  height = native.inner_size.1;
  maximized = false;
}

observed_shows :
    (window : Window) (native : Native) (position : Option (ℤ × ℤ)) (bounds : WindowGeometry)
    → window.native ≡ some native
    → native.outer_position ≡ position
    → observed native position ≡ some bounds
    → ShowsNormal window bounds
unfolding observed bounds_of
observed_shows window native none bounds h k e = cc
observed_shows window native (some position) bounds h k e =
    elim (Bool-cases (
      native.maximized
      || native.fullscreen
      || not (ltb 0 native.inner_size.0 && ltb 0 native.inner_size.1))) [
        | inl f ↦ absurd (unseen (sym (if_yes _ none _ f) ∙ e))
        | inr f ↦
            let same : bounds_of native position ≡ bounds =
              some_injective (sym (if_no _ none (some (bounds_of native position)) f) ∙ e) in
            subst (ShowsNormal window) same
              (native, h, ground arith, ground arith, k, refl, ground arith, ground arith, refl)
      ]
  where
    unseen : none ≡ some bounds → ⊥
    unseen q = cc

    some_injective : {a b : WindowGeometry} → some a ≡ some b → a ≡ b
    some_injective q = cc

observed_of_shows :
    (window : Window) (bounds : WindowGeometry)
    → observed_of window.native ≡ some bounds
    → ShowsNormal window bounds
observed_of_shows window bounds e = on_native window.native refl e
  where
    on_native :
        (native : Option Native)
        → window.native ≡ native
        → observed_of native ≡ some bounds
        → ShowsNormal window bounds
    on_native none h e = cc
    on_native (some native) h e = observed_shows window native native.outer_position bounds h refl e

-- The bounds that are kept, and those that a shown window gets, have the property and are normal.
abbrev pub IsNormal : (WindowGeometry → Type 0) → Manager → Type 0
IsNormal P manager =
    OnSome (λ g. P g × (g.maximized ≡ false)) manager.last_normal
    × OnSome (λ g. P (as_normal g)) manager.pending_show

as_normal_of : (bounds : WindowGeometry) → bounds.maximized ≡ false → as_normal bounds ≡ bounds
unfolding as_normal
as_normal_of bounds h = ap (λ m. record bounds { maximized = m }) (sym h)

module _ (P : WindowGeometry → Type 0) where
  remember-IsNormal :
      (manager : Manager) (window : Window) (seen : Option WindowGeometry)
      → IsNormal P manager
      → ((bounds : WindowGeometry) → ShowsNormal window bounds → P bounds)
      → observed_of window.native ≡ seen
      → IsNormal P (remember manager seen)
  remember-IsNormal manager window none h k e = h
  remember-IsNormal manager window (some bounds) h k e =
      let shown = observed_of_shows window bounds e in ((k bounds shown, shown.8), h.1)

  module _ (manager : Manager) (h : IsNormal P manager) where
    observe-IsNormal :
        (window : Window)
        → ((bounds : WindowGeometry) → ShowsNormal window bounds → P bounds)
        → IsNormal P (observe_winit_window manager window)
    unfolding observe_winit_window
    observe-IsNormal window k =
        remember-IsNormal manager window (observed_of window.native) h k refl

    capture-IsNormal :
        (window : Window)
        → ((bounds : WindowGeometry) → ShowsNormal window bounds → P bounds)
        → IsNormal P (capture_placement manager window).0
    unfolding capture_placement
    capture-IsNormal window k = go (
        is_normal_window_state (native_display_state window window.native).0
          (native_display_state window window.native).1)
      where
        go : (b : Bool) → IsNormal P (if b then observe_winit_window manager window else manager)
        go true = observe-IsNormal window k
        go false = h

    prepare-IsNormal :
        (placement : Option WindowGeometry)
        → OnSome (λ g. P (as_normal g)) placement
        → IsNormal P (prepare_show manager placement).0
    unfolding prepare_show as_normal
    prepare-IsNormal none k = h
    prepare-IsNormal (some placement) k = ((k, refl), h.1)

    show-IsNormal : (shows : Bool) → IsNormal P (show_window manager shows).0
    unfolding show_window
    show-IsNormal true = prepare-IsNormal manager.pending_show h.1
    show-IsNormal false = prepare-IsNormal manager.pending_show h.1

    persist-IsNormal :
        (placement : Option WindowGeometry) (saves : Bool)
        → IsNormal P (persist manager placement saves).0
    unfolding persist
    persist-IsNormal none saves = h
    persist-IsNormal (some placement) saves =
        elim (Bool-cases (is_persisted manager.last_persisted placement)) [
          | inl e ↦ rw (e, persist) h
          | inr e ↦ elim (Bool-cases saves) [
            | inl f ↦ rw (e, f, persist) h
            | inr f ↦ rw (e, f, persist) h
          ]
        ]

    restore-IsNormal :
        (placement : Option WindowGeometry) → IsNormal P (restore manager placement).0
    unfolding restore
    restore-IsNormal none = h
    restore-IsNormal (some placement) = (h.0, tt)

    gated-IsNormal :
        (gate : Bool) (window : Window)
        → ((bounds : WindowGeometry) → ShowsNormal window bounds → P bounds)
        → IsNormal P (if gate then manager else observe_winit_window manager window)
    gated-IsNormal true window k = h
    gated-IsNormal false window k = observe-IsNormal window k

    event-IsNormal :
        (window : Window) (event : WindowEvent)
        → ((bounds : WindowGeometry) → ShowsNormal window bounds → P bounds)
        → IsNormal P (handle_winit_event manager window event).0
    unfolding handle_winit_event
    event-IsNormal window moved k = gated-IsNormal (is_some manager.pending_show) window k
    event-IsNormal window resized k = gated-IsNormal (is_some manager.pending_show) window k
    event-IsNormal window other k = h
    event-IsNormal window redraw_requested k = elim (Bool-cases window.visible) [
      | inl e ↦ rw (e, handle_winit_event) (restore-IsNormal manager.pending_show)
      | inr e ↦ rw (e, handle_winit_event) h
    ]

    hidden_pending :
        (maximized : Bool) (last : Option WindowGeometry)
        → OnSome (λ g. P g × (g.maximized ≡ false)) last
        → OnSome (λ g. P (as_normal g)) (with_display maximized last)
    unfolding as_normal
    hidden_pending maximized none k = tt
    hidden_pending maximized (some bounds) k = subst P (sym (as_normal_of bounds k.1)) k.0

    capture_pending :
        (window : Window)
        → ((bounds : WindowGeometry) → ShowsNormal window bounds → P bounds)
        → OnSome (λ g. P (as_normal g)) (capture_placement manager window).1
    unfolding capture_placement
    capture_pending window k =
        hidden_pending _ (capture_placement manager window).0.last_normal
          (capture-IsNormal window k).0

  hide-IsNormal :
      (manager : Manager) (window : Window) (saves hides : Bool)
      → IsNormal P manager
      → ((bounds : WindowGeometry) → ShowsNormal window bounds → P bounds)
      → IsNormal P (hide_window manager window saves hides).0
  unfolding hide_window
  hide-IsNormal manager window saves true h k = (
    (persist-IsNormal (capture_placement manager window).0 (capture-IsNormal manager h window k)
        (capture_placement manager window).1 saves).0,
    capture_pending manager h window k,
  )
  hide-IsNormal manager window saves false h k = (
    (persist-IsNormal (capture_placement manager window).0 (capture-IsNormal manager h window k)
        (capture_placement manager window).1 saves).0,
    capture_pending manager h window k,
  )

  call-IsNormal :
      (manager : Manager) (c : Call)
      → IsNormal P manager
      → CallShows P c
      → IsNormal P (call manager c)
  unfolding call save
  call-IsNormal manager (show_call shows) h k = show-IsNormal manager h shows
  call-IsNormal manager (save_call window saves) h k =
      persist-IsNormal (capture_placement manager window).0 (capture-IsNormal manager h window k) _
        saves
  call-IsNormal manager (event_call window event) h k = event-IsNormal manager h window event k
  call-IsNormal manager (hide_call window saves hides) h k =
      hide-IsNormal manager window saves hides h k

  calls-IsNormal :
      (cs : List Call) (manager : Manager)
      → IsNormal P manager
      → All (CallShows P) cs
      → IsNormal P (calls manager cs)
  unfolding calls
  calls-IsNormal [] manager h k = h
  calls-IsNormal (c ∷ cs) manager h k =
      calls-IsNormal cs (call manager c) (call-IsNormal manager c h k.0) k.1

  new-IsNormal :
      (saved : Option WindowGeometry) → OnSome (λ g. P (as_normal g)) saved → IsNormal P (new saved)
  unfolding new as_normal
  new-IsNormal none h = (tt, tt)
  new-IsNormal (some geometry) h = ((h, refl), h)

  -- The bounds that the manager keeps as the normal ones come from the saved placement, or from a
  -- window that was neither maximized nor fullscreen: however the window is shown, hidden, saved,
  -- moved, resized, maximized and redrawn, they have every property that the saved bounds have and
  -- that all bounds have which the windows show in their normal state; and they never count as
  -- maximized.
  pub normal_bounds :
      (saved : Option WindowGeometry) (cs : List Call)
      → OnSome (λ g. P (as_normal g)) saved
      → All (CallShows P) cs
      → OnSome (λ g. P g × (g.maximized ≡ false)) (calls (new saved) cs).last_normal
  normal_bounds saved cs h k = (calls-IsNormal cs (new saved) (new-IsNormal saved h) k).0
