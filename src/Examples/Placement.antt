-- ===== src/Examples/Placement.antt =====
-- cmd/montray-ui/src/window_geometry.rs at concrete windows.
use salmon.Base.{
  inr, ap, All, ◌∙◌, Bool, Option, none, ◌≡◌, refl, true, false, none, some, List, [], ◌∷◌, ◌++◌,
}
use salmon.Base.Int.{pos}
use salmon.Persistence.{WindowGeometry, as_normal}
use salmon.Geometry.{
  Native, Window, WindowEvent, redraw_requested, moved, set_maximized, new, apply_window_geometry,
  show_window, hide_window, handle_winit_event,
}
use salmon.Geometry.Normal.{
  Call, show_call, hide_call, event_call, calls, ShowsNormal, OnSome, CallShows, normal_bounds,
}
use salmon.Geometry.Restoring.{Stands, settle, hidden_comes_back}

abbrev saved : WindowGeometry
saved = record { x = pos 10; y = pos 20; width = 800; height = 600; maximized = false }

abbrev full_native : Native
full_native = record {
  maximized = true;
  fullscreen = false;
  outer_position = some (pos 0, pos 0);
  inner_size = (1920, 1080);
}

abbrev full_window : Window
full_window = record {
  native = some full_native;
  maximized = true;
  fullscreen = false;
  visible = true;
}

abbrev maximized : WindowGeometry
maximized = record saved { maximized = true }

abbrev history : List Call
history =
    show_call true
    ∷ event_call full_window redraw_requested
    ∷ event_call full_window moved
    ∷ hide_call full_window true true
    ∷ []

abbrev flag_of : Option Native → Bool
flag_of none = false
flag_of (some native) = native.maximized

full_is_no_normal_state : (bounds : WindowGeometry) → ShowsNormal full_window bounds → ⊥
full_is_no_normal_state bounds shown = clash (ap flag_of shown.1 ∙ shown.2)
  where
    clash : true ≡ false → ⊥
    clash h = cc

-- the maximized window shows nothing that could be kept
history-CallShows : All (CallShows (λ g. g ≡ saved)) history
history-CallShows = (
  tt,
  (
    λ bounds shown. absurd (full_is_no_normal_state bounds shown),
    (
      λ bounds shown. absurd (full_is_no_normal_state bounds shown),
      (λ bounds shown. absurd (full_is_no_normal_state bounds shown), tt),
    ),
  ),
)

saved_bounds : OnSome (λ g. as_normal g ≡ saved) (some maximized)
unfolding as_normal
saved_bounds = refl

normal_bounds_example :
    OnSome
      (λ g. (g ≡ saved) × (g.maximized ≡ false))
      (calls (new (some maximized)) history).last_normal
normal_bounds_example =
    normal_bounds (λ g. g ≡ saved) (some maximized) history saved_bounds history-CallShows

-- the maximized window stands for the bounds that were saved
full-Stands : Stands (new (some saved)) full_window maximized
unfolding new as_normal
full-Stands = inr (full_native, refl, refl, refl, refl)

abbrev early : List (Window × WindowEvent)
early = (full_window, moved) ∷ []

hidden_comes_back_example :
    let hidden = (hide_window (new (some saved)) full_window true true).0 in
    let (restored, requests) =
      handle_winit_event (settle (show_window hidden true).0 early) full_window redraw_requested in
    (restored.last_normal ≡ some (as_normal maximized))
    × (restored.pending_show ≡ none)
    × (requests
        ≡ set_maximized false
          ∷ (apply_window_geometry maximized ++ (set_maximized maximized.maximized ∷ [])))
hidden_comes_back_example =
    hidden_comes_back (new (some saved)) full_window full_window true maximized early full-Stands
      (tt, tt) refl
