-- ===== src/Examples/Toplevels.antt =====
-- The theorems on the table of toplevels at tables with a native toplevel and two X11 menus.
use de.Prelude.{
  ℕ, ◌≡◌, refl, true, false, List, [], ◌∷◌, none, some, pos, arith, Bool, ◌==◌, ◌||◌, Distinct,
}
use de.Toplevel
use de.Toplevel.{X11Surface, Shells, find_toplevel, is_tracked, without_surface}
use de.Toplevel.Focus.{for_wl_surface, allow_selection_access}
use de.Toplevel.X11.{
  unmanaged, configure_notify, mapped_override_redirect_window, unmapped_window, destroyed_window,
}
use de.Toplevel.Xdg.{native}
use de.Toplevel.Steps.{AllAllowed, Op, new_toplevel, map_override_redirect, toplevel_destroyed, run}
use de.Toplevel.Tables.{surfaces}
use de.Toplevel.Sound.{IsOrderly, run-new-IsOrderly}
use de.Toplevel.Restack.{Behind, configure_notify-Behind}
use de.Toplevel.Once.{destroyed_window-unmapped_window, allow_selection_access-native}

abbrev menu : (window_id surface : ℕ) → X11Surface
menu window_id surface = record {
  window_id = window_id;
  wl_surface = some surface;
  xwm_id = some 1;
  is_override_redirect = true;
  is_mapped = true;
  is_decorated = false;
  title = [];
  app_class = [];
  geometry = (pos 5, pos 6, pos 70, pos 80);
  min_size = none;
  max_size = none;
}

-- The client of the native toplevel makes a second one for its surface, while the first is closing.
abbrev calls : List Op
calls =
    new_toplevel (some none) 1 10
    ∷ map_override_redirect (menu 6 11)
    ∷ toplevel_destroyed 10
    ∷ new_toplevel (some none) 2 10
    ∷ []

-- The surfaces of the two menus have the role of X11 windows.
abbrev is_menu : ℕ → Bool
is_menu surface = surface == 11 || surface == 12

calls-AllAllowed : AllAllowed is_menu calls
calls-AllAllowed = (refl, ((refl, refl), (tt, (refl, tt))))

run-new-IsOrderly_example : IsOrderly is_menu (run Toplevel.new calls)
run-new-IsOrderly_example = run-new-IsOrderly is_menu calls calls-AllAllowed

abbrev three : Shells
three = record Toplevel.new {
  toplevels = unmanaged (menu 6 11) 11 ∷ native Toplevel.new 10 1 ∷ unmanaged (menu 7 12) 12 ∷ [];
}

three-Distinct : Distinct (surfaces three.toplevels)
unfolding native
three-Distinct = (refl, (refl, (refl, tt)))

configure_notify-Behind_example :
    (t : Toplevel.Toplevel) × (find_toplevel 11 three.toplevels ≡ some t)
    × Behind
        (record t { x = pos 9; y = pos 8 })
        (configure_notify three (menu 6 11) (pos 9, pos 8, pos 70, pos 80) (some 7)).toplevels
        (without_surface 11 three.toplevels)
        7
unfolding native
configure_notify-Behind_example =
    configure_notify-Behind three (menu 6 11) (pos 9, pos 8, pos 70, pos 80) 11 7 0 1 three-Distinct
      refl refl refl refl (omega arith)

destroyed_window-unmapped_window_example :
    (destroyed_window (unmapped_window three (menu 7 12)).0 (menu 7 12)
      ≡ ((unmapped_window three (menu 7 12)).0, []))
    × ((destroyed_window three (menu 7 12)).0 ≡ (unmapped_window three (menu 7 12)).0)
    × (is_tracked 12 (unmapped_window three (menu 7 12)).0.toplevels ≡ false)
unfolding native
destroyed_window-unmapped_window_example =
    destroyed_window-unmapped_window three (menu 7 12) 12 refl refl

allow_selection_access-native_example :
    allow_selection_access
      (some (some (for_wl_surface (run Toplevel.new calls) 10)))
      (run Toplevel.new calls)
      1
    ≡ false
unfolding run native mapped_override_redirect_window Toplevel.Xdg.new_toplevel
    Toplevel.Xdg.toplevel_destroyed
allow_selection_access-native_example =
    allow_selection_access-native is_menu calls 10 1 (native Toplevel.new 10 1) calls-AllAllowed
      refl refl
