-- ===== src/Examples/Windows.antt =====
-- The theorems on windows and on the window manager at a desktop with the windows 7 and 9.
use de.Prelude.{
  ℕ, ◌<◌, ◌≢◌, ◌≡◌, refl, true, false, List, [], ◌∷◌, none, some, ◌⊎◌, last?, without, length, ℤ,
  pos, arith,
}
use de.HashMap.{get}
use de.F64.Billionths.{billionths}
use de.Spring
use de.Spring.{Spring}
use de.Window
use de.Window.{WindowState, WorkArea, Geometry}
use de.Window.Lifecycle.{start_unfullscreen}
use de.Window.Restore.{
  geometry, HeadsForGeometry, fullscreen_all, start_unfullscreen-fullscreen_all,
}
use de.Wm
use de.Wm.{WindowManager}
use de.Wm.AltTab.Cycle.{presses, presses_between, presses_reach_all}
use de.Wm.Focus.{focus_key, focusable_at}
use de.Wm.Focus.Effects.{
  IsFocused, IsUnfocused, focus_key-IsFocused, close_key-IsFocused, minimize_key-IsFocused,
}
use de.Wm.Geometry.{tick_auto}
use de.Wm.Invariant.{Inv}
use de.Wm.Place.{minimize_key}
use de.Wm.Place.{close_key}
use de.Wm.Pointer.{topmost, is_hit}
use de.Wm.Pointer.Topmost.{topmost_lem}
use de.Wm.Step.{Op, register, focus, frame, run}
use de.Wm.Step.Runs.{run-new-Inv, tick_auto_returns}
use de.Examples.{numbered, millis-FrameLaws, desk, desk-Inv}

abbrev calls : List Op
calls = register (1, 7) ∷ frame 200 5_000_000 ∷ focus (1, 7) ∷ []

run-new-Inv_example :
    (m : WindowManager) × (run (Wm.new (pos 1920) (pos 1080)) calls ≡ some m) × Inv m
run-new-Inv_example =
    run-new-Inv millis-FrameLaws (pos 1920) (pos 1080) calls (omega arith) (omega arith, tt)

tick_auto_returns_example : (r : ℤ × WindowManager) × (tick_auto 200 desk 5_000_000 ≡ some r)
tick_auto_returns_example = tick_auto_returns millis-FrameLaws 200 desk 5_000_000 (omega arith)

focus_key-IsFocused_example :
    (((focus_key desk 9).0 ≡ true)
      × (focusable_at desk 9 ≡ true)
      × IsFocused (focus_key desk 9).1 9)
    ⊎ (((focus_key desk 9).0 ≡ false)
        × (focusable_at desk 9 ≡ false)
        × ((focus_key desk 9).1 ≡ desk))
focus_key-IsFocused_example = focus_key-IsFocused desk 9 desk-Inv

close_key-IsFocused_example :
    ((j : ℕ) × (last? (without 7 desk.focus_stack) ≡ some j) × IsFocused (close_key desk 7) j)
    ⊎ ((without 7 desk.focus_stack ≡ []) × IsUnfocused (close_key desk 7))
close_key-IsFocused_example = close_key-IsFocused desk 7 desk-Inv

minimize_key-IsFocused_example :
    ((j : ℕ) × (last? (without 7 desk.focus_stack) ≡ some j) × IsFocused (minimize_key desk 7) j)
    ⊎ ((without 7 desk.focus_stack ≡ []) × IsUnfocused (minimize_key desk 7))
minimize_key-IsFocused_example = minimize_key-IsFocused desk 7 desk-Inv

abbrev at : ℤ
at = pos 300_000_000_000

topmost_lem_example :
    ((topmost desk at at ≡ none)
      × ((j : ℕ) (v : WindowState) → get j desk.windows ≡ some v → is_hit at at v ≡ false))
    ⊎ ((k : ℕ) × (w : WindowState) × (topmost desk at at ≡ some (k, w.z_order))
        × (get k desk.windows ≡ some w)
        × (is_hit at at w ≡ true)
        × ((j : ℕ) (v : WindowState)
            → get j desk.windows ≡ some v
            → is_hit at at v ≡ true
            → j ≢ k
            → v.z_order < w.z_order))
topmost_lem_example = topmost_lem desk at at desk-Inv

abbrev win : WindowState
win = Window.new (pos 1) (1, 7) (pos 120) (pos 80) (pos 800) (pos 600) 1

abbrev area : WorkArea
area = record { x = pos 0; y = pos 34; w = pos 1920; h = pos 950 }

abbrev screen : Geometry
screen = (pos 0, pos 0, pos 1920, pos 1080)

start_unfullscreen-fullscreen_all_example :
    let r = start_unfullscreen (fullscreen_all win ((screen, none) ∷ (screen, none) ∷ [])) in
    (geometry r ≡ geometry win)
    × HeadsForGeometry r.anim (geometry win)
    × (r.maximized ≡ win.maximized)
    × (r.fullscreen ≡ false)
    × (r.pre_maximize ≡ win.pre_maximize)
unfolding Window.new
start_unfullscreen-fullscreen_all_example =
    start_unfullscreen-fullscreen_all win screen none ((screen, none) ∷ []) refl

abbrev tabbing : WindowManager
tabbing = record (Wm.new (pos 1920) (pos 1080)) {
  focus_stack = 7 ∷ 9 ∷ 4 ∷ [];
  alt_tab_idx = some 2;
}

presses_reach_all_example :
    let n = presses_between (length tabbing.focus_stack) 2 0 in
    (n < length tabbing.focus_stack)
    × ((presses n tabbing).alt_tab_idx ≡ some 0)
    × ((presses n tabbing).focus_stack ≡ tabbing.focus_stack)
presses_reach_all_example = presses_reach_all tabbing 2 0 refl (omega arith) (omega arith)

abbrev chosen : WindowManager
chosen = record desk { alt_tab_idx = some 0 }

chosen-Inv : Inv chosen
chosen-Inv = record { formed = desk-Inv.formed; focus = desk-Inv.focus }

abbrev moving : Spring
moving =
    Spring.set_target (Spring.new (pos 1_500_000_000_000) (pos 1_000_000_000) (pos 1_000_000))
      (pos 1_000_000_000)
