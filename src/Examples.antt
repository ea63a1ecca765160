-- ===== src/Examples.antt =====
-- Concrete inputs: surfaces that are a client and a protocol id, D-Bus values that are texts and bytes, the time that
-- a frame takes in billionths, and a desktop with two windows.
mod Boxes
mod Toplevels
mod Desktops
mod Windows
mod Geometry
mod Cursors
mod Notifications
mod Sessions
mod Layers
mod Calendars
mod Trays
use Prim.Native.String.{String}
use de.Prelude.{
  ℕ, ◌+◌, ◌/◌, ◌-ℤ◌, min_ℤ, ◌<◌, ◌≡◌, refl, true, List, [], ◌∷◌, Option, none, some, subst,
  eq_of_some, sym, ◌∙◌, ℤ, pos, pos_part, neg_part, arith,
}
use de.F64.{F64}
use de.F64.Billionths.{billionths}
use de.Spring.{max_step}
use de.Spring.Ends.{StepsDown}
use de.Window.{Wayland}
use de.Window.Frames.{FrameLaws}
use de.Wm
use de.Wm.{WindowManager}
use de.Wm.Focus.{focus_surface}
use de.Wm.Invariant.{Inv}
use de.Wm.Step.{Op, register, focus, sync_new, run}
use de.Wm.Step.Runs.{run-new-Inv}
use de.Notification.Hints.{Zvariant}

instance abbrev pub numbered : Wayland
numbered = record { Surface = ℕ × ℕ; protocol_id = λ s. s.1 }

pub data Plain : Type 0 where
  text : String → Plain
  byte : ℕ → Plain

abbrev pub text_of : Plain → Option String
text_of (text s) = some s
text_of (byte b) = none

abbrev pub byte_of : Plain → Option ℕ
byte_of (text s) = none
byte_of (byte b) = some b

instance abbrev pub plain : Zvariant
plain = record {
  Value = Plain;
  as_str = text_of;
  as_u8 = byte_of;
  as_bool = λ _. none;
  as_i32 = λ _. none;
  as_structure = λ _. none;
  as_array = λ _. none;
}

-- The steps that a frame takes: its milliseconds, rounded up.
abbrev pub millis : ℤ → ℕ
millis r = (pos_part r + 999_999) / 1_000_000

pub millis-StepsDown : StepsDown (pos 100_000_000) millis
unfolding ◌-ℤ◌ min_ℤ
millis-StepsDown r more c = (ground arith, ground arith)

pub millis-FrameLaws : FrameLaws millis 101
unfolding min_ℤ
millis-FrameLaws = record {
  down = millis-StepsDown;
  few = λ r c. ground arith;
  capped = λ x. ground arith;
  first = refl;
}

abbrev pub desk_calls : List Op
desk_calls = register (1, 7) ∷ register (1, 9) ∷ focus (1, 7) ∷ []

abbrev pub desk : WindowManager
desk = focus_surface (sync_new (sync_new (Wm.new (pos 1920) (pos 1080)) (1, 7)) (1, 9)) (1, 7)

desk_runs : run (Wm.new (pos 1920) (pos 1080)) desk_calls ≡ some desk
unfolding run
desk_runs = refl

pub desk-Inv : Inv desk
desk-Inv =
    let (m, e, v) =
      run-new-Inv millis-FrameLaws (pos 1920) (pos 1080) desk_calls (omega arith) tt in
    subst Inv (eq_of_some (sym e ∙ desk_runs)) v
