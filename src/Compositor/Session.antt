-- ===== src/Compositor/Session.antt =====
-- The calls on the compositor's state as a machine: outputs, layers, the session lock and input, in
-- any order.
pub mod Coherent
use Prim.Native.String.{String}
use de.Prelude.{ℕ, Bool, List, [], ◌∷◌, Option, ℤ}
use de.F64.{F64}
use de.Layer.{Layer}
use de.Compositor.{SpikeState, ToplevelInfo, PopupInfo}
use de.Compositor.Outputs.{Screens, register_output, unregister_output}
use de.Compositor.Layers.{
  Clients, new_layer_surface, layer_destroyed, refresh_layer_layout_for_outputs,
}
use de.Compositor.Lock.{lock, unlock, new_surface, commit_lock_surface}
use de.Compositor.Hits.{SurfaceHit}
use de.Compositor.Input.{
  Constraint, forward_pointer_motion, forward_touch_down, forward_touch_up, forward_touch_cancel,
}

module _ ⦃fl : F64⦄ where
  open fl use {Float}

  abbrev pub HitTest : Type 0
  HitTest = SpikeState → Float → Float → SurfaceHit

  -- `windows` is what any other handler makes of the toplevels, the popups and the active surface.
  pub data Op : Type 0 where
    plug unplug : (output : ℕ) → Op
    map_layer :
        (surface : ℕ) → Option ℕ → Layer → (namespace : String) → (pending : Option (ℤ × ℤ)) → Op
    unmap_layer : (surface : ℕ) → Op
    layout : Clients → Screens → (primary_fallback : Option (ℤ × ℤ)) → Op
    ask_lock : (locker : ℕ) → Op
    end_lock : Op
    lock_surface : Screens → (surface : ℕ) → Option ℕ → Op
    commit : (root width : ℕ) → Op
    move_pointer : (ℕ → Constraint) → HitTest → (x y : Float) → Op
    press : (has_keyboard : Bool) → HitTest → (slot : ℕ) → (x y : Float) → Op
    release : (slot : ℕ) → Op
    cancel_touch : Op
    windows : List ToplevelInfo → List PopupInfo → Option ℕ → Op

  unfoldable pub step : SpikeState → Op → SpikeState
  unfolding register_output unregister_output new_layer_surface layer_destroyed
      refresh_layer_layout_for_outputs lock unlock new_surface commit_lock_surface
      forward_pointer_motion forward_touch_down forward_touch_up forward_touch_cancel
  step s (plug output) = register_output s output
  step s (unplug output) = unregister_output s output
  step s (map_layer surface output layer namespace pending) =
      new_layer_surface s surface output layer namespace pending
  step s (unmap_layer surface) = layer_destroyed s surface
  step s (layout cl sc fallback) = (refresh_layer_layout_for_outputs cl sc s fallback).0
  step s (ask_lock locker) = (lock s locker).1
  step s end_lock = unlock s
  step s (lock_surface sc surface output) = (new_surface sc s surface output).1
  step s (commit root width) = (commit_lock_surface s root width).1
  step s (move_pointer constraint hit x y) = (forward_pointer_motion constraint hit s x y).1
  step s (press has_keyboard hit slot x y) = (forward_touch_down has_keyboard hit s slot x y).1
  step s (release slot) = (forward_touch_up s slot).1
  step s cancel_touch = (forward_touch_cancel s).1
  step s (windows toplevels popups active) = record s {
    toplevels = toplevels;
    popups = popups;
    active_surface = active;
  }

  unfoldable pub run : SpikeState → List Op → SpikeState
  unfolding step
  run s [] = s
  run s (op ∷ ops) = run (step s op) ops
