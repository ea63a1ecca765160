-- ===== src/Compositor/Outputs.antt =====
-- The outputs in crates/compositor-slint/src/wayland_state.rs: registration, the primary output,
-- logical sizes, and which lock surface is at a point.
use de.Prelude.{
  ℕ, Bool, false, not, ◌&&◌, List, [], ◌∷◌, Option, none, some, ◌==◌, if◌then◌else◌, is_none,
  is_some_and, contains, without, push, ℤ, ltb_ℤ,
}
use de.Prelude.I32
use de.F64.{F64}
use de.HashMap.{contains_key, insert, remove}
use de.Layer.{no_zones}
use de.Compositor.{SpikeState, LockSurfaceInfo, or_else}

abbrev pub first : {A : Type 0} → List A → Option A
first [] = none
first (x ∷ xs) = some x

-- The first entry that passes a test.
abbrev pub find : {A : Type 0} → (A → Bool) → List A → Option A
find p [] = none
find p (x ∷ xs) = if p x then some x else find p xs

module _ ⦃fl : F64⦄ where
  open fl use {Float, lit, of_i32, to_i32, fdiv, fmax}

  -- What smithay tells of its outputs.
  pub record Screens : Type 0 where
    pub current_mode : ℕ → Option (ℤ × ℤ)
    pub fractional_scale : ℕ → Float
    pub current_location : ℕ → ℤ × ℤ

  unfoldable pub register_output : SpikeState → ℕ → SpikeState
  register_output s output = record s {
    output = if is_none s.output then some output else s.output;
    outputs = if contains output s.outputs then s.outputs else push s.outputs output;
    output_scopes =
        if contains_key output s.output_scopes
        then s.output_scopes
        else insert output no_zones s.output_scopes;
  }

  unfoldable pub unregister_output : SpikeState → ℕ → SpikeState
  unregister_output s output = record s {
    outputs = without output s.outputs;
    output_scopes = remove output s.output_scopes;
    output =
        if is_some_and s.output (λ o. o == output)
        then first (without output s.outputs)
        else s.output;
  }

  unfoldable pub primary_output : SpikeState → Option ℕ
  primary_output s = or_else s.output (first s.outputs)

  -- The argument is the output that the client's resource stands for, if smithay knows one.
  unfoldable pub resolve_wl_output : SpikeState → Option ℕ → Option ℕ
  unfolding primary_output
  resolve_wl_output s none = primary_output s
  resolve_wl_output s (some resolved) =
      or_else (find (λ o. o == resolved) s.outputs) (primary_output s)

  abbrev scaled : Float → ℤ → ℤ
  scaled scale len = to_i32 (fmax (fdiv (of_i32 len) scale) (lit 1 0))

  abbrev logical : Option (ℤ × ℤ) → Float → Option (ℤ × ℤ)
  logical none scale = none
  logical (some (w, h)) scale = some (scaled scale w, scaled scale h)

  unfoldable pub output_logical_size : Screens → ℕ → Option (ℤ × ℤ)
  output_logical_size sc output = logical (sc.current_mode output) (sc.fractional_scale output)

  abbrev in_area : Option (ℤ × ℤ) → ℤ × ℤ → ℤ → ℤ → Bool
  in_area none loc x y = false
  in_area (some (w, h)) loc x y =
      not (ltb_ℤ x loc.0)
      && (not (ltb_ℤ y loc.1) && (ltb_ℤ x (I32.add loc.0 w) && ltb_ℤ y (I32.add loc.1 h)))

  unfoldable pub output_contains_point : Screens → ℕ → Float → Float → Bool
  unfolding output_logical_size
  output_contains_point sc output x y =
      in_area (output_logical_size sc output) (sc.current_location output) (to_i32 x) (to_i32 y)

  unfoldable pub lock_surface_for_point :
      Screens → SpikeState → Float → Float → Option LockSurfaceInfo
  unfolding output_contains_point
  lock_surface_for_point sc s x y =
      or_else (find (λ lock. output_contains_point sc lock.output x y) s.lock_surfaces)
        (first s.lock_surfaces)
