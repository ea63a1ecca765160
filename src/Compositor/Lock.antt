-- ===== src/Compositor/Lock.antt =====
-- crates/compositor-slint/src/wayland/session_lock.rs, and the confirmation of a lock in the commit
-- handler of wayland/compositor.rs.
use de.Prelude.{
  ℕ, Bool, true, false, ◌||◌, List, [], ◌∷◌, ◌++◌, Option, none, some, ◌==◌, ltb, if◌then◌else◌,
  is_some, ℤ, pos,
}
use de.F64.{F64}
use de.Compositor.{SpikeState, LockSurfaceInfo}
use de.Compositor.Outputs.{Screens, resolve_wl_output, output_logical_size}

abbrev or_default : Option (ℤ × ℤ) → ℤ × ℤ
or_default none = (pos 1280, pos 960)
or_default (some size) = size

abbrev pub has_surface : ℕ → List LockSurfaceInfo → Bool
has_surface root [] = false
has_surface root (li ∷ rest) = li.surface == root || has_surface root rest

-- The first lock surface of that handle takes the buffer in.
abbrev pub import_width : ℕ → ℕ → List LockSurfaceInfo → List LockSurfaceInfo
import_width root width [] = []
import_width root width (li ∷ rest) =
    if li.surface == root
    then record li { width = width } ∷ rest
    else li ∷ import_width root width rest

module _ ⦃fl : F64⦄ where
  -- The answer tells whether the locker is kept. One that is dropped ends its client's lock.
  unfoldable pub lock : SpikeState → ℕ → Bool × SpikeState
  lock s confirmation =
      if s.session_locked || is_some s.pending_session_lock
      then (false, s)
      else (true, record s { pending_session_lock = some confirmation })

  unfoldable pub unlock : SpikeState → SpikeState
  unlock s = record s { session_locked = false; pending_session_lock = none; lock_surfaces = [] }

  abbrev pub push_lock_surface :
      Screens → SpikeState → (surface : ℕ) → Option ℕ → Option (ℤ × ℤ) × SpikeState
  push_lock_surface sc s surface none = (none, s)
  push_lock_surface sc s surface (some output) = (
    some (or_default (output_logical_size sc output)),
    record s {
      lock_surfaces =
          s.lock_surfaces ++ record { surface = surface; output = output; width = 0 } ∷ [];
    },
  )

  -- The first result is the size that the surface is configured to.
  unfoldable pub new_surface : Screens → SpikeState → ℕ → Option ℕ → Option (ℤ × ℤ) × SpikeState
  new_surface sc s surface wl_output =
      push_lock_surface sc s surface (resolve_wl_output s wl_output)

  abbrev pub confirm : Option ℕ → (width : ℕ) → SpikeState → SpikeState
  confirm none width s = s
  confirm (some locker) width s =
      if ltb 0 width then record s { pending_session_lock = none; session_locked = true } else s

  -- The commit handler, for a surface with root `root` whose import leaves a buffer of this width.
  -- The first result tells whether the handler ends here.
  unfoldable pub commit_lock_surface : SpikeState → (root width : ℕ) → Bool × SpikeState
  commit_lock_surface s root width =
      if has_surface root s.lock_surfaces
      then (
        true,
        confirm s.pending_session_lock width
            (record s { lock_surfaces = import_width root width s.lock_surfaces }),
      )
      else (false, s)
