-- ===== src/Compositor/Hits.antt =====
-- The hit tests of crates/compositor-slint/src/renderer/input_util.rs: which surface is under a
-- point, through popups, layers and toplevels. A hit is a surface with its origin.
use de.Prelude.{
  ℕ, zero, suc, Bool, true, false, not, ◌&&◌, ◌||◌, List, [], ◌∷◌, ◌++◌, Option, none, some, ◌==◌,
  if◌then◌else◌, ltb, ltb_ℤ, ℤ, pos,
}
use de.Prelude.I32
use de.F64.{F64}
use de.Layer.{Layer, background, bottom, top, overlay, LayerInfo}
use de.Compositor.{SpikeState, LockSurfaceInfo, PopupInfo, ToplevelInfo, or_else}
use de.Compositor.Outputs.{Screens, find, lock_surface_for_point}

abbrev same_layer : Layer → Layer → Bool
same_layer background background = true
same_layer bottom bottom = true
same_layer top top = true
same_layer overlay overlay = true
same_layer _ _ = false

abbrev pub reverse : {A : Type 0} → List A → List A
reverse [] = []
reverse (x ∷ xs) = reverse xs ++ x ∷ []

-- The size of an axis: what is configured, or else the buffer's.
abbrev size_or : ℤ → ℕ → ℤ
size_or configured buffer = if ltb_ℤ (pos 0) configured then configured else I32.of_u32 buffer

module _ ⦃fl : F64⦄ where
  open fl use {Float, of_i32, to_i32, lit, fadd, fsub, flt, fle}

  abbrev pub SurfaceHit : Type 0
  SurfaceHit = Option (ℕ × Float × Float)

  -- `under_from_surface_tree` of smithay: the surface of a tree at a point, given where the tree
  -- stands, and the surface's own origin.
  abbrev pub Trees : Type 0
  Trees = ℕ → Float × Float → ℤ × ℤ → Option (ℕ × (ℤ × ℤ))

  abbrev hit_or : Option (ℕ × (ℤ × ℤ)) → ℕ → Float → Float → SurfaceHit
  hit_or none surface x y = some (surface, x, y)
  hit_or (some (found, (x, y))) surface _ _ = some (found, of_i32 x, of_i32 y)

  unfoldable pub contains_layer_point : LayerInfo → Float → Float → Bool
  contains_layer_point li x y =
      let lx = fsub x (of_i32 li.x) in
      let ly = fsub y (of_i32 li.y) in
      not (flt lx (lit 0 0) || (flt ly (lit 0 0) || (fle (of_i32 li.w) lx || fle (of_i32 li.h) ly)))

  unfoldable pub is_layer_hit : Layer → LayerInfo → Float → Float → Bool
  unfolding contains_layer_point
  is_layer_hit want li x y =
      same_layer li.cached.layer want
      && (ltb_ℤ (pos 0) li.w && (ltb_ℤ (pos 0) li.h && contains_layer_point li x y))

  -- The inner loop, over the surfaces.
  unfoldable pub layer_hit : Trees → Float → Float → Layer → List LayerInfo → SurfaceHit
  unfolding is_layer_hit
  layer_hit tree x y want [] = none
  layer_hit tree x y want (li ∷ rest) =
      if is_layer_hit want li x y
      then hit_or (tree li.surface (x, y) (li.x, li.y)) li.surface (of_i32 li.x) (of_i32 li.y)
      else layer_hit tree x y want rest

  unfoldable pub state_layer_surface_under :
      Trees → SpikeState → Float → Float → List Layer → SurfaceHit
  unfolding layer_hit
  state_layer_surface_under tree s x y [] = none
  state_layer_surface_under tree s x y (want ∷ layers) =
      or_else (layer_hit tree x y want s.layer_surfaces)
        (state_layer_surface_under tree s x y layers)

  abbrev located : ℤ → ℤ → ℤ → ℤ → Option (Float × Float × Float × Float)
  located x y w h = some (of_i32 x, of_i32 y, of_i32 w, of_i32 h)

  -- The walk from a popup's parent to the toplevel or layer below it. The fuel is the 16 rounds
  -- of the loop.
  unfoldable pub popup_origin : ℕ → SpikeState → (parent : ℕ) → (x y : ℤ) → Option (ℤ × ℤ)
  popup_origin zero s parent x y = none
  popup_origin (suc rounds) s parent x y =
      elim (find (λ (candidate : PopupInfo). candidate.surface == parent) s.popups) [
        | some p ↦ elim p.geometry [
          | none ↦ none
          | some g ↦ popup_origin rounds s p.parent (I32.add x g.0) (I32.add y g.1)
        ]
        | none ↦ elim (find (λ (t : ToplevelInfo). t.surface == parent) s.toplevels) [
          | some t ↦ some (I32.add x t.x, I32.add y t.y)
          | none ↦ elim (find (λ (l : LayerInfo). l.surface == parent) s.layer_surfaces) [
            | some l ↦ some (I32.add x l.x, I32.add y l.y)
            | none ↦ none
          ]
        ]
      ]

  abbrev sized : Option (ℤ × ℤ) → ℤ → ℤ → Option (Float × Float × Float × Float)
  sized none w h = none
  sized (some (x, y)) w h = located x y w h

  abbrev rect_with :
      SpikeState
      → PopupInfo
      → Option (ℕ × ℕ)
      → Option (ℤ × ℤ × ℤ × ℤ)
      → Option (Float × Float × Float × Float)
  rect_with s p none g = none
  rect_with s p (some b) none = none
  rect_with s p (some (buffer_w, buffer_h)) (some (x, y, w, h)) =
      let width = size_or w buffer_w in
      let height = size_or h buffer_h in
      if ltb_ℤ (pos 0) width && ltb_ℤ (pos 0) height
      then sized (popup_origin 16 s p.parent x y) width height
      else none

  unfoldable pub state_popup_rect : SpikeState → PopupInfo → Option (Float × Float × Float × Float)
  unfolding popup_origin
  state_popup_rect s p = rect_with s p p.buffer p.geometry

  abbrev inside : Float → Float → Float → Float → Float → Float → Bool
  inside x y px py pw ph =
      not (flt x px || (fle (fadd px pw) x || (flt y py || fle (fadd py ph) y)))

  abbrev popup_test :
      Trees → PopupInfo → Float → Float → Option (Float × Float × Float × Float) → SurfaceHit
  popup_test tree p x y none = none
  popup_test tree p x y (some (px, py, pw, ph)) =
      if inside x y px py pw ph
      then hit_or (tree p.surface (x, y) (to_i32 px, to_i32 py)) p.surface px py
      else none

  -- The loop over the popups, the last one first.
  unfoldable pub popup_hit : Trees → SpikeState → Float → Float → List PopupInfo → SurfaceHit
  unfolding state_popup_rect
  popup_hit tree s x y [] = none
  popup_hit tree s x y (p ∷ rest) =
      or_else (popup_test tree p x y (state_popup_rect s p)) (popup_hit tree s x y rest)

  unfoldable pub state_popup_surface_under : Trees → SpikeState → Float → Float → SurfaceHit
  unfolding popup_hit
  state_popup_surface_under tree s x y = popup_hit tree s x y (reverse s.popups)

  abbrev at_least_one : ℕ → ℤ
  at_least_one n = if ltb n 1 then pos 1 else pos n

  -- The loop over the toplevels. A poisoned buffer ends the search.
  unfoldable pub toplevel_hit : Trees → Float → Float → List ToplevelInfo → SurfaceHit
  toplevel_hit tree x y [] = none
  toplevel_hit tree x y (t ∷ rest) =
      let others = toplevel_hit tree x y rest in
      elim t.buffer [
        | none ↦ none
        | some b ↦
            if inside x y (of_i32 t.x) (of_i32 t.y) (of_i32 (at_least_one b.0))
              (of_i32 (at_least_one b.1))
            then hit_or (tree t.surface (x, y) (t.x, t.y)) t.surface (of_i32 t.x) (of_i32 t.y)
            else others
      ]

  unfoldable pub state_toplevel_surface_under : Trees → SpikeState → Float → Float → SurfaceHit
  unfolding toplevel_hit
  state_toplevel_surface_under tree s x y = toplevel_hit tree x y (reverse s.toplevels)

  abbrev pub lock_hit : Option LockSurfaceInfo → SurfaceHit
  lock_hit none = none
  lock_hit (some lock) = some (lock.surface, lit 0 0, lit 0 0)

  unfoldable pub state_surface_under : Trees → Screens → SpikeState → Float → Float → SurfaceHit
  unfolding lock_surface_for_point state_popup_surface_under state_layer_surface_under
      state_toplevel_surface_under
  state_surface_under tree sc s x y =
      if s.session_locked
      then lock_hit (lock_surface_for_point sc s x y)
      else or_else (state_popup_surface_under tree s x y) (
          or_else (state_layer_surface_under tree s x y (overlay ∷ top ∷ [])) (
            or_else (state_toplevel_surface_under tree s x y)
              (state_layer_surface_under tree s x y (bottom ∷ background ∷ []))))
