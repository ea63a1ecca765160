-- ===== src/Desktop/Lookup.antt =====
-- Lemmas on the two tables of a drag: the window of a surface after a change to it, and the toplevel
-- at an index after a write to it.
use de.Prelude.{
  ℕ, zero, suc, ◌≡◌, refl, ap, ◌∙◌, Bool, true, Bool-cases, inl, inr, List, [], ◌∷◌, Option, none,
  some, ◌==◌, if◌then◌else◌, ℤ, eqb_ℤ, arith, get_elem?, eq_of_some,
}
use de.HashMap.{get, modify, find_entry, on_some, get-map_values}
use de.F64.{F64}
use de.Window.{WindowState}
use de.Wm.{WindowManager}
use de.Wm.Focus.{find_id}
use de.Wm.Geometry.{id_for_surface, modify_key, modify_found, window_id}
use de.Toplevel.{Toplevel, update_toplevel}
use de.Desktop.{ProtocolIds, numbered_surfaces}
use de.Desktop.Drag.{place_at, window_by, window_of}

pub get_elem?-place_at :
    (i : ℕ) (x y : ℤ) (ts : List Toplevel) (t : Toplevel)
    → get_elem? ts i ≡ some t
    → get_elem? (place_at i x y ts) i ≡ some (record t { x = x; y = y })
get_elem?-place_at i x y [] t e = cc
get_elem?-place_at zero x y (u ∷ ts) t e =
    ap (λ (v : Toplevel). some (record v { x = x; y = y })) (eq_of_some e)
get_elem?-place_at (suc i) x y (u ∷ ts) t e = get_elem?-place_at i x y ts t e

-- A write that keeps the surface leaves a toplevel with the same surface at each index.
pub get_elem?-update_toplevel :
    (k i : ℕ) (f : Toplevel → Toplevel) (ts : List Toplevel) (t : Toplevel)
    → ((u : Toplevel) → (f u).surface ≡ u.surface)
    → get_elem? ts i ≡ some t
    → (t' : Toplevel) × (get_elem? (update_toplevel k f ts) i ≡ some t') × (t'.surface ≡ t.surface)
get_elem?-update_toplevel k i f [] t h e = cc
get_elem?-update_toplevel k zero f (u ∷ ts) t h e =
    let same : u ≡ t = eq_of_some e in
    elim (Bool-cases (u.surface == k)) [
      | inl c ↦ (f u, rw c refl, h u ∙ ap (λ (v : Toplevel). v.surface) same)
      | inr c ↦ (u, rw c refl, ap (λ (v : Toplevel). v.surface) same)
    ]
get_elem?-update_toplevel k (suc i) f (u ∷ ts) t h e =
    let (t', a, b) = get_elem?-update_toplevel k i f ts t h e in
    elim (Bool-cases (u.surface == k)) [ inl c ↦ (t, rw c e, refl) | inr c ↦ (t', rw c a, b) ]

module _ {ℓ} {V : Type ℓ} (p : V → Bool) (k : ℕ) (f : V → V) (keeps : (v : V) → p (f v) ≡ p v) where
  pub find_entry-modify :
      (m : List (ℕ × V)) (v : V)
      → find_entry p m ≡ some (k, v)
      → find_entry p (modify k f m) ≡ some (k, f v)
  find_entry-modify [] v e = cc
  find_entry-modify ((j, u) ∷ m) v e = elim (Bool-cases (p u)) [
    | inl c ↦
        let same : (j, u) ≡ (k, v) = eq_of_some (rw c at e) in
        let is_key : (j == k) ≡ true = ground (arith, ap (λ (q : ℕ × V). q.0) same) in
        let is_value : u ≡ v = ap (λ (q : ℕ × V). q.1) same in
        let is_k : j ≡ k = ap (λ (q : ℕ × V). q.0) same in
        rw (is_key, keeps u, c, is_k, is_value) refl
    | inr c ↦ elim (Bool-cases (j == k)) [
      | inl d ↦ rw (d, keeps u, c) (find_entry-modify m v (rw c at e))
      | inr d ↦ rw (d, c) (find_entry-modify m v (rw c at e))
    ]
  ]

module _ ⦃fl : F64⦄ ⦃ids : ProtocolIds⦄ (k : ℕ) (f : WindowState → WindowState)
    (keeps : (w : WindowState) → (f w).id ≡ w.id) where
  pub find_id-modify_key :
      (m : WindowManager) (id : ℤ) (win : WindowState)
      → find_id m id ≡ some (k, win)
      → find_id (modify_key m k f) id ≡ some (k, f win)
  unfolding modify_key
  find_id-modify_key m id win e =
      find_entry-modify (λ (w : WindowState). eqb_ℤ w.id id) k f (λ w. rw (keeps w) refl) m.windows
        win e

  window_id-modified :
      (j : ℕ) (o : Option WindowState)
      → window_id (on_some (λ w. if j == k then f w else w) o) ≡ window_id o
  window_id-modified j none = refl
  window_id-modified j (some w) = elim (Bool-cases (j == k)) [
    | inl c ↦ rw c (ap some (keeps w))
    | inr c ↦ rw c refl
  ]

  pub id_for_surface-modify_key :
      (m : WindowManager) (surface : ℕ)
      → id_for_surface (modify_key m k f) surface ≡ id_for_surface m surface
  unfolding modify_key id_for_surface
  id_for_surface-modify_key m surface =
      ap window_id
        (get-map_values (ids.protocol_id surface) (λ j w. if j == k then f w else w) m.windows)
      ∙ window_id-modified (ids.protocol_id surface) (get (ids.protocol_id surface) m.windows)

  -- The window of a surface after a change by its id.
  pub window_of-modify_found :
      (m : WindowManager) (surface : ℕ) (id : ℤ) (win : WindowState)
      → id_for_surface m surface ≡ some id
      → find_id m id ≡ some (k, win)
      → (id_for_surface (modify_found m (find_id m id) f) surface ≡ some id)
        × (find_id (modify_found m (find_id m id) f) id ≡ some (k, f win))
  window_of-modify_found m surface id win a b =
      rw b (id_for_surface-modify_key m surface ∙ a, find_id-modify_key m id win b)

module _ ⦃fl : F64⦄ ⦃ids : ProtocolIds⦄ where
  -- A surface that has a window has its id.
  pub window_of-some :
      (m : WindowManager) (surface k : ℕ) (win : WindowState)
      → window_of m surface ≡ some (k, win)
      → (id : ℤ) × (id_for_surface m surface ≡ some id) × (find_id m id ≡ some (k, win))
  window_of-some m surface k win e = by_id (id_for_surface m surface) refl e
    where
      by_id :
          (o : Option ℤ)
          → id_for_surface m surface ≡ o
          → window_by m o ≡ some (k, win)
          → (id : ℤ) × (id_for_surface m surface ≡ some id) × (find_id m id ≡ some (k, win))
      by_id none h e = cc
      by_id (some id) h e = (id, h, e)
