-- ===== src/Wm/Step/Changes.antt =====
-- Registration, Alt-Tab, geometry changes and frames keep the invariant.
use de.Prelude.{
  ℕ, zero, suc, ◌+◌, ◌<◌, ◌≡◌, refl, ◌∙◌, ap, true, false, Bool-cases, inl, inr, List, [], ◌∷◌,
  Option, none, some, eq_of_some, >>=-eq-some, subst, ◌==◌, ℤ, pos, pos_part, neg_part, ◌+ℤ◌,
  contains, push, without, length, ltb, get_elem?, arith, contains-push, contains-without,
  push-Distinct, without-Distinct,
}
use de.Prelude.I32
use de.Prelude.I32.{InRange}
use de.HashMap.{insert, modify, map_values, contains_key}
use de.F64.{F64}
use de.Window
use de.Window.{Wayland, WindowState, WorkArea, tick_anim}
use de.Window.Lifecycle.{start_unmaximize, start_maximize_to, tick}
use de.Wm.{WindowManager, key, is_focusable, next_usize, work_area}
use de.Wm.Focus.{find_id}
use de.Wm.Focus.Keeps.{focus_top-FocusesTop}
use de.Wm.Invariant.{Windows, IsWellFormed, Inv}
use de.Wm.Invariant.Parts.{
  SameWindow, SameWindows, map_values-SameWindows, SameWindows-Inv, insert-IsWellFormed,
  insert-HasOneFocus,
}
use de.Wm.Place.{add_window, smart_cascade_position}
use de.Wm.Geometry.{
  modify_key, modify_found, toggle_maximize, toggle_maximize_by_id, set_position_by_id,
  set_geometry_by_id, commit_size, update_geometry, tick_windows, tick_all, tick_auto, frame_dt,
}
use de.Wm.AltTab.{
  select, deselect, visible_count, alt_tab_start, alt_tab_next, alt_tab_commit, alt_tab_cancel,
  commit_index, commit_key,
}
use de.Wm.Step.Keeps.{Budget, Advances, still-Advances, FocusesTop-Advances}

in_range_lem : (z : ℤ) → pos_part z < 2147483647 → neg_part z ≡ 0 → InRange (z +ℤ pos 1)
unfolding ◌+ℤ◌
in_range_lem z h n = ground arith

positive : (z : ℤ) → neg_part z ≡ 0 → neg_part (z +ℤ pos 1) ≡ 0
unfolding ◌+ℤ◌
positive z n = ground arith

pos_part-suc : (z : ℤ) → neg_part z ≡ 0 → pos_part (z +ℤ pos 1) ≡ pos_part z + 1
unfolding ◌+ℤ◌
pos_part-suc z n = ground arith

module _ ⦃fl : F64⦄ ⦃wl : Wayland⦄ where
  -- The placement moves the cascade on and touches nothing else.
  record OnlyCascade (m m' : WindowManager) : Type 0 where
    same_windows : m'.windows ≡ m.windows
    same_stack : m'.focus_stack ≡ m.focus_stack
    same_id : m'.next_id ≡ m.next_id
    same_z : m'.next_z ≡ m.next_z

  smart_cascade_position-OnlyCascade :
      (m : WindowManager) → OnlyCascade m (smart_cascade_position m).1
  unfolding smart_cascade_position
  smart_cascade_position-OnlyCascade m = ground arith

  abbrev counted : WindowManager → WindowManager
  counted m = record m { next_id = I32.add m.next_id (pos 1); next_z = next_usize m.next_z }

  registered-Advances :
      (m m' : WindowManager) (k : ℕ) (win : WindowState)
      → OnlyCascade (counted m) m'
      → contains_key k m.windows ≡ false
      → (is_focusable win ≡ true) × (win.focused ≡ false)
      → win.id ≡ m.next_id
      → win.z_order ≡ m.next_z
      → Budget m
      → Inv m
      → Advances m
          (record m' { windows = insert k win m'.windows; focus_stack = push m'.focus_stack k })
  registered-Advances m m' k win o absent plain is_id is_z b v = record {
    kept = record {
      formed =
          rw (o.same_windows, o.same_stack, o.same_id, o.same_z)
            (insert-IsWellFormed k win m.windows m.focus_stack absent plain m.next_id m.next_z is_id
              is_z in_range b.z_room v.formed);
      focus =
          rw (o.same_windows, o.same_stack)
            (insert-HasOneFocus k win m.windows m.focus_stack absent plain v.focus);
    };
    z_step = ground (arith, o.same_z, b.z_room);
    id_step = rw (o.same_id) (rw exact (omega (arith, pos_part-suc m.next_id b.id_positive)));
    id_stays_positive = rw (o.same_id) (rw exact (positive m.next_id b.id_positive));
  }
    where
      in_range : InRange (m.next_id +ℤ pos 1)
      in_range = in_range_lem m.next_id b.id_room b.id_positive

      exact : I32.add m.next_id (pos 1) ≡ m.next_id +ℤ pos 1
      exact = I32.add_lem m.next_id (pos 1) in_range

  -- Registering a surface whose key is free.
  pub add_window-Advances :
      (m : WindowManager) (s : wl.Surface)
      → contains_key (key s) m.windows ≡ false
      → Budget m
      → Inv m
      → Advances m (add_window m s).1
  unfolding add_window Window.new
  add_window-Advances m s absent b v =
      registered-Advances m (smart_cascade_position (counted m)).1 (key s) _
        (smart_cascade_position-OnlyCascade (counted m)) absent (refl, refl) refl refl b v

  changed-Advances :
      (m : WindowManager) (ws' : Windows)
      → SameWindows m.windows ws'
      → Budget m
      → Inv m
      → Advances m (record m { windows = ws' })
  changed-Advances m ws' same b v = still-Advances m _ b refl refl (SameWindows-Inv m ws' same v)

  modify-SameWindows :
      (k : ℕ) (f : WindowState → WindowState) (ws : Windows)
      → ((w : WindowState) → SameWindow (f w) w)
      → SameWindows ws (modify k f ws)
  modify-SameWindows k f ws same = map_values-SameWindows _ ws (λ j w. ground (arith, same w))

  modify_found-Advances :
      (m : WindowManager) (o : Option (ℕ × WindowState)) (f : WindowState → WindowState)
      → ((w : WindowState) → SameWindow (f w) w)
      → Budget m
      → Inv m
      → Advances m (modify_found m o f)
  unfolding modify_key
  modify_found-Advances m none f same b v = still-Advances m m b refl refl v
  modify_found-Advances m (some (k, win)) f same b v =
      changed-Advances m _ (modify-SameWindows k f m.windows same) b v

  toggle_maximize-SameWindow :
      (area : WorkArea) (w : WindowState) → SameWindow (toggle_maximize area w) w
  unfolding start_unmaximize start_maximize_to
  toggle_maximize-SameWindow area w = ground arith

  pub toggle_maximize_by_id-Advances :
      (m : WindowManager) (id : ℤ) → Budget m → Inv m → Advances m (toggle_maximize_by_id m id)
  unfolding toggle_maximize_by_id
  toggle_maximize_by_id-Advances m id =
      modify_found-Advances m (find_id m id) _ (toggle_maximize-SameWindow (work_area m))

  pub set_position_by_id-Advances :
      (m : WindowManager) (id x y : ℤ) → Budget m → Inv m → Advances m (set_position_by_id m id x y)
  unfolding set_position_by_id
  set_position_by_id-Advances m id x y =
      modify_found-Advances m (find_id m id) _ (λ w. (refl, refl, refl, refl))

  pub set_geometry_by_id-Advances :
      (m : WindowManager) (id x y w h : ℤ)
      → Budget m
      → Inv m
      → Advances m (set_geometry_by_id m id x y w h)
  unfolding set_geometry_by_id
  set_geometry_by_id-Advances m id x y w h =
      modify_found-Advances m (find_id m id) _ (λ w'. (refl, refl, refl, refl))

  commit_size-SameWindow : (w h : ℤ) (win : WindowState) → SameWindow (commit_size w h win) win
  unfolding commit_size
  commit_size-SameWindow w h win = ground arith

  pub update_geometry-Advances :
      (m : WindowManager) (s : wl.Surface) (w h : ℤ)
      → Budget m
      → Inv m
      → Advances m (update_geometry m s w h)
  unfolding update_geometry
  update_geometry-Advances m s w h b v =
      changed-Advances m _ (modify-SameWindows _ _ m.windows (commit_size-SameWindow w h)) b v

  selected-Advances :
      (m : WindowManager) (idx : Option ℕ) (o : Option ℕ)
      → Budget m
      → Inv m
      → Advances m (record m { alt_tab_idx = idx; windows = map_values (select o) m.windows })
  selected-Advances m idx o b v =
      let v' =
        SameWindows-Inv m _
          (map_values-SameWindows (select o) m.windows (λ k w. (refl, refl, refl, refl))) v in
      still-Advances m _ b refl refl (record { formed = v'.formed; focus = v'.focus })

  pub alt_tab_start-Advances :
      (m : WindowManager) → Budget m → Inv m → Advances m (alt_tab_start m).1
  unfolding alt_tab_start
  alt_tab_start-Advances m b v = elim (Bool-cases (ltb (visible_count m m.focus_stack) 2)) [
    | inl few ↦ rw (few, alt_tab_start) (still-Advances m m b refl refl v)
    | inr enough ↦ rw (enough, alt_tab_start) (selected-Advances m _ _ b v)
  ]

  pub alt_tab_next-Advances : (m : WindowManager) → Budget m → Inv m → Advances m (alt_tab_next m).1
  unfolding alt_tab_next
  alt_tab_next-Advances m b v = elim (Bool-cases (length m.focus_stack == 0)) [
    | inl empty ↦ rw (empty, alt_tab_next) (still-Advances m m b refl refl v)
    | inr some_left ↦ rw (some_left, alt_tab_next) (selected-Advances m _ _ b v)
  ]

  pub deselected-Inv :
      (m : WindowManager)
      → Inv m
      → Inv (record m { alt_tab_idx = none; windows = map_values deselect m.windows })
  deselected-Inv m v =
      let v' =
        SameWindows-Inv m _
          (map_values-SameWindows deselect m.windows (λ k w. (refl, refl, refl, refl))) v in
      record { formed = v'.formed; focus = v'.focus }

  pub alt_tab_cancel-Advances :
      (m : WindowManager) → Budget m → Inv m → Advances m (alt_tab_cancel m)
  unfolding alt_tab_cancel
  alt_tab_cancel-Advances m b v = still-Advances m _ b refl refl (deselected-Inv m v)

  pub contains-get_elem? : (ks : List ℕ) (i k : ℕ) → get_elem? ks i ≡ some k → contains k ks ≡ true
  contains-get_elem? [] i k e = cc
  contains-get_elem? (j ∷ ks) zero k e = ground arith
  contains-get_elem? (j ∷ ks) (suc i) k e = ground (arith, contains-get_elem? ks i k)

  -- A key of the stack moves to its top.
  pub pushed-IsWellFormed :
      (m : WindowManager) (k : ℕ)
      → contains k m.focus_stack ≡ true
      → Inv m
      → IsWellFormed m.windows (push (without k m.focus_stack) k) m.next_id m.next_z
  pushed-IsWellFormed m k on_stack v = record {
    keys_distinct = v.formed.keys_distinct;
    stack_distinct =
        push-Distinct k (without k m.focus_stack)
          (without-Distinct k m.focus_stack v.formed.stack_distinct)
          (ground (arith, contains-without k k m.focus_stack));
    stack_focusable = λ j h. v.formed.stack_focusable j (
        ground (
          arith,
          on_stack,
          contains-push j k (without k m.focus_stack),
          contains-without j k m.focus_stack,
        ));
    z_below = v.formed.z_below;
    z_once = v.formed.z_once;
    id_below = v.formed.id_below;
    id_once = v.formed.id_once;
  }

  commit_key-Advances :
      (m₀ m : WindowManager) (o : Option ℕ)
      → ((k : ℕ) → o ≡ some k → contains k m.focus_stack ≡ true)
      → m.next_z ≡ m₀.next_z
      → m.next_id ≡ m₀.next_id
      → Budget m₀
      → Inv m
      → Advances m₀ (commit_key m o)
  commit_key-Advances m₀ m none f z i b v = still-Advances m₀ m b z i v
  commit_key-Advances m₀ m (some k) f z i b v =
      let moved = pushed-IsWellFormed m k (f k refl) v in
      FocusesTop-Advances m₀ (focus_top-FocusesTop _ moved) b z i moved

  commit_index-Advances :
      (m : WindowManager) (o : Option ℕ) → Budget m → Inv m → Advances m (commit_index m o)
  commit_index-Advances m none b v = still-Advances m m b refl refl v
  commit_index-Advances m (some idx) b v =
      commit_key-Advances m _ (get_elem? m.focus_stack idx)
        (λ k e. contains-get_elem? m.focus_stack idx k e) refl refl b (deselected-Inv m v)

  pub alt_tab_commit-Advances :
      (m : WindowManager) → Budget m → Inv m → Advances m (alt_tab_commit m)
  unfolding alt_tab_commit
  alt_tab_commit-Advances m b v = commit_index-Advances m m.alt_tab_idx b v

  tick-SameWindow :
      (fuel : ℕ) (w w' : WindowState) (dt : fl.Float) → tick fuel w dt ≡ some w' → SameWindow w' w
  unfolding tick
  tick-SameWindow fuel w w' dt e = ground arith

  cons-SameWindows :
      (k : ℕ) (w w' : WindowState) (ws ws' : Windows)
      → SameWindow w' w
      → SameWindows ws ws'
      → SameWindows ((k, w) ∷ ws) ((k, w') ∷ ws')
  cons-SameWindows k w w' ws ws' s r = record {
    same_keys = ap (◌∷◌ k) r.same_keys;
    same_focusable = λ j. ground (arith, s.3, r.same_focusable j);
    earlier = λ j v e. elim (Bool-cases (k == j)) [
      | inl here ↦ (w, rw here, subst (λ u. SameWindow u w) (eq_of_some (rw here at e)) s)
      | inr there ↦ rw there (r.earlier j v (rw there at e))
    ];
  }

  tick_windows-SameWindows :
      (fuel : ℕ) (ws ws' : Windows) (dt : fl.Float)
      → tick_windows fuel ws dt ≡ some ws'
      → SameWindows ws ws'
  unfolding tick_windows
  tick_windows-SameWindows fuel [] ws' dt e =
      subst (SameWindows []) (eq_of_some e)
        (record { same_keys = refl; same_focusable = λ k. refl; earlier = λ k w h. cc })
  tick_windows-SameWindows fuel ((k, w) ∷ ws) ws' dt e =
      let (w₁, e₁, f) = >>=-eq-some (tick fuel w dt) _ e in
      let (ws₁, e₂, g) = >>=-eq-some (tick_windows fuel ws dt) _ f in
      subst (SameWindows ((k, w) ∷ ws)) (eq_of_some g) (
        cons-SameWindows k w w₁ ws ws₁ (tick-SameWindow fuel w w₁ dt e₁)
          (tick_windows-SameWindows fuel ws ws₁ dt e₂))

  ticked-Inv :
      (m : WindowManager) (ws : Windows) (last : Option ℕ)
      → SameWindows m.windows ws
      → Inv m
      → Inv (record m { windows = ws; last_tick = last })
  ticked-Inv m ws last s v =
      let v' = SameWindows-Inv m ws s v in record { formed = v'.formed; focus = v'.focus }

  pub tick_auto-Advances :
      (fuel : ℕ) (m : WindowManager) (now : ℕ) (r : fl.Float × WindowManager)
      → tick_auto fuel m now ≡ some r
      → Budget m
      → Inv m
      → Advances m r.1
  unfolding tick_auto tick_all
  tick_auto-Advances fuel m now r e b v =
      let (m₁, e₁, f) = >>=-eq-some _ _ e in
      let (ws, e₂, g) = >>=-eq-some (tick_windows fuel m.windows (frame_dt m.last_tick now)) _ e₁ in
      let same = tick_windows-SameWindows fuel m.windows ws (frame_dt m.last_tick now) e₂ in
      subst (Advances m) (eq_of_some g ∙ ap (λ (q : fl.Float × WindowManager). q.1) (eq_of_some f))
        (still-Advances m _ b refl refl (ticked-Inv m ws (some now) same v))
