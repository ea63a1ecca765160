-- ===== src/Wm/Invariant/Parts.antt =====
-- The parts of a step that keep the window manager well formed: a change of windows that leaves
-- ids, z-orders and focus alone, a window that leaves the focus stack, a removal and a registration.
use de.Prelude.{
  ℕ, ◌≡◌, sym, ◌∙◌, subst, true, false, List, Option, none, some, is_some_and, if◌then◌else◌, ◌==◌,
  ℤ, ◌+ℤ◌, +ℤ_parts, pos, contains, push, without, arith, contains-push, contains-without,
  push-Distinct, without-Distinct,
}
use de.Prelude.I32
use de.Prelude.I32.{InRange}
use de.HashMap.{
  get, keys, insert, remove, map_values, modify, on_some, keys-map_values, get-map_values,
  get-map_values_inv, get-insert, get-remove, insert-Distinct, remove-Distinct, get-eq-none,
  contains_key,
}
use de.F64.{F64}
use de.Window.{Wayland, WindowState}
use de.Wm.{WindowManager, is_focusable, next_usize}
use de.Wm.Focus.Keeps.{HasRoom}
use de.Wm.Invariant.{Windows, focusable_in, IsWellFormed, HasOneFocus, Inv, map_values-IsWellFormed}

module _ ⦃fl : F64⦄ ⦃wl : Wayland⦄ where
  -- The window is the other one as far as identity and focus go.
  abbrev pub SameWindow : WindowState → WindowState → Type 0
  SameWindow w' w =
      (w'.id ≡ w.id)
      × (w'.z_order ≡ w.z_order)
      × (w'.focused ≡ w.focused)
      × (is_focusable w' ≡ is_focusable w)

  pub record SameWindows (ws ws' : Windows) : Type 0 where
    pub same_keys : keys ws' ≡ keys ws
    pub same_focusable : (k : ℕ) → focusable_in ws' k ≡ focusable_in ws k
    pub earlier :
        (k : ℕ) (w' : WindowState)
        → get k ws' ≡ some w'
        → (w : WindowState) × (get k ws ≡ some w) × SameWindow w' w

  pub map_values-SameWindows :
      (g : ℕ → WindowState → WindowState) (ws : Windows)
      → ((k : ℕ) (w : WindowState) → SameWindow (g k w) w)
      → SameWindows ws (map_values g ws)
  map_values-SameWindows g ws same = record {
    same_keys = keys-map_values g ws;
    same_focusable =
        λ k. focusable-on_some k (get k ws) (get k (map_values g ws)) (get-map_values k g ws);
    earlier = λ k w' e.
        let (w, e', p) = get-map_values_inv k g ws w' e in
        (w, e', subst (λ v. SameWindow v w) (sym p) (same k w));
  }
    where
      focusable-on_some :
          (k : ℕ) (o o' : Option WindowState)
          → o' ≡ on_some (g k) o
          → is_some_and o' is_focusable ≡ is_some_and o is_focusable
      focusable-on_some k none o' e = rw e
      focusable-on_some k (some w) o' e = rw e (same k w).3

  pub SameWindows-Inv :
      (m : WindowManager) (ws' : Windows)
      → SameWindows m.windows ws'
      → Inv m
      → Inv (record m { windows = ws' })
  SameWindows-Inv m ws' s v = record {
    formed = record {
      keys_distinct = rw (s.same_keys) v.formed.keys_distinct;
      stack_distinct = v.formed.stack_distinct;
      stack_focusable = λ k h. s.same_focusable k ∙ v.formed.stack_focusable k h;
      z_below =
          λ k w e. let (w₀, e₀, p) = s.earlier k w e in ground (arith, v.formed.z_below k w₀ e₀);
      z_once = λ j k a b e₁ e₂ same.
          let (a₀, f₁, p) = s.earlier j a e₁ in
          let (b₀, f₂, q) = s.earlier k b e₂ in v.formed.z_once j k a₀ b₀ f₁ f₂ (ground arith);
      id_below =
          λ k w e. let (w₀, e₀, p) = s.earlier k w e in ground (arith, v.formed.id_below k w₀ e₀);
      id_once = λ j k a b e₁ e₂ same.
          let (a₀, f₁, p) = s.earlier j a e₁ in
          let (b₀, f₂, q) = s.earlier k b e₂ in v.formed.id_once j k a₀ b₀ f₁ f₂ (ground arith);
    };
    focus = record {
      focused_on_stack = λ k w e f.
          let (w₀, e₀, p) = s.earlier k w e in v.focus.focused_on_stack k w₀ e₀ (ground arith);
      focused_once = λ j k a b e₁ e₂ f g.
          let (a₀, f₁, p) = s.earlier j a e₁ in
          let (b₀, f₂, q) = s.earlier k b e₂ in
          v.focus.focused_once j k a₀ b₀ f₁ f₂ (ground arith) (ground arith);
    };
  }

  -- A window that leaves the focus stack may change in any way that keeps its id and z-order.
  pub leave-IsWellFormed :
      (k : ℕ) (f : WindowState → WindowState) (ws : Windows) (stack : List ℕ) (next_id : ℤ)
      (next_z : ℕ)
      → ((w : WindowState) → ((f w).id ≡ w.id) × ((f w).z_order ≡ w.z_order))
      → IsWellFormed ws stack next_id next_z
      → IsWellFormed (modify k f ws) (without k stack) next_id next_z
  leave-IsWellFormed k f ws stack next_id next_z keeps c =
      map_values-IsWellFormed _ (λ j w. ground (arith, keeps w)) c (without k stack)
        (without-Distinct k stack c.stack_distinct)
        (λ i h. ground (
          arith,
          contains-without i k stack,
          c.stack_focusable i,
          get-map_values i (λ j v. if j == k then f v else v) ws,
        ))

  pub remove-IsWellFormed :
      (k : ℕ) (ws : Windows) (stack : List ℕ) (next_id : ℤ) (next_z : ℕ)
      → IsWellFormed ws stack next_id next_z
      → IsWellFormed (remove k ws) (without k stack) next_id next_z
  remove-IsWellFormed k ws stack next_id next_z c = record {
    keys_distinct = remove-Distinct k ws c.keys_distinct;
    stack_distinct = without-Distinct k stack c.stack_distinct;
    stack_focusable =
        λ i h. ground (arith, contains-without i k stack, c.stack_focusable i, get-remove i k ws);
    z_below = λ i w e. c.z_below i w (kept i w e);
    z_once = λ i j v w e₁ e₂. c.z_once i j v w (kept i v e₁) (kept j w e₂);
    id_below = λ i w e. c.id_below i w (kept i w e);
    id_once = λ i j v w e₁ e₂. c.id_once i j v w (kept i v e₁) (kept j w e₂);
  }
    where
      kept : (i : ℕ) (w : WindowState) → get i (remove k ws) ≡ some w → get i ws ≡ some w
      kept i w e = ground (arith, get-remove i k ws)

  pub remove-HasOneFocus :
      (k : ℕ) (ws : Windows) (stack : List ℕ)
      → HasOneFocus ws stack
      → HasOneFocus (remove k ws) (without k stack)
  remove-HasOneFocus k ws stack o = record {
    focused_on_stack = λ i w e f.
        ground (arith, get-remove i k ws, contains-without i k stack, o.focused_on_stack i w);
    focused_once = λ i j v w e₁ e₂. o.focused_once i j v w (kept i v e₁) (kept j w e₂);
  }
    where
      kept : (i : ℕ) (w : WindowState) → get i (remove k ws) ≡ some w → get i ws ≡ some w
      kept i w e = ground (arith, get-remove i k ws)

  -- A new window under a new key, with the id and the z-order that the counters hold, goes to the
  -- top of the focus stack without the focus.
  module _ (k : ℕ) (win : WindowState) (ws : Windows) (stack : List ℕ)
      (absent : contains_key k ws ≡ false)
      (plain : (is_focusable win ≡ true) × (win.focused ≡ false)) where
    off_stack :
        ((i : ℕ) → contains i stack ≡ true → focusable_in ws i ≡ true) → contains k stack ≡ false
    off_stack f = ground (arith, f k, get-eq-none k ws absent)

    pub insert-IsWellFormed :
        (next_id : ℤ) (next_z : ℕ)
        → win.id ≡ next_id
        → win.z_order ≡ next_z
        → InRange (next_id +ℤ pos 1)
        → HasRoom next_z
        → IsWellFormed ws stack next_id next_z
        → IsWellFormed
            (insert k win ws)
            (push stack k)
            (I32.add next_id (pos 1))
            (next_usize next_z)
    insert-IsWellFormed next_id next_z is_id is_z fits room c = record {
      keys_distinct = insert-Distinct k win ws c.keys_distinct;
      stack_distinct = push-Distinct k stack c.stack_distinct (off_stack c.stack_focusable);
      stack_focusable = λ i h.
          ground (arith, contains-push i k stack, c.stack_focusable i, get-insert i k win ws);
      z_below = λ i w e. ground (arith, get-insert i k win ws, c.z_below i w);
      z_once = λ i j v w e₁ e₂ same. ground (
        arith,
        get-insert i k win ws,
        get-insert j k win ws,
        c.z_below i v,
        c.z_below j w,
        c.z_once i j v w,
      );
      id_below = λ i w e. ground (
        arith,
        get-insert i k win ws,
        c.id_below i w,
        I32.add_lem next_id (pos 1) fits,
        +ℤ_parts next_id (pos 1),
      );
      id_once = λ i j v w e₁ e₂ same. ground (
        arith,
        get-insert i k win ws,
        get-insert j k win ws,
        c.id_below i v,
        c.id_below j w,
        c.id_once i j v w,
      );
    }

    pub insert-HasOneFocus : HasOneFocus ws stack → HasOneFocus (insert k win ws) (push stack k)
    insert-HasOneFocus o = record {
      focused_on_stack = λ i w e f.
          ground (arith, get-insert i k win ws, contains-push i k stack, o.focused_on_stack i w);
      focused_once = λ i j v w e₁ e₂ f g.
          ground (arith, get-insert i k win ws, get-insert j k win ws, o.focused_once i j v w);
    }
