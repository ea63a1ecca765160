-- ===== src/Wm/Focus/Keeps.antt =====
-- `focus_key` and `focus_top` keep the window manager well formed and leave at most one focus.
use de.Prelude.{
  ℕ, ◌+◌, ◌<◌, ◌≡◌, refl, sym, ◌∙◌, ap, true, false, ◌||◌, List, [], ◌∷◌, some, ◌==◌, ℤ, contains,
  Distinct, last?, last?-push, push, without, arith, contains-push, contains-without, push-Distinct,
  without-Distinct,
}
use mathlib.Core.List.{reverse, reverse-cons, reverse-reverse}
use de.HashMap.{map_values, keys-map_values, get-map_values, get-map_values_inv}
use de.F64.{F64}
use de.Window.{Wayland}
use de.Wm.{WindowManager, next_usize}
use de.Wm.Focus.{raise, unfocus, focus_key, focus_from, focus_top, focusable_at}
use de.Wm.Invariant.{Windows, focusable_in, IsWellFormed, HasOneFocus, Inv, map_values-IsWellFormed}

module _ ⦃fl : F64⦄ ⦃wl : Wayland⦄ where
  -- `next_z += 1` does not wrap.
  abbrev pub HasRoom : ℕ → Type 0
  HasRoom z = z + 1 < 18446744073709551616

  focusable_in-raise :
      (k z : ℕ) (ws : Windows) (j : ℕ)
      → focusable_in (map_values (raise k z) ws) j ≡ focusable_in ws j
  focusable_in-raise k z ws j = ground (arith, get-map_values j (raise k z) ws)

  focusable_in-unfocus :
      (ws : Windows) (j : ℕ) → focusable_in (map_values unfocus ws) j ≡ focusable_in ws j
  focusable_in-unfocus ws j = ground (arith, get-map_values j unfocus ws)

  contains-raised_stack :
      (k : ℕ) (stack : List ℕ) (i : ℕ)
      → contains i (push (without k stack) k) ≡ (contains i stack || k == i)
  contains-raised_stack k stack i =
      ground (arith, contains-push i k (without k stack), contains-without i k stack)

  raised_stack-Distinct :
      (k : ℕ) (stack : List ℕ) → Distinct stack → Distinct (push (without k stack) k)
  raised_stack-Distinct k stack d =
      push-Distinct k (without k stack) (without-Distinct k stack d)
        (ground (arith, contains-without k k stack))

  raised-IsWellFormed :
      (k : ℕ) (ws : Windows) (stack : List ℕ) (next_id : ℤ) (next_z : ℕ)
      → IsWellFormed ws stack next_id next_z
      → HasRoom next_z
      → focusable_in ws k ≡ true
      → IsWellFormed
          (map_values (raise k next_z) ws)
          (push (without k stack) k)
          next_id
          (next_usize next_z)
  raised-IsWellFormed k ws stack next_id next_z c room f = record {
    keys_distinct = rw (keys-map_values (raise k next_z) ws) c.keys_distinct;
    stack_distinct = raised_stack-Distinct k stack c.stack_distinct;
    stack_focusable = λ i h. ground (
      arith,
      focusable_in-raise k next_z ws i,
      contains-raised_stack k stack i,
      c.stack_focusable i,
    );
    z_below = λ i w e.
        let (w', e', p) = get-map_values_inv i (raise k next_z) ws w e in
        ground (arith, c.z_below i w' e');
    z_once = λ i j v w e₁ e₂ same.
        let (v', e₁', p) = get-map_values_inv i (raise k next_z) ws v e₁ in
        let (w', e₂', q) = get-map_values_inv j (raise k next_z) ws w e₂ in
        ground (arith, c.z_below i v' e₁', c.z_below j w' e₂', c.z_once i j v' w' e₁' e₂');
    id_below = λ i w e.
        let (w', e', p) = get-map_values_inv i (raise k next_z) ws w e in
        ground (arith, c.id_below i w' e');
    id_once = λ i j v w e₁ e₂ same.
        let (v', e₁', p) = get-map_values_inv i (raise k next_z) ws v e₁ in
        let (w', e₂', q) = get-map_values_inv j (raise k next_z) ws w e₂ in
        c.id_once i j v' w' e₁' e₂' (ground arith);
  }

  raised-HasOneFocus :
      (k : ℕ) (ws : Windows) (stack : List ℕ) (next_z : ℕ)
      → HasOneFocus (map_values (raise k next_z) ws) (push (without k stack) k)
  raised-HasOneFocus k ws stack next_z = record {
    focused_on_stack = λ i w e f.
        let (w', e', p) = get-map_values_inv i (raise k next_z) ws w e in
        ground (arith, contains-raised_stack k stack i);
    focused_once = λ i j v w e₁ e₂ f₁ f₂.
        let (v', e₁', p) = get-map_values_inv i (raise k next_z) ws v e₁ in
        let (w', e₂', q) = get-map_values_inv j (raise k next_z) ws w e₂ in ground arith;
  }

  -- What `focus_key` gives for a key that can take the focus.
  abbrev pub raised : WindowManager → ℕ → WindowManager
  raised m k = record m {
    next_z = next_usize m.next_z;
    windows = map_values (raise k m.next_z) m.windows;
    focus_stack = push (without k m.focus_stack) k;
  }

  pub focus_key_lem :
      (m : WindowManager) (k : ℕ) → focusable_at m k ≡ true → focus_key m k ≡ (true, raised m k)
  unfolding focus_key
  focus_key_lem m k f = rw (f, focus_key)

  pub focus_key_refused :
      (m : WindowManager) (k : ℕ) → focusable_at m k ≡ false → focus_key m k ≡ (false, m)
  unfolding focus_key
  focus_key_refused m k f = rw (f, focus_key)

  pub raised-Inv :
      (m : WindowManager) (k : ℕ)
      → IsWellFormed m.windows m.focus_stack m.next_id m.next_z
      → HasRoom m.next_z
      → focusable_at m k ≡ true
      → Inv (raised m k)
  raised-Inv m k c room f = record {
    formed = raised-IsWellFormed k m.windows m.focus_stack m.next_id m.next_z c room f;
    focus = raised-HasOneFocus k m.windows m.focus_stack m.next_z;
  }

  unfocused-HasOneFocus :
      (ws : Windows) (stack : List ℕ) → HasOneFocus (map_values unfocus ws) stack
  unfocused-HasOneFocus ws stack = record {
    focused_on_stack =
        λ i w e f. let (w', e', p) = get-map_values_inv i unfocus ws w e in absurd (ground arith);
    focused_once = λ i j v w e₁ e₂ f₁ f₂.
        let (v', e', p) = get-map_values_inv i unfocus ws v e₁ in absurd (ground arith);
  }

  pub unfocused-Inv :
      (m : WindowManager)
      → IsWellFormed m.windows m.focus_stack m.next_id m.next_z
      → Inv (record m { focus_stack = []; windows = map_values unfocus m.windows })
  unfocused-Inv m c = record {
    formed = map_values-IsWellFormed unfocus (λ k w. (refl, refl)) c [] tt (λ k h. cc);
    focus = unfocused-HasOneFocus m.windows [];
  }

  abbrev pub unfocused : WindowManager → WindowManager
  unfocused m = record m { focus_stack = []; windows = map_values unfocus m.windows }

  -- What `focus_top` does to a well-formed state: it focuses the top of the stack, or nothing.
  pub data FocusesTop (m : WindowManager) : WindowManager → Type 0 where
    top :
        (k : ℕ) → last? m.focus_stack ≡ some k → focusable_at m k ≡ true → FocusesTop m (raised m k)
    nothing : m.focus_stack ≡ [] → FocusesTop m (unfocused m)

  focus_from-FocusesTop :
      (r : List ℕ) (m : WindowManager)
      → reverse r ≡ m.focus_stack
      → IsWellFormed m.windows m.focus_stack m.next_id m.next_z
      → FocusesTop m (focus_from r m)
  unfolding focus_from
  focus_from-FocusesTop [] m e c = nothing (sym e)
  focus_from-FocusesTop (k ∷ below) m e c = rw (e, focus_key_lem m k can) (top k is_last can)
    where
      stack : m.focus_stack ≡ push (reverse below) k
      stack = sym e ∙ reverse-cons k below

      is_last : last? m.focus_stack ≡ some k
      is_last = rw stack (last?-push k (reverse below))

      can : focusable_at m k ≡ true
      can =
          c.stack_focusable k
            (ground (arith, ap (contains k) stack, contains-push k k (reverse below)))

  pub focus_top-FocusesTop :
      (m : WindowManager)
      → IsWellFormed m.windows m.focus_stack m.next_id m.next_z
      → FocusesTop m (focus_top m)
  unfolding focus_top
  focus_top-FocusesTop m c =
      focus_from-FocusesTop (reverse m.focus_stack) m (reverse-reverse m.focus_stack) c

  pub FocusesTop-Inv :
      {m m' : WindowManager}
      → FocusesTop m m'
      → IsWellFormed m.windows m.focus_stack m.next_id m.next_z
      → HasRoom m.next_z
      → Inv m'
  FocusesTop-Inv {m} (top k e can) c room = raised-Inv m k c room can
  FocusesTop-Inv {m} (nothing e) c room = unfocused-Inv m c
