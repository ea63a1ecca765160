-- ===== src/Toplevel/Sound.antt =====
-- The invariant of the table of toplevels, over all sequences of calls.
mod Table
use de.Prelude.{
  ℕ, ◌≡◌, refl, sym, ◌∙◌, subst, Bool, true, false, not, ◌||◌, Bool-cases, Option-cases, inl, inr,
  List, [], ◌∷◌, ◌++◌, Option, none, some, ◌==◌, ltb, is_some, is_none, ℤ, arith, contains,
  Distinct, contains-without, without-Distinct, push-Distinct,
}
use de.Toplevel.{
  X11Surface, Toplevel, Keyboard, Call, with_surface, Shells, new, find_toplevel, is_tracked,
  without_surface, update_toplevel,
}
use de.Toplevel.Focus.{is_or, has_focus, focus_surface_for_activation, focus_new_surface_if_allowed}
use de.Toplevel.X11
use de.Toplevel.X11.{
  managed, unmanaged, push_toplevel, untrack, position_of, position_of_id, or_zero, remove_at,
  insert_at, restack, restack_above, map_surface,
}
use de.Toplevel.Xdg
use de.Toplevel.Steps.{
  Op, new_toplevel, toplevel_destroyed, ack_configure, associated, map_request,
  map_override_redirect, unmapped, destroyed, configure_notified, ask_active, activation,
  closed_surface, sync_titles, xdg_move, xdg_resize, xdg_maximize, xdg_fullscreen, xdg_minimize,
  x11_move, x11_minimize, x11_unminimize, x11_resize, x11_maximize, x11_fullscreen, drop_swept,
  step, Allowed, run, HasX11Role, AllAllowed,
}
use de.Toplevel.Tables.{All, x11_count}
use de.Tray.Bytes.{Text}
use de.Toplevel.Titles.{sync_foreign_toplevels, advertise, advertise_if}
pub use de.Toplevel.Sound.Table.{Backed, IsTable}
use de.Toplevel.Sound.Table.{
  push_x11-IsTable, push_native-IsTable, without_surface-IsTable, update_toplevel-IsTable,
  restack_above-IsTable,
}

unfoldable pub IsOrderly : (role : ℕ → Bool) → Shells → Type 0
IsOrderly role s = IsTable role s.toplevels

focus-toplevels :
    (keyboard : Keyboard) (s : Shells) (k : ℕ)
    → (focus_surface_for_activation keyboard s k).0.toplevels ≡ s.toplevels
unfolding focus_surface_for_activation
focus-toplevels keyboard s k = elim (Option-cases (find_toplevel k s.toplevels)) [
  | inl e ↦ rw e refl
  | inr (t, e) ↦ elim (Bool-cases (is_or t)) [ inl o ↦ rw (e, o) refl | inr o ↦ rw (e, o) refl ]
]

new_focus-toplevels :
    (keyboard : Keyboard) (s : Shells) (k : ℕ)
    → (focus_new_surface_if_allowed keyboard s k).0.toplevels ≡ s.toplevels
unfolding focus_new_surface_if_allowed
new_focus-toplevels keyboard s k =
    elim (Bool-cases (is_some s.active_surface || has_focus keyboard)) [
      | inl e ↦ rw e refl
      | inr e ↦ rw e (focus-toplevels keyboard s k)
    ]

module _ (role : ℕ → Bool) where
  managed-Backed :
      (s : Shells) (window : X11Surface) (k : ℕ) (handle : Option ℕ)
      → role k ≡ true
      → is_some handle ≡ not window.is_override_redirect
      → Backed role (managed s window k handle)
  unfolding managed
  managed-Backed s window k handle q h = (refl, sym q, h)

  map_surface-IsOrderly :
      (keyboard : Keyboard) (handle : ℕ) (s : Shells) (k : ℕ) (window : X11Surface)
      → role k ≡ true
      → window.is_override_redirect ≡ false
      → IsOrderly role s
      → IsOrderly role (map_surface keyboard handle s k window).0
  unfolding IsOrderly map_surface
  map_surface-IsOrderly keyboard handle s k window q o h =
      elim (Bool-cases (is_tracked k s.toplevels)) [
        | inl e ↦ rw e h
        | inr e ↦
            rw
              (
                e,
                new_focus-toplevels keyboard (push_toplevel s (managed s window k (some handle))) k,
              )
              (push_x11-IsTable role (managed s window k (some handle)) s.toplevels h e
                (managed-Backed s window k (some handle) q (rw o refl)))
      ]

  associated-IsOrderly :
      (keyboard : Keyboard) (handle : ℕ) (s : Shells) (k : ℕ) (window : X11Surface)
      → role k ≡ true
      → IsOrderly role s
      → IsOrderly role (X11.surface_associated keyboard handle s k window).0
  unfolding IsOrderly X11.surface_associated
  associated-IsOrderly keyboard handle s k window q h =
      elim (Bool-cases (is_tracked k s.toplevels)) [
        | inl e ↦ rw e h
        | inr e ↦ elim (Bool-cases window.is_mapped) [
          | inr m ↦ simp (e, m) h
          | inl m ↦ elim (Bool-cases window.is_override_redirect) [
            | inl o ↦
                simp (e, m, o)
                  (push_x11-IsTable role (managed s window k none) s.toplevels h e
                    (managed-Backed s window k none q (rw o refl)))
            | inr o ↦
                simp
                  (
                    e,
                    m,
                    o,
                    new_focus-toplevels keyboard
                        (push_toplevel s (managed s window k (some handle))) k,
                  )
                  (push_x11-IsTable role (managed s window k (some handle)) s.toplevels h e
                    (managed-Backed s window k (some handle) q (rw o refl)))
          ]
        ]
      ]

  untrack-IsOrderly : (s : Shells) (k : ℕ) → IsOrderly role s → IsOrderly role (untrack s k)
  unfolding IsOrderly
  untrack-IsOrderly s k h = without_surface-IsTable role k s.toplevels h

  -- The handlers that look up the window's surface keep what each of their branches keeps.
  with_surface-IsOrderly :
      (o : Option ℕ) (s : Shells) (f : ℕ → Shells)
      → IsOrderly role s
      → ((k : ℕ) → o ≡ some k → IsOrderly role (f k))
      → IsOrderly role (with_surface o s f)
  with_surface-IsOrderly none s f h g = h
  with_surface-IsOrderly (some k) s f h g = g k refl

  with_surface-IsOrderly_fst :
      (o : Option ℕ) (r : Shells × List Call) (f : ℕ → Shells × List Call)
      → IsOrderly role r.0
      → ((k : ℕ) → o ≡ some k → IsOrderly role (f k).0)
      → IsOrderly role (with_surface o r f).0
  with_surface-IsOrderly_fst none s f h g = h
  with_surface-IsOrderly_fst (some k) s f h g = g k refl

  map_request-IsOrderly :
      (keyboard : Keyboard) (handle : ℕ) (mapped : Bool) (s : Shells) (window : X11Surface)
      → HasX11Role role window.wl_surface
      → window.is_override_redirect ≡ false
      → IsOrderly role s
      → IsOrderly role (X11.map_window_request keyboard handle mapped s window).0
  unfolding X11.map_window_request
  map_request-IsOrderly keyboard handle false s window q o h = h
  map_request-IsOrderly keyboard handle true s window q o h =
      with_surface-IsOrderly_fst window.wl_surface (s, [])
        (λ k. map_surface keyboard handle s k window) h
        (λ k w. map_surface-IsOrderly keyboard handle s k window (rw w at q) o h)

  unmanaged-IsOrderly :
      (s : Shells) (window : X11Surface)
      → HasX11Role role window.wl_surface
      → window.is_override_redirect ≡ true
      → IsOrderly role s
      → IsOrderly role (X11.mapped_override_redirect_window s window)
  unfolding IsOrderly X11.mapped_override_redirect_window
  unmanaged-IsOrderly s window q o h = with_surface-IsOrderly window.wl_surface s _ h (λ k w.
      elim (Bool-cases (is_tracked k s.toplevels)) [
        | inl e ↦ rw e h
        | inr e ↦
            let x : role k ≡ true = rw w at q in
            rw e
              (push_x11-IsTable role (unmanaged window k) s.toplevels h e (refl, sym x, rw o refl))
      ])

  destroyed-IsOrderly :
      (s : Shells) (window : X11Surface)
      → IsOrderly role s
      → IsOrderly role (X11.destroyed_window s window).0
  unfolding X11.destroyed_window
  destroyed-IsOrderly s window h =
      with_surface-IsOrderly_fst window.wl_surface (s, []) _ h
        (λ k w. elim (Bool-cases (is_tracked k s.toplevels)) [
          | inl e ↦ rw e (untrack-IsOrderly s k h)
          | inr e ↦ rw e h
        ])

  unmapped-IsOrderly :
      (s : Shells) (window : X11Surface)
      → IsOrderly role s
      → IsOrderly role (X11.unmapped_window s window).0
  unfolding X11.unmapped_window
  unmapped-IsOrderly s window h =
      with_surface-IsOrderly_fst window.wl_surface _ _ h (λ k w. untrack-IsOrderly s k h)

  notify-IsOrderly :
      (s : Shells) (window : X11Surface) (geometry : ℤ × ℤ × ℤ × ℤ) (above : Option ℕ)
      → IsOrderly role s
      → IsOrderly role (X11.configure_notify s window geometry above)
  unfolding IsOrderly X11.configure_notify
  notify-IsOrderly s window geometry above h = elim (Bool-cases window.is_override_redirect) [
    | inr o ↦ rw o h
    | inl o ↦ rw o (
        with_surface-IsOrderly window.wl_surface s _ h (λ k w.
          restack_above-IsTable role k above _ (
            update_toplevel-IsTable role k (λ t. record t { x = geometry.0; y = geometry.1 })
              s.toplevels (λ j t. refl) (λ t b. b) h)))
  ]

  native-IsOrderly :
      (keyboard : Keyboard) (handle : ℕ) (s : Shells) (k : ℕ)
      → role k ≡ false
      → IsOrderly role s
      → IsOrderly role (Xdg.new_toplevel keyboard handle s k).0
  unfolding IsOrderly Xdg.new_toplevel Xdg.native
  native-IsOrderly keyboard handle s k q h =
      subst (IsTable role) (sym (new_focus-toplevels keyboard _ k))
        (push_native-IsTable role (Xdg.native s k handle) s.toplevels h refl (refl, sym q, refl))

  ack-IsOrderly :
      (s : Shells) (surface serial : ℕ) (csd : Option Bool)
      → IsOrderly role s
      → IsOrderly role (Xdg.ack_configure s surface serial csd)
  unfolding IsOrderly Xdg.ack_configure
  ack-IsOrderly s surface serial none h = h
  ack-IsOrderly s surface serial (some c) h =
      update_toplevel-IsTable role surface (λ t. record t { csd = c }) s.toplevels (λ j t. refl)
        (λ t b. b) h

  activation-IsOrderly :
      (keyboard : Keyboard) (s : Shells) (k : ℕ)
      → IsOrderly role s
      → IsOrderly role (focus_surface_for_activation keyboard s k).0
  unfolding IsOrderly
  activation-IsOrderly keyboard s k h = subst (IsTable role) (sym (focus-toplevels keyboard s k)) h

  advertise_if-Backed :
      (handle : Option ℕ) (texts : Text × Text) (t : Toplevel)
      → Backed role t
      → Backed role (advertise_if handle texts t).0
  unfolding advertise
  advertise_if-Backed none texts t b = b
  advertise_if-Backed (some handle) texts t b = b

  sync-Backed :
      (texts : ℕ → Text × Text) (ts : List Toplevel)
      → All (Backed role) ts
      → All (Backed role) (sync_foreign_toplevels texts ts).0
  unfolding sync_foreign_toplevels
  sync-Backed texts [] h = tt
  sync-Backed texts (t ∷ ts) (b, h) =
      (advertise_if-Backed t.foreign_handle (texts t.surface) t b, sync-Backed texts ts h)

  sync-x11_count :
      (k : ℕ) (texts : ℕ → Text × Text) (ts : List Toplevel)
      → x11_count k (sync_foreign_toplevels texts ts).0 ≡ x11_count k ts
  unfolding sync_foreign_toplevels advertise
  sync-x11_count k texts [] = refl
  sync-x11_count k texts (t ∷ ts) = elim (Option-cases t.foreign_handle) [
    | inl e ↦ rw (e, sync-x11_count k texts ts) refl
    | inr (handle, e) ↦ rw (e, sync-x11_count k texts ts) refl
  ]

  sync-IsTable :
      (texts : ℕ → Text × Text) (ts : List Toplevel)
      → IsTable role ts
      → IsTable role (sync_foreign_toplevels texts ts).0
  sync-IsTable texts ts (a, c) = (sync-Backed texts ts a, λ k. rw (sync-x11_count k texts ts) (c k))

  step-IsOrderly :
      (s : Shells) (op : Op) → Allowed role op → IsOrderly role s → IsOrderly role (step s op).0
  unfolding IsOrderly drop_swept Xdg.toplevel_destroyed Xdg.move_request Xdg.resize_request
      Xdg.maximize_request Xdg.fullscreen_request Xdg.minimize_request X11.move_request
      X11.minimize_request X11.unminimize_request X11.resize_request X11.maximize_request
      X11.fullscreen_request X11.active_window_request
  step-IsOrderly s (new_toplevel keyboard handle k) a h = native-IsOrderly keyboard handle s k a h
  step-IsOrderly s (toplevel_destroyed k) a h = h
  step-IsOrderly s (ack_configure k serial csd) a h = ack-IsOrderly s k serial csd h
  step-IsOrderly s (associated keyboard handle k window) a h =
      associated-IsOrderly keyboard handle s k window a h
  step-IsOrderly s (map_request keyboard handle mapped window) a h =
      map_request-IsOrderly keyboard handle mapped s window a.1 a.0 h
  step-IsOrderly s (map_override_redirect window) a h = unmanaged-IsOrderly s window a.1 a.0 h
  step-IsOrderly s (unmapped window) a h = unmapped-IsOrderly s window h
  step-IsOrderly s (destroyed window) a h = destroyed-IsOrderly s window h
  step-IsOrderly s (configure_notified window geometry above) a h =
      notify-IsOrderly s window geometry above h
  step-IsOrderly s (ask_active keyboard window) a h =
      with_surface-IsOrderly_fst window.wl_surface _ _ h (λ k w. h)
  step-IsOrderly s (activation keyboard k) a h = activation-IsOrderly keyboard s k h
  step-IsOrderly s (closed_surface k) a h = without_surface-IsTable role k s.toplevels h
  step-IsOrderly s (sync_titles texts) a h = sync-IsTable texts s.toplevels h
  step-IsOrderly s (xdg_move false k) a h = h
  step-IsOrderly s (xdg_move true k) a h = h
  step-IsOrderly s (xdg_resize false k edges) a h = h
  step-IsOrderly s (xdg_resize true k none) a h = h
  step-IsOrderly s (xdg_resize true k (some edge)) a h = h
  step-IsOrderly s (xdg_maximize want sent k) a h = h
  step-IsOrderly s (xdg_fullscreen want sent k name) a h = h
  step-IsOrderly s (xdg_minimize k) a h = h
  step-IsOrderly s (x11_move window) a h = with_surface-IsOrderly window.wl_surface s _ h (λ k w. h)
  step-IsOrderly s (x11_minimize window) a h =
      with_surface-IsOrderly window.wl_surface s _ h (λ k w. h)
  step-IsOrderly s (x11_unminimize window) a h =
      with_surface-IsOrderly window.wl_surface s _ h (λ k w. h)
  step-IsOrderly s (x11_resize window edges) a h =
      with_surface-IsOrderly window.wl_surface s _ h (λ k w. h)
  step-IsOrderly s (x11_maximize want window) a h =
      with_surface-IsOrderly window.wl_surface s _ h (λ k w. h)
  step-IsOrderly s (x11_fullscreen want window) a h =
      with_surface-IsOrderly window.wl_surface s _ h (λ k w. h)

  run-IsOrderly :
      (s : Shells) (ops : List Op)
      → AllAllowed role ops
      → IsOrderly role s
      → IsOrderly role (run s ops)
  unfolding run
  run-IsOrderly s [] a h = h
  run-IsOrderly s (op ∷ ops) a h = run-IsOrderly (step s op).0 ops a.1 (step-IsOrderly s op a.0 h)

  -- After any calls of the clients, of smithay and of the frame, in which no surface changes its role,
  -- each entry of the table is a native toplevel or an X11 window as the role of its surface is, it has
  -- a handle for taskbars exactly if it is not an override-redirect window, and no surface has two X11
  -- entries.
  pub run-new-IsOrderly : (ops : List Op) → AllAllowed role ops → IsOrderly role (run new ops)
  unfolding IsOrderly
  run-new-IsOrderly ops a = run-IsOrderly new ops a (tt, λ k. omega arith)
