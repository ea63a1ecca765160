-- ===== src/Toplevel/Titles.antt =====
-- What taskbars are told of a toplevel's title and application: `sync_foreign_toplevels` of
-- crates/compositor-slint/src/wayland_state.rs and `property_notify` of wayland/xwayland.rs.
use de.Prelude.{
  ℕ, ◌≡◌, refl, sym, Bool, true, false, not, Bool-cases, inl, inr, List, [], ◌∷◌, ◌++◌, Option,
  none, some, if◌then◌else◌, ◌==◌,
}
use de.Tray.Bytes.{Text, same, same_refl, same-eq}
use de.Toplevel.{
  X11Surface, Toplevel, Call, send_title, send_app_id, send_done, Shells, with_surface,
}

abbrev pub sent : Bool → List Call → List Call
sent true calls = []
sent false calls = calls

-- The part of a round for an entry with a handle: the entry afterwards and what is sent. The new
-- texts are told only if they differ from those that were told last.
unfoldable pub advertise : (handle : ℕ) → (title app_id : Text) → Toplevel → Toplevel × List Call
advertise handle title app_id t =
    let same_title = same title t.last_advertised_title in
    let same_app = same app_id t.last_advertised_app_id in
    (
      record t {
        last_advertised_title = if same_title then t.last_advertised_title else title;
        last_advertised_app_id = if same_app then t.last_advertised_app_id else app_id;
      },
      sent same_title (send_title handle title ∷ [])
          ++ sent same_app (send_app_id handle app_id ∷ [])
          ++ sent same_title (send_done handle ∷ [])
          ++ sent (not same_title) (sent same_app (send_done handle ∷ [])),
    )

abbrev pub advertise_if : Option ℕ → Text × Text → Toplevel → Toplevel × List Call
advertise_if none texts t = (t, [])
advertise_if (some handle) (title, app_id) t = advertise handle title app_id t

-- `texts` is what smithay tells of the title and the application of a toplevel now.
unfoldable pub sync_foreign_toplevels :
    (texts : ℕ → Text × Text) → List Toplevel → List Toplevel × List Call
unfolding advertise
sync_foreign_toplevels texts [] = ([], [])
sync_foreign_toplevels texts (t ∷ ts) =
    let (t', calls) = advertise_if t.foreign_handle (texts t.surface) t in
    let (ts', more) = sync_foreign_toplevels texts ts in (t' ∷ ts', calls ++ more)

-- `WmWindowProperty::Title`: the first entry of the surface, if it has a handle.
abbrev pub title_if : Option ℕ → Text → Toplevel → Toplevel × List Call
title_if none title t = (t, [])
title_if (some handle) title t = (
  record t {
    last_advertised_title =
        if same title t.last_advertised_title then t.last_advertised_title else title;
  },
  sent (same title t.last_advertised_title) (send_title handle title ∷ send_done handle ∷ []),
)

-- `WmWindowProperty::Class`
abbrev pub class_if : Option ℕ → Text → Toplevel → Toplevel × List Call
class_if none app_id t = (t, [])
class_if (some handle) app_id t = (
  record t {
    last_advertised_app_id =
        if same app_id t.last_advertised_app_id then t.last_advertised_app_id else app_id;
  },
  sent (same app_id t.last_advertised_app_id) (send_app_id handle app_id ∷ send_done handle ∷ []),
)

abbrev pub at_first :
    ℕ → (Toplevel → Toplevel × List Call) → List Toplevel → List Toplevel × List Call
at_first surface f [] = ([], [])
at_first surface f (t ∷ ts) =
    let (ts', calls) = at_first surface f ts in
    let (t', own) = f t in if t.surface == surface then (t' ∷ ts, own) else (t ∷ ts', calls)

abbrev pub kept_toplevels : Shells → List Toplevel × List Call → Shells × List Call
kept_toplevels s (ts, calls) = (record s { toplevels = ts }, calls)

unfoldable pub title_notify : Shells → X11Surface → Shells × List Call
title_notify s window =
    with_surface window.wl_surface (s, [])
      (λ k.
        kept_toplevels s (at_first k (λ t. title_if t.foreign_handle window.title t) s.toplevels))

unfoldable pub class_notify : Shells → X11Surface → Shells × List Call
class_notify s window =
    with_surface window.wl_surface (s, [])
      (λ k.
        kept_toplevels s
          (at_first k (λ t. class_if t.foreign_handle window.app_class t) s.toplevels))

keep_or : (a b : Text) → (if same a b then b else a) ≡ a
keep_or a b = elim (Bool-cases (same a b)) [
  | inl e ↦ rw e (sym (same-eq a b e))
  | inr e ↦ rw e refl
]

-- What a round leaves: the texts that were told last are those of now.
advertise-told :
    (handle : ℕ) (title app_id : Text) (t : Toplevel)
    → ((advertise handle title app_id t).0.last_advertised_title ≡ title)
      × ((advertise handle title app_id t).0.last_advertised_app_id ≡ app_id)
unfolding advertise
advertise-told handle title app_id t =
    (keep_or title t.last_advertised_title, keep_or app_id t.last_advertised_app_id)

advertise-quiet :
    (handle : ℕ) (title app_id : Text) (t : Toplevel)
    → t.last_advertised_title ≡ title
    → t.last_advertised_app_id ≡ app_id
    → advertise handle title app_id t ≡ (t, [])
unfolding advertise
advertise-quiet handle title app_id t e f =
    let a : same title t.last_advertised_title ≡ true = rw e (same_refl title) in
    let b : same app_id t.last_advertised_app_id ≡ true = rw f (same_refl app_id) in simp (a, b)

abbrev pub IsTold : (ℕ → Text × Text) → Toplevel → Type 0
IsTold texts t =
    (t.last_advertised_title ≡ (texts t.surface).0)
    × (t.last_advertised_app_id ≡ (texts t.surface).1)

advertise_if-advertise_if :
    (texts : ℕ → Text × Text) (o : Option ℕ) (t : Toplevel)
    → t.foreign_handle ≡ o
    → let r = (advertise_if o (texts t.surface) t).0 in
      advertise_if r.foreign_handle (texts r.surface) r ≡ (r, [])
unfolding advertise
advertise_if-advertise_if texts none t h = rw h refl
advertise_if-advertise_if texts (some handle) t h =
    let (a, b) = advertise-told handle (texts t.surface).0 (texts t.surface).1 t in
    rw h (advertise-quiet handle (texts t.surface).0 (texts t.surface).1 _ a b)

-- A second round, while no title and no application changes, sends nothing and changes nothing.
sync_foreign_toplevels_twice :
    (texts : ℕ → Text × Text) (ts : List Toplevel)
    → sync_foreign_toplevels texts (sync_foreign_toplevels texts ts).0
      ≡ ((sync_foreign_toplevels texts ts).0, [])
unfolding sync_foreign_toplevels
sync_foreign_toplevels_twice texts [] = refl
sync_foreign_toplevels_twice texts (t ∷ ts) =
    rw
      (
        advertise_if-advertise_if texts t.foreign_handle t refl,
        sync_foreign_toplevels_twice texts ts,
      )
      refl
