-- ===== src/Compositor/Layers/Refresh.antt =====
-- A second layout of an output, while the clients have committed nothing new.
use de.Prelude.{
  ℕ, ◌≡◌, refl, Bool, Bool-cases, inl, inr, List, [], ◌∷◌, map, ◌==◌, ℤ, arith, ap, ◌∙◌,
}
use de.F64.{F64}
use de.HashMap.{insert}
use de.Layer.{CachedState, LayerInfo, ReservedZones}
use de.Layer.Rect.{Rect, compute_layer_rect}
use de.Layer.Arrange.{
  mirror, pass, arrange, write_rect, is_first, is_second, output_area,
  compute_reserved_zones_for_output,
}
use de.Layer.Arrange.Again.{arrange-arrange}
use de.Compositor.{SpikeState}
use de.Compositor.Layers.{Clients, refresh_layer_layout_for_output}

insert_again :
    (k : ℕ) (z : ReservedZones) (m : List (ℕ × ReservedZones))
    → insert k z (insert k z m) ≡ insert k z m
insert_again k z [] = ground arith
insert_again k z ((j, u) ∷ m) = ground (arith, insert_again k z m)

module _ (cached_state : ℕ → CachedState) (output : ℕ) where
  -- The copies of the committed states are up to date.
  AllMirrored : List LayerInfo → Type 0
  AllMirrored [] = Unit {0}
  AllMirrored (li ∷ rest) = (mirror cached_state output li ≡ li) × AllMirrored rest

  mirror-mirror :
      (li : LayerInfo)
      → mirror cached_state output (mirror cached_state output li) ≡ mirror cached_state output li
  unfolding mirror
  mirror-mirror li = elim (Bool-cases (li.output == output)) [
    | inl e ↦ rw (e, e) refl
    | inr e ↦ rw (e, e) refl
  ]

  mirror-write_rect :
      (li : LayerInfo) (r : Rect)
      → mirror cached_state output (write_rect li r) ≡ write_rect (mirror cached_state output li) r
  unfolding mirror
  mirror-write_rect li r = elim (Bool-cases (li.output == output)) [
    | inl e ↦ rw e refl
    | inr e ↦ rw e refl
  ]

  mirrored : (infos : List LayerInfo) → AllMirrored (map (mirror cached_state output) infos)
  unfolding AllMirrored
  mirrored [] = tt
  mirrored (li ∷ rest) = (mirror-mirror li, mirrored rest)

  pass-AllMirrored :
      (turn : LayerInfo → Bool) (configured : ℕ → Bool) (infos : List LayerInfo) (out zone : Rect)
      → AllMirrored infos
      → AllMirrored (pass turn configured out zone infos).0
  unfolding AllMirrored pass
  pass-AllMirrored turn configured [] out zone h = tt
  pass-AllMirrored turn configured (li ∷ rest) out zone h = elim (Bool-cases (turn li)) [
    | inl t ↦ rw t (
      mirror-write_rect li (compute_layer_rect li out zone).0
          ∙ ap (λ l. write_rect l (compute_layer_rect li out zone).0) h.0,
      pass-AllMirrored turn configured rest out _ h.1,
    )
    | inr t ↦ rw t (h.0, pass-AllMirrored turn configured rest out _ h.1)
  ]

  arrange-AllMirrored :
      (configured : ℕ → Bool) (infos : List LayerInfo) (out : Rect)
      → AllMirrored infos
      → AllMirrored (arrange configured output out infos).0
  unfolding arrange
  arrange-AllMirrored configured infos out h =
      pass-AllMirrored (is_second output) configured _ out _
        (pass-AllMirrored (is_first output) configured infos out out h)

  map-AllMirrored :
      (infos : List LayerInfo) → AllMirrored infos → map (mirror cached_state output) infos ≡ infos
  unfolding AllMirrored
  map-AllMirrored [] h = refl
  map-AllMirrored (li ∷ rest) h = rw (h.0, map-AllMirrored rest h.1) refl

module _ ⦃fl : F64⦄ where
  -- A refresh that follows a refresh changes nothing and sends no configure event.
  pub refresh-refresh :
      (cl : Clients) (s : SpikeState) (output : ℕ) (w h : ℤ)
      → let s' = (refresh_layer_layout_for_output cl s output w h).0 in
        refresh_layer_layout_for_output cl s' output w h ≡ (s', [])
  unfolding refresh_layer_layout_for_output
  refresh-refresh cl s output w h =
      let out = output_area w h in
      let infos = map (mirror cl.cached_state output) s.layer_surfaces in
      let placed = (arrange cl.configured output out infos).0 in
      rw
        (
          map-AllMirrored cl.cached_state output placed (
              arrange-AllMirrored cl.cached_state output cl.configured infos out
                (mirrored cl.cached_state output s.layer_surfaces)),
          arrange-arrange output cl.configured out infos,
          insert_again output (compute_reserved_zones_for_output placed output) s.output_scopes,
        )
        refl
