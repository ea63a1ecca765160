-- ===== src/Layer/Arrange/Again.antt =====
-- A layout that is repeated: the same rectangles, and no configure event.
use de.Prelude.{
  ℕ, ◌≡◌, refl, Bool, true, false, Bool-cases, inl, inr, List, [], ◌∷◌, ◌++◌, Option, ℤ, eqb_ℤ_refl,
  arith, ◌∙◌, ap,
}
use de.Layer.{Anchor, LayerInfo, is_exclusive}
use de.Layer.Rect.{Rect, compute_layer_rect, consume, place_rect}
use de.Layer.Arrange.{shrink_zone, write_rect, configures, pass, arrange, is_first, is_second}
use de.Layer.Arrange.Zones.{claim_idle}

-- A surface that has just been placed has the size of its rectangle pending.
configures_again :
    (configured : ℕ → Bool) (li : LayerInfo) (r : Rect)
    → configures configured (write_rect li r) r ≡ []
unfolding configures
configures_again configured li r = rw (eqb_ℤ_refl r.wide, eqb_ℤ_refl r.high) refl

-- Where a surface stands does not depend on where it stood.
compute_again :
    (li : LayerInfo) (r out zone : Rect)
    → compute_layer_rect (write_rect li r) out zone ≡ compute_layer_rect li out zone
unfolding compute_layer_rect place_rect consume
compute_again li r out zone = refl

module _ (turn : LayerInfo → Bool) (configured : ℕ → Bool) (out zone : Rect) where
  pass_turn :
      (li : LayerInfo) (rest : List LayerInfo) (r : Rect) (c : Option (Anchor × ℤ))
      → turn li ≡ true
      → compute_layer_rect li out zone ≡ (r, c)
      → let p = pass turn configured out (shrink_zone zone c) rest in
        pass turn configured out zone (li ∷ rest)
        ≡ (write_rect li r ∷ p.0, configures configured li r ++ p.1, p.2)
  unfolding pass
  pass_turn li rest r c t e = rw (t, e) refl

  pass_skip :
      (li : LayerInfo) (rest : List LayerInfo)
      → turn li ≡ false
      → let p = pass turn configured out zone rest in
        pass turn configured out zone (li ∷ rest) ≡ (li ∷ p.0, p.1, p.2)
  unfolding pass
  pass_skip li rest t = rw t refl

-- Two passes, the second of which does not touch what the first has placed.
module _ (output : ℕ) (configured : ℕ → Bool) (out last : Rect) where
  abbrev one : Rect → List LayerInfo → List LayerInfo × List ℕ × Rect
  one zone infos = pass (is_first output) configured out zone infos

  abbrev two : List LayerInfo → List LayerInfo × List ℕ × Rect
  two infos = pass (is_second output) configured out last infos

  abbrev FirstAgain : Rect → List LayerInfo → Type 0
  FirstAgain zone infos =
      one zone (two (one zone infos).0).0 ≡ ((two (one zone infos).0).0, [], (one zone infos).2)

  first_turn :
      (li : LayerInfo) (rest : List LayerInfo) (zone r : Rect) (c : Option (Anchor × ℤ))
      → is_first output li ≡ true
      → is_second output li ≡ false
      → compute_layer_rect li out zone ≡ (r, c)
      → FirstAgain (shrink_zone zone c) rest
      → FirstAgain zone (li ∷ rest)
  first_turn li rest zone r c f s e again =
      let next = shrink_zone zone c in
      let a = (one next rest).0 in
      rw
        (
          pass_turn (is_first output) configured out zone li rest r c f e,
          pass_skip (is_second output) configured out last (write_rect li r) a s,
          pass_turn (is_first output) configured out zone (write_rect li r) (two a).0 r c f
              (compute_again li r out zone ∙ e),
          configures_again configured li r,
        )
        (ap (λ q. (write_rect li r ∷ q.0, q.1, q.2)) again)

  second_turn :
      (li : LayerInfo) (rest : List LayerInfo) (zone r : Rect) (c : Option (Anchor × ℤ))
      → is_first output li ≡ false
      → is_second output li ≡ true
      → compute_layer_rect li out last ≡ (r, c)
      → shrink_zone last c ≡ last
      → FirstAgain zone rest
      → FirstAgain zone (li ∷ rest)
  second_turn li rest zone r c f s e idle again =
      let a = (one zone rest).0 in
      rw
        (
          pass_skip (is_first output) configured out zone li rest f,
          pass_turn (is_second output) configured out last li a r c s e,
          idle,
          pass_skip (is_first output) configured out zone (write_rect li r) (two a).0 f,
        )
        (ap (λ q. (write_rect li r ∷ q.0, q.1, q.2)) again)

  no_turn :
      (li : LayerInfo) (rest : List LayerInfo) (zone : Rect)
      → is_first output li ≡ false
      → is_second output li ≡ false
      → FirstAgain zone rest
      → FirstAgain zone (li ∷ rest)
  no_turn li rest zone f s again =
      let a = (one zone rest).0 in
      rw
        (
          pass_skip (is_first output) configured out zone li rest f,
          pass_skip (is_second output) configured out last li a s,
          pass_skip (is_first output) configured out zone li (two a).0 f,
        )
        (ap (λ q. (li ∷ q.0, q.1, q.2)) again)

  second_idle :
      (li : LayerInfo)
      → is_second output li ≡ true
      → shrink_zone last (compute_layer_rect li out last).1 ≡ last
  unfolding compute_layer_rect consume
  second_idle li s =
      let idle : is_exclusive li.cached.exclusive_zone ≡ false = ground arith in
      claim_idle li.cached.exclusive_zone _ li.cached.margin last idle

  pub first_again : (infos : List LayerInfo) (zone : Rect) → FirstAgain zone infos
  unfolding pass
  first_again [] zone = refl
  first_again (li ∷ rest) zone = elim (Bool-cases (is_first output li)) [
    | inl f ↦
        let (r, c) = compute_layer_rect li out zone in
        first_turn li rest zone r c f (ground arith) refl (first_again rest (shrink_zone zone c))
    | inr f ↦ elim (Bool-cases (is_second output li)) [
      | inl s ↦
          let (r, c) = compute_layer_rect li out last in
          second_turn li rest zone r c f s refl (second_idle li s) (first_again rest zone)
      | inr s ↦ no_turn li rest zone f s (first_again rest zone)
    ]
  ]

  abbrev SecondAgain : List LayerInfo → Type 0
  SecondAgain infos = two (two infos).0 ≡ ((two infos).0, [], (two infos).2)

  second_twice :
      (li : LayerInfo) (rest : List LayerInfo) (r : Rect) (c : Option (Anchor × ℤ))
      → is_second output li ≡ true
      → compute_layer_rect li out last ≡ (r, c)
      → shrink_zone last c ≡ last
      → SecondAgain rest
      → SecondAgain (li ∷ rest)
  second_twice li rest r c s e idle again =
      rw
        (
          pass_turn (is_second output) configured out last li rest r c s e,
          idle,
          pass_turn (is_second output) configured out last (write_rect li r) (two rest).0 r c s
              (compute_again li r out last ∙ e),
          idle,
          configures_again configured li r,
        )
        (ap (λ q. (write_rect li r ∷ q.0, q.1, q.2)) again)

  second_skip :
      (li : LayerInfo) (rest : List LayerInfo)
      → is_second output li ≡ false
      → SecondAgain rest
      → SecondAgain (li ∷ rest)
  second_skip li rest s again =
      rw
        (
          pass_skip (is_second output) configured out last li rest s,
          pass_skip (is_second output) configured out last li (two rest).0 s,
        )
        (ap (λ q. (li ∷ q.0, q.1, q.2)) again)

  pub second_again : (infos : List LayerInfo) → SecondAgain infos
  unfolding pass
  second_again [] = refl
  second_again (li ∷ rest) = elim (Bool-cases (is_second output li)) [
    | inl s ↦
        let (r, c) = compute_layer_rect li out last in
        second_twice li rest r c s refl (second_idle li s) (second_again rest)
    | inr s ↦ second_skip li rest s (second_again rest)
  ]

-- The layout of a layout: the same surfaces and work area, and nothing is configured.
pub arrange-arrange :
    (output : ℕ) (configured : ℕ → Bool) (out : Rect) (infos : List LayerInfo)
    → let (infos', sent, zone) = arrange configured output out infos in
      arrange configured output out infos' ≡ (infos', [], zone)
unfolding arrange
arrange-arrange output configured out infos =
    let one = pass (is_first output) configured out out infos in
    rw
      (
        first_again output configured out one.2 infos out,
        second_again output configured out one.2 one.0,
      )
      refl
