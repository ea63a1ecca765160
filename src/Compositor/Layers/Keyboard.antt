-- ===== src/Compositor/Layers/Keyboard.antt =====
-- Which layer surface takes the keyboard.
use de.Prelude.{
  ℕ, zero, suc, ◌≡◌, refl, Bool, true, false, ◌&&◌, ◌||◌, inl, inr, List, [], ◌∷◌, Option, none,
  some, if◌then◌else◌, ◌⊎◌, arith, get_elem?, eq_of_some, ap, subst,
}
use de.F64.{F64}
use de.Layer.{
  Layer, top, overlay, background, bottom, LayerInfo, is_upper, asks_exclusively,
  wants_exclusive_keyboard,
}
use de.Compositor.{SpikeState, or_else}
use de.Compositor.Layers.{rfind, is_overlay, is_top, layer_surface, exclusive_keyboard_layer}

abbrev pub any : (LayerInfo → Bool) → List LayerInfo → Bool
any p [] = false
any p (x ∷ xs) = p x || any p xs

abbrev pub after : ℕ → List LayerInfo → List LayerInfo
after i [] = []
after zero (x ∷ xs) = xs
after (suc i) (x ∷ xs) = after i xs

-- Entry `i` is `li`, it passes the test, and no later entry does.
abbrev pub IsLast : (LayerInfo → Bool) → List LayerInfo → ℕ → LayerInfo → Type 0
IsLast p xs i li = (get_elem? xs i ≡ some li) × (p li ≡ true) × (any p (after i xs) ≡ false)

or_else-none : {A : Type 0} (o o' : Option A) → or_else o o' ≡ none → (o ≡ none) × (o' ≡ none)
or_else-none none o' e = (refl, e)
or_else-none (some a) o' e = cc

or_else-some :
    {A : Type 0} (o o' : Option A) (a : A)
    → or_else o o' ≡ some a
    → (o ≡ some a) ⊎ ((o ≡ none) × (o' ≡ some a))
or_else-some none o' a e = inr (refl, e)
or_else-some (some b) o' a e = inl e

if-none : {A : Type 0} (b : Bool) (a : A) → (if b then some a else none) ≡ none → b ≡ false
if-none true a e = cc
if-none false a e = refl

if-some :
    {A : Type 0} (b : Bool) (a c : A) → (if b then some a else none) ≡ some c → (b ≡ true) × (a ≡ c)
if-some true a c e = (refl, eq_of_some e)
if-some false a c e = cc

rfind-none : (p : LayerInfo → Bool) (xs : List LayerInfo) → rfind p xs ≡ none → any p xs ≡ false
rfind-none p [] e = refl
rfind-none p (x ∷ xs) e =
    let (n, m) = or_else-none (rfind p xs) _ e in rw (if-none (p x) x m) (rfind-none p xs n)

rfind-IsLast :
    (p : LayerInfo → Bool) (xs : List LayerInfo) (li : LayerInfo)
    → rfind p xs ≡ some li
    → (i : ℕ) × IsLast p xs i li
rfind-IsLast p [] li e = cc
rfind-IsLast p (x ∷ xs) li e = elim (or_else-some (rfind p xs) _ li e) [
  | inl n ↦ let (i, at) = rfind-IsLast p xs li n in (suc i, at)
  | inr (n, m) ↦
      let (t, same) = if-some (p x) x li m in
      (0, (ap some same, subst (λ y. p y ≡ true) same t, rfind-none p xs n))
]

abbrev pub wants_on_overlay : LayerInfo → Bool
wants_on_overlay li = wants_exclusive_keyboard li && is_overlay li.cached.layer

abbrev pub wants_on_top : LayerInfo → Bool
wants_on_top li = wants_exclusive_keyboard li && is_top li.cached.layer

-- Who holds the keyboard among these surfaces: the last on the overlay layer that asks for it, or
-- the last on the top layer where none on the overlay asks, or nobody where none asks at all.
abbrev pub Holds : List LayerInfo → Option ℕ → Type 0
Holds infos none = any wants_exclusive_keyboard infos ≡ false
Holds infos (some surface) =
    (i : ℕ) × (li : LayerInfo) × (li.surface ≡ surface)
    × (IsLast wants_on_overlay infos i li
        ⊎ (IsLast wants_on_top infos i li × (any wants_on_overlay infos ≡ false)))

upper-cases :
    (asks : Bool) (l : Layer)
    → ((asks && is_upper l) && is_overlay l) ≡ false
    → ((asks && is_upper l) && is_top l) ≡ false
    → (asks && is_upper l) ≡ false
upper-cases asks background a b = ground arith
upper-cases asks bottom a b = ground arith
upper-cases asks top a b = ground arith
upper-cases asks overlay a b = ground arith

wants-cases :
    (li : LayerInfo)
    → wants_on_overlay li ≡ false
    → wants_on_top li ≡ false
    → wants_exclusive_keyboard li ≡ false
unfolding wants_exclusive_keyboard
wants-cases li a b =
    upper-cases (asks_exclusively li.cached.keyboard_interactivity) li.cached.layer a b

any-cases :
    (infos : List LayerInfo)
    → any wants_on_overlay infos ≡ false
    → any wants_on_top infos ≡ false
    → any wants_exclusive_keyboard infos ≡ false
any-cases [] a b = refl
any-cases (li ∷ rest) a b =
    let w = wants-cases li (ground arith) (ground arith) in
    rw w (any-cases rest (ground arith) (ground arith))

holds :
    (infos : List LayerInfo) (o o' : Option LayerInfo)
    → rfind wants_on_overlay infos ≡ o
    → rfind wants_on_top infos ≡ o'
    → Holds infos (or_else (layer_surface o) (layer_surface o'))
holds infos (some li) o' e e' =
    let (i, last) = rfind-IsLast wants_on_overlay infos li e in (i, li, refl, inl last)
holds infos none (some li) e e' =
    let (i, last) = rfind-IsLast wants_on_top infos li e' in
    (i, li, refl, inr (last, rfind-none wants_on_overlay infos e))
holds infos none none e e' =
    any-cases infos (rfind-none wants_on_overlay infos e) (rfind-none wants_on_top infos e')

module _ ⦃fl : F64⦄ where
  -- The layer surface that the keyboard goes to.
  exclusive_keyboard_layer-Holds :
      (s : SpikeState) → Holds s.layer_surfaces (exclusive_keyboard_layer s)
  unfolding exclusive_keyboard_layer
  exclusive_keyboard_layer-Holds s = holds s.layer_surfaces _ _ refl refl
