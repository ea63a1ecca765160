-- ===== src/Typing/Decode.antt =====
-- What a keyboard of the same layout makes of the key events: the text that was typed.
use de.Prelude.{
  ℕ, ◌≡◌, refl, Bool, true, false, not, ◌&&◌, List, [], ◌∷◌, ◌++◌, Option, none, some, ◌==◌, ==_iff,
  if◌then◌else◌, is_some, is_some_and, arith, retain, Bool-cases, inl, inr, ap, ◌∙◌, subst,
  eq_of_some,
}
use de.Typing.{keymap, find_char, ascii_to_scancode, PendingKeyEvent, strokes, type_text}

-- The character on a key, by the state of Shift.
abbrev pub char_on : ℕ → Bool → List (ℕ × ℕ × Bool) → Option ℕ
char_on k true [] = none
char_on k false [] = none
char_on k true ((c, j, true) ∷ rest) = if j == k then some c else char_on k true rest
char_on k true ((c, j, false) ∷ rest) = char_on k true rest
char_on k false ((c, j, true) ∷ rest) = char_on k false rest
char_on k false ((c, j, false) ∷ rest) = if j == k then some c else char_on k false rest

abbrev emit : Option ℕ → List ℕ → List ℕ
emit none rest = rest
emit (some c) rest = c ∷ rest

-- A keyboard: scancode 42 is Shift, and a key types its character when it goes down.
abbrev pub decode : (shift : Bool) → List PendingKeyEvent → List ℕ
decode shift [] = []
decode shift (e ∷ es) =
    let with_shift = decode e.pressed es in
    let rest = decode shift es in
    if e.scancode == 42
    then with_shift
    else if e.pressed
    then emit (char_on e.scancode shift keymap) rest
    else rest

abbrev pub can_type : ℕ → Bool
can_type ch = is_some (ascii_to_scancode ch)

-- An entry is found again by its key and the state of Shift, and its key is not Shift.
unfoldable is_sound : ℕ × ℕ × Bool → Bool
is_sound (c, k, s) = not (k == 42) && is_some_and (char_on k s keymap) (λ d. d == c)

abbrev all_sound : List (ℕ × ℕ × Bool) → Bool
all_sound [] = true
all_sound (e ∷ es) = is_sound e && all_sound es

keymap_is_sound : all_sound keymap ≡ true
unfolding is_sound keymap
keymap_is_sound = refl

found_first :
    {A : Type 0} (b : Bool) (x y : A) (o : Option A)
    → b ≡ true
    → (if b then some x else o) ≡ some y
    → x ≡ y
found_first true x y o t e = eq_of_some e
found_first false x y o t e = cc

is_the_char : (o : Option ℕ) (c : ℕ) → is_some_and o (λ d. d == c) ≡ true → o ≡ some c
is_the_char none c h = cc
is_the_char (some d) c h = ap some ((==_iff d c).0 h)

sound_key :
    (c k : ℕ) (s : Bool)
    → is_sound (c, k, s) ≡ true
    → ((k == 42) ≡ false) × (char_on k s keymap ≡ some c)
unfolding is_sound
sound_key c k s h = (ground arith, is_the_char (char_on k s keymap) c (ground arith))

find_char-is_sound :
    (table : List (ℕ × ℕ × Bool)) (ch k : ℕ) (s : Bool)
    → all_sound table ≡ true
    → find_char ch table ≡ some (k, s)
    → is_sound (ch, k, s) ≡ true
find_char-is_sound [] ch k s h e = cc
find_char-is_sound ((c, j, t) ∷ rest) ch k s h e = elim (Bool-cases (c == ch)) [
  | inl f ↦
      let same_char : c ≡ ch = (==_iff c ch).0 f in
      let same_key = found_first (c == ch) (j, t) (k, s) (find_char ch rest) f e in
      let here : is_sound (c, j, t) ≡ true = ground arith in
      subst (λ x. is_sound (x, k, s) ≡ true) same_char
        (subst (λ q. is_sound (c, q.0, q.1) ≡ true) same_key here)
  | inr f ↦ find_char-is_sound rest ch k s (ground arith) (ground arith)
]

decode-strokes :
    (ch k : ℕ) (s : Bool) (rest : List PendingKeyEvent)
    → is_sound (ch, k, s) ≡ true
    → decode false (strokes (some (k, s)) ++ rest) ≡ ch ∷ decode false rest
decode-strokes ch k true rest h = let (a, b) = sound_key ch k true h in rw (a, b) refl
decode-strokes ch k false rest h = let (a, b) = sound_key ch k false h in rw (a, b) refl

decode-char :
    (ch : ℕ) (o : Option (ℕ × Bool)) (rest : List PendingKeyEvent)
    → ascii_to_scancode ch ≡ o
    → decode false (strokes o ++ rest)
      ≡ (if is_some o then ch ∷ decode false rest else decode false rest)
unfolding ascii_to_scancode
decode-char ch none rest e = refl
decode-char ch (some (k, s)) rest e =
    decode-strokes ch k s rest (find_char-is_sound keymap ch k s keymap_is_sound e)

-- A typed text comes back without the characters that have no key.
pub decode-type_text : (text : List ℕ) → decode false (type_text text) ≡ retain can_type text
unfolding type_text
decode-type_text [] = refl
decode-type_text (ch ∷ text) =
    decode-char ch (ascii_to_scancode ch) (type_text text) refl
    ∙ ap (λ r. if can_type ch then ch ∷ r else r) (decode-type_text text)
