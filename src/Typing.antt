-- ===== src/Typing.antt =====
-- The IPC command `TypeText`: `ascii_to_scancode` of
-- crates/compositor-slint/src/renderer/input_util.rs, and the key events that renderer.rs makes of
-- a text. A character is its code point.
pub mod Decode
use de.Prelude.{ℕ, Bool, true, false, List, [], ◌∷◌, ◌++◌, Option, none, some, ◌==◌, if◌then◌else◌}

-- The character, the scancode, and whether Shift is held.
unfoldable pub keymap : List (ℕ × ℕ × Bool)
keymap =
    (b'a', 30, false)
    ∷ (b'A', 30, true)
    ∷ (b'b', 48, false)
    ∷ (b'B', 48, true)
    ∷ (b'c', 46, false)
    ∷ (b'C', 46, true)
    ∷ (b'd', 32, false)
    ∷ (b'D', 32, true)
    ∷ (b'e', 18, false)
    ∷ (b'E', 18, true)
    ∷ (b'f', 33, false)
    ∷ (b'F', 33, true)
    ∷ (b'g', 34, false)
    ∷ (b'G', 34, true)
    ∷ (b'h', 35, false)
    ∷ (b'H', 35, true)
    ∷ (b'i', 23, false)
    ∷ (b'I', 23, true)
    ∷ (b'j', 36, false)
    ∷ (b'J', 36, true)
    ∷ (b'k', 37, false)
    ∷ (b'K', 37, true)
    ∷ (b'l', 38, false)
    ∷ (b'L', 38, true)
    ∷ (b'm', 50, false)
    ∷ (b'M', 50, true)
    ∷ (b'n', 49, false)
    ∷ (b'N', 49, true)
    ∷ (b'o', 24, false)
    ∷ (b'O', 24, true)
    ∷ (b'p', 25, false)
    ∷ (b'P', 25, true)
    ∷ (b'q', 16, false)
    ∷ (b'Q', 16, true)
    ∷ (b'r', 19, false)
    ∷ (b'R', 19, true)
    ∷ (b's', 31, false)
    ∷ (b'S', 31, true)
    ∷ (b't', 20, false)
    ∷ (b'T', 20, true)
    ∷ (b'u', 22, false)
    ∷ (b'U', 22, true)
    ∷ (b'v', 47, false)
    ∷ (b'V', 47, true)
    ∷ (b'w', 17, false)
    ∷ (b'W', 17, true)
    ∷ (b'x', 45, false)
    ∷ (b'X', 45, true)
    ∷ (b'y', 21, false)
    ∷ (b'Y', 21, true)
    ∷ (b'z', 44, false)
    ∷ (b'Z', 44, true)
    ∷ (b'1', 2, false)
    ∷ (b'!', 2, true)
    ∷ (b'2', 3, false)
    ∷ (b'@', 3, true)
    ∷ (b'3', 4, false)
    ∷ (b'#', 4, true)
    ∷ (b'4', 5, false)
    ∷ (b'$', 5, true)
    ∷ (b'5', 6, false)
    ∷ (b'%', 6, true)
    ∷ (b'6', 7, false)
    ∷ (b'^', 7, true)
    ∷ (b'7', 8, false)
    ∷ (b'&', 8, true)
    ∷ (b'8', 9, false)
    ∷ (b'*', 9, true)
    ∷ (b'9', 10, false)
    ∷ (b'(', 10, true)
    ∷ (b'0', 11, false)
    ∷ (b')', 11, true)
    ∷ (b'-', 12, false)
    ∷ (b'_', 12, true)
    ∷ (b'=', 13, false)
    ∷ (b'+', 13, true)
    ∷ (b'[', 26, false)
    ∷ (b'{', 26, true)
    ∷ (b']', 27, false)
    ∷ (b'}', 27, true)
    ∷ (92, 43, false)
    ∷ (b'|', 43, true)
    ∷ (b';', 39, false)
    ∷ (b':', 39, true)
    ∷ (39, 40, false)
    ∷ (b'"', 40, true)
    ∷ (b'`', 41, false)
    ∷ (b'~', 41, true)
    ∷ (b',', 51, false)
    ∷ (b'<', 51, true)
    ∷ (b'.', 52, false)
    ∷ (b'>', 52, true)
    ∷ (b'/', 53, false)
    ∷ (b'?', 53, true)
    ∷ (b' ', 57, false)
    ∷ (10, 28, false)
    ∷ (9, 15, false)
    ∷ []

abbrev pub find_char : ℕ → List (ℕ × ℕ × Bool) → Option (ℕ × Bool)
find_char ch [] = none
find_char ch ((c, k, s) ∷ rest) = if c == ch then some (k, s) else find_char ch rest

unfoldable pub ascii_to_scancode : ℕ → Option (ℕ × Bool)
unfolding keymap
ascii_to_scancode ch = find_char ch keymap

pub record PendingKeyEvent : Type 0 where
  pub scancode : ℕ
  pub pressed : Bool

abbrev pub key_event : ℕ → Bool → PendingKeyEvent
key_event scancode pressed = record { scancode = scancode; pressed = pressed }

abbrev pub strokes : Option (ℕ × Bool) → List PendingKeyEvent
strokes none = []
strokes (some (sc, shift)) =
    (if shift then key_event 42 true ∷ [] else [])
    ++ key_event sc true ∷ key_event sc false ∷ (if shift then key_event 42 false ∷ [] else [])

-- The events that a text adds to the queue.
unfoldable pub type_text : List ℕ → List PendingKeyEvent
unfolding ascii_to_scancode
type_text [] = []
type_text (ch ∷ text) = strokes (ascii_to_scancode ch) ++ type_text text
