-- ===== src/Notification/Hints/Actions.antt =====
-- The pairs that an action list stands for.
use Prim.Native.String.{String}
use de.Prelude.{◌≡◌, refl, ap, List, [], ◌∷◌, ◌++◌}
use de.Notification.Hints.{parse_actions}

-- The list that D-Bus sends: keys and labels in turn.
abbrev pub flatten : List (String × String) → List String
flatten [] = []
flatten ((k, l) ∷ ps) = k ∷ l ∷ flatten ps

-- Key and label pairs come back from the list that they are sent as, also when a last key without
-- a label follows.
pub parse_actions-flatten :
    (ps : List (String × String)) (k : String)
    → (parse_actions (flatten ps) ≡ ps) × (parse_actions (flatten ps ++ k ∷ []) ≡ ps)
unfolding parse_actions
parse_actions-flatten [] k = (refl, refl)
parse_actions-flatten ((j, l) ∷ ps) k =
    let (e, f) = parse_actions-flatten ps k in (ap (λ x. (j, l) ∷ x) e, ap (λ x. (j, l) ∷ x) f)
