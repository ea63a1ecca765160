-- ===== src/Notification/History.antt =====
-- crates/notification/src/history.rs: the list of recent notifications, oldest first.
pub mod Recent
use de.Prelude.{
  ℕ, Bool, true, false, not, List, [], ◌∷◌, ◌++◌, ◌==◌, leb, if◌then◌else◌, length, retain,
}
use de.Notification.{Notification}

abbrev pub max_history : ℕ
max_history = 100

-- `Vec::remove(0)`
abbrev pub remove_first : List Notification → List Notification
remove_first [] = []
remove_first (n ∷ ns) = ns

unfoldable pub push_history : List Notification → Notification → List Notification
push_history inner n =
    if n.transient
    then inner
    else if leb max_history (length inner)
    then remove_first inner ++ n ∷ []
    else inner ++ n ∷ []

unfoldable pub remove_by_id : List Notification → ℕ → List Notification
remove_by_id inner id = retain (λ n. not (n.id == id)) inner

-- Whether `position` finds the id.
abbrev pub has_id : ℕ → List Notification → Bool
has_id id [] = false
has_id id (n ∷ ns) = if n.id == id then true else has_id id ns

-- `inner.remove(pos)` or `inner[pos] = notification`, at the first entry with the id.
unfoldable pub replace_at : List Notification → ℕ → Notification → List Notification
replace_at [] id new = []
replace_at (n ∷ ns) id new =
    if n.id == id then (if new.transient then ns else new ∷ ns) else n ∷ replace_at ns id new

unfoldable pub replace : List Notification → ℕ → Notification → List Notification
unfolding push_history replace_at
replace inner old_id n =
    if has_id old_id inner then replace_at inner old_id n else push_history inner n
