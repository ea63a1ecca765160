-- ===== src/Tray.antt =====
-- crates/status-notifier/src/watcher.rs and service.rs, with the keys of item_client.rs: the tray
-- items that are registered on D-Bus. A text is the list of its bytes. Whether a text is an object
-- path, and the item that is read over D-Bus, are arguments; a handle of a task is a number.
pub mod Bytes
pub mod Sound
pub mod Vanish
pub mod Service
use Prim.Native.Char.{code}
use Prim.Native.String.{String}
use de.Prelude.{
  ℕ, Bool, true, false, not, ◌&&◌, List, [], ◌∷◌, ◌++◌, Option, none, some, ◌==◌, if◌then◌else◌,
  ◌>>=◌, retain,
}
use de.Tray.Bytes.{Text, same, starts_with, contains_text, lookup, put, delete, split_slash}

abbrev codes : String → Text
codes String.[] = []
codes (String.◌∷◌ c s) = code c ∷ codes s

-- `StatusNotifierItem`: its address and its menu. The properties that are only shown are left out.
pub record StatusNotifierItem : Type 0 where
  pub bus_name : Text
  pub object_path : Text
  pub menu_path : Option Text

pub record WatcherState : Type 0 where
  pub keys : List Text
  pub items : List (Text × StatusNotifierItem)
  pub watchers : List (Text × ℕ)

pub data ItemStatus : Type 0 where
  passive active needs_attention : ItemStatus

pub data UpdatedProperty : Type 0 where
  icon title tooltip attention_icon overlay_icon : UpdatedProperty
  status : ItemStatus → UpdatedProperty

pub data TrayEvent : Type 0 where
  item_registered item_unregistered : (key : Text) → TrayEvent
  item_updated : (id : Text) → UpdatedProperty → TrayEvent

unfoldable pub new : WatcherState
new = record { keys = []; items = []; watchers = [] }

abbrev pub default_path : Text
default_path = codes "/StatusNotifierItem"

abbrev pub or_default : Option Text → Text
or_default none = default_path
or_default (some path) = path

abbrev by_slash : (Text → Option Text) → Text → Option (Text × Text) → Text × Text
by_slash path_of service none = (service, default_path)
by_slash path_of service (some (bus, path)) = (bus, or_default (path_of path))

-- `path_of` is zbus's conversion of a text to an object path, which keeps the text.
unfoldable pub parse_service :
    (path_of : Text → Option Text) → (sender service : Text) → Text × Text
parse_service path_of sender [] = (sender, default_path)
parse_service path_of sender (c ∷ s) =
    if c == 47
    then (sender, or_default (path_of (c ∷ s)))
    else by_slash path_of (c ∷ s) (split_slash (c ∷ s))

unfoldable pub item_key : Text → Text → Text
item_key bus_name obj_path = bus_name ++ obj_path

-- The locked part of `register_status_notifier_item`.
unfoldable pub store_item : WatcherState → (key : Text) → StatusNotifierItem → ℕ → WatcherState
store_item s key item watcher = record {
  keys = if contains_text key s.keys then s.keys else s.keys ++ key ∷ [];
  items = put key item s.items;
  watchers = put key watcher s.watchers;
}

-- `loaded` is the item read from the bus, or none if that failed. The first result tells whether
-- the call succeeds.
unfoldable pub register_status_notifier_item :
    (path_of : Text → Option Text)
    → WatcherState
    → (sender service : Text) → (loaded : Option StatusNotifierItem) → (watcher : ℕ)
    → Bool × List TrayEvent × WatcherState
unfolding parse_service item_key store_item
register_status_notifier_item path_of s sender service none watcher = (false, [], s)
register_status_notifier_item path_of s sender service (some item) watcher =
    let (bus_name, obj_path) = parse_service path_of sender service in
    let key = item_key bus_name obj_path in
    (true, item_registered key ∷ [], store_item s key item watcher)

unfoldable pub remove_item : WatcherState → (key : Text) → List TrayEvent × WatcherState
remove_item s key =
    if contains_text key s.keys
    then (
      item_unregistered key ∷ [],
      record {
        keys = retain (λ k. not (same k key)) s.keys;
        items = delete key s.items;
        watchers = delete key s.watchers;
      },
    )
    else ([], s)

unfoldable pub keys_for_bus : WatcherState → (bus_name : Text) → List Text
keys_for_bus s bus_name = retain (starts_with bus_name) s.keys

unfoldable pub remove_items : WatcherState → List Text → List TrayEvent × WatcherState
unfolding remove_item
remove_items s [] = ([], s)
remove_items s (key ∷ affected) =
    let (sent, s') = remove_item s key in
    let (sent', s'') = remove_items s' affected in (sent ++ sent', s'')

-- The round of `watch_name_owner_changes` for a name that has lost its owner.
unfoldable pub name_vanished : WatcherState → (vanished : Text) → List TrayEvent × WatcherState
unfolding keys_for_bus remove_items
name_vanished s vanished = remove_items s (keys_for_bus s vanished)

unfoldable pub get_item : WatcherState → (item_id : Text) → Option StatusNotifierItem
get_item s item_id = lookup item_id s.items

abbrev address : StatusNotifierItem → Text × Text
address item = (item.bus_name, item.object_path)

unfoldable pub item_coords : WatcherState → (item_id : Text) → Option (Text × Text)
item_coords s item_id = do item ← lookup item_id s.items; some (address item)

-- The bus name and the menu that `get_menu` and `send_menu_event` call: `none` inside is an item
-- without a menu.
unfoldable pub menu_coords : WatcherState → (item_id : Text) → Option (Text × Option Text)
menu_coords s item_id = do item ← lookup item_id s.items; some (item.bus_name, item.menu_path)

-- The second lock of `refresh_item`, which stores what was read meanwhile.
unfoldable pub refresh_store : WatcherState → (item_id : Text) → StatusNotifierItem → WatcherState
refresh_store s item_id updated = record s { items = put item_id updated s.items }

-- The locked parts, in any interleaving.
pub data Op : Type 0 where
  register : (key : Text) → StatusNotifierItem → (watcher : ℕ) → Op
  unregister : (key : Text) → Op
  vanish : (bus_name : Text) → Op
  refresh : (item_id : Text) → StatusNotifierItem → Op

unfoldable pub step : WatcherState → Op → WatcherState
unfolding store_item remove_item name_vanished refresh_store
step s (register key item watcher) = store_item s key item watcher
step s (unregister key) = (remove_item s key).1
step s (vanish bus_name) = (name_vanished s bus_name).1
step s (refresh item_id item) = refresh_store s item_id item

unfoldable pub run : WatcherState → List Op → WatcherState
unfolding step
run s [] = s
run s (op ∷ ops) = run (step s op) ops
