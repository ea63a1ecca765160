-- ===== src/Examples/Trays.antt =====
-- The theorems on the tray at one item, on resize transactions at one resize, and on typing.
use de.Prelude.{ℕ, ◌≡◌, refl, false, not, ◌&&◌, List, [], ◌∷◌, none, some, retain}
use de.Compositor.Resizing.{
  Call, begin, ack, has_pending_xdg_resize_transaction, finish_xdg_resize_transaction_commit,
}
use de.Compositor.Resizing
use de.Compositor.Resizing.Stages.{idle, after_calls, is_idle, is_ready, run-refines}
use de.Typing.{type_text}
use de.Typing.Decode.{decode, can_type, decode-type_text}
use de.Tray
use de.Tray.{
  StatusNotifierItem, WatcherState, Op, register, refresh, parse_service, item_key, name_vanished,
  refresh_store, get_item,
}
use de.Tray.Bytes.{Text, contains_text, starts_with}
use de.Tray.Sound.{IsTracked, run-new-IsTracked}
use de.Tray.Vanish.{name_vanished-keys, get_item-name_vanished}

-- ":1.1" and ":1.12", and the item of the second at "/S".
abbrev bus : Text
bus = 58 ∷ 49 ∷ 46 ∷ 49 ∷ []

abbrev other_key : Text
other_key = 58 ∷ 49 ∷ 46 ∷ 49 ∷ 50 ∷ 47 ∷ 83 ∷ []

abbrev item : StatusNotifierItem
item = record {
  bus_name = 58 ∷ 49 ∷ 46 ∷ 49 ∷ 50 ∷ [];
  object_path = 47 ∷ 83 ∷ [];
  menu_path = none;
}

abbrev calls : List Op
calls = register other_key item 1 ∷ refresh other_key item ∷ []

abbrev tray : WatcherState
tray = Tray.run Tray.new calls

run-new-IsTracked_example : IsTracked (Tray.run Tray.new calls)
run-new-IsTracked_example = run-new-IsTracked calls

name_vanished-keys_example :
    contains_text other_key (name_vanished tray bus).1.keys
    ≡ (contains_text other_key tray.keys && not (starts_with bus other_key))
name_vanished-keys_example = name_vanished-keys tray bus other_key

get_item-name_vanished_example :
    get_item (name_vanished (refresh_store Tray.new other_key item) item.bus_name).1 other_key
    ≡ some item
unfolding Tray.new
get_item-name_vanished_example = get_item-name_vanished Tray.new other_key item.bus_name item refl

abbrev resizing : List Call
resizing = begin 4 17 ∷ ack 4 16 ∷ ack 4 17 ∷ []

run-refines_example :
    (has_pending_xdg_resize_transaction (Resizing.run [] resizing) 4
      ≡ not (is_idle (after_calls 4 idle resizing)))
    × ((finish_xdg_resize_transaction_commit (Resizing.run [] resizing) 4).0
        ≡ is_ready (after_calls 4 idle resizing))
run-refines_example = run-refines 4 resizing

-- "Hi", a bell, "!"
abbrev typed : List ℕ
typed = b'H' ∷ b'i' ∷ 7 ∷ b'!' ∷ []

decode-type_text_example : decode false (type_text typed) ≡ retain can_type typed
decode-type_text_example = decode-type_text typed
