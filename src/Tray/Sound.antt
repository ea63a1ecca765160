-- ===== src/Tray/Sound.antt =====
-- What holds of the tray after any calls: the keys are distinct, and each has an item and a task that
-- watches it.
use de.Prelude.{
  ℕ, ◌≡◌, true, Bool-cases, inl, inr, List, [], ◌∷◌, ◌++◌, if◌then◌else◌, is_some, arith,
}
use de.Tray.{
  StatusNotifierItem, WatcherState, new, store_item, remove_item, remove_items, keys_for_bus,
  name_vanished, refresh_store, Op, register, unregister, vanish, refresh, step, run,
}
use de.Tray.Bytes.{
  Text, same_iff, contains_text, DistinctTexts, lookup, put, delete, lookup-put, lookup-delete,
  without_text, contains-without_text, contains-append_text, without_text-DistinctTexts,
  append-DistinctTexts,
}

pub record IsTracked (s : WatcherState) : Type 0 where
  pub distinct : DistinctTexts s.keys
  pub has_item : (k : Text) → contains_text k s.keys ≡ true → is_some (lookup k s.items) ≡ true
  pub has_watcher :
      (k : Text) → contains_text k s.keys ≡ true → is_some (lookup k s.watchers) ≡ true

module _ {V : Type 0} where
  put_known :
      (key k : Text) (v : V) (keys : List Text) (m : List (Text × V))
      → (contains_text k keys ≡ true → is_some (lookup k m) ≡ true)
      → contains_text k (if contains_text key keys then keys else keys ++ key ∷ []) ≡ true
      → is_some (lookup k (put key v m)) ≡ true
  put_known key k v keys m h c =
      ground (arith, lookup-put k key v m, contains-append_text k key keys)

  delete_known :
      (key k : Text) (keys : List Text) (m : List (Text × V))
      → (contains_text k keys ≡ true → is_some (lookup k m) ≡ true)
      → contains_text k (without_text key keys) ≡ true
      → is_some (lookup k (delete key m)) ≡ true
  delete_known key k keys m h c = ground (
    arith,
    lookup-delete k key m,
    contains-without_text k key keys,
    same_iff k key,
    same_iff key k,
  )

store-IsTracked :
    (s : WatcherState) (key : Text) (item : StatusNotifierItem) (watcher : ℕ)
    → IsTracked s
    → IsTracked (store_item s key item watcher)
unfolding store_item
store-IsTracked s key item watcher t = record {
  distinct = elim (Bool-cases (contains_text key s.keys)) [
    | inl e ↦ rw e t.distinct
    | inr e ↦ rw e (append-DistinctTexts key s.keys t.distinct e)
  ];
  has_item = λ k c. put_known key k item s.keys s.items (t.has_item k) c;
  has_watcher = λ k c. put_known key k watcher s.keys s.watchers (t.has_watcher k) c;
}

remove-IsTracked : (s : WatcherState) (key : Text) → IsTracked s → IsTracked (remove_item s key).1
unfolding remove_item
remove-IsTracked s key t = elim (Bool-cases (contains_text key s.keys)) [
  | inr e ↦ rw e t
  | inl e ↦ rw e (record {
    distinct = without_text-DistinctTexts key s.keys t.distinct;
    has_item = λ k c. delete_known key k s.keys s.items (t.has_item k) c;
    has_watcher = λ k c. delete_known key k s.keys s.watchers (t.has_watcher k) c;
  })
]

removes-IsTracked :
    (s : WatcherState) (affected : List Text) → IsTracked s → IsTracked (remove_items s affected).1
unfolding remove_items
removes-IsTracked s [] t = t
removes-IsTracked s (key ∷ affected) t =
    removes-IsTracked (remove_item s key).1 affected (remove-IsTracked s key t)

refresh-IsTracked :
    (s : WatcherState) (id : Text) (item : StatusNotifierItem)
    → IsTracked s
    → IsTracked (refresh_store s id item)
unfolding refresh_store
refresh-IsTracked s id item t = record {
  distinct = t.distinct;
  has_item = λ k c. let h = t.has_item k c in ground (arith, lookup-put k id item s.items);
  has_watcher = t.has_watcher;
}

step-IsTracked : (s : WatcherState) (op : Op) → IsTracked s → IsTracked (step s op)
unfolding step name_vanished
step-IsTracked s (register key item watcher) t = store-IsTracked s key item watcher t
step-IsTracked s (unregister key) t = remove-IsTracked s key t
step-IsTracked s (vanish bus_name) t = removes-IsTracked s (keys_for_bus s bus_name) t
step-IsTracked s (refresh id item) t = refresh-IsTracked s id item t

run-IsTracked : (s : WatcherState) (ops : List Op) → IsTracked s → IsTracked (run s ops)
unfolding run
run-IsTracked s [] t = t
run-IsTracked s (op ∷ ops) t = run-IsTracked (step s op) ops (step-IsTracked s op t)

-- Whatever is called on a new watcher, in any interleaving of the locked parts.
pub run-new-IsTracked : (ops : List Op) → IsTracked (run new ops)
unfolding new
run-new-IsTracked ops =
    run-IsTracked new ops (record { distinct = tt; has_item = λ k c. cc; has_watcher = λ k c. cc })
