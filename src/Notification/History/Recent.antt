-- ===== src/Notification/History/Recent.antt =====
-- What the history keeps: the most recent hundred entries.
use de.Prelude.{
  ℕ, zero, suc, ◌-◌, ◌≤◌, ◌≡◌, refl, ap, ◌∙◌, sym, true, false, not, List, [], ◌∷◌, ◌++◌,
  Bool-cases, inl, inr, leb, if◌then◌else◌, length, retain, length-append, arith,
}
use mathlib.Core.List.{append-nil, append_assoc}
use de.Notification.{Notification}
use de.Notification.History.{max_history, remove_first, push_history}

module _ {ℓ} {A : Type ℓ} where
  abbrev pub drop : ℕ → List A → List A
  drop zero xs = xs
  drop (suc k) [] = []
  drop (suc k) (x ∷ xs) = drop k xs

  -- The last `k` entries, all of them where there are fewer.
  abbrev pub last_n : ℕ → List A → List A
  last_n k xs = drop (length xs - k) xs

  length-drop : (k : ℕ) (xs : List A) → length (drop k xs) ≡ length xs - k
  length-drop zero xs = omega arith
  length-drop (suc k) [] = omega arith
  length-drop (suc k) (x ∷ xs) = omega (arith, length-drop k xs)

  drop-append : (k : ℕ) (xs ys : List A) → k ≤ length xs → drop k (xs ++ ys) ≡ drop k xs ++ ys
  drop-append zero xs ys h = refl
  drop-append (suc k) [] ys h = ground arith
  drop-append (suc k) (x ∷ xs) ys h = drop-append k xs ys (omega arith)

abbrev pub push_all : List Notification → List Notification → List Notification
push_all h [] = h
push_all h (n ∷ ns) = push_all (push_history h n) ns

remove_first-drop : (k : ℕ) (ns : List Notification) → remove_first (drop k ns) ≡ drop (suc k) ns
remove_first-drop zero [] = refl
remove_first-drop zero (n ∷ ns) = refl
remove_first-drop (suc k) [] = refl
remove_first-drop (suc k) (n ∷ ns) = remove_first-drop k ns

pub push_history-full :
    (h : List Notification) (n : Notification)
    → n.transient ≡ false
    → leb max_history (length h) ≡ true
    → push_history h n ≡ remove_first h ++ n ∷ []
unfolding push_history
push_history-full h n t e = ground arith

pub push_history-room :
    (h : List Notification) (n : Notification)
    → n.transient ≡ false
    → leb max_history (length h) ≡ false
    → push_history h n ≡ h ++ n ∷ []
unfolding push_history
push_history-room h n t e = ground arith

pub push_history-transient :
    (h : List Notification) (n : Notification) → n.transient ≡ true → push_history h n ≡ h
unfolding push_history
push_history-transient h n t = ground arith

drop_by :
    (j k : ℕ) (ns : List Notification) (n : Notification)
    → j ≡ k
    → k ≤ length ns
    → drop j (ns ++ n ∷ []) ≡ drop k ns ++ n ∷ []
drop_by j k ns n e h = ap (λ i. drop i (ns ++ n ∷ [])) e ∙ drop-append k ns (n ∷ []) h

push_history-last_n :
    (ns : List Notification) (n : Notification)
    → n.transient ≡ false
    → push_history (last_n max_history ns) n ≡ last_n max_history (ns ++ n ∷ [])
push_history-last_n ns n t =
    let kept = length-drop (length ns - 100) ns in
    let more = length-append ns (n ∷ []) in
    elim (Bool-cases (leb max_history (length ns))) [
      | inl full ↦
          push_history-full _ n t (ground arith)
          ∙ ap (λ h. h ++ n ∷ []) (remove_first-drop (length ns - 100) ns)
          ∙ sym (
              drop_by (length (ns ++ n ∷ []) - 100) (suc (length ns - 100)) ns n (ground arith)
                (ground arith))
      | inr room ↦
          push_history-room _ n t (ground arith)
          ∙ sym (
              drop_by (length (ns ++ n ∷ []) - 100) (length ns - 100) ns n (ground arith)
                (ground arith))
    ]

regroup :
    (old : List Notification) (n : Notification) (ns : List Notification)
    → n.transient ≡ false
    → last_n max_history (old ++ n ∷ [] ++ retain (λ n. not n.transient) ns)
      ≡ last_n max_history (old ++ retain (λ n. not n.transient) (n ∷ ns))
regroup old n ns t = ap (last_n max_history) (
    append_assoc old (n ∷ []) (retain (λ n. not n.transient) ns)
    ∙ ap
        (λ b.
          old
          ++ (if not b
              then n ∷ retain (λ n. not n.transient) ns
              else retain (λ n. not n.transient) ns))
        (sym t))

-- Notifications posted one after the other, with nothing replaced or removed, leave the last
-- hundred of those that are not transient, in their order.
pub push_all-last_n :
    (ns : List Notification)
    → push_all [] ns ≡ last_n max_history (retain (λ n. not n.transient) ns)
push_all-last_n ns = from [] ns
  where
    from :
        (old ns : List Notification)
        → push_all (last_n max_history old) ns
          ≡ last_n max_history (old ++ retain (λ n. not n.transient) ns)
    from old [] = ap (last_n max_history) (sym (append-nil old))
    from old (n ∷ ns) = elim (Bool-cases n.transient) [
      | inl t ↦ ap (λ h. push_all h ns) (push_history-transient _ n t) ∙ from old ns ∙ ground arith
      | inr t ↦
          ap (λ h. push_all h ns) (push_history-last_n old n t)
          ∙ from (old ++ n ∷ []) ns
          ∙ regroup old n ns t
    ]
