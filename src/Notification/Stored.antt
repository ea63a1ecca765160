-- ===== src/Notification/Stored.antt =====
-- What holds of every entry of the history, or of every active notification, under the operations
-- on them.
use de.Prelude.{
  ℕ, ◌≤◌, ◌≡◌, sym, subst, true, false, List, [], ◌∷◌, ◌++◌, Bool-cases, inl, inr, ◌==◌, leb,
  length, length-append, arith,
}
use de.HashMap.{insert, remove, contains_key}
use de.Notification.{Notification}
use de.Notification.History.{
  max_history, remove_first, push_history, remove_by_id, has_id, replace_at, replace,
}
use de.Notification.History.Recent.{push_history-full, push_history-room, push_history-transient}

abbrev pub Every {ℓ} : {A : Type ℓ} → (A → Type 0) → List A → Type 0
Every P [] = Unit {0}
Every P (x ∷ xs) = P x × Every P xs

module _ (P : Notification → Type 0) where
  Every-append : (xs ys : List Notification) → Every P xs → Every P ys → Every P (xs ++ ys)
  Every-append [] ys p q = q
  Every-append (x ∷ xs) ys p q = (p.0, Every-append xs ys p.1 q)

  remove_first-Every : (h : List Notification) → Every P h → Every P (remove_first h)
  remove_first-Every [] q = tt
  remove_first-Every (n ∷ h) q = q.1

  pub push_history-Every :
      (h : List Notification) (n : Notification)
      → (n.transient ≡ false → P n)
      → Every P h
      → Every P (push_history h n)
  push_history-Every h n p q = elim (Bool-cases n.transient) [
    | inl t ↦ subst (Every P) (sym (push_history-transient h n t)) q
    | inr t ↦ elim (Bool-cases (leb max_history (length h))) [
      | inl full ↦
          subst (Every P) (sym (push_history-full h n t full))
            (Every-append (remove_first h) (n ∷ []) (remove_first-Every h q) (p t, tt))
      | inr room ↦
          subst (Every P) (sym (push_history-room h n t room)) (Every-append h (n ∷ []) q (p t, tt))
    ]
  ]

  replace_at-Every :
      (h : List Notification) (id : ℕ) (n : Notification)
      → (n.transient ≡ false → P n)
      → Every P h
      → Every P (replace_at h id n)
  unfolding replace_at
  replace_at-Every [] id n p q = tt
  replace_at-Every (m ∷ h) id n p q = ground (arith, replace_at-Every h id n p q.1)

  pub replace-Every :
      (h : List Notification) (id : ℕ) (n : Notification)
      → (n.transient ≡ false → P n)
      → Every P h
      → Every P (replace h id n)
  unfolding replace
  replace-Every h id n p q = elim (Bool-cases (has_id id h)) [
    | inl old ↦ rw old (replace_at-Every h id n p q)
    | inr fresh ↦ rw fresh (push_history-Every h n p q)
  ]

  pub remove_by_id-Every :
      (h : List Notification) (id : ℕ) → Every P h → Every P (remove_by_id h id)
  unfolding remove_by_id
  remove_by_id-Every [] id q = tt
  remove_by_id-Every (n ∷ h) id q = ground (arith, remove_by_id-Every h id q.1)

module _ (P : ℕ → Notification → Type 0) where
  abbrev pub Entries : List (ℕ × Notification) → Type 0
  Entries [] = Unit {0}
  Entries ((k, n) ∷ m) = P k n × Entries m

  pub insert-Entries :
      (k : ℕ) (n : Notification) (m : List (ℕ × Notification))
      → P k n
      → Entries m
      → Entries (insert k n m)
  insert-Entries k n [] p q = (p, tt)
  insert-Entries k n ((j, o) ∷ m) p q = elim (Bool-cases (j == k)) [
    | inl same ↦ rw same (subst (λ i. P i n) (ground arith) p, q.1)
    | inr other ↦ rw other (q.0, insert-Entries k n m p q.1)
  ]

  pub remove-Entries : (k : ℕ) (m : List (ℕ × Notification)) → Entries m → Entries (remove k m)
  remove-Entries k [] q = tt
  remove-Entries k ((j, o) ∷ m) q = ground (arith, remove-Entries k m q.1)

  pub contains-Entries :
      (k : ℕ) (m : List (ℕ × Notification))
      → contains_key k m ≡ true
      → Entries m
      → (n : Notification) × P k n
  contains-Entries k [] e q = cc
  contains-Entries k ((j, o) ∷ m) e q = elim (Bool-cases (j == k)) [
    | inl same ↦ (o, subst (λ i. P i o) (ground arith) q.0)
    | inr other ↦ contains-Entries k m (ground arith) q.1
  ]

pub push_history-length :
    (h : List Notification) (n : Notification)
    → length h ≤ max_history
    → length (push_history h n) ≤ max_history
unfolding push_history
push_history-length [] n b = ground arith
push_history-length (m ∷ h) n b =
    let e₁ = length-append (m ∷ h) (n ∷ []) in let e₂ = length-append h (n ∷ []) in ground arith

replace_at-length :
    (h : List Notification) (id : ℕ) (n : Notification) → length (replace_at h id n) ≤ length h
unfolding replace_at
replace_at-length [] id n = omega arith
replace_at-length (m ∷ h) id n = ground (arith, replace_at-length h id n)

pub replace-length :
    (h : List Notification) (id : ℕ) (n : Notification)
    → length h ≤ max_history
    → length (replace h id n) ≤ max_history
unfolding replace
replace-length h id n b = ground (arith, push_history-length h n b, replace_at-length h id n)
