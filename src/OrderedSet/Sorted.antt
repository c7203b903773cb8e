-- ===== src/OrderedSet/Sorted.antt =====
-- The elements stay in order, and the order says which element comes first.
use uni_tasks.Prelude.{Bool, inl, inr, List, [], ◌∷◌, All, All-map, Bool-cases, arith}
use uni_tasks.Order.{StrictWeakOrder}
use uni_tasks.OrderedSet.{insert, erase_if, IsSorted}

module _ {ℓ κ} {A : Type ℓ} (lt : A → A → Bool) (P : A → Type κ) where
  pub insert-All : (x : A) (xs : List A) → P x → All P xs → All P (insert lt x xs)
  unfolding insert
  insert-All x [] h hs = (h, tt)
  insert-All x (y ∷ ys) h hs = ground (arith, insert-All x ys h hs.1)

module _ {ℓ κ} {A : Type ℓ} (p : A → Bool) (P : A → Type κ) where
  pub erase_if-All : (xs : List A) → All P xs → All P (erase_if p xs)
  unfolding erase_if
  erase_if-All [] h = tt
  erase_if-All (x ∷ xs) h = ground (arith, erase_if-All xs h.1)

module _ {ℓ} {A : Type ℓ} {lt : A → A → Bool} (order : StrictWeakOrder lt) where
  pub insert-IsSorted : (x : A) (xs : List A) → IsSorted lt xs → IsSorted lt (insert lt x xs)
  unfolding insert
  insert-IsSorted x [] s = (tt, tt)
  insert-IsSorted x (y ∷ ys) s = elim (Bool-cases (lt x y)) [
    | inl before ↦ rw before ((before, All-map _ _ (λ z h. order.trans x y z before h) ys s.0), s)
    | inr not_before ↦ elim (Bool-cases (lt y x)) [
      | inl after ↦
          rw (not_before, after) (insert-All lt _ x ys after s.0, insert-IsSorted x ys s.1)
      | inr same ↦ rw (not_before, same) s
    ]
  ]

module _ {ℓ} {A : Type ℓ} (lt : A → A → Bool) (p : A → Bool) where
  pub erase_if-IsSorted : (xs : List A) → IsSorted lt xs → IsSorted lt (erase_if p xs)
  unfolding erase_if
  erase_if-IsSorted [] s = tt
  erase_if-IsSorted (x ∷ xs) s = ground (arith, erase_if-IsSorted xs s.1, erase_if-All p _ xs s.0)
