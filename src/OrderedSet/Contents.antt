-- ===== src/OrderedSet/Contents.antt =====
-- Which elements an insertion and an erasure leave in the set.
use uni_tasks.Prelude.{
  ◌+◌, ◌≡◌, refl, Bool-cases, inl, inr, All-map, Bool, not, true, false, List, [], ◌∷◌, All, bit,
  count, any, arith, if◌then◌else◌,
}
use uni_tasks.Order.{StrictWeakOrder}
use uni_tasks.OrderedSet.{insert, contains, erase_if, IsSorted}

module _ {ℓ} {A : Type ℓ} (p : A → Bool) where
  -- The two erasures by a test and by its opposite share the elements between them.
  pub count-erase_if-not :
      (q : A → Bool) (xs : List A)
      → count q (erase_if p xs) + count q (erase_if (λ x. not (p x)) xs) ≡ count q xs
  unfolding erase_if
  count-erase_if-not q [] = refl
  count-erase_if-not q (x ∷ xs) = ground (arith, count-erase_if-not q xs)

  pub any-erase_if : (xs : List A) → any p (erase_if p xs) ≡ false
  unfolding erase_if
  any-erase_if [] = refl
  any-erase_if (x ∷ xs) = ground (arith, any-erase_if xs)

module _ {ℓ} {A : Type ℓ} (lt : A → A → Bool) (p : A → Bool) where
  erase_if-none : (xs : List A) → any p xs ≡ false → erase_if p xs ≡ xs
  unfolding erase_if
  erase_if-none [] h = refl
  erase_if-none (x ∷ xs) h = ground (arith, erase_if-none xs)

  -- Erasing what was just inserted, and nothing else, undoes the insertion.
  pub erase_if-insert :
      (x : A) (xs : List A) → p x ≡ true → any p xs ≡ false → erase_if p (insert lt x xs) ≡ xs
  unfolding erase_if insert
  erase_if-insert x [] h none_left = ground arith
  erase_if-insert x (y ∷ ys) h none_left = ground (arith, erase_if-insert x ys h, erase_if-none ys)

module _ {ℓ} {A : Type ℓ} {lt : A → A → Bool} (order : StrictWeakOrder lt) where
  -- An element before the first one is equivalent to none.
  not-contains_before :
      (x : A) (ys : List A) → All (λ y. lt x y ≡ true) ys → contains lt x ys ≡ false
  unfolding contains
  not-contains_before x [] h = refl
  not-contains_before x (y ∷ ys) h = ground (arith, not-contains_before x ys h.1)

  pub count-insert :
      (q : A → Bool) (x : A) (xs : List A)
      → IsSorted lt xs
      → count q (insert lt x xs) ≡ (if contains lt x xs then 0 else bit (q x)) + count q xs
  unfolding insert contains
  count-insert q x [] s = refl
  count-insert q x (y ∷ ys) s = elim (Bool-cases (lt x y)) [
    | inl before ↦
        rw (
          before,
          not-contains_before x ys (All-map _ _ (λ z h. order.trans x y z before h) ys s.0),
        )
    | inr not_before ↦ elim (Bool-cases (lt y x)) [
      | inl after ↦ rw (not_before, after) (ground (arith, count-insert q x ys s.1))
      | inr same ↦ rw (not_before, same) (omega arith)
    ]
  ]

  -- What an insertion does to the elements, order aside.
  pub insert-known :
      (x : A) (xs : List A)
      → IsSorted lt xs
      → contains lt x xs ≡ true
      → (q : A → Bool) → count q (insert lt x xs) ≡ count q xs
  insert-known x xs s known q = rw (count-insert q x xs s, known) (omega arith)

  pub insert-fresh :
      (x : A) (xs : List A)
      → IsSorted lt xs
      → contains lt x xs ≡ false
      → (q : A → Bool) → count q (insert lt x xs) ≡ count q (x ∷ xs)
  insert-fresh x xs s fresh q = rw (count-insert q x xs s, fresh) refl

module _ {ℓ} {A : Type ℓ} (p : A → Bool) where
  pub count-erase_if_self : (xs : List A) → count p (erase_if p xs) ≡ 0
  unfolding erase_if
  count-erase_if_self [] = refl
  count-erase_if_self (x ∷ xs) = ground (arith, count-erase_if_self xs)

  pub count-not-erase_if : (xs : List A) → count (λ x. not (p x)) (erase_if (λ x. not (p x)) xs) ≡ 0
  unfolding erase_if
  count-not-erase_if [] = refl
  count-not-erase_if (x ∷ xs) = ground (arith, count-not-erase_if xs)
