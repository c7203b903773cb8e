-- ===== src/OrderedSet.antt =====
-- `std::set< T, Cmp >` as public/uni/concurrency/Queue.hpp uses it: the elements in the order in
-- which an iteration meets them, first to last. The comparator is a parameter.
pub mod Sorted
pub mod Contents
use uni_tasks.Prelude.{
  ℕ, ◌≡◌, Bool, true, false, ◌||◌, ◌&&◌, not, List, [], ◌∷◌, All, if◌then◌else◌,
}

module _ {ℓ} {A : Type ℓ} (lt : A → A → Bool) where
  -- `insert`: an element that is equivalent to one in the set is not taken in.
  unfoldable pub insert : A → List A → List A
  insert x [] = x ∷ []
  insert x (y ∷ ys) =
      let rest = insert x ys in if lt x y then x ∷ y ∷ ys else if lt y x then y ∷ rest else y ∷ ys

  -- Neither precedes the other.
  abbrev pub equivalent : A → A → Bool
  equivalent x y = not (lt x y) && not (lt y x)

  -- The set holds an element equivalent to `x`.
  unfoldable pub contains : A → List A → Bool
  contains x [] = false
  contains x (y ∷ ys) = equivalent x y || contains x ys

  -- Strictly increasing, each element against all behind it.
  abbrev pub IsSorted : List A → Type ℓ
  IsSorted [] = Unit
  IsSorted (x ∷ xs) = All (λ y. lt x y ≡ true) xs × IsSorted xs

-- `erase` of every element that passes the test, as a loop with an iterator does it, and whether
-- there was one.
module _ {ℓ} {A : Type ℓ} (p : A → Bool) where
  unfoldable pub erase_if : List A → List A
  erase_if [] = []
  erase_if (x ∷ xs) = let rest = erase_if xs in if p x then rest else x ∷ rest
