-- ===== src/Bag.antt =====
-- Collections without order: what the pool of public/uni/concurrency/details/ThreadPoolImpl.hpp
-- promises speaks of which tasks there are, not of how the queue and the threads hold them.
use uni_tasks.Prelude.{ℕ, ◌≡◌, Bool, List, [], ◌∷◌, ◌++◌, count, count-append, arith}
use mathlib.Core.Quot
use mathlib.Core.Quot.{Quot, Quot-set}
use native.Mathlib.Nat.{ℕ_set}

-- Two lists hold the same elements, as often.
abbrev pub SameItems {ℓ} : {A : Type ℓ} → List A → List A → Type ℓ
SameItems {A = A} xs ys = (p : A → Bool) → count p xs ≡ count p ys

abbrev pub Bag {ℓ} : Type ℓ → Type ℓ
Bag A = Quot (SameItems {A = A})

module _ {ℓ} {A : Type ℓ} where
  abbrev pub of_list : List A → Bag A
  of_list = Quot.mk

  -- How many elements pass a test.
  unfoldable pub items : (A → Bool) → Bag A → ℕ
  items p = Quot.lift ℕ_set (count p) (λ xs ys h. h p)

  -- The elements of a list, and those of a bag.
  unfoldable pub put_all : List A → Bag A → Bag A
  put_all zs =
      Quot.lift Quot-set (λ xs. of_list (zs ++ xs))
        (λ xs ys h.
          Quot.sound (λ p. omega (arith, count-append p zs xs, count-append p zs ys, h p)))

  abbrev pub put : A → Bag A → Bag A
  put x = put_all (x ∷ [])

  pub same_bag : {xs ys : List A} → SameItems xs ys → of_list xs ≡ of_list ys
  same_bag = Quot.sound
