-- ===== src/Queue/Ordered/Remove.antt =====
-- Queue.hpp, `remove` of the ordered queue: the loop against the erasure of the whole list.
use uni_tasks.Prelude.{◌≡◌, Bool, true, false, ◌||◌, List, [], ◌∷◌, any, arith}
use uni_tasks.OrderedSet.{erase_if}
use uni_tasks.Queue.{Queue}
use uni_tasks.Queue.Ordered.{remove_loop, remove}

module _ {ℓ} {A : Type ℓ} (p : A → Bool) where
  pub remove_loop-erase_if :
      (removed : Bool) (xs : List A)
      → remove_loop p removed xs ≡ (removed || any p xs, erase_if p xs)
  unfolding remove_loop erase_if
  remove_loop-erase_if removed [] = ground arith
  remove_loop-erase_if removed (x ∷ xs) =
      ground (arith, remove_loop-erase_if true xs, remove_loop-erase_if removed xs)

  -- `remove` of the ordered queue erases exactly the elements that pass the test, and returns
  -- whether there was one.
  pub remove_lem :
      (q : Queue A) → remove p q ≡ (any p q.elements, record q { elements = erase_if p q.elements })
  unfolding remove
  remove_lem q = ground (arith, remove_loop-erase_if false q.elements)
