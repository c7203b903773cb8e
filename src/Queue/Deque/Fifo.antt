-- ===== src/Queue/Deque/Fifo.antt =====
-- Queue.hpp, the template over `std::deque`: first in, first out, and what `remove` reports.
use uni_tasks.Prelude.{
  ℕ, zero, suc, ◌<◌, ◌≡◌, refl, ◌∙◌, Bool, true, false, Option, some, none, List, [], ◌∷◌, ◌++◌,
  length, any, arith,
}
use mathlib.Core.List.{append-nil, append_assoc}
use uni_tasks.OrderedSet.Contents.{any-erase_if}
use uni_tasks.Queue.{Queue, new_queue, Pop, returned, waits, throw_if_closed}
use uni_tasks.Queue.Deque.{push, wait_pop, remove, close}

module _ {ℓ} {A : Type ℓ} where
  -- A producer that pushes a list of elements, one after the other.
  pub push_all : List A → Queue A → Queue A
  push_all [] q = q
  push_all (x ∷ xs) q = push_all xs (push x q).1

  prepend : Pop A → Option (List A) → Option (List A)
  prepend (returned none) rest = some []
  prepend (returned (some x)) none = none
  prepend (returned (some x)) (some xs) = some (x ∷ xs)
  prepend (waits _) rest = none

  -- A consumer that pops until the queue reports that it is closed; what it got. `none` is a
  -- consumer that waits, or one that has no fuel left.
  pub pop_all : ℕ → Queue A → Option (List A)
  unfolding prepend
  pop_all zero q = none
  pop_all (suc fuel) q = let rest = pop_all fuel (wait_pop q).1 in prepend (wait_pop q).0 rest

  push_all_lem :
      (xs ys : List A)
      → push_all xs (record { elements = ys; closed = false })
        ≡ record { elements = ys ++ xs; closed = false }
  unfolding push_all push throw_if_closed
  push_all_lem [] ys = rw append-nil
  push_all_lem (x ∷ xs) ys = push_all_lem xs (ys ++ x ∷ []) ∙ rw append_assoc

  pop_all_closed :
      (fuel : ℕ) (xs : List A)
      → length xs < fuel
      → pop_all fuel (record { elements = xs; closed = true }) ≡ some xs
  unfolding pop_all wait_pop
  pop_all_closed zero xs h = absurd (omega arith)
  pop_all_closed (suc fuel) [] h = refl
  pop_all_closed (suc fuel) (x ∷ xs) h = rw (pop_all_closed fuel xs (omega arith))

  -- If a number of elements is pushed to a new queue over a deque, the queue is closed, and a
  -- consumer pops more often than there are elements, then it gets all of them in the order in
  -- which they were pushed, and then that the queue is closed; it never waits.
  pub pop_all-push_all :
      (xs : List A) (fuel : ℕ)
      → length xs < fuel
      → pop_all fuel (close (push_all xs new_queue)) ≡ some xs
  unfolding close
  pop_all-push_all xs fuel h = rw (push_all_lem xs []) (pop_all_closed fuel xs h)

  -- If an element of a queue over a deque passes the test, `remove` erases every such element and
  -- yet returns false.
  pub remove_reports_false :
      (p : A → Bool) (q : Queue A)
      → any p q.elements ≡ true
      → ((remove p q).0 ≡ false) × (any p (remove p q).1.elements ≡ false)
  unfolding remove
  remove_reports_false p q h = (ground arith, any-erase_if p q.elements)
