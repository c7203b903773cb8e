-- ===== src/Queue/Deque.antt =====
-- Queue.hpp, the template over `std::deque`.
pub mod Fifo
pub mod System
pub mod Wakeups
pub mod History
use uni_tasks.Prelude.{
  ◌≡◌, refl, Bool, true, false, not, ◌==◌, Option, some, none, List, [], ◌∷◌, ◌++◌, length, any,
  arith, if◌then◌else◌,
}
use uni_tasks.Errors.{Call, ◌>>◌, modify, ok, throw, queue_closed}
use uni_tasks.OrderedSet.{erase_if}
use uni_tasks.OrderedSet.Contents.{any-erase_if}
use uni_tasks.Queue.{
  Queue, Pop, returned, waits, idle, throw_if_closed, is_not_empty_or_closed, is_empty,
}

module _ {ℓ} {A : Type ℓ} where
  unfoldable pub push : A → Call (Queue A) (Unit {0})
  unfolding throw_if_closed
  push x = throw_if_closed >> modify (λ q. record q { elements = q.elements ++ x ∷ [] })

  -- What follows the wait.
  take_front : Queue A → Pop A × Queue A
  take_front q = elim q.elements [
    | [] ↦ (returned none, q)
    | x ∷ xs ↦ (returned (some x), record q { elements = xs })
  ]

  unfoldable pub wait_pop : Queue A → Pop A × Queue A
  unfolding is_not_empty_or_closed take_front
  wait_pop q = if is_not_empty_or_closed q then take_front q else (waits idle, q)

  unfoldable pub close : Queue A → Queue A
  close q = record q { closed = true }

  unfoldable pub closed : Queue A → Bool
  closed q = q.closed

  unfoldable pub empty : Queue A → Bool
  unfolding is_empty
  empty q = is_empty q.elements

  -- `std::remove_if` moves the elements that stay to the front and returns where they end;
  -- `erase` from there on returns the position behind the last element that it erased, which is the
  -- same position in the shorter deque. Positions are counted from the front.
  unfoldable pub remove : (A → Bool) → Queue A → Bool × Queue A
  remove p q =
      let kept = erase_if p q.elements in
      let pos = length kept in
      let q' : Queue A = record q { elements = kept } in (not (pos == length q'.elements), q')
