-- ===== src/Queue/Ordered/Push.antt =====
-- Queue.hpp, `push` and `close` of the ordered queue.
use uni_tasks.Prelude.{
  ◌+◌, ◌≡◌, Bool, true, false, ◌⊎◌, inl, inr, Bool-cases, bit, count, if◌then◌else◌,
}
use uni_tasks.Errors.{ok, throw, queue_closed}
use uni_tasks.Order.{StrictWeakOrder}
use uni_tasks.OrderedSet.{contains}
use uni_tasks.OrderedSet.Sorted.{insert-IsSorted}
use uni_tasks.OrderedSet.Contents.{count-insert}
use uni_tasks.Queue.{Queue, throw_if_closed}
use uni_tasks.Queue.Ordered.{push, IsOrdered}

module _ {ℓ} {A : Type ℓ} {lt : A → A → Bool} (order : StrictWeakOrder lt) where
  pub push-IsOrdered : (x : A) (q : Queue A) → IsOrdered lt q → IsOrdered lt (push lt x q).1
  unfolding push throw_if_closed
  push-IsOrdered x q s = elim (Bool-cases q.closed) [
    | inl e ↦ rw e s
    | inr e ↦ rw e (insert-IsSorted order x q.elements s)
  ]

  -- `push` on an ordered queue: a closed queue refuses the element and stays as it was; an open
  -- one takes it, stays open, and holds what it held and the element, unless an equivalent element
  -- was there: then it holds what it held.
  pub push_lem :
      (x : A) (q : Queue A)
      → IsOrdered lt q
      → ((q.closed ≡ true) × (push lt x q ≡ (throw queue_closed, q)))
        ⊎ ((q.closed ≡ false)
            × ((push lt x q).0 ≡ ok tt)
            × ((push lt x q).1.closed ≡ false)
            × ((p : A → Bool)
                → count p (push lt x q).1.elements
                  ≡ (if contains lt x q.elements then 0 else bit (p x)) + count p q.elements))
  unfolding push throw_if_closed
  push_lem x q s = elim (Bool-cases q.closed) [
    | inl e ↦ inl (e, rw e)
    | inr e ↦ inr (e, rw e, rw e, λ p. rw e (count-insert order p x q.elements s))
  ]
