-- ===== src/Queue/Ordered.antt =====
-- Queue.hpp, the template over `std::set`: the elements wait in the order of the comparator, each
-- until its delay has run out.
pub mod Push
pub mod Remove
pub mod WaitPop
use uni_tasks.Prelude.{ℕ, Bool, true, false, Option, some, none, List, [], ◌∷◌, if◌then◌else◌}
use uni_tasks.Prelude.Int.{ℤ, pos, leb_ℤ}
use uni_tasks.Errors.{Call, ◌>>◌, modify}
use uni_tasks.OrderedSet.{insert, IsSorted}
use uni_tasks.Queue.{
  Queue, Pop, returned, waits, WaitPoint, idle, polling, draining, throw_if_closed,
  is_not_empty_or_closed, is_empty,
}

module _ {ℓ} {A : Type ℓ} (lt : A → A → Bool) where
  unfoldable pub push : A → Call (Queue A) (Unit {0})
  unfolding throw_if_closed insert
  push x = throw_if_closed >> modify (λ q. record q { elements = insert lt x q.elements })

  -- The elements stand in the comparator's order.
  abbrev pub IsOrdered : Queue A → Type ℓ
  IsOrdered q = IsSorted lt q.elements

module _ {ℓ} {A : Type ℓ} where
  abbrev pub closed : Queue A → Bool
  closed q = q.closed

  abbrev pub empty : Queue A → Bool
  unfolding is_empty
  empty q = is_empty q.elements

module _ {ℓ} {A : Type ℓ} (p : A → Bool) where
  -- The loop of `remove`, from an iterator to the end.
  unfoldable pub remove_loop : Bool → List A → Bool × List A
  remove_loop removed [] = (removed, [])
  remove_loop removed (x ∷ xs) =
      let erased = remove_loop true xs in
      let kept = remove_loop removed xs in if p x then erased else (kept.0, x ∷ kept.1)

  unfoldable pub remove : Queue A → Bool × Queue A
  unfolding remove_loop
  remove q =
      let (removed, rest) = remove_loop false q.elements in (removed, record q { elements = rest })

-- `delay` is the callback, at the time of the call.
module _ {ℓ} {A : Type ℓ} (delay : A → ℤ) where
  -- The body that both loops share where the queue is not empty: `extract` the first element if its
  -- delay is over, else wait for the delay at the point that the loop names.
  unfoldable pub extract_or_wait : (ℤ → WaitPoint) → A → List A → Queue A → Pop A × Queue A
  extract_or_wait point x xs q =
      if leb_ℤ (delay x) (pos 0)
      then (returned (some x), record q { elements = xs })
      else (waits (point (delay x)), q)

  -- The second loop.
  unfoldable pub drain_loop : Queue A → Pop A × Queue A
  unfolding extract_or_wait
  drain_loop q = elim q.elements [
    | [] ↦ (returned none, q)
    | x ∷ xs ↦ extract_or_wait draining x xs q
  ]

  -- The first loop, and what follows it.
  unfoldable pub poll_loop : Queue A → Pop A × Queue A
  unfolding drain_loop
  poll_loop q =
      if q.closed
      then drain_loop q
      else elim q.elements [ [] ↦ (waits idle, q) | x ∷ xs ↦ extract_or_wait polling x xs q ]

  unfoldable pub wait_pop : Queue A → Pop A × Queue A
  unfolding poll_loop
  wait_pop q = poll_loop q

  -- `wait_pop` goes on when a wait ends: by a notification, by its limit or for no reason.
  unfoldable pub resume : WaitPoint → Queue A → Pop A × Queue A
  unfolding poll_loop is_not_empty_or_closed
  resume idle q = if is_not_empty_or_closed q then poll_loop q else (waits idle, q)
  resume (polling _) q = poll_loop q
  resume (draining _) q = drain_loop q
