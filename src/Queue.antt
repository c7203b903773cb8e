-- ===== src/Queue.antt =====
-- public/uni/concurrency/Queue.hpp: what the two templates share. Every member function runs under
-- the queue's mutex, so each is one step from state to state, but for `wait_pop`: it is cut at its
-- waits, where the mutex is free.
pub mod Deque
pub mod Ordered
use uni_tasks.Prelude.{Bool, true, false, not, ◌||◌, Option, List, [], ◌∷◌, if◌then◌else◌}
use uni_tasks.Prelude.Int.{ℤ}
use uni_tasks.Errors.{Call, return, raise, queue_closed}

pub record Queue {ℓ} (A : Type ℓ) : Type ℓ where
  pub elements : List A
  pub closed : Bool

-- Where a thread waits in `wait_pop`. `idle` is the wait without a limit; `polling` and `draining`
-- are the two waits for a delay, in milliseconds: before and after the queue was seen closed.
pub data WaitPoint : Type 0 where
  idle : WaitPoint
  polling : ℤ → WaitPoint
  draining : ℤ → WaitPoint

-- How far `wait_pop` comes without leaving the mutex: to its end, or to a wait. `returned none` is
-- `OperationStatus::closed` or an empty `std::optional`, `returned (some x)` the element `x`.
pub data Pop {ℓ} (A : Type ℓ) : Type ℓ where
  returned : Option A → Pop A
  waits : WaitPoint → Pop A

module _ {ℓ} {A : Type ℓ} where
  abbrev pub new_queue : Queue A
  new_queue = record { elements = []; closed = false }

  unfoldable pub is_empty : List A → Bool
  is_empty [] = true
  is_empty (_ ∷ _) = false

  unfoldable pub is_not_empty_or_closed : Queue A → Bool
  unfolding is_empty
  is_not_empty_or_closed q = not (is_empty q.elements) || q.closed

  unfoldable pub throw_if_closed : Call (Queue A) (Unit {0})
  throw_if_closed q = if q.closed then raise queue_closed q else return tt q

  unfoldable pub close : Queue A → Queue A
  close q = record q { closed = true }
