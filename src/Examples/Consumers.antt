-- ===== src/Examples/Consumers.antt =====
-- Queue.hpp, the template over `std::deque`: a run of two consumers and a producer.
use uni_tasks.Prelude.{ℕ, ◌==◌, ◌≡◌, refl, ◌≤◌, ◌<◌, ◌⊎◌, Bool, false, List, [], ◌∷◌, length}
use uni_tasks.Queue.{throw_if_closed, is_not_empty_or_closed}
use uni_tasks.Queue.Deque.{push, wait_pop, remove}
use uni_tasks.Queue.Deque.System.{
  Consumer, outside, waiting, woken, notify_one, notified, System, initial, pushes, pops, removes,
  Reach, here, next, pushing, popping, removing,
}
use uni_tasks.Queue.Deque.Wakeups.{asleep, awake, Reach-Enough}
use uni_tasks.Queue.Deque.History.{Keeps, Reach-Keeps}
use uni_tasks.OrderedSet.{erase_if}

abbrev run_of :
    (elements : List ℕ) (closed : Bool) (consumers : List Consumer) (closing : ℕ)
    (pushed popped removed : List ℕ)
    → System ℕ
run_of elements closed consumers closing pushed popped removed = record {
  queue = record { elements = elements; closed = closed };
  consumers = consumers;
  closing = closing;
  pushed = pushed;
  popped = popped;
  removed = removed;
}

abbrev two : List Consumer
two = outside ∷ outside ∷ []

-- Both consumers wait, and a push wakes the second.
abbrev one_woken : System ℕ
one_woken = run_of (5 ∷ []) false (waiting ∷ woken ∷ []) 0 (5 ∷ []) [] []

one_woken-Reach : Reach (initial two) one_woken
unfolding pops wait_pop is_not_empty_or_closed pushes push throw_if_closed notified notify_one
one_woken-Reach =
    next
      (next (next here (popping [] outside (outside ∷ []) refl refl refl))
        (popping (waiting ∷ []) outside [] refl refl refl))
      (pushing 1 5 refl)

-- Three more elements come, one goes, and the woken consumer takes the first.
abbrev one_popped : System ℕ
one_popped =
    run_of (7 ∷ 8 ∷ []) false (woken ∷ outside ∷ []) 0 (5 ∷ 6 ∷ 7 ∷ 8 ∷ []) (5 ∷ []) (6 ∷ [])

one_popped-Reach : Reach (initial two) one_popped
unfolding pops wait_pop is_not_empty_or_closed pushes push throw_if_closed notified notify_one
    removes erase_if remove
one_popped-Reach =
    next
      (next
        (next (next (next one_woken-Reach (pushing 0 6 refl)) (pushing 0 7 refl))
          (pushing 0 8 refl))
        (removing (λ x. x == 6) refl))
      (popping (woken ∷ []) woken [] refl refl refl)

Reach-Enough_example :
    ((asleep (waiting ∷ woken ∷ []) ≡ 0) ⊎ (length {A = ℕ} (5 ∷ []) ≤ awake (waiting ∷ woken ∷ [])))
    × ((false ≡ false) ⊎ ((0 < 0) ⊎ (asleep (waiting ∷ woken ∷ []) ≡ 0)))
Reach-Enough_example = Reach-Enough two refl one_woken-Reach

Reach-Keeps_example : Keeps one_popped
Reach-Keeps_example = Reach-Keeps two one_popped-Reach
