-- ===== src/Examples/Sleeps.antt =====
-- ThreadPoolImpl.hpp with the notifications of Queue.hpp: a run of a pool with two threads after which
-- one worker sleeps while a task is overdue, because the worker that took the task before it notifies
-- nobody.
use uni_tasks.Prelude.{ℕ, ◌*◌, ◌≡◌, any, refl, false, true, List, [], ◌∷◌, arith}
use uni_tasks.Prelude.Int.{pos, quot, ◌-ℤ◌}
use uni_tasks.Tasks.{Task, get_task_delay, task_before}
use uni_tasks.Queue.{idle, polling, is_empty}
use uni_tasks.Pool.{
  Stage, new_pool, entering, waiting, woken, running, start_impl, throw_if_stopped, push_task,
  take_turn, wake_thread,
}
use uni_tasks.OrderedSet.{contains}
use uni_tasks.Pool.Tasks.{task_type}
use uni_tasks.Pool.System.{
  System, free, initial, tick, start, begin_add, end_add, turn, wakes, Reach, here, next, pushed,
  worked,
}
use uni_tasks.Pool.System.Progress.{Reach-trans}
use uni_tasks.Pool.System.OnTime.{gets_to, Reach-on_time}
use uni_tasks.Pool.System.Work.{Works}
use uni_tasks.Pool.System.Finishes.{AllRun, Reach-AllRun}
use uni_tasks.Examples.{middle, late, pool_of, thread_at}

-- The pool of two threads that has taken some tasks.
abbrev pair :
    (pending : List Task) (first second : Stage Task) (ms : ℕ) (accepted : List Task) → System Task
pair pending first second ms accepted = record {
  pool = record (pool_of pending false true (thread_at 0 first ∷ thread_at 1 second ∷ [])) {
    threads_count = 2;
  };
  now = pos (1_000_000 * ms);
  control = free;
  adding = [];
  accepted = accepted;
  dropped = [];
  cancelled = [];
  finished = [];
}

abbrev asleep : Stage Task
asleep = waiting idle (pos 0)

abbrev polls : Stage Task
polls = waiting (polling (pos 5)) (pos 0)

-- Both workers find the queue empty.
both_sleep : Reach task_type (initial 2 (pos 0)) (pair [] asleep asleep 0 [])
unfolding start_impl new_pool worked take_turn
both_sleep =
    next
      (next (next here (start (λ i. i) refl refl))
        (turn [] (thread_at 0 entering) (thread_at 1 entering ∷ []) refl refl refl))
      (turn (thread_at 0 asleep ∷ []) (thread_at 1 entering) [] refl refl refl)

-- A task that is due after 5 ms wakes the first worker, which waits for it.
first_polls :
    Reach task_type (pair [] asleep asleep 0 []) (pair (middle ∷ []) polls asleep 0 (middle ∷ []))
unfolding throw_if_stopped pushed push_task contains worked take_turn get_task_delay quot ◌-ℤ◌
first_polls =
    next (next (next here (begin_add middle refl refl)) (end_add 0 [] middle [] refl refl))
      (turn [] (thread_at 0 (woken idle)) (thread_at 1 asleep ∷ []) refl refl refl)

-- A task that is due after 9 ms wakes the first worker again, which goes on with its wait.
first_polls_again :
    Reach task_type
      (pair (middle ∷ []) polls asleep 0 (middle ∷ []))
      (pair (middle ∷ late ∷ []) polls asleep 0 (late ∷ middle ∷ []))
unfolding throw_if_stopped pushed push_task contains worked take_turn get_task_delay quot ◌-ℤ◌
    task_before
first_polls_again =
    next (next (next here (begin_add late refl refl)) (end_add 0 [] late [] refl refl))
      (turn [] (thread_at 0 (woken (polling (pos 5)))) (thread_at 1 asleep ∷ []) refl refl refl)

-- After 5 ms the first worker takes the first task; while it runs, the second one becomes due.
overdue :
    Reach task_type
      (pair (middle ∷ late ∷ []) polls asleep 0 (late ∷ middle ∷ []))
      (pair (late ∷ []) (running middle) asleep 90 (late ∷ middle ∷ []))
unfolding worked take_turn get_task_delay quot ◌-ℤ◌ wake_thread
overdue =
    next
      (next
        (next (next here (tick (pos 5_000_000) (omega arith) refl))
          (wakes [] (thread_at 0 polls) (thread_at 1 asleep ∷ []) refl refl refl))
        (turn [] (thread_at 0 (woken (polling (pos 5)))) (thread_at 1 asleep ∷ []) refl refl refl))
      (tick (pos 90_000_000) (omega arith) refl)

-- One worker sleeps without a limit although a task is overdue since 81 ms.
sleeps_beside_overdue :
    Reach task_type
      (initial 2 (pos 0))
      (pair (late ∷ []) (running middle) asleep 90 (late ∷ middle ∷ []))
sleeps_beside_overdue =
    Reach-trans task_type
      (Reach-trans task_type (Reach-trans task_type both_sleep first_polls) first_polls_again)
      overdue

Reach-on_time_example :
    any (λ th. gets_to middle th.stage) (thread_at 0 polls ∷ thread_at 1 asleep ∷ []) ≡ true
unfolding is_empty
Reach-on_time_example =
    Reach-on_time 2 (pos 0) middle [] (Reach-trans task_type both_sleep first_polls) refl refl refl

Reach-AllRun_example :
    (t : System Task) × Works task_type
      (pair (late ∷ []) (running middle) asleep 90 (late ∷ middle ∷ []))
      t
    × AllRun (pair (late ∷ []) (running middle) asleep 90 (late ∷ middle ∷ [])) t
unfolding is_empty
Reach-AllRun_example = Reach-AllRun 2 (pos 0) sleeps_beside_overdue refl refl
