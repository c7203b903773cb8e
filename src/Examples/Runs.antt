-- ===== src/Examples/Runs.antt =====
-- ThreadPoolImpl: runs of a pool with one thread, step by step.
use uni_tasks.Prelude.{some, ◌≡◌, refl, Bool, true, false, List, [], ◌∷◌, ◌+◌, count, All}
use uni_tasks.Prelude.Int.{pos, ◌≤ℤ◌, quot, ◌-ℤ◌}
use uni_tasks.Errors.{ok}
use uni_tasks.Tasks.{Task, task_before, get_task_delay}
use uni_tasks.Pool.{
  Thread, Stage, new_pool, entering, running, ended, join, on_one_of_threads_impl, take_turn,
  start_impl, clear_started, close_queue, wake_all, throw_if_stopped, push_task, after_run,
}
use uni_tasks.OrderedSet.{contains}
use uni_tasks.Pool.Tasks.{task_type}
use uni_tasks.Pool.System.{
  System, Control, free, joining, initial, start, stop, closes, notifies, begin_add, end_add, turn,
  finishes, Reach, here, next, pushed, worked,
}
use uni_tasks.Pool.System.Drained.{join-all_done}
use uni_tasks.Pool.System.Invariant.{Reach-initial-Inv}
use uni_tasks.Pool.System.Parts.{Inv}
use uni_tasks.Pool.System.Closing.{turn-first}
use uni_tasks.Pool.System.Progress.{Reach-trans}
use uni_tasks.Pool.Spec.{Changes, idle_contract}
use uni_tasks.Pool.System.Work.{Works}
use uni_tasks.Pool.System.Stop.{join-terminates}
use uni_tasks.Pool.System.View.{view}
use uni_tasks.Pool.System.Refines.{Reach-Changes}
use uni_tasks.Examples.{early, pool_of, queue_of, thread_at}

-- A system that has taken the task `early`.
abbrev holding :
    List Task → (closed started : Bool) → Stage Task → Control → List Task → System Task
holding pending closed started stage control finished = record {
  pool = pool_of pending closed started (thread_at 0 stage ∷ []);
  now = pos 0;
  control = control;
  adding = [];
  accepted = early ∷ [];
  dropped = [];
  cancelled = [];
  finished = finished;
}

added : Reach task_type (initial 1 (pos 0)) (holding (early ∷ []) false true entering free [])
unfolding start_impl throw_if_stopped pushed push_task new_pool contains
added =
    next (next (next here (start (λ i. i) refl refl)) (begin_add early refl refl))
      (end_add 0 [] early [] refl refl)

shut : Reach task_type (initial 1 (pos 0)) (holding (early ∷ []) true false entering joining [])
unfolding clear_started close_queue wake_all
shut = next (next (next added (stop refl refl)) (closes refl refl)) (notifies refl refl)

works_off :
    Reach task_type
      (holding (early ∷ []) true false entering joining [])
      (holding [] true false ended joining (early ∷ []))
unfolding worked take_turn after_run get_task_delay quot ◌-ℤ◌
works_off =
    next
      (next (next here (turn [] (thread_at 0 entering) [] refl refl refl))
        (finishes [] (thread_at 0 (running early)) [] early (ok tt) entering refl refl refl refl))
      (turn [] (thread_at 0 entering) [] refl refl refl)

join-all_done_example :
    (true ≡ true)
    × (◌≡◌ {A = List Task} [] [])
    × ((p : Task → Bool) → count p (early ∷ []) ≡ count p (early ∷ []) + 0 + 0)
unfolding join on_one_of_threads_impl
join-all_done_example =
    join-all_done task_type 1 (pos 0) 99 (record { id = 0; joinable = false; stage = ended } ∷ [])
      (Reach-trans task_type shut works_off) (λ e. cc) refl refl

Reach-initial-Inv_example : Inv task_type (holding (early ∷ []) true false entering joining [])
Reach-initial-Inv_example = Reach-initial-Inv task_type 1 (pos 0) shut

turn-first_example :
    All
      (λ y. task_before early y ≡ true)
      (take_turn task_type (pos 0) entering (queue_of (early ∷ []) true)).1.elements
    × (get_task_delay (pos 0) early ≤ℤ pos 0)
unfolding take_turn get_task_delay quot ◌-ℤ◌
turn-first_example =
    turn-first task_type 1 (pos 0) [] (thread_at 0 entering) [] early shut refl refl refl

join-terminates_example :
    (t : System Task) × Works task_type (holding (early ∷ []) true false entering joining []) t
    × (us : List (Thread Task)) × (join 99 t.pool.threads ≡ some us)
join-terminates_example = join-terminates 1 (pos 0) 99 shut refl

Reach-Changes_example :
    Changes task_type
      (pos 0)
      idle_contract
      (pos 0)
      (view (holding [] true false ended joining (early ∷ [])))
Reach-Changes_example = Reach-Changes task_type 1 (pos 0) (Reach-trans task_type shut works_off)
