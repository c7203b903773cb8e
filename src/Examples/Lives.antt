-- ===== src/Examples/Lives.antt =====
-- TaskDispatcherImpl.cpp: a run of a dispatcher of two pools, from its constructor until its `stop`
-- comes back.
use uni_tasks.Prelude.{ℕ, suc, ◌≡◌, refl, Bool, true, false, List, [], ◌∷◌, String, All, arith}
use uni_tasks.Prelude.Int.{pos, quot, ◌-ℤ◌}
use uni_tasks.Errors.{Result, ok}
use uni_tasks.Tasks.{Invocation}
use uni_tasks.Pool.System.Futures.{IsAnswered}
use uni_tasks.TaskDispatcher.Life.Answered.{came_back-IsAnswered}
use uni_tasks.Ids.{fresh_counters, create_sequence_id}
use uni_tasks.Factory.{
  by_value, callable, create, create_all, create_task, create_function_task_impl,
}
use uni_tasks.Tasks.{new_task, sequence_id_impl}
use uni_tasks.TaskDispatcher.Life.Made.{HasRun, came_back-HasRun}
use uni_tasks.Tasks.{Task, get_task_delay, task_before}
use uni_tasks.OrderedSet.{contains}
use uni_tasks.Pool.{
  Stage, Thread, entering, running, ended, new_pool, start_impl, throw_if_stopped, push_task,
  clear_started, close_queue, wake_all, after_run, join, on_one_of_threads_impl, take_turn,
  notify_all,
}
use uni_tasks.Pool.System.{
  System, Control, free, start, begin_add, end_add, turn, finishes, closes, notifies, pushed,
  worked,
}
use uni_tasks.Dispatcher.{configure}
use uni_tasks.TaskDispatcher.Life.{
  by_stop, Stopping, no_stop, stopping, came_back, Program, initial, within, begins, stops, joins,
  comes_back, Reach, here, next,
}
use uni_tasks.TaskDispatcher.Life.Stopped.{IsFinished, Reach-came_back}
use uni_tasks.TaskDispatcher.Life.Ends.{Own, stop-comes_back}
use uni_tasks.Examples.{early, pool_of}

abbrev configurations : List (String × ℕ)
configurations = ("a", 1) ∷ ("b", 1) ∷ []

abbrev system_of :
    (pending : List Task) (closed started : Bool) (threads : List (Thread Task)) (control : Control)
    (accepted finished : List Task)
    → System Task
system_of pending closed started threads control accepted finished = record {
  pool = pool_of pending closed started threads;
  now = pos 0;
  control = control;
  adding = [];
  accepted = accepted;
  dropped = [];
  cancelled = [];
  finished = finished;
}

abbrev program_of : System Task → System Task → Stopping → Program
program_of a b call = record { systems = ("a", a) ∷ ("b", b) ∷ []; call = call; outside = true }

abbrev one : ℕ → Stage Task → List (Thread Task)
one id stage = record { id = id; joinable = true; stage = stage } ∷ []

abbrev gone : ℕ → List (Thread Task)
gone id = record { id = id; joinable = false; stage = ended } ∷ []

-- Both pools are started, and the first has begun the one task it was given.
abbrev busy : Program
busy =
    program_of (system_of [] false true (one 1 (running early)) free (early ∷ []) [])
      (system_of [] false true (one 2 entering) free [] []) no_stop

busy-Reach : Reach (initial configurations (pos 0)) busy
unfolding initial configure start_impl throw_if_stopped pushed push_task contains worked take_turn
    get_task_delay quot ◌-ℤ◌ task_before new_pool
busy-Reach =
    next
      (next
        (next
          (next (next here (within [] "a" _ _ _ refl (start (λ i. 1) refl refl) refl refl))
            (within (("a", _) ∷ []) "b" _ _ _ refl (start (λ i. 2) refl refl) refl refl))
          (within [] "a" _ _ _ refl (begin_add early refl refl) refl refl))
        (within [] "a" _ _ _ refl (end_add 0 [] early [] refl refl) refl refl))
      (within [] "a" _ _ _ refl (turn [] _ [] refl refl refl) refl refl)

-- A thread that is in neither pool stops the dispatcher: it joins the first pool when its worker has
-- run the task and has ended.
abbrev first_joined : Program
first_joined =
    program_of (system_of [] true false (gone 1) free (early ∷ []) (early ∷ []))
      (system_of [] false true (one 2 entering) free [] []) (stopping by_stop 9 1)

first_joined-Reach : Reach (initial configurations (pos 0)) first_joined
unfolding clear_started close_queue wake_all notify_all worked take_turn join on_one_of_threads_impl
    after_run
first_joined-Reach =
    next
      (next
        (next
          (next
            (next
              (next (next busy-Reach (begins by_stop 9 refl refl))
                (stops by_stop 9 [] "a" _ _ refl refl refl refl refl))
              (within [] "a" _ _ _ refl
                (finishes [] _ [] early (ok tt) entering refl refl refl refl) refl refl))
            (within [] "a" _ _ _ refl (closes refl refl) refl refl))
          (within [] "a" _ _ _ refl (notifies refl refl) refl refl))
        (within [] "a" _ _ _ refl (turn [] _ [] refl refl refl) refl refl))
      (joins by_stop 9 [] "a" _ _ (gone 1) refl refl refl refl refl)

abbrev stopped : Program
stopped =
    program_of (system_of [] true false (gone 1) free (early ∷ []) (early ∷ []))
      (system_of [] true false (gone 2) free [] []) (came_back by_stop)

stopped-Reach : Reach (initial configurations (pos 0)) stopped
unfolding clear_started close_queue wake_all notify_all worked take_turn join on_one_of_threads_impl
    after_run
stopped-Reach =
    next
      (next
        (next
          (next
            (next
              (next first_joined-Reach
                (stops by_stop 9 (("a", _) ∷ []) "b" _ _ refl refl refl refl refl))
              (within (("a", _) ∷ []) "b" _ _ _ refl (closes refl refl) refl refl))
            (within (("a", _) ∷ []) "b" _ _ _ refl (notifies refl refl) refl refl))
          (within (("a", _) ∷ []) "b" _ _ _ refl (turn [] _ [] refl refl refl) refl refl))
        (joins by_stop 9 (("a", _) ∷ []) "b" _ _ (gone 2) refl refl refl refl refl))
      (comes_back by_stop 9 refl refl)

Reach-came_back_example : All (λ (e : String × System Task). IsFinished e.1) stopped.systems
Reach-came_back_example =
    Reach-came_back configurations (pos 0) by_stop (omega arith, (omega arith, tt)) stopped-Reach
      refl refl

-- The task was made by the factory, as the first one of the program.
came_back-HasRun_example : All (λ (e : String × System Task). HasRun e.1) stopped.systems
unfolding create_all create create_task create_function_task_impl new_task create_sequence_id
    sequence_id_impl
came_back-HasRun_example =
    came_back-HasRun (by_value (pos 0) (callable 7) [] ∷ []) fresh_counters (omega arith)
      configurations (pos 0) by_stop (omega arith, (omega arith, tt)) stopped-Reach refl refl
      (λ m. omega arith, (λ m. omega arith, tt))

-- A callee that counts its calls.
abbrev counts : Invocation → ℕ → Result (Unit {0}) × List ℕ × ℕ
counts invocation calls = (ok tt, [], suc calls)

came_back-IsAnswered_example :
    All (λ (e : String × System Task). IsAnswered counts e.1) stopped.systems
came_back-IsAnswered_example =
    came_back-IsAnswered counts configurations (pos 0) by_stop (omega arith, (omega arith, tt))
      stopped-Reach refl refl ((refl, tt), (tt, tt))

stop-comes_back_example :
    (q : Program) × Own (record busy { call = stopping by_stop 9 0 }) q
    × (q.call ≡ came_back by_stop)
stop-comes_back_example =
    stop-comes_back configurations (pos 0) by_stop 9 (omega arith, (omega arith, tt))
      (next busy-Reach (begins by_stop 9 refl refl)) refl ((refl, refl), ((refl, refl), tt))
