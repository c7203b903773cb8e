-- ===== src/Examples/Demos.antt =====
-- DemoComponentImpl: a component on a runtime with one pool, its request and its flag.
use uni_tasks.Prelude.{ℕ, ◌≡◌, refl, some, true, false, [], ◌∷◌}
use uni_tasks.Prelude.Int.{pos}
use uni_tasks.Ids.{fresh_counters}
use uni_tasks.Errors.{Result, ok, ◌>>◌}
use uni_tasks.OrderedSet.{insert}
use uni_tasks.Tasks.{Task, task_before, request_id_impl}
use uni_tasks.Pool.{Pool, entering}
use uni_tasks.Dispatcher.{find}
use uni_tasks.Request.{Request, create_request, start, cancel}
use uni_tasks.Demo.{
  Demo, Names, callbacks, cancel_calculation_1, run_cancel_task, meanwhile, begin_calculation_1,
  end_calculation_1, do_calculation_1,
}
use uni_tasks.Demo.Cancelling.{cancellation, cancel-start_calculation}
use uni_tasks.Demo.Stale.{report_all, run_cancel_task-do_calculation_1}
use uni_tasks.Examples.{early, pool_of, thread_at}

abbrev names : Names
names = record {
  this = 1;
  do_calculation_1 = 2;
  do_calculation_1_internal = 3;
  listener = 4;
  on_calculation_started = 5;
  on_calculation_progress = 6;
  on_calculation_done = 7;
  start_callback = 8;
  cancel_callback = 9;
  cancel_task = λ future. 10;
}

-- Its pool holds a task of another request.
abbrev background : Pool Task
background = pool_of (early ∷ []) false true (thread_at 4 entering ∷ [])

abbrev component : Demo
component = record {
  runtime = record {
    dispatcher = record { pools = ("background", background) ∷ []; counters = fresh_counters };
  };
  calculate_1_cancelled = false;
  owned = true;
}

abbrev started : Result (Unit {0}) × (Request ℕ × Demo)
started = start (callbacks names 0 (pos 3) 6 2 5) (create_request 6 8 9, component)

abbrev cancelled : Result (Unit {0}) × (Request ℕ × Demo)
cancelled = cancel (callbacks names 0 (pos 4) 6 2 5) started.1

cancel-start_calculation_example :
    (started.0 ≡ ok tt)
    × (cancelled.0 ≡ ok tt)
    × (q : Pool Task) × (find "background" cancelled.1.1.runtime.dispatcher.pools ≡ some q)
    × (q.queue.elements
        ≡ insert task_before (cancellation names (pos 3) (pos 4) 6 2 5 fresh_counters) (early ∷ []))
unfolding find request_id_impl
cancel-start_calculation_example =
    cancel-start_calculation names 0 0 (pos 3) (pos 4) 6 8 9 2 5 component background refl
      (record { found = refl; on = refl; open_queue = refl }) refl

-- The task that cancels has run: its future is ready, the flag is set.
abbrev flagged : Demo
flagged = record component { calculate_1_cancelled = true }

run_cancel_task-do_calculation_1_example :
    (do_calculation_1 names (λ k s. s) (λ k. 0) (λ k. pos k) 4 11 2 5 component
      ≡ (begin_calculation_1 names (λ k s. s) (λ k. 0) (λ k. pos k) 4 11 2
            >> report_all names (λ k s. s) (λ k. 0) (λ k. pos k) 4 11 (λ k s. refl) 2 0
            >> end_calculation_1 names (λ k s. s) (λ k. 0) (λ k. pos k) 4 11 2 5 true)
          component)
    × (do_calculation_1 names (λ k s. s) (λ k. 0) (λ k. pos k) 4 11 2 5 flagged
        ≡ (begin_calculation_1 names (λ k s. s) (λ k. 0) (λ k. pos k) 4 11 2
              >> meanwhile names (λ k s. s) (λ k. 0) (λ k. pos k) 4 11 3
              >> end_calculation_1 names (λ k s. s) (λ k. 0) (λ k. pos k) 4 11 2 5 false)
            flagged)
unfolding run_cancel_task cancel_calculation_1
run_cancel_task-do_calculation_1_example =
    run_cancel_task-do_calculation_1 names (λ k s. s) (λ k. 0) (λ k. pos k) 4 11 (λ k s. refl) true
      (some 1) 1 5 component flagged refl refl refl
