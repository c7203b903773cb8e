-- ===== src/Examples/Polls.antt =====
-- PollEngineImpl: a poll engine on a pool with one thread.
use uni_tasks.Prelude.{ℕ, ◌+◌, ◌≡◌, refl, Bool, true, false, some, [], ◌∷◌}
use uni_tasks.Prelude.Int.{pos}
use uni_tasks.Errors.{Call, ok, ◌>>◌}
use uni_tasks.Tasks.{Task}
use uni_tasks.Pool
use uni_tasks.Dispatcher
use uni_tasks.Ids.{create_sequence_id}
use uni_tasks.Tasks.{request_id_impl}
use uni_tasks.Pool.{Pool, entering, on_one_of_threads_impl}
use uni_tasks.Dispatcher.{find, assert_execution_context}
use uni_tasks.Poll.{
  State, on_dispatcher, poll_impl, set_poll_interval_impl, set_poll_callback_impl, start_impl,
  stop_impl, run_impl,
}
use uni_tasks.PollEngine
use uni_tasks.TaskDispatcherBasic
use uni_tasks.Runtime.{create_runtime, new_runtime_impl}
use uni_tasks.Poll.Rounds.{Dispatched, poll_impl-Dispatched}
use uni_tasks.Examples.{early, pool_of, thread_at}

abbrev polled : Pool Task
polled = pool_of (early ∷ []) false true (thread_at 4 entering ∷ [])

abbrev state_of : Bool → ℕ → State ℕ
state_of running calls = record {
  engine = record {
    pool_name = "main";
    interval = pos 20;
    running = running;
    callback = some 3;
    request_id = 0;
  };
  runtime = record {
    dispatcher = record {
      pools = ("main", polled) ∷ [];
      counters = record { request = 6; sequence = 6 };
    };
  };
  world = calls;
}

-- The callback stops the engine's polling.
abbrev stopping : ℕ → Call (State ℕ) (Unit {0})
stopping f s = (ok tt, state_of false (s.world + 1))

poll_impl-Dispatched_example :
    Dispatched 1 2 0
      (pos 0)
      (state_of false 1)
      polled
      (poll_impl 1 2 stopping 4 0 (pos 0) (state_of true 0))
unfolding find assert_execution_context on_one_of_threads_impl
poll_impl-Dispatched_example =
    poll_impl-Dispatched 1 2 stopping 4 0 (pos 0) (state_of true 0) (state_of false 1) polled refl
      refl refl refl

-- A runtime from its configuration, an engine on it, and one poll that `stop` takes back.
abbrev whole : Call (State ℕ) (Unit {0})
whole = do
  on_dispatcher (TaskDispatcherBasic.start (λ name i. i))
  PollEngine.set_poll_interval (pos 20)
  PollEngine.set_poll_callback (some 3)
  PollEngine.start 1 2 0 (pos 0)
  PollEngine.stop

whole_run :
    (whole (
      PollEngine.create
        (create_runtime (("main", 1) ∷ []) (record { request = 6; sequence = 6 }))
        "main"
        0)).1.runtime.dispatcher.pools
    ≡ ("main", pool_of [] false true (thread_at 0 entering ∷ [])) ∷ []
unfolding new_runtime_impl set_poll_interval_impl set_poll_callback_impl start_impl stop_impl
    run_impl TaskDispatcherBasic.start TaskDispatcherBasic.dispatch_request Pool.start_impl
    Pool.add_task_impl Dispatcher.make_task Dispatcher.new_request_id create_sequence_id
    request_id_impl
whole_run = refl
