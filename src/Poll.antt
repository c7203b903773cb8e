-- ===== src/Poll.antt =====
-- src/uni/common/PollEngineImpl.cpp and PollEngineImpl.hpp, behind PollEngine: a task that calls a
-- callback and dispatches itself again, until the engine is stopped.
pub mod Rounds
pub mod Pending
pub mod Chain
use uni_tasks.Prelude.{ℕ, String, Bool, true, false, Option, some, none, List, [], if◌then◌else◌}
use uni_tasks.Prelude.Int.{ℤ, pos}
use uni_tasks.Ids.{RequestId}
use uni_tasks.Errors.{Result, ok, throw, Call, and_then, ◌>>=◌, ◌>>◌, return, modify}
use uni_tasks.Tasks.{Task, Pointer, raw, set_due_time_impl}
use uni_tasks.Factory.{Target, method, member}
use uni_tasks.Dispatcher.{Dispatcher, make_task, new_request_id}
use uni_tasks.TaskDispatcherBasic.{assert_execution_context, dispatch_request, cancel_pending}
use uni_tasks.Runtime.{Runtime, task_dispatcher_basic}

-- `callback` is the number of a function of the user's, or an empty `std::function`. Each atomic
-- member is read and written whole.
pub record Engine : Type 0 where
  pub pool_name : String
  pub interval : ℤ
  pub running : Bool
  pub callback : Option ℕ
  pub request_id : RequestId

abbrev pub new_engine : String → Engine
new_engine name = record {
  pool_name = name;
  interval = pos 0;
  running = false;
  callback = none;
  request_id = 0;
}

-- The engine, its runtime, and the rest of the program.
pub record State {ℓ} (W : Type ℓ) : Type ℓ where
  pub engine : Engine
  pub runtime : Runtime
  pub world : W

module _ {ℓ} {W : Type ℓ} where
  -- A call of the runtime's dispatcher.
  abbrev pub on_dispatcher {κ} : {R : Type κ} → Call Dispatcher R → Call (State W) R
  on_dispatcher f s =
      let (r, runtime) = task_dispatcher_basic f s.runtime in (r, record s { runtime = runtime })

  abbrev pub on_engine : (Engine → Engine) → Call (State W) (Unit {0})
  on_engine f s = (ok tt, record s { engine = f s.engine })

  abbrev pub read {κ} : {R : Type κ} → (State W → R) → Call (State W) R
  read f s = (ok (f s), s)

  unfoldable pub set_poll_interval_impl : ℤ → Call (State W) (Unit {0})
  set_poll_interval_impl ms = on_engine λ e. record e { interval = ms }

  unfoldable pub set_poll_callback_impl : Option ℕ → Call (State W) (Unit {0})
  set_poll_callback_impl callback = on_engine λ e. record e { callback = callback }

  unfoldable pub stop_impl : Call (State W) (Unit {0})
  unfolding cancel_pending
  stop_impl = do
    on_engine (λ e. record e { running = false })
    engine ← read (λ s. s.engine)
    on_dispatcher (cancel_pending engine.pool_name engine.request_id)

-- `self` is the engine's own address and `poll` its member function `poll_impl`.
module _ {ℓ} {W : Type ℓ} (self poll : ℕ) where
  -- The parts of `run_impl`: the task with its due time, the new request id, the dispatch.
  unfoldable pub run_impl : (choice : ℕ) (now : ℤ) → Call (State W) (Unit {0})
  run_impl choice now = do
    task ← on_dispatcher (make_task now (method (raw self) (member poll)) [])
    interval ← read (λ s. s.engine.interval)
    id ← on_dispatcher new_request_id
    on_engine (λ e. record e { request_id = id })
    engine ← read (λ s. s.engine)
    on_dispatcher (
        dispatch_request choice engine.pool_name engine.request_id
          (set_due_time_impl now interval task))

  unfoldable pub start_impl : (choice : ℕ) (now : ℤ) → Call (State W) (Unit {0})
  unfolding run_impl
  start_impl choice now = on_engine (λ e. record e { running = true }) >> run_impl choice now

  -- `poll_impl`, on the thread `thread`. `call` is the code of the callbacks, which may use the
  -- engine and the dispatcher.
  module _ (call : ℕ → Call (State W) (Unit {0})) where
    abbrev pub call_back : Option ℕ → Call (State W) (Unit {0})
    call_back none = return tt
    call_back (some f) = call f

    unfoldable pub poll_impl : (thread choice : ℕ) (now : ℤ) → Call (State W) (Unit {0})
    poll_impl thread choice now s =
        and_then (on_dispatcher (assert_execution_context thread s.engine.pool_name) s) λ _ s'.
          if s'.engine.running
          then (call_back s'.engine.callback >> run_impl choice now) s'
          else (ok tt, s')
