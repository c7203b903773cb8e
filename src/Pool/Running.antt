-- ===== src/Pool/Running.antt =====
-- ThreadPoolImpl.hpp, `worker_thread` with the tasks of the dispatcher: the run of a task that the
-- worker has taken from the queue.
use uni_tasks.Prelude.{ℕ, Option, some, none, List, ◌≡◌, refl, ◌⊎◌, inl, inr, arith}
use uni_tasks.Errors.{Result, ok, throw, foreign}
use uni_tasks.Tasks.{Invocation, call_impl, Task, run_impl, finish}
use uni_tasks.Tasks.Virtual.{virtual, run-run_impl}
use uni_tasks.Pool.{Stage, entering, after_run}

-- What the worker makes of the result of `run_impl`.
after_run-finish :
    (r : Result (Unit {0})) (t : Task)
    → ((n : ℕ) × (r ≡ throw (foreign n)) × (after_run {A = Task} (finish r t).0 ≡ none))
      ⊎ (after_run {A = Task} (finish r t).0 ≡ some entering)
unfolding after_run finish
after_run-finish (ok _) t = inr (ground arith)
after_run-finish (throw (foreign n)) t = inl (n, refl, refl)
after_run-finish (throw _) t = inr (ground arith)

-- `call` is the code behind a callee, as in the model of the tasks.
module _ {ℓ} {W : Type ℓ} (call : Invocation → W → Result (Unit {0}) × List ℕ × W) where
  -- The inner `try` block: the virtual call of `run`, and where the worker goes from there. It is
  -- `none` if the exception leaves the thread's function, which ends the program.
  unfoldable pub run_task : Task → W → Option (Stage Task) × Task × W
  unfolding after_run
  run_task t w = let (result, t', w') = virtual call (λ i. i.run) t w in (after_run result, t', w')

  -- A worker that runs a task, of whichever class it is and whatever its promise holds, calls its
  -- callee once. Only if that throws an object that is not derived from `std::exception`, the
  -- exception leaves the thread and ends the program; otherwise the worker goes back to the queue.
  pub run_task_lem :
      (t : Task) (w : W)
      → ((run_task t w).2 ≡ (call (call_impl t.callee) w).2)
        × (((n : ℕ) × ((call (call_impl t.callee) w).0 ≡ throw (foreign n))
              × ((run_task t w).0 ≡ none))
            ⊎ ((run_task t w).0 ≡ some entering))
  unfolding run_task run_impl
  run_task_lem t w =
      rw (run-run_impl call t) (refl, after_run-finish (call (call_impl t.callee) w).0 _)
