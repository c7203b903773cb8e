-- ===== src/Tasks/Virtual.antt =====
-- public/uni/tasks/ITask.hpp, details/Task.hpp and details/MemberFnTask.hpp: the interface through
-- which pools and dispatchers use a task, and the three classes that implement it.
use uni_tasks.Prelude.{ℕ, List, ◌≡◌, refl, ap}
use uni_tasks.Prelude.Int.{ℤ}
use uni_tasks.Ids.{RequestId, SequenceId}
use uni_tasks.Errors.{Result}
use uni_tasks.Tasks.{
  raw, shared, Callee, function, member_function, Invocation, Task, run_impl, request_id_impl,
  set_request_id_impl, sequence_id_impl, set_due_time_impl, due_time_impl, delay_impl,
  get_future_impl,
}

-- The pure virtual functions, each on the object `this`. What reads the clock has `now` as an
-- argument.
pub record ITask {ℓ} (W : Type ℓ) : Type ℓ where
  pub run : Task → W → Result (Unit {0}) × Task × W
  pub request_id : Task → RequestId
  pub set_request_id : RequestId → Task → Task
  pub sequence_id : Task → SequenceId
  pub set_due_time : (now delay : ℤ) → Task → Task
  pub due_time : Task → ℤ
  pub delay : (now : ℤ) → Task → ℤ
  pub get_future : Task → Result (Unit {0}) × Task

module _ {ℓ} {W : Type ℓ} (call : Invocation → W → Result (Unit {0}) × List ℕ × W) where
  -- The overrides of `Task`.
  unfoldable pub task : ITask W
  unfolding run_impl request_id_impl set_request_id_impl sequence_id_impl set_due_time_impl
      due_time_impl delay_impl get_future_impl
  task = record {
    run = run_impl call;
    request_id = request_id_impl;
    set_request_id = set_request_id_impl;
    sequence_id = sequence_id_impl;
    set_due_time = set_due_time_impl;
    due_time = due_time_impl;
    delay = delay_impl;
    get_future = get_future_impl;
  }

  -- The overrides of `MemberFnTask` for an object behind a plain pointer.
  unfoldable pub member_fn_task : ITask W
  unfolding run_impl request_id_impl set_request_id_impl sequence_id_impl set_due_time_impl
      due_time_impl delay_impl get_future_impl
  member_fn_task = record {
    run = run_impl call;
    request_id = request_id_impl;
    set_request_id = set_request_id_impl;
    sequence_id = sequence_id_impl;
    set_due_time = set_due_time_impl;
    due_time = due_time_impl;
    delay = delay_impl;
    get_future = get_future_impl;
  }

  -- The overrides of `MemberFnTask` for a shared object.
  unfoldable pub shared_member_fn_task : ITask W
  unfolding run_impl request_id_impl set_request_id_impl sequence_id_impl set_due_time_impl
      due_time_impl delay_impl get_future_impl
  shared_member_fn_task = record {
    run = run_impl call;
    request_id = request_id_impl;
    set_request_id = set_request_id_impl;
    sequence_id = sequence_id_impl;
    set_due_time = set_due_time_impl;
    due_time = due_time_impl;
    delay = delay_impl;
    get_future = get_future_impl;
  }

  -- The class of a task, by its callee.
  unfoldable pub overrides : Callee → ITask W
  unfolding task member_fn_task shared_member_fn_task
  overrides (function f args) = task
  overrides (member_function (raw o) f args) = member_fn_task
  overrides (member_function (shared o) f args) = shared_member_fn_task

  -- A call of a virtual function on the task `t` runs the override of its class.
  abbrev pub virtual {κ} : {R : Type κ} → (ITask W → Task → R) → Task → R
  virtual f t = f (overrides t.callee) t

  -- The overrides of the three classes do the same.
  pub overrides-task : (c : Callee) → overrides c ≡ task
  unfolding overrides
  overrides-task (function f args) = refl
  overrides-task (member_function (raw o) f args) = refl
  overrides-task (member_function (shared o) f args) = refl

  -- `run`, called through the interface on a task of any class, is `run_impl`.
  pub run-run_impl : (t : Task) → virtual (λ i. i.run) t ≡ run_impl call t
  unfolding task
  run-run_impl t = ap (λ (i : ITask W). i.run t) (overrides-task t.callee)
