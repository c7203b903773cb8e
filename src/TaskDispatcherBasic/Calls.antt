-- ===== src/TaskDispatcherBasic/Calls.antt =====
-- TaskDispatcherBasic against TaskDispatcher, and the dispatcher of a runtime: sequences of calls.
use uni_tasks.Prelude.{ℕ, String, ◌≡◌, refl, sym, subst, List, [], ◌∷◌, map}
use uni_tasks.Ids.{Counters}
use uni_tasks.Tasks.{Task, raw}
use uni_tasks.Factory.{method, member}
use uni_tasks.Pool.{Pool}
use uni_tasks.Dispatcher.{Dispatcher}
use uni_tasks.TaskDispatcher
use uni_tasks.TaskDispatcher.Together.{Together, perform_all-Together}
use uni_tasks.TaskDispatcherBasic.{
  Op, starts, stops, asserts, cancels_pending, cancels, dispatches_request, dispatches_member,
  dispatches_or_executes, create, perform,
}
use uni_tasks.Runtime.{Runtime, new_runtime_impl, create_runtime, task_dispatcher_basic}

-- The same call of a TaskDispatcher.
abbrev pub as_op : Op → TaskDispatcher.Op
as_op (starts ids) = TaskDispatcher.starts ids
as_op stops = TaskDispatcher.stops
as_op (asserts self name) = TaskDispatcher.asserts self name
as_op (cancels_pending name id) = TaskDispatcher.cancels_pending name id
as_op (cancels choice now name id f) = TaskDispatcher.cancels choice now name id f
as_op (dispatches_request choice name id task) =
    TaskDispatcher.dispatches_request choice name id task
as_op (dispatches_member choice now name object f args) =
    TaskDispatcher.dispatches choice now name (method (raw object) (member f)) args
as_op (dispatches_or_executes outcome self choice now name object f args) =
    TaskDispatcher.dispatches_or_executes outcome self choice now name
      (method (raw object) (member f)) args

module _ (joined : Pool Task → Pool Task) where
  pub perform-as_op :
      (op : Op) (d : Dispatcher) → perform joined op d ≡ TaskDispatcher.perform joined (as_op op) d
  unfolding perform TaskDispatcher.perform
  perform-as_op (starts ids) d = refl
  perform-as_op stops d = refl
  perform-as_op (asserts self name) d = refl
  perform-as_op (cancels_pending name id) d = refl
  perform-as_op (cancels choice now name id f) d = refl
  perform-as_op (dispatches_request choice name id task) d = refl
  perform-as_op (dispatches_member choice now name object f args) d = refl
  perform-as_op (dispatches_or_executes outcome self choice now name object f args) d = refl

  -- One call after the other through the runtime; the exceptions are caught.
  unfoldable pub call_all : List Op → Runtime → Runtime
  call_all [] runtime = runtime
  call_all (op ∷ ops) runtime = call_all ops (task_dispatcher_basic (perform joined op) runtime).1

  call_all-perform_all :
      (ops : List Op) (runtime : Runtime)
      → (call_all ops runtime).dispatcher
        ≡ TaskDispatcher.perform_all joined (map as_op ops) runtime.dispatcher
  unfolding call_all TaskDispatcher.perform_all
  call_all-perform_all [] runtime = refl
  call_all-perform_all (op ∷ ops) runtime = rw (call_all-perform_all ops) (rw (perform-as_op op))

  -- If what happens in a pool until its `join` comes back neither starts nor stops it, then any
  -- calls of the dispatcher of a new runtime, whatever they throw, leave it as the same calls
  -- leave a TaskDispatcher that was configured alike, where a call for a plain member function of
  -- an object is one of the overload for it; and either all its pools are started or none is.
  pub create_runtime-perform_all :
      (configurations : List (String × ℕ)) (c : Counters) (ops : List Op)
      → ((p : Pool Task) → (joined p).started ≡ p.started)
      → ((call_all ops (create_runtime configurations c)).dispatcher
          ≡ TaskDispatcher.perform_all joined
              (map as_op ops)
              (TaskDispatcher.create configurations c))
        × Together (call_all ops (create_runtime configurations c)).dispatcher.pools
  unfolding new_runtime_impl create TaskDispatcher.create
  create_runtime-perform_all configurations c ops keeps =
      let same = call_all-perform_all ops (create_runtime configurations c) in
      (
        same,
        subst (λ d. Together d.pools) (sym same)
            (perform_all-Together joined keeps configurations c (map as_op ops)),
      )
