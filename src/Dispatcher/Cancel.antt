-- ===== src/Dispatcher/Cancel.antt =====
-- TaskDispatcherImpl.hpp, `cancel_impl`: the pending tasks of a request give way to one task.
use uni_tasks.Prelude.{ℕ, String, ◌==◌, ◌≡◌, refl, ◌∙◌, ap, true, false, some, []}
use uni_tasks.Prelude.Int.{ℤ}
use uni_tasks.Ids.{RequestId, Counters, create_request_id}
use uni_tasks.Errors.{ok}
use uni_tasks.OrderedSet.{erase_if, insert}
use uni_tasks.Queue.Ordered.Remove.{remove_loop-erase_if}
use uni_tasks.Tasks.{Task, task_before, set_request_id_impl, request_id_impl}
use uni_tasks.Factory.{callable, create_task_ptr}
use uni_tasks.Pool.{Pool, add_task_impl, cancel_pending_impl}
use uni_tasks.Pool.Tasks.{task_type}
use uni_tasks.Dispatcher.{
  Dispatcher, find, cancel, cancel_pending, dispatch, dispatch_task, make_task, new_request_id,
}
use uni_tasks.Dispatcher.Pools.{find-update_self}
use uni_tasks.Dispatcher.Dispatch.{dispatch_request_lem}

-- The task for a function, with the next identifiers.
abbrev pub next_task : (now : ℤ) → (f : ℕ) → Counters → Task
next_task now f c =
    let (task, c') = create_task_ptr now (callable f) [] c in
    set_request_id_impl (create_request_id c').0 task

pub add_task-insert :
    (choice : ℕ) (x : Task) (p : Pool Task)
    → p.started ≡ true
    → p.queue.closed ≡ false
    → ((add_task_impl task_type choice x p).0 ≡ ok tt)
      × ((add_task_impl task_type choice x p).1.queue.elements
          ≡ insert task_before x p.queue.elements)
unfolding add_task_impl
add_task-insert choice x p on open_queue = (rw (on, open_queue) refl, rw (on, open_queue) refl)

cancel_pending-find :
    (name : String) (id : RequestId) (d : Dispatcher) (p : Pool Task)
    → find name d.pools ≡ some p
    → (find name (cancel_pending name id d).pools ≡ some (cancel_pending_impl task_type id p).1)
      × ((cancel_pending name id d).counters ≡ d.counters)
unfolding cancel_pending
cancel_pending-find name id d p h =
    rw (h, cancel_pending) (find-update_self name p _ d.pools h, refl)

-- If the named pool exists, is started and has an open queue, `cancel` with a function comes back,
-- and the pool's queue then holds exactly the tasks that it held and that are not of the request,
-- and the task for the function, with the next sequence number and the next request id, at its
-- place in the order of the queue, unless an equivalent task stands there.
pub cancel_lem :
    (choice : ℕ) (now : ℤ) (name : String) (id : RequestId) (f : ℕ) (d : Dispatcher) (p : Pool Task)
    → find name d.pools ≡ some p
    → p.started ≡ true
    → p.queue.closed ≡ false
    → ((cancel choice now name id f d).0 ≡ ok tt)
      × (q : Pool Task) × (find name (cancel choice now name id f d).1.pools ≡ some q)
      × (q.queue.elements
          ≡ insert task_before
              (next_task now f d.counters)
              (erase_if (λ t. id == request_id_impl t) p.queue.elements))
unfolding cancel dispatch dispatch_task make_task new_request_id cancel_pending_impl
cancel_lem choice now name id f d p h on open_queue =
    let (found, same) = cancel_pending-find name id d p h in
    let left = (cancel_pending_impl task_type id p).1 in
    let counters = (cancel_pending name id d).counters in
    let step =
      dispatch_request_lem choice name _ (create_task_ptr now (callable f) [] counters).0 _ left
        found in
    let added = add_task-insert choice (next_task now f counters) left on open_queue in
    (
      step.0 ∙ added.0,
      _,
      step.1,
      added.1
          ∙ ap (λ c. insert task_before (next_task now f c) left.queue.elements) same
          ∙ ap (λ r. insert task_before (next_task now f d.counters) r.1)
              (remove_loop-erase_if (λ t. id == request_id_impl t) false p.queue.elements),
    )
