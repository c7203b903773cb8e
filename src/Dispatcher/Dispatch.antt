-- ===== src/Dispatcher/Dispatch.antt =====
-- TaskDispatcherImpl.hpp, `dispatch_impl`, `cancel_pending_impl` and `cancel_impl`.
use uni_tasks.Prelude.{
  ℕ, String, ◌==◌, ◌≡◌, ◌≢◌, refl, sym, ◌∙◌, ap, false, some, inl, inr, any, Option-cases,
}
use mathlib.Core.Option
use uni_tasks.Ids.{RequestId}
use uni_tasks.Errors.{Result, ok}
use uni_tasks.OrderedSet.{erase_if}
use uni_tasks.OrderedSet.Contents.{any-erase_if}
use uni_tasks.Queue.Ordered.Remove.{remove_loop-erase_if}
use uni_tasks.Tasks.{Task, set_request_id_impl, request_id_impl}
use uni_tasks.Pool.{Pool, add_task_impl, cancel_pending_impl}
use uni_tasks.Pool.Calls.{add_task-cancel_pending}
use uni_tasks.Pool.Tasks.{task_type}
use uni_tasks.Dispatcher.{Dispatcher, find, dispatch_request, cancel_pending}
use uni_tasks.Dispatcher.Pools.{on_pool-none, on_pool-some, find-update_self, find-update_ne}

-- If the named pool exists, a dispatch with a request id is `add_task` of that pool, for the task
-- with this request id: it has the same result and leaves the same pool under the name, and the
-- counters stay.
pub dispatch_request_lem :
    (choice : ℕ) (name : String) (id : RequestId) (task : Task) (d : Dispatcher) (p : Pool Task)
    → find name d.pools ≡ some p
    → let added : Result (Unit {0}) × Pool Task =
        add_task_impl task_type choice (set_request_id_impl id task) p in
      ((dispatch_request choice name id task d).0 ≡ added.0)
      × (find name (dispatch_request choice name id task d).1.pools ≡ some added.1)
      × ((dispatch_request choice name id task d).1.counters ≡ d.counters)
unfolding dispatch_request
dispatch_request_lem choice name id task d p h =
    rw (on_pool-some name (add_task_impl task_type choice (set_request_id_impl id task)) d p h)
      (refl, find-update_self name p _ d.pools h, refl)

-- A dispatch to one name leaves the pools of all other names as they are, also if it throws.
pub dispatch_request_others :
    (choice : ℕ) (name other : String) (id : RequestId) (task : Task) (d : Dispatcher)
    → name ≢ other
    → find other (dispatch_request choice name id task d).1.pools ≡ find other d.pools
unfolding dispatch_request
dispatch_request_others choice name other id task d ne = elim (Option-cases (find name d.pools)) [
  | inl e ↦
      rw (on_pool-none name (add_task_impl task_type choice (set_request_id_impl id task)) d e)
  | inr (p, e) ↦
      rw (on_pool-some name (add_task_impl task_type choice (set_request_id_impl id task)) d p e)
        (find-update_ne name other _ d.pools ne)
]

-- If the named pool exists, it takes a task that is dispatched with a request id, and none of its
-- pending tasks has that id, then `cancel_pending` with the id leaves the pool's queue as it was
-- before the dispatch.
pub dispatch_request-cancel_pending :
    (choice : ℕ) (name : String) (id : RequestId) (task : Task) (d : Dispatcher) (p : Pool Task)
    → find name d.pools ≡ some p
    → (dispatch_request choice name id task d).0 ≡ ok tt
    → any (λ t. id == request_id_impl t) p.queue.elements ≡ false
    → Option.map
        (λ q. q.queue)
        (find name (cancel_pending name id (dispatch_request choice name id task d).1).pools)
      ≡ some p.queue
unfolding cancel_pending request_id_impl set_request_id_impl
dispatch_request-cancel_pending choice name id task d p h added unused =
    let step = dispatch_request_lem choice name id task d p h in
    rw (step.1, cancel_pending)
      (rw (find-update_self name _ _ (dispatch_request choice name id task d).1.pools step.1) (
        ap some (
          add_task-cancel_pending task_type choice (set_request_id_impl id task) p
            (sym step.0 ∙ added) unused)))

-- If the named pool exists, `cancel_pending` erases from its queue exactly the pending tasks with
-- the request id, none of which is left, and neither opens or closes the queue nor changes the
-- threads.
pub cancel_pending_done :
    (name : String) (id : RequestId) (d : Dispatcher) (p : Pool Task)
    → find name d.pools ≡ some p
    → (q : Pool Task) × (find name (cancel_pending name id d).pools ≡ some q)
      × (any (λ t. id == request_id_impl t) q.queue.elements ≡ false)
      × (q.queue.elements ≡ erase_if (λ t. id == request_id_impl t) p.queue.elements)
      × (q.queue.closed ≡ p.queue.closed)
      × (q.threads ≡ p.threads)
unfolding cancel_pending
cancel_pending_done name id d p h = (
  (cancel_pending_impl task_type id p).1,
  rw (h, cancel_pending) (find-update_self name p _ d.pools h),
  rw (remove_loop-erase_if (λ t. id == request_id_impl t) false p.queue.elements)
      (any-erase_if (λ t. id == request_id_impl t) p.queue.elements),
  rw (remove_loop-erase_if (λ t. id == request_id_impl t) false p.queue.elements),
  refl,
  refl,
)
