-- ===== src/TaskDispatcher/Order.antt =====
-- TaskDispatcher: the names of the pools and the order of their queues over any calls.
use uni_tasks.Prelude.{ℕ, String, ◌==◌, ◌≡◌, ◌∙◌, true, false, List, [], ◌∷◌, Bool-cases, inl, inr}
use uni_tasks.Ids.{RequestId}
use uni_tasks.OrderedSet.{IsSorted}
use uni_tasks.OrderedSet.Sorted.{erase_if-IsSorted}
use uni_tasks.Queue.Ordered.Remove.{remove_loop-erase_if}
use uni_tasks.Queue.Ordered.Push.{push-IsOrdered}
use uni_tasks.Tasks.{Task, task_before, request_id_impl}
use uni_tasks.Tasks.Compare.{task_before-StrictWeakOrder}
use uni_tasks.Pool.{
  Pool, start_impl, begin_stop, clear_started, close, add_task_impl, cancel_pending_impl,
}
use uni_tasks.Pool.Tasks.{task_type}
use uni_tasks.Dispatcher.{Dispatcher, Pools, find, update, on_pool, start_all, stop_all}
use uni_tasks.Dispatcher
use uni_tasks.TaskDispatcher.Kept.{Kept, AllKept, stop_all-AllKept, starts-AllKept, perform-AllKept}
use uni_tasks.TaskDispatcher.{
  Op, starts, stops, cancels_pending, cancels, dispatches_task, dispatches_request, dispatches,
  asserts, dispatches_or_executes, is_stop, perform, perform_all,
}

-- The queue of a pool is in the comparator's order.
abbrev pub Ordered : Pool Task → Type 0
Ordered p = IsSorted task_before p.queue.elements

-- The pools have these names, and each queue is in order.
abbrev pub WellFormed : List String → Pools → Type 0
WellFormed = AllKept Ordered

pub add_task-Ordered :
    (choice : ℕ) (x : Task) (p : Pool Task)
    → Ordered p
    → Ordered (add_task_impl task_type choice x p).1
unfolding add_task_impl
add_task-Ordered choice x p h = elim (Bool-cases p.started) [
  | inl e ↦ rw e (push-IsOrdered task_before-StrictWeakOrder x p.queue h)
  | inr e ↦ rw e h
]

cancel_pending_impl-Ordered :
    (id : RequestId) (p : Pool Task) → Ordered p → Ordered (cancel_pending_impl task_type id p).1
unfolding cancel_pending_impl
cancel_pending_impl-Ordered id p h =
    rw (remove_loop-erase_if (λ t. id == request_id_impl t) false p.queue.elements)
      (erase_if-IsSorted task_before (λ t. id == request_id_impl t) p.queue.elements h)

start_impl-Ordered : (ids : ℕ → ℕ) (p : Pool Task) → Ordered p → Ordered (start_impl ids p).1
unfolding start_impl
start_impl-Ordered ids p h = elim (Bool-cases p.started) [ inl e ↦ rw e h | inr e ↦ rw e h ]

begin_stop-Ordered : (p : Pool Task) → Ordered p → Ordered (begin_stop p).1
unfolding begin_stop clear_started close
begin_stop-Ordered p h = elim (Bool-cases p.started) [ inl e ↦ rw e h | inr e ↦ rw e h ]

Kept-Ordered : Kept Ordered
Kept-Ordered = record { add_task = add_task-Ordered; cancel_pending = cancel_pending_impl-Ordered }

module _ (names : List String) (joined : Pool Task → Pool Task)
    (keeps : (p : Pool Task) → Ordered p → Ordered (joined p)) where
  stop-WellFormed :
      (op : Op) (d : Dispatcher)
      → WellFormed names d.pools
      → is_stop op ≡ true
      → WellFormed names (perform joined op d).1.pools
  unfolding perform Dispatcher.stop
  stop-WellFormed stops d h e =
      let stopped =
        stop_all-AllKept Ordered Ordered joined (λ p k. k) begin_stop-Ordered
          (λ p k. keeps (begin_stop p).1 (begin_stop-Ordered p k)) d.pools h.1 in
      (stopped.0 ∙ h.0, stopped.1)
  stop-WellFormed (starts _) d h e = absurd cc
  stop-WellFormed (cancels_pending _ _) d h e = absurd cc
  stop-WellFormed (cancels _ _ _ _ _) d h e = absurd cc
  stop-WellFormed (dispatches_task _ _ _) d h e = absurd cc
  stop-WellFormed (dispatches_request _ _ _ _) d h e = absurd cc
  stop-WellFormed (dispatches _ _ _ _ _) d h e = absurd cc
  stop-WellFormed (asserts _ _) d h e = absurd cc
  stop-WellFormed (dispatches_or_executes _ _ _ _ _ _ _) d h e = absurd cc

  -- If the queue of each pool of a dispatcher is in order, and what happens in a pool until its
  -- `join` comes back keeps that, then after any calls of the dispatcher's member functions,
  -- whatever they throw, the pools have the same names in the same order and each queue is in
  -- order.
  pub perform_all-WellFormed :
      (ops : List Op) (d : Dispatcher)
      → WellFormed names d.pools
      → WellFormed names (perform_all joined ops d).pools
  unfolding perform_all
  perform_all-WellFormed [] d h = h
  perform_all-WellFormed (op ∷ ops) d h = perform_all-WellFormed ops (perform joined op d).1 (
      perform-AllKept Kept-Ordered names joined op d h
        (starts-AllKept Kept-Ordered names joined op d start_impl-Ordered h)
        (stop-WellFormed op d h))
