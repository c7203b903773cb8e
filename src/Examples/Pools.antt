-- ===== src/Examples/Pools.antt =====
-- ThreadPoolImpl: calls of one pool.
use uni_tasks.Prelude.{◌==◌, ◌≡◌, refl, ℕ, List, ◌+◌, true, false, [], ◌∷◌, any, arith}
use uni_tasks.Errors.{throw, queue_closed}
use uni_tasks.OrderedSet.{erase_if}
use uni_tasks.Tasks.{Task, request_id_impl, get_task_delay, delay_impl}
use uni_tasks.Pool.{
  Pool, Thread, running, new_pool, on_one_of_threads_impl, add_task_impl, cancel_pending_impl,
  start_impl,
}
use uni_tasks.Pool.Starting.{Move, tests, stores, advance, run, new_thread-on_one_of_threads}
use uni_tasks.Prelude.Int.{pos, quot, ◌-ℤ◌}
use uni_tasks.Pool.Tasks.{task_type}
use uni_tasks.Pool.Calls.{start-add_task, cancel_pending_lem}
use uni_tasks.Examples.{early, middle, pool_of}

start-add_task_example :
    (add_task_impl task_type 0 middle (start_impl (λ i. i) (pool_of [] true false [])).1).0
    ≡ throw queue_closed
start-add_task_example = start-add_task task_type (λ i. i) 0 middle (pool_of [] true false []) refl

cancels_one_request :
    cancel_pending_impl task_type 2 (pool_of (early ∷ middle ∷ []) false true []) ≡ (
      any (λ t. 2 == request_id_impl t) (early ∷ middle ∷ []),
      pool_of (erase_if (λ t. 2 == request_id_impl t) (early ∷ middle ∷ [])) false true [],
    )
cancels_one_request = cancel_pending_lem task_type 2 (pool_of (early ∷ middle ∷ []) false true [])

-- The pool is to have two threads; the first one has the id 5.
new_thread-on_one_of_threads_example :
    (order : List (Move Task)) × (made : ℕ) × (th : Thread Task) × (p : Pool Task) × (run task_type
        (λ i. i + 5)
        order
        (tests, new_pool 2)
      ≡ (stores made th, p))
    × (th.stage ≡ running early)
    × (on_one_of_threads_impl th.id p ≡ false)
    × (on_one_of_threads_impl th.id (advance (λ i. i + 5) (stores made th, p)).1 ≡ true)
unfolding get_task_delay delay_impl quot ◌-ℤ◌
new_thread-on_one_of_threads_example =
    new_thread-on_one_of_threads task_type (λ i. i + 5) 1 0 early (pos 0) (omega arith)
