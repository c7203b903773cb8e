-- ===== src/Examples/Cancels.antt =====
-- ThreadPoolImpl: a request that is cancelled while another one is pending.
use uni_tasks.Prelude.{◌≡◌, ◌==◌, refl, true, false, [], ◌∷◌, arith}
use uni_tasks.Prelude.Int.{pos, quot, ◌-ℤ◌}
use uni_tasks.Tasks.{Task, task_before, get_task_delay, request_id_impl}
use uni_tasks.OrderedSet.{contains}
use uni_tasks.Pool.{
  new_pool, entering, start_impl, throw_if_stopped, push_task, take_turn, cancel_pending_impl,
}
use uni_tasks.Pool.Tasks.{task_type}
use uni_tasks.Pool.System.{
  System, free, initial, start, begin_add, end_add, tick, cancel, Reach, here, next, pushed,
}
use uni_tasks.Pool.System.Cancelled.{stays, goes, cancel-begins_none}
use uni_tasks.Examples.{early, middle, pool_of, thread_at}

-- A pool that has taken two tasks.
abbrev two_pending : System Task
two_pending = record {
  pool = pool_of (early ∷ middle ∷ []) false true (thread_at 0 entering ∷ []);
  now = pos 0;
  control = free;
  adding = [];
  accepted = middle ∷ early ∷ [];
  dropped = [];
  cancelled = [];
  finished = [];
}

two_pending-Reach : Reach task_type (initial 1 (pos 0)) two_pending
unfolding start_impl throw_if_stopped pushed push_task new_pool contains task_before quot
two_pending-Reach =
    next
      (next
        (next (next (next here (start (λ i. i) refl refl)) (begin_add early refl refl))
          (end_add 0 [] early [] refl refl))
        (begin_add middle refl refl))
      (end_add 0 [] middle [] refl refl)

-- The first one is cancelled; after 5 ms the worker takes the other.
cancel-begins_none_example : (1 == 2) ≡ false
unfolding cancel take_turn get_task_delay quot ◌-ℤ◌ cancel_pending_impl request_id_impl
cancel-begins_none_example =
    cancel-begins_none task_type 1 1 (pos 0) [] (thread_at 0 entering) [] middle two_pending-Reach
      refl (goes stays (tick (pos 5_000_000) (omega arith) refl) tt) refl refl refl
