-- ===== src/Examples/Dispatchers.antt =====
-- TaskDispatcherImpl: a dispatcher with two pools.
use uni_tasks.Prelude.{ℕ, ◌==◌, ◌≡◌, ◌⊎◌, refl, true, false, some, [], ◌∷◌}
use uni_tasks.Prelude.Int.{pos}
use uni_tasks.Ids.{fresh_counters}
use uni_tasks.Errors.{Exception, Call, ok, throw, task_error}
use uni_tasks.OrderedSet.{erase_if, insert}
use uni_tasks.Tasks.{Task, Callee, function, request_id_impl, task_before}
use uni_tasks.Factory.{callable}
use uni_tasks.Pool.{Pool, entering, new_pool}
use uni_tasks.Dispatcher.{Dispatcher, Pools, find, cancel, dispatch_or_execute}
use uni_tasks.Dispatcher.Cancel.{next_task, cancel_lem}
use uni_tasks.Dispatcher.Execute.{Either, dispatch_or_execute_lem}
use uni_tasks.TaskDispatcher.{
  create, perform, perform_all, starts, stops, cancels, dispatches_request, dispatches_or_executes,
}
use uni_tasks.TaskDispatcher.Steps.{Systems, pools_of, effects, deliver, AllReach}
use uni_tasks.TaskDispatcher.Refines.{perform-deliver}
use uni_tasks.TaskDispatcher.Joining.{all_brought, AllJoining, stop-all_brought}
use uni_tasks.Pool.System.{initial}
use uni_tasks.Dispatcher
use uni_tasks.TaskDispatcher.Together.{Together, perform_all-Together}
use uni_tasks.Examples.{early, middle, pool_of, thread_at}

abbrev main_pool : Pool Task
main_pool = pool_of (early ∷ []) false true (thread_at 4 entering ∷ [])

abbrev other_pool : Pool Task
other_pool = pool_of [] false true (thread_at 5 entering ∷ [])

abbrev two_pools : Dispatcher
two_pools = record {
  pools = ("main", main_pool) ∷ ("other", other_pool) ∷ [];
  counters = fresh_counters;
}

abbrev stopped_pools : Pools
stopped_pools = ("main", new_pool 2) ∷ ("other", new_pool 1) ∷ []

cancel_lem_example :
    ((cancel 0 (pos 0) "main" 1 7 two_pools).0 ≡ ok tt)
    × (q : Pool Task) × (find "main" (cancel 0 (pos 0) "main" 1 7 two_pools).1.pools ≡ some q)
    × (q.queue.elements
        ≡ insert task_before
            (next_task (pos 0) 7 fresh_counters)
            (erase_if (λ t. 1 == request_id_impl t) (early ∷ [])))
unfolding find
cancel_lem_example = cancel_lem 0 (pos 0) "main" 1 7 two_pools main_pool refl refl refl

-- A callee that does nothing to the dispatcher.
abbrev quiet : Callee → Call (Dispatcher × ℕ) (Unit {0})
quiet callee s = (ok tt, s)

dispatch_or_execute_lem_example :
    Either quiet 4 0
      (pos 0)
      "main"
      (callable 7)
      (function 7 [])
      []
      two_pools
      0
      main_pool
      (dispatch_or_execute quiet 4 0 (pos 0) "main" (callable 7) [] (two_pools, 0))
unfolding find
dispatch_or_execute_lem_example =
    dispatch_or_execute_lem quiet 4 0 (pos 0) "main" (callable 7) [] two_pools 0 main_pool refl

perform_all-Together_example :
    Together
      (perform_all
        (λ p. p)
        (stops
          ∷ starts (λ name i. i)
          ∷ dispatches_request 0 "main" 9 middle
          ∷ dispatches_or_executes (throw (task_error 3)) 1 0 (pos 2) "main" (callable 7) []
          ∷ starts (λ name i. i)
          ∷ [])
        (create (("main", 1) ∷ ("other", 2) ∷ []) fresh_counters)).pools
perform_all-Together_example =
    perform_all-Together (λ p. p) (λ p. refl) (("main", 1) ∷ ("other", 2) ∷ []) fresh_counters
      (stops
        ∷ starts (λ name i. i)
        ∷ dispatches_request 0 "main" 9 middle
        ∷ dispatches_or_executes (throw (task_error 3)) 1 0 (pos 2) "main" (callable 7) []
        ∷ starts (λ name i. i)
        ∷ [])

-- The two pools, each with no call under way.
abbrev two_systems : Systems
two_systems =
    ("main", record (initial 1 (pos 0)) { pool = main_pool })
    ∷ ("other", record (initial 1 (pos 0)) { pool = other_pool })
    ∷ []

perform-deliver_example :
    (pools_of (deliver (effects (cancels 0 (pos 0) "main" 1 7) two_pools) two_systems)
      ≡ (perform (λ p. p) (cancels 0 (pos 0) "main" 1 7) two_pools).1.pools)
    × AllReach two_systems (deliver (effects (cancels 0 (pos 0) "main" 1 7) two_pools) two_systems)
perform-deliver_example =
    perform-deliver (λ p. p) (cancels 0 (pos 0) "main" 1 7) two_systems two_pools refl refl refl

stop-all_brought_example :
    (pools_of (all_brought two_systems) ≡ (Dispatcher.stop (λ p. p) two_pools).1.pools)
    × AllReach two_systems (all_brought two_systems)
    × ((((Dispatcher.stop (λ p. p) two_pools).0 ≡ ok tt) × AllJoining (all_brought two_systems))
        ⊎ ((e : Exception) × ((Dispatcher.stop (λ p. p) two_pools).0 ≡ throw e)))
stop-all_brought_example = stop-all_brought two_systems two_pools refl (refl, (refl, tt))
