-- ===== src/TaskDispatcher/Refines.antt =====
-- TaskDispatcher: each call but `start` and `stop` is made of steps of its pools.
use uni_tasks.Prelude.{
  ℕ, String, ◌≡◌, refl, ap, sym, ◌∙◌, true, false, List, [], Option-cases, inl, inr,
}
use uni_tasks.Prelude.Int.{ℤ}
use uni_tasks.Ids.{RequestId, Counters, create_request_id, create_sequence_id}
use uni_tasks.Errors.{Result, Call}
use uni_tasks.Tasks.{Task, Callee, function, new_task, set_request_id_impl}
use uni_tasks.Factory.{
  Target, callable, method, member, const_member, wrapped, callee_of, create_task_lem,
}
use uni_tasks.Pool.{Pool, cancel_pending_impl}
use uni_tasks.Pool.Tasks.{task_type}
use uni_tasks.Dispatcher.{Dispatcher, Pools, find, update, on_pool}
use uni_tasks.Dispatcher
use uni_tasks.Dispatcher.Execute.{
  assert_execution_context_lem, dispatch_or_execute_lem, dispatch_or_execute-none, handed_on,
}
use uni_tasks.TaskDispatcher.Steps.{
  Systems, pools_of, cancelling, adding, apply, at, deliver, AllReach, next_id, made,
  is_executed-none, is_executed-some, effects, at-none, at-some, on_pool-at, deliver-AllReach,
}
use uni_tasks.TaskDispatcher.Kept.{and_then-state}
use uni_tasks.TaskDispatcher.{
  Op, cancels_pending, cancels, dispatches_task, dispatches_request, dispatches, asserts,
  dispatches_or_executes, starts, stops, is_start, is_stop, perform,
}

callee_of-handed_on {ℓ} :
    {W : Type ℓ} (call : Callee → Call (Dispatcher × W) (Unit {0})) (self choice : ℕ) (now : ℤ)
    (name : String) (target : Target) (args : List ℕ)
    → callee_of (handed_on call self choice now name target) args ≡ callee_of target args
callee_of-handed_on call self choice now name (callable f) args = refl
callee_of-handed_on call self choice now name (method o (member f)) args = refl
callee_of-handed_on call self choice now name (method o (const_member f)) args = refl
callee_of-handed_on call self choice now name (method o (wrapped f)) args = refl

-- The calls, one by one, on systems whose pools the dispatcher has.
module _ (ss : Systems) where
  dispatch_request-at :
      (choice : ℕ) (name : String) (id : RequestId) (task : Task) (d : Dispatcher)
      → pools_of ss ≡ d.pools
      → pools_of (at name (apply (adding choice (record task { request = id }))) ss)
        ≡ (Dispatcher.dispatch_request choice name id task d).1.pools
  unfolding Dispatcher.dispatch_request set_request_id_impl
  dispatch_request-at choice name id task d h =
      on_pool-at name (adding choice (record task { request = id })) _ d ss (λ p. refl) h

  dispatch_task-at :
      (choice : ℕ) (name : String) (task : Task) (d : Dispatcher)
      → pools_of ss ≡ d.pools
      → pools_of (at name (apply (adding choice (record task { request = next_id d.counters }))) ss)
        ≡ (Dispatcher.dispatch_task choice name task d).1.pools
  unfolding Dispatcher.dispatch_task Dispatcher.new_request_id create_request_id
  dispatch_task-at choice name task d h =
      dispatch_request-at choice name (next_id d.counters) task
        (record d { counters = (create_request_id d.counters).1 }) h

  dispatch-at :
      (choice : ℕ) (now : ℤ) (name : String) (target : Target) (args : List ℕ) (d : Dispatcher)
      → pools_of ss ≡ d.pools
      → pools_of (at name (apply (adding choice (made now (callee_of target args) d.counters))) ss)
        ≡ (Dispatcher.dispatch choice now name target args d).1.pools
  unfolding Dispatcher.dispatch Dispatcher.make_task new_task create_sequence_id
  dispatch-at choice now name target args d h =
      let task : Task × Counters = new_task now (callee_of target args) d.counters in
      dispatch_task-at choice name task.0 (record d { counters = task.1 }) h
      ∙ ap
          (λ (r : Task × Counters).
            (Dispatcher.dispatch_task choice name r.0 (record d { counters = r.1 })).1.pools)
          (sym (create_task_lem now target args d.counters).1)

  cancel_pending-at :
      (name : String) (id : RequestId) (d : Dispatcher)
      → pools_of ss ≡ d.pools
      → pools_of (at name (apply (cancelling id)) ss) ≡ (Dispatcher.cancel_pending name id d).pools
  unfolding Dispatcher.cancel_pending
  cancel_pending-at name id d h = elim (Option-cases (find name d.pools)) [
    | inl missing ↦
        rw (missing, Dispatcher.cancel_pending)
          (at-none name (apply (cancelling id)) ss (rw h missing) ∙ h)
    | inr (p, there) ↦
        rw (there, Dispatcher.cancel_pending)
          (at-some name (cancelling id) p ss (rw h there)
            ∙ ap (λ ps. update name (cancel_pending_impl task_type id p).1 ps) h)
  ]

  cancel_pending-counters :
      (name : String) (id : RequestId) (d : Dispatcher)
      → (Dispatcher.cancel_pending name id d).counters ≡ d.counters
  unfolding Dispatcher.cancel_pending
  cancel_pending-counters name id d = elim (Option-cases (find name d.pools)) [
    | inl missing ↦ rw (missing, Dispatcher.cancel_pending) refl
    | inr (p, there) ↦ rw (there, Dispatcher.cancel_pending) refl
  ]

  dispatch_or_execute-at :
      (outcome : Result (Unit {0})) (self choice : ℕ) (now : ℤ) (name : String) (target : Target)
      (args : List ℕ) (d : Dispatcher)
      → pools_of ss ≡ d.pools
      → pools_of
          (deliver (effects (dispatches_or_executes outcome self choice now name target args) d) ss)
        ≡ (Dispatcher.dispatch_or_execute
            (λ _ s. (outcome, s))
            self
            choice
            now
            name
            target
            args
            (d, tt {0})).1.0.pools
  unfolding effects deliver
  dispatch_or_execute-at outcome self choice now name target args d h =
      elim (Option-cases (find name d.pools)) [
        | inl missing ↦
            rw
              (
                is_executed-none self name d.pools missing,
                dispatch_or_execute-none {0} {W = Unit {0}} (λ _ s. (outcome, s)) self choice now
                    name target args d tt missing,
              )
              (at-none name _ ss (rw h missing) ∙ h)
        | inr (p, there) ↦
            elim (dispatch_or_execute_lem {0} {W = Unit {0}} (λ _ s. (outcome, s)) self choice now
              name target args d tt p there) [
                | inl (on, r) ↦
                    rw
                      (
                        is_executed-some self name d.pools p there ∙ on,
                        r,
                        and_then-state {S = Dispatcher × Unit {0}} (outcome, (d, tt)) true,
                      )
                      h
                | inr (off, r) ↦
                    rw
                      (
                        is_executed-some self name d.pools p there ∙ off,
                        r,
                        and_then-state {S = Dispatcher × Unit {0}} _ false,
                        ← callee_of-handed_on {0} {W = Unit {0}} (λ _ s. (outcome, s)) self choice
                            now name target args,
                      )
                      (dispatch-at choice now name _ args d h)
              ]
      ]

-- If the pools of a dispatcher are those of systems, each a pool among its clients and workers,
-- then any call of the dispatcher but `start` and `stop`, whatever it throws, leaves the pools of
-- the systems to which the call delivers its effects, and each system gets there by steps of its
-- own. `cancel_pending` brings the pool of its name the cancelling of its request; a dispatch
-- brings it the adding of the task that is given, or made for the callee, with the request id that
-- is given, or the next one; `cancel` brings it both, the cancelling first; `dispatch_or_execute`
-- on a thread of the pool brings nothing, since the calls of its callee count as further calls,
-- and elsewhere what a dispatch brings. A pool that is not started adds nothing, a name without a
-- pool gets nothing, and the other pools stay as they are.
pub perform-deliver :
    (joined : Pool Task → Pool Task) (op : Op) (ss : Systems) (d : Dispatcher)
    → pools_of ss ≡ d.pools
    → is_start op ≡ false
    → is_stop op ≡ false
    → (pools_of (deliver (effects op d) ss) ≡ (perform joined op d).1.pools)
      × AllReach ss (deliver (effects op d) ss)
unfolding perform effects deliver Dispatcher.cancel
perform-deliver joined op ss d h not_start not_stop =
    (pools op not_start not_stop, deliver-AllReach (effects op d) ss)
  where
    pools :
        (op : Op)
        → is_start op ≡ false
        → is_stop op ≡ false
        → pools_of (deliver (effects op d) ss) ≡ (perform joined op d).1.pools
    pools (starts ids) j k = absurd cc
    pools stops j k = absurd cc
    pools (cancels_pending name id) j k = cancel_pending-at ss name id d h
    pools (cancels choice now name id f) j k =
        ap
          (λ c. pools_of (
            at name (apply (adding choice (made now (function f []) c)))
              (at name (apply (cancelling id)) ss)))
          (sym (cancel_pending-counters ss name id d))
        ∙ dispatch-at (at name (apply (cancelling id)) ss) choice now name (callable f) []
            (Dispatcher.cancel_pending name id d) (cancel_pending-at ss name id d h)
    pools (dispatches_task choice name task) j k = dispatch_task-at ss choice name task d h
    pools (dispatches_request choice name id task) j k =
        dispatch_request-at ss choice name id task d h
    pools (dispatches choice now name target args) j k =
        dispatch-at ss choice now name target args d h
    pools (asserts self name) j k = elim (assert_execution_context_lem self name d) [
      | inl (_, e) ↦ rw e h
      | inr (inl (_, _, _, e)) ↦ rw e h
      | inr (inr (_, _, _, e)) ↦ rw e h
    ]
    pools (dispatches_or_executes outcome self choice now name target args) j k =
        dispatch_or_execute-at ss outcome self choice now name target args d h
        ∙ ap (λ (s : Dispatcher × Unit {0}). s.0.pools) (sym (and_then-state _ tt))
