-- ===== src/Poll/Rounds.antt =====
-- PollEngineImpl.cpp: what `start`, `stop` and a poll do.
use uni_tasks.Prelude.{
  ℕ, ◌==◌, ◌≡◌, refl, subst, sym, ap, ◌∙◌, true, false, some, inl, inr, [], any,
}
use mathlib.Core.Option
use uni_tasks.Prelude.Int.{ℤ}
use uni_tasks.Ids.{RequestId, create_request_id, create_sequence_id}
use uni_tasks.Errors.{Result, ok, Call, and_then}
use uni_tasks.Tasks.{
  Task, raw, member_function, set_due_time_impl, set_request_id_impl, request_id_impl, new_task,
}
use uni_tasks.Factory.{create_task_ptr}
use uni_tasks.Pool.{Pool, add_task_impl}
use uni_tasks.Pool.Tasks.{task_type}
use uni_tasks.Dispatcher.{
  Dispatcher, find, assert_execution_context, make_task, new_request_id, dispatch_request,
}
use uni_tasks.TaskDispatcherBasic
use uni_tasks.Dispatcher.Execute.{assert_execution_context_lem}
use uni_tasks.Dispatcher.Dispatch.{dispatch_request_lem, dispatch_request-cancel_pending}
use uni_tasks.Poll.{State, run_impl, start_impl, stop_impl, poll_impl, call_back}

-- The dispatcher with both counters moved on.
abbrev counted : Dispatcher → Dispatcher
counted d = record d { counters = (create_request_id (create_sequence_id d.counters).1).1 }

module _ {ℓ} {W : Type ℓ} (self poll : ℕ) where
  -- The task of the next round, before it has a request id, and that id.
  abbrev pub next_task : (now : ℤ) → State W → Task
  next_task now s =
      set_due_time_impl now s.engine.interval
        (new_task now (member_function (raw self) poll []) s.runtime.dispatcher.counters).0

  abbrev pub next_id : State W → RequestId
  next_id s = (create_request_id s.runtime.dispatcher.counters).0

  run_impl_lem :
      (choice : ℕ) (now : ℤ) (s : State W)
      → run_impl self poll choice now s ≡ (
        (dispatch_request choice s.engine.pool_name
            (next_id s)
            (next_task now s)
            (counted s.runtime.dispatcher)).0,
        record s {
          engine = record s.engine { request_id = next_id s };
          runtime = record {
            dispatcher =
                (dispatch_request choice s.engine.pool_name
                  (next_id s)
                  (next_task now s)
                  (counted s.runtime.dispatcher)).1;
          };
        },
      )
  unfolding run_impl make_task new_request_id create_task_ptr new_task create_request_id
      create_sequence_id dispatch_request TaskDispatcherBasic.dispatch_request
  run_impl_lem choice now s = refl

  -- If the engine does not run, a poll changes nothing: no callback is called and no further poll
  -- dispatched, on any thread.
  pub poll_impl_stopped :
      (call : ℕ → Call (State W) (Unit {0})) (thread choice : ℕ) (now : ℤ) (s : State W)
      → s.engine.running ≡ false
      → (poll_impl self poll call thread choice now s).1 ≡ s
  unfolding poll_impl TaskDispatcherBasic.assert_execution_context
  poll_impl_stopped call thread choice now s h =
      elim (assert_execution_context_lem thread s.engine.pool_name s.runtime.dispatcher) [
        | inl (_, e) ↦ rw (e, h) refl
        | inr (inl (p, _, _, e)) ↦ rw (e, h) refl
        | inr (inr (p, _, _, e)) ↦ rw (e, h) refl
      ]

  -- The task of the next round with its request id.
  abbrev pub next_poll : (now : ℤ) → State W → Task
  next_poll now s = set_request_id_impl (next_id s) (next_task now s)

  -- What a round leaves behind, if the engine's pool is `p`: the engine knows the request id of the
  -- next poll, and the pool has been given that poll.
  abbrev pub Dispatched :
      (choice : ℕ) (now : ℤ) → State W → Pool Task → Result (Unit {0}) × State W → Type ℓ
  Dispatched choice now s p r =
      (r.0 ≡ (add_task_impl task_type choice (next_poll now s) p).0)
      × (r.1.engine ≡ record s.engine { request_id = next_id s })
      × (find s.engine.pool_name r.1.runtime.dispatcher.pools
          ≡ some (add_task_impl task_type choice (next_poll now s) p).1)
      × (r.1.world ≡ s.world)

  pub run_impl-Dispatched :
      (choice : ℕ) (now : ℤ) (s : State W) (p : Pool Task)
      → find s.engine.pool_name s.runtime.dispatcher.pools ≡ some p
      → Dispatched choice now s p (run_impl self poll choice now s)
  run_impl-Dispatched choice now s p h =
      let step =
        dispatch_request_lem choice s.engine.pool_name (next_id s) (next_task now s)
          (counted s.runtime.dispatcher) p h in
      rw (run_impl_lem choice now s) (step.0, refl, step.1, refl)

  -- If the engine's pool exists, `start` sets the engine running, and its result is that of
  -- `add_task` of the pool for one poll, due after the interval, whose request id the engine
  -- knows.
  pub start_impl-Dispatched :
      (choice : ℕ) (now : ℤ) (s : State W) (p : Pool Task)
      → find s.engine.pool_name s.runtime.dispatcher.pools ≡ some p
      → Dispatched choice now
          (record s { engine = record s.engine { running = true } })
          p
          (start_impl self poll choice now s)
  unfolding start_impl
  start_impl-Dispatched choice now s p h =
      run_impl-Dispatched choice now (record s { engine = record s.engine { running = true } }) p h

  -- If a poll runs on a thread of the engine's pool, the engine runs, and the callback comes back
  -- in a state whose engine has a pool, then the result is that of `add_task` of this pool for the
  -- next poll, the engine knows the request id of that poll, and the pool has been given it: also
  -- if the callback has stopped the engine.
  pub poll_impl-Dispatched :
      (call : ℕ → Call (State W) (Unit {0})) (thread choice : ℕ) (now : ℤ) (s t : State W)
      (p : Pool Task)
      → (assert_execution_context thread s.engine.pool_name s.runtime.dispatcher).0 ≡ ok tt
      → s.engine.running ≡ true
      → call_back self poll call s.engine.callback s ≡ (ok tt, t)
      → find t.engine.pool_name t.runtime.dispatcher.pools ≡ some p
      → Dispatched choice now t p (poll_impl self poll call thread choice now s)
  unfolding poll_impl TaskDispatcherBasic.assert_execution_context
  poll_impl-Dispatched call thread choice now s t p on runs back h =
      subst (Dispatched choice now t p) (sym round) (run_impl-Dispatched choice now t p h)
    where
      asserted :
          assert_execution_context thread s.engine.pool_name s.runtime.dispatcher
          ≡ (ok tt, s.runtime.dispatcher)
      asserted =
          elim (assert_execution_context_lem thread s.engine.pool_name s.runtime.dispatcher) [
            | inl (_, e) ↦ absurd (cc (sym on ∙ ap (λ r. r.0) e))
            | inr (inl (_, _, _, e)) ↦ e
            | inr (inr (_, _, _, e)) ↦ absurd (cc (sym on ∙ ap (λ r. r.0) e))
          ]

      round : poll_impl self poll call thread choice now s ≡ run_impl self poll choice now t
      round = simp (asserted, runs) (ap (λ a. and_then a (λ _. run_impl self poll choice now)) back)

  -- If the engine's pool exists, `start` comes back, and no pending task had the request id that
  -- `start` took, then `stop` right after `start` leaves the engine not running and the pool's
  -- queue as it was before `start`.
  pub stop_impl-start_impl :
      (choice : ℕ) (now : ℤ) (s : State W) (p : Pool Task)
      → find s.engine.pool_name s.runtime.dispatcher.pools ≡ some p
      → (start_impl self poll choice now s).0 ≡ ok tt
      → any (λ t. next_id s == request_id_impl t) p.queue.elements ≡ false
      → ((stop_impl (start_impl self poll choice now s).1).1.engine.running ≡ false)
        × (Option.map
              (λ q. q.queue)
              (find s.engine.pool_name
                (stop_impl (start_impl self poll choice now s).1).1.runtime.dispatcher.pools)
            ≡ some p.queue)
  unfolding stop_impl start_impl dispatch_request make_task new_request_id create_sequence_id
      TaskDispatcherBasic.dispatch_request TaskDispatcherBasic.cancel_pending
  stop_impl-start_impl choice now s p h started unused = (
    refl,
    dispatch_request-cancel_pending choice s.engine.pool_name (next_id s) (next_task now s)
        (counted s.runtime.dispatcher) p h started unused,
  )
