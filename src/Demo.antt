-- ===== src/Demo.antt =====
-- tests/integration/uni/common/DemoComponentImpl.cpp: a client of the library that starts a
-- calculation as a request and reports to a listener, through the dispatcher of its runtime.
pub mod Cancelling
pub mod Stale
use uni_tasks.Prelude.{
  ℕ, zero, suc, ◌+◌, String, Bool, true, false, bit, Option, none, some, List, [], ◌∷◌,
  if◌then◌else◌,
}
use uni_tasks.Prelude.Int.{ℤ}
use uni_tasks.Ids.{RequestId}
use uni_tasks.Errors.{Result, ok, throw, Call, and_then, ◌>>=◌, ◌>>◌, return, modify}
use uni_tasks.Tasks.{Task, raw, get_future_impl, sequence_id_impl}
use uni_tasks.Factory.{method, member}
use uni_tasks.Dispatcher.{Dispatcher, make_task, new_request_id}
use uni_tasks.TaskDispatcherBasic
use uni_tasks.Runtime.{Runtime, task_dispatcher_basic}
use uni_tasks.Request.{Request, Callbacks, create_request}
use uni_tasks.Utils.{expects}

-- The component: its runtime, its flag, and whether a `std::shared_ptr` still owns it, which is what
-- `lock` of its weak pointers finds out. The listener only appears as an address.
pub record Demo : Type 0 where
  pub runtime : Runtime
  pub calculate_1_cancelled : Bool
  pub owned : Bool

unfoldable pub new_demo : Runtime → Demo
new_demo runtime = record { runtime = runtime; calculate_1_cancelled = false; owned = true }

-- The numbers by which the component, its listener and their functions are known; `cancel_task` is
-- the function object that has captured a future.
pub record Names : Type 0 where
  pub this : ℕ
  pub do_calculation_1 : ℕ
  pub do_calculation_1_internal : ℕ
  pub listener : ℕ
  pub on_calculation_started : ℕ
  pub on_calculation_progress : ℕ
  pub on_calculation_done : ℕ
  pub start_callback : ℕ
  pub cancel_callback : ℕ
  pub cancel_task : Option ℕ → ℕ

abbrev pub on_dispatcher {κ} : {R : Type κ} → Call Dispatcher R → Call Demo R
on_dispatcher f s =
    let (r, runtime) = task_dispatcher_basic f s.runtime in (r, record s { runtime = runtime })

-- `task->get_future( )`. The future of a task is known by the task's sequence number.
abbrev pub get_future : Task → Call Demo Task
get_future task s =
    let (r, task') = get_future_impl task in
    elim r [ ok _ ↦ (ok task', s) | throw e ↦ (throw e, s) ]

unfoldable pub cancel_calculation_1 : Demo → Demo
cancel_calculation_1 s = record s { calculate_1_cancelled = true }

unfoldable pub reset_calculation_1 : Demo → Demo
reset_calculation_1 s = record s { calculate_1_cancelled = false }

-- The task of `schedule_cancel_calculation_1`. It has no result as long as the future that it waits
-- for is not `ready`.
unfoldable pub run_cancel_task : (ready : Bool) → Option ℕ → Demo → Option Demo
unfolding cancel_calculation_1
run_cancel_task ready future s =
    let s' = if s.owned then cancel_calculation_1 s else s in
    elim future [ none ↦ some s' | some _ ↦ if ready then some s' else none ]

module _ (names : Names) where
  open names use {this, listener}

  unfoldable pub schedule_calculation_1 :
      (choice : ℕ) (now : ℤ) → RequestId → (p1 p2 : ℕ) → Call Demo (Option ℕ)
  unfolding make_task TaskDispatcherBasic.dispatch_request sequence_id_impl
  schedule_calculation_1 choice now id p1 p2 = do
    made ←
        on_dispatcher
          (make_task now (method (raw this) (member names.do_calculation_1)) (id ∷ p1 ∷ p2 ∷ []))
    task ← get_future made
    on_dispatcher (TaskDispatcherBasic.dispatch_request choice "background" id task)
    return (some (sequence_id_impl task))

  unfoldable pub schedule_cancel_calculation_1 :
      (choice : ℕ) (now : ℤ) → RequestId → Option ℕ → Call Demo (Unit {0})
  unfolding TaskDispatcherBasic.cancel
  schedule_cancel_calculation_1 choice now id future =
      on_dispatcher
        (TaskDispatcherBasic.cancel choice now "background" id (names.cancel_task future))

  -- The callbacks of the request with the number `id`, which have captured a weak pointer to the
  -- component.
  unfoldable pub callbacks : (choice : ℕ) (now : ℤ) → RequestId → (p1 p2 : ℕ) → Callbacks ℕ Demo
  callbacks choice now id p1 p2 = record {
    on_start = λ _ (r, s).
        let (result, s') =
          if s.owned then schedule_calculation_1 choice now id p1 p2 s else (ok none, s) in
        (result, (r, s'));
    on_cancel = λ _ future (r, s).
        let (result, s') =
          if s.owned then schedule_cancel_calculation_1 choice now id future s else (ok tt, s) in
        (result, (r, s'));
  }

  unfoldable pub start_calculation_1 : Call Demo (Request ℕ)
  unfolding new_request_id
  start_calculation_1 = do
    id ← on_dispatcher new_request_id
    return (create_request id names.start_callback names.cancel_callback)

  -- `dispatch` of a member function of the listener.
  unfoldable pub notify : (choice : ℕ) (now : ℤ) → (f : ℕ) → List ℕ → Call Demo (Unit {0})
  unfolding TaskDispatcherBasic.dispatch_member
  notify choice now f args =
      on_dispatcher (TaskDispatcherBasic.dispatch_member choice now "client" listener f args)

  -- `dispatch_or_execute` of `do_calculation_1_internal`, which does nothing.
  unfoldable pub execute_internal :
      (self choice : ℕ) (now : ℤ) → RequestId → (p1 : ℕ) → Call Demo Bool
  unfolding TaskDispatcherBasic.dispatch_or_execute
  execute_internal self choice now id p1 = on_dispatcher λ d.
      let (r, (d', _)) =
        TaskDispatcherBasic.dispatch_or_execute {W = Unit {0}} (λ _ v. (ok tt, v)) self choice now
          "background" this names.do_calculation_1_internal (id ∷ p1 ∷ []) (d, tt) in
      (r, d')

  -- `do_calculation_1` on the thread `self`. Before its step of number `k` the other threads do
  -- `others k`, the notification that it makes wakes the thread `choices k`, and the clock says
  -- `times k`.
  module _ (others : ℕ → Demo → Demo) (choices : ℕ → ℕ) (times : ℕ → ℤ) (self : ℕ)
      (id : RequestId) where
    abbrev pub meanwhile : ℕ → Call Demo (Unit {0})
    meanwhile k = modify (others k)

    -- The loop, with the number of iterations that are left: `false` if it was cancelled. The step of
    -- an iteration is its counter and the steps before the loop.
    unfoldable pub progress_loop : (left counter : ℕ) → Call Demo Bool
    unfolding notify
    progress_loop zero counter s = (ok true, s)
    progress_loop (suc left) counter s =
        let k = counter + 3 in
        let s' = others k s in
        let reported =
          notify (choices k) (times k) names.on_calculation_progress (id ∷ counter ∷ []) s' in
        let rest = and_then reported (λ _. progress_loop left (suc counter)) in
        if s'.calculate_1_cancelled then (ok false, s') else rest

    -- What comes before the loop, and what comes after it.
    unfoldable pub begin_calculation_1 : (p1 : ℕ) → Call Demo (Unit {0})
    unfolding notify execute_internal expects TaskDispatcherBasic.assert_execution_context
    begin_calculation_1 p1 = do
      meanwhile 0
      on_dispatcher (TaskDispatcherBasic.assert_execution_context self "background")
      meanwhile 1
      notify (choices 1) (times 1) names.on_calculation_started (id ∷ [])
      meanwhile 2
      executed ← execute_internal self (choices 2) (times 2) id p1
      expects executed "Unexpected execution context of DemoComponentImpl::do_calculate_1_internal"

    unfoldable pub end_calculation_1 : (p1 p2 : ℕ) → Bool → Call Demo (Unit {0})
    unfolding notify reset_calculation_1
    end_calculation_1 p1 p2 status = do
      meanwhile (p1 + 3)
      notify (choices (p1 + 3)) (times (p1 + 3)) names.on_calculation_done
          (id ∷ p1 ∷ p2 ∷ bit status ∷ [])
      modify reset_calculation_1

    unfoldable pub do_calculation_1 : (p1 p2 : ℕ) → Call Demo (Unit {0})
    unfolding begin_calculation_1 progress_loop end_calculation_1
    do_calculation_1 p1 p2 = do
      begin_calculation_1 p1
      status ← progress_loop p1 0
      end_calculation_1 p1 p2 status
