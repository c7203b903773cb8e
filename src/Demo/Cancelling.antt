-- ===== src/Demo/Cancelling.antt =====
-- DemoComponentImpl.cpp with RequestImpl.cpp and TaskDispatcherImpl.hpp: a calculation whose request
-- is started and cancelled before a worker takes its task.
use uni_tasks.Prelude.{
  ℕ, String, ◌==◌, ==_self, ◌≡◌, refl, ap, ◌∙◌, true, false, some, none, any, [], ◌∷◌,
}
use uni_tasks.Prelude.Int.{ℤ}
use uni_tasks.Ids.{RequestId, Counters}
use uni_tasks.Errors.{Result, ok}
use uni_tasks.OrderedSet.{insert, erase_if}
use uni_tasks.OrderedSet.Contents.{erase_if-insert}
use uni_tasks.Tasks.{
  Task, raw, member_function, new_task, task_before, set_request_id_impl, request_id_impl,
  get_future_impl, sequence_id_impl,
}
use uni_tasks.Factory.{create_task_ptr}
use uni_tasks.Pool.{Pool, add_task_impl, push_task}
use uni_tasks.Pool.Tasks.{task_type}
use uni_tasks.Dispatcher.{Dispatcher, find, make_task, dispatch_request, cancel}
use uni_tasks.Dispatcher.Dispatch.{dispatch_request_lem}
use uni_tasks.Dispatcher.Cancel.{next_task, add_task-insert, cancel_lem}
use uni_tasks.TaskDispatcherBasic
use uni_tasks.Request.{
  Request, start_impl, cancel_impl, create_request, new_request_impl, start,
  cancel as cancel_request,
}
use uni_tasks.Demo.{Demo, Names, callbacks, schedule_calculation_1, schedule_cancel_calculation_1}

-- The named pool takes tasks.
pub record Takes (name : String) (p : Pool Task) (d : Dispatcher) : Type 0 where
  pub found : find name d.pools ≡ some p
  pub on : p.started ≡ true
  pub open_queue : p.queue.closed ≡ false

add_task-on :
    (choice : ℕ) (x : Task) (p : Pool Task)
    → p.started ≡ true
    → p.queue.closed ≡ false
    → ((add_task_impl task_type choice x p).1.started ≡ true)
      × ((add_task_impl task_type choice x p).1.queue.closed ≡ false)
unfolding add_task_impl push_task
add_task-on choice x p on open_queue = (rw on refl, rw on (rw open_queue refl))

module _ (names : Names) where
  open names use {this}

  -- The task of the calculation, when it is dispatched.
  abbrev pub calculation : (now : ℤ) → RequestId → (p1 p2 : ℕ) → Counters → Task
  calculation now id p1 p2 c =
      set_request_id_impl id
        (record (new_task now
          (member_function (raw this) names.do_calculation_1 (id ∷ p1 ∷ p2 ∷ [])) c).0 {
            future_taken = true;
          })

  -- The counters after it.
  abbrev pub counted : (now : ℤ) → Counters → Counters
  counted now c = (new_task now (member_function (raw this) 0 []) c).1

  -- The dispatch that `schedule_calculation_1` makes.
  abbrev given :
      (choice : ℕ) (now : ℤ) → RequestId → (p1 p2 : ℕ) → Dispatcher → Result (Unit {0}) × Dispatcher
  given choice now id p1 p2 d =
      dispatch_request choice "background" id
        (record (new_task now
          (member_function (raw this) names.do_calculation_1 (id ∷ p1 ∷ p2 ∷ [])) d.counters).0 {
            future_taken = true;
          })
        (record d { counters = counted now d.counters })

  schedule_as :
      (choice : ℕ) (now : ℤ) (id : RequestId) (p1 p2 : ℕ) (s : Demo)
      → (given choice now id p1 p2 s.runtime.dispatcher).0 ≡ ok tt
      → schedule_calculation_1 names choice now id p1 p2 s ≡ (
        ok (some (calculation now id p1 p2 s.runtime.dispatcher.counters).sequence),
        record s {
          runtime = record { dispatcher = (given choice now id p1 p2 s.runtime.dispatcher).1 };
        },
      )
  unfolding schedule_calculation_1 make_task create_task_ptr new_task get_future_impl
      TaskDispatcherBasic.dispatch_request sequence_id_impl set_request_id_impl
  schedule_as choice now id p1 p2 s h = rw h refl

  -- After `start`: the request holds the future of the task, and the pool has the task.
  abbrev begun : (choice : ℕ) (now : ℤ) → RequestId → (f g p1 p2 : ℕ) → Demo → Request ℕ × Demo
  begun choice now id f g p1 p2 s = (
    record (create_request id f g) {
      start_callback = none;
      started = true;
      future = some (calculation now id p1 p2 s.runtime.dispatcher.counters).sequence;
    },
    record s {
      runtime = record { dispatcher = (given choice now id p1 p2 s.runtime.dispatcher).1 };
    },
  )

  start-begun :
      (choice : ℕ) (now : ℤ) (id : RequestId) (f g p1 p2 : ℕ) (s : Demo)
      → s.owned ≡ true
      → (given choice now id p1 p2 s.runtime.dispatcher).0 ≡ ok tt
      → start (callbacks names choice now id p1 p2) (create_request id f g, s)
        ≡ (ok tt, begun choice now id f g p1 p2 s)
  unfolding start_impl new_request_impl callbacks
  start-begun choice now id f g p1 p2 s owned h =
      rw (schedule_as choice now id p1 p2 s h) (rw owned refl)

  -- What `dispatch_request` leaves in a pool that takes tasks.
  given_lem :
      (choice : ℕ) (now : ℤ) (id : RequestId) (p1 p2 : ℕ) (d : Dispatcher) (p : Pool Task)
      → Takes "background" p d
      → ((given choice now id p1 p2 d).0 ≡ ok tt)
        × (q : Pool Task) × Takes "background" q (given choice now id p1 p2 d).1
        × (q.queue.elements
            ≡ insert task_before (calculation now id p1 p2 d.counters) p.queue.elements)
        × ((given choice now id p1 p2 d).1.counters ≡ counted now d.counters)
  unfolding new_task
  given_lem choice now id p1 p2 d p takes =
      let x = calculation now id p1 p2 d.counters in
      let step = dispatch_request_lem choice "background" id _ _ p takes.found in
      let added = add_task-insert choice x p takes.on takes.open_queue in
      let stays = add_task-on choice x p takes.on takes.open_queue in
      (
        step.0 ∙ added.0,
        (add_task_impl task_type choice x p).1,
        record { found = step.1; on = stays.0; open_queue = stays.1 },
        added.1,
        step.2,
      )

  cancel-begun :
      (choice choice' : ℕ) (now now' : ℤ) (id : RequestId) (f g p1 p2 : ℕ) (s : Demo)
      → s.owned ≡ true
      → let v : Request ℕ × Demo = begun choice now id f g p1 p2 s in
        let cancelled : Result (Unit {0}) × Dispatcher =
          cancel choice' now' "background" id
            (names.cancel_task v.0.future)
            v.1.runtime.dispatcher in
        cancelled.0 ≡ ok tt
        → cancel_request (callbacks names choice' now' id p1 p2) v ≡ (
          ok tt,
          (
            record v.0 { started = false; future = none; cancel_callback = none },
            record v.1 { runtime = record { dispatcher = cancelled.1 } },
          ),
        )
  unfolding cancel_impl new_request_impl callbacks schedule_cancel_calculation_1
      TaskDispatcherBasic.cancel
  cancel-begun choice choice' now now' id f g p1 p2 s owned h = rw owned (rw h refl)

  -- The task that takes its place: it has captured the future of the calculation.
  abbrev pub cancellation : (now now' : ℤ) → RequestId → (p1 p2 : ℕ) → Counters → Task
  cancellation now now' id p1 p2 c =
      next_task now' (names.cancel_task (some (calculation now id p1 p2 c).sequence))
        (counted now c)

  -- If the component is still owned, the pool of background tasks is started and has an open
  -- queue, and none of its pending tasks has the id of a new request for a calculation, then
  -- `start` of the request comes back, and so does `cancel` after it, if no worker took the task
  -- in between; the pool's queue then holds the tasks that it held before, and the cancelling task
  -- at its place in the order of the queue, unless an equivalent task stands there.
  pub cancel-start_calculation :
      (choice choice' : ℕ) (now now' : ℤ) (id : RequestId) (f g p1 p2 : ℕ) (s : Demo)
      (p : Pool Task)
      → s.owned ≡ true
      → Takes "background" p s.runtime.dispatcher
      → any (λ t. id == request_id_impl t) p.queue.elements ≡ false
      → let started : Result (Unit {0}) × (Request ℕ × Demo) =
          start (callbacks names choice now id p1 p2) (create_request id f g, s) in
        let cancelled : Result (Unit {0}) × (Request ℕ × Demo) =
          cancel_request (callbacks names choice' now' id p1 p2) started.1 in
        (started.0 ≡ ok tt)
        × (cancelled.0 ≡ ok tt)
        × (q : Pool Task) × (find "background" cancelled.1.1.runtime.dispatcher.pools ≡ some q)
        × (q.queue.elements
            ≡ insert task_before
                (cancellation now now' id p1 p2 s.runtime.dispatcher.counters)
                p.queue.elements)
  unfolding set_request_id_impl request_id_impl
  cancel-start_calculation choice choice' now now' id f g p1 p2 s p owned takes unused =
      let (went, q, takes', elements, counters) =
        given_lem choice now id p1 p2 s.runtime.dispatcher p takes in
      let v = begun choice now id f g p1 p2 s in
      let (back, q', found, left) =
        cancel_lem choice' now' "background" id (names.cancel_task v.0.future)
          v.1.runtime.dispatcher q takes'.found takes'.on takes'.open_queue in
      let first = start-begun choice now id f g p1 p2 s owned went in
      let second = cancel-begun choice choice' now now' id f g p1 p2 s owned back in
      rw first (
        rw second (
          refl,
          refl,
          q',
          found,
          left
              ∙ ap
                  (λ xs.
                    insert task_before
                      (next_task now' (names.cancel_task v.0.future)
                        v.1.runtime.dispatcher.counters)
                      (erase_if (λ t. id == request_id_impl t) xs))
                  elements
              ∙ ap
                  (λ xs.
                    insert task_before
                      (next_task now' (names.cancel_task v.0.future)
                        v.1.runtime.dispatcher.counters)
                      xs)
                  (erase_if-insert task_before (λ t. id == request_id_impl t)
                    (calculation now id p1 p2 s.runtime.dispatcher.counters) p.queue.elements
                    (==_self id) unused)
              ∙ ap
                  (λ c.
                    insert task_before (next_task now' (names.cancel_task v.0.future) c)
                      p.queue.elements)
                  counters,
        ))
