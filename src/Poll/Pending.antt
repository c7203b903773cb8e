-- ===== src/Poll/Pending.antt =====
-- PollEngineImpl.cpp: the polls of an engine that wait in the queue of its pool.
use uni_tasks.Prelude.{
  ℕ, ◌+◌, ◌≤◌, ◌==◌, ==_self, ◌≡◌, refl, ap, Bool, true, false, not, ◌&&◌, some, inl, inr, List, [],
  ◌∷◌, bit, Bool-cases, count, arith,
}
use uni_tasks.Prelude.Int.{ℤ}
use uni_tasks.Ids.{RequestId}
use uni_tasks.Errors.{Result}
use uni_tasks.OrderedSet.{contains, IsSorted, erase_if}
use uni_tasks.OrderedSet.Sorted.{erase_if-IsSorted}
use uni_tasks.Dispatcher.Dispatch.{cancel_pending_done}
use uni_tasks.TaskDispatcherBasic
use uni_tasks.TaskDispatcher.Order.{add_task-Ordered}
use uni_tasks.Tasks.{
  Task, Callee, request_id_impl, member_function, raw, set_due_time_impl, set_request_id_impl,
  new_task, task_before,
}
use uni_tasks.Pool.{Pool, add_task_impl}
use uni_tasks.Pool.Calls.{add_task_lem}
use uni_tasks.Pool.Tasks.{task_type}
use uni_tasks.Dispatcher.{find}
use uni_tasks.TaskDispatcherBasic.{assert_execution_context}
use uni_tasks.Poll.{State, run_impl, stop_impl}
use uni_tasks.Poll.Rounds.{run_impl-Dispatched, next_id, next_poll, Dispatched}

-- What an `add_task` adds to the counts.
add_task-count :
    (choice : ℕ) (x : Task) (p : Pool Task) (q : Task → Bool)
    → IsSorted task_before p.queue.elements
    → count q (add_task_impl task_type choice x p).1.queue.elements
      ≤ bit (q x) + count q p.queue.elements
add_task-count choice x p q s = elim (add_task_lem task_type choice x p s) [
  | inl (_, e) ↦ rw e (omega arith)
  | inr (inl (_, _, e)) ↦ rw e (omega arith)
  | inr (inr (_, _, _, e)) ↦ elim (Bool-cases (contains task_before x p.queue.elements)) [
    | inl known ↦ rw (e q, known) (omega arith)
    | inr fresh ↦ rw (e q, fresh) (omega arith)
  ]
]

-- `self` is the engine's own address and `poll` its member function `poll_impl`.
module _ (self poll : ℕ) where
  abbrev pub calls_poll : Callee → Bool
  calls_poll (member_function (raw o) f args) = o == self && f == poll
  calls_poll _ = false

  -- The task is a poll of this engine.
  abbrev pub is_poll : Task → Bool
  is_poll t = calls_poll t.callee

  -- The task is a poll of this engine, but not the one that `stop` would cancel.
  abbrev pub is_stray : RequestId → Task → Bool
  is_stray id t = is_poll t && not (id == t.request)

  pub no_strays :
      (id : RequestId) (xs : List Task) → count is_poll xs ≤ 0 → count (is_stray id) xs ≤ 0
  no_strays id [] h = h
  no_strays id (x ∷ xs) h = ground (arith, no_strays id xs)

  -- The polls that a cancellation leaves are the strays.
  erase_if-strays :
      (id : RequestId) (xs : List Task)
      → count is_poll (erase_if (λ t. id == request_id_impl t) xs) ≡ count (is_stray id) xs
  unfolding erase_if request_id_impl
  erase_if-strays id [] = refl
  erase_if-strays id (x ∷ xs) = ground (arith, erase_if-strays id xs)

module _ {ℓ} {W : Type ℓ} (self poll : ℕ) where
  -- The engine's pool is in order, and holds at most `n` polls, all of the request that the engine
  -- knows.
  pub record HasPolls (n : ℕ) (s : State W) : Type ℓ where
    pub pool : Pool Task
    pub found : find s.engine.pool_name s.runtime.dispatcher.pools ≡ some pool
    pub sorted : IsSorted task_before pool.queue.elements
    pub few : count (is_poll self poll) pool.queue.elements ≤ n
    pub known : count (is_stray self poll s.engine.request_id) pool.queue.elements ≤ 0

  next_poll-is_poll : (now : ℤ) (s : State W) → is_poll self poll (next_poll self poll now s) ≡ true
  unfolding set_request_id_impl set_due_time_impl new_task
  next_poll-is_poll now s = rw (==_self self, ==_self poll) refl

  next_poll-is_stray :
      (now : ℤ) (s : State W)
      → is_stray self poll (next_id self poll s) (next_poll self poll now s) ≡ false
  unfolding set_request_id_impl set_due_time_impl new_task
  next_poll-is_stray now s = rw (==_self self, ==_self poll, ==_self (next_id self poll s)) refl

  -- A round that dispatches a poll where none is pending leaves at most this one.
  Dispatched-HasPolls :
      (choice : ℕ) (now : ℤ) (s : State W) (p : Pool Task) (r : Result (Unit {0}) × State W)
      → Dispatched self poll choice now s p r
      → IsSorted task_before p.queue.elements
      → count (is_poll self poll) p.queue.elements ≤ 0
      → HasPolls 1 r.1
  Dispatched-HasPolls choice now s p r h sorted none_left = record {
    pool = (add_task_impl task_type choice (next_poll self poll now s) p).1;
    found = rw h.1 h.2;
    sorted = add_task-Ordered choice (next_poll self poll now s) p sorted;
    few = omega (arith, added (is_poll self poll), ap bit (next_poll-is_poll now s), none_left);
    known = rw h.1 (
        omega (
          arith,
          added (is_stray self poll (next_id self poll s)),
          ap bit (next_poll-is_stray now s),
          no_strays self poll (next_id self poll s) p.queue.elements none_left,
        ));
  }
    where
      added :
          (q : Task → Bool)
          → count q (add_task_impl task_type choice (next_poll self poll now s) p).1.queue.elements
            ≤ bit (q (next_poll self poll now s)) + count q p.queue.elements
      added q = add_task-count choice (next_poll self poll now s) p q sorted

  -- `stop` cancels the polls that the engine knows.
  pub stop_impl-HasPolls : (n : ℕ) (s : State W) → HasPolls n s → HasPolls 0 (stop_impl s).1
  unfolding stop_impl TaskDispatcherBasic.cancel_pending
  stop_impl-HasPolls n s h =
      let done =
        cancel_pending_done s.engine.pool_name s.engine.request_id s.runtime.dispatcher h.pool
          h.found in
      let none_left : count (is_poll self poll) done.0.queue.elements ≤ 0 =
        rw (done.3, erase_if-strays self poll s.engine.request_id h.pool.queue.elements) h.known in
      record {
        pool = done.0;
        found = done.1;
        sorted = rw done.3 (
            erase_if-IsSorted task_before (λ t. s.engine.request_id == request_id_impl t)
              h.pool.queue.elements h.sorted);
        few = none_left;
        known = no_strays self poll s.engine.request_id done.0.queue.elements none_left;
      }

  pub HasPolls-weaken : (m n : ℕ) (s : State W) → m ≤ n → HasPolls m s → HasPolls n s
  HasPolls-weaken m n s le h = record {
    pool = h.pool;
    found = h.found;
    sorted = h.sorted;
    few = omega (arith, le, h.few);
    known = h.known;
  }

  -- Where no poll is pending, a run of `run_impl` leaves at most the one that it dispatches.
  pub run_impl-HasPolls :
      (choice : ℕ) (now : ℤ) (s : State W)
      → HasPolls 0 s
      → HasPolls 1 (run_impl self poll choice now s).1
  run_impl-HasPolls choice now s h =
      Dispatched-HasPolls choice now s h.pool (run_impl self poll choice now s)
        (run_impl-Dispatched self poll choice now s h.pool h.found) h.sorted h.few
