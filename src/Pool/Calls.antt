-- ===== src/Pool/Calls.antt =====
-- ThreadPoolImpl.hpp: `start`, `stop`, `add_task`, `cancel_pending` and `join` on each branch.
use uni_tasks.Prelude.{
  ℕ, ◌+◌, ◌≡◌, ◌≢◌, refl, ==_self, Bool, true, false, not, ◌&&◌, ◌||◌, ◌==◌, some, List, [], ◌∷◌,
  map, All, bit, any, count, ◌⊎◌, inl, inr, Bool-cases, Option-cases, arith, if◌then◌else◌,
}
use uni_tasks.Ids.{RequestId}
use uni_tasks.Errors.{
  ok, throw, queue_closed, thread_pool_stopped, logic_error, pool_already_stopped,
}
use uni_tasks.OrderedSet.{contains, erase_if, IsSorted, insert}
use uni_tasks.OrderedSet.Contents.{count-insert, erase_if-insert}
use uni_tasks.Queue.{throw_if_closed}
use uni_tasks.Queue.Ordered.Remove.{remove_loop-erase_if}
use uni_tasks.Pool.{
  TaskType, has_ended, is_waiting, Thread, Pool, start_impl, notify_all, add_task_impl,
  cancel_pending_impl, clear_started, close, begin_stop, join, on_one_of_threads_impl,
}

module _ {ℓ} {A : Type ℓ} where
  -- `join` leaves a thread as it is, or no longer joinable.
  abbrev skipped : (self : ℕ) → Thread A → Bool
  skipped self th = not th.joinable || th.id == self

  abbrev pub joined : (self : ℕ) → Thread A → Thread A
  joined self th = if skipped self th then th else record th { joinable = false }

  abbrev pub IsJoined : (self : ℕ) → Thread A → Type 0
  IsJoined self th = (skipped self th || has_ended th.stage) ≡ true

  pub join-some :
      (self : ℕ) (ths us : List (Thread A))
      → join self ths ≡ some us
      → (us ≡ map (joined self) ths) × All (IsJoined self) ths
  unfolding join
  join-some self [] us h = (ground arith, tt)
  join-some self (th ∷ ths) us h = elim (Option-cases (join self ths)) [
    | inl e ↦ ground arith
    | inr (vs, e) ↦ ground (arith, join-some self ths vs e)
  ]

  -- When `join` has come back to the thread `self`, no other thread counts as one of the pool's
  -- threads any more.
  pub join-on_one_of_threads :
      (self other : ℕ) (p : Pool A) (us : List (Thread A))
      → join self p.threads ≡ some us
      → other ≢ self
      → on_one_of_threads_impl other (record p { threads = us }) ≡ false
  unfolding on_one_of_threads_impl
  join-on_one_of_threads self other p us h ne =
      rw ((join-some self p.threads us h).0) (none_left p.threads)
    where
      none_left :
          (ths : List (Thread A))
          → any (λ th. th.joinable && other == th.id) (map (joined self) ths) ≡ false
      none_left [] = refl
      none_left (th ∷ ths) = ground (arith, none_left ths)

  -- `stop` throws and changes nothing if the pool is not started. Else, when it has closed the
  -- queue, the pool is not started, the queue is closed and holds the tasks that it held, and no
  -- thread waits.
  pub begin_stop_lem :
      (p : Pool A)
      → ((p.started ≡ false) × (begin_stop p ≡ (throw (logic_error pool_already_stopped), p)))
        ⊎ ((p.started ≡ true)
            × ((begin_stop p).0 ≡ ok tt)
            × ((begin_stop p).1.started ≡ false)
            × ((begin_stop p).1.queue ≡ record p.queue { closed = true })
            × (any (λ th. is_waiting th.stage) (begin_stop p).1.threads ≡ false))
  unfolding begin_stop clear_started close
  begin_stop_lem p = elim (Bool-cases p.started) [
    | inl e ↦ inr (e, rw e, rw e, rw e, rw e (none_waits p.threads))
    | inr e ↦ inl (e, rw e)
  ]
    where
      none_waits :
          (ths : List (Thread A)) → any (λ th. is_waiting th.stage) (notify_all ths) ≡ false
      none_waits [] = refl
      none_waits (th ∷ ths) = ground (arith, none_waits ths)

module _ {ℓ} {A : Type ℓ} (T : TaskType A) where
  open T use {before, request_id, order}

  -- If the queue of a pool is in order, `add_task` throws that the pool is stopped if it is, else
  -- that the queue is closed if it is, and then nothing has changed; else the queue holds the task
  -- and what it held, unless an equivalent task was there: then it holds what it held.
  pub add_task_lem :
      (choice : ℕ) (x : A) (p : Pool A)
      → IsSorted before p.queue.elements
      → ((p.started ≡ false) × (add_task_impl T choice x p ≡ (throw thread_pool_stopped, p)))
        ⊎ ((p.started ≡ true)
            × (p.queue.closed ≡ true)
            × (add_task_impl T choice x p ≡ (throw queue_closed, p)))
        ⊎ ((p.started ≡ true)
            × (p.queue.closed ≡ false)
            × ((add_task_impl T choice x p).0 ≡ ok tt)
            × ((q : A → Bool)
                → count q (add_task_impl T choice x p).1.queue.elements
                  ≡ (if contains before x p.queue.elements then 0 else bit (q x))
                    + count q p.queue.elements))
  unfolding add_task_impl
  add_task_lem choice x p s = elim (Bool-cases p.started) [
    | inr e ↦ inl (e, rw e)
    | inl e ↦ elim (Bool-cases p.queue.closed) [
      | inl c ↦ inr (inl (e, c, rw (e, c)))
      | inr c ↦
          inr (inr (e, c, rw (e, c), λ q. rw (e, c) (count-insert order q x p.queue.elements s)))
    ]
  ]

  -- If the queue of a pool is closed, `add_task` after `start` throws that it is closed.
  pub start-add_task :
      (ids : ℕ → ℕ) (choice : ℕ) (x : A) (p : Pool A)
      → p.queue.closed ≡ true
      → (add_task_impl T choice x (start_impl ids p).1).0 ≡ throw queue_closed
  unfolding start_impl add_task_impl throw_if_closed
  start-add_task ids choice x p h = ground arith

  -- `cancel_pending` takes every pending task of the request out of the queue, and only those, and
  -- says whether there was one.
  pub cancel_pending_lem :
      (id : RequestId) (p : Pool A)
      → cancel_pending_impl T id p ≡ (
        any (λ t. id == request_id t) p.queue.elements,
        record p {
          queue = record p.queue { elements = erase_if (λ t. id == request_id t) p.queue.elements };
        },
      )
  unfolding cancel_pending_impl
  cancel_pending_lem id p =
      rw (remove_loop-erase_if (λ t. id == request_id t) false p.queue.elements)

  add_task-ok :
      (choice : ℕ) (x : A) (p : Pool A)
      → (add_task_impl T choice x p).0 ≡ ok tt
      → (p.started ≡ true) × (p.queue.closed ≡ false)
  unfolding add_task_impl
  add_task-ok choice x p h = ground arith

  -- If `add_task` takes a task, and no pending task has its request id, then `cancel_pending` with
  -- this id leaves the queue as it was before.
  pub add_task-cancel_pending :
      (choice : ℕ) (x : A) (p : Pool A)
      → (add_task_impl T choice x p).0 ≡ ok tt
      → any (λ t. request_id x == request_id t) p.queue.elements ≡ false
      → (cancel_pending_impl T (request_id x) (add_task_impl T choice x p).1).1.queue ≡ p.queue
  unfolding cancel_pending_impl add_task_impl
  add_task-cancel_pending choice x p added unused =
      let open_pool = add_task-ok choice x p added in
      rw (
        open_pool.0,
        open_pool.1,
        remove_loop-erase_if (λ t. request_id x == request_id t) false
            (insert before x p.queue.elements),
        erase_if-insert before (λ t. request_id x == request_id t) x p.queue.elements,
        ==_self (request_id x),
        unused,
      )
