-- ===== src/Pool/System/Closing.antt =====
-- ThreadPoolImpl.hpp: the pool after its queue is closed, and the tasks that a worker begins.
use uni_tasks.Prelude.{
  ℕ, ◌≡◌, refl, sym, ◌∙◌, some, subst, true, List, ◌∷◌, ◌++◌, All, All-append_right, inl, inr,
  Bool-cases, arith,
}
use uni_tasks.Prelude.Int.{ℤ, pos, ◌≤ℤ◌}
use uni_tasks.Queue.{Queue, Pop, returned}
use uni_tasks.Queue.Ordered.WaitPop.{resume-first, wait_pop-first}
use uni_tasks.Pool.{
  TaskType, Stage, entering, waiting, woken, running, ended, wants_mutex, stage_after, Thread, Pool,
  start_impl, push_task, clear_started, close_queue, wake_all, cancel_pending_impl, take_turn,
}
use uni_tasks.Pool.System.{
  System, initial, pushed, cancel, worked, Step, tick, start, stop, destroy, closes, notifies,
  joins, begin_add, end_add, cancels, turn, wakes, finishes, Reach, here, next,
}
use uni_tasks.Pool.System.Stages.{IsSound, Everywhere}
use uni_tasks.Pool.System.Turn.{take_turn-closed, IsSound-Agrees}
use uni_tasks.Pool.System.Parts.{Inv}
use uni_tasks.Pool.System.Invariant.{Reach-initial-Inv}
use uni_tasks.OrderedSet.{IsSorted}

module _ {ℓ} {A : Type ℓ} where
  pub start-queue : (ids : ℕ → ℕ) (p : Pool A) → (start_impl ids p).1.queue ≡ p.queue
  unfolding start_impl
  start-queue ids p = elim (Bool-cases p.started) [ inl e ↦ rw e | inr e ↦ rw e ]

  pub clear_started-queue : (p : Pool A) → (clear_started p).1.queue ≡ p.queue
  unfolding clear_started
  clear_started-queue p = elim (Bool-cases p.started) [ inl e ↦ rw e | inr e ↦ rw e ]

module _ {ℓ} {A : Type ℓ} (T : TaskType A) where
  open T use {before, delay}

  -- The queue is closed, and these are the tasks that were taken.
  abbrev pub IsShut : List A → System A → Type ℓ
  IsShut taken s = (s.accepted ≡ taken) × (s.pool.queue.closed ≡ true)

  Step-IsShut : (taken : List A) {s t : System A} → Step T s t → IsShut taken s → IsShut taken t
  unfolding close_queue wake_all pushed push_task cancel cancel_pending_impl worked
  Step-IsShut taken (tick later le e) v = subst (IsShut taken) (sym e) v
  Step-IsShut taken {s} (start ids _ e) v =
      subst (IsShut taken) (sym e) (v.0, rw (start-queue ids s.pool) v.1)
  Step-IsShut taken {s} (stop _ e) v =
      subst (IsShut taken) (sym e) (v.0, rw (clear_started-queue s.pool) v.1)
  Step-IsShut taken (destroy _ e) v = subst (IsShut taken) (sym e) v
  Step-IsShut taken (closes _ e) v = subst (IsShut taken) (sym e) (v.0, refl)
  Step-IsShut taken (notifies _ e) v = subst (IsShut taken) (sym e) v
  Step-IsShut taken (joins self ths _ all e) v = subst (IsShut taken) (sym e) v
  Step-IsShut taken (begin_add x _ e) v = subst (IsShut taken) (sym e) v
  Step-IsShut taken {s} (end_add choice front x back _ e) v =
      subst (IsShut taken) (sym e) (rw v.1 (v.0, refl))
  Step-IsShut taken (cancels id e) v = subst (IsShut taken) (sym e) v
  Step-IsShut taken {s} (turn front th back at wants e) v =
      subst (IsShut taken) (sym e) (v.0, take_turn-closed T s.now th.stage s.pool.queue ∙ v.1)
  Step-IsShut taken (wakes front th back at _ e) v = subst (IsShut taken) (sym e) v
  Step-IsShut taken (finishes front th back x r stage at runs_x after e) v =
      subst (IsShut taken) (sym e) v

  -- Once the queue of a pool is closed, it stays closed and no task is taken any more, whatever
  -- steps follow, `start` among them.
  pub Reach-IsShut :
      (taken : List A) {s t : System A} → Reach T s t → IsShut taken s → IsShut taken t
  Reach-IsShut taken here v = v
  Reach-IsShut taken (next r st) v = Step-IsShut taken st (Reach-IsShut taken r v)

  stage_after-running :
      (now : ℤ) (pop : Pop A) (x : A) → stage_after now pop ≡ running x → pop ≡ returned (some x)
  stage_after-running now pop x h = ground arith

  pub take_turn-first :
      (now : ℤ) (stage : Stage A) (q : Queue A) (x : A)
      → wants_mutex stage ≡ true
      → IsSound q stage
      → IsSorted before q.elements
      → (take_turn T now stage q).0 ≡ running x
      → All (λ y. before x y ≡ true) (take_turn T now stage q).1.elements × (delay now x ≤ℤ pos 0)
  unfolding take_turn
  take_turn-first now entering q x w sound s h =
      let first = wait_pop-first (delay now) before q x s (stage_after-running now _ x h) in
      (first.0, first.2)
  take_turn-first now (woken point) q x w sound s h =
      let agrees = IsSound-Agrees T now q point sound in
      let first =
        resume-first (delay now) before point q x agrees s (stage_after-running now _ x h) in
      (first.0, first.2)
  take_turn-first now (waiting _ _) q x w sound s h = cc
  take_turn-first now (running _) q x w sound s h = cc
  take_turn-first now ended q x w sound s h = cc

  -- In each state that a pool can reach, a task that a worker takes from the queue and begins to
  -- run is due, and precedes in the comparator's order all tasks that stay in the queue.
  pub turn-first :
      (n : ℕ) (now : ℤ) {s : System A} (front : List (Thread A)) (th : Thread A)
      (back : List (Thread A)) (x : A)
      → Reach T (initial n now) s
      → s.pool.threads ≡ front ++ th ∷ back
      → wants_mutex th.stage ≡ true
      → (take_turn T s.now th.stage s.pool.queue).0 ≡ running x
      → All (λ y. before x y ≡ true) (take_turn T s.now th.stage s.pool.queue).1.elements
        × (delay s.now x ≤ℤ pos 0)
  turn-first n now {s} front th back x r at wants runs_x =
      take_turn-first s.now th.stage s.pool.queue x wants
        (All-append_right _ front (th ∷ back) sound).0 inv.ordered runs_x
    where
      inv : Inv T s
      inv = Reach-initial-Inv T n now r

      sound : Everywhere (IsSound s.pool.queue) (front ++ th ∷ back)
      sound = subst (Everywhere (IsSound s.pool.queue)) at inv.sound
