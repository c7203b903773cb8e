-- ===== src/Pool/System/Awake.antt =====
-- ThreadPoolImpl.hpp: the workers of a pool whose queue is closed.
use uni_tasks.Prelude.{
  ℕ, ◌≡◌, refl, sym, ◌∙◌, subst, Bool, true, false, List, ◌∷◌, ◌++◌, All-append, All-append_right,
  Bool-cases, inl, inr, arith,
}
use uni_tasks.Prelude.Int.{ℤ}
use uni_tasks.Queue.{throw_if_closed}
use uni_tasks.Queue.Ordered.{push}
use uni_tasks.Pool.{
  TaskType, Thread, Pool, new_pool, start_impl, spawn, push_task, clear_started, close_queue,
  wake_all, cancel_pending_impl, take_turn, wants_mutex,
}
use uni_tasks.Queue.{Queue}
use uni_tasks.Pool.Calls.{join-some}
use uni_tasks.Pool.System.{
  System, Control, notifying, joining, initial, pushed, cancel, worked, Step, tick, start, stop,
  destroy, closes, notifies, joins, begin_add, end_add, cancels, turn, wakes, finishes, Reach, here,
  next,
}
use uni_tasks.Pool.System.Stages.{Everywhere, IsSound, spawn-Everywhere, notified-Everywhere}
use uni_tasks.Pool.System.Turn.{take_turn-closed}
use uni_tasks.Pool.System.Parts.{Inv, after_run-entering}
use uni_tasks.Pool.System.Invariant.{Reach-initial-Inv}
use uni_tasks.Pool.System.Closing.{start-queue, clear_started-queue}
use uni_tasks.Pool.System.Dozing.{
  dozes, IsUp, wake-IsUp, notify_all-Up, joined-Up, replace-Up, take_turn-Rests,
}

-- The notification that belongs to the closed queue is still to come.
abbrev pub is_notifying : Control → Bool
is_notifying notifying = true
is_notifying _ = false

-- `stop` has closed the queue.
abbrev pub has_closed : Control → Bool
has_closed notifying = true
has_closed joining = true
has_closed _ = false

module _ {ℓ} {A : Type ℓ} where
  push-closed : (lt : A → A → Bool) (x : A) (q : Queue A) → (push lt x q).1.closed ≡ q.closed
  unfolding push throw_if_closed
  push-closed lt x q = elim (Bool-cases q.closed) [ inl e ↦ rw e | inr e ↦ rw e ]

  start-Up :
      (ids : ℕ → ℕ) (p : Pool A)
      → Everywhere IsUp p.threads
      → Everywhere IsUp (start_impl ids p).1.threads
  unfolding start_impl
  start-Up ids p h = elim (Bool-cases p.started) [
    | inl e ↦ rw e h
    | inr e ↦ rw e (
        All-append _ p.threads (spawn p.threads_count ids) h
          (spawn-Everywhere IsUp refl p.threads_count ids))
  ]

  clear_started-threads : (p : Pool A) → (clear_started p).1.threads ≡ p.threads
  unfolding clear_started
  clear_started-threads p = elim (Bool-cases p.started) [ inl e ↦ rw e | inr e ↦ rw e ]

module _ {ℓ} {A : Type ℓ} (T : TaskType A) where
  open T use {before}

  -- A queue that `stop` has closed is closed, and once `stop` has notified no worker dozes.
  pub record Awake (s : System A) : Type 0 where
    pub shut : has_closed s.control ≡ true → s.pool.queue.closed ≡ true
    pub up :
        s.pool.queue.closed ≡ true → is_notifying s.control ≡ false → Everywhere IsUp s.pool.threads

  Step-Awake : {s t : System A} → Step T s t → Inv T s → Awake s → Awake t
  unfolding close_queue wake_all pushed push_task cancel cancel_pending_impl worked
  Step-Awake (tick _ _ e) v h = subst Awake (sym e) (record { shut = h.shut; up = h.up })
  Step-Awake {s} (start ids idle e) v h = subst Awake (sym e) (record {
    shut = λ c. rw (start-queue ids s.pool) (h.shut c);
    up = λ c n. start-Up ids s.pool (h.up (rw (← start-queue ids s.pool) c) n);
  })
  Step-Awake {s} (stop unused e) v h = subst Awake (sym e) (record {
    shut = λ c. absurd (ground arith);
    up = λ c n.
        rw (clear_started-threads s.pool)
          (h.up (rw (← clear_started-queue s.pool) c) (rw unused refl));
  })
  Step-Awake (destroy unused e) v h =
      subst Awake (sym e) (record { shut = λ c. absurd cc; up = λ c n. h.up c (rw unused refl) })
  Step-Awake (closes _ e) v h =
      subst Awake (sym e) (record { shut = λ c. refl; up = λ c n. absurd cc })
  Step-Awake {s} (notifies at e) v h =
      subst Awake (sym e)
        (record { shut = λ c. h.shut (rw at refl); up = λ c n. notify_all-Up s.pool.threads })
  Step-Awake {s} (joins self us at all e) v h = subst Awake (sym e) (record {
    shut = λ c. absurd cc;
    up = λ c n.
        rw ((join-some self s.pool.threads us all).0)
          (joined-Up self s.pool.threads (h.up c (rw at refl)));
  })
  Step-Awake (begin_add _ _ e) v h = subst Awake (sym e) (record { shut = h.shut; up = h.up })
  Step-Awake {s} (end_add choice front x back _ e) v h = subst Awake (sym e) (record {
    shut = λ c. push-closed before x s.pool.queue ∙ h.shut c;
    up = λ c n.
        notified-Everywhere IsUp wake-IsUp choice _ s.pool.threads
          (h.up (sym (push-closed before x s.pool.queue) ∙ c) n);
  })
  Step-Awake (cancels id e) v h = subst Awake (sym e) (record { shut = h.shut; up = h.up })
  Step-Awake {s} (turn front th back at wants e) v h =
      let same = take_turn-closed T s.now th.stage s.pool.queue in
      subst Awake (sym e) (record {
        shut = λ c. same ∙ h.shut c;
        up = λ c n.
            replace-Up front th back s.pool.threads _ at
              (turn_up front th back at wants (sym same ∙ c)) (h.up (sym same ∙ c) n);
      })
    where
      turn_up :
          (front : List (Thread A)) (th : Thread A) (back : List (Thread A))
          → s.pool.threads ≡ front ++ th ∷ back
          → wants_mutex th.stage ≡ true
          → s.pool.queue.closed ≡ true
          → IsUp (take_turn T s.now th.stage s.pool.queue).0
      turn_up front th back at wants c =
          elim (Bool-cases (dozes (take_turn T s.now th.stage s.pool.queue).0)) [
            | inr up ↦ up
            | inl d ↦
                let sound = subst (Everywhere (IsSound s.pool.queue)) at v.sound in
                absurd (
                  cc (
                    c,
                    (take_turn-Rests T s.now th.stage s.pool.queue wants
                        (All-append_right _ front (th ∷ back) sound).0 d).1,
                  ))
          ]
  Step-Awake {s} (wakes front th back at waits e) v h = subst Awake (sym e) (record {
    shut = h.shut;
    up = λ c n. replace-Up front th back s.pool.threads _ at (ground arith) (h.up c n);
  })
  Step-Awake {s} (finishes front th back x r stage at _ after e) v h = subst Awake (sym e) (record {
    shut = h.shut;
    up = λ c n.
        replace-Up front th back s.pool.threads stage at
          (rw (after_run-entering r stage after) refl) (h.up c n);
  })

  pub Reach-Awake : (n : ℕ) (now : ℤ) {s : System A} → Reach T (initial n now) s → Awake s
  unfolding new_pool
  Reach-Awake n now here = record { shut = λ c. absurd cc; up = λ c k. tt }
  Reach-Awake n now (next r st) = Step-Awake st (Reach-initial-Inv T n now r) (Reach-Awake n now r)
