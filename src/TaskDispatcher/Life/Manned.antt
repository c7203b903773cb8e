-- ===== src/TaskDispatcher/Life/Manned.antt =====
-- ThreadPoolImpl.hpp: how many threads a pool has over the steps of its clients and workers.
use uni_tasks.Prelude.{
  ℕ, zero, suc, ◌+◌, ◌-◌, ◌≡◌, ◌≤◌, refl, sym, ap, ◌∙◌, subst, Bool, false, List, [], ◌∷◌, ◌++◌,
  length, length-append, length-map, ◌⊎◌, inl, inr, Bool-cases, arith,
}
use uni_tasks.Errors.{Result, ok, throw}
use uni_tasks.Pool.{
  TaskType, wake_thread, Thread, Pool, start_impl, spawn, notify_one, notified, notify_all,
  push_task, clear_started, close_queue, wake_all, cancel_pending_impl,
}
use uni_tasks.Pool.Calls.{joined, join-some}
use uni_tasks.Pool.System.{
  System, pushed, cancel, worked, Step, tick, start, stop, destroy, closes, notifies, joins,
  begin_add, end_add, cancels, turn, wakes, finishes,
}

module _ {ℓ} {A : Type ℓ} where
  -- An element in the place of another.
  length-replace :
      (front : List A) (x y : A) (back : List A)
      → length (front ++ y ∷ back) ≡ length (front ++ x ∷ back)
  length-replace [] x y back = refl
  length-replace (z ∷ front) x y back = ap suc (length-replace front x y back)

module _ {ℓ} {A : Type ℓ} where
  length-notify_one :
      (choice : ℕ) (ths : List (Thread A)) → length (notify_one choice ths) ≡ length ths
  unfolding notify_one
  length-notify_one choice [] = refl
  length-notify_one choice (th ∷ ths) =
      ground (arith, length-notify_one (choice - 1) ths, length-notify_one choice ths)

  length-notified :
      (choice : ℕ) (r : Result (Unit {0})) (ths : List (Thread A))
      → length (notified choice r ths) ≡ length ths
  unfolding notified
  length-notified choice (ok _) ths = length-notify_one choice ths
  length-notified choice (throw _) ths = refl

-- The numbers of a pool of `n` threads: how many it is to start, whether it is started, and how many
-- there are.
pub record Manned (n count : ℕ) (started : Bool) (threads : ℕ) : Type 0 where
  pub same : count ≡ n
  pub begun : (started ≡ false) ⊎ (n ≤ threads)

pub length-spawn {ℓ} : (A : Type ℓ) (n : ℕ) (ids : ℕ → ℕ) → length (spawn {A = A} n ids) ≡ n
unfolding spawn
length-spawn A zero ids = refl
length-spawn A (suc n) ids = ap suc (length-spawn A n (λ i. ids (suc i)))

module _ {ℓ} {A : Type ℓ} (n : ℕ) where
  abbrev pub IsManned : Pool A → Type 0
  IsManned p = Manned n p.threads_count p.started (length p.threads)

  -- The pool has its threads, and no fewer of them than before.
  abbrev Stays : Pool A → Pool A → Type 0
  Stays p q = IsManned q × (length p.threads ≤ length q.threads)

  -- Another list of as many threads.
  keeps_threads :
      (p : Pool A) (ths : List (Thread A))
      → length ths ≡ length p.threads
      → IsManned p
      → Stays p (record p { threads = ths })
  keeps_threads p ths h m = (rw h m, omega (arith, h))

  start-IsManned : (ids : ℕ → ℕ) (p : Pool A) → IsManned p → Stays p (start_impl ids p).1
  unfolding start_impl
  start-IsManned ids p m = elim (Bool-cases p.started) [
    | inl on ↦ rw on (record { same = m.same; begun = ground (arith, m.begun) }, omega arith)
    | inr off ↦
        rw off (
          record { same = m.same; begun = inr (omega (arith, grown, m.same)) },
          omega (arith, grown),
        )
  ]
    where
      grown : length (p.threads ++ spawn p.threads_count ids) ≡ length p.threads + p.threads_count
      grown = rw (length-append, length-spawn A p.threads_count ids) refl

  clear_started-IsManned : (p : Pool A) → IsManned p → Stays p (clear_started p).1
  unfolding clear_started
  clear_started-IsManned p m = elim (Bool-cases p.started) [
    | inl on ↦ rw on (record { same = m.same; begun = inl refl }, omega arith)
    | inr off ↦ rw off (record { same = m.same; begun = inl refl }, omega arith)
  ]

module _ {ℓ} {A : Type ℓ} (T : TaskType A) (n : ℕ) where
  abbrev StaysAll : System A → System A → Type 0
  StaysAll s t = IsManned n t.pool × (length s.pool.threads ≤ length t.pool.threads)

  pub Step-IsManned : {s t : System A} → Step T s t → IsManned n s.pool → StaysAll s t
  unfolding close_queue wake_all notify_all pushed push_task cancel cancel_pending_impl worked
      wake_thread
  Step-IsManned {s} (tick later le e) m = subst (StaysAll s) (sym e) (m, omega arith)
  Step-IsManned {s} (start ids _ e) m = subst (StaysAll s) (sym e) (start-IsManned n ids s.pool m)
  Step-IsManned {s} (stop _ e) m = subst (StaysAll s) (sym e) (clear_started-IsManned n s.pool m)
  Step-IsManned {s} (destroy _ e) m = subst (StaysAll s) (sym e) (m, omega arith)
  Step-IsManned {s} (closes _ e) m = subst (StaysAll s) (sym e) (m, omega arith)
  Step-IsManned {s} (notifies _ e) m =
      subst (StaysAll s) (sym e)
        (keeps_threads n s.pool _ (length-map wake_thread s.pool.threads) m)
  Step-IsManned {s} (joins self ths _ all e) m = subst (StaysAll s) (sym e) (
      keeps_threads n s.pool ths
        (ap length (join-some self s.pool.threads ths all).0
          ∙ length-map (joined self) s.pool.threads)
        m)
  Step-IsManned {s} (begin_add x _ e) m = subst (StaysAll s) (sym e) (m, omega arith)
  Step-IsManned {s} (end_add choice front x back _ e) m =
      subst (StaysAll s) (sym e)
        (keeps_threads n s.pool _ (length-notified choice _ s.pool.threads) m)
  Step-IsManned {s} (cancels id e) m = subst (StaysAll s) (sym e) (m, omega arith)
  Step-IsManned {s} (turn front th back at _ e) m =
      subst (StaysAll s) (sym e)
        (keeps_threads n s.pool _ (length-replace front th _ back ∙ sym (ap length at)) m)
  Step-IsManned {s} (wakes front th back at _ e) m =
      subst (StaysAll s) (sym e)
        (keeps_threads n s.pool _ (length-replace front th _ back ∙ sym (ap length at)) m)
  Step-IsManned {s} (finishes front th back x r stage at _ _ e) m =
      subst (StaysAll s) (sym e)
        (keeps_threads n s.pool _ (length-replace front th _ back ∙ sym (ap length at)) m)
