-- ===== src/Pool/System/Drained.antt =====
-- ThreadPoolImpl.hpp: what has become of the tasks when `stop` comes back.
use uni_tasks.Prelude.{
  ℕ, zero, suc, ◌+◌, ◌-◌, ◌≡◌, ◌≢◌, refl, ap, sym, subst, Bool, true, false, ◌&&◌, ◌||◌, ◌==◌, some,
  List, [], ◌∷◌, ◌++◌, map, All, All-append, All-append_left, All-append_right, any, count, inl,
  inr, Bool-cases, arith,
}
use uni_tasks.Prelude.Int.{ℤ}
use uni_tasks.Errors.{Result, ok, throw}
use uni_tasks.Queue.{Queue, is_empty}
use uni_tasks.Pool.{
  TaskType, Stage, has_ended, is_waiting, wants_mutex, wake_thread, Thread, Pool, new_pool,
  start_impl, spawn, notify_one, notified, notify_all, push_task, clear_started, close_queue,
  wake_all, join, cancel_pending_impl, on_one_of_threads_impl,
}
use uni_tasks.Pool.Calls.{joined, IsJoined, join-some}
use uni_tasks.Pool.System.{
  System, initial, pushed, cancel, worked, Step, tick, start, stop, destroy, closes, notifies,
  joins, begin_add, end_add, cancels, turn, wakes, finishes, Reach, here, next,
}
use uni_tasks.Pool.System.Stages.{count_running, Everywhere, IsSound}
use uni_tasks.Pool.System.Parts.{Inv}
use uni_tasks.Pool.System.Invariant.{Reach-initial-Inv}

module _ {ℓ} {A : Type ℓ} where
  -- A thread that is no longer joinable has ended.
  abbrev IsKnown : Thread A → Type 0
  IsKnown th = (th.joinable || has_ended th.stage) ≡ true

  abbrev AllKnown : List (Thread A) → Type 0
  AllKnown = All IsKnown

  wake-IsKnown : (th : Thread A) → IsKnown th → IsKnown (wake_thread th)
  unfolding wake_thread
  wake-IsKnown th h = ground arith

  notify_one-AllKnown :
      (choice : ℕ) (ths : List (Thread A)) → AllKnown ths → AllKnown (notify_one choice ths)
  unfolding notify_one
  notify_one-AllKnown choice [] h = tt
  notify_one-AllKnown choice (th ∷ ths) h = ground (
    arith,
    wake-IsKnown th h.0,
    notify_one-AllKnown (choice - 1) ths h.1,
    notify_one-AllKnown choice ths h.1,
  )

  notified-AllKnown :
      (choice : ℕ) (r : Result (Unit {0})) (ths : List (Thread A))
      → AllKnown ths
      → AllKnown (notified choice r ths)
  unfolding notified
  notified-AllKnown choice (ok _) ths h = notify_one-AllKnown choice ths h
  notified-AllKnown choice (throw _) ths h = h

  notify_all-AllKnown : (ths : List (Thread A)) → AllKnown ths → AllKnown (notify_all ths)
  unfolding notify_all
  notify_all-AllKnown [] h = tt
  notify_all-AllKnown (th ∷ ths) h = (wake-IsKnown th h.0, notify_all-AllKnown ths h.1)

  joined-AllKnown :
      (self : ℕ) (ths : List (Thread A))
      → All (IsJoined self) ths
      → AllKnown ths
      → AllKnown (map (joined self) ths)
  joined-AllKnown self [] j h = tt
  joined-AllKnown self (th ∷ ths) j h = ground (arith, joined-AllKnown self ths j.1 h.1)

  -- A thread that has not ended is joinable, and stays so when it moves.
  replace-AllKnown :
      (front : List (Thread A)) (th : Thread A) (back ths : List (Thread A)) (stage : Stage A)
      → ths ≡ front ++ th ∷ back
      → has_ended th.stage ≡ false
      → AllKnown ths
      → AllKnown (front ++ record th { stage = stage } ∷ back)
  replace-AllKnown front th back ths stage at alive h =
      let known = subst AllKnown at h in
      All-append _ front (record th { stage = stage } ∷ back)
        (All-append_left _ front (th ∷ back) known)
        (
          ground (arith, (All-append_right _ front (th ∷ back) known).0),
          (All-append_right _ front (th ∷ back) known).1,
        )

  spawn-AllKnown : (p : Pool A) (n : ℕ) (ids : ℕ → ℕ) → AllKnown (spawn {A = A} n ids)
  unfolding spawn
  spawn-AllKnown p zero ids = tt
  spawn-AllKnown p (suc n) ids = (refl, spawn-AllKnown p n (λ i. ids (suc i)))

  start-AllKnown :
      (ids : ℕ → ℕ) (p : Pool A) → AllKnown p.threads → AllKnown (start_impl ids p).1.threads
  unfolding start_impl
  start-AllKnown ids p h = elim (Bool-cases p.started) [
    | inl e ↦ rw e h
    | inr e ↦ rw e (
        All-append _ p.threads (spawn p.threads_count ids) h (spawn-AllKnown p p.threads_count ids))
  ]

  clear_started-AllKnown : (p : Pool A) → AllKnown p.threads → AllKnown (clear_started p).1.threads
  unfolding clear_started
  clear_started-AllKnown p h = elim (Bool-cases p.started) [ inl e ↦ rw e h | inr e ↦ rw e h ]

  wants_mutex-alive : (stage : Stage A) → wants_mutex stage ≡ true → has_ended stage ≡ false
  wants_mutex-alive stage h = ground arith

  is_waiting-alive : (stage : Stage A) → is_waiting stage ≡ true → has_ended stage ≡ false
  is_waiting-alive stage h = ground arith

module _ {ℓ} {A : Type ℓ} (T : TaskType A) where
  abbrev Known : System A → Type 0
  Known s = AllKnown s.pool.threads

  Step-Known : {s t : System A} → Step T s t → Known s → Known t
  unfolding close_queue wake_all pushed push_task cancel cancel_pending_impl worked wake_thread
  Step-Known (tick later le e) v = subst Known (sym e) v
  Step-Known {s} (start ids _ e) v = subst Known (sym e) (start-AllKnown ids s.pool v)
  Step-Known {s} (stop _ e) v = subst Known (sym e) (clear_started-AllKnown s.pool v)
  Step-Known (destroy _ e) v = subst Known (sym e) v
  Step-Known (closes _ e) v = subst Known (sym e) v
  Step-Known {s} (notifies _ e) v = subst Known (sym e) (notify_all-AllKnown s.pool.threads v)
  Step-Known {s} (joins self ths _ all e) v = subst Known (sym e) (
      rw ((join-some self s.pool.threads ths all).0)
        (joined-AllKnown self s.pool.threads (join-some self s.pool.threads ths all).1 v))
  Step-Known (begin_add x _ e) v = subst Known (sym e) v
  Step-Known {s} (end_add choice front x back _ e) v =
      subst Known (sym e) (notified-AllKnown choice _ s.pool.threads v)
  Step-Known (cancels id e) v = subst Known (sym e) v
  Step-Known {s} (turn front th back at wants e) v =
      subst Known (sym e)
        (replace-AllKnown front th back s.pool.threads _ at (wants_mutex-alive th.stage wants) v)
  Step-Known {s} (wakes front th back at waits e) v =
      subst Known (sym e)
        (replace-AllKnown front th back s.pool.threads _ at (is_waiting-alive th.stage waits) v)
  Step-Known {s} (finishes front th back x r stage at runs_x after e) v =
      subst Known (sym e)
        (replace-AllKnown front th back s.pool.threads stage at (rw runs_x refl) v)

  Reach-Known : {s t : System A} → Reach T s t → Known s → Known t
  Reach-Known here v = v
  Reach-Known (next r st) v = Step-Known st (Reach-Known r v)

  threads_over :
      (self : ℕ) (ths : List (Thread A))
      → AllKnown ths
      → All (IsJoined self) ths
      → any (λ th. th.joinable && self == th.id) ths ≡ false
      → All (λ th. has_ended th.stage ≡ true) ths
  threads_over self [] k j out = tt
  threads_over self (th ∷ ths) k j out = ground (arith, threads_over self ths k.1 j.1)

  count_running-ended :
      (p : A → Bool) (ths : List (Thread A))
      → All (λ th. has_ended th.stage ≡ true) ths
      → count_running p ths ≡ 0
  count_running-ended p [] h = refl
  count_running-ended p (th ∷ ths) h = ground (arith, count_running-ended p ths h.1)

  ended-empty :
      (q : Queue A) (ths : List (Thread A))
      → ths ≢ []
      → Everywhere (IsSound q) ths
      → All (λ th. has_ended th.stage ≡ true) ths
      → (q.closed ≡ true) × (q.elements ≡ [])
  unfolding is_empty
  ended-empty q [] some_thread s h = absurd (some_thread refl)
  ended-empty q (th ∷ ths) some_thread s h = ground arith

  -- If a pool is in a state that its clients and workers can bring it to, it has at least one
  -- thread, and `join` comes back to a caller that is not one of its threads, then the queue is
  -- closed and empty, and each task that `add_task` took has been run, was cancelled, or was
  -- dropped because an equivalent task was in the set: as often as it was taken.
  pub join-all_done :
      (n : ℕ) (now : ℤ) {s : System A} (self : ℕ) (us : List (Thread A))
      → Reach T (initial n now) s
      → s.pool.threads ≢ []
      → on_one_of_threads_impl self s.pool ≡ false
      → join self s.pool.threads ≡ some us
      → (s.pool.queue.closed ≡ true)
        × (s.pool.queue.elements ≡ [])
        × ((p : A → Bool)
            → count p s.accepted ≡ count p s.finished + count p s.cancelled + count p s.dropped)
  unfolding on_one_of_threads_impl new_pool
  join-all_done n now {s} self us r some_thread outside back = (
    empty.0,
    empty.1,
    λ p.
        omega (arith, inv.kept p, count_running-ended p s.pool.threads ended, ap (count p) empty.1),
  )
    where
      inv : Inv T s
      inv = Reach-initial-Inv T n now r

      ended : All (λ th. has_ended th.stage ≡ true) s.pool.threads
      ended =
          threads_over self s.pool.threads (Reach-Known r tt)
            (join-some self s.pool.threads us back).1 outside

      empty : (s.pool.queue.closed ≡ true) × (s.pool.queue.elements ≡ [])
      empty = ended-empty s.pool.queue s.pool.threads some_thread inv.sound ended
