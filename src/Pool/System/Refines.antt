-- ===== src/Pool/System/Refines.antt =====
-- ThreadPoolImpl.hpp against what the pool promises.
use uni_tasks.Prelude.{
  ℕ, ◌+◌, ◌==◌, ◌≡◌, refl, sym, ap, ◌∙◌, subst, Bool, true, false, not, ◌⊎◌, inl, inr, List, [],
  ◌∷◌, ◌++◌, All, All-append_right, count, count-append, Bool-cases, arith,
}
use uni_tasks.Prelude.Int.{ℤ, ◌≤ℤ◌}
use uni_tasks.Ids.{RequestId}
use uni_tasks.OrderedSet.{contains, erase_if}
use uni_tasks.OrderedSet.Contents.{
  insert-known, insert-fresh, count-erase_if-not, count-erase_if_self, count-not-erase_if,
}
use uni_tasks.Queue.{Queue, throw_if_closed}
use uni_tasks.Queue.Ordered.{push}
use uni_tasks.Queue.Ordered.Remove.{remove_loop-erase_if}
use uni_tasks.Bag.{of_list, items, put_all, same_bag}
use uni_tasks.Pool.{
  TaskType, Stage, entering, waiting, woken, running, ended, wants_mutex, wake, wake_thread, Thread,
  new_pool, start_impl, push_task, clear_started, close_queue, wake_all, cancel_pending_impl,
  take_turn,
}
use uni_tasks.Pool.Calls.{join-some}
use uni_tasks.Pool.Spec.{
  Contract, idle_contract, Change, nothing, takes, begins, ends, Changes, none, passes, more,
}
use uni_tasks.Pool.Spec
use uni_tasks.Pool.System.{
  System, initial, pushed, cancel, worked, Step, tick, start, stop, destroy, closes, notifies,
  joins, begin_add, end_add, cancels, turn, wakes, finishes, Reach, here, next,
}
use uni_tasks.Pool.System.Stages.{
  IsSound, Everywhere, runs, runs-wake, runs-wants_mutex, count_running, count_running-notified,
  count_running-notify_all,
}
use uni_tasks.Pool.System.Turn.{GoodTurn, take_turn-GoodTurn, take_turn-closed}
use uni_tasks.Pool.System.Parts.{Inv, count_running-joined, after_run-entering}
use uni_tasks.Pool.System.Invariant.{Reach-initial-Inv}
use uni_tasks.Pool.System.Closing.{start-queue, clear_started-queue, take_turn-first}
use uni_tasks.Pool.System.View.{
  running_tasks, count-running_tasks, same_running, view, contract_ext, quiet, start-count,
  clear_started-count, replace-count,
}

module _ {ℓ} {A : Type ℓ} (T : TaskType A) where
  open T use {before, request_id, delay, order}

  push-Change :
      (choice : ℕ) (x : A) (others : List A) (s : System A)
      → Inv T s
      → Change T s.now (view s) (view (pushed T choice x others s))
  unfolding pushed push_task push throw_if_closed put_all
  push-Change choice x others s v = elim (Bool-cases s.pool.queue.closed) [
    | inl e ↦ quiet T s (pushed T choice x others s) (rw e refl) after refl refl
    | inr e ↦ elim (Bool-cases (contains before x s.pool.queue.elements)) [
      | inl known ↦ nothing (
          contract_ext
            (rw e (same_bag (insert-known order x s.pool.queue.elements v.ordered known)))
            (same_running (pushed T choice x others s).pool.threads s.pool.threads after) refl refl
            (rw e refl))
      | inr fresh ↦ takes x (ap not e) (
          contract_ext
            (rw e (same_bag (insert-fresh order x s.pool.queue.elements v.ordered fresh)))
            (same_running (pushed T choice x others s).pool.threads s.pool.threads after) refl refl
            (rw e refl))
    ]
  ]
    where
      after :
          (p : A → Bool)
          → count_running p (pushed T choice x others s).pool.threads
            ≡ count_running p s.pool.threads
      after p = count_running-notified p choice (push before x s.pool.queue).0 s.pool.threads

  cancel-Change : (id : RequestId) (s : System A) → Change T s.now (view s) (view (cancel T id s))
  unfolding cancel cancel_pending_impl put_all items
  cancel-Change id s =
      Spec.cancels id (erase_if (λ t. not (id == request_id t)) s.pool.queue.elements)
        (of_list (erase_if (λ t. id == request_id t) s.pool.queue.elements))
        (same_bag (λ p. omega (
          arith,
          count-append p (erase_if (λ t. not (id == request_id t)) s.pool.queue.elements)
              (erase_if (λ t. id == request_id t) s.pool.queue.elements),
          count-erase_if-not (λ t. id == request_id t) p s.pool.queue.elements,
        )))
        (count-not-erase_if (λ t. id == request_id t) s.pool.queue.elements)
        (count-erase_if_self (λ t. id == request_id t) s.pool.queue.elements)
        (rw (remove_loop-erase_if (λ t. id == request_id t) false s.pool.queue.elements) refl)

  stage_cases :
      (stage : Stage A) → ((x : A) × (stage ≡ running x)) ⊎ ((p : A → Bool) → runs p stage ≡ 0)
  stage_cases (running x) = inl (x, refl)
  stage_cases entering = inr (λ p. refl)
  stage_cases (waiting _ _) = inr (λ p. refl)
  stage_cases (woken _) = inr (λ p. refl)
  stage_cases ended = inr (λ p. refl)

  none_before :
      (x : A) (ys : List A) → All (λ y. before x y ≡ true) ys → count (λ y. before y x) ys ≡ 0
  none_before x [] h = refl
  none_before x (y ∷ ys) h =
      ground (arith, order.irrefl x, order.trans x y x h.0, none_before x ys h.1)

  turn-Change :
      (front : List (Thread A)) (th : Thread A) (back : List (Thread A)) (s : System A)
      → Inv T s
      → s.pool.threads ≡ front ++ th ∷ back
      → wants_mutex th.stage ≡ true
      → Change T s.now (view s) (view (worked T front th back s))
  unfolding worked put_all items
  turn-Change front th back s v at wants = elim (stage_cases stage) [
    | inr quiet_stage ↦ nothing (
        contract_ext (same_bag (λ p. omega (arith, good.kept p, quiet_stage p)))
          (same_running (front ++ record th { stage = stage } ∷ back) s.pool.threads
            (λ p. omega (arith, moved p, runs-wants_mutex p th.stage wants, quiet_stage p)))
          refl refl (ap not (take_turn-closed T s.now th.stage s.pool.queue)))
    | inl (x, e) ↦
        let first = take_turn-first T s.now th.stage s.pool.queue x wants sound v.ordered e in
        begins x (of_list q'.elements) (same_bag (λ p. omega (arith, good.kept p, ap (runs p) e)))
          (none_before x q'.elements first.0) first.1
          (contract_ext refl
            (same_bag (λ p. omega (
              arith,
              count-running_tasks p s.pool.threads,
              count-running_tasks p (front ++ record th { stage = stage } ∷ back),
              moved p,
              runs-wants_mutex p th.stage wants,
              ap (runs p) e,
            )))
            refl refl (ap not (take_turn-closed T s.now th.stage s.pool.queue)))
  ]
    where
      stage : Stage A
      stage = (take_turn T s.now th.stage s.pool.queue).0

      q' : Queue A
      q' = (take_turn T s.now th.stage s.pool.queue).1

      sound : IsSound s.pool.queue th.stage
      sound =
          (All-append_right _ front (th ∷ back)
            (subst (Everywhere (IsSound s.pool.queue)) at v.sound)).0

      good : GoodTurn T s.now s.pool.queue stage q'
      good = take_turn-GoodTurn T s.now th.stage s.pool.queue wants sound

      moved :
          (p : A → Bool)
          → count_running p (front ++ record th { stage = stage } ∷ back) + runs p th.stage
            ≡ count_running p s.pool.threads + runs p stage
      moved p = replace-count T p front th back s.pool.threads stage at

  finish-Change :
      (front : List (Thread A)) (th : Thread A) (back : List (Thread A)) (x : A) (stage : Stage A)
      (s : System A)
      → s.pool.threads ≡ front ++ th ∷ back
      → th.stage ≡ running x
      → stage ≡ entering
      → Change T s.now (view s) (
          view (record s {
            pool = record s.pool { threads = front ++ record th { stage = stage } ∷ back };
            finished = x ∷ s.finished;
          }))
  unfolding put_all
  finish-Change front th back x stage s at runs_x back_in_loop =
      let after = front ++ record th { stage = stage } ∷ back in
      ends x (of_list (running_tasks after))
        (same_bag (λ p. omega (
          arith,
          count-running_tasks p s.pool.threads,
          count-running_tasks p after,
          replace-count T p front th back s.pool.threads stage at,
          ap (runs p) runs_x,
          ap (runs p) back_in_loop,
        )))
        refl

  becomes :
      (s t u : System A)
      → t ≡ u
      → Change T s.now (view s) (view u)
      → Change T s.now (view s) (view t)
  becomes s t u e c = subst (λ w. Change T s.now (view s) (view w)) (sym e) c

  pub Step-Change : {s t : System A} → Step T s t → Inv T s → Change T s.now (view s) (view t)
  unfolding close_queue wake_all wake_thread
  Step-Change {s} {t} (tick _ _ e) v = becomes s t _ e (nothing refl)
  Step-Change {s} {t} (start ids _ e) v = becomes s t _ e (
      quiet T s (record s { pool = (start_impl ids s.pool).1 }) (start-queue ids s.pool)
        (start-count T ids s.pool) refl refl)
  Step-Change {s} {t} (stop _ e) v = becomes s t _ e (
      quiet T s (record s { pool = (clear_started s.pool).1 }) (clear_started-queue s.pool)
        (clear_started-count T s.pool) refl refl)
  Step-Change {s} {t} (destroy _ e) v = becomes s t _ e (nothing refl)
  Step-Change {s} {t} (closes _ e) v = becomes s t _ e (Spec.closes refl)
  Step-Change {s} {t} (notifies _ e) v = becomes s t _ e (
      quiet T s (record s { pool = wake_all s.pool }) refl
        (λ p. count_running-notify_all p s.pool.threads) refl refl)
  Step-Change {s} {t} (joins self us _ all e) v = becomes s t _ e (
      quiet T s (record s { pool = record s.pool { threads = us } }) refl
        (λ p.
          ap (count_running p) (join-some self s.pool.threads us all).0
          ∙ count_running-joined p self s.pool.threads)
        refl refl)
  Step-Change {s} {t} (begin_add _ _ e) v = becomes s t _ e (nothing refl)
  Step-Change {s} {t} (end_add choice front x back _ e) v =
      becomes s t _ e (push-Change choice x (front ++ back) s v)
  Step-Change {s} {t} (cancels id e) v = becomes s t _ e (cancel-Change id s)
  Step-Change {s} {t} (turn front th back at wants e) v =
      becomes s t _ e (turn-Change front th back s v at wants)
  Step-Change {s} {t} (wakes front th back at waits e) v = becomes s t _ e (
      quiet T s (record s { pool = record s.pool { threads = front ++ wake_thread th ∷ back } })
        refl
        (λ p. omega (
          arith,
          replace-count T p front th back s.pool.threads (wake th.stage) at,
          runs-wake p th.stage,
        ))
        refl refl)
  Step-Change {s} {t} (finishes front th back x r stage at runs_x after e) v =
      becomes s t _ e
        (finish-Change front th back x stage s at runs_x (after_run-entering r stage after))

  -- A step takes no time, or lets time pass and does nothing else.
  Step-time :
      {s t : System A} → Step T s t → ((s.now ≤ℤ t.now) × (view t ≡ view s)) ⊎ (t.now ≡ s.now)
  unfolding pushed cancel worked
  Step-time {s} (tick later le e) = inl (rw e (le, refl))
  Step-time (start _ _ e) = inr (ap (λ u. u.now) e)
  Step-time (stop _ e) = inr (ap (λ u. u.now) e)
  Step-time (destroy _ e) = inr (ap (λ u. u.now) e)
  Step-time (closes _ e) = inr (ap (λ u. u.now) e)
  Step-time (notifies _ e) = inr (ap (λ u. u.now) e)
  Step-time (joins _ _ _ _ e) = inr (ap (λ u. u.now) e)
  Step-time (begin_add _ _ e) = inr (ap (λ u. u.now) e)
  Step-time (end_add _ _ _ _ _ e) = inr (ap (λ u. u.now) e)
  Step-time (cancels _ e) = inr (ap (λ u. u.now) e)
  Step-time (turn _ _ _ _ _ e) = inr (ap (λ u. u.now) e)
  Step-time (wakes _ _ _ _ _ e) = inr (ap (λ u. u.now) e)
  Step-time (finishes _ _ _ _ _ _ _ _ _ e) = inr (ap (λ u. u.now) e)

  -- A pool of threads refines the contract of a pool: each state that it can reach, seen as bags
  -- of pending, running, finished and cancelled tasks and whether it accepts more, is one to which
  -- the changes that the contract allows lead from the idle contract, with a clock that starts
  -- where the pool's clock started, only goes forward, and shows at the end what the pool's clock
  -- shows. Tasks are taken while it accepts them, begun when they are due at the time of that
  -- clock and no pending task precedes them, and ended; or all pending ones of a request are
  -- cancelled.
  pub Reach-Changes :
      (n : ℕ) (now : ℤ) {s : System A}
      → Reach T (initial n now) s
      → Changes T now idle_contract s.now (view s)
  unfolding new_pool
  Reach-Changes n now here = none
  Reach-Changes n now {s = t} (next {t = s} r st) =
      let before = Reach-Changes n now r in
      elim (Step-time st) [
        | inl (le, e) ↦ subst (Changes T now idle_contract t.now) (sym e) (passes before le)
        | inr e ↦
            subst (λ k. Changes T now idle_contract k (view t)) (sym e)
              (more before (Step-Change st (Reach-initial-Inv T n now r)))
      ]
