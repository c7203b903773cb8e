-- ===== src/Pool/System/Invariant.antt =====
-- ThreadPoolImpl.hpp: the invariant of a pool over the steps of its clients and workers.
use uni_tasks.Prelude.{
  ℕ, ◌≡◌, sym, subst, true, false, not, ◌==◌, some, List, ◌∷◌, ◌++◌, All-append_right, count-append,
  inl, inr, Bool-cases, arith,
}
use uni_tasks.Prelude.Int.{ℤ}
use uni_tasks.Ids.{RequestId}
use uni_tasks.Errors.{Result}
use uni_tasks.OrderedSet.{erase_if}
use uni_tasks.OrderedSet.Sorted.{erase_if-IsSorted}
use uni_tasks.OrderedSet.Contents.{count-insert, count-erase_if-not}
use uni_tasks.Queue.Ordered.Push.{push-IsOrdered}
use uni_tasks.Queue.Ordered.Remove.{remove_loop-erase_if}
use uni_tasks.Pool.{
  TaskType, wants_mutex, Stage, running, wake, wake_thread, Thread, push_task, close_queue,
  wake_all, cancel_pending_impl, after_run,
}
use uni_tasks.Pool.System.{
  System, initial, pushed, cancel, worked, Step, tick, start, stop, destroy, closes, notifies,
  joins, begin_add, end_add, cancels, turn, wakes, finishes, Reach, here, next,
}
use uni_tasks.Pool.System.Stages.{
  wake-IsSound, runs-wake, runs-wants_mutex, notified-Everywhere, count_running-notify_one,
}
use uni_tasks.Pool.System.Turn.{Follows-refl, push-Follows, erase_if-Follows, take_turn-GoodTurn}
use uni_tasks.Pool.System.Parts.{
  Holds, Inv, initial-Inv, follow, start-Holds, clear_started-Holds, close_queue-Holds,
  wake_all-Holds, joined-Holds, replace-Holds, after_run-entering,
}

module _ {ℓ} {A : Type ℓ} (T : TaskType A) where
  open T use {before, order, request_id}

  end_add-Inv :
      (choice : ℕ) (x : A) (others : List A) (s : System A)
      → Inv T s
      → Inv T (pushed T choice x others s)
  unfolding pushed push_task
  end_add-Inv choice x others s v = record {
    ordered = push-IsOrdered order x s.pool.queue v.ordered;
    sound =
        follow T s.pool.queue _ (push-Follows before x s.pool.queue) _
          (notified-Everywhere _ (wake-IsSound s.pool.queue) choice _ s.pool.threads v.sound);
    kept = λ p. elim (Bool-cases s.pool.queue.closed) [
      | inl e ↦ rw e (v.kept p)
      | inr e ↦ rw e (
          ground (
            arith,
            v.kept p,
            count-insert order p x s.pool.queue.elements v.ordered,
            count_running-notify_one p choice s.pool.threads,
          ))
    ];
  }

  cancel-Inv : (id : RequestId) (s : System A) → Inv T s → Inv T (cancel T id s)
  unfolding cancel cancel_pending_impl
  cancel-Inv id s v =
      rw (remove_loop-erase_if (λ t. id == request_id t) false s.pool.queue.elements) (record {
        ordered = erase_if-IsSorted before _ s.pool.queue.elements v.ordered;
        sound =
            follow T s.pool.queue _ (erase_if-Follows _ s.pool.queue.elements s.pool.queue.closed)
              s.pool.threads v.sound;
        kept = λ p. omega (
          arith,
          v.kept p,
          count-erase_if-not (λ t. id == request_id t) p s.pool.queue.elements,
          count-append p (erase_if (λ t. not (id == request_id t)) s.pool.queue.elements)
              s.cancelled,
        );
      })

  turn-Inv :
      (front : List (Thread A)) (th : Thread A) (back : List (Thread A)) (s : System A)
      → s.pool.threads ≡ front ++ th ∷ back
      → wants_mutex th.stage ≡ true
      → Inv T s
      → Inv T (worked T front th back s)
  unfolding worked
  turn-Inv front th back s at wants v =
      let held =
        subst (λ ths. Holds T s.pool.queue ths s.accepted s.finished s.cancelled s.dropped) at v in
      let good =
        take_turn-GoodTurn T s.now th.stage s.pool.queue wants
          (All-append_right _ front (th ∷ back) held.sound).0 in
      replace-Holds T s.pool.queue _ front th back _ good.follows (good.sorted v.ordered) good.sound
        held (λ p. omega (arith, good.kept p, runs-wants_mutex p th.stage wants))

  wake-Inv :
      (front : List (Thread A)) (th : Thread A) (back : List (Thread A)) (s : System A)
      → s.pool.threads ≡ front ++ th ∷ back
      → Inv T s
      → Holds T s.pool.queue
          (front ++ wake_thread th ∷ back)
          s.accepted
          s.finished
          s.cancelled
          s.dropped
  unfolding wake_thread
  wake-Inv front th back s at v =
      let held =
        subst (λ ths. Holds T s.pool.queue ths s.accepted s.finished s.cancelled s.dropped) at v in
      replace-Holds T s.pool.queue s.pool.queue front th back (wake th.stage)
        (Follows-refl s.pool.queue) v.ordered
        (wake-IsSound s.pool.queue th.stage (All-append_right _ front (th ∷ back) held.sound).0)
        held (λ p. omega (arith, runs-wake p th.stage))

  finish-Inv :
      (front : List (Thread A)) (th : Thread A) (back : List (Thread A)) (x : A)
      (r : Result (Unit {0})) (stage : Stage A) (s : System A)
      → s.pool.threads ≡ front ++ th ∷ back
      → th.stage ≡ running x
      → after_run r ≡ some stage
      → Inv T s
      → Holds T s.pool.queue
          (front ++ record th { stage = stage } ∷ back)
          s.accepted
          (x ∷ s.finished)
          s.cancelled
          s.dropped
  finish-Inv front th back x r stage s at runs_x after v =
      let held =
        subst (λ ths. Holds T s.pool.queue ths s.accepted s.finished s.cancelled s.dropped) at v in
      replace-Holds T s.pool.queue s.pool.queue front th back stage (Follows-refl s.pool.queue)
        v.ordered (rw (after_run-entering r stage after) tt) held
        (λ p. rw (runs_x, after_run-entering r stage after) (omega arith))

  pub Step-Inv : {s t : System A} → Step T s t → Inv T s → Inv T t
  unfolding close_queue wake_all
  Step-Inv (tick later le e) v = subst (Inv T) (sym e) v
  Step-Inv {s} (start ids _ e) v = subst (Inv T) (sym e) (start-Holds T ids s.pool v)
  Step-Inv {s} (stop _ e) v = subst (Inv T) (sym e) (clear_started-Holds T s.pool v)
  Step-Inv (destroy _ e) v = subst (Inv T) (sym e) v
  Step-Inv {s} (closes _ e) v = subst (Inv T) (sym e) (close_queue-Holds T s.pool v)
  Step-Inv {s} (notifies _ e) v = subst (Inv T) (sym e) (wake_all-Holds T s.pool v)
  Step-Inv {s} (joins self ths _ all e) v =
      subst (Inv T) (sym e) (joined-Holds T self s.pool.queue s.pool.threads ths all v)
  Step-Inv (begin_add x _ e) v = subst (Inv T) (sym e) v
  Step-Inv {s} (end_add choice front x back _ e) v =
      subst (Inv T) (sym e) (end_add-Inv choice x _ s v)
  Step-Inv {s} (cancels id e) v = subst (Inv T) (sym e) (cancel-Inv id s v)
  Step-Inv {s} (turn front th back at wants e) v =
      subst (Inv T) (sym e) (turn-Inv front th back s at wants v)
  Step-Inv {s} (wakes front th back at _ e) v =
      subst (Inv T) (sym e) (wake-Inv front th back s at v)
  Step-Inv {s} (finishes front th back x r stage at runs_x after e) v =
      subst (Inv T) (sym e) (finish-Inv front th back x r stage s at runs_x after v)

  pub Reach-Inv : {s t : System A} → Reach T s t → Inv T s → Inv T t
  Reach-Inv here v = v
  Reach-Inv (next r st) v = Step-Inv st (Reach-Inv r v)

  -- In each state that a pool can reach, whatever its clients and workers do, the queue is in
  -- order, a worker that has ended or waits in the second loop of `wait_pop` has the queue closed
  -- (and empty, if it has ended), and each task that was taken is exactly once pending, running,
  -- finished, cancelled or dropped.
  pub Reach-initial-Inv : (n : ℕ) (now : ℤ) {s : System A} → Reach T (initial n now) s → Inv T s
  Reach-initial-Inv n now r = Reach-Inv r (initial-Inv T n now)
