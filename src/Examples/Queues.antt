-- ===== src/Examples/Queues.antt =====
-- Queue.hpp: the two queues on concrete elements.
use uni_tasks.Prelude.{◌==◌, ◌≡◌, refl, true, false, [], ◌∷◌, any}
use uni_tasks.Prelude.Int.{pos, quot}
use uni_tasks.Errors.{ok}
use uni_tasks.Tasks.{task_before, get_task_delay}
use uni_tasks.Tasks.Compare.{task_before-StrictWeakOrder}
use uni_tasks.Queue.Ordered.{push, wait_pop, IsOrdered}
use uni_tasks.Queue.Ordered.Push.{push-IsOrdered}
use uni_tasks.Queue.Ordered.WaitPop.{PopsRight, wait_pop-PopsRight}
use uni_tasks.Queue.Deque
use uni_tasks.Queue.Deque.Fifo.{remove_reports_false}
use uni_tasks.Examples.{early, middle, late, queue_of}

wait_pop-PopsRight_example :
    PopsRight
      (get_task_delay (pos 0))
      (queue_of (middle ∷ late ∷ []) true)
      (wait_pop (get_task_delay (pos 0)) (queue_of (middle ∷ late ∷ []) true))
wait_pop-PopsRight_example =
    wait_pop-PopsRight (get_task_delay (pos 0)) (queue_of (middle ∷ late ∷ []) true)

push-IsOrdered_example :
    IsOrdered task_before (push task_before middle (queue_of (early ∷ late ∷ []) false)).1
unfolding task_before quot
push-IsOrdered_example =
    push-IsOrdered task_before-StrictWeakOrder middle (queue_of (early ∷ late ∷ []) false)
      ((refl, tt), (tt, tt))

remove_reports_false_example :
    ((Deque.remove (λ x. x == 1) (record { elements = 3 ∷ 1 ∷ []; closed = false })).0 ≡ false)
    × (any
          (λ x. x == 1)
          (Deque.remove (λ x. x == 1) (record { elements = 3 ∷ 1 ∷ []; closed = false })).1.elements
        ≡ false)
remove_reports_false_example =
    remove_reports_false (λ x. x == 1) (record { elements = 3 ∷ 1 ∷ []; closed = false }) refl

-- An insertion between two elements.
push-middle :
    push task_before middle (queue_of (early ∷ late ∷ []) false)
    ≡ (ok tt, queue_of (early ∷ middle ∷ late ∷ []) false)
unfolding push task_before quot
push-middle = refl
