-- ===== src/Tasks/Compare.antt =====
-- TaskComparators.hpp: the comparator, by due time and then by sequence number.
use uni_tasks.Prelude.{◌≡◌, true, false, ◌⊎◌, arith}
use uni_tasks.Order.{StrictWeakOrder}
use uni_tasks.Tasks.{Task, task_before}

-- The comparator of tasks, by due time and then by sequence number, is a strict weak order, as
-- `std::set` asks.
pub task_before-StrictWeakOrder : StrictWeakOrder task_before
task_before-StrictWeakOrder = record { irrefl = λ a. irrefl a; trans = trans; split = split }
  where
    irrefl : (a : Task) → task_before a a ≡ false
    irrefl a = unfold task_before in ground arith

    trans :
        (a b c : Task) → task_before a b ≡ true → task_before b c ≡ true → task_before a c ≡ true
    trans a b c h k = unfold task_before in ground arith

    split :
        (a b c : Task)
        → task_before a c ≡ true
        → (task_before a b ≡ true) ⊎ (task_before b c ≡ true)
    split a b c h = unfold task_before in ground arith
