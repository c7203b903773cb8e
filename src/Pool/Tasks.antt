-- ===== src/Pool/Tasks.antt =====
-- `ThreadPool< std::unique_ptr< ITask >, TaskPtrCmp >`, the pool of the dispatcher.
use uni_tasks.Tasks.{Task, task_before, request_id_impl, get_task_delay}
use uni_tasks.Tasks.Compare.{task_before-StrictWeakOrder}
use uni_tasks.Pool.{TaskType}

abbrev pub task_type : TaskType Task
task_type = record {
  before = task_before;
  order = task_before-StrictWeakOrder;
  request_id = request_id_impl;
  delay = get_task_delay;
}
