-- ===== src/Examples/Chains.antt =====
-- PollEngineImpl: the rounds of a poll engine on a pool with one worker.
use uni_tasks.Prelude.{ℕ, ◌+◌, ◌≡◌, refl, true, false, Option, some, [], ◌∷◌, count, arith}
use uni_tasks.Prelude.Int.{pos, ◌+ℤ◌, ◌-ℤ◌, quot, scale}
use mathlib.Core.Option
use uni_tasks.Ids.{create_sequence_id}
use uni_tasks.Errors.{Call, ok}
use uni_tasks.Tasks.{
  Task, member_function, raw, nothing_yet, set_due_time_impl, task_before, request_id_impl,
  get_task_delay,
}
use uni_tasks.Pool.{Pool, entering, take_turn, add_task_impl}
use uni_tasks.Dispatcher.{find, make_task, new_request_id}
use uni_tasks.TaskDispatcherBasic
use uni_tasks.Poll.{State, start_impl, stop_impl, poll_impl, call_back}
use uni_tasks.Poll.Pending.{is_poll, HasPolls}
use uni_tasks.Poll.Chain.{
  Spares, Takes, Chain, started, taken, polled, Chain-HasPolls, Chain-stop_impl,
}
use uni_tasks.Examples.{pool_of, thread_at}

abbrev idle_pool : Pool Task
idle_pool = pool_of [] false true (thread_at 4 entering ∷ [])

abbrev before_start : State ℕ
before_start = record {
  engine = record {
    pool_name = "main";
    interval = pos 0;
    running = false;
    callback = some 3;
    request_id = 0;
  };
  runtime = record {
    dispatcher = record {
      pools = ("main", idle_pool) ∷ [];
      counters = record { request = 6; sequence = 6 };
    };
  };
  world = 0;
}

-- The callback counts its calls.
abbrev counting : ℕ → Call (State ℕ) (Unit {0})
counting f s = (ok tt, record s { world = s.world + 1 })

abbrev after_start : State ℕ
after_start = (start_impl 1 2 0 (pos 0) before_start).1

-- How many polls wait in the pool.
abbrev pending : State ℕ → Option ℕ
pending s =
    Option.map (λ p. count (is_poll 1 2) p.queue.elements) (find "main" s.runtime.dispatcher.pools)

one_start : pending after_start ≡ some 1
unfolding find start_impl make_task new_request_id TaskDispatcherBasic.dispatch_request
    add_task_impl set_due_time_impl
one_start = refl

-- Nothing keeps a client from a second `start`: there are then two chains of polls, and `stop` cancels
-- the poll of the last one only.
two_starts :
    (pending (start_impl 1 2 0 (pos 0) after_start).1 ≡ some 2)
    × (pending (stop_impl (start_impl 1 2 0 (pos 0) after_start).1).1 ≡ some 1)
unfolding find start_impl make_task new_request_id TaskDispatcherBasic.dispatch_request
    add_task_impl set_due_time_impl stop_impl task_before quot ◌+ℤ◌ scale create_sequence_id
    request_id_impl
two_starts = (refl, refl)

abbrev first_poll : Task
first_poll = record {
  callee = member_function (raw 1) 2 [];
  due = pos 0;
  request = 7;
  sequence = 7;
  promised = nothing_yet;
  future_taken = false;
}

-- The worker runs the poll.
abbrev during_poll : State ℕ
during_poll = record after_start {
  runtime = record {
    dispatcher = record after_start.runtime.dispatcher { pools = ("main", idle_pool) ∷ [] };
  };
}

after_start-Takes : Takes 1 2 counting after_start during_poll
unfolding find start_impl make_task new_request_id TaskDispatcherBasic.dispatch_request
    add_task_impl set_due_time_impl ◌+ℤ◌ create_sequence_id scale take_turn get_task_delay quot ◌-ℤ◌
after_start-Takes = record {
  before = pool_of (first_poll ∷ []) false true (thread_at 4 entering ∷ []);
  after = idle_pool;
  found = refl;
  now = pos 0;
  stage = entering;
  wants = refl;
  sound = tt;
  task = first_poll;
  is = refl;
  turn = refl;
  engine = refl;
  left = refl;
}

abbrev after_poll : State ℕ
after_poll = (poll_impl 1 2 counting 4 0 (pos 0) during_poll).1

during_poll-Spares :
    Spares 1 2 counting during_poll
      (call_back 1 2 counting during_poll.engine.callback during_poll).1
unfolding start_impl make_task new_request_id
during_poll-Spares = record { name = refl; id = refl; spared = λ p h. (p, h, λ k. k, λ f k. refl) }

after_poll-Chain : Chain 1 2 counting before_start false after_poll
after_poll-Chain =
    polled 4 0 (pos 0) (taken (started 0 (pos 0)) after_start-Takes) during_poll-Spares

no_polls : HasPolls 1 2 0 before_start
unfolding find
no_polls = record {
  pool = idle_pool;
  found = refl;
  sorted = tt;
  few = omega arith;
  known = omega arith;
}

Chain-HasPolls_example : HasPolls 1 2 1 after_poll
Chain-HasPolls_example =
    Chain-HasPolls 1 2 counting before_start false after_poll no_polls after_poll-Chain

Chain-stop_impl_example :
    ((stop_impl after_poll).1.engine.running ≡ false) × HasPolls 1 2 0 (stop_impl after_poll).1
Chain-stop_impl_example =
    Chain-stop_impl 1 2 counting before_start false after_poll no_polls after_poll-Chain
