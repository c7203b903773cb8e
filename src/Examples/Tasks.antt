-- ===== src/Examples/Tasks.antt =====
-- TaskBaseImpl, TaskFactory and Utils.cpp: tasks that are made, timed and run.
use uni_tasks.Prelude.{
  if◌then◌else◌, any, ◌≢◌, map, ◌≤◌, count, arith, ℕ, List, some, none, ◌⊎◌, ◌+◌, ◌-◌, ◌/◌, ◌≡◌,
  refl, ◌↔◌, [], ◌∷◌,
}
use uni_tasks.Prelude.Int.{pos, ◌+ℤ◌, ◌-ℤ◌, scale, ◌≤ℤ◌, ◌<ℤ◌}
use uni_tasks.Factory.{Creation, by_value, by_pointer, create_all}
use uni_tasks.Factory.Session.{named_callee, numbered, create_all_lem}
use uni_tasks.OrderedSet.{equivalent}
use uni_tasks.Ids.{fresh_counters}
use uni_tasks.Ids.Distinct.{request, sequence, create_id, after, ids_distinct}
use uni_tasks.Errors.{Result, throw, task_error, broken_promise, foreign}
use uni_tasks.Tasks.{
  Invocation, Task, member_function, nothing_yet, raw, task_before, shared, exception,
  set_due_time_impl, delay_impl, ticks_per_ms,
}
use uni_tasks.Tasks.Time.{delay-le-zero_iff, delay-set_due_time, Fits, set_due_time-Fits}
use uni_tasks.Tasks.Life.{
  Event, runs, sets_request_id, sets_due_time, gets_future, destroyed, settle, settles, happen_all,
  outcomes, futures,
}
use uni_tasks.Tasks.Life.Futures.{happen_all_lem}
use uni_tasks.Factory.{method, member, const_member}
use uni_tasks.Pool.{entering}
use uni_tasks.Pool.Running.{run_task, run_task_lem}
use uni_tasks.Examples.{early, middle}

-- A callee that counts its calls, moves from its arguments and throws.
abbrev failing : Invocation → ℕ → Result (Unit {0}) × List ℕ × ℕ
failing invocation calls = (throw (task_error 5), [], calls + 1)

abbrev method_call : Task
method_call = record early { callee = member_function (shared 8) 9 (1 ∷ 2 ∷ []) }

run_task_lem_example :
    ((run_task failing method_call 0).2 ≡ 1)
    × (((n : ℕ) × (◌≡◌ {A = Result (Unit {0})} (throw (task_error 5)) (throw (foreign n)))
          × ((run_task failing method_call 0).0 ≡ none))
        ⊎ ((run_task failing method_call 0).0 ≡ some entering))
run_task_lem_example = run_task_lem failing method_call 0

abbrev events : List Event
events =
    sets_request_id 4 ∷ gets_future ∷ runs ∷ sets_due_time (pos 3) (pos 9) ∷ runs ∷ gets_future ∷ []

happen_all_lem_example :
    ((happen_all failing events method_call 0).0.promised
      ≡ settle nothing_yet (outcomes failing events method_call 0))
    × (destroyed (happen_all failing events method_call 0).0.promised ≡ (
        if any settles (outcomes failing events method_call 0)
        then settle nothing_yet (outcomes failing events method_call 0)
        else exception broken_promise))
    × (futures failing events method_call 0 ≡ 1)
    × ((happen_all failing events method_call 0).0.sequence ≡ 1)
happen_all_lem_example = happen_all_lem failing events method_call 0 refl refl

delay-le-zero_iff_example :
    (delay_impl (pos 4_000_001) middle ≤ℤ pos 0)
    ↔ (pos 5_000_000 <ℤ pos 4_000_001 +ℤ pos ticks_per_ms)
delay-le-zero_iff_example = delay-le-zero_iff (pos 4_000_001) middle

delay-set_due_time_example :
    delay_impl (pos 5 +ℤ pos 3_000_001) (set_due_time_impl (pos 5) (pos 20) early)
    ≡ pos (20 - (3_000_001 + (ticks_per_ms - 1)) / ticks_per_ms)
delay-set_due_time_example = delay-set_due_time (pos 5) 3_000_001 20 early

set_due_time-Fits_example :
    Fits (scale ticks_per_ms (pos 20))
    × Fits (set_due_time_impl (pos 5) (pos 20) early).due
    × Fits ((set_due_time_impl (pos 5) (pos 20) early).due -ℤ pos 9)
set_due_time-Fits_example = set_due_time-Fits 5 9 20 early (omega arith) (omega arith) (omega arith)

-- Two calls, one of each factory function.
abbrev creations : List Creation
creations =
    by_value (pos 3) (method (shared 8) (member 9)) (1 ∷ [])
    ∷ by_pointer (pos 3) (method (raw 8) (const_member 9)) []
    ∷ []

create_all_lem_example :
    (map (λ t. t.callee) (create_all creations fresh_counters).0 ≡ map named_callee creations)
    × ((m : ℕ) → numbered m (create_all creations fresh_counters).0 ≤ 1)
    × ((x : Task) → count (equivalent task_before x) (create_all creations fresh_counters).0 ≤ 1)
create_all_lem_example = create_all_lem creations fresh_counters (omega arith)

ids_distinct_example :
    (create_id request (after (sequence ∷ request ∷ []) (create_id request fresh_counters).1)).0
    ≢ (create_id request fresh_counters).0
ids_distinct_example = ids_distinct request (sequence ∷ request ∷ []) fresh_counters (omega arith)
