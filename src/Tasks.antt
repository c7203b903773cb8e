-- ===== src/Tasks.antt =====
-- public/uni/tasks/: a task is a callee with its arguments, a due time, two identifiers and the
-- promise of its result. `TaskBaseImpl` and the two classes derived from it are one record.
pub mod Time
pub mod Virtual
pub mod Run
pub mod Compare
pub mod Life
use uni_tasks.Prelude.{ltb, ℕ, Bool, true, false, List, map, if◌then◌else◌}
use uni_tasks.Prelude.Int.{ℤ, pos, ◌+ℤ◌, ◌-ℤ◌, scale, quot, ltb_ℤ, eqb_ℤ}
use uni_tasks.Errors.{
  Exception, promise_already_satisfied, future_already_retrieved, foreign, Result, ok, throw,
}
use uni_tasks.Ids.{RequestId, SequenceId, Counters, create_sequence_id}

-- Objects, functions, member functions and arguments of the code that uses the library are known
-- by numbers; `raw` is an `Object*`, `shared` a `std::shared_ptr< Object >`.
pub data Pointer : Type 0 where
  raw : ℕ → Pointer
  shared : ℕ → Pointer

-- `TaskImpl` holds a function object, `MemberFnTaskImpl` an object and a member function of it.
pub data Callee : Type 0 where
  function : (f : ℕ) (args : List ℕ) → Callee
  member_function : (object : Pointer) (f : ℕ) (args : List ℕ) → Callee

-- `std::promise< void >`: its result, and whether its future was handed out.
pub data Promised : Type 0 where
  nothing_yet : Promised
  value : Promised
  exception : Exception → Promised

-- Points and spans of `std::chrono::steady_clock` are counted in its ticks, nanoseconds.
abbrev pub ticks_per_ms : ℕ
ticks_per_ms = 1_000_000

pub record Task : Type 0 where
  pub callee : Callee
  pub due : ℤ
  pub request : RequestId
  pub sequence : SequenceId
  pub promised : Promised
  pub future_taken : Bool

-- The constructors: `now` is what the clock says at that moment.
unfoldable pub new_task : ℤ → Callee → Counters → Task × Counters
new_task now callee c =
    let (id, c') = create_sequence_id c in
    (
      record {
        callee = callee;
        due = now;
        request = 0;
        sequence = id;
        promised = nothing_yet;
        future_taken = false;
      },
      c',
    )

unfoldable pub request_id_impl : Task → RequestId
request_id_impl t = t.request

unfoldable pub set_request_id_impl : RequestId → Task → Task
set_request_id_impl id t = record t { request = id }

unfoldable pub sequence_id_impl : Task → SequenceId
sequence_id_impl t = t.sequence

-- `duration_cast< milliseconds >` rounds towards zero.
abbrev pub to_ms : ℤ → ℤ
to_ms span = quot span ticks_per_ms

unfoldable pub set_due_time_impl : (now delay : ℤ) → Task → Task
set_due_time_impl now delay t = record t { due = now +ℤ scale ticks_per_ms delay }

unfoldable pub due_time_impl : Task → ℤ
due_time_impl t = to_ms t.due

unfoldable pub delay_impl : ℤ → Task → ℤ
delay_impl now t =
    let diff_ms = to_ms (t.due -ℤ now) in if ltb_ℤ diff_ms (pos 0) then pos 0 else diff_ms

-- `std::promise::set_value` and `set_exception`: a second result is refused.
unfoldable pub satisfy : Promised → Promised → Result Promised
satisfy nothing_yet r = ok r
satisfy _ r = throw promise_already_satisfied

unfoldable pub get_future_impl : Task → Result (Unit {0}) × Task
get_future_impl t =
    if t.future_taken
    then (throw future_already_retrieved, t)
    else (ok tt, record t { future_taken = true })

-- The handler of `run_impl`: the promise takes the exception, which goes on; if the promise refuses
-- it, the refusal goes on in its place.
fail_with : Exception → Task → Result (Unit {0}) × Task
unfolding satisfy
fail_with e t = elim (satisfy t.promised (exception e)) [
  | ok p ↦ (throw e, record t { promised = p })
  | throw refusal ↦ (throw refusal, t)
]

-- What `run_impl` does once the callee has returned or thrown. The handler takes what is derived
-- from `std::exception`: all but `foreign`.
unfoldable pub finish : Result (Unit {0}) → Task → Result (Unit {0}) × Task
unfolding fail_with satisfy
finish (ok _) t = elim (satisfy t.promised value) [
  | ok p ↦ (ok tt, record t { promised = p })
  | throw refusal ↦ fail_with refusal t
]
finish (throw (foreign n)) t = (throw (foreign n), t)
finish (throw e) t = fail_with e t

-- How an argument reaches a function: as an object that stays with the caller, or as one that may
-- be moved from.
pub data Passed : Type 0 where
  lvalue : ℕ → Passed
  rvalue : ℕ → Passed

-- A call of a function object or of a member function on an object.
pub data Invocation : Type 0 where
  of_function : (f : ℕ) (args : List Passed) → Invocation
  of_member : (object : Pointer) (f : ℕ) (args : List Passed) → Invocation

-- `utils::apply`: the elements of the tuple are lvalues.
unfoldable pub apply : ℕ → List ℕ → Invocation
apply f args = of_function f (map lvalue args)

-- `call_impl` of `TaskImpl`.
abbrev pub call_function : ℕ → List ℕ → Invocation
unfolding apply
call_function f args = apply f args

-- `call_impl` of the two templates `MemberFnTaskImpl`: the arguments are forwarded as rvalues.
abbrev pub call_member_function : (object f : ℕ) → List ℕ → Invocation
call_member_function object f args = of_member (raw object) f (map rvalue args)

abbrev pub call_shared_member_function : (object f : ℕ) → List ℕ → Invocation
call_shared_member_function object f args = of_member (shared object) f (map rvalue args)

-- `call_impl`, which is virtual: the class follows from the callee.
unfoldable pub call_impl : Callee → Invocation
call_impl (function f args) = call_function f args
call_impl (member_function (raw object) f args) = call_member_function object f args
call_impl (member_function (shared object) f args) = call_shared_member_function object f args

-- The callee with what a call has left of its arguments.
abbrev pub with_arguments : List ℕ → Callee → Callee
with_arguments args (function f _) = function f args
with_arguments args (member_function object f _) = member_function object f args

-- `call` stands for the code behind the callee: its effect on the arguments that the task holds,
-- and on the rest of the program, `W`.
module _ {ℓ} {W : Type ℓ} (call : Invocation → W → Result (Unit {0}) × List ℕ × W) where
  unfoldable pub run_impl : Task → W → Result (Unit {0}) × Task × W
  unfolding finish call_impl
  run_impl t w =
      let (outcome, args, w') = call (call_impl t.callee) w in
      let (result, t') = finish outcome (record t { callee = with_arguments args t.callee }) in
      (result, t', w')

-- `TaskPtrCmp` and `TaskCmp` of TaskComparators.hpp.
unfoldable pub task_before : Task → Task → Bool
unfolding due_time_impl sequence_id_impl
task_before lhs rhs =
    if eqb_ℤ (due_time_impl lhs) (due_time_impl rhs)
    then ltb (sequence_id_impl lhs) (sequence_id_impl rhs)
    else ltb_ℤ (due_time_impl lhs) (due_time_impl rhs)

-- `get_task_delay` of details/TaskUtils.hpp, for a task held by value or by `std::unique_ptr`.
unfoldable pub get_task_delay : ℤ → Task → ℤ
unfolding delay_impl
get_task_delay now t = delay_impl now t
