-- ===== src/Tasks/Time.antt =====
-- TaskBaseImpl.cpp: due times and delays.
use uni_tasks.Prelude.{ℕ, ◌+◌, ◌-◌, ◌*◌, ◌/◌, ◌^◌, ◌≤◌, ◌<◌, ◌≡◌, ◌↔◌, arith}
use uni_tasks.Prelude.Int.{
  ℤ, pos, pos_part, neg_part, ◌+ℤ◌, ◌-ℤ◌, scale, ◌≤ℤ◌, ◌<ℤ◌, quot, +ℤ_parts, -ℤ_parts,
}
use uni_tasks.Tasks.{Task, ticks_per_ms, delay_impl, set_due_time_impl}

-- The delay of a task is not positive exactly if its due time is less than one millisecond ahead.
pub delay-le-zero_iff :
    (now : ℤ) (t : Task) → (delay_impl now t ≤ℤ pos 0) ↔ (t.due <ℤ now +ℤ pos ticks_per_ms)
unfolding delay_impl quot
delay-le-zero_iff now t = ground (arith, -ℤ_parts t.due now, +ℤ_parts now (pos ticks_per_ms))

-- After `set_due_time` with a delay of zero or more milliseconds, the delay that the task reports
-- counts down: some nanoseconds later it is what was set, less the elapsed milliseconds, rounded
-- up, and not less than zero.
pub delay-set_due_time :
    (now : ℤ) (elapsed ms : ℕ) (t : Task)
    → delay_impl (now +ℤ pos elapsed) (set_due_time_impl now (pos ms) t)
      ≡ pos (ms - (elapsed + (ticks_per_ms - 1)) / ticks_per_ms)
unfolding delay_impl set_due_time_impl quot scale ◌+ℤ◌ ◌-ℤ◌
delay-set_due_time now elapsed ms t =
    ground (arith, +ℤ_parts now (pos elapsed), +ℤ_parts now (scale ticks_per_ms (pos ms)))

-- An `int64_t` has room for the integer.
abbrev pub Fits : ℤ → Type 0
Fits a = (pos_part a < 2 ^ 63) × (neg_part a ≤ 2 ^ 63)

-- If two points of time and a delay are not negative and below 2^62 nanoseconds, then the delay in
-- nanoseconds, the due time that `set_due_time` computes at the first point, and its distance from
-- the second point fit into an `int64_t`.
pub set_due_time-Fits :
    (now later ms : ℕ) (t : Task)
    → now < 2 ^ 62
    → later < 2 ^ 62
    → ticks_per_ms * ms < 2 ^ 62
    → Fits (scale ticks_per_ms (pos ms))
      × Fits (set_due_time_impl (pos now) (pos ms) t).due
      × Fits ((set_due_time_impl (pos now) (pos ms) t).due -ℤ pos later)
unfolding set_due_time_impl scale ◌+ℤ◌ ◌-ℤ◌
set_due_time-Fits now later ms t h k l = ground arith
