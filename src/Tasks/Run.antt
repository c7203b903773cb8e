-- ===== src/Tasks/Run.antt =====
-- TaskBaseImpl::run_impl: what the caller and the holder of the future learn of a run.
use uni_tasks.Prelude.{ℕ, List, ◌≡◌, ◌≢◌, arith}
use uni_tasks.Errors.{Exception, promise_already_satisfied, foreign, Result, ok, throw}
use uni_tasks.Tasks.{
  Invocation, call_impl, with_arguments, Task, Promised, nothing_yet, value, exception, finish,
  run_impl,
}

-- What a first run leaves in the promise.
abbrev pub promised_by : Result (Unit {0}) → Promised
promised_by (ok _) = value
promised_by (throw (foreign _)) = nothing_yet
promised_by (throw e) = exception e

-- What a run of a task that has its result throws, whatever its callee does.
abbrev pub refused_by : Result (Unit {0}) → Exception
refused_by (throw (foreign n)) = foreign n
refused_by _ = promise_already_satisfied

finish-fresh :
    (r : Result (Unit {0})) (t : Task)
    → t.promised ≡ nothing_yet
    → finish r t ≡ (r, record t { promised = promised_by r })
unfolding finish
finish-fresh (ok tt) t h = ground arith
finish-fresh (throw (foreign n)) t h = ground arith
finish-fresh (throw _) t h = ground arith

finish-settled :
    (r : Result (Unit {0})) (t : Task)
    → t.promised ≢ nothing_yet
    → finish r t ≡ (throw (refused_by r), t)
unfolding finish
finish-settled (ok tt) t h = ground arith
finish-settled (throw (foreign n)) t h = ground arith
finish-settled (throw _) t h = ground arith

module _ {ℓ} {W : Type ℓ} (call : Invocation → W → Result (Unit {0}) × List ℕ × W) where
  -- If the promise of a task holds nothing, a run calls the callee once, lets its result or
  -- exception through, and puts the same into the promise, but for an exception that is no
  -- `std::exception`: then the promise still holds nothing. The task keeps what the call has left
  -- of the arguments.
  pub run_impl-fresh :
      (t : Task) (w : W)
      → t.promised ≡ nothing_yet
      → run_impl call t w ≡ (
        (call (call_impl t.callee) w).0,
        record t {
          callee = with_arguments (call (call_impl t.callee) w).1 t.callee;
          promised = promised_by (call (call_impl t.callee) w).0;
        },
        (call (call_impl t.callee) w).2,
      )
  unfolding run_impl
  run_impl-fresh t w h = rw (
      finish-fresh (call (call_impl t.callee) w).0
        (record t { callee = with_arguments (call (call_impl t.callee) w).1 t.callee }) h)

  -- If the promise of a task holds a result or an exception, a run calls the callee again, throws
  -- that the promise is already satisfied, or what the callee threw if that is no
  -- `std::exception`, and leaves the promise as it is. The task keeps what the call has left of
  -- the arguments.
  pub run_impl-settled :
      (t : Task) (w : W)
      → t.promised ≢ nothing_yet
      → run_impl call t w ≡ (
        throw (refused_by (call (call_impl t.callee) w).0),
        record t { callee = with_arguments (call (call_impl t.callee) w).1 t.callee },
        (call (call_impl t.callee) w).2,
      )
  unfolding run_impl
  run_impl-settled t w h = rw (
      finish-settled (call (call_impl t.callee) w).0
        (record t { callee = with_arguments (call (call_impl t.callee) w).1 t.callee }) h)
