-- ===== src/Pool/System/Futures.antt =====
-- ThreadPoolImpl.hpp with TaskBaseImpl.cpp: what the futures of the tasks that a pool took tell.
use uni_tasks.Prelude.{
  ℕ, ◌+◌, ◌≡◌, ◌≢◌, refl, ap, Bool, true, false, some, none, List, [], ◌∷◌, ◌⊎◌, inl, inr, All,
  count, arith,
}
use uni_tasks.Errors.{Result, ok, throw, foreign, broken_promise}
use uni_tasks.Tasks.{Invocation, call_impl, Task, nothing_yet, exception}
use uni_tasks.Tasks.Run.{promised_by, run_impl-fresh}
use uni_tasks.Tasks.Life.{destroyed}
use uni_tasks.Tasks.Virtual.{run-run_impl}
use uni_tasks.Pool.{entering, after_run}
use uni_tasks.Pool.Running.{run_task}
use uni_tasks.Pool.System.{System}

-- The promise of the task holds something.
abbrev has_result : Task → Bool
has_result t = elim t.promised [ nothing_yet ↦ false | _ ↦ true ]

abbrev pub IsUnrun : Task → Type 0
IsUnrun t = t.promised ≡ nothing_yet

none_has_result : (ts : List Task) → All IsUnrun ts → count has_result ts ≡ 0
none_has_result [] h = refl
none_has_result (t ∷ ts) h = rw h.0 (omega (arith, none_has_result ts h.1))

unrun : (t : Task) → has_result t ≡ false → IsUnrun t
unrun t h = ground arith

none_has_result-IsUnrun : (ts : List Task) → count has_result ts ≡ 0 → All IsUnrun ts
none_has_result-IsUnrun [] h = tt
none_has_result-IsUnrun (t ∷ ts) h =
    (unrun t (ground (arith, h)), none_has_result-IsUnrun ts (omega (arith, h)))

-- The future of a task that is destroyed without a run.
abbrev pub IsBroken : Task → Type 0
IsBroken t = destroyed t.promised ≡ exception broken_promise

unrun-IsBroken : (ts : List Task) → All IsUnrun ts → All IsBroken ts
unfolding destroyed
unrun-IsBroken [] h = tt
unrun-IsBroken (t ∷ ts) h = (ap destroyed h.0, unrun-IsBroken ts h.1)

after_run-promised_by :
    (r : Result (Unit {0}))
    → (after_run {A = Task} r ≡ none)
      ⊎ ((after_run {A = Task} r ≡ some entering)
          × (destroyed (promised_by r) ≡ promised_by r)
          × (promised_by r ≢ nothing_yet))
unfolding after_run destroyed
after_run-promised_by (ok _) = inr (refl, refl, λ e. cc)
after_run-promised_by (throw (foreign n)) = inl refl
after_run-promised_by (throw e) = inr (refl, refl, λ e. cc)

module _ {ℓ} {W : Type ℓ} (call : Invocation → W → Result (Unit {0}) × List ℕ × W) where
  -- A run of the task ends the program, or the worker goes back to the queue, and the future tells
  -- what the callee returned or threw.
  abbrev pub IsTold : Task → Type ℓ
  IsTold t =
      (w : W)
      → ((run_task call t w).0 ≡ none)
        ⊎ (((run_task call t w).0 ≡ some entering)
            × (destroyed (run_task call t w).1.promised
                ≡ promised_by (call (call_impl t.callee) w).0)
            × (promised_by (call (call_impl t.callee) w).0 ≢ nothing_yet))

  run_task-IsTold : (t : Task) → IsUnrun t → IsTold t
  unfolding run_task
  run_task-IsTold t fresh w =
      rw (run-run_impl call t, run_impl-fresh call t w fresh)
        (after_run-promised_by (call (call_impl t.callee) w).0)

  tasks-IsTold : (ts : List Task) → All IsUnrun ts → All IsTold ts
  tasks-IsTold [] h = tt
  tasks-IsTold (t ∷ ts) h = (run_task-IsTold t h.0, tasks-IsTold ts h.1)

  -- Each task has been run, was cancelled or was dropped, as often as it was taken, and its future
  -- tells so.
  abbrev pub IsAnswered : System Task → Type ℓ
  IsAnswered s =
      ((f : Task → Bool)
        → count f s.accepted ≡ count f s.finished + count f s.cancelled + count f s.dropped)
      × All IsTold s.finished
      × All IsBroken s.cancelled
      × All IsBroken s.dropped

  pub unrun-IsAnswered :
      (s : System Task)
      → ((f : Task → Bool)
          → count f s.accepted ≡ count f s.finished + count f s.cancelled + count f s.dropped)
      → All IsUnrun s.accepted
      → IsAnswered s
  unrun-IsAnswered s done fresh = (
    done,
    tasks-IsTold s.finished
        (none_has_result-IsUnrun s.finished (omega (arith, no_result, done has_result))),
    unrun-IsBroken s.cancelled
        (none_has_result-IsUnrun s.cancelled (omega (arith, no_result, done has_result))),
    unrun-IsBroken s.dropped
        (none_has_result-IsUnrun s.dropped (omega (arith, no_result, done has_result))),
  )
    where
      no_result : count has_result s.accepted ≡ 0
      no_result = none_has_result s.accepted fresh
