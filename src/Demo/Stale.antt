-- ===== src/Demo/Stale.antt =====
-- DemoComponentImpl.cpp: the flag of a cancelled calculation, and the next calculation.
use uni_tasks.Prelude.{
  ℕ, zero, suc, ◌+◌, ◌≡◌, refl, ◌∙◌, Bool, true, false, Option, none, some, if◌then◌else◌, [], ◌∷◌,
  arith,
}
use uni_tasks.Prelude.Int.{ℤ}
use uni_tasks.Ids.{RequestId}
use uni_tasks.Errors.{Result, ok, throw, Call, and_then, ◌>>=◌, ◌>>◌}
use uni_tasks.TaskDispatcherBasic
use uni_tasks.Utils.{expects}
use uni_tasks.Demo.{
  Demo, Names, on_dispatcher, run_cancel_task, cancel_calculation_1, notify, execute_internal,
  meanwhile, progress_loop, begin_calculation_1, end_calculation_1, do_calculation_1,
}

-- The call leaves the flag as it is.
abbrev KeepsFlag : {R : Type 0} → Call Demo R → Type 0
KeepsFlag m = (s : Demo) → (m s).1.calculate_1_cancelled ≡ s.calculate_1_cancelled

>>=-KeepsFlag :
    {A B : Type 0} (m : Call Demo A) (k : A → Call Demo B)
    → KeepsFlag m
    → ((a : A) → KeepsFlag (k a))
    → KeepsFlag (m >>= k)
>>=-KeepsFlag {A} {B} m k h g s = after (m s) ∙ h s
  where
    after :
        (r : Result A × Demo) → (and_then r k).1.calculate_1_cancelled ≡ r.1.calculate_1_cancelled
    after (ok a, t) = g a t
    after (throw e, t) = refl

expects-KeepsFlag : (b : Bool) (msg : Prim.Native.String.String) → KeepsFlag (expects b msg)
unfolding expects
expects-KeepsFlag true msg s = refl
expects-KeepsFlag false msg s = refl

run_cancel_task-flag :
    (ready : Bool) (future : Option ℕ) (s t : Demo)
    → s.owned ≡ true
    → run_cancel_task ready future s ≡ some t
    → t.calculate_1_cancelled ≡ true
unfolding run_cancel_task cancel_calculation_1
run_cancel_task-flag ready none s t owned e = ground (arith, owned, e)
run_cancel_task-flag true (some n) s t owned e = ground (arith, owned, e)
run_cancel_task-flag false (some n) s t owned e = absurd cc

if_else : {A : Type 0} {b : Bool} (x y : A) → b ≡ false → (if b then x else y) ≡ y
if_else x y h = rw h refl

module _ (names : Names) (others : ℕ → Demo → Demo) (choices : ℕ → ℕ) (times : ℕ → ℤ) (self : ℕ)
    (id : RequestId)
    (apart : (k : ℕ) (s : Demo)
      → (others k s).calculate_1_cancelled ≡ s.calculate_1_cancelled) where
  abbrev waits : ℕ → Call Demo (Unit {0})
  waits = meanwhile names others choices times self id

  -- The calls of `begin_calculation_1` from the third on.
  abbrev reported : ℕ → Call Demo (Unit {0})
  reported p1 = execute_internal names self (choices 2) (times 2) id p1 >>= λ executed.
      expects executed "Unexpected execution context of DemoComponentImpl::do_calculate_1_internal"

  reported-KeepsFlag : (p1 : ℕ) → KeepsFlag (reported p1)
  unfolding execute_internal
  reported-KeepsFlag p1 =
      >>=-KeepsFlag (execute_internal names self (choices 2) (times 2) id p1)
        (λ executed. expects executed _) (λ s. refl) λ b. expects-KeepsFlag b _

  abbrev entered : ℕ → Call Demo (Unit {0})
  entered p1 =
      notify names (choices 1) (times 1) names.on_calculation_started (id ∷ [])
      >> (waits 2 >> reported p1)

  entered-KeepsFlag : (p1 : ℕ) → KeepsFlag (entered p1)
  unfolding notify
  entered-KeepsFlag p1 =
      >>=-KeepsFlag (notify names (choices 1) (times 1) names.on_calculation_started (id ∷ []))
        (λ _. waits 2 >> reported p1) (λ s. refl)
        λ _. >>=-KeepsFlag (waits 2) (λ _. reported p1) (apart 2) λ _. reported-KeepsFlag p1

  begin-KeepsFlag : (p1 : ℕ) → KeepsFlag (begin_calculation_1 names others choices times self id p1)
  unfolding begin_calculation_1
  begin-KeepsFlag p1 =
      >>=-KeepsFlag (waits 0) (λ _. asserts >> (waits 1 >> entered p1)) (apart 0)
        λ _.
          >>=-KeepsFlag asserts (λ _. waits 1 >> entered p1) (λ s. refl)
            λ _. >>=-KeepsFlag (waits 1) (λ _. entered p1) (apart 1) λ _. entered-KeepsFlag p1
    where
      asserts : Call Demo (Unit {0})
      asserts = on_dispatcher (TaskDispatcherBasic.assert_execution_context self "background")

  loop_cancelled :
      (p1 : ℕ) (u : Demo)
      → (others 3 u).calculate_1_cancelled ≡ true
      → progress_loop names others choices times self id (suc p1) 0 u ≡ (ok false, others 3 u)
  unfolding progress_loop
  loop_cancelled p1 u h = ground (arith, h)

  -- The notifications of a calculation that runs to its end.
  unfoldable pub report_all : (left counter : ℕ) → Call Demo (Unit {0})
  report_all zero counter s = (ok tt, s)
  report_all (suc left) counter s =
      let k = counter + 3 in
      let made =
        notify names (choices k) (times k) names.on_calculation_progress (id ∷ counter ∷ [])
          (others k s) in
      and_then made (λ _. report_all left (suc counter))

  abbrev loop : (left counter : ℕ) → Call Demo Bool
  loop = progress_loop names others choices times self id

  abbrev done : Call Demo Bool
  done v = (ok true, v)

  -- The notification of an iteration.
  abbrev told : (counter : ℕ) → Call Demo (Unit {0})
  told counter u =
      notify names (choices (counter + 3)) (times (counter + 3)) names.on_calculation_progress
        (id ∷ counter ∷ []) (others (counter + 3) u)

  loop-report_all :
      (left counter : ℕ) (u : Demo)
      → u.calculate_1_cancelled ≡ false
      → loop left counter u ≡ and_then (report_all left counter u) (λ _. done)
  unfolding progress_loop report_all notify
  loop-report_all zero counter u h = refl
  loop-report_all (suc left) counter u h =
      let stays = apart (counter + 3) u ∙ h in
      if_else _ _ stays
      ∙ after (λ v e. loop-report_all left (suc counter) v e) (told counter u) stays
    where
      after :
          ((v : Demo)
            → v.calculate_1_cancelled ≡ false
            → loop left (suc counter) v ≡ and_then (report_all left (suc counter) v) (λ _. done))
          → (r : Result (Unit {0}) × Demo) → r.1.calculate_1_cancelled ≡ false
          → and_then r (λ _. loop left (suc counter))
            ≡ and_then (and_then r (λ _. report_all left (suc counter))) (λ _. done)
      after rest (ok _, v) e = rest v e
      after rest (throw e, v) _ = refl

  abbrev begins : ℕ → Call Demo (Unit {0})
  begins = begin_calculation_1 names others choices times self id

  abbrev ends : (p1 p2 : ℕ) → Bool → Call Demo (Unit {0})
  ends = end_calculation_1 names others choices times self id

  calculation_runs :
      (p1 p2 : ℕ) (s : Demo)
      → s.calculate_1_cancelled ≡ false
      → do_calculation_1 names others choices times self id p1 p2 s
        ≡ (begins p1 >> report_all p1 0 >> ends p1 p2 true) s
  unfolding do_calculation_1
  calculation_runs p1 p2 s h = after (begins p1 s) (begin-KeepsFlag p1 s ∙ h)
    where
      over :
          (r : Result (Unit {0}) × Demo)
          → and_then (and_then r (λ _. done)) (ends p1 p2) ≡ and_then r (λ _. ends p1 p2 true)
      over (ok _, v) = refl
      over (throw e, v) = refl

      after :
          (r : Result (Unit {0}) × Demo)
          → r.1.calculate_1_cancelled ≡ false
          → and_then r (λ _. loop p1 0 >>= ends p1 p2)
            ≡ and_then (and_then r (λ _. report_all p1 0)) (λ _. ends p1 p2 true)
      after (ok _, u) e = rw (loop-report_all p1 0 u e) (over (report_all p1 0 u))
      after (throw e, u) _ = refl

  -- If other threads leave the flag of a component alone and it is not set, then a calculation
  -- with at least one iteration notifies the listener of each iteration and tells it that it was
  -- completed, unless it throws before; but if the cancelling task of the component, which is
  -- still owned, has run in the same state, the next calculation, of whatever request, breaks off
  -- before its first iteration and tells the listener that it was cancelled, unless it throws
  -- before.
  pub run_cancel_task-do_calculation_1 :
      (ready : Bool) (future : Option ℕ) (p1 p2 : ℕ) (s t : Demo)
      → s.owned ≡ true
      → s.calculate_1_cancelled ≡ false
      → run_cancel_task ready future s ≡ some t
      → (do_calculation_1 names others choices times self id (suc p1) p2 s
          ≡ (begins (suc p1) >> report_all (suc p1) 0 >> ends (suc p1) p2 true) s)
        × (do_calculation_1 names others choices times self id (suc p1) p2 t
            ≡ (begins (suc p1) >> waits 3 >> ends (suc p1) p2 false) t)
  unfolding do_calculation_1
  run_cancel_task-do_calculation_1 ready future p1 p2 s t owned fresh cancelled = (
    calculation_runs (suc p1) p2 s fresh,
    after (begins (suc p1) t) (begin-KeepsFlag (suc p1) t ∙ flagged),
  )
    where
      flagged : t.calculate_1_cancelled ≡ true
      flagged = run_cancel_task-flag ready future s t owned cancelled

      after :
          (r : Result (Unit {0}) × Demo)
          → r.1.calculate_1_cancelled ≡ true
          → and_then r (λ _. loop (suc p1) 0 >>= ends (suc p1) p2)
            ≡ and_then (and_then r (λ _. waits 3)) (λ _. ends (suc p1) p2 false)
      after (ok _, u) h = rw (loop_cancelled p1 u (apart 3 u ∙ h)) refl
      after (throw e, u) h = refl
