-- ===== src/Tasks/Life/Futures.antt =====
-- TaskBaseImpl.cpp: what the holder of a task's future learns, over the task's life.
use uni_tasks.Prelude.{
  ℕ, ◌≡◌, ◌≢◌, refl, sym, ap, ◌∙◌, true, false, not, ◌&&◌, bit, any, if◌then◌else◌, Bool-cases,
  List, [], ◌∷◌, ◌⊎◌, inl, inr, arith,
}
use uni_tasks.Prelude.Int.{ℤ}
use uni_tasks.Ids.{RequestId}
use uni_tasks.Errors.{Result, ok, throw, is_ok, foreign, broken_promise}
use uni_tasks.Tasks.{
  Invocation, call_impl, Task, Promised, nothing_yet, value, exception, run_impl,
  set_request_id_impl, set_due_time_impl, get_future_impl,
}
use uni_tasks.Tasks.Run.{run_impl-fresh, run_impl-settled}
use uni_tasks.Tasks.Virtual.{ITask, virtual, task, overrides-task, run-run_impl}
use uni_tasks.Tasks.Life.{
  Event, runs, sets_request_id, sets_due_time, gets_future, destroyed, settle, settles, gets,
  happen, happen_all, outcomes, futures,
}

settled : (p : Promised) → (p ≡ nothing_yet) ⊎ (p ≢ nothing_yet)
settled nothing_yet = inl refl
settled value = inr λ e. cc
settled (exception e) = inr λ e. cc

settle-settled : (p : Promised) (rs : List (Result (Unit {0}))) → p ≢ nothing_yet → settle p rs ≡ p
settle-settled p [] other = refl
settle-settled nothing_yet (r ∷ rs) other = absurd (other refl)
settle-settled value (r ∷ rs) other = refl
settle-settled (exception e) (r ∷ rs) other = refl

settle-cons :
    (p : Promised) (r : Result (Unit {0})) (rs : List (Result (Unit {0})))
    → settle (settle p (r ∷ [])) rs ≡ settle p (r ∷ rs)
settle-cons nothing_yet r rs = refl
settle-cons value r rs = settle-settled value rs λ e. cc
settle-cons (exception e) r rs = settle-settled (exception e) rs λ e. cc

destroyed-settle :
    (rs : List (Result (Unit {0})))
    → destroyed (settle nothing_yet rs)
      ≡ (if any settles rs then settle nothing_yet rs else exception broken_promise)
unfolding destroyed
destroyed-settle [] = refl
destroyed-settle (ok _ ∷ rs) = rw (settle-settled value rs λ e. cc) refl
destroyed-settle (throw (foreign n) ∷ rs) = destroyed-settle rs
destroyed-settle (throw e ∷ rs) = rw (settle-settled (exception e) rs λ e. cc) refl

module _ {ℓ} {W : Type ℓ} (call : Invocation → W → Result (Unit {0}) × List ℕ × W) where
  -- The calls that are no run, on a task of any class.
  happen-set_request_id :
      (id : RequestId) (t : Task) (w : W)
      → happen call (sets_request_id id) t w ≡ (true, set_request_id_impl id t, w)
  unfolding happen task
  happen-set_request_id id t w =
      ap (λ (i : ITask W). (true, i.set_request_id id t, w)) (overrides-task call t.callee)

  happen-set_due_time :
      (now delay : ℤ) (t : Task) (w : W)
      → happen call (sets_due_time now delay) t w ≡ (true, set_due_time_impl now delay t, w)
  unfolding happen task
  happen-set_due_time now delay t w =
      ap (λ (i : ITask W). (true, i.set_due_time now delay t, w)) (overrides-task call t.callee)

  happen-get_future :
      (t : Task) (w : W)
      → happen call gets_future t w ≡ (is_ok (get_future_impl t).0, (get_future_impl t).1, w)
  unfolding happen task
  happen-get_future t w =
      ap (λ (i : ITask W). (is_ok (i.get_future t).0, (i.get_future t).1, w))
        (overrides-task call t.callee)

  runs_as : (t : Task) (w : W) → virtual call (λ i. i.run) t w ≡ run_impl call t w
  runs_as t w = ap (λ k. k w) (run-run_impl call t)

  -- A run settles the promise, and changes nothing of the task but its arguments beside that.
  happen-run :
      (t : Task) (w : W)
      → ((happen call runs t w).1.promised
          ≡ settle t.promised ((call (call_impl t.callee) w).0 ∷ []))
        × ((happen call runs t w).1.sequence ≡ t.sequence)
        × ((happen call runs t w).1.future_taken ≡ t.future_taken)
  unfolding happen
  happen-run t w = elim (settled t.promised) [
    | inl e ↦
        let run = runs_as t w ∙ run_impl-fresh call t w e in
        (
          ap (λ x. x.1.promised) run
              ∙ ap (λ p. settle p ((call (call_impl t.callee) w).0 ∷ [])) (sym e),
          ap (λ x. x.1.sequence) run,
          ap (λ x. x.1.future_taken) run,
        )
    | inr other ↦
        let run = runs_as t w ∙ run_impl-settled call t w other in
        (
          ap (λ x. x.1.promised) run
              ∙ sym (settle-settled t.promised ((call (call_impl t.callee) w).0 ∷ []) other),
          ap (λ x. x.1.sequence) run,
          ap (λ x. x.1.future_taken) run,
        )
  ]

  get_future_lem :
      (t : Task)
      → (bit (is_ok (get_future_impl t).0) ≡ bit (not t.future_taken))
        × ((get_future_impl t).1 ≡ record t { future_taken = true })
  unfolding get_future_impl
  get_future_lem t = elim (Bool-cases t.future_taken) [
    | inl e ↦ rw e (refl, refl)
    | inr e ↦ rw e (refl, refl)
  ]

  happen_all-promised :
      (es : List Event) (t : Task) (w : W)
      → (happen_all call es t w).0.promised ≡ settle t.promised (outcomes call es t w)
  unfolding happen_all outcomes set_request_id_impl set_due_time_impl
  happen_all-promised [] t w = refl
  happen_all-promised (runs ∷ es) t w =
      let (back, t', w') = happen call runs t w in
      happen_all-promised es t' w'
      ∙ ap (λ p. settle p (outcomes call es t' w')) (happen-run t w).0
      ∙ settle-cons t.promised _ (outcomes call es t' w')
  happen_all-promised (sets_request_id id ∷ es) t w =
      happen_all-promised es _ w
      ∙ ap (λ x. settle x.1.promised (outcomes call es (happen call (sets_request_id id) t w).1 w))
          (happen-set_request_id id t w)
  happen_all-promised (sets_due_time now delay ∷ es) t w =
      happen_all-promised es _ w
      ∙ ap
          (λ x.
            settle x.1.promised (outcomes call es (happen call (sets_due_time now delay) t w).1 w))
          (happen-set_due_time now delay t w)
  happen_all-promised (gets_future ∷ es) t w =
      happen_all-promised es _ w
      ∙ ap (λ x. settle x.1.promised (outcomes call es (happen call gets_future t w).1 w))
          (happen-get_future t w)
      ∙ ap (λ u. settle u.promised (outcomes call es (happen call gets_future t w).1 w))
          (get_future_lem t).1

  happen-sequence : (e : Event) (t : Task) (w : W) → (happen call e t w).1.sequence ≡ t.sequence
  unfolding set_request_id_impl set_due_time_impl
  happen-sequence runs t w = (happen-run t w).1
  happen-sequence (sets_request_id id) t w = ap (λ x. x.1.sequence) (happen-set_request_id id t w)
  happen-sequence (sets_due_time now delay) t w =
      ap (λ x. x.1.sequence) (happen-set_due_time now delay t w)
  happen-sequence gets_future t w =
      ap (λ x. x.1.sequence) (happen-get_future t w) ∙ ap (λ u. u.sequence) (get_future_lem t).1

  happen_all-sequence :
      (es : List Event) (t : Task) (w : W) → (happen_all call es t w).0.sequence ≡ t.sequence
  unfolding happen_all
  happen_all-sequence [] t w = refl
  happen_all-sequence (e ∷ es) t w =
      let (back, t', w') = happen call e t w in happen_all-sequence es t' w' ∙ happen-sequence e t w

  futures_lem :
      (es : List Event) (t : Task) (w : W)
      → futures call es t w ≡ bit (any gets es && not t.future_taken)
  unfolding futures set_request_id_impl set_due_time_impl
  futures_lem [] t w = refl
  futures_lem (runs ∷ es) t w =
      let (back, t', w') = happen call runs t w in
      futures_lem es t' w' ∙ ap (λ b. bit (any gets es && not b)) (happen-run t w).2
  futures_lem (sets_request_id id ∷ es) t w =
      futures_lem es _ w
      ∙ ap (λ x. bit (any gets es && not x.1.future_taken)) (happen-set_request_id id t w)
  futures_lem (sets_due_time now delay ∷ es) t w =
      futures_lem es _ w
      ∙ ap (λ x. bit (any gets es && not x.1.future_taken)) (happen-set_due_time now delay t w)
  futures_lem (gets_future ∷ es) t w =
      let taken : (happen call gets_future t w).1.future_taken ≡ true =
        ap (λ x. x.1.future_taken) (happen-get_future t w)
        ∙ ap (λ u. u.future_taken) (get_future_lem t).1 in
      ground (
        arith,
        futures_lem es (happen call gets_future t w).1 w,
        taken,
        ap (λ x. bit x.0) (happen-get_future t w),
        (get_future_lem t).0,
      )

  -- If the promise of a task holds nothing and its future was not handed out, then after any runs,
  -- setters and calls of `get_future` through the interface, in any order, a `get_future` after a
  -- run included, and on a task of any class, the promise holds what the first run left whose
  -- callee returned or threw a `std::exception`, and nothing if there was none; when the task is
  -- destroyed then, the future tells that, or that the promise was broken; the future was handed
  -- out once if it was asked for, and the sequence number is the same.
  pub happen_all_lem :
      (es : List Event) (t : Task) (w : W)
      → t.promised ≡ nothing_yet
      → t.future_taken ≡ false
      → ((happen_all call es t w).0.promised ≡ settle nothing_yet (outcomes call es t w))
        × (destroyed (happen_all call es t w).0.promised ≡ (
            if any settles (outcomes call es t w)
            then settle nothing_yet (outcomes call es t w)
            else exception broken_promise))
        × (futures call es t w ≡ bit (any gets es))
        × ((happen_all call es t w).0.sequence ≡ t.sequence)
  happen_all_lem es t w nothing untaken =
      let held : (happen_all call es t w).0.promised ≡ settle nothing_yet (outcomes call es t w) =
        happen_all-promised es t w ∙ ap (λ p. settle p (outcomes call es t w)) nothing in
      (
        held,
        ap destroyed held ∙ destroyed-settle (outcomes call es t w),
        rw (futures_lem es t w, untaken) (ground arith),
        happen_all-sequence es t w,
      )
