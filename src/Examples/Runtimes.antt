-- ===== src/Examples/Runtimes.antt =====
-- Runtime, TaskDispatcherBasic and Utils: calls through a runtime, and of the helpers.
use uni_tasks.Prelude.{ℕ, ◌≡◌, refl, true, false, some, none, [], ◌∷◌}
use uni_tasks.Errors.{ok, throw, logic_error, unmet}
use uni_tasks.Tasks.{rvalue}
use uni_tasks.Utils.{expects, get_value, get_pointed_value, member_pointer, invoke, calls_on}

unmet_condition : expects {S = ℕ} false "no pool" 5 ≡ (throw (logic_error (unmet "no pool")), 5)
unfolding expects
unmet_condition = refl

met_condition : expects {S = ℕ} true "no pool" 5 ≡ (ok tt, 5)
unfolding expects
met_condition = refl

null_pointer : get_pointed_value {A = ℕ} (some none) ≡ none
unfolding get_pointed_value
null_pointer = refl

value_there : get_value {A = ℕ} (some 5) ≡ some 5
unfolding get_value
value_there = refl

on_object :
    invoke (member_pointer 3) (rvalue 8 ∷ rvalue 1 ∷ [])
    ≡ some (calls_on (rvalue 8) 3 (rvalue 1 ∷ []))
unfolding invoke
on_object = refl
