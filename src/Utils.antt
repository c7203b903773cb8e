-- ===== src/Utils.antt =====
-- public/uni/utils/Utils.hpp and TypeTraits.hpp: the helpers that are not part of another model. The
-- counters of identifiers are in Ids, `ptr2wrapper` is in Factory, and `apply` as tasks use it, on
-- function objects, is in Tasks.
use uni_tasks.Prelude.{
  ℕ, String, Bool, true, false, Option, none, some, List, [], ◌∷◌, map, ◌≡◌, refl,
}
use uni_tasks.Errors.{unmet, logic_error, Call, raise, return}
use uni_tasks.Tasks.{Passed, lvalue, Invocation, of_function}
use uni_tasks.Tasks

-- `Expects`, in any state of the program.
unfoldable pub expects {ℓ} : {S : Type ℓ} → Bool → String → Call S (Unit {0})
expects true msg = return tt
expects false msg = raise (logic_error (unmet msg))

-- `get_value` of an optional value. What `*optional` does on an empty optional is undefined: `none`.
unfoldable pub get_value {ℓ} : {A : Type ℓ} → Option A → Option A
get_value none = none
get_value (some x) = some x

-- `get_value` of an optional `std::unique_ptr`, which points to something or is null: `none` also
-- where a null pointer is dereferenced.
unfoldable pub get_pointed_value {ℓ} : {A : Type ℓ} → Option (Option A) → Option A
get_pointed_value none = none
get_pointed_value (some none) = none
get_pointed_value (some (some x)) = some x

-- What `invoke` is called with: a function object, or a pointer to a member function, whose object is
-- the first argument.
pub data Invocable : Type 0 where
  function_object : ℕ → Invocable
  member_pointer : ℕ → Invocable

-- The call that `invoke` makes.
pub data Made : Type 0 where
  calls : (f : ℕ) (args : List Passed) → Made
  calls_on : (object : Passed) (f : ℕ) (args : List Passed) → Made

-- The two overloads of `invoke_impl`. Without an object the one for member functions does not
-- compile: `none`.
unfoldable pub invoke_impl : Invocable → List Passed → Option Made
invoke_impl (function_object f) args = some (calls f args)
invoke_impl (member_pointer f) [] = none
invoke_impl (member_pointer f) (object ∷ args) = some (calls_on object f args)

unfoldable pub invoke : Invocable → List Passed → Option Made
unfolding invoke_impl
invoke f args = invoke_impl f args

-- `apply_impl`: `std::get` on the tuple, an lvalue there, gives an lvalue for each index.
unfoldable pub apply_impl : Invocable → List ℕ → Option Made
unfolding invoke
apply_impl f tuple = invoke f (map lvalue tuple)

unfoldable pub apply : Invocable → List ℕ → Option Made
unfolding apply_impl
apply f tuple = apply_impl f tuple

-- The call as the model of the tasks has it.
abbrev as_invocation : Option Made → Option Invocation
as_invocation (some (calls f args)) = some (of_function f args)
as_invocation _ = none

-- `apply` on a function object is the call that a task makes.
pub apply-function_object :
    (f : ℕ) (args : List ℕ)
    → as_invocation (apply (function_object f) args) ≡ some (Tasks.apply f args)
unfolding apply Tasks.apply
apply-function_object f args = refl

-- The types of tasks, as far as the traits tell them apart.
pub data TypeExpr : Type 0 where
  named : ℕ → TypeExpr
  unique_ptr : TypeExpr → TypeExpr
  const_of : TypeExpr → TypeExpr
  volatile_of : TypeExpr → TypeExpr
  reference_to : TypeExpr → TypeExpr

-- `std::remove_reference_t` and `std::remove_cv_t`.
abbrev remove_reference : TypeExpr → TypeExpr
remove_reference (reference_to t) = remove_reference t
remove_reference t = t

abbrev remove_cv : TypeExpr → TypeExpr
remove_cv (const_of t) = remove_cv t
remove_cv (volatile_of t) = remove_cv t
remove_cv t = t

-- `IsUniquePointerImpl` and its specialization.
unfoldable pub is_unique_pointer_impl : TypeExpr → Bool
is_unique_pointer_impl (unique_ptr t) = true
is_unique_pointer_impl _ = false

unfoldable pub is_unique_pointer : TypeExpr → Bool
unfolding is_unique_pointer_impl
is_unique_pointer t = is_unique_pointer_impl (remove_cv (remove_reference t))

-- The queue of a pool passes `get_task_delay` its elements as const references: the trait sees a
-- pointer exactly if they are pointers.
pub is_unique_pointer-element :
    (t : TypeExpr) → is_unique_pointer (reference_to (const_of (unique_ptr t))) ≡ true
unfolding is_unique_pointer
is_unique_pointer-element t = refl
