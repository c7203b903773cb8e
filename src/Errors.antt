-- ===== src/Errors.antt =====
-- The exceptions that the library throws or lets through, and calls that may throw. A call takes
-- the state and returns the state in both cases: C++ does not undo what was done before a throw.
use uni_tasks.Prelude.{ℕ, String, Bool, true, false}

-- The messages of `std::logic_error` in the sources.
pub data Reason : Type 0 where
  pool_already_started : Reason
  pool_already_stopped : Reason
  request_already_started : Reason
  request_already_cancelled : Reason
  unknown_thread_pool : String → Reason
  wrong_thread_pool : String → Reason
  unmet : String → Reason  -- the message given to `Expects`

-- `task_error` stands for an exception derived from `std::exception` that a task's own code throws,
-- `foreign` for a thrown object of any other type.
pub data Exception : Type 0 where
  queue_closed : Exception
  thread_pool_stopped : Exception
  logic_error : Reason → Exception
  bad_function_call : Exception
  promise_already_satisfied : Exception
  future_already_retrieved : Exception
  broken_promise : Exception
  task_error : ℕ → Exception
  foreign : ℕ → Exception

pub data Result {ℓ} (A : Type ℓ) : Type ℓ where
  ok : A → Result A
  throw : Exception → Result A

abbrev pub is_ok {ℓ} : {A : Type ℓ} → Result A → Bool
is_ok (ok _) = true
is_ok (throw _) = false

-- A call on a state of type `S`.
abbrev pub Call {ℓ κ} : Type ℓ → Type κ → Type (ℓ ⊔ κ)
Call S A = S → Result A × S

abbrev pub and_then {ℓ κ μ} :
    {S : Type ℓ} {A : Type κ} {B : Type μ} → Result A × S → (A → Call S B) → Result B × S
and_then (ok a, s) f = f a s
and_then (throw e, s) f = (throw e, s)

infixl 5 ◌>>=◌ ◌>>◌
abbrev pub ◌>>=◌ {ℓ κ μ} :
    {S : Type ℓ} {A : Type κ} {B : Type μ} → Call S A → (A → Call S B) → Call S B
◌>>=◌ m f s = and_then (m s) f

abbrev pub ◌>>◌ {ℓ κ} : {S : Type ℓ} {B : Type κ} → Call S (Unit {0}) → Call S B → Call S B
m >> k = m >>= λ _. k

abbrev pub return {ℓ κ} : {S : Type ℓ} {A : Type κ} → A → Call S A
return a s = (ok a, s)

abbrev pub raise {ℓ κ} : {S : Type ℓ} {A : Type κ} → Exception → Call S A
raise e s = (throw e, s)

-- A call that changes the state and returns nothing.
abbrev pub modify {ℓ} : {S : Type ℓ} → (S → S) → Call S (Unit {0})
modify f s = (ok tt, f s)
