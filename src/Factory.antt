-- ===== src/Factory.antt =====
-- public/uni/tasks/TaskFactory.hpp, details/TaskFactory.inl, TaskFactoryBasic.inl, TaskFactoryImpl.hpp
-- and `ptr2wrapper` of public/uni/utils/Utils.hpp: the overloads by which tasks are made.
pub mod Session
use uni_tasks.Prelude.{ℕ, ◌≡◌, refl, List, [], ◌∷◌}
use uni_tasks.Prelude.Int.{ℤ}
use uni_tasks.Ids.{Counters}
use uni_tasks.Tasks.{Pointer, raw, shared, Callee, member_function, Task, new_task}

-- `MemberFnPtrWrapper` for a member function and for a const one.
pub data Wrapper : Type 0 where
  wrapper : ℕ → Wrapper
  const_wrapper : ℕ → Wrapper

-- The forms in which a member function is named: `MemberFnPtr`, `ConstMemberFnPtr`, a wrapper.
pub data Member : Type 0 where
  member : ℕ → Member
  const_member : ℕ → Member
  wrapped : Wrapper → Member

-- The arguments by which the overloads differ.
pub data Target : Type 0 where
  callable : ℕ → Target
  method : Pointer → Member → Target

-- `MemberFnPtrWrapper::operator*`.
unfoldable pub unwrap : Wrapper → ℕ
unwrap (wrapper f) = f
unwrap (const_wrapper f) = f

unfoldable pub ptr2wrapper : ℕ → Wrapper
ptr2wrapper f = wrapper f

unfoldable pub const_ptr2wrapper : ℕ → Wrapper
const_ptr2wrapper f = const_wrapper f

-- TaskFactoryImpl.hpp: a `Task` over a function object, a `MemberFnTask` over an object that is held
-- by a pointer or shared. The arguments are copied.
unfoldable pub create_function_task_impl : ℤ → ℕ → List ℕ → Counters → Task × Counters
unfolding new_task
create_function_task_impl now f args = new_task now (Callee.function f args)

unfoldable pub create_member_task_impl : ℤ → Pointer → ℕ → List ℕ → Counters → Task × Counters
unfolding new_task
create_member_task_impl now object f args = new_task now (member_function object f args)

-- The overloads of `create_task_ptr` that take a wrapper.
unfoldable pub create_wrapped : ℤ → Pointer → Wrapper → List ℕ → Counters → Task × Counters
unfolding create_member_task_impl unwrap
create_wrapped now object f args = create_member_task_impl now object (unwrap f) args

-- The overload of TaskFactoryBasic.inl, for an object behind a plain pointer and a plain member
-- function, which needs no wrapper.
unfoldable pub create_basic : ℤ → (object f : ℕ) → List ℕ → Counters → Task × Counters
unfolding create_member_task_impl
create_basic now object f args = create_member_task_impl now (raw object) f args

-- `create_task_ptr`.
unfoldable pub create_task_ptr : ℤ → Target → List ℕ → Counters → Task × Counters
unfolding create_function_task_impl create_basic create_wrapped ptr2wrapper const_ptr2wrapper
create_task_ptr now (callable f) args = create_function_task_impl now f args
create_task_ptr now (method object (wrapped f)) args = create_wrapped now object f args
create_task_ptr now (method (raw o) (member f)) args = create_basic now o f args
create_task_ptr now (method (raw o) (const_member f)) args =
    create_wrapped now (raw o) (const_ptr2wrapper f) args
create_task_ptr now (method (shared o) (member f)) args =
    create_wrapped now (shared o) (ptr2wrapper f) args
create_task_ptr now (method (shared o) (const_member f)) args =
    create_wrapped now (shared o) (const_ptr2wrapper f) args

-- `create_task`, which returns the task by value. All overloads for plain pointers go through a
-- wrapper.
unfoldable pub create_task : ℤ → Target → List ℕ → Counters → Task × Counters
unfolding create_function_task_impl create_wrapped ptr2wrapper const_ptr2wrapper
create_task now (callable f) args = create_function_task_impl now f args
create_task now (method object (wrapped f)) args = create_wrapped now object f args
create_task now (method object (member f)) args = create_wrapped now object (ptr2wrapper f) args
create_task now (method object (const_member f)) args =
    create_wrapped now object (const_ptr2wrapper f) args

-- A call of one of the two functions, at the time `now`.
pub data Creation : Type 0 where
  by_value : (now : ℤ) → Target → List ℕ → Creation
  by_pointer : (now : ℤ) → Target → List ℕ → Creation

unfoldable pub create : Creation → Counters → Task × Counters
unfolding create_task create_task_ptr
create (by_value now target args) = create_task now target args
create (by_pointer now target args) = create_task_ptr now target args

-- One call after the other: the tasks that they make.
unfoldable pub create_all : List Creation → Counters → List Task × Counters
unfolding create
create_all [] c = ([], c)
create_all (x ∷ xs) c =
    let (task, c') = create x c in let (tasks, c'') = create_all xs c' in (task ∷ tasks, c'')

-- The callee that is meant, whatever the overload.
abbrev pub named : Member → ℕ
named (member f) = f
named (const_member f) = f
named (wrapped (wrapper f)) = f
named (wrapped (const_wrapper f)) = f

abbrev pub callee_of : Target → List ℕ → Callee
callee_of (callable f) args = Callee.function f args
callee_of (method object m) args = member_function object (named m) args

-- Every overload of `create_task` and of `create_task_ptr` makes the task whose callee is the
-- function, or the object with the member function, that its arguments name, and uses up one
-- sequence number.
pub create_task_lem :
    (now : ℤ) (target : Target) (args : List ℕ) (c : Counters)
    → (create_task now target args c ≡ new_task now (callee_of target args) c)
      × (create_task_ptr now target args c ≡ new_task now (callee_of target args) c)
unfolding create_task create_task_ptr
create_task_lem now (callable f) args c = (refl, refl)
create_task_lem now (method (raw o) (member f)) args c = (refl, refl)
create_task_lem now (method (raw o) (const_member f)) args c = (refl, refl)
create_task_lem now (method (raw o) (wrapped (wrapper f))) args c = (refl, refl)
create_task_lem now (method (raw o) (wrapped (const_wrapper f))) args c = (refl, refl)
create_task_lem now (method (shared o) (member f)) args c = (refl, refl)
create_task_lem now (method (shared o) (const_member f)) args c = (refl, refl)
create_task_lem now (method (shared o) (wrapped (wrapper f))) args c = (refl, refl)
create_task_lem now (method (shared o) (wrapped (const_wrapper f))) args c = (refl, refl)
