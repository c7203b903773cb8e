-- ===== src/Factory/Session.antt =====
-- TaskFactory.hpp and Utils.cpp: the sequence numbers of the tasks that a program makes.
use uni_tasks.Prelude.{
  ℕ, suc, ◌+◌, ◌%◌, ◌≤◌, ◌<◌, ◌==◌, ◌≡◌, ◌≢◌, ◌⊎◌, refl, ap₂, map, List, [], ◌∷◌, count, bit,
  length, arith, inl, inr,
}
use uni_tasks.OrderedSet.{equivalent}
use uni_tasks.Ids.{size_t_mod, Counters, create_sequence_id}
use uni_tasks.Tasks.{Task, Callee, sequence_id_impl, new_task, task_before}
use uni_tasks.Factory.{
  Creation, by_value, by_pointer, create, create_all, create_task_lem, callee_of,
}

-- How many of the tasks have a sequence number.
abbrev pub numbered : ℕ → List Task → ℕ
numbered m = count (λ y. m == sequence_id_impl y)

-- Equivalent tasks have the same number.
pub equivalent-numbered :
    (x : Task) (ys : List Task)
    → count (equivalent task_before x) ys ≤ numbered (sequence_id_impl x) ys
unfolding task_before
equivalent-numbered x [] = omega arith
equivalent-numbered x (y ∷ ys) = ground (arith, equivalent-numbered x ys)

create_id :
    (c : Counters)
    → ((create_sequence_id c).0 ≡ (c.sequence + 1) % size_t_mod)
      × ((create_sequence_id c).1.sequence ≡ (c.sequence + 1) % size_t_mod)
unfolding create_sequence_id
create_id c = (refl, refl)

-- Each call uses the next number.
create-sequence :
    (x : Creation) (c : Counters)
    → ((create x c).0.sequence ≡ (c.sequence + 1) % size_t_mod)
      × ((create x c).1.sequence ≡ (c.sequence + 1) % size_t_mod)
unfolding create new_task
create-sequence (by_value now target args) c =
    rw (create_task_lem now target args c).0 (create_id c)
create-sequence (by_pointer now target args) c =
    rw (create_task_lem now target args c).1 (create_id c)

other_number : (m : ℕ) (t : Task) → m ≢ t.sequence → bit (m == sequence_id_impl t) ≡ 0
unfolding sequence_id_impl
other_number m t other = ground (arith, other)

number-cases :
    (m : ℕ) (t : Task)
    → ((m ≡ t.sequence) × (bit (m == sequence_id_impl t) ≡ 1)) ⊎ (bit (m == sequence_id_impl t) ≡ 0)
unfolding sequence_id_impl
number-cases m t = ground arith

-- No task has a number that the counter does not pass.
numbered-zero :
    (m : ℕ) (xs : List Creation) (c : Counters)
    → ((i : ℕ) → 0 < i → i ≤ length xs → m ≢ (c.sequence + i) % size_t_mod)
    → numbered m (create_all xs c).0 ≡ 0
unfolding create_all
numbered-zero m [] c other = omega arith
numbered-zero m (x ∷ xs) c other =
    let first = create-sequence x c in
    let rest = numbered-zero m xs (create x c).1 λ i positive small e.
      other (suc i) (omega arith) (omega (arith, small)) (omega (arith, e, first.1)) in
    omega (
      arith,
      rest,
      other_number m (create x c).0
          λ e. other 1 (omega arith) (omega arith) (omega (arith, e, first.0)),
    )

-- At most 2^64 calls make at most one task of each number.
pub numbered-le-one :
    (m : ℕ) (xs : List Creation) (c : Counters)
    → length xs ≤ size_t_mod
    → numbered m (create_all xs c).0 ≤ 1
unfolding create_all
numbered-le-one m [] c few = omega arith
numbered-le-one m (x ∷ xs) c few =
    let first = create-sequence x c in
    let rest = numbered-le-one m xs (create x c).1 (omega (arith, few)) in
    elim (number-cases m (create x c).0) [
      | inr other ↦ omega (arith, rest, other)
      | inl (same, one) ↦ omega (
        arith,
        one,
        numbered-zero m xs (create x c).1
            λ i positive small e. omega (arith, e, first.0, first.1, same, few, small, positive),
      )
    ]

-- The callee that a call names.
abbrev pub named_callee : Creation → Callee
named_callee (by_value now target args) = callee_of target args
named_callee (by_pointer now target args) = callee_of target args

create-callee : (x : Creation) (c : Counters) → (create x c).0.callee ≡ named_callee x
unfolding create new_task
create-callee (by_value now target args) c = rw (create_task_lem now target args c).0 refl
create-callee (by_pointer now target args) c = rw (create_task_lem now target args c).1 refl

callees :
    (xs : List Creation) (c : Counters)
    → map (λ t. t.callee) (create_all xs c).0 ≡ map named_callee xs
unfolding create_all
callees [] c = refl
callees (x ∷ xs) c = ap₂ (λ t ts. t ∷ ts) (create-callee x c) (callees xs (create x c).1)

-- If at most 2^64 calls of `create_task` and `create_task_ptr` are made, of any overloads, the
-- tasks that they make have the callees that the calls name, in the order of the calls, no two
-- have the same sequence number, and no two are equivalent in the comparator of tasks.
pub create_all_lem :
    (xs : List Creation) (c : Counters)
    → length xs ≤ size_t_mod
    → (map (λ t. t.callee) (create_all xs c).0 ≡ map named_callee xs)
      × ((m : ℕ) → numbered m (create_all xs c).0 ≤ 1)
      × ((x : Task) → count (equivalent task_before x) (create_all xs c).0 ≤ 1)
create_all_lem xs c few = (
  callees xs c,
  λ m. numbered-le-one m xs c few,
  λ x. omega (
    arith,
    numbered-le-one (sequence_id_impl x) xs c few,
    equivalent-numbered x (create_all xs c).0,
  ),
)
