-- ===== src/Ids/Distinct.antt =====
-- src/uni/utils/Utils.cpp: how far apart two calls are that return the same identifier.
use uni_tasks.Prelude.{
  ℕ, suc, ◌+◌, ◌%◌, ◌<◌, ◌≡◌, ◌≢◌, refl, Bool, true, false, bit, List, [], ◌∷◌, count, arith,
}
use uni_tasks.Ids.{size_t_mod, Counters, create_request_id, create_sequence_id}

-- The two functions, and what a call of one of them returns and leaves.
pub data Kind : Type 0 where
  request sequence : Kind

unfoldable pub create_id : Kind → Counters → ℕ × Counters
unfolding create_request_id create_sequence_id
create_id request c = create_request_id c
create_id sequence c = create_sequence_id c

-- Calls of both functions, in any order.
unfoldable pub after : List Kind → Counters → Counters
unfolding create_id
after [] c = c
after (k ∷ ks) c = after ks (create_id k c).1

abbrev pub is_same : Kind → Kind → Bool
is_same request request = true
is_same sequence sequence = true
is_same _ _ = false

abbrev counter : Kind → Counters → ℕ
counter request c = c.request
counter sequence c = c.sequence

create_id_lem :
    (k l : Kind) (c : Counters)
    → ((create_id k c).0 ≡ (counter k c + 1) % size_t_mod)
      × ((counter l (create_id k c).1) % size_t_mod
          ≡ (counter l c + bit (is_same l k)) % size_t_mod)
unfolding create_id create_request_id create_sequence_id
create_id_lem request request c = (refl, omega arith)
create_id_lem request sequence c = (refl, omega arith)
create_id_lem sequence request c = (refl, omega arith)
create_id_lem sequence sequence c = (refl, omega arith)

counter-after :
    (l : Kind) (ks : List Kind) (c : Counters)
    → counter l (after ks c) % size_t_mod ≡ (counter l c + count (is_same l) ks) % size_t_mod
unfolding after
counter-after l [] c = omega arith
counter-after l (k ∷ ks) c =
    omega (arith, counter-after l ks (create_id k c).1, (create_id_lem k l c).1)

same_self : (k : Kind) → bit (is_same k k) ≡ 1
same_self request = refl
same_self sequence = refl

-- If between two calls of `create_request_id` there are fewer than 2^64 - 1 others of it, and any
-- calls of `create_sequence_id`, in any order, then the two return different identifiers; and the
-- same the other way round.
pub ids_distinct :
    (k : Kind) (between : List Kind) (c : Counters)
    → suc (count (is_same k) between) < size_t_mod
    → (create_id k (after between (create_id k c).1)).0 ≢ (create_id k c).0
ids_distinct k between c few e = omega (
  arith,
  e,
  few,
  same_self k,
  (create_id_lem k k c).0,
  (create_id_lem k k c).1,
  counter-after k between (create_id k c).1,
  (create_id_lem k k (after between (create_id k c).1)).0,
)
