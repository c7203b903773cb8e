-- ===== src/Ids.antt =====
-- public/uni/Types.hpp, src/uni/utils/Utils.cpp: the identifiers of requests and tasks. Each comes
-- from an atomic `size_t` of its own that starts at 0; an increment is one atomic step.
pub mod Distinct
use uni_tasks.Prelude.{ℕ, ◌+◌, ◌%◌, ◌^◌}

-- `RequestId` and `SequenceId`: `size_t` of 64 bits.
abbrev pub RequestId : Type 0
RequestId = ℕ

abbrev pub SequenceId : Type 0
SequenceId = ℕ

abbrev pub size_t_mod : ℕ
size_t_mod = 2 ^ 64

-- `s_REQUEST_ID` and `s_SEQUENCE_ID`.
pub record Counters : Type 0 where
  pub request : ℕ
  pub sequence : ℕ

abbrev pub fresh_counters : Counters
fresh_counters = record { request = 0; sequence = 0 }

unfoldable pub create_request_id : Counters → RequestId × Counters
create_request_id c = let id = (c.request + 1) % size_t_mod in (id, record c { request = id })

unfoldable pub create_sequence_id : Counters → SequenceId × Counters
create_sequence_id c = let id = (c.sequence + 1) % size_t_mod in (id, record c { sequence = id })
