-- ===== src/Examples/Requests.antt =====
-- RequestImpl: requests whose callbacks count.
use uni_tasks.Prelude.{ℕ, zero, suc, ◌+◌, ◌≤◌, ◌≡◌, refl, true, Option, none, some, List, [], ◌∷◌}
use uni_tasks.Errors.{Call, ok, throw, logic_error, request_already_cancelled, bad_function_call}
use uni_tasks.Request.{
  Request, Callbacks, new_request_impl, create_request, start_impl, cancel_impl, start, cancel,
  starts, cancels, is_start, successes,
}
use uni_tasks.Request.Lifecycle.{spent, Apart, start_at_most_once, start-cancel}
use uni_tasks.Request.Threads.{tests_start, ended, run}
use uni_tasks.Request.Threads.Races.{start_twice}
use uni_tasks.Request.Within.{cancel_within_start}

abbrev counting : Callbacks ℕ ℕ
counting = record {
  on_start = λ f s. (ok (some 4), (s.0, s.1 + 1));
  on_cancel = λ g future s. (ok tt, (s.0, s.1 + 10));
}

counting-Apart : Apart counting
counting-Apart = record { start_apart = λ f s. refl; cancel_apart = λ g future s. refl }

start_at_most_once_example :
    successes counting is_start (starts ∷ cancels ∷ starts ∷ []) (create_request 6 1 2, 0) ≤ 1
start_at_most_once_example =
    start_at_most_once counting 6 1 2 0 (starts ∷ cancels ∷ starts ∷ []) counting-Apart

start-cancel_example :
    start counting (cancel counting (start counting (create_request 6 1 2, 0)).1).1
    ≡ (throw bad_function_call, (record (spent 6) { started = true }, 11))
start-cancel_example = start-cancel counting 6 1 2 0 1 11 (some 4) refl refl

-- The start callback cancels its own request.
abbrev cancelling : Callbacks ℕ ℕ
cancelling = record counting { on_start = λ f s. (ok (some 4), (cancel counting s).1) }

cancels_from_start :
    (start cancelling (create_request 6 1 2, 0)
      ≡ (ok tt, (record (spent 6) { future = some 4 }, 10)))
    × (cancel cancelling (record (spent 6) { future = some 4 }, 10) ≡ (
      throw (logic_error request_already_cancelled),
      (record (spent 6) { future = some 4 }, 10),
    ))
unfolding cancel_impl new_request_impl
cancels_from_start = cancel_within_start cancelling 6 1 2 0 10 (some 4) refl refl

-- When the start callback is called for the first time, it cancels its request and starts it again.
abbrev again : (w : ℕ) → Call (Request ℕ × ℕ) (Option ℕ)
again zero s = (ok (some 4), (start counting (cancel counting s).1).1)
again (suc w) s = counting.on_start 1 s

abbrev restarting : Callbacks ℕ ℕ
restarting = record counting { on_start = λ f s. again s.1 s }

-- Then both calls of `start` come back and the callback has been called twice.
starts_within_start :
    start restarting (create_request 6 1 2, 0)
    ≡ (ok tt, (record (spent 6) { started = true; future = some 4 }, 11))
unfolding start_impl cancel_impl new_request_impl
starts_within_start = refl

-- Each call of the start callback returns another future.
abbrev numbering : Callbacks ℕ ℕ
numbering = record counting { on_start = λ f s. (ok (some s.1), (s.0, s.1 + 1)) }

start_twice_example :
    (order : List ℕ) × (run numbering order
        (tests_start ∷ tests_start ∷ [], (create_request 6 1 2, 0))
      ≡ (
        ended (ok tt) ∷ ended (ok tt) ∷ [],
        (
          record (create_request 6 1 2) { start_callback = none; started = true; future = some 1 },
          2,
        ),
      ))
start_twice_example = start_twice numbering 6 1 2 0 1 2 (some 0) (some 1) refl refl
