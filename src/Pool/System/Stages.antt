-- ===== src/Pool/System/Stages.antt =====
-- ThreadPoolImpl.hpp: what the stages of the workers say of the queue, and which hold a task.
use uni_tasks.Prelude.{
  ℕ, zero, suc, ◌+◌, ◌-◌, ◌≡◌, refl, Bool, true, List, [], ◌∷◌, ◌++◌, All, bit, arith,
}
use uni_tasks.Errors.{Result, ok, throw}
use uni_tasks.Queue.{Queue, draining, is_empty}
use uni_tasks.Pool.{
  Stage, wants_mutex, entering, waiting, woken, running, ended, wake, notify_one, notified,
  notify_all, spawn, Thread,
}

module _ {ℓ} {A : Type ℓ} where
  -- A worker in the second loop of `wait_pop` has seen the queue closed; one that has ended has
  -- seen it closed and empty.
  abbrev pub IsSound : Queue A → Stage A → Type 0
  IsSound q (waiting (draining _) _) = q.closed ≡ true
  IsSound q (woken (draining _)) = q.closed ≡ true
  IsSound q ended = (q.closed ≡ true) × (is_empty q.elements ≡ true)
  IsSound q _ = Unit

  -- A change of the queue that opens no closed queue and fills no closed and empty one.
  abbrev pub Follows : Queue A → Queue A → Type 0
  Follows q q' =
      (q.closed ≡ true → q'.closed ≡ true)
      × (q.closed ≡ true → is_empty q.elements ≡ true → is_empty q'.elements ≡ true)

  pub IsSound-Follows :
      (q q' : Queue A) (stage : Stage A) → Follows q q' → IsSound q stage → IsSound q' stage
  IsSound-Follows q q' (waiting (draining _) _) f h = f.0 h
  IsSound-Follows q q' (woken (draining _)) f h = f.0 h
  IsSound-Follows q q' ended f h = (f.0 h.0, f.1 h.0 h.1)
  IsSound-Follows q q' _ f h = tt

  pub wake-IsSound : (q : Queue A) (stage : Stage A) → IsSound q stage → IsSound q (wake stage)
  wake-IsSound q (waiting (draining _) _) h = h
  wake-IsSound q (waiting _ _) h = tt
  wake-IsSound q entering h = h
  wake-IsSound q (woken _) h = h
  wake-IsSound q (running _) h = h
  wake-IsSound q ended h = h

  -- The tasks that pass a test and are being run.
  abbrev pub runs : (A → Bool) → Stage A → ℕ
  runs p (running x) = bit (p x)
  runs p _ = 0

  pub runs-wake : (p : A → Bool) (stage : Stage A) → runs p (wake stage) ≡ runs p stage
  runs-wake p (waiting _ _) = refl
  runs-wake p _ = refl

  abbrev pub count_running : (A → Bool) → List (Thread A) → ℕ
  count_running p [] = 0
  count_running p (th ∷ ths) = runs p th.stage + count_running p ths

  pub count_running-append :
      (p : A → Bool) (front back : List (Thread A))
      → count_running p (front ++ back) ≡ count_running p front + count_running p back
  count_running-append p [] back = omega arith
  count_running-append p (th ∷ front) back = omega (arith, count_running-append p front back)

  pub count_running-spawn : (p : A → Bool) (n : ℕ) (ids : ℕ → ℕ) → count_running p (spawn n ids) ≡ 0
  unfolding spawn
  count_running-spawn p zero ids = refl
  count_running-spawn p (suc n) ids = omega (arith, count_running-spawn p n (λ i. ids (suc i)))

  pub count_running-notify_one :
      (p : A → Bool) (choice : ℕ) (ths : List (Thread A))
      → count_running p (notify_one choice ths) ≡ count_running p ths
  unfolding notify_one
  count_running-notify_one p choice [] = refl
  count_running-notify_one p choice (th ∷ ths) = ground (
    arith,
    runs-wake p th.stage,
    count_running-notify_one p (choice - 1) ths,
    count_running-notify_one p choice ths,
  )

  pub count_running-notified :
      (p : A → Bool) (choice : ℕ) (r : Result (Unit {0})) (ths : List (Thread A))
      → count_running p (notified choice r ths) ≡ count_running p ths
  unfolding notified
  count_running-notified p choice (ok _) ths = count_running-notify_one p choice ths
  count_running-notified p choice (throw _) ths = refl

  -- Who wants the mutex runs no task.
  pub runs-wants_mutex :
      (p : A → Bool) (stage : Stage A) → wants_mutex stage ≡ true → runs p stage ≡ 0
  runs-wants_mutex p (running x) h = cc
  runs-wants_mutex p _ h = refl

  pub count_running-notify_all :
      (p : A → Bool) (ths : List (Thread A))
      → count_running p (notify_all ths) ≡ count_running p ths
  unfolding notify_all
  count_running-notify_all p [] = refl
  count_running-notify_all p (th ∷ ths) =
      omega (arith, runs-wake p th.stage, count_running-notify_all p ths)

-- A property of the threads that a notification, a new thread or `join` does not harm.
module _ {ℓ κ} {A : Type ℓ} (P : Stage A → Type κ) where
  abbrev pub Everywhere : List (Thread A) → Type κ
  Everywhere = All (λ th. P th.stage)

  pub spawn-Everywhere : P entering → (n : ℕ) (ids : ℕ → ℕ) → Everywhere (spawn n ids)
  unfolding spawn
  spawn-Everywhere h zero ids = tt
  spawn-Everywhere h (suc n) ids = (h, spawn-Everywhere h n (λ i. ids (suc i)))

  pub notify_one-Everywhere :
      ((stage : Stage A) → P stage → P (wake stage))
      → (choice : ℕ) (ths : List (Thread A)) → Everywhere ths
      → Everywhere (notify_one choice ths)
  unfolding notify_one
  notify_one-Everywhere h choice [] hs = tt
  notify_one-Everywhere h choice (th ∷ ths) hs = ground (
    arith,
    h th.stage hs.0,
    notify_one-Everywhere h (choice - 1) ths hs.1,
    notify_one-Everywhere h choice ths hs.1,
  )

  pub notify_all-Everywhere :
      ((stage : Stage A) → P stage → P (wake stage))
      → (ths : List (Thread A)) → Everywhere ths
      → Everywhere (notify_all ths)
  unfolding notify_all
  notify_all-Everywhere h [] hs = tt
  notify_all-Everywhere h (th ∷ ths) hs = (h th.stage hs.0, notify_all-Everywhere h ths hs.1)

  pub notified-Everywhere :
      ((stage : Stage A) → P stage → P (wake stage))
      → (choice : ℕ) (r : Result (Unit {0})) (ths : List (Thread A)) → Everywhere ths
      → Everywhere (notified choice r ths)
  unfolding notified
  notified-Everywhere h choice (ok _) ths hs = notify_one-Everywhere h choice ths hs
  notified-Everywhere h choice (throw _) ths hs = hs
