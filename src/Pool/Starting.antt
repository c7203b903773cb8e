-- ===== src/Pool/Starting.antt =====
-- ThreadPoolImpl.hpp: `start_impl` and `do_start` cut at the moments between which other threads may
-- act. A new thread runs from its creation on; the pool knows it when `do_start` has stored it.
use uni_tasks.Prelude.{
  ℕ, zero, suc, ◌+◌, ◌≡◌, refl, sym, ◌∙◌, ap, Bool-cases, inl, inr, true, false, List, [], ◌∷◌,
  ◌++◌, if◌then◌else◌, ltb, lt→ltb, arith,
}
use mathlib.Core.List.{append-nil, append_assoc}
use uni_tasks.Prelude.Int.{ℤ, pos, ◌≤ℤ◌}
use uni_tasks.Queue.Ordered
use uni_tasks.Errors.{Result, ok, throw, logic_error, pool_already_started}
use uni_tasks.Pool.{
  TaskType, entering, running, wake_thread, Thread, Pool, new_pool, spawn, start_impl,
  add_task_impl, push_task, take_turn, on_one_of_threads_impl,
}

-- Where the thread stands that has called `start`: before the test of `m_started`, before the store,
-- at the loop of `do_start` with `made` threads stored, between the creation of a thread and its
-- `push_back`, or back from the call.
pub data Starter {ℓ} (A : Type ℓ) : Type ℓ where
  tests : Starter A
  sets : Starter A
  loops : (made : ℕ) → Starter A
  stores : (made : ℕ) → Thread A → Starter A
  came_back : Result (Unit {0}) → Starter A

-- The steps of the loop, with `left` threads to make.
abbrev loop_steps : (left : ℕ) → ℕ
loop_steps zero = 1
loop_steps (suc left) = suc (suc (loop_steps left))

module _ {ℓ} {A : Type ℓ} where
  unfoldable pub create_thread : (id : ℕ) → Thread A
  create_thread id = record { id = id; joinable = true; stage = entering }

  unfoldable pub store_thread : Thread A → Pool A → Pool A
  store_thread th p = record p { threads = p.threads ++ th ∷ [] }

  -- The loop of `do_start`: the test of its condition, or the creation of a thread and its storing.
  unfoldable pub do_start : (ids : ℕ → ℕ) → (made : ℕ) → Pool A → Starter A × Pool A
  unfolding create_thread
  do_start ids made p =
      if ltb made p.threads_count
      then (stores made (create_thread (ids made)), p)
      else (came_back (ok tt), p)

  -- One step of the thread that has called `start`. `ids` are the ids of the new threads.
  unfoldable pub advance : (ids : ℕ → ℕ) → Starter A × Pool A → Starter A × Pool A
  unfolding do_start store_thread
  advance ids (tests, p) =
      if p.started then (came_back (throw (logic_error pool_already_started)), p) else (sets, p)
  advance ids (sets, p) = (loops 0, record p { started = true })
  advance ids (loops made, p) = do_start ids made p
  advance ids (stores made th, p) = (loops (suc made), store_thread th p)
  advance ids (came_back r, p) = (came_back r, p)

  -- The steps of the call, when nothing happens in between.
  unfoldable alone : (steps : ℕ) → (ids : ℕ → ℕ) → Starter A × Pool A → Starter A × Pool A
  unfolding advance
  alone zero ids s = s
  alone (suc n) ids s = alone n ids (advance ids s)

  advance-started :
      (ids : ℕ → ℕ) (p : Pool A)
      → p.started ≡ true
      → advance ids (tests, p) ≡ (came_back (throw (logic_error pool_already_started)), p)
  unfolding advance
  advance-started ids p h = rw (h, advance) refl

  advance-not_started :
      (ids : ℕ → ℕ) (p : Pool A) → p.started ≡ false → advance ids (tests, p) ≡ (sets, p)
  unfolding advance
  advance-not_started ids p h = rw (h, advance) refl

  do_start-made :
      (ids : ℕ → ℕ) (made : ℕ) (p : Pool A)
      → ltb made p.threads_count ≡ false
      → do_start ids made p ≡ (came_back (ok tt), p)
  unfolding do_start
  do_start-made ids made p h = rw (h, do_start) refl

  do_start-creates :
      (ids : ℕ → ℕ) (made : ℕ) (p : Pool A)
      → ltb made p.threads_count ≡ true
      → do_start ids made p ≡ (stores made (create_thread (ids made)), p)
  unfolding do_start create_thread
  do_start-creates ids made p h = rw (h, do_start) refl

  came_back-alone :
      (n : ℕ) (ids : ℕ → ℕ) (r : Result (Unit {0})) (p : Pool A)
      → alone n ids (came_back r, p) ≡ (came_back r, p)
  unfolding alone
  came_back-alone zero ids r p = refl
  came_back-alone (suc n) ids r p = came_back-alone n ids r p

  alone-loops :
      (left made : ℕ) (ids rest : ℕ → ℕ) (p : Pool A)
      → p.threads_count ≡ made + left
      → ((i : ℕ) → rest i ≡ ids (made + i))
      → alone (loop_steps left) ids (loops made, p)
        ≡ (came_back (ok tt), record p { threads = p.threads ++ spawn left rest })
  unfolding alone spawn
  alone-loops zero made ids rest p count same =
      do_start-made ids made p (ground (arith, count))
      ∙ ap (λ ths. (came_back (ok tt), record p { threads = ths })) (sym (append-nil p.threads))
  alone-loops (suc left) made ids rest p count same =
      ap (λ s. alone (suc (loop_steps left)) ids s)
        (do_start-creates ids made p (ground (arith, count)))
      ∙ alone-loops left (suc made) ids (λ i. rest (suc i))
          (store_thread (create_thread (ids made)) p) (omega (arith, count))
          (λ i. same (suc i) ∙ ap ids (omega arith))
      ∙ ap (λ ths. (came_back (ok tt), record p { threads = ths }))
          (append_assoc p.threads (create_thread (ids made) ∷ []) (spawn left (λ i. rest (suc i)))
            ∙ ap (λ id. p.threads ++ create_thread id ∷ spawn left (λ i. rest (suc i)))
                (sym (same 0 ∙ ap ids (omega arith))))

  -- Then the steps make up `start_impl`.
  alone-start_impl :
      (ids : ℕ → ℕ) (p : Pool A)
      → alone (suc (suc (loop_steps p.threads_count))) ids (tests, p)
        ≡ (came_back (start_impl ids p).0, (start_impl ids p).1)
  unfolding alone start_impl
  alone-start_impl ids p = elim (Bool-cases p.started) [
    | inl on ↦
        ap (λ s. alone (suc (loop_steps p.threads_count)) ids s) (advance-started ids p on)
        ∙ came_back-alone (suc (loop_steps p.threads_count)) ids _ p
        ∙ ap (λ (s : Result (Unit {0}) × Pool A). (came_back s.0, s.1)) (sym (start_impl-on p on))
    | inr off ↦
        ap (λ s. alone (suc (loop_steps p.threads_count)) ids s) (advance-not_started ids p off)
        ∙ alone-loops p.threads_count 0 ids ids (record p { started = true }) (omega arith)
            (λ i. ap ids (omega arith))
        ∙ ap (λ (s : Result (Unit {0}) × Pool A). (came_back s.0, s.1)) (sym (start_impl-off p off))
  ]
    where
      start_impl-on :
          (p : Pool A)
          → p.started ≡ true
          → start_impl ids p ≡ (throw (logic_error pool_already_started), p)
      start_impl-on p h = rw (h, start_impl) refl

      start_impl-off :
          (p : Pool A)
          → p.started ≡ false
          → start_impl ids p
            ≡ (ok tt, record p { started = true; threads = p.threads ++ spawn p.threads_count ids })
      start_impl-off p h = rw (h, start_impl) refl

-- What can happen while the call is under way: its next step, another thread's call of `add_task`,
-- a turn of the thread that is created and not yet stored, or the end of a wait of that thread.
pub data Move {ℓ} (A : Type ℓ) : Type ℓ where
  starter_acts : Move A
  adds : (choice : ℕ) → A → Move A
  new_thread_acts : (now : ℤ) → Move A
  new_thread_wakes : Move A

module _ {ℓ} {A : Type ℓ} (T : TaskType A) (ids : ℕ → ℕ) where
  unfoldable pub move : Move A → Starter A × Pool A → Starter A × Pool A
  unfolding advance
  move starter_acts s = advance ids s
  move (adds choice x) (starter, p) = (starter, (add_task_impl T choice x p).1)
  move (new_thread_acts now) (stores made th, p) =
      let (stage, q) = take_turn T now th.stage p.queue in
      (stores made (record th { stage = stage }), record p { queue = q })
  move new_thread_wakes (stores made th, p) = (stores made (wake_thread th), p)
  move _ s = s

  unfoldable pub run : List (Move A) → Starter A × Pool A → Starter A × Pool A
  unfolding move
  run [] s = s
  run (m ∷ ms) s = run ms (move m s)

  -- If a task is due, then for a new pool of at least one thread there is an order of steps of a
  -- call of `start`, calls of `add_task` by another thread, and turns of the thread that `start`
  -- has created and not yet stored, after which that thread runs the task while the pool says that
  -- it is not on one of its threads; after the next step of `start` the pool says that it is.
  pub new_thread-on_one_of_threads :
      (n choice : ℕ) (x : A) (now : ℤ)
      → T.delay now x ≤ℤ pos 0
      → (order : List (Move A)) × (made : ℕ) × (th : Thread A) × (p : Pool A) × (run order
            (tests, new_pool (suc n))
          ≡ (stores made th, p))
        × (th.stage ≡ running x)
        × (on_one_of_threads_impl th.id p ≡ false)
        × (on_one_of_threads_impl th.id (advance ids (stores made th, p)).1 ≡ true)
  unfolding run new_pool add_task_impl push_task take_turn Ordered.extract_or_wait
      on_one_of_threads_impl
  new_thread-on_one_of_threads n choice x now due = (
    starter_acts ∷ starter_acts ∷ starter_acts ∷ adds choice x ∷ new_thread_acts now ∷ [],
    0,
    record (create_thread (ids 0)) { stage = running x },
    record (new_pool (suc n)) { started = true },
    rw (lt→ltb 0 (suc n) (omega arith)) (ground (arith, due)),
    refl,
    refl,
    ground arith,
  )
