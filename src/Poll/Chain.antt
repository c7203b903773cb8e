-- ===== src/Poll/Chain.antt =====
-- PollEngineImpl.cpp: the polls of an engine over many rounds, while workers and other clients of the
-- pool act in between.
use uni_tasks.Prelude.{
  ℕ, ◌≤◌, ◌≡◌, refl, subst, ap, if◌then◌else◌, Bool, true, false, some, inl, inr, bit, count, arith,
}
use uni_tasks.Prelude.Int.{ℤ}
use uni_tasks.Errors.{Result, ok, throw, Call, and_then}
use uni_tasks.OrderedSet.{IsSorted}
use uni_tasks.Tasks.{Task, task_before}
use uni_tasks.Pool.{Pool, Stage, wants_mutex, running, take_turn}
use uni_tasks.Pool.Tasks.{task_type}
use uni_tasks.Pool.System.Stages.{IsSound}
use uni_tasks.Pool.System.Turn.{GoodTurn, take_turn-GoodTurn}
use uni_tasks.Dispatcher.{find}
use uni_tasks.TaskDispatcherBasic
use uni_tasks.Dispatcher.Execute.{assert_execution_context_lem}
use uni_tasks.Poll.{State, run_impl, start_impl, stop_impl, poll_impl, call_back}
use uni_tasks.Poll.Pending.{
  is_poll, is_stray, no_strays, HasPolls, HasPolls-weaken, run_impl-HasPolls, stop_impl-HasPolls,
}

module _ {ℓ} {W : Type ℓ} (self poll : ℕ) (call : ℕ → Call (State W) (Unit {0})) where
  -- A change that leaves the polls of the engine where they are, and the engine's pool and request
  -- id: what other clients and workers do, and what most callbacks do.
  pub record Spares (s t : State W) : Type ℓ where
    pub name : t.engine.pool_name ≡ s.engine.pool_name
    pub id : t.engine.request_id ≡ s.engine.request_id
    pub spared :
        (p : Pool Task)
        → find s.engine.pool_name s.runtime.dispatcher.pools ≡ some p
        → (q : Pool Task) × (find s.engine.pool_name t.runtime.dispatcher.pools ≡ some q)
          × (IsSorted task_before p.queue.elements → IsSorted task_before q.queue.elements)
          × ((f : Task → Bool)
              → ((x : Task) → f x ≡ true → is_poll self poll x ≡ true)
              → count f q.queue.elements ≡ count f p.queue.elements)

  -- A worker takes a poll of the engine from the queue and is about to run it.
  pub record Takes (s t : State W) : Type ℓ where
    pub before : Pool Task
    pub after : Pool Task
    pub found : find s.engine.pool_name s.runtime.dispatcher.pools ≡ some before
    pub now : ℤ
    pub stage : Stage Task
    pub wants : wants_mutex stage ≡ true
    pub sound : IsSound before.queue stage
    pub task : Task
    pub is : is_poll self poll task ≡ true
    pub turn : take_turn task_type now stage before.queue ≡ (running task, after.queue)
    pub engine : t.engine ≡ s.engine
    pub left : find s.engine.pool_name t.runtime.dispatcher.pools ≡ some after

  -- The states that follow on a `start` in the state `s`; the flag tells that a worker runs a poll.
  -- The run of a poll may throw, as the callback may, and it may find the engine stopped.
  pub data Chain (s : State W) : Bool → State W → Type ℓ where
    started : (choice : ℕ) (now : ℤ) → Chain s false (start_impl self poll choice now s).1
    others : {b : Bool} {t u : State W} → Chain s b t → Spares t u → Chain s b u
    taken : {t u : State W} → Chain s false t → Takes t u → Chain s true u
    polled :
        (thread choice : ℕ) (now : ℤ) {t : State W}
        → Chain s true t
        → Spares t (call_back self poll call t.engine.callback t).1
        → Chain s false (poll_impl self poll call thread choice now t).1

  Spares-HasPolls :
      (n : ℕ) (s t : State W) → Spares s t → HasPolls self poll n s → HasPolls self poll n t
  Spares-HasPolls n s t e h =
      let same = e.spared h.pool h.found in
      record {
        pool = same.0;
        found = rw e.name same.1;
        sorted = same.2 h.sorted;
        few = rw (same.3 (is_poll self poll) (λ x k. k)) h.few;
        known =
            rw (e.id, same.3 (is_stray self poll s.engine.request_id) (λ x k. ground arith))
              h.known;
      }

  Takes-HasPolls : (s t : State W) → Takes s t → HasPolls self poll 1 s → HasPolls self poll 0 t
  Takes-HasPolls s t e h = record {
    pool = e.after;
    found = rw e.engine e.left;
    sorted = good.sorted (subst (λ p. IsSorted task_before p.queue.elements) same h.sorted);
    few = none_left;
    known = no_strays self poll t.engine.request_id e.after.queue.elements none_left;
  }
    where
      same : h.pool ≡ e.before
      same = cc (h.found, e.found)

      good : GoodTurn task_type e.now e.before.queue (running e.task) e.after.queue
      good =
          subst (λ r. GoodTurn task_type e.now e.before.queue r.0 r.1) e.turn
            (take_turn-GoodTurn task_type e.now e.stage e.before.queue e.wants e.sound)

      none_left : count (is_poll self poll) e.after.queue.elements ≤ 0
      none_left = omega (
        arith,
        subst (λ p. count (is_poll self poll) p.queue.elements ≤ 1) same h.few,
        good.kept (is_poll self poll),
        ap bit e.is,
      )

  -- What follows on the callback.
  and_then-HasPolls :
      (choice : ℕ) (now : ℤ) (r : Result (Unit {0}) × State W)
      → HasPolls self poll 0 r.1
      → HasPolls self poll 1 (and_then r (λ _. run_impl self poll choice now)).1
  and_then-HasPolls choice now (ok tt, s) h = run_impl-HasPolls self poll choice now s h
  and_then-HasPolls choice now (throw _, s) h = HasPolls-weaken self poll 0 1 s (omega arith) h

  poll_impl-HasPolls :
      (thread choice : ℕ) (now : ℤ) (t : State W)
      → Spares t (call_back self poll call t.engine.callback t).1
      → HasPolls self poll 0 t
      → HasPolls self poll 1 (poll_impl self poll call thread choice now t).1
  unfolding poll_impl TaskDispatcherBasic.assert_execution_context
  poll_impl-HasPolls thread choice now t e h =
      elim (assert_execution_context_lem thread t.engine.pool_name t.runtime.dispatcher) [
        | inl (_, e') ↦ rw e' stays
        | inr (inl (_, _, _, e')) ↦ rw e' (either t.engine.running)
        | inr (inr (_, _, _, e')) ↦ rw e' stays
      ]
    where
      stays : HasPolls self poll 1 t
      stays = HasPolls-weaken self poll 0 1 t (omega arith) h

      either :
          (b : Bool)
          → HasPolls self poll 1
              (if b
                then and_then
                    (call_back self poll call t.engine.callback t)
                    (λ _. run_impl self poll choice now)
                else (ok tt, t)).1
      either true =
          and_then-HasPolls choice now (call_back self poll call t.engine.callback t)
            (Spares-HasPolls 0 t _ e h)
      either false = stays

  -- How many polls may be pending.
  abbrev pub room : Bool → ℕ
  room true = 0
  room false = 1

  -- If the engine's pool holds no poll of the engine before one `start`, then in every state that
  -- follows, by rounds and by changes that leave the polls, the pool's name and the request id
  -- alone, the queue is in order and holds at most one poll of the engine, none while a worker
  -- runs one, and its request id is the one that the engine knows.
  pub Chain-HasPolls :
      (s : State W) (b : Bool) (t : State W)
      → HasPolls self poll 0 s
      → Chain s b t
      → HasPolls self poll (room b) t
  unfolding start_impl
  Chain-HasPolls s b t h (started choice now) =
      run_impl-HasPolls self poll choice now
        (record s { engine = record s.engine { running = true } })
        (record { pool = h.pool; found = h.found; sorted = h.sorted; few = h.few; known = h.known })
  Chain-HasPolls s b t h (others c e) = Spares-HasPolls (room b) _ t e (Chain-HasPolls s b _ h c)
  Chain-HasPolls s b t h (taken c e) = Takes-HasPolls _ t e (Chain-HasPolls s false _ h c)
  Chain-HasPolls s b t h (polled thread choice now c e) =
      poll_impl-HasPolls thread choice now _ e (Chain-HasPolls s true _ h c)

  -- If the engine's pool holds no poll of the engine before one `start`, then in every state that
  -- follows, `stop` leaves the engine not running and no poll of it in the queue. What follows are
  -- rounds, in which a worker takes a poll and runs it to its end or to a throw, and changes by
  -- callbacks, clients and workers that leave the polls, the pool's name and the request id alone.
  pub Chain-stop_impl :
      (s : State W) (b : Bool) (t : State W)
      → HasPolls self poll 0 s
      → Chain s b t
      → ((stop_impl t).1.engine.running ≡ false) × HasPolls self poll 0 (stop_impl t).1
  unfolding stop_impl
  Chain-stop_impl s b t h c =
      (refl, stop_impl-HasPolls self poll (room b) t (Chain-HasPolls s b t h c))
