-- ===== src/TaskDispatcher/Joining.antt =====
-- TaskDispatcher: what `stop` does up to the joins, in steps of its pools.
use uni_tasks.Prelude.{
  ◌≡◌, ◌⊎◌, String, refl, sym, subst, ap, ◌∙◌, Bool, true, false, [], ◌∷◌, map, All, Bool-cases,
  inl, inr, if◌then◌else◌,
}
use uni_tasks.Errors.{Exception, Result, ok, throw, logic_error, pool_already_stopped}
use uni_tasks.Tasks.{Task}
use uni_tasks.Pool.{
  Pool, begin_stop, clear_started, close, close_queue, wake_all, wake_thread, notify_all,
}
use uni_tasks.Queue
use uni_tasks.Pool.Tasks.{task_type}
use uni_tasks.Pool.System.{
  System, free, closing, joining, stop, closes, notifies, Reach, here, next,
}
use uni_tasks.Dispatcher.{Dispatcher, Pools, stop_all}
use uni_tasks.Dispatcher
use uni_tasks.TaskDispatcher.Steps.{Systems, pools_of, AllReach, AllReach-refl}

-- A started pool on the way to its `join`: it is not started any more, the queue is closed and holds
-- what it held, and no thread waits. A pool that is not started stays as it is.
abbrev pub brought : (started : Bool) → System Task → System Task
brought true s = record s {
  pool = record s.pool {
    queue = record s.pool.queue { closed = true };
    started = false;
    threads = map wake_thread s.pool.threads;
  };
  control = joining;
}
brought false s = s

-- The pools in turn, up to one that is not started.
unfoldable pub all_brought : Systems → Systems
all_brought [] = []
all_brought ((n, s) ∷ ss) =
    let rest = all_brought ss in
    (n, brought s.pool.started s) ∷ (if s.pool.started then rest else ss)

cleared : (p : Pool Task) → p.started ≡ true → record p { started = false } ≡ (clear_started p).1
unfolding clear_started
cleared p on = rw on refl

brought-Reach :
    (b : Bool) (s : System Task)
    → s.pool.started ≡ b
    → s.control ≡ free
    → Reach task_type s (brought b s)
unfolding close_queue Queue.close wake_all notify_all
brought-Reach true s on c =
    next (next (next here (stop c stopped)) (closes refl refl)) (notifies refl refl)
  where
    stopped : record s { pool = record s.pool { started = false }; control = closing } ≡ record s {
      pool = (clear_started s.pool).1;
      control = if s.pool.started then closing else free;
    }
    stopped =
        ap (λ p. record s { pool = p; control = closing }) (cleared s.pool on)
        ∙ ap
            (λ b. record s {
              pool = (clear_started s.pool).1;
              control = if b then closing else free;
            })
            (sym on)
brought-Reach false s off c = here

all_brought-AllReach :
    (ss : Systems) → All (λ e. e.1.control ≡ free) ss → AllReach ss (all_brought ss)
unfolding all_brought
all_brought-AllReach [] hs = tt
all_brought-AllReach ((n, s) ∷ ss) (c, hs) =
    (refl, brought-Reach s.pool.started s refl c, rest s.pool.started (all_brought-AllReach ss hs))
  where
    rest :
        (b : Bool) → AllReach ss (all_brought ss) → AllReach ss (if b then all_brought ss else ss)
    rest true h = h
    rest false h = AllReach-refl ss

-- `stop` of a pool that is started, up to its `join`, and of one that is not.
begin_stop-started :
    (s : System Task) → s.pool.started ≡ true → begin_stop s.pool ≡ (ok tt, (brought true s).pool)
unfolding begin_stop clear_started close close_queue Queue.close wake_all notify_all
begin_stop-started s on = rw on refl

begin_stop-not_started :
    (s : System Task)
    → s.pool.started ≡ false
    → begin_stop s.pool ≡ (throw (logic_error pool_already_stopped), s.pool)
unfolding begin_stop clear_started
begin_stop-not_started s off = rw off refl

-- `stop_all` after `stop` of the first pool.
abbrev after_first : String → Pools → Result (Unit {0}) × Pool Task → Result (Unit {0}) × Pools
after_first n ps r = elim r.0 [
  | ok _ ↦ ((stop_all (λ p. p) ps).0, (n, r.1) ∷ (stop_all (λ p. p) ps).1)
  | throw e ↦ (throw e, (n, r.1) ∷ ps)
]

all_brought-stop_all :
    (ss : Systems) → pools_of (all_brought ss) ≡ (stop_all (λ p. p) (pools_of ss)).1
unfolding all_brought stop_all
all_brought-stop_all [] = refl
all_brought-stop_all ((n, s) ∷ ss) = elim (Bool-cases s.pool.started) [
  | inl on ↦
      ap (λ b. pools_of ((n, brought b s) ∷ (if b then all_brought ss else ss))) on
      ∙ ap (λ ps. (n, (brought true s).pool) ∷ ps) (all_brought-stop_all ss)
      ∙ ap (λ r. (after_first n (pools_of ss) r).1) (sym (begin_stop-started s on))
  | inr off ↦
      ap (λ b. pools_of ((n, brought b s) ∷ (if b then all_brought ss else ss))) off
      ∙ ap (λ r. (after_first n (pools_of ss) r).1) (sym (begin_stop-not_started s off))
]

abbrev pub AllJoining : Systems → Type 0
AllJoining = All (λ e. e.1.control ≡ joining)

throw-ok : (e : Exception) → ◌≡◌ {A = Result (Unit {0})} (throw e) (ok tt) → ⊥
throw-ok e h = cc

Result-cases : (r : Result (Unit {0})) → (r ≡ ok tt) ⊎ ((e : Exception) × (r ≡ throw e))
Result-cases (ok _) = inl refl
Result-cases (throw e) = inr (e, refl)

all_brought-joining :
    (ss : Systems) → (stop_all (λ p. p) (pools_of ss)).0 ≡ ok tt → AllJoining (all_brought ss)
unfolding all_brought stop_all
all_brought-joining [] back = tt
all_brought-joining ((n, s) ∷ ss) back = elim (Bool-cases s.pool.started) [
  | inl on ↦
      subst (λ b. AllJoining ((n, brought b s) ∷ (if b then all_brought ss else ss))) (sym on)
        (
          refl,
          all_brought-joining ss
              (ap (λ r. (after_first n (pools_of ss) r).0) (sym (begin_stop-started s on)) ∙ back),
        )
  | inr off ↦
      let thrown =
        ap (λ r. (after_first n (pools_of ss) r).0) (sym (begin_stop-not_started s off)) in
      absurd (throw-ok _ (thrown ∙ back))
]

-- If the pools of a dispatcher are those of systems, each a pool among its clients and workers,
-- with no `stop` under way, then `stop` of the dispatcher, up to the joins, brings one pool after
-- the other to its join, up to the first that is not started; that one and those behind it stay as
-- they are. Each gets there by steps of its own; it is then not started, its queue is closed and
-- holds the tasks that it held, and its waiting threads are woken. Either `stop` comes back and
-- all pools are at their joins, or it throws.
pub stop-all_brought :
    (ss : Systems) (d : Dispatcher)
    → pools_of ss ≡ d.pools
    → All (λ e. e.1.control ≡ free) ss
    → (pools_of (all_brought ss) ≡ (Dispatcher.stop (λ p. p) d).1.pools)
      × AllReach ss (all_brought ss)
      × ((((Dispatcher.stop (λ p. p) d).0 ≡ ok tt) × AllJoining (all_brought ss))
          ⊎ ((e : Exception) × ((Dispatcher.stop (λ p. p) d).0 ≡ throw e)))
unfolding Dispatcher.stop
stop-all_brought ss d h free_all = (
  all_brought-stop_all ss ∙ ap (λ ps. (stop_all (λ p. p) ps).1) h,
  all_brought-AllReach ss free_all,
  elim (Result-cases (stop_all (λ p. p) d.pools).0) [
    | inl back ↦ inl (back, all_brought-joining ss (ap (λ ps. (stop_all (λ p. p) ps).0) h ∙ back))
    | inr thrown ↦ inr thrown
  ],
)
