-- ===== src/Pool/System/Parts.antt =====
-- ThreadPoolImpl.hpp: the invariant of a pool, and the changes of its queue and its threads.
use uni_tasks.Prelude.{
  ℕ, ◌+◌, ◌≡◌, refl, Bool, some, List, [], ◌∷◌, ◌++◌, map, All-map, All-append, All-append_left,
  All-append_right, count, inl, inr, Bool-cases, arith,
}
use uni_tasks.Prelude.Int.{ℤ}
use uni_tasks.Errors.{Result}
use uni_tasks.OrderedSet.{IsSorted}
use uni_tasks.Queue.{Queue}
use uni_tasks.Pool.{
  TaskType, Stage, entering, Thread, Pool, new_pool, start_impl, spawn, clear_started, close_queue,
  wake_all, join, after_run,
}
use uni_tasks.Pool.Calls.{joined, join-some}
use uni_tasks.Pool.System.{System, initial}
use uni_tasks.Pool.System.Stages.{
  IsSound, Follows, IsSound-Follows, wake-IsSound, runs, count_running, Everywhere,
  count_running-append, count_running-spawn, count_running-notify_all, spawn-Everywhere,
  notify_all-Everywhere,
}

-- A worker goes on after a task by taking the next one.
pub after_run-entering {ℓ} :
    {A : Type ℓ} (r : Result (Unit {0})) (stage : Stage A)
    → after_run r ≡ some stage
    → stage ≡ entering
unfolding after_run
after_run-entering r stage h = ground arith

pub count_running-joined {ℓ} :
    {A : Type ℓ} (p : A → Bool) (self : ℕ) (ths : List (Thread A))
    → count_running p (map (joined self) ths) ≡ count_running p ths
count_running-joined p self [] = refl
count_running-joined p self (th ∷ ths) = ground (arith, count_running-joined p self ths)

module _ {ℓ} {A : Type ℓ} (T : TaskType A) where
  open T use {before, order, request_id}

  -- The queue is in order, the stages of the workers fit it, and each task that was taken is
  -- pending, running, finished, cancelled or was dropped: once.
  pub record Holds (q : Queue A) (ths : List (Thread A))
      (accepted finished cancelled dropped : List A) : Type ℓ where
    pub ordered : IsSorted before q.elements
    pub sound : Everywhere (IsSound q) ths
    pub kept :
        (p : A → Bool)
        → count p accepted
          ≡ count p q.elements
            + count_running p ths
            + count p finished
            + count p cancelled
            + count p dropped

  abbrev pub Inv : System A → Type ℓ
  Inv s = Holds s.pool.queue s.pool.threads s.accepted s.finished s.cancelled s.dropped

  pub initial-Inv : (n : ℕ) (now : ℤ) → Inv (initial n now)
  unfolding new_pool
  initial-Inv n now = record { ordered = tt; sound = tt; kept = λ p. refl }

  pub follow :
      (q q' : Queue A)
      → Follows q q'
      → (ths : List (Thread A)) → Everywhere (IsSound q) ths
      → Everywhere (IsSound q') ths
  follow q q' f ths h = All-map _ _ (λ th. IsSound-Follows q q' th.stage f) ths h

  module _ {accepted finished cancelled dropped : List A} where
    pub start-Holds :
        (ids : ℕ → ℕ) (p : Pool A)
        → Holds p.queue p.threads accepted finished cancelled dropped
        → Holds
            (start_impl ids p).1.queue
            (start_impl ids p).1.threads
            accepted
            finished
            cancelled
            dropped
    unfolding start_impl
    start-Holds ids p v = elim (Bool-cases p.started) [
      | inl e ↦ rw e v
      | inr e ↦ rw e (record {
        ordered = v.ordered;
        sound =
            All-append _ p.threads (spawn p.threads_count ids) v.sound
              (spawn-Everywhere (IsSound p.queue) tt p.threads_count ids);
        kept = λ q. omega (
          arith,
          v.kept q,
          count_running-append q p.threads (spawn p.threads_count ids),
          count_running-spawn {A = A} q p.threads_count ids,
        );
      })
    ]

    pub clear_started-Holds :
        (p : Pool A)
        → Holds p.queue p.threads accepted finished cancelled dropped
        → Holds
            (clear_started p).1.queue
            (clear_started p).1.threads
            accepted
            finished
            cancelled
            dropped
    unfolding clear_started
    clear_started-Holds p v = elim (Bool-cases p.started) [ inl e ↦ rw e v | inr e ↦ rw e v ]

    pub close_queue-Holds :
        (p : Pool A)
        → Holds p.queue p.threads accepted finished cancelled dropped
        → Holds (close_queue p).queue p.threads accepted finished cancelled dropped
    unfolding close_queue
    close_queue-Holds p v = record {
      ordered = v.ordered;
      sound = follow p.queue (close_queue p).queue ((λ h. refl), λ h k. k) p.threads v.sound;
      kept = v.kept;
    }

    pub wake_all-Holds :
        (p : Pool A)
        → Holds p.queue p.threads accepted finished cancelled dropped
        → Holds p.queue (wake_all p).threads accepted finished cancelled dropped
    unfolding wake_all
    wake_all-Holds p v = record {
      ordered = v.ordered;
      sound = notify_all-Everywhere _ (wake-IsSound p.queue) p.threads v.sound;
      kept = λ q. omega (arith, v.kept q, count_running-notify_all q p.threads);
    }

    pub joined-Holds :
        (self : ℕ) (q : Queue A) (ths us : List (Thread A))
        → join self ths ≡ some us
        → Holds q ths accepted finished cancelled dropped
        → Holds q us accepted finished cancelled dropped
    joined-Holds self q ths us h v = record {
      ordered = v.ordered;
      sound = rw ((join-some self ths us h).0) (keeps ths v.sound);
      kept = λ p.
          rw ((join-some self ths us h).0)
            (omega (arith, v.kept p, count_running-joined p self ths));
    }
      where
        keeps :
            (vs : List (Thread A))
            → Everywhere (IsSound q) vs
            → Everywhere (IsSound q) (map (joined self) vs)
        keeps [] hs = tt
        keeps (th ∷ vs) hs = ground (arith, keeps vs hs.1)

    -- One thread goes from a stage to another.
    pub replace-Holds :
        (q q' : Queue A) (front : List (Thread A)) (th : Thread A) (back : List (Thread A))
        (stage : Stage A)
        → Follows q q'
        → IsSorted before q'.elements
        → IsSound q' stage
        → Holds q (front ++ th ∷ back) accepted finished cancelled dropped
        → {accepted' finished' cancelled' : List A}
        → ((p : A → Bool)
            → count p accepted'
                + count p q.elements
                + runs p th.stage
                + count p finished
                + count p cancelled
              ≡ count p accepted
                + count p q'.elements
                + runs p stage
                + count p finished'
                + count p cancelled')
        → Holds q'
            (front ++ record th { stage = stage } ∷ back)
            accepted'
            finished'
            cancelled'
            dropped
    replace-Holds q q' front th back stage f o s v k = record {
      ordered = o;
      sound =
          All-append _ front (record th { stage = stage } ∷ back)
            (follow q q' f front (All-append_left _ front (th ∷ back) v.sound))
            (s, follow q q' f back (All-append_right _ front (th ∷ back) v.sound).1);
      kept = λ p. omega (
        arith,
        v.kept p,
        k p,
        count_running-append p front (th ∷ back),
        count_running-append p front (record th { stage = stage } ∷ back),
      );
    }
