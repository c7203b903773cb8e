-- ===== src/Pool/System/Stop.antt =====
-- ThreadPoolImpl.hpp: `join` after the queue is closed, and the workers that it waits for.
use uni_tasks.Prelude.{
  ℕ, ◌≡◌, refl, sym, ap, ◌∙◌, subst, Bool, true, some, List, [], ◌∷◌, ◌++◌, map, All, arith,
}
use mathlib.Core.List.{append_assoc}
use uni_tasks.Prelude.Int.{+ℤ_parts, ℤ, pos}
use uni_tasks.Tasks.{Task, ticks_per_ms, get_task_delay}
use uni_tasks.Tasks.Time.{delay-le-zero_iff}
use uni_tasks.Pool.Tasks.{task_type}
use uni_tasks.Queue.{draining, is_empty}
use uni_tasks.Pool.{TaskType, Stage, waiting, woken, ended, has_ended, Thread, join}
use uni_tasks.Pool.Calls.{joined}
use uni_tasks.Pool.System.{System, Control, joining, initial, Reach}
use uni_tasks.Pool.System.Stages.{Everywhere, IsSound}
use uni_tasks.Pool.System.Parts.{Inv}
use uni_tasks.Pool.System.Invariant.{Reach-initial-Inv}
use uni_tasks.Pool.System.Dozing.{IsUp}
use uni_tasks.Pool.System.Awake.{Awake, Reach-Awake}
use uni_tasks.Pool.System.Ends.{shut_queue, state, comes_to_end}
use uni_tasks.Pool.System.Drains.{later_than, ComesDue}
use uni_tasks.Pool.System.Work.{Works, done, Works-trans}

join-ended {ℓ} :
    {A : Type ℓ} (self : ℕ) (ths : List (Thread A))
    → All (λ th. has_ended th.stage ≡ true) ths
    → join self ths ≡ some (map (joined self) ths)
unfolding join
join-ended self [] h = refl
join-ended self (th ∷ ths) h = ground (arith, join-ended self ths h.1)

module _ {ℓ} {A : Type ℓ} (T : TaskType A) where
  module _ (come_due : ComesDue T) (threads_count : ℕ) (started : Bool) (control : Control)
      (adding accepted dropped cancelled : List A) where
    abbrev shut_state : (pending finished : List A) → ℤ → List (Thread A) → System A
    shut_state = state T come_due threads_count started control adding accepted dropped cancelled

    IsSound-empty :
        (pending : List A) (stage : Stage A)
        → IsSound (shut_queue T pending) stage
        → IsSound (shut_queue T []) stage
    unfolding is_empty
    IsSound-empty pending (waiting (draining _) _) h = h
    IsSound-empty pending (woken (draining _)) h = h
    IsSound-empty pending ended h = (refl, refl)
    IsSound-empty pending _ h = tt

    -- One thread after the other.
    threads_end :
        (front ths : List (Thread A)) (pending finished : List A) (now : ℤ)
        → Everywhere IsUp ths
        → Everywhere (IsSound (shut_queue T pending)) ths
        → (ths' : List (Thread A)) × (s : System A) × Works T
            (shut_state pending finished now (front ++ ths))
            s
          × (s.pool.threads ≡ front ++ ths')
          × All (λ th. has_ended th.stage ≡ true) ths'
    threads_end front [] pending finished now up sound = ([], _, done, refl, tt)
    threads_end front (th ∷ ths) pending finished now up sound =
        let (finished', now', w) =
          comes_to_end T come_due threads_count started control adding accepted dropped cancelled
            front th ths pending finished now th.stage up.0 sound.0 in
        let (ths', s, v, at, h) =
          threads_end (front ++ record th { stage = ended } ∷ []) ths [] finished' now' up.1
            (sound_rest ths sound.1) in
        (
          record th { stage = ended } ∷ ths',
          s,
          Works-trans T w (
              subst (λ us. Works T (shut_state [] finished' now' us) s)
                (append_assoc front (record th { stage = ended } ∷ []) ths) v),
          at ∙ append_assoc front (record th { stage = ended } ∷ []) ths',
          (refl, h),
        )
      where
        sound_rest :
            (us : List (Thread A))
            → Everywhere (IsSound (shut_queue T pending)) us
            → Everywhere (IsSound (shut_queue T [])) us
        sound_rest [] k = tt
        sound_rest (u ∷ us) k = (IsSound-empty pending u.stage k.0, sound_rest us k.1)

  shut_system :
      (s : System A)
      → s.pool.queue.closed ≡ true
      → s ≡ record s { pool = record s.pool { queue = shut_queue T s.pool.queue.elements } }
  shut_system s c =
      ap (λ b. record s { pool = record s.pool { queue = record s.pool.queue { closed = b } } }) c

  -- If every delay runs out in time, then from a state in which `stop` has come to its `join` the
  -- workers' own steps lead to one in which `join` comes back.
  pub join-comes_back :
      (n : ℕ) (now : ℤ) {s : System A} (self : ℕ)
      → ComesDue T
      → Reach T (initial n now) s
      → s.control ≡ joining
      → (t : System A) × Works T s t × (us : List (Thread A)) × (join self t.pool.threads ≡ some us)
  join-comes_back n now {s} self come_due r joins_now =
      let (ths', t, w, same_threads, ended_all) =
        threads_end come_due s.pool.threads_count s.pool.started s.control s.adding s.accepted
          s.dropped s.cancelled [] s.pool.threads s.pool.queue.elements s.finished s.now
          (awake.up closed (rw joins_now refl))
          (subst (λ q. Everywhere (IsSound q) s.pool.threads)
            (ap (λ u. u.pool.queue) (shut_system s closed)) inv.sound) in
      (
        t,
        subst (λ u. Works T u t) (sym (shut_system s closed)) w,
        map (joined self) ths',
        ap (join self) same_threads ∙ join-ended self ths' ended_all,
      )
    where
      inv : Inv T s
      inv = Reach-initial-Inv T n now r

      awake : Awake T s
      awake = Reach-Awake T n now r

      closed : s.pool.queue.closed ≡ true
      closed = awake.shut (rw joins_now refl)

pub task_type-ComesDue : ComesDue task_type
unfolding get_task_delay
task_type-ComesDue now x =
    let (later, le, past) = later_than now x.due in
    (
      later,
      le,
      ground (
        arith,
        (delay-le-zero_iff later x).1 (omega (arith, past, +ℤ_parts later (pos ticks_per_ms))),
      ),
    )

-- If a pool of the dispatcher is in a state that it can reach, and `stop` or the destructor has
-- come to its `join`, then the workers' own steps, without a call of a client and without a wait
-- that ends early, lead to a state in which `join` comes back to any caller, provided that the
-- running tasks come back.
pub join-terminates :
    (n : ℕ) (now : ℤ) {s : System Task} (self : ℕ)
    → Reach task_type (initial n now) s
    → s.control ≡ joining
    → (t : System Task) × Works task_type s t
      × (us : List (Thread Task)) × (join self t.pool.threads ≡ some us)
join-terminates n now self r joins_now =
    join-comes_back task_type n now self task_type-ComesDue r joins_now
