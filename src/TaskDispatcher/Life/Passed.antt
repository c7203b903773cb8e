-- ===== src/TaskDispatcher/Life/Passed.antt =====
-- TaskDispatcherImpl.cpp: the pools that `stop` has passed, as lists of pools by index.
use uni_tasks.Prelude.{ℕ, zero, suc, String, [], ◌∷◌, ◌++◌, length, All}
use uni_tasks.Tasks.{Task}
use uni_tasks.Pool.Tasks.{task_type}
use uni_tasks.Pool.System
use uni_tasks.Pool.System.{Control, free}
use uni_tasks.TaskDispatcher.Life.{Systems, Stopping, no_stop, stopping, came_back}
use uni_tasks.TaskDispatcher.Life.Settled.{Settled}

abbrev pub Done : String × System.System Task → Type 0
Done e = Settled task_type e.1

-- The first pools have done with their tasks.
abbrev pub DoneTo : ℕ → Systems → Type 0
DoneTo zero es = Unit
DoneTo (suc k) [] = Unit
DoneTo (suc k) (e ∷ es) = Done e × DoneTo k es

abbrev pub DoneBy : Stopping → Systems → Type 0
DoneBy no_stop es = Unit
DoneBy (stopping _ _ k) es = DoneTo k es
DoneBy (came_back _) es = All Done es

DoneTo-replace :
    (k : ℕ) (front : Systems) (e e' : String × System.System Task) (back : Systems)
    → (Done e → Done e')
    → DoneTo k (front ++ e ∷ back)
    → DoneTo k (front ++ e' ∷ back)
DoneTo-replace zero front e e' back f d = tt
DoneTo-replace (suc k) [] e e' back f d = (f d.0, d.1)
DoneTo-replace (suc k) (x ∷ front) e e' back f d = (d.0, DoneTo-replace k front e e' back f d.1)

pub DoneTo-suc :
    (front : Systems) (e e' : String × System.System Task) (back : Systems)
    → Done e'
    → DoneTo (length front) (front ++ e ∷ back)
    → DoneTo (suc (length front)) (front ++ e' ∷ back)
DoneTo-suc [] e e' back f d = (f, tt)
DoneTo-suc (x ∷ front) e e' back f d = (d.0, DoneTo-suc front e e' back f d.1)

pub DoneTo-All : (es : Systems) → DoneTo (length es) es → All Done es
DoneTo-All [] d = tt
DoneTo-All (e ∷ es) d = (d.0, DoneTo-All es d.1)

pub All-replace {ℓ} :
    (P : String × System.System Task → Type ℓ) (front : Systems)
    (e e' : String × System.System Task) (back : Systems)
    → (P e → P e')
    → All P (front ++ e ∷ back)
    → All P (front ++ e' ∷ back)
All-replace P [] e e' back f d = (f d.0, d.1)
All-replace P (x ∷ front) e e' back f d = (d.0, All-replace P front e e' back f d.1)

pub DoneBy-replace :
    (c : Stopping) (front : Systems) (e e' : String × System.System Task) (back : Systems)
    → (Done e → Done e')
    → DoneBy c (front ++ e ∷ back)
    → DoneBy c (front ++ e' ∷ back)
DoneBy-replace no_stop front e e' back f d = tt
DoneBy-replace (stopping _ _ k) front e e' back f d = DoneTo-replace k front e e' back f d
DoneBy-replace (came_back _) front e e' back f d = All-replace Done front e e' back f d
