-- ===== src/Queue/Deque/History.antt =====
-- Queue.hpp, the template over `std::deque`: what was pushed, and what became of it.
use uni_tasks.Prelude.{
  ℕ, ◌+◌, ◌≡◌, refl, sym, ap, subst, Bool, not, Bool-cases, inl, inr, List, [], ◌∷◌, ◌++◌, count,
  count-append, arith,
}
use mathlib.Core.List.{append_assoc}
use uni_tasks.OrderedSet.{erase_if}
use uni_tasks.OrderedSet.Contents.{count-erase_if-not}
use uni_tasks.Queue.{Queue, throw_if_closed}
use uni_tasks.Queue.Deque
use uni_tasks.Queue.Deque.System.{
  Consumer, System, initial, handed_out, pushes, pops, removes, Step, pushing, popping, wakes,
  closes, notifies, removing, Reach, here, next,
}

-- The first list is part of the second, in the same order.
pub data IsPart {ℓ} {A : Type ℓ} : List A → List A → Type ℓ where
  done : IsPart [] []
  keep : {xs ys : List A} (x : A) → IsPart xs ys → IsPart (x ∷ xs) (x ∷ ys)
  skip : {xs ys : List A} (y : A) → IsPart xs ys → IsPart xs (y ∷ ys)

module _ {ℓ} {A : Type ℓ} where
  IsPart-refl : (xs : List A) → IsPart xs xs
  IsPart-refl [] = done
  IsPart-refl (x ∷ xs) = keep x (IsPart-refl xs)

  IsPart-snoc : {xs ys : List A} (x : A) → IsPart xs ys → IsPart (xs ++ x ∷ []) (ys ++ x ∷ [])
  IsPart-snoc x done = keep x done
  IsPart-snoc x (keep y h) = keep y (IsPart-snoc x h)
  IsPart-snoc x (skip y h) = skip y (IsPart-snoc x h)

  IsPart-trans : {ys zs : List A} → IsPart ys zs → {xs : List A} → IsPart xs ys → IsPart xs zs
  IsPart-trans done h = h
  IsPart-trans (skip y k) h = skip y (IsPart-trans k h)
  IsPart-trans (keep y k) (keep x h) = keep y (IsPart-trans k h)
  IsPart-trans (keep y k) (skip x h) = skip y (IsPart-trans k h)

  IsPart-append :
      (front : List A) {xs ys : List A} → IsPart xs ys → IsPart (front ++ xs) (front ++ ys)
  IsPart-append [] h = h
  IsPart-append (x ∷ front) h = keep x (IsPart-append front h)

  IsPart-erase_if : (p : A → Bool) (xs : List A) → IsPart (erase_if p xs) xs
  unfolding erase_if
  IsPart-erase_if p [] = done
  IsPart-erase_if p (x ∷ xs) = elim (Bool-cases (p x)) [
    | inl e ↦ rw e (skip x (IsPart-erase_if p xs))
    | inr e ↦ rw e (keep x (IsPart-erase_if p xs))
  ]

  -- The elements that were handed out and those that wait are a part of those that were pushed, in
  -- the same order, and the rest was removed.
  pub record Keeps (s : System A) : Type ℓ where
    pub order : IsPart (s.popped ++ s.queue.elements) s.pushed
    pub kept :
        (f : A → Bool)
        → count f s.pushed ≡ count f s.popped + count f s.queue.elements + count f s.removed

  pushes-Keeps : (choice : ℕ) (x : A) (s : System A) → Keeps s → Keeps (pushes choice x s)
  unfolding pushes Deque.push throw_if_closed
  pushes-Keeps choice x s h = elim (Bool-cases s.queue.closed) [
    | inl e ↦ record { order = rw e h.order; kept = λ f. rw e (h.kept f) }
    | inr e ↦ record {
      order = rw (e, ← append_assoc) (IsPart-snoc x h.order);
      kept = λ f. rw e (
          omega (
            arith,
            h.kept f,
            count-append f s.queue.elements (x ∷ []),
            count-append f s.pushed (x ∷ []),
          ));
    }
  ]

  -- What a call of `wait_pop` hands out was at the front of the queue.
  wait_pop-handed_out :
      (q : Queue A) → handed_out (Deque.wait_pop q).0 ++ (Deque.wait_pop q).1.elements ≡ q.elements
  unfolding Deque.wait_pop
  wait_pop-handed_out q = ground arith

  pops-Keeps : (front back : List Consumer) (s : System A) → Keeps s → Keeps (pops front back s)
  unfolding pops
  pops-Keeps front back s h =
      let given = wait_pop-handed_out s.queue in
      record {
        order = rw (append_assoc, given) h.order;
        kept = λ f. omega (
          arith,
          h.kept f,
          ap (count f) given,
          count-append f (handed_out (Deque.wait_pop s.queue).0)
              (Deque.wait_pop s.queue).1.elements,
          count-append f s.popped (handed_out (Deque.wait_pop s.queue).0),
        );
      }

  removes-Keeps : (p : A → Bool) (s : System A) → Keeps s → Keeps (removes p s)
  unfolding removes Deque.remove
  removes-Keeps p s h = record {
    order = IsPart-trans h.order (IsPart-append s.popped (IsPart-erase_if p s.queue.elements));
    kept = λ f. omega (
      arith,
      h.kept f,
      count-erase_if-not p f s.queue.elements,
      count-append f (erase_if (λ x. not (p x)) s.queue.elements) s.removed,
    );
  }

  Step-Keeps : {s t : System A} → Step s t → Keeps s → Keeps t
  unfolding Deque.close
  Step-Keeps {s} (pushing choice x e) h = subst Keeps (sym e) (pushes-Keeps choice x s h)
  Step-Keeps {s} (popping front c back _ _ e) h = subst Keeps (sym e) (pops-Keeps front back s h)
  Step-Keeps (wakes _ _ _ e) h = subst Keeps (sym e) (record { order = h.order; kept = h.kept })
  Step-Keeps (closes e) h = subst Keeps (sym e) (record { order = h.order; kept = h.kept })
  Step-Keeps (notifies _ _ e) h = subst Keeps (sym e) (record { order = h.order; kept = h.kept })
  Step-Keeps {s} (removing p e) h = subst Keeps (sym e) (removes-Keeps p s h)

  -- In each state that producers and consumers of a new queue over a deque can reach, the elements
  -- that were popped, followed by those in the queue, are a part of the elements that were pushed,
  -- in the same order, and each element that was pushed is as often popped, in the queue or
  -- removed as it was pushed.
  pub Reach-Keeps : (cs : List Consumer) {s : System A} → Reach (initial cs) s → Keeps s
  Reach-Keeps cs here = record { order = done; kept = λ f. refl }
  Reach-Keeps cs (next r st) = Step-Keeps st (Reach-Keeps cs r)
