-- ===== src/Session/Scheduler/Pop.antt =====
-- The removal of a front from the map of queues.
use nmux.Base.{
  ◌≡◌, refl, ◌≢◌, sym, subst, ◌+◌, Text, List, [], ◌∷◌, All, arith, Option, some, ℕ-DecEq,
  List-DecEq, List-discrete, ℕ_discrete,
}
use nmux.Session.Event.{PendingSessionEvent}
use nmux.Session.Scheduler.{Queues, pop_queue, pop_source}
use nmux.Session.Scheduler.Queues.{waiting, size}
use nmux.Session.Scheduler.Ordered.{Above, IsOrdered, waiting-Above}

-- What the removal of a front leaves.
pub record Popped (k : Text) (p : PendingSessionEvent) (q : List PendingSessionEvent)
    (qs left : Queues) : Type 0 where
  pub self : waiting k left ≡ q
  pub others : (j : Text) → j ≢ k → waiting j left ≡ waiting j qs
  pub ordered : IsOrdered left
  pub above : (j : Text) → Above j qs → Above j left
  pub smaller_size : size left + 1 ≡ size qs

Popped-cons :
    (k : Text) (p : PendingSessionEvent) (q : List PendingSessionEvent) (qs left : Queues)
    (j : Text) (q' : List PendingSessionEvent)
    → j ≢ k
    → All (λ r. r.source_id ≡ j) q'
    → Above j qs
    → Popped k p q qs left
    → Popped k p q ((j, q') ∷ qs) ((j, q') ∷ left)
unfolding waiting size
Popped-cons k p q qs left j q' ne own a d = record {
  self = ground (arith, d.self);
  others = λ i h. ground (arith, d.others i h);
  ordered = (own, d.above j a, d.ordered);
  above = λ i b. (b.0, d.above i b.1);
  smaller_size = omega (arith, d.smaller_size);
}

pop_source-hit :
    (k j : Text) (q : List PendingSessionEvent) (qs : Queues)
    → j ≡ k
    → pop_source k ((j, q) ∷ qs) ≡ pop_queue j q qs
unfolding pop_source
pop_source-hit k j q qs e = ground arith

pop_source-miss :
    (k j : Text) (q : List PendingSessionEvent) (qs : Queues)
    → j ≢ k
    → pop_source k ((j, q) ∷ qs) ≡ ((pop_source k qs).0, (j, q) ∷ (pop_source k qs).1)
unfolding pop_source
pop_source-miss k j q qs e = ground arith

pop_queue-Popped :
    (k : Text) (p : PendingSessionEvent) (q : List PendingSessionEvent) (qs : Queues)
    → IsOrdered ((k, p ∷ q) ∷ qs)
    → ((pop_queue k (p ∷ q) qs).0 ≡ some p)
      × Popped k p q ((k, p ∷ q) ∷ qs) (pop_queue k (p ∷ q) qs).1
unfolding pop_queue waiting size
pop_queue-Popped k p [] qs o = (
  refl,
  record {
    self = waiting-Above k qs o.1;
    others = λ i h. ground arith;
    ordered = o.2;
    above = λ i a. a.1;
    smaller_size = omega arith;
  },
)
pop_queue-Popped k p (r ∷ q) qs o = (
  refl,
  record {
    self = ground arith;
    others = λ i h. ground arith;
    ordered = (o.0.1, o.1, o.2);
    above = λ i a. a;
    smaller_size = omega arith;
  },
)

abbrev pub PopsFrom : Text → PendingSessionEvent → List PendingSessionEvent → Queues → Type 0
PopsFrom k p q qs = ((pop_source k qs).0 ≡ some p) × Popped k p q qs (pop_source k qs).1

pub pop_source-Popped :
    (k : Text) (p : PendingSessionEvent) (q : List PendingSessionEvent) (qs : Queues)
    → IsOrdered qs
    → waiting k qs ≡ p ∷ q
    → PopsFrom k p q qs
unfolding waiting
pop_source-Popped k p q [] o w = cc
pop_source-Popped k p q ((j, q') ∷ rest) o w = elim (List-discrete ℕ_discrete j k) [
  | yes hit ↦
      let same : q' ≡ p ∷ q = ground arith in
      subst (λ (x : List PendingSessionEvent). PopsFrom k p q ((j, x) ∷ rest)) (sym same)
        (subst (λ i. PopsFrom i p q ((j, p ∷ q) ∷ rest)) hit
          (subst
            (λ (r : Option PendingSessionEvent × Queues).
              (r.0 ≡ some p) × Popped j p q ((j, p ∷ q) ∷ rest) r.1)
            (sym (pop_source-hit j j (p ∷ q) rest refl))
            (pop_queue-Popped j p q rest (subst (λ x. IsOrdered ((j, x) ∷ rest)) same o))))
  | no miss ↦
      let (e, d) = pop_source-Popped k p q rest o.2 (ground arith) in
      subst
        (λ (r : Option PendingSessionEvent × Queues).
          (r.0 ≡ some p) × Popped k p q ((j, q') ∷ rest) r.1)
        (sym (pop_source-miss k j q' rest miss)) (e, Popped-cons k p q rest _ j q' miss o.0 o.1 d)
]
