-- ===== src/Session/Scheduler/Laws.antt =====
-- Pushing to the scheduler and popping from it (crates/nmux-core/src/session.rs,
-- `DeterministicSessionScheduler`).
use nmux.Base.{
  ◌≡◌, ◌≢◌, ◌⊎◌, ◌∙◌, sym, ap, subst, ◌+◌, ◌==◌, false, Text, List, [], ◌∷◌, ◌++◌, arith, none,
  some, if◌then◌else◌, Option-cases, inl, inr, ℕ-DecEq, List-DecEq, List-discrete, ℕ_discrete,
}
use nmux.Session.Event.{PendingSessionEvent}
use nmux.Session.Scheduler.{Queues, Scheduler, push, pop_next, next_source, pop_source, key_lt}
use nmux.Session.Scheduler.Queues.{waiting, size, waiting-push_queue, push_queue_comm}
use nmux.Session.Scheduler.Ordered.{IsOrdered, push_queue-IsOrdered, waiting-push_queue_self}
use nmux.Session.Scheduler.Select.{next_source-IsFront, next_source-least, next_source-none}
use nmux.Session.Scheduler.Pop.{pop_source-Popped}

waiting-source :
    (k : Text) (qs : Queues) (p : PendingSessionEvent) (q : List PendingSessionEvent)
    → IsOrdered qs
    → waiting k qs ≡ p ∷ q
    → p.source_id ≡ k
unfolding waiting
waiting-source k [] p q o w = cc
waiting-source k ((j, []) ∷ rest) p q o w = ground (arith, waiting-source k rest p q o.2)
waiting-source k ((j, r ∷ rs) ∷ rest) p q o w = ground (arith, waiting-source k rest p q o.2, o.0)

-- On queues in order, a push adds its event behind those of its source, and moves no other source's.
pub waiting-push :
    (s : Scheduler) (p : PendingSessionEvent) (j : Text)
    → IsOrdered s.queues
    → waiting j (push s p).queues
      ≡ (if p.source_id == j then waiting j s.queues ++ p ∷ [] else waiting j s.queues)
unfolding push
waiting-push s p j o = elim (List-discrete ℕ_discrete p.source_id j) [
  | yes e ↦ ground (arith, waiting-push_queue_self p s.queues o)
  | no n ↦ ground (arith, waiting-push_queue p j s.queues (λ e. n (sym e)))
]

pub push-IsOrdered :
    (s : Scheduler) (p : PendingSessionEvent) → IsOrdered s.queues → IsOrdered (push s p).queues
unfolding push
push-IsOrdered s p o = push_queue-IsOrdered p s.queues o

-- Events of different sources may arrive in either order: the scheduler is the same.
pub push_comm :
    (s : Scheduler) (a b : PendingSessionEvent)
    → a.source_id ≢ b.source_id
    → push (push s a) b ≡ push (push s b) a
unfolding push
push_comm s a b h = ap (λ q. record { queues = q }) (sym (push_queue_comm a b s.queues h))

-- What `pop_next` returns, in one record.
pub record Pops (s : Scheduler) (p : PendingSessionEvent) (t : Scheduler) : Type 0 where
  pub front : waiting p.source_id s.queues ≡ p ∷ waiting p.source_id t.queues
  pub others : (j : Text) → j ≢ p.source_id → waiting j t.queues ≡ waiting j s.queues
  pub least :
      (j : Text) (r : PendingSessionEvent) (q : List PendingSessionEvent)
      → waiting j s.queues ≡ r ∷ q
      → key_lt r.lane j p.lane p.source_id ≡ false
  pub ordered : IsOrdered t.queues
  pub one_less : size t.queues + 1 ≡ size s.queues

pub pop_next-cases :
    (s : Scheduler)
    → IsOrdered s.queues
    → ((size s.queues ≡ 0) × (pop_next s ≡ (none, s)))
      ⊎ ((p : PendingSessionEvent) × (t : Scheduler) × (pop_next s ≡ (some p, t)) × Pops s p t)
unfolding pop_next
pop_next-cases s o = elim (Option-cases (next_source s.queues)) [
  | inl e ↦ inl ((next_source-none s.queues [] e).1, ground arith)
  | inr ((k, l), e) ↦
      let (p, q, w, lane) = next_source-IsFront s.queues k l o e in
      let (popped, d) = pop_source-Popped k p q s.queues o w in
      let own = waiting-source k s.queues p q o w in
      inr (
        p,
        record { queues = (pop_source k s.queues).1 },
        ground arith,
        record {
          front =
              subst (λ i. waiting i s.queues ≡ p ∷ waiting i (pop_source k s.queues).1) (sym own)
                (w ∙ ap (◌∷◌ p) (sym d.self));
          others = λ j h. d.others j (λ e. h (e ∙ sym own));
          least = λ j r q' w'. rw (lane, own) (next_source-least s.queues k l j r q' e w');
          ordered = d.ordered;
          one_less = d.smaller_size;
        },
      )
]

-- The same for an event that is known to have come out.
popped-Pops :
    (s t : Scheduler) (p : PendingSessionEvent)
    → IsOrdered s.queues
    → pop_next s ≡ (some p, t)
    → Pops s p t
popped-Pops s t p o e = elim (pop_next-cases s o) [
  | inl (_, n) ↦ absurd (ground (arith, e, n))
  | inr (q, u, n, d) ↦
      let same : (q ≡ p) × (u ≡ t) = (ground (arith, e, n), ground (arith, e, n)) in
      subst (λ x. Pops s p x) same.1 (subst (λ x. Pops s x u) same.0 d)
]

-- From queues in order, a pop takes one event: it was the oldest of its source, and every other
-- source waits as before.
pub waiting-pop_next :
    (s t : Scheduler) (p : PendingSessionEvent) (j : Text)
    → IsOrdered s.queues
    → pop_next s ≡ (some p, t)
    → waiting j s.queues ≡ (if p.source_id == j then p ∷ waiting j t.queues else waiting j t.queues)
waiting-pop_next s t p j o e =
    let d = popped-Pops s t p o e in
    elim (List-discrete ℕ_discrete p.source_id j) [
      | yes k ↦ ground (arith, d.front)
      | no n ↦ ground (arith, d.others j (λ k. n (sym k)))
    ]

-- From queues in order: no event at the front of a source comes before the popped one in the order
-- of the lanes' priorities, and of the source ids within a priority.
pub pop_next_least :
    (s t : Scheduler) (p r : PendingSessionEvent) (j : Text) (q : List PendingSessionEvent)
    → IsOrdered s.queues
    → pop_next s ≡ (some p, t)
    → waiting j s.queues ≡ r ∷ q
    → key_lt r.lane j p.lane p.source_id ≡ false
pop_next_least s t p r j q o e w = (popped-Pops s t p o e).least j r q w
