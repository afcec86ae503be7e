-- ===== src/Session/Actor/Laws.antt =====
-- Draining an actor (crates/nmux-core/src/session.rs, `drain_ready`).
use nmux.Base.{
  ◌≡◌, refl, sym, subst, ◌<◌, ◌∙◌, ap, true, Text, Option, none, some, List, [], ◌∷◌, map, arith, ℕ,
  zero, suc, ◌==◌, if◌then◌else◌, ℕ-DecEq, List-DecEq, inl, inr, map_option, List-discrete,
  ℕ_discrete,
}
use nmux.Terminal.{TerminalEngine}
use nmux.Session.{Session}
use nmux.Session.Event.{PendingSessionEvent, SessionTraceRecord, from_transition}
use nmux.Session.Core.{accept_pending, core_new, replay_accepted_events}
use nmux.Session.Core.Replay.{accept_all, replay_accepted_events-accept_all}
use nmux.Session.Scheduler.{Queues, Scheduler, pop_next, is_idle, all_empty}
use nmux.Session.Scheduler.Queues.{waiting, size}
use nmux.Session.Scheduler.Ordered.{IsOrdered}
use nmux.Session.Scheduler.Laws.{Pops, pop_next-cases}
use nmux.Session.Trace.{ring_push}
use nmux.Session.Trace.Laws.{push_records}
use nmux.Session.Actor.{SessionActor, drain_popped, drain_next, drain_ready, actor_is_idle}

-- The events of one source, in the order of the list.
unfoldable pub by_source : Text → List PendingSessionEvent → List PendingSessionEvent
by_source j [] = []
by_source j (p ∷ ps) = let rest = by_source j ps in if p.source_id == j then p ∷ rest else rest

all_empty-size : (qs : Queues) → size qs ≡ 0 → all_empty qs ≡ true
unfolding all_empty size
all_empty-size [] h = refl
all_empty-size ((k, []) ∷ rest) h = all_empty-size rest (omega arith)
all_empty-size ((k, p ∷ q) ∷ rest) h = absurd (omega arith)

waiting-size : (j : Text) (qs : Queues) → size qs ≡ 0 → waiting j qs ≡ []
unfolding waiting size
waiting-size j [] h = refl
waiting-size j ((k, []) ∷ rest) h = ground (arith, waiting-size j rest (omega arith))
waiting-size j ((k, p ∷ q) ∷ rest) h = absurd (omega arith)

by_source-Pops :
    (s t : Scheduler) (p : PendingSessionEvent) (ps : List PendingSessionEvent) (j : Text)
    → Pops s p t
    → by_source j ps ≡ waiting j t.queues
    → by_source j (p ∷ ps) ≡ waiting j s.queues
unfolding by_source
by_source-Pops s t p ps j d h = elim (List-discrete ℕ_discrete p.source_id j) [
  | yes e ↦ ground (arith, h, d.front)
  | no n ↦ ground (arith, h, d.others j (λ q. n (sym q)))
]

module _ (E : TerminalEngine) where
  -- The actor `b` is `a` after it accepted the events `ps`, with their records.
  pub record Drained (a : SessionActor E) (ps : List PendingSessionEvent) (b : SessionActor E)
      : Type 0 where
    pub core : b.core ≡ (accept_all E a.core ps).0
    pub trace : b.trace ≡ push_records a.trace (accept_all E a.core ps).1
    pub idle : is_idle b.scheduler ≡ true
    pub order : (j : Text) → by_source j ps ≡ waiting j a.scheduler.queues

  unfoldable drain_step :
      (a : SessionActor E) (p : PendingSessionEvent) (t : Scheduler) → SessionActor E
  drain_step a p t = record a {
    core = (accept_pending E a.core p).0;
    scheduler = t;
    trace = ring_push a.trace (from_transition (accept_pending E a.core p).1);
  }

  Drained-cons :
      (a b : SessionActor E) (p : PendingSessionEvent) (ps : List PendingSessionEvent)
      (t : Scheduler)
      → Pops a.scheduler p t
      → Drained (drain_step a p t) ps b
      → Drained a (p ∷ ps) b
  unfolding drain_step accept_all push_records
  Drained-cons a b p ps t d r = record {
    core = r.core;
    trace = r.trace;
    idle = r.idle;
    order = λ j. by_source-Pops a.scheduler t p ps j d (r.order j);
  }

  -- One round of the loop, on what the scheduler popped.
  drain_ready-drain_popped :
      (fuel : ℕ) (a : SessionActor E) (x : Option PendingSessionEvent × Scheduler)
      → pop_next a.scheduler ≡ x
      → drain_ready E (suc fuel) a ≡ elim (drain_popped E a x).0 [
        | none ↦ some ([], (drain_popped E a x).1)
        | some r ↦
            map_option {B = List SessionTraceRecord × SessionActor E}
              (λ y. (r ∷ y.0, y.1))
              (drain_ready E fuel (drain_popped E a x).1)
      ]
  unfolding drain_ready drain_next
  drain_ready-drain_popped fuel a x e =
      ap
        (λ x. elim (drain_popped E a x).0 [
          | none ↦ some ([], (drain_popped E a x).1)
          | some r ↦
              map_option {B = List SessionTraceRecord × SessionActor E} (λ y. (r ∷ y.0, y.1))
                (drain_ready E fuel (drain_popped E a x).1)
        ])
        e

  -- From queues in order and on fuel above the number of queued events, the loop ends with some
  -- records and an actor. There is a sequence of events that holds the queued events of every
  -- source in their order, such that the records are those of accepting the sequence, and the actor
  -- has the core and the trace that it leads to and an idle scheduler.
  pub drain_ready-Drained :
      (fuel : ℕ) (a : SessionActor E)
      → IsOrdered a.scheduler.queues
      → size a.scheduler.queues < fuel
      → (ps : List PendingSessionEvent) × (b : SessionActor E) × (drain_ready E fuel a
          ≡ some ((accept_all E a.core ps).1, b))
        × Drained a ps b
  unfolding drain_popped drain_step is_idle accept_all push_records by_source
  drain_ready-Drained zero a o h = absurd (omega arith)
  drain_ready-Drained (suc fuel) a o h = elim (pop_next-cases a.scheduler o) [
    | inl (z, e) ↦ (
      [],
      a,
      drain_ready-drain_popped fuel a (none, a.scheduler) e,
      record {
        core = refl;
        trace = refl;
        idle = all_empty-size a.scheduler.queues z;
        order = λ j. sym (waiting-size j a.scheduler.queues z);
      },
    )
    | inr (p, t, e, d) ↦
        let (ps, b, r, k) =
          drain_ready-Drained fuel (drain_step a p t) d.ordered (omega (arith, d.one_less)) in
        (
          p ∷ ps,
          b,
          drain_ready-drain_popped fuel a (some p, t) e
              ∙ ap
                  (map_option {B = List SessionTraceRecord × SessionActor E}
                    (λ x. (from_transition (accept_pending E a.core p).1 ∷ x.0, x.1)))
                  r,
          Drained-cons a b p ps t d k,
        )
  ]

  -- An actor that starts from a fresh core, with its queues in order, drains everything that was queued, on any fuel above the
  -- number of queued events; the scheduler is then idle, and a replay of the drained records'
  -- accepted events from the same session gives the actor's core and the same records.
  pub drain_ready-replay_accepted_events :
      (s : Session) (fuel : ℕ) (a : SessionActor E)
      → a.core ≡ core_new E s
      → IsOrdered a.scheduler.queues
      → size a.scheduler.queues < fuel
      → (records : List SessionTraceRecord) × (b : SessionActor E) × (drain_ready E fuel a
          ≡ some (records, b))
        × (actor_is_idle E b ≡ true)
        × (replay_accepted_events E s (map (λ r. r.accepted) records) ≡ (b.core, records))
  unfolding actor_is_idle
  drain_ready-replay_accepted_events s fuel a h o f =
      let (ps, b, e, d) = drain_ready-Drained fuel a o f in
      (
        (accept_all E a.core ps).1,
        b,
        e,
        d.idle,
        subst
              (λ c.
                replay_accepted_events E s (map (λ r. r.accepted) (accept_all E c ps).1)
                ≡ accept_all E c ps)
              (sym h) (replay_accepted_events-accept_all E s ps)
            ∙ ap (λ c. (c, (accept_all E a.core ps).1)) (sym d.core),
      )
