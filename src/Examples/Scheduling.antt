-- ===== src/Examples/Scheduling.antt =====
-- The actor, its scheduler and its trace, on two events of two sources.
use nmux.Base.{
  ◌≡◌, ◌≢◌, refl, ◌<◌, ◌-◌, ◌==◌, codes, true, false, none, some, or_else, List, [], ◌∷◌, ◌++◌, map,
  drop, length, arith, if◌then◌else◌, ℕ-DecEq, List-DecEq, ℕ_discrete, List-discrete,
}
use nmux.Base.Order.{text_lt}
use nmux.Session.Event.{PendingSessionEvent, SessionTraceRecord, priority}
use nmux.Session.Core.{core_new, replay_accepted_events}
use nmux.Session.Core.Replay.{accept_all, replay_accepted_events-accept_all}
use nmux.Session.Scheduler.{
  Scheduler, empty, push, pop_next, key_lt, push_queue, next_source, smaller, pop_source, pop_queue,
}
use nmux.Session.Scheduler.Queues.{waiting, size}
use nmux.Session.Scheduler.Ordered.{IsOrdered}
use nmux.Session.Scheduler.Laws.{
  waiting-push, push-IsOrdered, push_comm, waiting-pop_next, pop_next_least,
}
use nmux.Session.Trace.{ring_new}
use nmux.Session.Trace.Laws.{push_records, records-push_records}
use nmux.Session.Actor.{
  SessionActor, SessionRegistry, actor_new, enqueue, drain_ready, actor_is_idle, get, insert,
}
use nmux.Session.Actor.Laws.{Drained, drain_ready-Drained, drain_ready-replay_accepted_events}
use nmux.Session.Actor.Registry.{get-insert, is_none}
use nmux.Examples.Data.{engine, two_tabs, pane_one, output_event, close_event}

abbrev queued : Scheduler
queued = push (push empty output_event) close_event

queued-IsOrdered : IsOrdered queued.queues
unfolding empty
queued-IsOrdered =
    push-IsOrdered (push empty output_event) close_event (push-IsOrdered empty output_event tt)

replay_accepted_events-accept_all_example :
    replay_accepted_events engine two_tabs (
      map
        (λ r. r.accepted)
        (accept_all engine (core_new engine two_tabs) (output_event ∷ close_event ∷ [])).1)
    ≡ accept_all engine (core_new engine two_tabs) (output_event ∷ close_event ∷ [])
replay_accepted_events-accept_all_example =
    replay_accepted_events-accept_all engine two_tabs (output_event ∷ close_event ∷ [])

waiting-push_example : waiting pane_one (push queued output_event).queues ≡ (
    if output_event.source_id == pane_one
    then waiting pane_one queued.queues ++ output_event ∷ []
    else waiting pane_one queued.queues)
waiting-push_example = waiting-push queued output_event pane_one queued-IsOrdered

sources_differ : output_event.source_id ≢ close_event.source_id
sources_differ = ground arith

push_comm_example :
    push (push empty output_event) close_event ≡ push (push empty close_event) output_event
push_comm_example = push_comm empty output_event close_event sources_differ

abbrev left : Scheduler
left = push empty output_event

-- The event of the control lane comes first.
queued-pops : pop_next queued ≡ (some close_event, left)
unfolding pop_next push push_queue empty next_source smaller key_lt priority pop_source pop_queue
    ℕ_discrete List-discrete text_lt
queued-pops = refl

waiting-pop_next_example : waiting pane_one queued.queues ≡ (
    if close_event.source_id == pane_one
    then close_event ∷ waiting pane_one left.queues
    else waiting pane_one left.queues)
waiting-pop_next_example =
    waiting-pop_next queued left close_event pane_one queued-IsOrdered queued-pops

output-waits : waiting pane_one queued.queues ≡ output_event ∷ []
unfolding waiting push push_queue empty ℕ_discrete List-discrete text_lt
output-waits = refl

pop_next_least_example :
    key_lt output_event.lane pane_one close_event.lane close_event.source_id ≡ false
pop_next_least_example =
    pop_next_least queued left close_event output_event pane_one [] queued-IsOrdered queued-pops
      output-waits

abbrev actor : SessionActor engine
actor =
    enqueue engine (enqueue engine (actor_new engine (core_new engine two_tabs) 8) output_event)
      close_event

actor-IsOrdered : IsOrdered actor.scheduler.queues
unfolding enqueue actor_new
actor-IsOrdered = queued-IsOrdered

actor-size : size actor.scheduler.queues < 3
unfolding enqueue actor_new size push push_queue empty ℕ_discrete List-discrete text_lt
actor-size = omega arith

actor-core : actor.core ≡ core_new engine two_tabs
unfolding enqueue actor_new
actor-core = refl

drain_ready-Drained_example :
    (ps : List PendingSessionEvent) × (b : SessionActor engine) × (drain_ready engine 3 actor
      ≡ some ((accept_all engine actor.core ps).1, b))
    × Drained engine actor ps b
drain_ready-Drained_example = drain_ready-Drained engine 3 actor actor-IsOrdered actor-size

drain_ready-replay_accepted_events_example :
    (records : List SessionTraceRecord) × (b : SessionActor engine) × (drain_ready engine 3 actor
      ≡ some (records, b))
    × (actor_is_idle engine b ≡ true)
    × (replay_accepted_events engine two_tabs (map (λ r. r.accepted) records) ≡ (b.core, records))
drain_ready-replay_accepted_events_example =
    drain_ready-replay_accepted_events engine two_tabs 3 actor actor-core actor-IsOrdered actor-size

abbrev records : List SessionTraceRecord
records = (accept_all engine (core_new engine two_tabs) (output_event ∷ close_event ∷ [])).1

records-push_records_example :
    (push_records (ring_new 1) records).records ≡ drop (length records - 1) records
records-push_records_example = records-push_records 1 records

abbrev registry : SessionRegistry engine
registry = (actor.core.session.id, actor) ∷ []

get-insert_example :
    (get engine (codes "local") (insert engine registry actor).0
      ≡ or_else
          (get engine (codes "local") registry)
          (if actor.core.session.id == codes "local" then some actor else none))
    × ((insert engine registry actor).1 ≡ is_none (get engine actor.core.session.id registry))
get-insert_example = get-insert engine registry (codes "local") actor
