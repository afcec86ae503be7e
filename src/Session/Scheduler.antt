-- ===== src/Session/Scheduler.antt =====
-- The deterministic scheduler (crates/nmux-core/src/session.rs, `DeterministicSessionScheduler`).
-- The `BTreeMap` of queues is an association list that insertion keeps in the order of its keys.
pub mod Queues
pub mod Ordered
pub mod Select
pub mod Pop
pub mod Laws
use nmux.Base.{
  ℕ, ◌+◌, ◌==◌, ◌&&◌, ◌||◌, ltb, Bool, true, false, Text, Option, none, some, List, [], ◌∷◌, ◌++◌,
  length, if◌then◌else◌, is_empty, ℕ-DecEq, List-DecEq,
}
use nmux.Base.Order.{text_lt}
use nmux.Session.Event.{SessionEventLane, priority, PendingSessionEvent}

abbrev pub Queues : Type 0
Queues = List (Text × List PendingSessionEvent)

-- `entry(source_id).or_default().push_back(pending)`.
unfoldable pub push_queue : PendingSessionEvent → Queues → Queues
push_queue p [] = (p.source_id, p ∷ []) ∷ []
push_queue p ((k, q) ∷ rest) =
    if p.source_id == k
    then (k, q ++ p ∷ []) ∷ rest
    else if text_lt p.source_id k
    then (p.source_id, p ∷ []) ∷ (k, q) ∷ rest
    else (k, q) ∷ push_queue p rest

-- The order of the pairs `(lane.priority(), source_id)`.
unfoldable pub key_lt : SessionEventLane → Text → SessionEventLane → Text → Bool
key_lt lane source lane' source' =
    ltb (priority lane) (priority lane')
    || (priority lane == priority lane' && text_lt source source')

-- The first of two candidates, unless the second is smaller: `min_by_key`.
unfoldable pub smaller :
    Text → SessionEventLane → Option (Text × SessionEventLane) → Text × SessionEventLane
unfolding key_lt
smaller k lane none = (k, lane)
smaller k lane (some (k', lane')) = if key_lt lane' k' lane k then (k', lane') else (k, lane)

-- The queue whose front is the least; empty queues do not take part.
unfoldable pub next_source : Queues → Option (Text × SessionEventLane)
unfolding smaller
next_source [] = none
next_source ((k, []) ∷ rest) = next_source rest
next_source ((k, p ∷ q) ∷ rest) = some (smaller k p.lane (next_source rest))

-- `pop_front`, and the removal of a queue that is then empty.
unfoldable pub pop_queue :
    Text → List PendingSessionEvent → Queues → Option PendingSessionEvent × Queues
pop_queue k [] rest = (none, rest)
pop_queue k (p ∷ []) rest = (some p, rest)
pop_queue k (p ∷ p' ∷ q) rest = (some p, (k, p' ∷ q) ∷ rest)

unfoldable pub pop_source : Text → Queues → Option PendingSessionEvent × Queues
unfolding pop_queue
pop_source k [] = (none, [])
pop_source k ((j, q) ∷ rest) =
    let (p, left) = pop_source k rest in if j == k then pop_queue j q rest else (p, (j, q) ∷ left)

pub record Scheduler : Type 0 where
  pub queues : Queues

unfoldable pub empty : Scheduler
empty = record { queues = [] }

unfoldable pub push : Scheduler → PendingSessionEvent → Scheduler
unfolding push_queue
push s p = record { queues = push_queue p s.queues }

unfoldable pub pop_next : Scheduler → Option PendingSessionEvent × Scheduler
unfolding next_source pop_source
pop_next s = elim (next_source s.queues) [
  | none ↦ (none, s)
  | some (k, _) ↦ let (p, left) = pop_source k s.queues in (p, record { queues = left })
]

unfoldable pub all_empty : Queues → Bool
all_empty [] = true
all_empty ((k, q) ∷ rest) = is_empty q && all_empty rest

unfoldable pub is_idle : Scheduler → Bool
unfolding all_empty
is_idle s = all_empty s.queues
