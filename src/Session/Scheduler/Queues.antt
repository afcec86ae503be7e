-- ===== src/Session/Scheduler/Queues.antt =====
-- The queue of each source, and a push to it.
use nmux.Base.{
  ◌≡◌, ◌≢◌, ◌+◌, ◌==◌, Text, List, [], ◌∷◌, length, length-append, arith, ℕ, if◌then◌else◌, ℕ-DecEq,
  List-DecEq,
}
use nmux.Base.Order.{text_lt_asymm, text_lt_total, text_lt_trans}
use nmux.Session.Event.{PendingSessionEvent}
use nmux.Session.Scheduler.{Queues, push_queue}

-- The events that wait under a source, oldest first.
unfoldable pub waiting : Text → Queues → List PendingSessionEvent
waiting k [] = []
waiting k ((j, q) ∷ rest) = if j == k then q else waiting k rest

-- How many events wait.
unfoldable pub size : Queues → ℕ
size [] = 0
size ((k, q) ∷ rest) = length q + size rest

pub waiting-push_queue :
    (p : PendingSessionEvent) (k : Text) (qs : Queues)
    → (k ≢ p.source_id → waiting k (push_queue p qs) ≡ waiting k qs)
unfolding waiting push_queue
waiting-push_queue p k [] h = ground arith
waiting-push_queue p k ((j, q) ∷ rest) h = ground (arith, waiting-push_queue p k rest h)

pub size-push_queue : (p : PendingSessionEvent) (qs : Queues) → size (push_queue p qs) ≡ size qs + 1
unfolding size push_queue
size-push_queue p [] = omega arith
size-push_queue p ((j, q) ∷ rest) = ground (arith, size-push_queue p rest, length-append q (p ∷ []))

pub push_queue_comm :
    (a b : PendingSessionEvent) (qs : Queues)
    → a.source_id ≢ b.source_id
    → push_queue a (push_queue b qs) ≡ push_queue b (push_queue a qs)
unfolding push_queue
push_queue_comm a b [] h = ground (
  arith,
  text_lt_asymm a.source_id b.source_id,
  text_lt_total a.source_id b.source_id,
  text_lt_asymm b.source_id a.source_id,
)
push_queue_comm a b ((k, q) ∷ rest) h = ground (
  arith,
  push_queue_comm a b rest h,
  text_lt_asymm a.source_id b.source_id,
  text_lt_total a.source_id b.source_id,
  text_lt_asymm b.source_id a.source_id,
  text_lt_trans a.source_id b.source_id k,
  text_lt_trans b.source_id a.source_id k,
  text_lt_total a.source_id k,
  text_lt_total b.source_id k,
  text_lt_trans k a.source_id b.source_id,
  text_lt_trans k b.source_id a.source_id,
)
