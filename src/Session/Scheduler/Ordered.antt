-- ===== src/Session/Scheduler/Ordered.antt =====
-- The map of queues: rising keys, and each event under its own source.
use nmux.Base.{◌≡◌, refl, true, Text, List, [], ◌∷◌, ◌++◌, All, arith, ℕ-DecEq, List-DecEq}
use nmux.Base.Order.{text_lt, text_lt_irrefl, text_lt_total, text_lt_trans}
use nmux.Session.Event.{PendingSessionEvent}
use nmux.Session.Scheduler.{Queues, push_queue}
use nmux.Session.Scheduler.Queues.{waiting}

-- The keys rise.
abbrev pub Above : Text → Queues → Type 0
Above k [] = Unit
Above k ((j, q) ∷ rest) = (text_lt k j ≡ true) × Above k rest

-- Rising keys, and under each key only events of that source.
abbrev pub IsOrdered : Queues → Type 0
IsOrdered [] = Unit
IsOrdered ((k, q) ∷ rest) = All (λ p. p.source_id ≡ k) q × Above k rest × IsOrdered rest

pub waiting-Above : (k : Text) (qs : Queues) → Above k qs → waiting k qs ≡ []
unfolding waiting
waiting-Above k [] a = refl
waiting-Above k ((j, q) ∷ rest) a = ground (arith, text_lt_irrefl k, waiting-Above k rest a.1)

Above-push_queue :
    (k : Text) (p : PendingSessionEvent) (qs : Queues)
    → text_lt k p.source_id ≡ true
    → Above k qs
    → Above k (push_queue p qs)
unfolding push_queue
Above-push_queue k p [] h a = (h, tt)
Above-push_queue k p ((j, q) ∷ rest) h a = ground (arith, Above-push_queue k p rest h a.1)

Above-trans : (k j : Text) (qs : Queues) → text_lt k j ≡ true → Above j qs → Above k qs
Above-trans k j [] h a = tt
Above-trans k j ((i, q) ∷ rest) h a = (text_lt_trans k j i h a.0, Above-trans k j rest h a.1)

All-snoc :
    (k : Text) (p : PendingSessionEvent) (q : List PendingSessionEvent)
    → p.source_id ≡ k
    → All (λ r. r.source_id ≡ k) q
    → All (λ r. r.source_id ≡ k) (q ++ p ∷ [])
All-snoc k p [] e a = (e, tt)
All-snoc k p (r ∷ q) e a = (a.0, All-snoc k p q e a.1)

pub push_queue-IsOrdered :
    (p : PendingSessionEvent) (qs : Queues) → IsOrdered qs → IsOrdered (push_queue p qs)
unfolding push_queue
push_queue-IsOrdered p [] o = ((refl, tt), tt, tt)
push_queue-IsOrdered p ((k, q) ∷ rest) o = ground (
  arith,
  o,
  All-snoc k p q,
  push_queue-IsOrdered p rest o.2,
  Above-push_queue k p rest,
  Above-trans p.source_id k rest,
  text_lt_total p.source_id k,
)

-- For an ordered map, all that waits under a source after a push.
pub waiting-push_queue_self :
    (p : PendingSessionEvent) (qs : Queues)
    → IsOrdered qs
    → waiting p.source_id (push_queue p qs) ≡ waiting p.source_id qs ++ p ∷ []
unfolding waiting push_queue
waiting-push_queue_self p [] o = ground arith
waiting-push_queue_self p ((k, q) ∷ rest) o = ground (
  arith,
  waiting-push_queue_self p rest o.2,
  waiting-Above p.source_id rest,
  Above-trans p.source_id k rest,
  o,
)
