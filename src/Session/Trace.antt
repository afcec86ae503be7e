-- ===== src/Session/Trace.antt =====
-- The trace ring, a queue of records with a capacity (crates/nmux-core/src/session.rs,
-- `SessionTraceRing`).
pub mod Laws
use nmux.Base.{
  ℕ, ◌==◌, leb, Bool, List, [], ◌∷◌, ◌++◌, map, length, if◌then◌else◌, is_empty, ℕ-DecEq,
}
use nmux.Session.Event.{AcceptedSessionEvent, SessionTraceRecord}

pub record SessionTraceRing : Type 0 where
  pub cap : ℕ
  pub records : List SessionTraceRecord

unfoldable pub ring_new : ℕ → SessionTraceRing
ring_new cap = record { cap = cap; records = [] }

-- `while self.records.len() >= self.cap { self.records.pop_front(); }`
unfoldable pub make_room : ℕ → List SessionTraceRecord → List SessionTraceRecord
make_room cap [] = []
make_room cap (r ∷ rs) =
    let rest = make_room cap rs in if leb cap (length (r ∷ rs)) then rest else r ∷ rs

unfoldable pub ring_push : SessionTraceRing → SessionTraceRecord → SessionTraceRing
unfolding make_room
ring_push ring r =
    if ring.cap == 0
    then ring
    else record ring { records = make_room ring.cap ring.records ++ r ∷ [] }

unfoldable pub accepted_events : SessionTraceRing → List AcceptedSessionEvent
accepted_events ring = map (λ (r : SessionTraceRecord). r.accepted) ring.records
