-- ===== src/Session/Scheduler/Select.antt =====
-- The choice of the source to pop from.
use nmux.Base.{
  ◌≡◌, refl, true, false, Text, List, [], ◌∷◌, arith, none, some, Option-cases, Bool-cases, inl,
  inr, ℕ-DecEq, List-DecEq,
}
use nmux.Base.Order.{text_lt_asymm, text_lt_ntrans, text_lt_irrefl}
use nmux.Session.Event.{SessionEventLane, PendingSessionEvent}
use nmux.Session.Scheduler.{Queues, key_lt, next_source}
use nmux.Session.Scheduler.Queues.{waiting, size}
use nmux.Session.Scheduler.Ordered.{Above, IsOrdered, waiting-Above}

-- `l` is the lane of the front of the queue of `k`.
abbrev pub IsFront : Queues → Text → SessionEventLane → Type 0
IsFront qs k l =
    (p : PendingSessionEvent) × (q : List PendingSessionEvent) × (waiting k qs ≡ p ∷ q)
    × (p.lane ≡ l)

IsFront-cons :
    (j k : Text) (q : List PendingSessionEvent) (rest : Queues) (l : SessionEventLane)
    → Above j rest
    → IsFront rest k l
    → IsFront ((j, q) ∷ rest) k l
unfolding waiting
IsFront-cons j k q rest l a (p, q', w, e) = (p, q', ground (arith, waiting-Above j rest a), e)

-- The source that is chosen has the chosen lane at its front.
pub next_source-IsFront :
    (qs : Queues) (k : Text) (l : SessionEventLane)
    → IsOrdered qs
    → next_source qs ≡ some (k, l)
    → IsFront qs k l
unfolding next_source waiting
next_source-IsFront [] k l o e = cc
next_source-IsFront ((j, []) ∷ rest) k l o e =
    IsFront-cons j k [] rest l o.1 (next_source-IsFront rest k l o.2 e)
next_source-IsFront ((j, p ∷ q) ∷ rest) k l o e = elim (Option-cases (next_source rest)) [
  | inl n ↦ (p, q, ground arith, ground arith)
  | inr ((k', l'), n) ↦ elim (Bool-cases (key_lt l' k' p.lane j)) [
    | inl h ↦ IsFront-cons j k (p ∷ q) rest l o.1 (next_source-IsFront rest k l o.2 (ground arith))
    | inr h ↦ (p, q, ground arith, ground arith)
  ]
]

key_lt_ntrans :
    (l : SessionEventLane) (k : Text) (l' : SessionEventLane) (k' : Text) (l'' : SessionEventLane)
    (k'' : Text)
    → key_lt l k l' k' ≡ false
    → key_lt l' k' l'' k'' ≡ false
    → key_lt l k l'' k'' ≡ false
unfolding key_lt
key_lt_ntrans l k l' k' l'' k'' h g = ground (arith, text_lt_ntrans k k' k'')

key_lt_asymm :
    (l : SessionEventLane) (k : Text) (l' : SessionEventLane) (k' : Text)
    → key_lt l k l' k' ≡ true
    → key_lt l' k' l k ≡ false
unfolding key_lt
key_lt_asymm l k l' k' h = ground (arith, text_lt_asymm k k')

key_lt_irrefl : (l : SessionEventLane) (k : Text) → key_lt l k l k ≡ false
unfolding key_lt
key_lt_irrefl l k = ground (arith, text_lt_irrefl k)

-- Only empty queues yield no source.
pub next_source-none :
    (qs : Queues) (j : Text) → next_source qs ≡ none → (waiting j qs ≡ []) × (size qs ≡ 0)
unfolding next_source size waiting
next_source-none [] j e = (refl, refl)
next_source-none ((k, []) ∷ rest) j e = ground (arith, next_source-none rest j e)
next_source-none ((k, p ∷ q) ∷ rest) j e = cc

-- No front is below the chosen one.
pub next_source-least :
    (qs : Queues) (k : Text) (l : SessionEventLane) (j : Text) (p : PendingSessionEvent)
    (q : List PendingSessionEvent)
    → next_source qs ≡ some (k, l)
    → waiting j qs ≡ p ∷ q
    → key_lt p.lane j l k ≡ false
unfolding next_source waiting
next_source-least [] k l j p q e w = cc
next_source-least ((i, []) ∷ rest) k l j p q e w =
    ground (arith, next_source-least rest k l j p q e)
next_source-least ((i, r ∷ rs) ∷ rest) k l j p q e w = elim (Option-cases (next_source rest)) [
  | inl n ↦ ground (arith, next_source-none rest j n, key_lt_irrefl r.lane i)
  | inr ((k', l'), n) ↦ ground (
    arith,
    next_source-least rest k' l' j p q n,
    key_lt_asymm l' k' r.lane i,
    key_lt_irrefl r.lane i,
    key_lt_ntrans p.lane j l' k' r.lane i,
  )
]
