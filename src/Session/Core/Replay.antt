-- ===== src/Session/Core/Replay.antt =====
-- Accepting events and replaying them (crates/nmux-core/src/session.rs, `replay_accepted_events`).
use nmux.Base.{
  ◌≡◌, refl, ◌≤◌, ◌∙◌, ap, Bool, List, [], ◌∷◌, map, arith, ℕ, max, u64_max, saturating_add64,
}
use nmux.Terminal.{TerminalEngine}
use nmux.Session.{Session}
use nmux.Session.Event.{SessionEvent, PendingSessionEvent, SessionTraceRecord, from_transition}
use nmux.Session.Core.{
  SessionCore, accept_pending, replay_one, replay_from, replay_accepted_events, core_new,
  apply_event, workspace_event,
}

module _ (E : TerminalEngine) where
  -- Pending events accepted one after another, with the record of each.
  unfoldable pub accept_all :
      SessionCore E → List PendingSessionEvent → SessionCore E × List SessionTraceRecord
  unfolding from_transition
  accept_all c [] = (c, [])
  accept_all c (p ∷ ps) =
      let (c', t) = accept_pending E c p in
      let (c'', records) = accept_all c' ps in (c'', from_transition t ∷ records)

  next_index : (n : ℕ) → n ≤ u64_max → max n (saturating_add64 n 1) ≡ saturating_add64 n 1
  next_index n h = omega arith

  replay_one-accept_pending :
      (c : SessionCore E) (p : PendingSessionEvent)
      → c.next_event_index ≤ u64_max
      → replay_one E c (accept_pending E c p).1.accepted
        ≡ ((accept_pending E c p).0, from_transition (accept_pending E c p).1)
  unfolding replay_one accept_pending from_transition
  replay_one-accept_pending c p h = rw (next_index c.next_event_index h)

  workspace_event-next :
      (c : SessionCore E) (i : ℕ) (r : Session × Bool)
      → (workspace_event E c i r).0.next_event_index ≡ c.next_event_index
  unfolding workspace_event
  workspace_event-next c i r = refl

  pub next_event_index-apply_event :
      (c : SessionCore E) (i : ℕ) (e : SessionEvent)
      → (apply_event E c i e).0.next_event_index ≡ c.next_event_index
  unfolding apply_event
  next_event_index-apply_event c i (SessionEvent.pane_output pane_id bytes) = refl
  next_event_index-apply_event c i _ = refl

  next_event_index-accept_pending :
      (c : SessionCore E) (p : PendingSessionEvent)
      → (accept_pending E c p).0.next_event_index ≤ u64_max
  unfolding accept_pending
  next_event_index-accept_pending c p = omega (
    arith,
    next_event_index-apply_event
        (record c { next_event_index = saturating_add64 c.next_event_index 1 }) c.next_event_index
        p.event,
  )

  pub replay_from-accept_all :
      (c : SessionCore E) (ps : List PendingSessionEvent)
      → c.next_event_index ≤ u64_max
      → replay_from E c (map (λ r. r.accepted) (accept_all c ps).1) ≡ accept_all c ps
  unfolding replay_from accept_all
  replay_from-accept_all c [] h = refl
  replay_from-accept_all c (p ∷ ps) h =
      let rest =
        map (λ (r : SessionTraceRecord). r.accepted) (accept_all (accept_pending E c p).0 ps).1 in
      ap
        (λ (x : SessionCore E × SessionTraceRecord).
          ((replay_from E x.0 rest).0, x.1 ∷ (replay_from E x.0 rest).1))
        (replay_one-accept_pending c p h)
      ∙ ap
          (λ (y : SessionCore E × List SessionTraceRecord).
            (y.0, from_transition (accept_pending E c p).1 ∷ y.1))
          (replay_from-accept_all (accept_pending E c p).0 ps (next_event_index-accept_pending c p))

  -- A fresh core that replays the accepted events of a run from the same session ends in the same
  -- core, engines and event index included, and gives every event the effects that it had.
  pub replay_accepted_events-accept_all :
      (s : Session) (ps : List PendingSessionEvent)
      → replay_accepted_events E s (map (λ r. r.accepted) (accept_all (core_new E s) ps).1)
        ≡ accept_all (core_new E s) ps
  unfolding replay_accepted_events
  replay_accepted_events-accept_all s ps = replay_from-accept_all (core_new E s) ps (omega arith)
