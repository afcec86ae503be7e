-- ===== src/Session/Core/Resume.antt =====
-- A session that goes on behind a replay (crates/nmux-core/src/session.rs,
-- `replay_accepted_events`).
use nmux.Base.{◌≡◌, refl, ap, ◌∙◌, List, [], ◌∷◌, map, arith, ℕ, max, saturating_add64}
use nmux.Terminal.{TerminalEngine}
use nmux.Session.{Session}
use nmux.Session.Valid.{IsValid}
use nmux.Session.Event.{
  SessionEvent, AcceptedSessionEvent, PendingSessionEvent, SessionEffect, SessionTraceRecord,
}
use nmux.Session.Core.{
  SessionCore, core_new, apply_event, workspace_event, apply_pane_output_event,
  apply_pane_resize_event, apply_accepted, accept_pending, replay_one, replay_from,
  replay_accepted_events,
}
use nmux.Session.Core.Replay.{next_event_index-apply_event}
use nmux.Session.Core.Valid.{replay_from-IsValid, accept_pending-IsValid}

-- The least index above those of all events, up to saturation.
abbrev pub index_above : List AcceptedSessionEvent → ℕ
index_above [] = 0
index_above (a ∷ rest) = max (saturating_add64 a.metadata.event_index 1) (index_above rest)

module _ (E : TerminalEngine) where
  next_event_index-replay_one :
      (c : SessionCore E) (a : AcceptedSessionEvent)
      → (replay_one E c a).0.next_event_index
        ≡ max c.next_event_index (saturating_add64 a.metadata.event_index 1)
  unfolding replay_one
  next_event_index-replay_one c a = next_event_index-apply_event E _ _ a.event

  next_event_index-replay_from :
      (c : SessionCore E) (events : List AcceptedSessionEvent)
      → (replay_from E c events).0.next_event_index ≡ max c.next_event_index (index_above events)
  unfolding replay_from
  next_event_index-replay_from c [] = omega arith
  next_event_index-replay_from c (a ∷ rest) = omega (
    arith,
    next_event_index-replay_from (replay_one E c a).0 rest,
    next_event_index-replay_one c a,
  )

  accepted-replay_from :
      (c : SessionCore E) (events : List AcceptedSessionEvent)
      → map (λ r. r.accepted) (replay_from E c events).1 ≡ events
  unfolding replay_from replay_one
  accepted-replay_from c [] = refl
  accepted-replay_from c (a ∷ rest) = ap (◌∷◌ a) (accepted-replay_from (replay_one E c a).0 rest)

  -- The events applied one after another, with the effects of each.
  abbrev pub apply_all :
      SessionCore E → List AcceptedSessionEvent → SessionCore E × List (List SessionEffect)
  apply_all c [] = (c, [])
  apply_all c (a ∷ rest) =
      let (c', effects) = apply_accepted E c a in
      let (c'', later) = apply_all c' rest in (c'', effects ∷ later)

  -- A core but for the index of its next event.
  abbrev pub at_zero : SessionCore E → SessionCore E
  at_zero c = record c { next_event_index = 0 }

  apply_event-at_zero :
      (c : SessionCore E) (i : ℕ) (e : SessionEvent)
      → (at_zero (apply_event E c i e).0, (apply_event E c i e).1) ≡ apply_event E (at_zero c) i e
  unfolding apply_event workspace_event apply_pane_output_event apply_pane_resize_event
  apply_event-at_zero c i (SessionEvent.pane_output pane_id bytes) = refl
  apply_event-at_zero c i _ = refl

  replay_one-at_zero :
      (c : SessionCore E) (a : AcceptedSessionEvent)
      → (at_zero (replay_one E c a).0, (replay_one E c a).1.effects)
        ≡ apply_accepted E (at_zero c) a
  unfolding replay_one apply_accepted
  replay_one-at_zero c a = apply_event-at_zero _ a.metadata.event_index a.event

  replay_from-at_zero :
      (c : SessionCore E) (events : List AcceptedSessionEvent)
      → (at_zero (replay_from E c events).0, map (λ r. r.effects) (replay_from E c events).1)
        ≡ apply_all (at_zero c) events
  unfolding replay_from
  replay_from-at_zero c [] = refl
  replay_from-at_zero c (a ∷ rest) =
      let (c', r) = replay_one E c a in
      ap (λ (x : SessionCore E × List (List SessionEffect)). (x.0, r.effects ∷ x.1))
        (replay_from-at_zero c' rest)
      ∙ ap
          (λ (y : SessionCore E × List SessionEffect).
            ((apply_all y.0 rest).0, y.1 ∷ (apply_all y.0 rest).1))
          (replay_one-at_zero c a)

  -- What a replay of `events` leaves to the event `p` that is accepted next.
  pub record Resumes (s : Session) (events : List AcceptedSessionEvent) (p : PendingSessionEvent)
      (c : SessionCore E) (records : List SessionTraceRecord) : Type 0 where
    pub applied : (at_zero c, map (λ r. r.effects) records) ≡ apply_all (core_new E s) events
    pub recorded : map (λ r. r.accepted) records ≡ events
    pub index : (accept_pending E c p).1.accepted.metadata.event_index ≡ index_above events
    pub valid : IsValid c.session
    pub stays_valid : IsValid (accept_pending E c p).0.session

  -- A replay from a well-formed session of any events, also of ones that no session accepted,
  -- records each of them in order and ends in a well-formed session. The session, its engines and
  -- the recorded effects are those of applying the events in this order. The event that is accepted
  -- next gets the least index above those of all replayed events, up to saturation, or 0 if there
  -- are none, and leaves the session well-formed.
  pub replay_accepted_events-Resumes :
      (s : Session) (events : List AcceptedSessionEvent) (p : PendingSessionEvent)
      → IsValid s
      → Resumes s events p
          (replay_accepted_events E s events).0
          (replay_accepted_events E s events).1
  unfolding replay_accepted_events accept_pending core_new
  replay_accepted_events-Resumes s events p v = record {
    applied = replay_from-at_zero (core_new E s) events;
    recorded = accepted-replay_from (core_new E s) events;
    index = omega (arith, next_event_index-replay_from (core_new E s) events);
    valid = replay_from-IsValid E (core_new E s) events v;
    stays_valid =
        accept_pending-IsValid E (replay_from E (core_new E s) events).0 p
          (replay_from-IsValid E (core_new E s) events v);
  }
