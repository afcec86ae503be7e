-- ===== src/Session/Core.antt =====
-- The core: one session, its engines and the index of the next event
-- (crates/nmux-core/src/session.rs, `impl SessionCore`; the engine map is `PaneTerminalEngines` of
-- crates/nmux-core/src/terminal.rs).
pub mod Valid
pub mod Versions
pub mod Replay
pub mod Resume
use nmux.Base.{
  ℕ, ◌+◌, max, ◌==◌, Bool, true, false, Text, Option, none, some, List, [], ◌∷◌, ◌++◌,
  if◌then◌else◌, saturating_add64, map_option, ℕ-DecEq, List-DecEq,
}
use nmux.Terminal.{TerminalEngine}
use nmux.Session.{Session, state}
use nmux.Session.Tabs.{
  find_pane, add_tab, switch_tab, close_tab, focus_pane, split_pane, set_pane_resize_policy,
}
use nmux.Session.Output.{apply_pane_output_with_engine, commit_pane_resize_with_engine}
use nmux.Session.Event.{
  SessionEvent, AcceptedSessionEvent, PendingSessionEvent, SessionEffect, SessionTransition,
  SessionTraceRecord, workspace_changed, pane_surface_changed, pane_resized,
}

-- `pane_surface_effect`: the versions and the patch kind of the pane as it now is.
unfoldable pub pane_surface_effect : Session → ℕ → Text → Option SessionEffect
pane_surface_effect s event_index pane_id =
    map_option
      (λ p.
        pane_surface_changed event_index pane_id (state p).surface_version
          (state p).scrollback_version (state p).last_patch_kind)
      (find_pane s pane_id)

abbrev pub to_list : Option SessionEffect → List SessionEffect
to_list none = []
to_list (some e) = e ∷ []

-- The effects of an event that changes the workspace alone.
unfoldable pub workspace_effects : ℕ → Session × Bool → Session × List SessionEffect
workspace_effects event_index (s, true) = (s, workspace_changed event_index s.version ∷ [])
workspace_effects event_index (s, false) = (s, [])

unfoldable pub output_effects : ℕ → Text → Session → Bool → List SessionEffect
unfolding pane_surface_effect
output_effects event_index pane_id s true = to_list (pane_surface_effect s event_index pane_id)
output_effects event_index pane_id s false = []

unfoldable pub resize_effects : ℕ → Text → ℕ → ℕ → Session → Bool → List SessionEffect
unfolding pane_surface_effect
resize_effects event_index pane_id cols rows s true =
    pane_resized event_index pane_id cols rows
    ∷ (to_list (pane_surface_effect s event_index pane_id)
        ++ workspace_changed event_index s.version ∷ [])
resize_effects event_index pane_id cols rows s false = []

module _ (E : TerminalEngine) where
  -- A map from panes to engines; a pane that has none gets a fresh one.
  abbrev pub Engines : Type 0
  Engines = List (Text × E.State)

  unfoldable pub engine_mut : Text → Engines → E.State
  engine_mut pane_id [] = E.fresh
  engine_mut pane_id ((id, e) ∷ es) = if id == pane_id then e else engine_mut pane_id es

  unfoldable pub set_engine : Text → E.State → Engines → Engines
  set_engine pane_id e [] = (pane_id, e) ∷ []
  set_engine pane_id e ((id, old) ∷ es) =
      if id == pane_id then (id, e) ∷ es else (id, old) ∷ set_engine pane_id e es

  pub record SessionCore : Type 0 where
    pub session : Session
    pub terminal_engines : List (Text × E.State)
    pub next_event_index : ℕ

  unfoldable pub core_new : Session → SessionCore
  core_new s = record { session = s; terminal_engines = []; next_event_index = 0 }

  unfoldable pub workspace_event :
      SessionCore → ℕ → Session × Bool → SessionCore × List SessionEffect
  unfolding workspace_effects
  workspace_event c event_index r =
      let (s, effects) = workspace_effects event_index r in (record c { session = s }, effects)

  unfoldable pub apply_pane_output_event :
      SessionCore → ℕ → Text → List ℕ → SessionCore × List SessionEffect
  unfolding output_effects
  apply_pane_output_event c event_index pane_id bytes =
      let (s, changed, e) =
        apply_pane_output_with_engine E c.session pane_id bytes
          (engine_mut pane_id c.terminal_engines) in
      (
        record c { session = s; terminal_engines = set_engine pane_id e c.terminal_engines },
        output_effects event_index pane_id s changed,
      )

  unfoldable pub apply_pane_resize_event :
      SessionCore → ℕ → Text → ℕ → ℕ → SessionCore × List SessionEffect
  unfolding resize_effects
  apply_pane_resize_event c event_index pane_id cols rows =
      let (s, changed, e) =
        commit_pane_resize_with_engine E c.session pane_id cols rows
          (engine_mut pane_id c.terminal_engines) in
      (
        record c { session = s; terminal_engines = set_engine pane_id e c.terminal_engines },
        resize_effects event_index pane_id cols rows s changed,
      )

  -- The dispatch of `apply_accepted` on the event.
  unfoldable pub apply_event : SessionCore → ℕ → SessionEvent → SessionCore × List SessionEffect
  unfolding workspace_event apply_pane_output_event apply_pane_resize_event
  apply_event c i (SessionEvent.add_tab tab_id title pane_id host) =
      workspace_event c i (add_tab c.session tab_id title pane_id host)
  apply_event c i (SessionEvent.switch_tab tab_id) =
      workspace_event c i (switch_tab c.session tab_id)
  apply_event c i (SessionEvent.close_tab tab_id) = workspace_event c i (close_tab c.session tab_id)
  apply_event c i (SessionEvent.focus_pane pane_id) =
      workspace_event c i (focus_pane c.session pane_id)
  apply_event c i (SessionEvent.split_pane pane_id axis new_pane_id new_host) =
      workspace_event c i (split_pane c.session pane_id axis new_pane_id new_host)
  apply_event c i (SessionEvent.set_pane_resize_policy pane_id policy) =
      workspace_event c i (set_pane_resize_policy c.session pane_id policy)
  apply_event c i (SessionEvent.pane_output pane_id bytes) =
      apply_pane_output_event c i pane_id bytes
  apply_event c i (SessionEvent.commit_pane_resize pane_id cols rows) =
      apply_pane_resize_event c i pane_id cols rows
  apply_event c i (SessionEvent.request_session_shutdown session_id) = (c, [])
  apply_event c i (SessionEvent.forward_pane_input pane_id input_seq bytes) = (c, [])

  unfoldable pub apply_accepted :
      SessionCore → AcceptedSessionEvent → SessionCore × List SessionEffect
  apply_accepted c accepted = apply_event c accepted.metadata.event_index accepted.event

  unfoldable pub accept_pending :
      SessionCore → PendingSessionEvent → SessionCore × SessionTransition
  unfolding apply_accepted
  accept_pending c pending =
      let accepted : AcceptedSessionEvent = record {
        metadata = record {
          event_index = c.next_event_index;
          session_mono_ms = pending.session_mono_ms;
          source_id = pending.source_id;
          lane = pending.lane;
        };
        event = pending.event;
      } in
      let (c', effects) =
        apply_accepted (record c { next_event_index = saturating_add64 c.next_event_index 1 })
          accepted in
      (c', record { accepted = accepted; effects = effects })

  -- One round of the loop of `replay_accepted_events`.
  unfoldable pub replay_one : SessionCore → AcceptedSessionEvent → SessionCore × SessionTraceRecord
  unfolding apply_accepted
  replay_one c accepted =
      let next = max c.next_event_index (saturating_add64 accepted.metadata.event_index 1) in
      let (c', effects) = apply_accepted (record c { next_event_index = next }) accepted in
      (c', record { accepted = accepted; effects = effects })

  unfoldable pub replay_from :
      SessionCore → List AcceptedSessionEvent → SessionCore × List SessionTraceRecord
  unfolding replay_one
  replay_from c [] = (c, [])
  replay_from c (accepted ∷ rest) =
      let (c', r) = replay_one c accepted in
      let (c'', records) = replay_from c' rest in (c'', r ∷ records)

  unfoldable pub replay_accepted_events :
      Session → List AcceptedSessionEvent → SessionCore × List SessionTraceRecord
  unfolding core_new replay_from
  replay_accepted_events s events = replay_from (core_new s) events
