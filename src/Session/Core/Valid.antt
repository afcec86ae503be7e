-- ===== src/Session/Core/Valid.antt =====
-- The well-formedness of the core's session under events (crates/nmux-core/src/session.rs).
use nmux.Base.{Bool, true, false, List, [], ◌∷◌, ℕ}
use nmux.Terminal.{TerminalEngine}
use nmux.Session.{Session}
use nmux.Session.Valid.{IsValid}
use nmux.Session.Valid.Tabs.{add_tab-IsValid, switch_tab-IsValid, focus_pane-IsValid}
use nmux.Session.Valid.Close.{close_tab-IsValid}
use nmux.Session.Valid.Split.{split_pane-IsValid}
use nmux.Session.Valid.Write.{set_pane_resize_policy-IsValid}
use nmux.Session.Output.Valid.{apply_pane_output-IsValid, commit_pane_resize-IsValid}
use nmux.Session.Event.{SessionEvent, AcceptedSessionEvent, PendingSessionEvent}
use nmux.Session.Core.{
  SessionCore, workspace_event, apply_event, accept_pending, replay_one, replay_from, engine_mut,
}

module _ (E : TerminalEngine) where
  workspace_event-IsValid :
      (c : SessionCore E) (i : ℕ) (r : Session × Bool)
      → IsValid r.0
      → IsValid (workspace_event E c i r).0.session
  unfolding workspace_event
  workspace_event-IsValid c i (s, true) v = v
  workspace_event-IsValid c i (s, false) v = v

  -- Whatever the event, the session stays well-formed: the active tab exists, each tab's active
  -- pane is in its tree, and tab ids are distinct.
  pub apply_event-IsValid :
      (c : SessionCore E) (i : ℕ) (e : SessionEvent)
      → IsValid c.session
      → IsValid (apply_event E c i e).0.session
  unfolding apply_event
  apply_event-IsValid c i (SessionEvent.add_tab tab_id title pane_id host) v =
      workspace_event-IsValid c i _ (add_tab-IsValid c.session tab_id title pane_id host v)
  apply_event-IsValid c i (SessionEvent.switch_tab tab_id) v =
      workspace_event-IsValid c i _ (switch_tab-IsValid c.session tab_id v)
  apply_event-IsValid c i (SessionEvent.close_tab tab_id) v =
      workspace_event-IsValid c i _ (close_tab-IsValid c.session tab_id v)
  apply_event-IsValid c i (SessionEvent.focus_pane pane_id) v =
      workspace_event-IsValid c i _ (focus_pane-IsValid c.session pane_id v)
  apply_event-IsValid c i (SessionEvent.split_pane pane_id axis new_pane_id new_host) v =
      workspace_event-IsValid c i _
        (split_pane-IsValid c.session pane_id axis new_pane_id new_host v)
  apply_event-IsValid c i (SessionEvent.set_pane_resize_policy pane_id policy) v =
      workspace_event-IsValid c i _ (set_pane_resize_policy-IsValid c.session pane_id policy v)
  apply_event-IsValid c i (SessionEvent.pane_output pane_id bytes) v =
      apply_pane_output-IsValid E c.session pane_id (engine_mut E pane_id c.terminal_engines) v
        bytes
  apply_event-IsValid c i (SessionEvent.commit_pane_resize pane_id cols rows) v =
      commit_pane_resize-IsValid E c.session pane_id (engine_mut E pane_id c.terminal_engines) v
        cols rows
  apply_event-IsValid c i (SessionEvent.request_session_shutdown session_id) v = v
  apply_event-IsValid c i (SessionEvent.forward_pane_input pane_id input_seq bytes) v = v

  pub accept_pending-IsValid :
      (c : SessionCore E) (p : PendingSessionEvent)
      → IsValid c.session
      → IsValid (accept_pending E c p).0.session
  unfolding accept_pending
  accept_pending-IsValid c p v = apply_event-IsValid _ c.next_event_index p.event v

  pub replay_from-IsValid :
      (c : SessionCore E) (events : List AcceptedSessionEvent)
      → IsValid c.session
      → IsValid (replay_from E c events).0.session
  unfolding replay_from
  replay_from-IsValid c [] v = v
  replay_from-IsValid c (a ∷ rest) v =
      replay_from-IsValid (replay_one E c a).0 rest
        (apply_event-IsValid _ a.metadata.event_index a.event v)
