-- ===== src/Session/Event.antt =====
-- Events, accepted events and effects of a session (crates/nmux-core/src/session.rs).
use nmux.Base.{ℕ, Text, Option, List}
use nmux.Protocol.{SplitAxis, ResizePolicy, PatchKind}
use nmux.Host.{HostSpec}

pub data SessionEvent : Type 0 where
  add_tab : Text → Text → Text → HostSpec → SessionEvent
  switch_tab : Text → SessionEvent
  close_tab : Text → SessionEvent
  focus_pane : Text → SessionEvent
  split_pane : Text → SplitAxis → Text → HostSpec → SessionEvent
  set_pane_resize_policy : Text → ResizePolicy → SessionEvent
  pane_output : Text → List ℕ → SessionEvent
  commit_pane_resize : Text → ℕ → ℕ → SessionEvent
  request_session_shutdown : Option Text → SessionEvent
  forward_pane_input : Text → ℕ → List ℕ → SessionEvent

pub data SessionEventLane : Type 0 where
  control client pane timer lifecycle : SessionEventLane

unfoldable pub priority : SessionEventLane → ℕ
priority SessionEventLane.lifecycle = 0
priority SessionEventLane.control = 1
priority SessionEventLane.client = 2
priority SessionEventLane.pane = 3
priority SessionEventLane.timer = 4

pub record AcceptedEventMetadata : Type 0 where
  pub event_index : ℕ
  pub session_mono_ms : ℕ
  pub source_id : Text
  pub lane : SessionEventLane

pub record AcceptedSessionEvent : Type 0 where
  pub metadata : AcceptedEventMetadata
  pub event : SessionEvent

pub data SessionEffect : Type 0 where
  workspace_changed : ℕ → ℕ → SessionEffect
  pane_surface_changed : ℕ → Text → ℕ → ℕ → PatchKind → SessionEffect
  pane_resized : ℕ → Text → ℕ → ℕ → SessionEffect

pub record SessionTransition : Type 0 where
  pub accepted : AcceptedSessionEvent
  pub effects : List SessionEffect

pub record PendingSessionEvent : Type 0 where
  pub source_id : Text
  pub lane : SessionEventLane
  pub session_mono_ms : ℕ
  pub event : SessionEvent

pub record SessionTraceRecord : Type 0 where
  pub accepted : AcceptedSessionEvent
  pub effects : List SessionEffect

unfoldable pub from_transition : SessionTransition → SessionTraceRecord
from_transition t = record { accepted = t.accepted; effects = t.effects }
