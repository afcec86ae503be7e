-- ===== src/Examples/Data.antt =====
-- The sessions, engines and events that the examples run on.
use nmux.Base.{true, ℕ_discrete, List-discrete, Text, codes, [], ◌∷◌, refl}
use nmux.Protocol.{PatchKind, SurfaceKind, CursorShape}
use nmux.Host.{HostSpec, host_local, command_new}
use nmux.Terminal.{TerminalEngine, TerminalUpdate, update_plain}
use nmux.Terminal.Interim.Merge.{interim_engine}
use nmux.Session.{Session, initial, initial_pane}
use nmux.Session.Tree.{pane_node}
use nmux.Session.Tabs.{add_tab, find_tab}
use nmux.Session.Valid.{IsValid}
use nmux.Session.Valid.Tabs.{add_tab-IsValid}
use nmux.Session.Event.{SessionEvent, SessionEventLane, PendingSessionEvent}

-- Bytes that are ASCII decode to themselves.
abbrev pub engine : TerminalEngine
engine = interim_engine (λ bytes. bytes)

abbrev pub tab_one : Text
tab_one = codes "tab-1"

abbrev pub tab_two : Text
tab_two = codes "tab-2"

abbrev pub pane_one : Text
pane_one = codes "pane-1"

abbrev pub pane_two : Text
pane_two = codes "pane-2"

abbrev pub shell : HostSpec
shell = host_local (codes "local") (command_new (codes "sh"))

abbrev pub two_tabs : Session
two_tabs = (add_tab initial tab_two (codes "two") pane_two shell).0

pub initial-IsValid : IsValid initial
unfolding initial initial_pane find_tab pane_node ℕ_discrete List-discrete
initial-IsValid = record { active = refl; focused = (refl, tt); distinct = (refl, tt) }

pub two_tabs-IsValid : IsValid two_tabs
two_tabs-IsValid = add_tab-IsValid initial tab_two (codes "two") pane_two shell initial-IsValid

abbrev pub output_event : PendingSessionEvent
output_event = record {
  source_id = pane_one;
  lane = SessionEventLane.pane;
  session_mono_ms = 5;
  event = SessionEvent.pane_output pane_one (codes "ok");
}

abbrev pub close_event : PendingSessionEvent
close_event = record {
  source_id = codes "client";
  lane = SessionEventLane.control;
  session_mono_ms = 6;
  event = SessionEvent.close_tab tab_one;
}

-- A report that changes the second row alone.
abbrev pub report : TerminalUpdate
report =
    update_plain PatchKind.replace_rows SurfaceKind.main
      (record { row = 1; col = 0; visible = true; shape = CursorShape.block; blinking = true })
      (codes "nmux pane-1" ∷ codes "$" ∷ []) (codes "$" ∷ [])
