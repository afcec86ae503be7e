-- ===== src/Examples/Workspace.antt =====
-- The well-formedness of sessions, on a session with two tabs.
use nmux.Session.Environment.{trim, trim_start, trim_end, is_whitespace}
use nmux.Base.{
  ◌≡◌, ◌≢◌, refl, codes, some, map_option, map, [], ◌∷◌, ◌++◌, ℕ_discrete, List-discrete, arith,
}
use nmux.Protocol.{SplitAxis}
use nmux.Session.{Pane, state, new_pane_from_template}
use nmux.Session.Tree.{
  split_pane_node, collect_leaf_pane_ids, split_child_sizes, split_container, split_leaf,
}
use nmux.Session.Tree.LeafStates.{leaves}
use nmux.Session.Tree.Leaves.{Splits, leaves-split_pane_node}
use nmux.Session.Tabs.{find_tab, find_pane, close_tab}
use nmux.Session.Valid.{IsValid}
use nmux.Session.Valid.Close.{find_tab-close_tab}
use nmux.Session.Event.{SessionEvent, SessionEventLane, AcceptedSessionEvent}
use nmux.Session.Core.{core_new, apply_event, replay_accepted_events}
use nmux.Session.Core.Versions.{IsAnnounced, apply_event-IsAnnounced}
use nmux.Session.Core.Valid.{apply_event-IsValid}
use nmux.Session.Core.Resume.{Resumes, replay_accepted_events-Resumes}
use nmux.Session.Output.{apply_pane_output_with_engine, commit_pane_resize_with_engine}
use nmux.Session.Output.Isolated.{state-apply_pane_output, state-commit_pane_resize}
use nmux.Terminal.Interim.{InterimAnsiState}
use nmux.Examples.Data.{
  engine, tab_one, tab_two, pane_one, pane_two, shell, two_tabs, two_tabs-IsValid, output_event,
}

apply_event-IsValid_example :
    IsValid
      (apply_event engine (core_new engine two_tabs) 0 (SessionEvent.close_tab tab_one)).0.session
unfolding core_new
apply_event-IsValid_example =
    apply_event-IsValid engine (core_new engine two_tabs) 0 (SessionEvent.close_tab tab_one)
      two_tabs-IsValid

abbrev accepted : AcceptedSessionEvent
accepted = record {
  metadata = record {
    event_index = 7;
    session_mono_ms = 1;
    source_id = codes "c";
    lane = SessionEventLane.client;
  };
  event = SessionEvent.focus_pane pane_two;
}

replay_accepted_events-Resumes_example :
    Resumes engine two_tabs
      (accepted ∷ accepted ∷ [])
      output_event
      (replay_accepted_events engine two_tabs (accepted ∷ accepted ∷ [])).0
      (replay_accepted_events engine two_tabs (accepted ∷ accepted ∷ [])).1
replay_accepted_events-Resumes_example =
    replay_accepted_events-Resumes engine two_tabs (accepted ∷ accepted ∷ []) output_event
      two_tabs-IsValid

tabs_differ : tab_two ≢ tab_one
tabs_differ = ground arith

panes_differ : pane_two ≢ pane_one
panes_differ = ground arith

find_tab-close_tab_example :
    find_tab tab_two (close_tab two_tabs tab_one).0.tabs ≡ find_tab tab_two two_tabs.tabs
find_tab-close_tab_example = find_tab-close_tab two_tabs tab_one tab_two tabs_differ

state-apply_pane_output_example :
    map_option state (
      find_pane
        (apply_pane_output_with_engine engine two_tabs pane_one
          (codes "ok")
          InterimAnsiState.ground).0
        pane_two)
    ≡ map_option state (find_pane two_tabs pane_two)
state-apply_pane_output_example =
    state-apply_pane_output engine two_tabs pane_one pane_two (codes "ok") InterimAnsiState.ground
      panes_differ

state-commit_pane_resize_example :
    map_option state (
      find_pane
        (commit_pane_resize_with_engine engine two_tabs pane_one 100 30 InterimAnsiState.ground).0
        pane_two)
    ≡ map_option state (find_pane two_tabs pane_two)
state-commit_pane_resize_example =
    state-commit_pane_resize engine two_tabs pane_one pane_two 100 30 InterimAnsiState.ground
      panes_differ

abbrev lone_pane : Pane
lone_pane = new_pane_from_template pane_one shell 80 24

abbrev split_example : Pane
split_example =
    split_container (state lone_pane) pane_one SplitAxis.horizontal pane_two shell (80, 12, 80, 12)

lone_pane-splits :
    split_pane_node pane_one SplitAxis.horizontal pane_two shell lone_pane ≡ some split_example
unfolding split_pane_node new_pane_from_template split_leaf split_child_sizes split_container
    ℕ_discrete List-discrete
lone_pane-splits = refl

leaves-split_pane_node_example :
    Splits pane_one SplitAxis.horizontal pane_two shell (leaves lone_pane) (leaves split_example)
    × (collect_leaf_pane_ids lone_pane ≡ map (λ l. l.id) (leaves lone_pane))
    × (collect_leaf_pane_ids split_example ≡ map (λ l. l.id) (leaves split_example))
leaves-split_pane_node_example =
    leaves-split_pane_node pane_one SplitAxis.horizontal pane_two shell lone_pane split_example
      lone_pane-splits

apply_event-IsAnnounced_example :
    IsAnnounced
      (core_new engine two_tabs).session
      (apply_event engine
        (core_new engine two_tabs)
        0
        (SessionEvent.commit_pane_resize pane_one 100 30)).0.session
      (apply_event engine
        (core_new engine two_tabs)
        0
        (SessionEvent.commit_pane_resize pane_one 100 30)).1
apply_event-IsAnnounced_example =
    apply_event-IsAnnounced engine (core_new engine two_tabs) 0
      (SessionEvent.commit_pane_resize pane_one 100 30)

trimmed : trim (codes " a b " ++ 0x2005 ∷ []) ≡ codes "a b"
unfolding trim trim_start trim_end is_whitespace ℕ_discrete
trimmed = refl
