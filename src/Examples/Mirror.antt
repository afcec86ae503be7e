-- ===== src/Examples/Mirror.antt =====
-- A client that follows the pane of the initial session through a report and a refresh.
use nmux.Base.{
  ℕ, zero, suc, ◌≡◌, ◌∙◌, refl, sym, ap, subst, All, length, is_empty, ≡→==, Bool, true, false,
  Option, some, Text, List, [], ◌∷◌, arith, ℕ_discrete, List-discrete, inr,
}
use nmux.Frame.{FlatBuffers, EnvelopeArgs}
use nmux.Terminal.{
  TerminalModes, plain, update_plain, cell_runs_text, plain_row_runs, plain_row_semantic_prompts,
  plain_row_dirty_flags, plain_row_kitty_placeholders,
}
use nmux.Session.{
  Session, PaneState, Cursor, pane, Panes, initial, initial_pane, of_terminal_cursor,
}
use nmux.Session.Tree.{pane_node, write_node}
use nmux.Session.Tabs.{find_pane, write_pane}
use nmux.Session.Update.{
  apply_terminal_update, runs_match, surface_of, Rows, row_runs_for_lines,
  row_semantic_prompts_for_lines, row_dirty_flags_for_lines, row_kitty_placeholders_for_lines,
  updated_surface, rows_for_lines,
}
use nmux.Session.Update.Aligned.{surface-apply_terminal_update}
use nmux.Client.Surface.{ok, ClientPaneSurface}
use nmux.Sync.Consistent.{apply_terminal_update-IsConsistent}
use nmux.Sync.Run.{Step, IsServed, pane_after, run_pane, run_client, run_client-mirror}
use nmux.Client.Surface.Render.{join_lines, render_text}
use nmux.Sync.Shown.{shown_lines, render_text-mirror}
use nmux.Wire.{protocol_version}
use nmux.Client.Receive.{receive_some}
use nmux.Sync.{SurfaceResponse, surface_response_frame, changed_surface_frame, WriterState}
use nmux.Sync.Mirror.{mirror, IsConsistent, IsSendable, IsKnownRun}
use nmux.Sync.Changes.{written}
use nmux.Client.Surface.Validate.{
  surface_kind_known, cursor_shape_known, tracking_mode_known, mouse_format_known,
  semantic_prompt_known,
}
use nmux.Sync.Refines.{IsTracked, receive-snapshot, changed_surface_frame-mirror}
use nmux.Examples.Data.{report, pane_one}

-- A library whose buffers are the tables themselves.
abbrev codec : FlatBuffers
codec = record {
  Buffer = EnvelopeArgs;
  IsWithinLimits = λ e. Unit;
  finish = λ e. e;
  root = some;
  root-finish = λ e limits. refl;
}

initial_pane-IsConsistent : IsConsistent initial_pane
unfolding initial_pane runs_match cell_runs_text plain ℕ_discrete List-discrete
initial_pane-IsConsistent = record {
  aligned = record {
    surface = (refl, refl, refl, refl);
    scrollback = (refl, refl, refl, refl);
    fits = omega arith;
    indices = (omega arith, (omega arith, tt));
  };
  matches = refl;
}

abbrev reported : PaneState
reported = (apply_terminal_update initial_pane report false).0

-- The rows of the report, cut to the pane.
reported_rows : surface_of reported ≡ updated_surface report
unfolding initial_pane updated_surface rows_for_lines update_plain plain_row_runs
    plain_row_semantic_prompts plain_row_dirty_flags plain_row_kitty_placeholders row_runs_for_lines
    row_semantic_prompts_for_lines row_dirty_flags_for_lines row_kitty_placeholders_for_lines
    runs_match cell_runs_text plain ℕ_discrete List-discrete
reported_rows = surface-apply_terminal_update initial_pane report false ∙ refl

reported-IsSendable : IsSendable reported
unfolding initial_pane updated_surface rows_for_lines update_plain plain_row_runs
    plain_row_semantic_prompts plain_row_dirty_flags plain_row_kitty_placeholders row_runs_for_lines
    row_semantic_prompts_for_lines row_dirty_flags_for_lines row_kitty_placeholders_for_lines
    runs_match cell_runs_text plain ℕ_discrete List-discrete of_terminal_cursor
reported-IsSendable =
    let w = written initial_pane report false in
    record {
      named = ap is_empty w.0;
      surface = ap surface_kind_known w.3;
      shape = ap (λ (c : Cursor). cursor_shape_known c.shape) w.7;
      tracking = ap (λ (m : TerminalModes). tracking_mode_known m.mouse_tracking_mode) w.6;
      format = ap (λ (m : TerminalModes). mouse_format_known m.mouse_format) w.6;
      prompts =
          subst (λ (r : Rows). All (λ k. semantic_prompt_known k ≡ true) r.prompts)
            (sym reported_rows) (refl, (refl, tt));
      runs =
          subst (λ (r : Rows). All (λ row. All (IsKnownRun (length reported.styles)) row) r.runs)
            (sym reported_rows)
            (rw w.4 (((refl, omega arith), tt), (((refl, omega arith), tt), tt)));
      rows = rw w.2 (omega arith);
    }

report-IsTracked : IsTracked initial_pane report false
unfolding initial_pane update_plain
report-IsTracked = record {
  sendable = reported-IsSendable;
  room = omega arith;
  short = omega arith;
  covers = inr (omega arith);
  palette_short = omega arith;
  palette_grows = omega arith;
}

abbrev reported_session : Session
reported_session = write_pane initial pane_one reported

placed : (q : PaneState) → find_pane (write_pane initial pane_one q) q.id ≡ some (pane q Panes.nil)
unfolding find_pane write_pane write_node pane_node initial initial_pane ℕ_discrete List-discrete
placed q = rw (≡→== q.id q.id refl) refl

changed_surface_frame-mirror_example :
    receive_some codec
      (changed_surface_frame codec reported_session reported.id reported.surface_version
        (some initial_pane.surface_version)
        7)
      (mirror initial_pane)
    ≡ (ok tt, mirror reported)
changed_surface_frame-mirror_example =
    changed_surface_frame-mirror codec reported_session 7 initial_pane report false Panes.nil
      (placed reported) initial_pane-IsConsistent report-IsTracked tt tt

-- A client that shows nothing of the session.
abbrev stale : ClientPaneSurface
stale = record (mirror initial_pane) { version = 1; rows = 0; row_text = []; row_runs = [] }

receive-snapshot_example :
    receive_some codec
      (surface_response_frame codec reported_session reported.id SurfaceResponse.snapshot 7)
      stale
    ≡ (ok tt, mirror reported)
receive-snapshot_example =
    receive-snapshot codec reported_session 7 reported Panes.nil (placed reported) stale
      (apply_terminal_update-IsConsistent initial_pane report false initial_pane-IsConsistent)
      reported-IsSendable tt

apply_terminal_update-IsConsistent_example : IsConsistent reported
apply_terminal_update-IsConsistent_example =
    apply_terminal_update-IsConsistent initial_pane report false initial_pane-IsConsistent

abbrev reporting : Step
reporting = record { update = report; force = false; session = reported_session; seq = 7 }

reporting-IsServed : IsServed codec initial_pane (pane_after initial_pane reporting) reporting
unfolding pane_after
reporting-IsServed = record {
  children = Panes.nil;
  found = placed reported;
  snapshot = tt;
  patch = tt;
}

run_client-mirror_example :
    run_client codec (reporting ∷ []) initial_pane (mirror initial_pane)
    ≡ (ok tt, mirror (run_pane (reporting ∷ []) initial_pane))
run_client-mirror_example =
    run_client-mirror codec (reporting ∷ []) initial_pane initial_pane-IsConsistent
      (report-IsTracked, reporting-IsServed, tt)

-- A stream that takes one frame and then breaks, with the loop over two names of the pane.
abbrev take_once : ℕ → List ℕ → Bool × ℕ
take_once zero frame = (false, 0)
take_once (suc n) frame = (true, n)

abbrev fresh_client : WriterState ℕ
fresh_client = record { stream = 1; seq = 7; known_versions = [] }

abbrev names_twice : List Text
names_twice = pane_one ∷ pane_one ∷ []

abbrev one_byte : EnvelopeArgs → List ℕ
one_byte e = 0 ∷ []

abbrev current_version : List ℕ → Option ℕ
current_version frame = some protocol_version

render_text-mirror_example :
    render_text (mirror initial_pane) ≡ join_lines (shown_lines initial_pane.surface_lines)
unfolding initial_pane
render_text-mirror_example = render_text-mirror initial_pane (omega arith)
