-- ===== src/Session/Output.antt =====
-- Output and resize of a pane through its engine (crates/nmux-core/src/session.rs,
-- `apply_pane_output_with_engine` and `commit_pane_resize_with_engine`). The engine is a parameter.
pub mod Valid
pub mod Isolated
use nmux.Base.{
  ℕ, ◌==◌, ◌&&◌, Bool, true, false, Text, Option, none, some, List, if◌then◌else◌, ℕ-DecEq,
}
use nmux.Terminal.{TerminalInput, TerminalUpdate, TerminalEngine}
use nmux.Session.{Pane, PaneState, state, Session, to_terminal_cursor}
use nmux.Session.Tabs.{find_pane, write_pane, bump}
use nmux.Session.Update.{apply_terminal_update}

unfoldable pub terminal_input : PaneState → TerminalInput
terminal_input p = record {
  pane_id = p.id;
  cols = p.cols;
  rows = p.rows;
  surface = p.surface;
  cursor = to_terminal_cursor p.cursor;
  modes = p.modes;
  title = p.terminal_title;
  working_directory = p.terminal_working_directory;
  colors = p.colors;
  styles = p.styles;
  surface_lines = p.surface_lines;
  surface_row_runs = p.surface_row_runs;
  surface_semantic_prompts = p.surface_semantic_prompts;
  surface_dirty_rows = p.surface_dirty_rows;
  surface_kitty_placeholders = p.surface_kitty_placeholders;
  scrollback_lines = p.scrollback_lines;
  scrollback_row_runs = p.scrollback_row_runs;
  scrollback_semantic_prompts = p.scrollback_semantic_prompts;
  scrollback_dirty_rows = p.scrollback_dirty_rows;
  scrollback_kitty_placeholders = p.scrollback_kitty_placeholders;
}

-- What is done with the engine's answer to output.
unfoldable pub output_update : Session → Text → PaneState → Option TerminalUpdate → Session × Bool
output_update s pane_id p none = (s, false)
output_update s pane_id p (some update) =
    let (q, changed) = apply_terminal_update p update false in (write_pane s pane_id q, changed)

-- What is done with the engine's answer to a resize.
unfoldable pub resize_update :
    Session → Text → PaneState → ℕ → ℕ → Option TerminalUpdate → Session × Bool
unfolding bump
resize_update s pane_id p cols rows none = (s, false)
resize_update s pane_id p cols rows (some update) =
    let (q, _) = apply_terminal_update (record p { cols = cols; rows = rows }) update true in
    (bump (write_pane s pane_id q), true)

module _ (E : TerminalEngine) where
  unfoldable pub apply_pane_output_with_engine :
      Session → Text → List ℕ → E.State → Session × Bool × E.State
  unfolding output_update terminal_input
  apply_pane_output_with_engine s pane_id output engine = elim (find_pane s pane_id) [
    | none ↦ (s, false, engine)
    | some p ↦
        let (update, engine') = E.apply_output engine (terminal_input (state p)) output in
        let (s', changed) = output_update s pane_id (state p) update in (s', changed, engine')
  ]

  unfoldable pub commit_pane_resize_with_engine :
      Session → Text → ℕ → ℕ → E.State → Session × Bool × E.State
  unfolding resize_update terminal_input
  commit_pane_resize_with_engine s pane_id cols rows engine = elim (find_pane s pane_id) [
    | none ↦ (s, false, engine)
    | some p ↦
        if (state p).cols == cols && (state p).rows == rows
        then (s, false, engine)
        else let (update, engine') = E.resize engine (terminal_input (state p)) cols rows in
          let (s', changed) = resize_update s pane_id (state p) cols rows update in
          (s', changed, engine')
  ]
