-- ===== src/Examples/Screen.antt =====
-- Reports of an engine, on the first pane of a session.
use nmux.Base.{
  ℕ, ◌≡◌, refl, ap, Bool-discrete, Option-discrete, ◌<◌, inl, inr, true, false, none, some, List,
  [], ◌∷◌, arith, length, ℕ_discrete, List-discrete, All,
}
use nmux.Protocol.{
  PatchKind, SurfaceKind-discrete, PatchKind-discrete, RowSemanticPrompt-discrete,
  CursorShape-discrete, CellSemanticContent-discrete, MouseTrackingMode-discrete,
  MouseFormat-discrete,
}
use nmux.Terminal.{
  update_plain, plain_row_runs, plain_row_semantic_prompts, plain_row_dirty_flags,
  plain_row_kitty_placeholders, plain, cell_runs_text, TerminalModes-discrete,
  TerminalColors-discrete, PaneStyle-discrete, CellRun-discrete,
}
use nmux.Session.{
  PaneState, PaletteDiff, initial_pane, all_row_indices, of_terminal_cursor, Cursor-discrete,
}
use nmux.Session.Update.{
  apply_terminal_update, surface_changed, patch_changes, rows_or_row_metadata_changed,
  terminal_patch_kind, changed_rows, surface_row_update_indices, row_changed, scrollback_changed,
  write_scrollback, write_surface, bump_scrollback, keep_below, record_patch, rows_differ,
  rows_for_lines, row_runs_for_lines, row_semantic_prompts_for_lines, row_dirty_flags_for_lines,
  row_kitty_placeholders_for_lines, runs_match, surface_of, scrollback_of, updated_surface,
  updated_scrollback, palette_diff, first_difference,
}
use nmux.Session.Update.Aligned.{AreAligned, IsAligned, apply_terminal_update-IsAligned}
use nmux.Session.Update.Patch.{SameRow, contains, replace_rows_complete, replace_rows_keeps}
use nmux.Session.Update.Silent.{apply_terminal_update_silent}
use nmux.Examples.Data.{report}

initial_scrollback : AreAligned (scrollback_of initial_pane)
unfolding initial_pane
initial_scrollback = (refl, refl, refl, refl)

apply_terminal_update-IsAligned_example :
    IsAligned (apply_terminal_update initial_pane report true).0
apply_terminal_update-IsAligned_example =
    apply_terminal_update-IsAligned initial_pane report true initial_scrollback (inl refl)

abbrev reported : PaneState
reported = (apply_terminal_update initial_pane report false).0

abbrev expected : ℕ × PatchKind × List ℕ
expected = (3, PatchKind.replace_rows, 1 ∷ [])

abbrev patch_of : PaneState → ℕ × PatchKind × List ℕ
patch_of p = (p.surface_version, p.last_patch_kind, p.last_row_update_indices)

-- The report that was taken in moves the version, with a patch that lists the second row alone.
reported_patch : patch_of reported ≡ expected
unfolding apply_terminal_update surface_changed patch_changes rows_or_row_metadata_changed
    terminal_patch_kind changed_rows surface_row_update_indices row_changed scrollback_changed
    write_scrollback write_surface bump_scrollback keep_below record_patch rows_differ
    rows_for_lines row_runs_for_lines row_semantic_prompts_for_lines row_dirty_flags_for_lines
    row_kitty_placeholders_for_lines runs_match updated_surface updated_scrollback palette_diff
    first_difference initial_pane all_row_indices of_terminal_cursor Cursor-discrete update_plain
    plain_row_runs plain_row_semantic_prompts plain_row_dirty_flags plain_row_kitty_placeholders
    plain cell_runs_text TerminalModes-discrete TerminalColors-discrete PaneStyle-discrete
    CellRun-discrete SurfaceKind-discrete PatchKind-discrete RowSemanticPrompt-discrete
    CursorShape-discrete ℕ_discrete List-discrete Bool-discrete Option-discrete
    CellSemanticContent-discrete MouseTrackingMode-discrete MouseFormat-discrete
reported_patch = refl

report_moves : initial_pane.surface_version < reported.surface_version
unfolding initial_pane
report_moves = rw (ap (λ (x : ℕ × PatchKind × List ℕ). x.0) reported_patch) (omega arith)

report_kind : reported.last_patch_kind ≡ PatchKind.replace_rows
report_kind = ap (λ (x : ℕ × PatchKind × List ℕ). x.1) reported_patch

report_rows : contains 0 reported.last_row_update_indices ≡ false
unfolding ℕ_discrete
report_rows = ap (λ (x : ℕ × PatchKind × List ℕ). contains 0 x.2) reported_patch

replace_rows_keeps_example :
    (reported.styles ≡ initial_pane.styles)
    × (reported.colors ≡ initial_pane.colors)
    × (reported.surface ≡ initial_pane.surface)
replace_rows_keeps_example = replace_rows_keeps initial_pane report report_moves report_kind

first_row : 0 < initial_pane.rows
unfolding initial_pane
first_row = omega arith

reported_row : 0 < length (updated_surface report).lines
unfolding updated_surface update_plain rows_for_lines
reported_row = omega arith

replace_rows_complete_example : SameRow (surface_of initial_pane) (surface_of reported) 0
replace_rows_complete_example =
    replace_rows_complete initial_pane report 0 first_row reported_row (omega arith) report_moves
      report_kind report_rows

initial_indices : All (λ i. i < initial_pane.rows) initial_pane.last_row_update_indices
unfolding initial_pane
initial_indices = (omega arith, (omega arith, tt))

reported-IsAligned : IsAligned reported
reported-IsAligned =
    apply_terminal_update-IsAligned initial_pane report false initial_scrollback
      (inr initial_indices)

-- The same report again changes nothing.
report_again : (apply_terminal_update reported report false).1 ≡ false
unfolding apply_terminal_update surface_changed patch_changes rows_or_row_metadata_changed
    terminal_patch_kind changed_rows surface_row_update_indices row_changed scrollback_changed
    write_scrollback write_surface bump_scrollback keep_below record_patch rows_differ
    rows_for_lines row_runs_for_lines row_semantic_prompts_for_lines row_dirty_flags_for_lines
    row_kitty_placeholders_for_lines runs_match updated_surface updated_scrollback palette_diff
    first_difference initial_pane all_row_indices of_terminal_cursor Cursor-discrete update_plain
    plain_row_runs plain_row_semantic_prompts plain_row_dirty_flags plain_row_kitty_placeholders
    plain cell_runs_text TerminalModes-discrete TerminalColors-discrete PaneStyle-discrete
    CellRun-discrete SurfaceKind-discrete PatchKind-discrete RowSemanticPrompt-discrete
    CursorShape-discrete ℕ_discrete List-discrete Bool-discrete Option-discrete
    CellSemanticContent-discrete MouseTrackingMode-discrete MouseFormat-discrete
report_again = refl

apply_terminal_update_silent_example :
    (false ≡ false)
    × ((apply_terminal_update reported report false).0
        ≡ record reported { last_palette_diff = none })
apply_terminal_update_silent_example =
    apply_terminal_update_silent reported report false reported-IsAligned report_again

abbrev old_palette : List ℕ
old_palette = 1 ∷ 2 ∷ []

abbrev new_palette : List ℕ
new_palette = 1 ∷ 3 ∷ 4 ∷ []

abbrev diff : PaletteDiff
diff = record { start = 1; colors = 3 ∷ 4 ∷ [] }

palette_changes : palette_diff old_palette new_palette ≡ some diff
unfolding palette_diff first_difference ℕ_discrete List-discrete
palette_changes = refl
