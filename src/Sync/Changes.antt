-- ===== src/Sync/Changes.antt =====
-- What a report changes in a pane, by the kind of the patch that it records.
use nmux.Base.{
  ◌≡◌, ◌⊎◌, ◌∙◌, sym, ap, Bool, true, false, none, [], arith, saturating_add64, !=→≡, take-length,
  ◌==◌, List-DecEq, ℕ-DecEq, Bool-DecEq, if◌then◌else◌,
}
use nmux.Protocol.{PatchKind, PatchKind-DecEq, RowSemanticPrompt-DecEq, SurfaceKind-DecEq}
use nmux.Terminal.{
  TerminalUpdate, CellRun-DecEq, PaneStyle-DecEq, TerminalColors-DecEq, TerminalModes-DecEq,
}
use nmux.Session.{PaneState, of_terminal_cursor, Cursor-DecEq}
use nmux.Session.Update.{
  surface_of, updated_surface, rows_for_lines, surface_changed, patch_changes,
  rows_or_row_metadata_changed, terminal_patch_kind, TerminalPatchChanges, palette_diff,
  surface_row_update_indices, keep_below, apply_terminal_update,
}
use nmux.Session.Update.Silent.{quiet_rows}
use nmux.Session.Update.Aligned.{IsAligned, cut, surface-apply_terminal_update}

-- The flags that are down when a patch leaves the rows, the styles and the kind of surface alone.
abbrev pub KeepsRows : TerminalPatchChanges → Type 0
KeepsRows c =
    (rows_or_row_metadata_changed c ≡ false)
    × (c.styles_changed ≡ false)
    × (c.surface_kind_changed ≡ false)

pub kinds :
    (c : TerminalPatchChanges)
    → surface_changed c ≡ true
    → (terminal_patch_kind c ≡ PatchKind.full_refresh_required)
      ⊎ (terminal_patch_kind c ≡ PatchKind.replace_rows)
      ⊎ (terminal_patch_kind c ≡ PatchKind.color_only)
      ⊎ (terminal_patch_kind c ≡ PatchKind.mode_only)
      ⊎ (terminal_patch_kind c ≡ PatchKind.cursor_only)
unfolding surface_changed terminal_patch_kind
kinds c h = ground arith

pub color_only_lem :
    (c : TerminalPatchChanges)
    → surface_changed c ≡ true
    → terminal_patch_kind c ≡ PatchKind.color_only
    → KeepsRows c
unfolding surface_changed terminal_patch_kind
color_only_lem c h k = ground arith

pub mode_only_lem :
    (c : TerminalPatchChanges)
    → surface_changed c ≡ true
    → terminal_patch_kind c ≡ PatchKind.mode_only
    → KeepsRows c × (c.colors_changed ≡ false)
unfolding surface_changed terminal_patch_kind
mode_only_lem c h k = ground arith

pub cursor_only_lem :
    (c : TerminalPatchChanges)
    → surface_changed c ≡ true
    → terminal_patch_kind c ≡ PatchKind.cursor_only
    → KeepsRows c × (c.colors_changed ≡ false) × (c.modes_changed ≡ false)
unfolding surface_changed terminal_patch_kind
cursor_only_lem c h k = ground arith

pub quiet_lem :
    (c : TerminalPatchChanges)
    → surface_changed c ≡ false
    → KeepsRows c
      × (c.colors_changed ≡ false)
      × (c.modes_changed ≡ false)
      × (c.cursor_changed ≡ false)
      × (c.title_changed ≡ false)
      × (c.working_directory_changed ≡ false)
unfolding surface_changed
quiet_lem c h = ground arith

module _ (p : PaneState) (u : TerminalUpdate) (force : Bool) where
  abbrev c : TerminalPatchChanges
  c = patch_changes p u (updated_surface u) force

  abbrev q : PaneState
  q = (apply_terminal_update p u force).0

  pub written :
      (q.id ≡ p.id)
      × (q.cols ≡ p.cols)
      × (q.rows ≡ p.rows)
      × (q.surface ≡ u.surface)
      × (q.styles ≡ u.styles)
      × (q.colors ≡ u.colors)
      × (q.modes ≡ u.modes)
      × (q.cursor ≡ of_terminal_cursor u.cursor)
      × (q.terminal_title ≡ u.title)
      × (q.terminal_working_directory ≡ u.working_directory)
  unfolding apply_terminal_update
  written = ground arith

  pub silent : surface_changed c ≡ false → q.surface_version ≡ p.surface_version
  unfolding apply_terminal_update
  silent h = ground arith

  pub recorded :
      surface_changed c ≡ true
      → (q.surface_version ≡ saturating_add64 p.surface_version 1)
        × (q.last_patch_kind ≡ terminal_patch_kind c)
        × (q.last_palette_diff ≡ (
            if terminal_patch_kind c == PatchKind.color_only
            then palette_diff p.colors.palette_rgba u.colors.palette_rgba
            else none))
        × (q.last_row_update_indices ≡ (
            if terminal_patch_kind c == PatchKind.replace_rows
            then keep_below p.rows (surface_row_update_indices p (updated_surface u) force)
            else []))
  unfolding apply_terminal_update
  recorded h = ground arith

  same_rows : rows_or_row_metadata_changed c ≡ false → updated_surface u ≡ surface_of p
  unfolding patch_changes updated_surface rows_for_lines
  same_rows h =
      let new = updated_surface u in
      let (l, r, s, d, k) = quiet_rows c h in
      λ i. record {
        lines = sym (!=→≡ p.surface_lines u.surface_lines l) i;
        runs = sym (!=→≡ p.surface_row_runs new.runs r) i;
        prompts = sym (!=→≡ p.surface_semantic_prompts new.prompts s) i;
        dirty = sym (!=→≡ p.surface_dirty_rows new.dirty d) i;
        placeholders = sym (!=→≡ p.surface_kitty_placeholders new.placeholders k) i;
      }

  cut_fits : IsAligned p → cut p.rows (surface_of p) ≡ surface_of p
  cut_fits a =
      let (r, s, d, k) = a.surface in
      let f = a.fits in
      λ i. record {
        lines = take-length p.rows p.surface_lines f i;
        runs = take-length p.rows p.surface_row_runs (omega arith) i;
        prompts = take-length p.rows p.surface_semantic_prompts (omega arith) i;
        dirty = take-length p.rows p.surface_dirty_rows (omega arith) i;
        placeholders = take-length p.rows p.surface_kitty_placeholders (omega arith) i;
      }

  pub kept_styles : c.styles_changed ≡ false → q.styles ≡ p.styles
  unfolding patch_changes
  kept_styles h = written.4 ∙ sym (!=→≡ p.styles u.styles h)

  pub kept_kind : c.surface_kind_changed ≡ false → q.surface ≡ p.surface
  unfolding patch_changes
  kept_kind h = written.3 ∙ sym (!=→≡ p.surface u.surface h)

  pub kept_colors : c.colors_changed ≡ false → q.colors ≡ p.colors
  unfolding patch_changes
  kept_colors h = written.5 ∙ sym (!=→≡ p.colors u.colors h)

  pub kept_modes : c.modes_changed ≡ false → q.modes ≡ p.modes
  unfolding patch_changes
  kept_modes h = written.6 ∙ sym (!=→≡ p.modes u.modes h)

  pub kept_cursor : c.cursor_changed ≡ false → q.cursor ≡ p.cursor
  unfolding patch_changes
  kept_cursor h = written.7 ∙ sym (!=→≡ p.cursor (of_terminal_cursor u.cursor) h)

  pub kept_title : c.title_changed ≡ false → q.terminal_title ≡ p.terminal_title
  unfolding patch_changes
  kept_title h = written.8 ∙ sym (!=→≡ p.terminal_title u.title h)

  pub kept_directory :
      c.working_directory_changed ≡ false
      → q.terminal_working_directory ≡ p.terminal_working_directory
  unfolding patch_changes
  kept_directory h = written.9 ∙ sym (!=→≡ p.terminal_working_directory u.working_directory h)

  pub kept_rows : IsAligned p → rows_or_row_metadata_changed c ≡ false → surface_of q ≡ surface_of p
  kept_rows a h =
      surface-apply_terminal_update p u force ∙ ap (cut p.rows) (same_rows h) ∙ cut_fits a
