-- ===== src/Client/Surface/Snapshot.antt =====
-- `ClientPaneSurface::from_snapshot` (crates/nmux-cli/src/local/surface.rs).
use nmux.Base.{ℕ, false, none, List, [], ◌∷◌, replicate}
use nmux.Protocol.{SurfaceKind, RowSemanticPrompt}
use nmux.Session.Frame.{unwrap_or}
use nmux.Client.Surface.{
  SurfaceError, Result, ok, ◌>>=◌, ◌>>◌, ok_or, SurfaceUpdateKind, SurfaceUpdate, StyleSummary,
  ClientPaneSurface, default_style_summaries, default_color_summary,
}
use nmux.Client.Surface.Validate.{
  validate_palette_diff_scope, validate_surface_kind, validate_cursor_summary,
  validate_terminal_mode_summary, validate_hyperlink_table, validate_row_update_indices,
  validate_row_update_style_ids, validate_row_update_hyperlink_ids,
}
use nmux.Client.Surface.Rows.{apply_rows}

abbrev pub styles_or_default : List StyleSummary → List StyleSummary
styles_or_default [] = default_style_summaries
styles_or_default (s ∷ ss) = s ∷ ss

-- The surface before its rows are written: every row is blank.
unfoldable pub blank_surface : SurfaceUpdate → ℕ → ℕ → ClientPaneSurface
blank_surface u cols rows = record {
  pane_id = u.pane_id;
  version = u.version;
  cols = cols;
  rows = rows;
  surface = unwrap_or SurfaceKind.main u.surface;
  cursor = u.cursor;
  modes = u.modes;
  title = u.title;
  working_directory = u.working_directory;
  colors = unwrap_or default_color_summary u.colors;
  styles = styles_or_default u.styles;
  hyperlinks = u.hyperlinks;
  row_text = replicate rows [];
  row_runs = replicate rows [];
  row_dirty_hashes = replicate rows 0;
  row_semantic_prompts = replicate rows RowSemanticPrompt.none;
  row_dirty = replicate rows false;
  row_kitty_placeholders = replicate rows false;
  row_state_hashes = replicate rows 0;
}

-- The surface is dropped when its rows cannot be written.
abbrev pub finished : Result Unit × ClientPaneSurface → Result ClientPaneSurface
finished (r, s) = r >> ok s

-- What follows the reading of the sizes.
unfoldable pub sized_snapshot : SurfaceUpdate → ℕ → ℕ → Result ClientPaneSurface
unfolding blank_surface
sized_snapshot u cols rows = do
  let s = blank_surface u cols rows
  validate_surface_kind s.surface
  validate_cursor_summary s.cursor
  validate_terminal_mode_summary s.modes
  validate_hyperlink_table s.hyperlinks
  validate_row_update_indices u.row_updates rows
  validate_row_update_style_ids u.row_updates s.styles
  validate_row_update_hyperlink_ids u.row_updates s.hyperlinks
  finished (apply_rows u.row_updates s)

unfoldable pub from_snapshot : SurfaceUpdate → Result ClientPaneSurface
unfolding sized_snapshot
from_snapshot u = do
  validate_palette_diff_scope SurfaceUpdateKind.snapshot none u.colors
  cols ← ok_or u.cols SurfaceError.missing_cols
  rows ← ok_or u.rows SurfaceError.missing_rows
  sized_snapshot u cols rows
