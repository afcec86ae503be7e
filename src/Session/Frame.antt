-- ===== src/Session/Frame.antt =====
-- The surface frames of a pane (crates/nmux-core/src/session.rs, `pane_surface` and the functions
-- that build its snapshot and its patch).
pub mod Hash
use nmux.Base.{
  ℕ, zero, suc, ◌+◌, ◌==◌, ◌!=◌, Bool, true, false, Text, Option, none, some, List, [], ◌∷◌, map,
  get_elem?, map_option, if◌then◌else◌, as_u32, ℕ-DecEq, ◌>>=◌,
}
use nmux.Protocol.{SurfaceKind, PatchKind, RowSemanticPrompt, PatchKind-DecEq}
use nmux.Terminal.{CellRun, TerminalModes, TerminalColors, PaneStyle, plain}
use nmux.Session.{PaneState, PaletteDiff, Cursor, Session, state}
use nmux.Session.Tabs.{find_pane}
use nmux.Session.Update.{
  row_runs_for_lines, row_semantic_prompts_for_lines, row_dirty_flags_for_lines,
  row_kitty_placeholders_for_lines,
}
use nmux.Session.Frame.Hash.{RowStateMetadata, stable_row_hash, row_state_hash}
use nmux.Wire.{protocol_version}
use nmux.Frame.{
  EnvelopeBody, CursorStateArgs, TerminalModeStateArgs, TerminalMetadataStateArgs,
  TerminalColorStateArgs, CellRunArgs, SurfaceRowArgs, StyleArgs, PaneSurfaceSnapshotArgs,
  PaneSurfacePatchArgs, BodyTable, EnvelopeArgs, FlatBuffers,
}

pub record PaneSurface : Type 0 where
  pub pane_id : Text
  pub version : ℕ
  pub cols : ℕ
  pub rows : ℕ
  pub surface : SurfaceKind
  pub cursor : Cursor
  pub modes : TerminalModes
  pub title : Text
  pub working_directory : Text
  pub colors : TerminalColors
  pub styles : List PaneStyle
  pub lines : List Text
  pub row_runs : List (List CellRun)
  pub semantic_prompts : List RowSemanticPrompt
  pub dirty_rows : List Bool
  pub kitty_placeholders : List Bool

-- `Session::pane_surface` of a pane that is found.
unfoldable pub surface_of_pane : PaneState → PaneSurface
surface_of_pane p = record {
  pane_id = p.id;
  version = p.surface_version;
  cols = p.cols;
  rows = p.rows;
  surface = p.surface;
  cursor = p.cursor;
  modes = p.modes;
  title = p.terminal_title;
  working_directory = p.terminal_working_directory;
  colors = p.colors;
  styles = p.styles;
  lines = p.surface_lines;
  row_runs = row_runs_for_lines p.surface_lines p.surface_row_runs;
  semantic_prompts = row_semantic_prompts_for_lines p.surface_lines p.surface_semantic_prompts;
  dirty_rows = row_dirty_flags_for_lines p.surface_lines p.surface_dirty_rows;
  kitty_placeholders =
      row_kitty_placeholders_for_lines p.surface_lines p.surface_kitty_placeholders;
}

unfoldable pub pane_surface : Session → Text → Option PaneSurface
unfolding surface_of_pane
pane_surface s pane_id = map_option (λ p. surface_of_pane (state p)) (find_pane s pane_id)

abbrev pub unwrap_or {ℓ} : {A : Type ℓ} → A → Option A → A
unwrap_or a none = a
unwrap_or a (some b) = b

unfoldable pub build_cell_run : CellRun → CellRunArgs
build_cell_run run = record {
  text_utf8 = some run.text;
  cell_widths = some run.cell_widths;
  style_id = run.style_id;
  flags = run.flags;
  hyperlink_id = 0;
  semantic_content = run.semantic_content;
}

unfoldable pub build_cell_runs : List CellRun → List CellRunArgs
unfolding build_cell_run
build_cell_runs = map build_cell_run

unfoldable pub build_terminal_modes : TerminalModes → TerminalModeStateArgs
build_terminal_modes m = record {
  bracketed_paste = m.bracketed_paste;
  mouse_tracking = m.mouse_tracking;
  focus_reporting = m.focus_reporting;
  application_keypad = m.application_keypad;
  application_cursor = m.application_cursor;
  origin = m.origin;
  wraparound = m.wraparound;
  mouse_tracking_mode = m.mouse_tracking_mode;
  mouse_format = m.mouse_format;
}

unfoldable pub build_terminal_metadata : Text → Text → TerminalMetadataStateArgs
build_terminal_metadata title working_directory = record {
  title = some title;
  working_directory = some working_directory;
}

unfoldable pub build_terminal_colors :
    TerminalColors → Option PaletteDiff → Bool → TerminalColorStateArgs
build_terminal_colors c palette_diff include_full_palette = record {
  default_fg_rgba = c.default_fg_rgba;
  default_bg_rgba = c.default_bg_rgba;
  cursor_rgba = c.cursor_rgba;
  cursor_rgba_set = c.cursor_rgba_set;
  palette_rgba = if include_full_palette then some c.palette_rgba else none;
  palette_diff_start = unwrap_or 0 (map_option (λ d. d.start) palette_diff);
  palette_diff_rgba = map_option (λ d. d.colors) palette_diff;
}

abbrev pub build_cursor : Cursor → CursorStateArgs
build_cursor c = record {
  row = c.row;
  col = c.col;
  visible = c.visible;
  shape = c.shape;
  blinking = c.blinking;
}

abbrev pub build_style : PaneStyle → StyleArgs
build_style st = record {
  fg_rgba = st.fg_rgba;
  bg_rgba = st.bg_rgba;
  underline_rgba = st.underline_rgba;
  flags = st.flags;
}

unfoldable pub row_metadata : PaneSurface → ℕ → RowStateMetadata
row_metadata s row = record {
  semantic_prompt = unwrap_or RowSemanticPrompt.none (get_elem? s.semantic_prompts row);
  dirty = unwrap_or false (get_elem? s.dirty_rows row);
  kitty_virtual_placeholder = unwrap_or false (get_elem? s.kitty_placeholders row);
}

-- The table of one row, of a snapshot or of a patch.
unfoldable pub build_row : ℕ → Text → List CellRun → RowStateMetadata → SurfaceRowArgs
unfolding build_cell_runs
build_row row line runs metadata = record {
  row = row;
  runs = some (build_cell_runs runs);
  dirty_hash = stable_row_hash line;
  row_state_hash = row_state_hash runs metadata;
  semantic_prompt = metadata.semantic_prompt;
  dirty = metadata.dirty;
  kitty_virtual_placeholder = metadata.kitty_virtual_placeholder;
}

-- `lines.iter().zip(row_runs.iter()).enumerate()`, from the row `row` on.
unfoldable pub snapshot_rows :
    PaneSurface → ℕ → List Text → List (List CellRun) → List SurfaceRowArgs
unfolding row_metadata build_row
snapshot_rows s row [] row_runs = []
snapshot_rows s row (line ∷ lines) [] = []
snapshot_rows s row (line ∷ lines) (runs ∷ row_runs) =
    build_row (as_u32 row) line runs (row_metadata s row) ∷ snapshot_rows s (row + 1) lines row_runs

-- One row that a patch lists.
unfoldable pub patch_row : PaneSurface → ℕ → SurfaceRowArgs
unfolding row_metadata build_row
patch_row s row =
    let line = unwrap_or [] (get_elem? s.lines row) in
    let runs = unwrap_or (plain line ∷ []) (get_elem? s.row_runs row) in
    build_row row line runs (row_metadata s row)

unfoldable pub build_snapshot : PaneSurface → PaneSurfaceSnapshotArgs
unfolding snapshot_rows
build_snapshot s = record {
  pane_id = some s.pane_id;
  version = s.version;
  surface = s.surface;
  cols = s.cols;
  rows = s.rows;
  cursor = some (build_cursor s.cursor);
  modes = some (build_terminal_modes s.modes);
  metadata = some (build_terminal_metadata s.title s.working_directory);
  colors = some (build_terminal_colors s.colors none true);
  styles = some (map build_style s.styles);
  rows_data = some (snapshot_rows s 0 s.lines s.row_runs);
  hyperlinks = some [];
}

-- `filter` of the last palette diff.
abbrev color_diff : PatchKind → Option PaletteDiff → Option PaletteDiff
color_diff kind diff = if kind == PatchKind.color_only then diff else none

unfoldable pub build_patch :
    PaneSurface → PatchKind → List ℕ → Option PaletteDiff → ℕ → PaneSurfacePatchArgs
unfolding patch_row
build_patch s kind row_update_indices palette_diff base_version = record {
  pane_id = some s.pane_id;
  base_version = base_version;
  version = s.version;
  kind = kind;
  row_updates =
      some (if kind == PatchKind.replace_rows then map (patch_row s) row_update_indices else []);
  cursor = some (build_cursor s.cursor);
  modes = some (build_terminal_modes s.modes);
  metadata = some (build_terminal_metadata s.title s.working_directory);
  colors = some (
      build_terminal_colors s.colors (color_diff kind palette_diff) (kind != PatchKind.color_only));
}

abbrev pub envelope : Text → Text → ℕ → EnvelopeBody → BodyTable → EnvelopeArgs
envelope session_id connection_id seq body_type body = record {
  protocol_version = protocol_version;
  session_id = some session_id;
  connection_id = some connection_id;
  seq = seq;
  ack = 0;
  sent_at_mono_ms = 0;
  body_type = body_type;
  body = some body;
}

abbrev pub snapshot_envelope : Session → Text → ℕ → PaneSurface → EnvelopeArgs
snapshot_envelope s connection_id seq surface =
    envelope s.id connection_id seq EnvelopeBody.pane_surface_snapshot
      (BodyTable.snapshot (build_snapshot surface))

-- The pane is looked up again, under the id of its surface.
abbrev pub patch_envelope : Session → Text → ℕ → ℕ → PaneSurface → EnvelopeArgs
patch_envelope s connection_id seq base_version surface =
    let pane = map_option state (find_pane s surface.pane_id) in
    let kind =
      unwrap_or PatchKind.replace_rows (map_option (λ (p : PaneState). p.last_patch_kind) pane) in
    let indices = unwrap_or [] (map_option (λ (p : PaneState). p.last_row_update_indices) pane) in
    envelope s.id connection_id seq EnvelopeBody.pane_surface_patch (
      BodyTable.patch
        (build_patch surface kind indices (pane >>= λ p. p.last_palette_diff) base_version))

module _ (F : FlatBuffers) where
  unfoldable pub pane_surface_frame_for_pane : Session → Text → ℕ → Text → Option F.Buffer
  unfolding pane_surface build_snapshot
  pane_surface_frame_for_pane s connection_id seq pane_id = do
    surface ← pane_surface s pane_id
    some (F.finish (snapshot_envelope s connection_id seq surface))

  unfoldable pub pane_surface_patch_frame_for_pane : Session → Text → ℕ → Text → ℕ → Option F.Buffer
  unfolding pane_surface build_patch
  pane_surface_patch_frame_for_pane s connection_id seq pane_id base_version = do
    surface ← pane_surface s pane_id
    some (F.finish (patch_envelope s connection_id seq base_version surface))
