-- ===== src/Client/Surface/Decode.antt =====
-- The decoders of crates/nmux-cli/src/local/surface.rs, and `surface_update_from_frame` of
-- crates/nmux-cli/src/local.rs.
use nmux.Base.{
  Text, Option, none, some, List, [], ◌∷◌, ◌++◌, map, is_empty, map_option, if◌then◌else◌,
}
use nmux.Frame.{
  EnvelopeBody, EnvelopeArgs, CursorStateArgs, TerminalModeStateArgs, TerminalMetadataStateArgs,
  TerminalColorStateArgs, CellRunArgs, SurfaceRowArgs, StyleArgs, HyperlinkArgs,
  PaneSurfaceSnapshotArgs, PaneSurfacePatchArgs, FlatBuffers, body_as_pane_surface_snapshot,
  body_as_pane_surface_patch,
}
use nmux.Session.Frame.{unwrap_or}
use nmux.Client.Surface.{
  SurfaceError, Result, ok, err, ◌>>=◌, ◌>>◌, ok_or, CursorSummary, TerminalModeSummary,
  TerminalColorSummary, CellRunSummary, StyleSummary, HyperlinkSummary, SurfaceRowUpdate,
  SurfaceUpdateKind, SurfaceUpdate, default_mode_summary, default_style_summaries,
  render_run_summaries,
}
use nmux.Client.Surface.Validate.{
  validate_patch_kind, validate_surface_kind, validate_cursor_summary,
  validate_terminal_mode_summary, validate_palette_diff_scope, validate_no_row_patch_payload,
  validate_row_update_terminal_enums, validate_row_update_style_ids,
  validate_row_update_hyperlink_ids, validate_hyperlink_table,
}

unfoldable pub decoded_cell_run : CellRunArgs → CellRunSummary
decoded_cell_run run = record {
  text = unwrap_or [] run.text_utf8;
  cell_widths = unwrap_or [] run.cell_widths;
  style_id = run.style_id;
  flags = run.flags;
  hyperlink_id = run.hyperlink_id;
  semantic_content = run.semantic_content;
}

unfoldable pub decoded_cell_runs : List CellRunArgs → List CellRunSummary
unfolding decoded_cell_run
decoded_cell_runs = map decoded_cell_run

unfoldable pub decoded_surface_row : SurfaceRowArgs → SurfaceRowUpdate
unfolding decoded_cell_runs
decoded_surface_row row =
    let runs = unwrap_or [] (map_option decoded_cell_runs row.runs) in
    record {
      row = row.row;
      text = render_run_summaries runs;
      runs = runs;
      dirty_hash = row.dirty_hash;
      row_state_hash = row.row_state_hash;
      semantic_prompt = row.semantic_prompt;
      dirty = row.dirty;
      kitty_virtual_placeholder = row.kitty_virtual_placeholder;
    }

unfoldable pub decoded_styles : List StyleArgs → List StyleSummary
decoded_styles = map (λ (style : StyleArgs). record {
  fg_rgba = style.fg_rgba;
  bg_rgba = style.bg_rgba;
  underline_rgba = style.underline_rgba;
  flags = style.flags;
})

unfoldable pub decoded_hyperlinks : List HyperlinkArgs → Result (List HyperlinkSummary)
decoded_hyperlinks links = do
  let decoded =
      map
        (λ (h : HyperlinkArgs). record {
          id = h.id;
          uri = unwrap_or [] h.uri;
          osc8_id = unwrap_or [] h.osc8_id;
          params = unwrap_or [] h.params;
        })
        links
  validate_hyperlink_table decoded
  ok decoded

-- `map(decoded_hyperlinks).transpose()?.unwrap_or_default()`.
unfoldable pub hyperlinks_of : Option (List HyperlinkArgs) → Result (List HyperlinkSummary)
unfolding decoded_hyperlinks
hyperlinks_of none = ok []
hyperlinks_of (some links) = decoded_hyperlinks links

unfoldable pub color_summary : TerminalColorStateArgs → TerminalColorSummary
color_summary c =
    let diff = unwrap_or [] c.palette_diff_rgba in
    record {
      default_fg_rgba = c.default_fg_rgba;
      default_bg_rgba = c.default_bg_rgba;
      cursor_rgba = c.cursor_rgba;
      cursor_rgba_set = c.cursor_rgba_set;
      palette_rgba = unwrap_or [] c.palette_rgba;
      palette_diff_start = if is_empty diff then none else some c.palette_diff_start;
      palette_diff_rgba = diff;
    }

unfoldable pub decoded_terminal_colors : Option TerminalColorStateArgs → Option TerminalColorSummary
unfolding color_summary
decoded_terminal_colors = map_option color_summary

-- `CursorSummary::from_protocol`.
unfoldable pub cursor_summary : CursorStateArgs → CursorSummary
cursor_summary c = record {
  row = c.row;
  col = c.col;
  visible = c.visible;
  shape = c.shape;
  blinking = c.blinking;
}

-- `TerminalModeSummary::from_protocol`.
unfoldable pub mode_summary : TerminalModeStateArgs → TerminalModeSummary
mode_summary m = record {
  bracketed_paste = m.bracketed_paste;
  mouse_tracking = m.mouse_tracking;
  focus_reporting = m.focus_reporting;
  application_keypad = m.application_keypad;
  application_cursor = m.application_cursor;
  origin = m.origin;
  wraparound = m.wraparound;
  mouse_tracking_mode = m.mouse_tracking_mode;
  mouse_format = m.mouse_format;
}

abbrev pub modes_of : Option TerminalModeStateArgs → TerminalModeSummary
modes_of none = default_mode_summary
modes_of (some m) = mode_summary m

abbrev pub title_of : Option TerminalMetadataStateArgs → Text
title_of none = []
title_of (some m) = unwrap_or [] m.title

abbrev pub working_directory_of : Option TerminalMetadataStateArgs → Text
working_directory_of none = []
working_directory_of (some m) = unwrap_or [] m.working_directory

unfoldable pub required_string : Option Text → Result Text
required_string none = err SurfaceError.missing_field
required_string (some value) = if is_empty value then err SurfaceError.empty_field else ok value

-- `render_decoded_rows` behind the first row.
unfoldable pub render_more_rows : List SurfaceRowUpdate → Text
render_more_rows [] = []
render_more_rows (row ∷ rows) = (10 ∷ row.text) ++ render_more_rows rows

unfoldable pub render_decoded_rows : List SurfaceRowUpdate → Text
unfolding render_more_rows
render_decoded_rows [] = []
render_decoded_rows (row ∷ rows) = row.text ++ render_more_rows rows

-- The two arms of `surface_update_from_frame`.
unfoldable pub snapshot_update : PaneSurfaceSnapshotArgs → Result SurfaceUpdate
unfolding hyperlinks_of
snapshot_update t = do
  validate_surface_kind t.surface
  rows ← ok_or t.rows_data SurfaceError.missing_rows
  let styles = unwrap_or default_style_summaries (map_option decoded_styles t.styles)
  hyperlinks ← hyperlinks_of t.hyperlinks
  let row_updates = map decoded_surface_row rows
  validate_row_update_terminal_enums row_updates
  validate_row_update_style_ids row_updates styles
  validate_row_update_hyperlink_ids row_updates hyperlinks
  let cursor = map_option cursor_summary t.cursor
  validate_cursor_summary cursor
  let modes = modes_of t.modes
  validate_terminal_mode_summary modes
  let colors = decoded_terminal_colors t.colors
  validate_palette_diff_scope SurfaceUpdateKind.snapshot none colors
  pane_id ← required_string t.pane_id
  ok (record {
    kind = SurfaceUpdateKind.snapshot;
    pane_id = pane_id;
    version = t.version;
    base_version = none;
    patch_kind = none;
    cols = some t.cols;
    rows = some t.rows;
    surface = some t.surface;
    cursor = cursor;
    modes = modes;
    title = title_of t.metadata;
    working_directory = working_directory_of t.metadata;
    colors = colors;
    row_updates = row_updates;
    styles = styles;
    hyperlinks = hyperlinks;
    text = render_decoded_rows row_updates;
  })

unfoldable pub patch_update : PaneSurfacePatchArgs → Result SurfaceUpdate
patch_update t = do
  validate_patch_kind t.kind
  rows ← ok_or t.row_updates SurfaceError.missing_rows
  let row_updates = map decoded_surface_row rows
  validate_row_update_terminal_enums row_updates
  validate_no_row_patch_payload t.kind row_updates
  let cursor = map_option cursor_summary t.cursor
  validate_cursor_summary cursor
  let modes = modes_of t.modes
  validate_terminal_mode_summary modes
  let colors = decoded_terminal_colors t.colors
  validate_palette_diff_scope SurfaceUpdateKind.patch (some t.kind) colors
  pane_id ← required_string t.pane_id
  ok (record {
    kind = SurfaceUpdateKind.patch;
    pane_id = pane_id;
    version = t.version;
    base_version = some t.base_version;
    patch_kind = some t.kind;
    cols = none;
    rows = none;
    surface = none;
    cursor = cursor;
    modes = modes;
    title = title_of t.metadata;
    working_directory = working_directory_of t.metadata;
    colors = colors;
    row_updates = row_updates;
    styles = [];
    hyperlinks = [];
    text = render_decoded_rows row_updates;
  })

unfoldable pub envelope_update : EnvelopeArgs → Result SurfaceUpdate
unfolding snapshot_update patch_update body_as_pane_surface_snapshot body_as_pane_surface_patch
envelope_update e = elim e.body_type [
  | EnvelopeBody.pane_surface_snapshot ↦ do
    t ← ok_or (body_as_pane_surface_snapshot e) SurfaceError.missing_body
    snapshot_update t
  | EnvelopeBody.pane_surface_patch ↦ do
    t ← ok_or (body_as_pane_surface_patch e) SurfaceError.missing_body
    patch_update t
  | EnvelopeBody.other n ↦ err SurfaceError.unexpected_body
]

module _ (F : FlatBuffers) where
  unfoldable pub surface_update_from_frame : F.Buffer → Result SurfaceUpdate
  unfolding envelope_update
  surface_update_from_frame frame = do
    e ← ok_or (F.root frame) SurfaceError.invalid_buffer
    envelope_update e
