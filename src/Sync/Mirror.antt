-- ===== src/Sync/Mirror.antt =====
-- What a client that is up to date shows of a pane: a description of its surface that names no
-- frame.
use nmux.Base.{
  ℕ, zero, suc, ◌^◌, ◌≡◌, ◌<◌, max, Bool, true, false, Text, Option, none, some, List, [], ◌∷◌, map,
  length, is_empty, get_elem?, All,
}
use nmux.Protocol.{RowSemanticPrompt}
use nmux.Terminal.{CellRun, TerminalModes, TerminalColors, PaneStyle, plain}
use nmux.Session.{PaneState, Cursor}
use nmux.Session.Update.{runs_match}
use nmux.Session.Update.Aligned.{IsAligned}
use nmux.Session.Frame.{unwrap_or}
use nmux.Session.Frame.Hash.{RowStateMetadata, stable_row_hash, row_state_hash}
use nmux.Client.Surface.{
  CursorSummary, TerminalModeSummary, TerminalColorSummary, CellRunSummary, StyleSummary,
  ClientPaneSurface,
}
use nmux.Client.Surface.Validate.{
  surface_kind_known, cursor_shape_known, tracking_mode_known, mouse_format_known,
  semantic_prompt_known, semantic_content_known,
}
use nmux.Client.Surface.Rows.{shown_runs}
use nmux.Client.Surface.Snapshot.{styles_or_default}

-- One row of the seven row vectors.
pub record ClientRow : Type 0 where
  pub text : Text
  pub runs : List CellRunSummary
  pub dirty_hash : ℕ
  pub semantic_prompt : RowSemanticPrompt
  pub dirty : Bool
  pub kitty_placeholder : Bool
  pub state_hash : ℕ

abbrev pub blank_row : ClientRow
blank_row = record {
  text = [];
  runs = [];
  dirty_hash = 0;
  semantic_prompt = RowSemanticPrompt.none;
  dirty = false;
  kitty_placeholder = false;
  state_hash = 0;
}

-- A run as the client keeps it: frames carry no hyperlinks.
unfoldable pub run_summary : CellRun → CellRunSummary
run_summary run = record {
  text = run.text;
  cell_widths = run.cell_widths;
  style_id = run.style_id;
  flags = run.flags;
  hyperlink_id = 0;
  semantic_content = run.semantic_content;
}

unfoldable pub filled_row : Text → List CellRun → RowStateMetadata → ClientRow
filled_row line runs metadata = record {
  text = line;
  runs = shown_runs line (map run_summary runs);
  dirty_hash = stable_row_hash line;
  semantic_prompt = metadata.semantic_prompt;
  dirty = metadata.dirty;
  kitty_placeholder = metadata.kitty_virtual_placeholder;
  state_hash = row_state_hash runs metadata;
}

-- A row of the pane; one behind its last line is blank.
unfoldable pub seen_row :
    Option Text
    → Option (List CellRun)
    → Option RowSemanticPrompt
    → Option Bool
    → Option Bool
    → ClientRow
unfolding filled_row
seen_row none runs prompt dirty placeholder = blank_row
seen_row (some line) runs prompt dirty placeholder =
    filled_row line (unwrap_or (plain line ∷ []) runs) (record {
      semantic_prompt = unwrap_or RowSemanticPrompt.none prompt;
      dirty = unwrap_or false dirty;
      kitty_virtual_placeholder = unwrap_or false placeholder;
    })

unfoldable pub mirror_row : PaneState → ℕ → ClientRow
unfolding seen_row
mirror_row p i =
    seen_row (get_elem? p.surface_lines i) (get_elem? p.surface_row_runs i)
      (get_elem? p.surface_semantic_prompts i) (get_elem? p.surface_dirty_rows i)
      (get_elem? p.surface_kitty_placeholders i)

abbrev pub tabulate {ℓ} : {A : Type ℓ} → ℕ → (ℕ → A) → List A
tabulate zero f = []
tabulate (suc n) f = f 0 ∷ tabulate n (λ i. f (suc i))

-- The row vectors of a surface, from its rows.
abbrev pub fill : ClientPaneSurface → ℕ → (ℕ → ClientRow) → ClientPaneSurface
fill s n f = record s {
  row_text = tabulate n (λ i. (f i).text);
  row_runs = tabulate n (λ i. (f i).runs);
  row_dirty_hashes = tabulate n (λ i. (f i).dirty_hash);
  row_semantic_prompts = tabulate n (λ i. (f i).semantic_prompt);
  row_dirty = tabulate n (λ i. (f i).dirty);
  row_kitty_placeholders = tabulate n (λ i. (f i).kitty_placeholder);
  row_state_hashes = tabulate n (λ i. (f i).state_hash);
}

abbrev pub mirror_cursor : Cursor → CursorSummary
mirror_cursor c = record {
  row = c.row;
  col = c.col;
  visible = c.visible;
  shape = c.shape;
  blinking = c.blinking;
}

abbrev pub mirror_modes : TerminalModes → TerminalModeSummary
mirror_modes m = record {
  bracketed_paste = m.bracketed_paste;
  mouse_tracking = m.mouse_tracking;
  focus_reporting = m.focus_reporting;
  application_keypad = m.application_keypad;
  application_cursor = m.application_cursor;
  origin = m.origin;
  wraparound = m.wraparound;
  mouse_tracking_mode = m.mouse_tracking_mode;
  mouse_format = m.mouse_format;
}

abbrev pub mirror_colors : TerminalColors → TerminalColorSummary
mirror_colors c = record {
  default_fg_rgba = c.default_fg_rgba;
  default_bg_rgba = c.default_bg_rgba;
  cursor_rgba = c.cursor_rgba;
  cursor_rgba_set = c.cursor_rgba_set;
  palette_rgba = c.palette_rgba;
  palette_diff_start = none;
  palette_diff_rgba = [];
}

abbrev pub mirror_style : PaneStyle → StyleSummary
mirror_style st = record {
  fg_rgba = st.fg_rgba;
  bg_rgba = st.bg_rgba;
  underline_rgba = st.underline_rgba;
  flags = st.flags;
}

-- The surface without its rows.
abbrev pub mirror_frame : PaneState → ClientPaneSurface
mirror_frame p = record {
  pane_id = p.id;
  version = p.surface_version;
  cols = p.cols;
  rows = p.rows;
  surface = p.surface;
  cursor = some (mirror_cursor p.cursor);
  modes = mirror_modes p.modes;
  title = p.terminal_title;
  working_directory = p.terminal_working_directory;
  colors = mirror_colors p.colors;
  styles = styles_or_default (map mirror_style p.styles);
  hyperlinks = [];
  row_text = [];
  row_runs = [];
  row_dirty_hashes = [];
  row_semantic_prompts = [];
  row_dirty = [];
  row_kitty_placeholders = [];
  row_state_hashes = [];
}

-- The surface that shows a pane.
unfoldable pub mirror : PaneState → ClientPaneSurface
unfolding mirror_row
mirror p = fill (mirror_frame p) p.rows (mirror_row p)

-- The row vectors are parallel, and the runs of a row have its text.
pub record IsConsistent (p : PaneState) : Type 0 where
  pub aligned : IsAligned p
  pub matches : runs_match p.surface_row_runs p.surface_lines ≡ true

abbrev pub IsKnownRun : ℕ → CellRun → Type 0
IsKnownRun styles run =
    (semantic_content_known run.semantic_content ≡ true) × (run.style_id < max styles 1)

-- What the server sends of the pane passes the client's validators: its enumerations are known,
-- its runs name styles that it has, its rows can be numbered.
pub record IsSendable (p : PaneState) : Type 0 where
  pub named : is_empty p.id ≡ false
  pub surface : surface_kind_known p.surface ≡ true
  pub shape : cursor_shape_known p.cursor.shape ≡ true
  pub tracking : tracking_mode_known p.modes.mouse_tracking_mode ≡ true
  pub format : mouse_format_known p.modes.mouse_format ≡ true
  pub prompts : All (λ k. semantic_prompt_known k ≡ true) p.surface_semantic_prompts
  pub runs : All (λ row. All (IsKnownRun (length p.styles)) row) p.surface_row_runs
  pub rows : p.rows < 2 ^ 32
