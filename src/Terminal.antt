-- ===== src/Terminal.antt =====
-- The terminal state that an engine reads and reports (crates/nmux-core/src/terminal.rs).
-- Rows, columns and colours are `u32`, versions `u64`, cell widths `u8`: all are numbers here, and
-- the theorems that need a bound state it.
pub mod Interim
pub mod Mouse
pub mod Keys
use nmux.Base.{
  ℕ, DecEq, ℕ_discrete, Bool, true, false, List-discrete, Text, List, [], ◌∷◌, ◌++◌, Option, map,
  length, replicate,
}
use nmux.Protocol.{
  SurfaceKind, CursorShape, MouseTrackingMode, MouseFormat, PatchKind, RowSemanticPrompt,
  CellSemanticContent, CursorShape-discrete, MouseTrackingMode-discrete, MouseFormat-discrete,
  CellSemanticContent-discrete,
}

pub record TerminalCursor : Type 0 where
  pub row : ℕ
  pub col : ℕ
  pub visible : Bool
  pub shape : CursorShape
  pub blinking : Bool

pub record TerminalModes : Type 0 where
  pub bracketed_paste : Bool
  pub mouse_tracking : Bool
  pub focus_reporting : Bool
  pub application_keypad : Bool
  pub application_cursor : Bool
  pub origin : Bool
  pub wraparound : Bool
  pub mouse_tracking_mode : MouseTrackingMode
  pub mouse_format : MouseFormat

pub record TerminalColors : Type 0 where
  pub default_fg_rgba : ℕ
  pub default_bg_rgba : ℕ
  pub cursor_rgba : ℕ
  pub cursor_rgba_set : Bool
  pub palette_rgba : List ℕ

pub record PaneStyle : Type 0 where
  pub fg_rgba : ℕ
  pub bg_rgba : ℕ
  pub underline_rgba : ℕ
  pub flags : ℕ

pub record CellRun : Type 0 where
  pub text : Text
  pub cell_widths : List ℕ
  pub style_id : ℕ
  pub flags : ℕ
  pub hyperlink_id : ℕ
  pub semantic_content : CellSemanticContent

abbrev pub default_modes : TerminalModes
default_modes = record {
  bracketed_paste = false;
  mouse_tracking = false;
  focus_reporting = false;
  application_keypad = false;
  application_cursor = false;
  origin = false;
  wraparound = true;
  mouse_tracking_mode = MouseTrackingMode.none;
  mouse_format = MouseFormat.x10;
}

abbrev pub default_colors : TerminalColors
default_colors = record {
  default_fg_rgba = 0;
  default_bg_rgba = 0;
  cursor_rgba = 0;
  cursor_rgba_set = false;
  palette_rgba = [];
}

abbrev pub default_style : PaneStyle
default_style = record { fg_rgba = 0; bg_rgba = 0; underline_rgba = 0; flags = 0 }

-- `CellRun::plain`: one cell of width 1 for each character.
unfoldable pub plain : Text → CellRun
plain text = record {
  text = text;
  cell_widths = replicate (length text) 1;
  style_id = 0;
  flags = 0;
  hyperlink_id = 0;
  semantic_content = CellSemanticContent.output;
}

unfoldable pub plain_row_runs : List Text → List (List CellRun)
plain_row_runs = map (λ line. plain line ∷ [])

unfoldable pub plain_row_semantic_prompts : List Text → List RowSemanticPrompt
plain_row_semantic_prompts lines = replicate (length lines) RowSemanticPrompt.none

unfoldable pub plain_row_dirty_flags : List Text → List Bool
plain_row_dirty_flags lines = replicate (length lines) false

unfoldable pub plain_row_kitty_placeholders : List Text → List Bool
plain_row_kitty_placeholders lines = replicate (length lines) false

unfoldable pub cell_runs_text : List CellRun → Text
cell_runs_text [] = []
cell_runs_text (run ∷ runs) = run.text ++ cell_runs_text runs

-- What an engine is told of the pane.
pub record TerminalInput : Type 0 where
  pub pane_id : Text
  pub cols : ℕ
  pub rows : ℕ
  pub surface : SurfaceKind
  pub cursor : TerminalCursor
  pub modes : TerminalModes
  pub title : Text
  pub working_directory : Text
  pub colors : TerminalColors
  pub styles : List PaneStyle
  pub surface_lines : List Text
  pub surface_row_runs : List (List CellRun)
  pub surface_semantic_prompts : List RowSemanticPrompt
  pub surface_dirty_rows : List Bool
  pub surface_kitty_placeholders : List Bool
  pub scrollback_lines : List Text
  pub scrollback_row_runs : List (List CellRun)
  pub scrollback_semantic_prompts : List RowSemanticPrompt
  pub scrollback_dirty_rows : List Bool
  pub scrollback_kitty_placeholders : List Bool

-- What an engine reports back.
pub record TerminalUpdate : Type 0 where
  pub patch_kind : PatchKind
  pub surface : SurfaceKind
  pub preserve_scrollback : Bool
  pub cursor : TerminalCursor
  pub modes : TerminalModes
  pub title : Text
  pub working_directory : Text
  pub colors : TerminalColors
  pub styles : List PaneStyle
  pub surface_lines : List Text
  pub surface_row_runs : List (List CellRun)
  pub surface_semantic_prompts : List RowSemanticPrompt
  pub surface_dirty_rows : List Bool
  pub surface_kitty_placeholders : List Bool
  pub scrollback_lines : List Text
  pub scrollback_row_runs : List (List CellRun)
  pub scrollback_semantic_prompts : List RowSemanticPrompt
  pub scrollback_dirty_rows : List Bool
  pub scrollback_kitty_placeholders : List Bool

unfoldable pub update_plain :
    PatchKind → SurfaceKind → TerminalCursor → List Text → List Text → TerminalUpdate
update_plain patch_kind surface cursor surface_lines scrollback_lines = record {
  patch_kind = patch_kind;
  surface = surface;
  preserve_scrollback = false;
  cursor = cursor;
  modes = default_modes;
  title = [];
  working_directory = [];
  colors = default_colors;
  styles = default_style ∷ [];
  surface_lines = surface_lines;
  surface_row_runs = plain_row_runs surface_lines;
  surface_semantic_prompts = plain_row_semantic_prompts surface_lines;
  surface_dirty_rows = plain_row_dirty_flags surface_lines;
  surface_kitty_placeholders = plain_row_kitty_placeholders surface_lines;
  scrollback_lines = scrollback_lines;
  scrollback_row_runs = plain_row_runs scrollback_lines;
  scrollback_semantic_prompts = plain_row_semantic_prompts scrollback_lines;
  scrollback_dirty_rows = plain_row_dirty_flags scrollback_lines;
  scrollback_kitty_placeholders = plain_row_kitty_placeholders scrollback_lines;
}

-- The trait `TerminalEngine` with its state: an engine is a parameter of the session, since the
-- default one (libghostty-vt) is a library. `fresh` is the engine of a pane that has none yet.
pub record TerminalEngine : Type 1 where
  pub State : Type 0
  pub fresh : State
  pub apply_output : State → TerminalInput → List ℕ → Option TerminalUpdate × State
  pub resize : State → TerminalInput → ℕ → ℕ → Option TerminalUpdate × State

unfoldable pub TerminalCursor-discrete : Discrete TerminalCursor
TerminalCursor-discrete = hlevel (ℕ_discrete, CursorShape-discrete)

unfoldable pub TerminalModes-discrete : Discrete TerminalModes
TerminalModes-discrete = hlevel (MouseTrackingMode-discrete, MouseFormat-discrete)

unfoldable pub TerminalColors-discrete : Discrete TerminalColors
TerminalColors-discrete = hlevel (ℕ_discrete, List-discrete {0})

unfoldable pub PaneStyle-discrete : Discrete PaneStyle
PaneStyle-discrete = hlevel ℕ_discrete

unfoldable pub CellRun-discrete : Discrete CellRun
CellRun-discrete = hlevel (ℕ_discrete, List-discrete {0}, CellSemanticContent-discrete)

instance abbrev pub TerminalCursor-DecEq : DecEq TerminalCursor
TerminalCursor-DecEq = record { dec_eq = TerminalCursor-discrete }

instance abbrev pub TerminalModes-DecEq : DecEq TerminalModes
TerminalModes-DecEq = record { dec_eq = TerminalModes-discrete }

instance abbrev pub TerminalColors-DecEq : DecEq TerminalColors
TerminalColors-DecEq = record { dec_eq = TerminalColors-discrete }

instance abbrev pub PaneStyle-DecEq : DecEq PaneStyle
PaneStyle-DecEq = record { dec_eq = PaneStyle-discrete }

instance abbrev pub CellRun-DecEq : DecEq CellRun
CellRun-DecEq = record { dec_eq = CellRun-discrete }
