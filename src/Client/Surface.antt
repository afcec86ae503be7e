-- ===== src/Client/Surface.antt =====
-- What a client keeps of a pane's surface, and the updates that it decodes from frames
-- (crates/nmux-cli/src/local/surface.rs). `usize` has 64 bits: a `u32` always fits.
pub mod Validate
pub mod Decode
pub mod Rows
pub mod Render
pub mod Summary
pub mod Snapshot
pub mod Patch
use nmux.Base.{
  ℕ, DecEq, ℕ_discrete, Bool, true, false, List-discrete, Option-discrete, Text, Option, none, some,
  List, [], ◌∷◌, ◌++◌, length, replicate,
}
use nmux.Protocol.{
  SurfaceKind, CursorShape, MouseTrackingMode, MouseFormat, PatchKind, RowSemanticPrompt,
  CellSemanticContent,
}

-- One for each message of an error; `panicked` is an index out of bounds.
pub data SurfaceError : Type 0 where
  missing_cols missing_rows missing_body missing_colors : SurfaceError
  missing_field empty_field : SurfaceError
  unknown_surface_kind unknown_cursor_shape unknown_patch_kind : SurfaceError
  unknown_mouse_tracking_mode unknown_mouse_format : SurfaceError
  unknown_row_semantic_prompt unknown_semantic_content : SurfaceError
  unknown_style_id unknown_hyperlink_id : SurfaceError
  reserved_hyperlink_id missing_hyperlink_uri duplicate_hyperlink_id : SurfaceError
  row_outside_surface repeated_row : ℕ → SurfaceError
  snapshot_palette_diff non_color_palette_diff palette_diff_start : SurfaceError
  pane_mismatch base_version_mismatch hyperlink_table_change row_payload : SurfaceError
  full_refresh_required unsupported_patch_kind : SurfaceError
  cursor_only_colors mode_only_colors replace_rows_colors : SurfaceError
  invalid_buffer unexpected_body panicked patch_without_snapshot : SurfaceError
  attach_pane_mismatch attach_current_surface attach_state_mismatch : SurfaceError

pub data Result (A : Type 0) : Type 0 where
  ok : A → Result A
  err : SurfaceError → Result A

infixl 5 ◌>>=◌ ◌>>◌
abbrev pub ◌>>=◌ : {A B : Type 0} → Result A → (A → Result B) → Result B
ok a >>= f = f a
err e >>= f = err e

abbrev pub ◌>>◌ : {A B : Type 0} → Result A → Result B → Result B
r >> k = r >>= λ _. k

-- `Option::ok_or`.
abbrev pub ok_or : {A : Type 0} → Option A → SurfaceError → Result A
ok_or none e = err e
ok_or (some a) e = ok a

abbrev pub raise_if : Bool → SurfaceError → Result Unit
raise_if true e = err e
raise_if false e = ok tt

pub record CursorSummary : Type 0 where
  pub row : ℕ
  pub col : ℕ
  pub visible : Bool
  pub shape : CursorShape
  pub blinking : Bool

pub record TerminalModeSummary : Type 0 where
  pub bracketed_paste : Bool
  pub mouse_tracking : Bool
  pub focus_reporting : Bool
  pub application_keypad : Bool
  pub application_cursor : Bool
  pub origin : Bool
  pub wraparound : Bool
  pub mouse_tracking_mode : MouseTrackingMode
  pub mouse_format : MouseFormat

abbrev pub default_mode_summary : TerminalModeSummary
default_mode_summary = record {
  bracketed_paste = false;
  mouse_tracking = false;
  focus_reporting = false;
  application_keypad = false;
  application_cursor = false;
  origin = false;
  wraparound = true;
  mouse_tracking_mode = MouseTrackingMode.none;
  mouse_format = MouseFormat.x10;
}

pub record TerminalColorSummary : Type 0 where
  pub default_fg_rgba : ℕ
  pub default_bg_rgba : ℕ
  pub cursor_rgba : ℕ
  pub cursor_rgba_set : Bool
  pub palette_rgba : List ℕ
  pub palette_diff_start : Option ℕ
  pub palette_diff_rgba : List ℕ

abbrev pub default_color_summary : TerminalColorSummary
default_color_summary = record {
  default_fg_rgba = 0;
  default_bg_rgba = 0;
  cursor_rgba = 0;
  cursor_rgba_set = false;
  palette_rgba = [];
  palette_diff_start = none;
  palette_diff_rgba = [];
}

unfoldable pub TerminalColorSummary-discrete : Discrete TerminalColorSummary
TerminalColorSummary-discrete = hlevel (ℕ_discrete, List-discrete {0}, Option-discrete {0})

instance abbrev pub TerminalColorSummary-DecEq : DecEq TerminalColorSummary
TerminalColorSummary-DecEq = record { dec_eq = TerminalColorSummary-discrete }

pub record CellRunSummary : Type 0 where
  pub text : Text
  pub cell_widths : List ℕ
  pub style_id : ℕ
  pub flags : ℕ
  pub hyperlink_id : ℕ
  pub semantic_content : CellSemanticContent

-- `CellRunSummary::plain`.
unfoldable pub plain_summary : Text → CellRunSummary
plain_summary text = record {
  text = text;
  cell_widths = replicate (length text) 1;
  style_id = 0;
  flags = 0;
  hyperlink_id = 0;
  semantic_content = CellSemanticContent.output;
}

unfoldable pub render_run_summaries : List CellRunSummary → Text
render_run_summaries [] = []
render_run_summaries (run ∷ runs) = run.text ++ render_run_summaries runs

pub record StyleSummary : Type 0 where
  pub fg_rgba : ℕ
  pub bg_rgba : ℕ
  pub underline_rgba : ℕ
  pub flags : ℕ

abbrev pub default_style_summaries : List StyleSummary
default_style_summaries = record { fg_rgba = 0; bg_rgba = 0; underline_rgba = 0; flags = 0 } ∷ []

pub record HyperlinkSummary : Type 0 where
  pub id : ℕ
  pub uri : Text
  pub osc8_id : Text
  pub params : Text

pub record SurfaceRowUpdate : Type 0 where
  pub row : ℕ
  pub text : Text
  pub runs : List CellRunSummary
  pub dirty_hash : ℕ
  pub row_state_hash : ℕ
  pub semantic_prompt : RowSemanticPrompt
  pub dirty : Bool
  pub kitty_virtual_placeholder : Bool

pub data SurfaceUpdateKind : Type 0 where
  snapshot patch : SurfaceUpdateKind

pub record SurfaceUpdate : Type 0 where
  pub kind : SurfaceUpdateKind
  pub pane_id : Text
  pub version : ℕ
  pub base_version : Option ℕ
  pub patch_kind : Option PatchKind
  pub cols : Option ℕ
  pub rows : Option ℕ
  pub surface : Option SurfaceKind
  pub cursor : Option CursorSummary
  pub modes : TerminalModeSummary
  pub title : Text
  pub working_directory : Text
  pub colors : Option TerminalColorSummary
  pub row_updates : List SurfaceRowUpdate
  pub styles : List StyleSummary
  pub hyperlinks : List HyperlinkSummary
  pub text : Text

pub record ClientPaneSurface : Type 0 where
  pub pane_id : Text
  pub version : ℕ
  pub cols : ℕ
  pub rows : ℕ
  pub surface : SurfaceKind
  pub cursor : Option CursorSummary
  pub modes : TerminalModeSummary
  pub title : Text
  pub working_directory : Text
  pub colors : TerminalColorSummary
  pub styles : List StyleSummary
  pub hyperlinks : List HyperlinkSummary
  pub row_text : List Text
  pub row_runs : List (List CellRunSummary)
  pub row_dirty_hashes : List ℕ
  pub row_semantic_prompts : List RowSemanticPrompt
  pub row_dirty : List Bool
  pub row_kitty_placeholders : List Bool
  pub row_state_hashes : List ℕ
