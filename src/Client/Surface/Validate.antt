-- ===== src/Client/Surface/Validate.antt =====
-- The validators of crates/nmux-cli/src/local/surface.rs. An enumeration is known if its
-- `variant_name` is some.
use nmux.Base.{
  ℕ, ◌==◌, ◌!=◌, ◌&&◌, ◌||◌, not, max, leb, Bool, true, false, Option, none, some, List, [], ◌∷◌,
  length, get_elem?, set, replicate, is_empty, is_some, ℕ-DecEq, Option-DecEq, if◌then◌else◌,
}
use nmux.Protocol.{
  SurfaceKind, CursorShape, MouseTrackingMode, MouseFormat, PatchKind, RowSemanticPrompt,
  CellSemanticContent, PatchKind-DecEq,
}
use nmux.Client.Surface.{
  SurfaceError, Result, ok, err, ◌>>◌, raise_if, CursorSummary, TerminalModeSummary,
  TerminalColorSummary, CellRunSummary, StyleSummary, HyperlinkSummary, SurfaceRowUpdate,
  SurfaceUpdateKind,
}

abbrev pub surface_kind_known : SurfaceKind → Bool
surface_kind_known (SurfaceKind.unknown n) = false
surface_kind_known _ = true

abbrev pub cursor_shape_known : CursorShape → Bool
cursor_shape_known (CursorShape.unknown n) = false
cursor_shape_known _ = true

abbrev pub patch_kind_known : PatchKind → Bool
patch_kind_known (PatchKind.unknown n) = false
patch_kind_known _ = true

abbrev pub tracking_mode_known : MouseTrackingMode → Bool
tracking_mode_known (MouseTrackingMode.unknown n) = false
tracking_mode_known _ = true

abbrev pub mouse_format_known : MouseFormat → Bool
mouse_format_known (MouseFormat.unknown n) = false
mouse_format_known _ = true

abbrev pub semantic_prompt_known : RowSemanticPrompt → Bool
semantic_prompt_known (RowSemanticPrompt.unknown n) = false
semantic_prompt_known _ = true

abbrev pub semantic_content_known : CellSemanticContent → Bool
semantic_content_known (CellSemanticContent.unknown n) = false
semantic_content_known _ = true

abbrev pub expect : Bool → SurfaceError → Result Unit
expect b e = raise_if (not b) e

unfoldable pub validate_patch_kind : PatchKind → Result Unit
validate_patch_kind kind = expect (patch_kind_known kind) SurfaceError.unknown_patch_kind

unfoldable pub validate_surface_kind : SurfaceKind → Result Unit
validate_surface_kind kind = expect (surface_kind_known kind) SurfaceError.unknown_surface_kind

unfoldable pub validate_cursor_summary : Option CursorSummary → Result Unit
validate_cursor_summary none = ok tt
validate_cursor_summary (some c) =
    expect (cursor_shape_known c.shape) SurfaceError.unknown_cursor_shape

unfoldable pub validate_terminal_mode_summary : TerminalModeSummary → Result Unit
validate_terminal_mode_summary m = do
  expect (tracking_mode_known m.mouse_tracking_mode) SurfaceError.unknown_mouse_tracking_mode
  expect (mouse_format_known m.mouse_format) SurfaceError.unknown_mouse_format

unfoldable pub terminal_colors_have_palette_diff : TerminalColorSummary → Bool
terminal_colors_have_palette_diff c =
    is_some c.palette_diff_start || not (is_empty c.palette_diff_rgba)

unfoldable pub palette_diff_allowed : SurfaceUpdateKind → Option PatchKind → Result Unit
palette_diff_allowed SurfaceUpdateKind.snapshot kind = err SurfaceError.snapshot_palette_diff
palette_diff_allowed SurfaceUpdateKind.patch kind =
    expect (kind == some PatchKind.color_only) SurfaceError.non_color_palette_diff

unfoldable pub validate_palette_diff_scope :
    SurfaceUpdateKind → Option PatchKind → Option TerminalColorSummary → Result Unit
unfolding terminal_colors_have_palette_diff palette_diff_allowed
validate_palette_diff_scope kind patch_kind none = ok tt
validate_palette_diff_scope kind patch_kind (some c) =
    if terminal_colors_have_palette_diff c then palette_diff_allowed kind patch_kind else ok tt

abbrev pub carries_no_rows : PatchKind → Bool
carries_no_rows PatchKind.cursor_only = true
carries_no_rows PatchKind.mode_only = true
carries_no_rows PatchKind.color_only = true
carries_no_rows PatchKind.full_refresh_required = true
carries_no_rows _ = false

unfoldable pub validate_no_row_patch_payload : PatchKind → List SurfaceRowUpdate → Result Unit
validate_no_row_patch_payload kind rows =
    raise_if (not (is_empty rows) && carries_no_rows kind) SurfaceError.row_payload

-- The loop over the rows, with the rows that were seen before.
unfoldable pub unseen_rows : List Bool → List SurfaceRowUpdate → Result Unit
unseen_rows seen [] = ok tt
unseen_rows seen (row ∷ rows) =
    let rest = unseen_rows (set seen row.row true) rows in
    elim (get_elem? seen row.row) [
      | none ↦ err (SurfaceError.row_outside_surface row.row)
      | some b ↦ if b then err (SurfaceError.repeated_row row.row) else rest
    ]

unfoldable pub validate_row_update_indices : List SurfaceRowUpdate → ℕ → Result Unit
unfolding unseen_rows
validate_row_update_indices rows row_count = unseen_rows (replicate row_count false) rows

-- `?` in a loop.
unfoldable pub for_each : {A : Type 0} → (A → Result Unit) → List A → Result Unit
for_each check [] = ok tt
for_each check (x ∷ xs) = check x >> for_each check xs

unfoldable pub validate_row_semantic_prompt : RowSemanticPrompt → Result Unit
validate_row_semantic_prompt p =
    expect (semantic_prompt_known p) SurfaceError.unknown_row_semantic_prompt

unfoldable pub validate_cell_run_semantic_content : List CellRunSummary → Result Unit
unfolding for_each
validate_cell_run_semantic_content = for_each (λ run.
    expect (semantic_content_known run.semantic_content) SurfaceError.unknown_semantic_content)

unfoldable pub validate_row_update_terminal_enums : List SurfaceRowUpdate → Result Unit
unfolding for_each validate_row_semantic_prompt validate_cell_run_semantic_content
validate_row_update_terminal_enums = for_each (λ row.
    validate_row_semantic_prompt row.semantic_prompt >> validate_cell_run_semantic_content row.runs)

unfoldable pub validate_cell_run_style_ids : List CellRunSummary → List StyleSummary → Result Unit
unfolding for_each
validate_cell_run_style_ids runs styles =
    for_each
      (λ run. raise_if (leb (max (length styles) 1) run.style_id) SurfaceError.unknown_style_id)
      runs

unfoldable pub validate_row_update_style_ids :
    List SurfaceRowUpdate → List StyleSummary → Result Unit
unfolding for_each validate_cell_run_style_ids
validate_row_update_style_ids rows styles =
    for_each (λ row. validate_cell_run_style_ids row.runs styles) rows

-- `iter().any(|hyperlink| hyperlink.id == id)`.
unfoldable pub has_hyperlink : ℕ → List HyperlinkSummary → Bool
has_hyperlink id [] = false
has_hyperlink id (h ∷ hs) = h.id == id || has_hyperlink id hs

unfoldable pub validate_cell_run_hyperlink_ids :
    List CellRunSummary → List HyperlinkSummary → Result Unit
unfolding for_each has_hyperlink
validate_cell_run_hyperlink_ids runs hyperlinks =
    for_each
      (λ run.
        raise_if (run.hyperlink_id != 0 && not (has_hyperlink run.hyperlink_id hyperlinks))
          SurfaceError.unknown_hyperlink_id)
      runs

unfoldable pub validate_row_update_hyperlink_ids :
    List SurfaceRowUpdate → List HyperlinkSummary → Result Unit
unfolding for_each validate_cell_run_hyperlink_ids
validate_row_update_hyperlink_ids rows hyperlinks =
    for_each (λ row. validate_cell_run_hyperlink_ids row.runs hyperlinks) rows

-- The loop over the table, with the entries before.
unfoldable pub hyperlinks_from : List HyperlinkSummary → List HyperlinkSummary → Result Unit
unfolding has_hyperlink
hyperlinks_from before [] = ok tt
hyperlinks_from before (h ∷ hs) = do
  raise_if (h.id == 0) SurfaceError.reserved_hyperlink_id
  raise_if (is_empty h.uri) SurfaceError.missing_hyperlink_uri
  raise_if (has_hyperlink h.id before) SurfaceError.duplicate_hyperlink_id
  hyperlinks_from (h ∷ before) hs

unfoldable pub validate_hyperlink_table : List HyperlinkSummary → Result Unit
unfolding hyperlinks_from
validate_hyperlink_table = hyperlinks_from []
