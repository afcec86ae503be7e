-- ===== src/Client/Surface/Summary.antt =====
-- What is reported of a client's surface, and the checks of what it is restored from
-- (crates/nmux-cli/src/local/surface.rs).
use nmux.Base.{
  ℕ, zero, suc, ◌+◌, ◌==◌, ◌!=◌, ◌&&◌, ◌||◌, not, Bool, Text, codes, List, [], ◌∷◌, ◌++◌, map,
  get_elem?, is_empty, if◌then◌else◌, ℕ-DecEq, List-DecEq,
}
use nmux.Protocol.{AttachSurfaceState}
use nmux.Terminal.Interim.Merge.{is_control}
use nmux.Client.Surface.{
  SurfaceError, Result, ok, err, ◌>>=◌, ◌>>◌, ok_or, raise_if, TerminalColorSummary, CellRunSummary,
  StyleSummary, HyperlinkSummary, SurfaceRowUpdate, SurfaceUpdate, SurfaceUpdateKind,
  ClientPaneSurface, plain_summary, render_run_summaries,
}
use nmux.Client.Surface.Validate.{
  for_each, validate_cell_run_style_ids, validate_cell_run_hyperlink_ids,
}
use nmux.Client.Surface.Render.{visible_row_count}

pub record TerminalMetadataSummary : Type 0 where
  pub title : Text
  pub working_directory : Text

-- `TerminalMetadataSummary::from_surface`.
unfoldable pub metadata_summary : ClientPaneSurface → TerminalMetadataSummary
metadata_summary s = record { title = s.title; working_directory = s.working_directory }

unfoldable pub metadata_is_empty : TerminalMetadataSummary → Bool
metadata_is_empty m = is_empty m.title && is_empty m.working_directory

unfoldable pub sanitized_metadata_value : Text → Text
sanitized_metadata_value = map (λ c. if c == 9 || not (is_control c) then c else 0xfffd)

unfoldable pub display_line : Text → Text → List Text
unfolding sanitized_metadata_value
display_line name value =
    if is_empty value then [] else (name ++ sanitized_metadata_value value) ∷ []

unfoldable pub display_lines : TerminalMetadataSummary → List Text
unfolding display_line
display_lines m =
    display_line (codes "title=") m.title
    ++ display_line (codes "working-directory=") m.working_directory

pub record RenderedSurfaceSummary : Type 0 where
  pub pane_id : Text
  pub version : ℕ
  pub cols : ℕ
  pub rows : ℕ
  pub colors : TerminalColorSummary
  pub styles : List StyleSummary
  pub hyperlinks : List HyperlinkSummary
  pub row_updates : List SurfaceRowUpdate

-- One row; `none` is an index out of bounds.
unfoldable pub row_summary : ClientPaneSurface → ℕ → Result SurfaceRowUpdate
row_summary s index = do
  text ← ok_or (get_elem? s.row_text index) SurfaceError.panicked
  runs ← ok_or (get_elem? s.row_runs index) SurfaceError.panicked
  dirty_hash ← ok_or (get_elem? s.row_dirty_hashes index) SurfaceError.panicked
  row_state_hash ← ok_or (get_elem? s.row_state_hashes index) SurfaceError.panicked
  semantic_prompt ← ok_or (get_elem? s.row_semantic_prompts index) SurfaceError.panicked
  dirty ← ok_or (get_elem? s.row_dirty index) SurfaceError.panicked
  placeholder ← ok_or (get_elem? s.row_kitty_placeholders index) SurfaceError.panicked
  ok (record {
    row = index;
    text = text;
    runs = runs;
    dirty_hash = dirty_hash;
    row_state_hash = row_state_hash;
    semantic_prompt = semantic_prompt;
    dirty = dirty;
    kitty_virtual_placeholder = placeholder;
  })

unfoldable pub row_summaries : ClientPaneSurface → ℕ → ℕ → Result (List SurfaceRowUpdate)
unfolding row_summary
row_summaries s index zero = ok []
row_summaries s index (suc count) = do
  row ← row_summary s index
  rows ← row_summaries s (index + 1) count
  ok (row ∷ rows)

unfoldable pub summary : ClientPaneSurface → Result RenderedSurfaceSummary
unfolding row_summaries visible_row_count
summary s = do
  row_updates ← row_summaries s 0 (visible_row_count s)
  ok (record {
    pane_id = s.pane_id;
    version = s.version;
    cols = s.cols;
    rows = s.rows;
    colors = s.colors;
    styles = s.styles;
    hyperlinks = s.hyperlinks;
    row_updates = row_updates;
  })

-- The runs of a row that do not have its text are replaced. A row without runs is an index out of
-- bounds, and runs without a row are kept.
unfoldable pub row_runs_for_text :
    List Text → List (List CellRunSummary) → Result (List (List CellRunSummary))
row_runs_for_text [] row_runs = ok row_runs
row_runs_for_text (text ∷ row_text) [] = err SurfaceError.panicked
row_runs_for_text (text ∷ row_text) (runs ∷ row_runs) = do
  rest ← row_runs_for_text row_text row_runs
  ok (
      (if is_empty runs || render_run_summaries runs != text then plain_summary text ∷ [] else runs)
      ∷ rest)

unfoldable pub validate_cached_row_hyperlink_ids :
    List (List CellRunSummary) → List HyperlinkSummary → Result Unit
validate_cached_row_hyperlink_ids row_runs hyperlinks =
    for_each (λ runs. validate_cell_run_hyperlink_ids runs hyperlinks) row_runs

unfoldable pub validate_cached_row_style_ids :
    List (List CellRunSummary) → List StyleSummary → Result Unit
validate_cached_row_style_ids row_runs styles =
    for_each (λ runs. validate_cell_run_style_ids runs styles) row_runs

pub record AttachStatusSummary : Type 0 where
  pub pane_id : Text
  pub surface_version : ℕ
  pub surface_state : AttachSurfaceState

-- The match on the matches_status state and the kind of the update.
unfoldable pub matches_status : AttachSurfaceState → SurfaceUpdateKind → Result Unit
matches_status AttachSurfaceState.snapshot SurfaceUpdateKind.snapshot = ok tt
matches_status AttachSurfaceState.patch SurfaceUpdateKind.patch = ok tt
matches_status AttachSurfaceState.current _ = err SurfaceError.attach_current_surface
matches_status _ _ = err SurfaceError.attach_state_mismatch

unfoldable pub validate_attach_surface_update : AttachStatusSummary → SurfaceUpdate → Result Unit
unfolding matches_status
validate_attach_surface_update status u = do
  raise_if (u.pane_id != status.pane_id) SurfaceError.attach_pane_mismatch
  matches_status status.surface_state u.kind
