-- ===== src/Client/Surface/Rows.antt =====
-- `ClientPaneSurface::apply_rows` (crates/nmux-cli/src/local/surface.rs). It writes as it goes: an
-- error leaves the rows before it written.
pub mod Parallel
use nmux.Base.{
  ℕ, ◌&&◌, ltb, Bool, true, false, Text, List, [], ◌∷◌, length, set, is_empty, if◌then◌else◌,
}
use nmux.Protocol.{RowSemanticPrompt}
use nmux.Client.Surface.{
  SurfaceError, Result, ok, err, CellRunSummary, SurfaceRowUpdate, ClientPaneSurface, plain_summary,
}

-- The runs that are kept of a row.
unfoldable pub shown_runs : Text → List CellRunSummary → List CellRunSummary
shown_runs text [] = plain_summary text ∷ []
shown_runs text (run ∷ runs) = run ∷ runs

-- The indexings after the one of `row_text` are in bounds.
unfoldable pub in_bounds : ℕ → ClientPaneSurface → Bool
in_bounds i s =
    ltb i (length s.row_runs)
    && ltb i (length s.row_dirty_hashes)
    && ltb i (length s.row_semantic_prompts)
    && ltb i (length s.row_dirty)
    && ltb i (length s.row_kitty_placeholders)
    && ltb i (length s.row_state_hashes)

unfoldable pub write_row : SurfaceRowUpdate → ClientPaneSurface → ClientPaneSurface
unfolding shown_runs
write_row row s = record s {
  row_text = set s.row_text row.row row.text;
  row_runs = set s.row_runs row.row (shown_runs row.text row.runs);
  row_dirty_hashes = set s.row_dirty_hashes row.row row.dirty_hash;
  row_semantic_prompts = set s.row_semantic_prompts row.row row.semantic_prompt;
  row_dirty = set s.row_dirty row.row row.dirty;
  row_kitty_placeholders = set s.row_kitty_placeholders row.row row.kitty_virtual_placeholder;
  row_state_hashes = set s.row_state_hashes row.row row.row_state_hash;
}

unfoldable pub apply_rows :
    List SurfaceRowUpdate → ClientPaneSurface → Result Unit × ClientPaneSurface
unfolding in_bounds write_row
apply_rows [] s = (ok tt, s)
apply_rows (row ∷ rows) s =
    let rest = apply_rows rows (write_row row s) in
    if ltb row.row (length s.row_text)
    then if in_bounds row.row s then rest else (err SurfaceError.panicked, s)
    else (err (SurfaceError.row_outside_surface row.row), s)
