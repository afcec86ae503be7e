-- ===== src/Examples/Patches.antt =====
-- Patches that a client refuses, and reports that a patch does not carry whole.
use nmux.Base.{
  ℕ, ◌≡◌, refl, length, true, false, some, none, List, [], ◌∷◌, ℕ_discrete, List-discrete,
  Option-discrete, codes,
}
use nmux.Protocol.{PatchKind, RowSemanticPrompt, PatchKind-discrete}
use nmux.Terminal.{TerminalColors, default_colors}
use nmux.Session.{initial_pane}
use nmux.Session.Update.{palette_diff, surface_row_update_indices, surface_of}
use nmux.Client.Surface.{
  ok, err, SurfaceError, SurfaceRowUpdate, SurfaceUpdate, SurfaceUpdateKind, ClientPaneSurface,
  default_mode_summary,
}
use nmux.Client.Surface.Snapshot.{blank_surface}
use nmux.Client.Surface.Decode.{color_summary}
use nmux.Client.Surface.Rows.Parallel.{IsParallel}
use nmux.Client.Surface.Patch.{
  apply_update, apply_patch, validate_patch, apply_kind, apply_rows_patch, materialize,
}
use nmux.Client.Surface.Patch.Clean.{apply_update_err}
use nmux.Client.Surface.Patch.Framed.{apply_update-IsParallel}
use nmux.Session.Frame.{build_terminal_colors}
use nmux.Sync.Mirror.{mirror_colors}
use nmux.Client.Surface.Validate.{
  validate_patch_kind, validate_palette_diff_scope, validate_cursor_summary,
  validate_terminal_mode_summary, validate_no_row_patch_payload, validate_row_update_terminal_enums,
  for_each, validate_row_semantic_prompt, validate_cell_run_semantic_content,
  validate_row_update_indices, unseen_rows,
}
use nmux.Examples.Data.{pane_one}

-- A patch that writes one row and then names it again.
abbrev repeated_row : SurfaceRowUpdate
repeated_row = record {
  row = 1;
  text = codes "x";
  runs = [];
  dirty_hash = 0;
  row_state_hash = 0;
  semantic_prompt = RowSemanticPrompt.none;
  dirty = true;
  kitty_virtual_placeholder = false;
}

abbrev repeating : SurfaceUpdate
repeating = record {
  kind = SurfaceUpdateKind.patch;
  pane_id = pane_one;
  version = 4;
  base_version = some 3;
  patch_kind = some PatchKind.replace_rows;
  cols = none;
  rows = none;
  surface = none;
  cursor = none;
  modes = default_mode_summary;
  title = [];
  working_directory = [];
  colors = none;
  row_updates = repeated_row ∷ repeated_row ∷ [];
  styles = [];
  hyperlinks = [];
  text = [];
}

-- A surface of two blank rows.
abbrev two_rows : ClientPaneSurface
two_rows = blank_surface (record repeating { version = 3 }) 80 2

two_rows-IsParallel : IsParallel 2 two_rows
unfolding blank_surface
two_rows-IsParallel = record {
  text = refl;
  runs = refl;
  dirty_hashes = refl;
  prompts = refl;
  dirty = refl;
  placeholders = refl;
  state_hashes = refl;
}

repeating_refused : (apply_update repeating two_rows).0 ≡ err (SurfaceError.repeated_row 1)
unfolding apply_update apply_patch validate_patch validate_patch_kind validate_palette_diff_scope
    validate_cursor_summary validate_terminal_mode_summary validate_no_row_patch_payload apply_kind
    apply_rows_patch validate_row_update_terminal_enums for_each validate_row_semantic_prompt
    validate_cell_run_semantic_content validate_row_update_indices unseen_rows blank_surface
    PatchKind-discrete Option-discrete List-discrete ℕ_discrete
repeating_refused = refl

apply_update_err_example : (apply_update repeating two_rows).1 ≡ two_rows
unfolding blank_surface
apply_update_err_example =
    apply_update_err repeating two_rows (SurfaceError.repeated_row 1) two_rows-IsParallel
      repeating_refused

apply_update-IsParallel_example :
    IsParallel
      (length (apply_update repeating two_rows).1.row_text)
      (apply_update repeating two_rows).1
unfolding blank_surface
apply_update-IsParallel_example = apply_update-IsParallel repeating two_rows two_rows-IsParallel

-- A palette that lost its last colour: the diff has no colours, and the client keeps the old one.
abbrev colors_of : List ℕ → TerminalColors
colors_of palette = record default_colors { palette_rgba = palette }

shrunk_palette :
    materialize
      (color_summary
        (build_terminal_colors (colors_of (1 ∷ [])) (palette_diff (1 ∷ 2 ∷ []) (1 ∷ [])) false))
      (mirror_colors (colors_of (1 ∷ 2 ∷ [])))
    ≡ ok (mirror_colors (colors_of (1 ∷ 2 ∷ [])))
unfolding materialize color_summary build_terminal_colors palette_diff List-discrete ℕ_discrete
shrunk_palette = refl

-- A report of one line to a pane of two lists its own line alone.
one_line :
    surface_row_update_indices initial_pane
      (record (surface_of initial_pane) { lines = codes "x" ∷ [] })
      false
    ≡ 0 ∷ []
unfolding surface_row_update_indices initial_pane ℕ_discrete
one_line = refl
