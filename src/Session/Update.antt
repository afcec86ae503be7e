-- ===== src/Session/Update.antt =====
-- Taking an engine's report into a pane (crates/nmux-core/src/session.rs, `apply_terminal_update`
-- and the functions below it).
pub mod Aligned
pub mod Patch
pub mod Silent
use nmux.Base.{
  ℕ, zero, suc, ◌+◌, ◌==◌, ◌!=◌, ◌&&◌, ◌||◌, not, min, ltb, Bool, true, false, Text, Option, none,
  some, List, [], ◌∷◌, map, length, get_elem?, take, drop, if◌then◌else◌, as_u32, saturating_add64,
  ℕ-DecEq, Bool-DecEq, List-DecEq, Option-DecEq,
}
use nmux.Protocol.{
  SurfaceKind, PatchKind, RowSemanticPrompt, SurfaceKind-DecEq, PatchKind-DecEq,
  RowSemanticPrompt-DecEq,
}
use nmux.Terminal.{
  CellRun, TerminalUpdate, plain, plain_row_semantic_prompts, plain_row_dirty_flags,
  plain_row_kitty_placeholders, cell_runs_text, CellRun-DecEq, TerminalModes-DecEq,
  TerminalColors-DecEq, PaneStyle-DecEq,
}
use nmux.Session.{
  PaneState, PaletteDiff, Cursor, Cursor-DecEq, of_terminal_cursor, all_row_indices, indices_from,
}

-- `row_runs.iter().zip(lines).all(...)`.
unfoldable pub runs_match : List (List CellRun) → List Text → Bool
runs_match [] lines = true
runs_match (runs ∷ rest) [] = true
runs_match (runs ∷ rest) (line ∷ lines) = cell_runs_text runs == line && runs_match rest lines

unfoldable pub row_runs_for_lines : List Text → List (List CellRun) → List (List CellRun)
row_runs_for_lines lines row_runs =
    if length row_runs == length lines && runs_match row_runs lines
    then row_runs
    else map (λ line. plain line ∷ []) lines

unfoldable pub row_semantic_prompts_for_lines :
    List Text → List RowSemanticPrompt → List RowSemanticPrompt
row_semantic_prompts_for_lines lines prompts =
    if length prompts == length lines then prompts else plain_row_semantic_prompts lines

unfoldable pub row_dirty_flags_for_lines : List Text → List Bool → List Bool
row_dirty_flags_for_lines lines dirty =
    if length dirty == length lines then dirty else plain_row_dirty_flags lines

unfoldable pub row_kitty_placeholders_for_lines : List Text → List Bool → List Bool
row_kitty_placeholders_for_lines lines placeholders =
    if length placeholders == length lines then placeholders else plain_row_kitty_placeholders lines

-- The five vectors that run in parallel, for a surface or a scrollback.
pub record Rows : Type 0 where
  pub lines : List Text
  pub runs : List (List CellRun)
  pub prompts : List RowSemanticPrompt
  pub dirty : List Bool
  pub placeholders : List Bool

unfoldable pub rows_for_lines :
    List Text → List (List CellRun) → List RowSemanticPrompt → List Bool → List Bool → Rows
unfolding row_runs_for_lines row_semantic_prompts_for_lines row_dirty_flags_for_lines
    row_kitty_placeholders_for_lines
rows_for_lines lines runs prompts dirty placeholders = record {
  lines = lines;
  runs = row_runs_for_lines lines runs;
  prompts = row_semantic_prompts_for_lines lines prompts;
  dirty = row_dirty_flags_for_lines lines dirty;
  placeholders = row_kitty_placeholders_for_lines lines placeholders;
}

abbrev pub surface_of : PaneState → Rows
surface_of p = record {
  lines = p.surface_lines;
  runs = p.surface_row_runs;
  prompts = p.surface_semantic_prompts;
  dirty = p.surface_dirty_rows;
  placeholders = p.surface_kitty_placeholders;
}

abbrev pub scrollback_of : PaneState → Rows
scrollback_of p = record {
  lines = p.scrollback_lines;
  runs = p.scrollback_row_runs;
  prompts = p.scrollback_semantic_prompts;
  dirty = p.scrollback_dirty_rows;
  placeholders = p.scrollback_kitty_placeholders;
}

unfoldable pub updated_surface : TerminalUpdate → Rows
updated_surface u =
    rows_for_lines u.surface_lines u.surface_row_runs u.surface_semantic_prompts
      u.surface_dirty_rows u.surface_kitty_placeholders

unfoldable pub updated_scrollback : TerminalUpdate → Rows
updated_scrollback u =
    rows_for_lines u.scrollback_lines u.scrollback_row_runs u.scrollback_semantic_prompts
      u.scrollback_dirty_rows u.scrollback_kitty_placeholders

unfoldable pub rows_differ : Rows → Rows → Bool
rows_differ a b =
    a.lines != b.lines
    || a.runs != b.runs
    || a.prompts != b.prompts
    || a.dirty != b.dirty
    || a.placeholders != b.placeholders

-- The first index at which the palettes differ, or the length of the shorter.
unfoldable pub first_difference : List ℕ → List ℕ → ℕ
first_difference [] ys = 0
first_difference (x ∷ xs) [] = 0
first_difference (x ∷ xs) (y ∷ ys) = if x == y then suc (first_difference xs ys) else 0

unfoldable pub palette_diff : List ℕ → List ℕ → Option PaletteDiff
unfolding first_difference
palette_diff old new =
    let start = first_difference old new in
    if old == new then none else some (record { start = as_u32 start; colors = drop start new })

pub record TerminalPatchChanges : Type 0 where
  pub force_full_refresh : Bool
  pub requested : PatchKind
  pub row_count_changed : Bool
  pub rows_changed : Bool
  pub row_runs_changed : Bool
  pub semantic_prompts_changed : Bool
  pub dirty_rows_changed : Bool
  pub kitty_placeholders_changed : Bool
  pub surface_kind_changed : Bool
  pub styles_changed : Bool
  pub cursor_changed : Bool
  pub modes_changed : Bool
  pub title_changed : Bool
  pub working_directory_changed : Bool
  pub colors_changed : Bool

unfoldable pub rows_or_row_metadata_changed : TerminalPatchChanges → Bool
rows_or_row_metadata_changed c =
    c.rows_changed || c.row_runs_changed || c.semantic_prompts_changed || c.dirty_rows_changed
    || c.kitty_placeholders_changed

unfoldable pub terminal_patch_kind : TerminalPatchChanges → PatchKind
terminal_patch_kind c =
    let rows = rows_or_row_metadata_changed c in
    if c.force_full_refresh
      || c.row_count_changed
      || c.surface_kind_changed
      || c.styles_changed
      || (c.colors_changed && rows)
    then PatchKind.full_refresh_required
    else if rows
    then PatchKind.replace_rows
    else if c.colors_changed
    then PatchKind.color_only
    else if c.modes_changed
    then PatchKind.mode_only
    else if c.cursor_changed || c.title_changed || c.working_directory_changed
    then PatchKind.cursor_only
    else c.requested

unfoldable pub surface_changed : TerminalPatchChanges → Bool
surface_changed c =
    c.force_full_refresh
    || c.surface_kind_changed
    || c.styles_changed
    || rows_or_row_metadata_changed c
    || c.cursor_changed
    || c.modes_changed
    || c.title_changed
    || c.working_directory_changed
    || c.colors_changed

unfoldable pub patch_changes : PaneState → TerminalUpdate → Rows → Bool → TerminalPatchChanges
patch_changes p u new force = record {
  force_full_refresh = force;
  requested = u.patch_kind;
  row_count_changed = force && length p.surface_lines != min (length u.surface_lines) p.rows;
  rows_changed = p.surface_lines != u.surface_lines;
  row_runs_changed = p.surface_row_runs != new.runs;
  semantic_prompts_changed = p.surface_semantic_prompts != new.prompts;
  dirty_rows_changed = p.surface_dirty_rows != new.dirty;
  kitty_placeholders_changed = p.surface_kitty_placeholders != new.placeholders;
  surface_kind_changed = p.surface != u.surface;
  styles_changed = p.styles != u.styles;
  cursor_changed = p.cursor != of_terminal_cursor u.cursor;
  modes_changed = p.modes != u.modes;
  title_changed = p.terminal_title != u.title;
  working_directory_changed = p.terminal_working_directory != u.working_directory;
  colors_changed = p.colors != u.colors;
}

unfoldable pub row_changed : Rows → Rows → ℕ → Bool
row_changed old new row =
    get_elem? old.lines row != get_elem? new.lines row
    || get_elem? old.runs row != get_elem? new.runs row
    || get_elem? old.prompts row != get_elem? new.prompts row
    || get_elem? old.dirty row != get_elem? new.dirty row
    || get_elem? old.placeholders row != get_elem? new.placeholders row

-- The changed ones among `count` rows from `row` on.
unfoldable pub changed_rows : Rows → Rows → ℕ → ℕ → List ℕ
changed_rows old new row zero = []
changed_rows old new row (suc count) =
    let rest = changed_rows old new (row + 1) count in
    if row_changed old new row then as_u32 row ∷ rest else rest

unfoldable pub surface_row_update_indices : PaneState → Rows → Bool → List ℕ
unfolding changed_rows all_row_indices
surface_row_update_indices p new force =
    if force
    then all_row_indices p.rows
    else if length p.surface_lines != length new.lines
    then all_row_indices (length new.lines)
    else changed_rows (surface_of p) new 0 (length new.lines)

unfoldable pub scrollback_changed : PaneState → TerminalUpdate → Bool
scrollback_changed p u =
    if u.preserve_scrollback then false else rows_differ (scrollback_of p) (updated_scrollback u)

unfoldable pub write_scrollback : PaneState → TerminalUpdate → PaneState
write_scrollback p u =
    let new = updated_scrollback u in
    if u.preserve_scrollback then p else record p {
      scrollback_lines = new.lines;
      scrollback_row_runs = new.runs;
      scrollback_semantic_prompts = new.prompts;
      scrollback_dirty_rows = new.dirty;
      scrollback_kitty_placeholders = new.placeholders;
    }

-- The parallel vectors are cut to the rows of the pane.
unfoldable pub write_surface : PaneState → TerminalUpdate → Rows → PaneState
write_surface p u new = record p {
  surface = u.surface;
  modes = u.modes;
  terminal_title = u.title;
  terminal_working_directory = u.working_directory;
  colors = u.colors;
  styles = u.styles;
  surface_lines = take p.rows new.lines;
  surface_row_runs = take p.rows new.runs;
  surface_semantic_prompts = take p.rows new.prompts;
  surface_dirty_rows = take p.rows new.dirty;
  surface_kitty_placeholders = take p.rows new.placeholders;
  cursor = of_terminal_cursor u.cursor;
}

unfoldable pub bump_scrollback : Bool → PaneState → PaneState
bump_scrollback true p = record p { scrollback_version = saturating_add64 p.scrollback_version 1 }
bump_scrollback false p = p

unfoldable pub keep_below : ℕ → List ℕ → List ℕ
keep_below n [] = []
keep_below n (i ∷ is) = let rest = keep_below n is in if ltb i n then i ∷ rest else rest

-- The version and the kind of the patch that clients are sent.
unfoldable pub record_patch : Bool → PatchKind → Option PaletteDiff → List ℕ → PaneState → PaneState
unfolding keep_below
record_patch true kind diff indices p = record p {
  surface_version = saturating_add64 p.surface_version 1;
  last_patch_kind = kind;
  last_palette_diff = if kind == PatchKind.color_only then diff else none;
  last_row_update_indices =
      if kind == PatchKind.replace_rows then keep_below p.rows indices else [];
}
record_patch false kind diff indices p = record p { last_palette_diff = none }

unfoldable pub apply_terminal_update : PaneState → TerminalUpdate → Bool → PaneState × Bool
unfolding write_scrollback write_surface bump_scrollback record_patch
apply_terminal_update p u force =
    let new = updated_surface u in
    let changes = patch_changes p u new force in
    let surface = surface_changed changes in
    let scrollback = scrollback_changed p u in
    (
      record_patch surface (terminal_patch_kind changes)
          (palette_diff p.colors.palette_rgba u.colors.palette_rgba)
          (surface_row_update_indices p new force)
          (bump_scrollback scrollback (write_surface (write_scrollback p u) u new)),
      surface || scrollback,
    )
