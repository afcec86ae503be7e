-- ===== src/Client/Surface/Patch.antt =====
-- `ClientPaneSurface::apply_patch` and `apply_update` (crates/nmux-cli/src/local/surface.rs), which
-- change the surface in place: what was written before an error stays written.
pub mod Clean
pub mod Framed
pub mod Parallel
use nmux.Base.{
  ℕ, ◌==◌, ◌!=◌, ◌&&◌, not, ltb, Bool, true, false, Option, none, some, List, [], ◌∷◌, ◌++◌, take,
  length, is_empty, is_some, if◌then◌else◌, ℕ-DecEq, List-DecEq, Option-DecEq,
}
use nmux.Protocol.{PatchKind, PatchKind-DecEq}
use nmux.Client.Surface.{
  SurfaceError, Result, ok, err, raise_if, ok_or, SurfaceUpdateKind, SurfaceUpdate,
  ClientPaneSurface, TerminalColorSummary, TerminalColorSummary-DecEq,
}
use nmux.Client.Surface.Validate.{
  validate_patch_kind, validate_palette_diff_scope, validate_cursor_summary,
  validate_terminal_mode_summary, validate_no_row_patch_payload, validate_row_update_terminal_enums,
  validate_row_update_indices, validate_row_update_style_ids, validate_row_update_hyperlink_ids,
}
use nmux.Client.Surface.Rows.{apply_rows}
use nmux.Client.Surface.Snapshot.{from_snapshot}

abbrev pub Action : Type 0 → Type 0
Action A = ClientPaneSurface → Result A × ClientPaneSurface

infixl 5 ◌>>=◌ ◌>>◌
abbrev pub ◌>>=◌ : {A B : Type 0} → Action A → (A → Action B) → Action B
◌>>=◌ m f s = let (r, s') = m s in elim r [ ok a ↦ f a s' | err e ↦ (err e, s') ]

abbrev pub ◌>>◌ : {A B : Type 0} → Action A → Action B → Action B
m >> k = m >>= λ _. k

abbrev pub lift : {A : Type 0} → Result A → Action A
lift r s = (r, s)

abbrev pub current : Action ClientPaneSurface
current s = (ok s, s)

abbrev pub modify : (ClientPaneSurface → ClientPaneSurface) → Action Unit
modify f s = (ok tt, f s)

abbrev with_palette : TerminalColorSummary → List ℕ → TerminalColorSummary
with_palette c palette = record c {
  palette_rgba = palette;
  palette_diff_start = none;
  palette_diff_rgba = [];
}

unfoldable pub materialize :
    TerminalColorSummary → TerminalColorSummary → Result TerminalColorSummary
materialize c base = elim c.palette_diff_start [
  | some start ↦
      if ltb (length base.palette_rgba) start
      then err SurfaceError.palette_diff_start
      else ok (with_palette c (take start base.palette_rgba ++ c.palette_diff_rgba))
  | none ↦
      ok (with_palette c (if is_empty c.palette_rgba then base.palette_rgba else c.palette_rgba))
]

-- `if let Some(colors) = update.colors.as_ref() && colors != &self.colors`.
abbrev pub colors_differ : Option TerminalColorSummary → TerminalColorSummary → Bool
colors_differ none old = false
colors_differ (some c) old = c != old

abbrev pub write_cursor : SurfaceUpdate → ClientPaneSurface → ClientPaneSurface
write_cursor u s = record s {
  cursor = u.cursor;
  title = u.title;
  working_directory = u.working_directory;
  version = u.version;
}

abbrev pub write_modes : SurfaceUpdate → ClientPaneSurface → ClientPaneSurface
write_modes u s = record (write_cursor u s) { modes = u.modes }

unfoldable pub apply_cursor_patch : SurfaceUpdate → Action Unit
apply_cursor_patch u = do
  s ← current
  lift (raise_if (colors_differ u.colors s.colors) SurfaceError.cursor_only_colors)
  modify (write_cursor u)

unfoldable pub apply_mode_patch : SurfaceUpdate → Action Unit
apply_mode_patch u = do
  s ← current
  lift (raise_if (colors_differ u.colors s.colors) SurfaceError.mode_only_colors)
  modify (write_modes u)

unfoldable pub apply_color_patch : SurfaceUpdate → Action Unit
unfolding materialize
apply_color_patch u = do
  s ← current
  colors ← lift (ok_or u.colors SurfaceError.missing_colors)
  colors' ← lift (materialize colors s.colors)
  modify (λ s. record (write_modes u s) { colors = colors' })

unfoldable pub apply_rows_patch : SurfaceUpdate → Action Unit
apply_rows_patch u = do
  s ← current
  lift (raise_if (colors_differ u.colors s.colors) SurfaceError.replace_rows_colors)
  lift (validate_row_update_terminal_enums u.row_updates)
  lift (validate_row_update_indices u.row_updates (length s.row_text))
  lift (validate_row_update_style_ids u.row_updates s.styles)
  lift (validate_row_update_hyperlink_ids u.row_updates s.hyperlinks)
  apply_rows u.row_updates
  modify (write_modes u)

-- The steps of `apply_patch` that a known patch kind selects, in their order.
unfoldable pub apply_kind : SurfaceUpdate → Action Unit
unfolding apply_cursor_patch apply_mode_patch apply_color_patch apply_rows_patch
apply_kind u =
    if u.patch_kind == some PatchKind.full_refresh_required
    then lift (err SurfaceError.full_refresh_required)
    else if u.patch_kind == some PatchKind.cursor_only
    then apply_cursor_patch u
    else if u.patch_kind == some PatchKind.mode_only
    then apply_mode_patch u
    else if u.patch_kind == some PatchKind.color_only
    then apply_color_patch u
    else if u.patch_kind != some PatchKind.replace_rows
    then lift (err SurfaceError.unsupported_patch_kind)
    else apply_rows_patch u

-- `if let Some(patch_kind) = update.patch_kind`.
abbrev pub when_some : Option PatchKind → (PatchKind → Result Unit) → Result Unit
when_some none check = ok tt
when_some (some kind) check = check kind

-- The checks before anything is written.
unfoldable pub validate_patch : SurfaceUpdate → Action Unit
validate_patch u = do
  s ← current
  lift (raise_if (u.pane_id != s.pane_id) SurfaceError.pane_mismatch)
  lift (raise_if (u.base_version != some s.version) SurfaceError.base_version_mismatch)
  lift (when_some u.patch_kind validate_patch_kind)
  lift (validate_palette_diff_scope u.kind u.patch_kind u.colors)
  lift (validate_cursor_summary u.cursor)
  lift (validate_terminal_mode_summary u.modes)
  lift (raise_if (not (is_empty u.hyperlinks)) SurfaceError.hyperlink_table_change)
  lift (when_some u.patch_kind (λ kind. validate_no_row_patch_payload kind u.row_updates))

unfoldable pub apply_patch : SurfaceUpdate → Action Unit
unfolding validate_patch apply_kind
apply_patch u = do validate_patch u; apply_kind u

unfoldable pub apply_update : SurfaceUpdate → Action Unit
unfolding apply_patch from_snapshot
apply_update u = elim u.kind [
  | SurfaceUpdateKind.snapshot ↦ do s ← lift (from_snapshot u); modify (λ _. s)
  | SurfaceUpdateKind.patch ↦ apply_patch u
]
