-- ===== src/Sync/Patch.antt =====
-- A patch of a pane, sent, decoded and applied to a surface of the version before.
use nmux.Base.{
  ℕ, ◌≡◌, refl, false, Option, none, some, List, [], map, length, arith, Option-discrete, ℕ-DecEq,
  List-DecEq, Option-DecEq,
}
use nmux.Protocol.{PatchKind, PatchKind-DecEq, PatchKind-discrete}
use nmux.Session.{PaneState, PaletteDiff}
use nmux.Session.Frame.{
  surface_of_pane, build_patch, build_terminal_modes, build_terminal_metadata,
  build_terminal_colors,
}
use nmux.Client.Surface.{
  ok, SurfaceUpdate, SurfaceUpdateKind, SurfaceRowUpdate, TerminalColorSummary,
  TerminalColorSummary-DecEq,
}
use nmux.Client.Surface.Validate.{
  validate_patch_kind, validate_palette_diff_scope, terminal_colors_have_palette_diff,
  palette_diff_allowed, validate_no_row_patch_payload, validate_row_update_terminal_enums, for_each,
}
use nmux.Client.Surface.Decode.{
  color_summary, decoded_terminal_colors, cursor_summary, mode_summary, render_decoded_rows,
  patch_update,
}
use nmux.Sync.Mirror.{
  mirror_row, mirror_cursor, mirror_modes, mirror_colors, mirror_style, IsConsistent, IsSendable,
}
use nmux.Sync.Delivery.{Delivers, All-Delivers, enums_ok}
use nmux.Sync.Sent.{IsRising, sent, sent-Delivers}
use nmux.Sync.Listed.{map-decoded, length-styles}
use nmux.Sync.Snapshot.{cursor_ok, modes_ok, id_ok}

-- What the client decodes of a patch.
abbrev pub patch_of :
    PaneState → PatchKind → ℕ → List SurfaceRowUpdate → TerminalColorSummary → SurfaceUpdate
patch_of q kind base_version rows colors = record {
  kind = SurfaceUpdateKind.patch;
  pane_id = q.id;
  version = q.surface_version;
  base_version = some base_version;
  patch_kind = some kind;
  cols = none;
  rows = none;
  surface = none;
  cursor = some (mirror_cursor q.cursor);
  modes = mirror_modes q.modes;
  title = q.terminal_title;
  working_directory = q.terminal_working_directory;
  colors = some colors;
  row_updates = rows;
  styles = [];
  hyperlinks = [];
  text = render_decoded_rows rows;
}

-- The colours of a patch that carries no full palette.
abbrev pub diff_colors : PaneState → Option PaletteDiff → TerminalColorSummary
diff_colors q diff = color_summary (build_terminal_colors q.colors diff false)

module _ (q : PaneState) (c : IsConsistent q) (a : IsSendable q) (base : ℕ)
    (diff : Option PaletteDiff) (is : List ℕ) where
  pub decode_cursor_patch :
      patch_update (build_patch (surface_of_pane q) PatchKind.cursor_only is diff base)
      ≡ ok (patch_of q PatchKind.cursor_only base [] (mirror_colors q.colors))
  unfolding patch_update build_patch surface_of_pane PatchKind-discrete build_terminal_colors
      build_terminal_modes build_terminal_metadata decoded_terminal_colors color_summary
      cursor_summary mode_summary validate_patch_kind validate_palette_diff_scope
      terminal_colors_have_palette_diff validate_no_row_patch_payload
      validate_row_update_terminal_enums for_each
  decode_cursor_patch = rw (cursor_ok q c a, modes_ok q c a, id_ok q c a) refl

  pub decode_mode_patch :
      patch_update (build_patch (surface_of_pane q) PatchKind.mode_only is diff base)
      ≡ ok (patch_of q PatchKind.mode_only base [] (mirror_colors q.colors))
  unfolding patch_update build_patch surface_of_pane PatchKind-discrete build_terminal_colors
      build_terminal_modes build_terminal_metadata decoded_terminal_colors color_summary
      cursor_summary mode_summary validate_patch_kind validate_palette_diff_scope
      terminal_colors_have_palette_diff validate_no_row_patch_payload
      validate_row_update_terminal_enums for_each
  decode_mode_patch = rw (cursor_ok q c a, modes_ok q c a, id_ok q c a) refl

  pub color_scope_ok :
      (colors : TerminalColorSummary)
      → validate_palette_diff_scope SurfaceUpdateKind.patch
          (some PatchKind.color_only)
          (some colors)
        ≡ ok tt
  unfolding validate_palette_diff_scope palette_diff_allowed PatchKind-discrete Option-discrete
  color_scope_ok colors = ground arith

  pub decode_color_patch :
      patch_update (build_patch (surface_of_pane q) PatchKind.color_only is diff base)
      ≡ ok (patch_of q PatchKind.color_only base [] (diff_colors q diff))
  unfolding patch_update build_patch surface_of_pane PatchKind-discrete build_terminal_modes
      build_terminal_metadata decoded_terminal_colors cursor_summary mode_summary
      validate_patch_kind validate_no_row_patch_payload validate_row_update_terminal_enums for_each
  decode_color_patch =
      rw (cursor_ok q c a, modes_ok q c a, id_ok q c a, color_scope_ok (diff_colors q diff)) refl

  module _ (rising : IsRising (length q.surface_lines) 0 is) where
    pub rows_delivered : Delivers (length q.styles) q.rows (mirror_row q) 0 (map (sent q) is)
    rows_delivered = sent-Delivers q c a 0 is rising

    pub row_enums : validate_row_update_terminal_enums (map (sent q) is) ≡ ok tt
    row_enums =
        enums_ok (map mirror_style q.styles) (map (sent q) is)
          (rw (length-styles q.styles) (All-Delivers _ _ _ 0 _ rows_delivered))

    pub payload_ok :
        (rows : List SurfaceRowUpdate)
        → validate_no_row_patch_payload PatchKind.replace_rows rows ≡ ok tt
    unfolding validate_no_row_patch_payload
    payload_ok rows = ground arith

    pub decode_rows_patch :
        patch_update (build_patch (surface_of_pane q) PatchKind.replace_rows is diff base)
        ≡ ok (patch_of q PatchKind.replace_rows base (map (sent q) is) (mirror_colors q.colors))
    unfolding patch_update build_patch surface_of_pane PatchKind-discrete build_terminal_colors
        build_terminal_modes build_terminal_metadata decoded_terminal_colors color_summary
        cursor_summary mode_summary validate_patch_kind validate_palette_diff_scope
        terminal_colors_have_palette_diff
    decode_rows_patch =
        rw
          (
            map-decoded (surface_of_pane q) is,
            row_enums,
            payload_ok (map (sent q) is),
            cursor_ok q c a,
            modes_ok q c a,
            id_ok q c a,
          )
          refl
