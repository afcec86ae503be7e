-- ===== src/Sync/Snapshot.antt =====
-- A snapshot of a pane, sent and decoded.
use nmux.Base.{
  ℕ, ◌+◌, ◌^◌, ◌≡◌, ◌<◌, ◌≤◌, ◌∙◌, refl, sym, ap, false, none, some, List, [], map, length,
  get_elem?, All, arith, dec_lt,
}
use nmux.Protocol.{RowSemanticPrompt}
use nmux.Terminal.{CellRun}
use nmux.Session.{PaneState, indices_from}
use nmux.Session.Frame.{
  surface_of_pane, snapshot_rows, build_snapshot, build_terminal_modes, build_terminal_metadata,
  build_terminal_colors,
}
use nmux.Client.Surface.{ok, SurfaceUpdate, SurfaceUpdateKind}
use nmux.Client.Surface.Decode.{
  decoded_surface_row, decoded_hyperlinks, hyperlinks_of, color_summary, decoded_terminal_colors,
  cursor_summary, mode_summary, required_string, render_decoded_rows, snapshot_update,
}
use nmux.Client.Surface.Snapshot.{from_snapshot, sized_snapshot, blank_surface, styles_or_default}
use nmux.Sync.Mirror.{
  mirror, mirror_row, mirror_frame, seen_row, fill, blank_row, mirror_style, mirror_cursor,
  mirror_modes, mirror_colors, IsConsistent, IsSendable,
}
use nmux.Sync.Delivery.{
  Delivers, All-Delivers, IsAccepted, enums_ok, style_ids_ok, hyperlink_ids_ok, indices_ok,
  tabulate-replicate, lists,
}
use nmux.Client.Surface.Validate.{
  validate_surface_kind, validate_cursor_summary, validate_terminal_mode_summary,
  validate_hyperlink_table, hyperlinks_from, validate_palette_diff_scope,
  terminal_colors_have_palette_diff,
}
use nmux.Client.Surface.Rows.{apply_rows}
use nmux.Session.Update.Patch.{listed_indices_from}
use nmux.Sync.Apply.{apply_rows-fill}
use nmux.Sync.Sent.{stored, sent, sent-Delivers, lists-sent}
use nmux.Sync.Listed.{
  rows_of_snapshot, indices_from-IsRising, map-decoded, decode-build_style, length-styles,
  get_elem?-none, accepted_default,
}

-- What the client decodes of a snapshot.
abbrev snapshot_of : PaneState → SurfaceUpdate
snapshot_of p =
    let rows = map (sent p) (indices_from 0 (length p.surface_lines)) in
    let m = mirror p in
    record {
      kind = SurfaceUpdateKind.snapshot;
      pane_id = p.id;
      version = p.surface_version;
      base_version = none;
      patch_kind = none;
      cols = some p.cols;
      rows = some p.rows;
      surface = some p.surface;
      cursor = some (mirror_cursor p.cursor);
      modes = mirror_modes p.modes;
      title = p.terminal_title;
      working_directory = p.terminal_working_directory;
      colors = some (mirror_colors p.colors);
      row_updates = rows;
      styles = map mirror_style p.styles;
      hyperlinks = [];
      text = render_decoded_rows rows;
    }

pub blank_behind : (p : PaneState) (i : ℕ) → length p.surface_lines ≤ i → blank_row ≡ mirror_row p i
unfolding mirror_row seen_row
blank_behind p i h = rw (get_elem?-none p.surface_lines i h) refl

module _ (p : PaneState) (c : IsConsistent p) (a : IsSendable p) where
  short : length p.surface_lines ≤ 2 ^ 32
  short = omega (arith, c.aligned.fits, a.rows)

  delivered :
      Delivers
        (length (map mirror_style p.styles))
        p.rows
        (mirror_row p)
        0
        (snapshot_of p).row_updates
  delivered = rw (length-styles p.styles) (
      sent-Delivers p c a 0 (indices_from 0 (length p.surface_lines)) (
        indices_from-IsRising (length p.surface_lines) (length p.surface_lines) 0 (omega arith)
          short))

  decoded_rows :
      map decoded_surface_row
        (snapshot_rows (surface_of_pane p) 0 (surface_of_pane p).lines (surface_of_pane p).row_runs)
      ≡ (snapshot_of p).row_updates
  unfolding surface_of_pane
  decoded_rows =
      ap (map decoded_surface_row) (
        ap (snapshot_rows (surface_of_pane p) 0 p.surface_lines) (stored p c).0
        ∙ rows_of_snapshot (surface_of_pane p) 0 p.surface_lines p.surface_row_runs
            (λ i. ap (get_elem? p.surface_lines) (omega arith))
            (λ i.
              ap (λ (r : List (List CellRun)). get_elem? r (0 + i)) (stored p c).0
              ∙ ap (get_elem? p.surface_row_runs) (omega arith))
            c.aligned.surface.0 (omega (arith, short)))
      ∙ map-decoded (surface_of_pane p) (indices_from 0 (length p.surface_lines))

  accepted : All (IsAccepted (length (map mirror_style p.styles))) (snapshot_of p).row_updates
  accepted = All-Delivers _ _ _ 0 _ delivered

  kind_ok : validate_surface_kind p.surface ≡ ok tt
  unfolding validate_surface_kind
  kind_ok = rw a.surface refl

  pub cursor_ok : validate_cursor_summary (some (mirror_cursor p.cursor)) ≡ ok tt
  unfolding validate_cursor_summary
  cursor_ok = rw a.shape refl

  pub modes_ok : validate_terminal_mode_summary (mirror_modes p.modes) ≡ ok tt
  unfolding validate_terminal_mode_summary
  modes_ok = rw (a.tracking, a.format) refl

  pub id_ok : required_string (some p.id) ≡ ok p.id
  unfolding required_string
  id_ok = rw a.named refl

  pub snapshot_update_lem :
      snapshot_update (build_snapshot (surface_of_pane p)) ≡ ok (snapshot_of p)
  unfolding snapshot_update build_snapshot surface_of_pane hyperlinks_of decoded_hyperlinks
      validate_hyperlink_table hyperlinks_from decoded_terminal_colors color_summary
      build_terminal_colors build_terminal_modes build_terminal_metadata cursor_summary mode_summary
      validate_palette_diff_scope terminal_colors_have_palette_diff
  snapshot_update_lem =
      rw
        (
          decoded_rows,
          decode-build_style p.styles,
          kind_ok,
          enums_ok (map mirror_style p.styles) (snapshot_of p).row_updates accepted,
          style_ids_ok (map mirror_style p.styles) (snapshot_of p).row_updates accepted,
          hyperlink_ids_ok (map mirror_style p.styles) (snapshot_of p).row_updates accepted,
          cursor_ok,
          modes_ok,
          id_ok,
        )
        refl

  blank :
      blank_surface (snapshot_of p) p.cols p.rows ≡ fill (mirror_frame p) p.rows (λ i. blank_row)
  unfolding blank_surface
  blank i = record (mirror_frame p) {
    row_text = sym (tabulate-replicate p.rows []) i;
    row_runs = sym (tabulate-replicate p.rows []) i;
    row_dirty_hashes = sym (tabulate-replicate p.rows 0) i;
    row_semantic_prompts = sym (tabulate-replicate p.rows RowSemanticPrompt.none) i;
    row_dirty = sym (tabulate-replicate p.rows false) i;
    row_kitty_placeholders = sym (tabulate-replicate p.rows false) i;
    row_state_hashes = sym (tabulate-replicate p.rows 0) i;
  }

  unlisted :
      (i : ℕ)
      → i < p.rows
      → lists i (snapshot_of p).row_updates ≡ false
      → blank_row ≡ mirror_row p i
  unlisted i h e = elim (dec_lt i (length p.surface_lines)) [
    | no k ↦ blank_behind p i (omega arith)
    | yes l ↦
        let n = length p.surface_lines in
        let t = listed_indices_from i 0 n (omega arith) (omega arith) (omega (arith, short)) in
        cc (t, e, lists-sent p i (indices_from 0 n))
  ]

  rows_written :
      apply_rows (snapshot_of p).row_updates (fill (mirror_frame p) p.rows (λ i. blank_row))
      ≡ (ok tt, mirror p)
  unfolding mirror
  rows_written =
      apply_rows-fill (mirror_frame p) p.rows (length (map mirror_style p.styles)) 0
        (snapshot_of p).row_updates (mirror_row p) (λ i. blank_row) delivered unlisted

  pub from_snapshot_lem : from_snapshot (snapshot_of p) ≡ ok (mirror p)
  unfolding from_snapshot sized_snapshot validate_palette_diff_scope
      terminal_colors_have_palette_diff validate_hyperlink_table hyperlinks_from
  from_snapshot_lem =
      let styles = styles_or_default (map mirror_style p.styles) in
      let us = (snapshot_of p).row_updates in
      rw
        (
          blank,
          kind_ok,
          cursor_ok,
          modes_ok,
          indices_ok (length (map mirror_style p.styles)) p.rows (mirror_row p) us delivered,
          style_ids_ok styles us (accepted_default (map mirror_style p.styles) us accepted),
          hyperlink_ids_ok styles us (accepted_default (map mirror_style p.styles) us accepted),
          rows_written,
        )
        refl
