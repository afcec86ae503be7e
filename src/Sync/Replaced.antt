-- ===== src/Sync/Replaced.antt =====
-- The patch of rows that a report records, on the surface that showed the pane before.
use nmux.Base.{
  ℕ, ◌^◌, ◌≡◌, ◌<◌, ◌≤◌, ◌∙◌, ◌==◌, refl, sym, ap, subst, min, true, false, List, [], map, length,
  length-take, arith, All, dec_lt, u64_max, if◌then◌else◌,
}
use nmux.Protocol.{PatchKind, PatchKind-DecEq, PatchKind-discrete}
use nmux.Terminal.{TerminalUpdate}
use nmux.Session.{PaneState}
use nmux.Session.Update.{
  Rows, updated_surface, rows_for_lines, apply_terminal_update, surface_changed, patch_changes,
  terminal_patch_kind, TerminalPatchChanges, surface_row_update_indices, keep_below,
}
use nmux.Session.Update.Aligned.{surface-apply_terminal_update}
use nmux.Session.Update.Patch.{replace_rows_complete, replace_rows_lem}
use nmux.Client.Surface.{ok, SurfaceRowUpdate}
use nmux.Client.Surface.Validate.{
  validate_row_update_indices, validate_row_update_style_ids, validate_row_update_hyperlink_ids,
}
use nmux.Client.Surface.Rows.{apply_rows}
use nmux.Client.Surface.Patch.{apply_update}
use nmux.Client.Surface.Snapshot.{styles_or_default}
use nmux.Sync.Mirror.{
  mirror, mirror_row, mirror_frame, mirror_colors, mirror_style, fill, IsConsistent, IsSendable,
}
use nmux.Sync.Delivery.{
  Delivers, All-Delivers, IsAccepted, lists, length-tabulate, indices_ok, style_ids_ok,
  hyperlink_ids_ok,
}
use nmux.Sync.Apply.{apply_rows-fill}
use nmux.Sync.Sent.{IsRising, sent, lists-sent}
use nmux.Sync.Listed.{accepted_default, length-styles}
use nmux.Sync.Snapshot.{blank_behind}
use nmux.Sync.Rising.{keep_below-IsRising, surface_row_update_indices-IsRising}
use nmux.Sync.Patch.{patch_of, decode_rows_patch, rows_delivered, payload_ok, row_enums}
use nmux.Sync.Patched.{moved_modes, apply_rows_patch_lem}
use nmux.Sync.Changes.{written, recorded, kept_colors, kept_styles}
use nmux.Sync.Kept.{mirror_moved, SameRow-mirror_row}
use nmux.Sync.Kinds.{Patches, same_frame}

module _ (p : PaneState) (u : TerminalUpdate) where
  abbrev changes : TerminalPatchChanges
  changes = patch_changes p u (updated_surface u) false

  abbrev after : PaneState
  after = (apply_terminal_update p u false).0

  abbrev rows : List SurfaceRowUpdate
  rows = map (sent after) after.last_row_update_indices

  length-updated : length (updated_surface u).lines ≡ length u.surface_lines
  unfolding updated_surface rows_for_lines
  length-updated = refl

  length-after : length after.surface_lines ≡ min p.rows (length u.surface_lines)
  length-after =
      ap (λ (r : Rows). length r.lines) (surface-apply_terminal_update p u false)
      ∙ length-take p.rows (updated_surface u).lines
      ∙ ap (min p.rows) length-updated

  module _ (changed : surface_changed changes ≡ true)
      (kind : terminal_patch_kind changes ≡ PatchKind.replace_rows)
      (short : length u.surface_lines < 2 ^ 32) where
    flags :
        (changes.styles_changed ≡ false)
        × (changes.colors_changed ≡ false)
        × (changes.surface_kind_changed ≡ false)
    unfolding patch_changes
    flags = replace_rows_lem changes changed kind refl

    listed :
        after.last_row_update_indices
        ≡ keep_below p.rows (surface_row_update_indices p (updated_surface u) false)
    unfolding PatchKind-discrete
    listed =
        (recorded p u false changed).3
        ∙ ap
            (λ (d : PatchKind).
              if d == PatchKind.replace_rows
              then keep_below p.rows (surface_row_update_indices p (updated_surface u) false)
              else [])
            kind

    rising : IsRising (length after.surface_lines) 0 after.last_row_update_indices
    rising =
        let r =
          keep_below-IsRising p.rows (length (updated_surface u).lines) 0
            (surface_row_update_indices p (updated_surface u) false)
            (surface_row_update_indices-IsRising p (updated_surface u)
              (omega (arith, short, length-updated))) in
        rw (length-after, listed)
          (subst
            (λ n.
              IsRising (min p.rows n) 0
                (keep_below p.rows (surface_row_update_indices p (updated_surface u) false)))
            length-updated r)

    module _ (cp : IsConsistent p) (ca : IsConsistent after) (sa : IsSendable after)
        (room : p.surface_version < u64_max)
        (covers : length p.surface_lines ≤ length u.surface_lines) where
      delivered : Delivers (length after.styles) p.rows (mirror_row after) 0 rows
      delivered =
          subst (λ n. Delivers (length after.styles) n (mirror_row after) 0 rows)
            (written p u false).2
            (rows_delivered after ca sa p.surface_version after.last_palette_diff
              after.last_row_update_indices rising)

      unlisted : (i : ℕ) → i < p.rows → lists i rows ≡ false → mirror_row p i ≡ mirror_row after i
      unlisted i h e = elim (dec_lt i (length u.surface_lines)) [
        | no k ↦
            sym (blank_behind p i (omega arith))
            ∙ blank_behind after i (omega (arith, length-after))
        | yes l ↦ SameRow-mirror_row p after i (
            replace_rows_complete p u i h (omega (arith, length-updated)) (omega (arith, short))
              (omega (arith, (recorded p u false changed).0))
              ((recorded p u false changed).1 ∙ kind)
              (sym (lists-sent after i after.last_row_update_indices) ∙ e))
      ]

      accepted : All (IsAccepted (length (map mirror_style p.styles))) rows
      accepted =
          subst (λ n. All (IsAccepted n) rows)
            (ap length (kept_styles p u false flags.0) ∙ sym (length-styles p.styles))
            (All-Delivers _ _ _ 0 _ delivered)

      applied :
          apply_rows rows (mirror p) ≡ (ok tt, fill (mirror_frame p) p.rows (mirror_row after))
      unfolding mirror
      applied =
          apply_rows-fill (mirror_frame p) p.rows (length after.styles) 0 rows (mirror_row after)
            (mirror_row p) delivered unlisted

      checks_pass :
          (validate_row_update_indices rows (length (mirror p).row_text) ≡ ok tt)
          × (validate_row_update_style_ids rows (mirror p).styles ≡ ok tt)
          × (validate_row_update_hyperlink_ids rows (mirror p).hyperlinks ≡ ok tt)
      unfolding mirror
      checks_pass = (
        rw (length-tabulate p.rows (λ i. (mirror_row p i).text))
            (indices_ok (length after.styles) p.rows (mirror_row after) rows delivered),
        style_ids_ok (styles_or_default (map mirror_style p.styles)) rows
            (accepted_default (map mirror_style p.styles) rows accepted),
        hyperlink_ids_ok (map mirror_style p.styles) rows accepted,
      )

      -- The written surface takes over the rest.
      taken_over :
          moved_modes after (fill (mirror_frame p) p.rows (mirror_row after)) ≡ mirror after
      taken_over =
          let (s, e, k) = flags in
          ap
            (λ t. record (moved_modes after (fill (mirror_frame p) p.rows (mirror_row after))) {
              colors = mirror_colors t;
            })
            (sym (kept_colors p u false e))
          ∙ mirror_moved p after (mirror_row after) (same_frame p u false s k) (λ i h. refl)

      pub rows_case : Patches after p.surface_version (mirror p)
      unfolding mirror apply_update
      rows_case =
          let base = p.surface_version in
          let diff = after.last_palette_diff in
          let is = after.last_row_update_indices in
          (
            patch_of after PatchKind.replace_rows base rows (mirror_colors after.colors),
            rw ((recorded p u false changed).1 ∙ kind)
                (decode_rows_patch after ca sa base diff is rising),
            apply_rows_patch_lem after ca sa base (mirror p) (written p u false).0 refl rows
                  (fill (mirror_frame p) p.rows (mirror_row after))
                  (row_enums after ca sa base diff is rising) checks_pass.0 checks_pass.1
                  checks_pass.2 applied (ap mirror_colors (kept_colors p u false flags.1))
                  (payload_ok after ca sa base diff is rising rows)
                ∙ ap (λ t. (ok tt, t)) taken_over,
          )
