-- ===== src/Sync/Kinds.antt =====
-- Each kind of patch that a report records, on the surface that showed the pane before.
use nmux.Base.{
  ℕ, ◌^◌, ◌≡◌, ◌<◌, ◌≤◌, ◌∙◌, ◌==◌, refl, sym, ap, Bool, true, false, none, some, [], length,
  if◌then◌else◌,
}
use nmux.Protocol.{PatchKind, PatchKind-DecEq, PatchKind-discrete}
use nmux.Terminal.{TerminalUpdate, TerminalColors}
use nmux.Session.{PaneState}
use nmux.Session.Update.{
  updated_surface, apply_terminal_update, surface_changed, patch_changes, terminal_patch_kind,
  TerminalPatchChanges, palette_diff,
}
use nmux.Session.Frame.{surface_of_pane, build_patch}
use nmux.Client.Surface.{ok, ClientPaneSurface, SurfaceUpdate}
use nmux.Client.Surface.Decode.{patch_update}
use nmux.Client.Surface.Patch.{apply_update}
use nmux.Sync.Mirror.{
  mirror, mirror_row, mirror_cursor, mirror_modes, mirror_colors, IsConsistent, IsSendable,
}
use nmux.Sync.Patch.{
  patch_of, diff_colors, decode_cursor_patch, decode_mode_patch, decode_color_patch,
}
use nmux.Sync.Patched.{
  moved_cursor, moved_modes, apply_cursor_patch_lem, apply_mode_patch_lem, apply_color_patch_lem,
}
use nmux.Sync.Changes.{
  KeepsRows, cursor_only_lem, mode_only_lem, color_only_lem, quiet_lem, written, recorded, silent,
  kept_rows, kept_styles, kept_kind, kept_colors, kept_modes, kept_cursor, kept_title,
  kept_directory,
}
use nmux.Sync.Palette.{materialize-palette_diff}
use nmux.Sync.Kept.{IsSameFrame, mirror_moved, surface_of-mirror_row}

-- A patch of `q` from the version `base` that turns the surface `s` into the one that shows `q`.
abbrev pub Patches : PaneState → ℕ → ClientPaneSurface → Type 0
Patches q base s =
    (u : SurfaceUpdate) × (patch_update (
        build_patch (surface_of_pane q) q.last_patch_kind q.last_row_update_indices
          q.last_palette_diff base)
      ≡ ok u)
    × (apply_update u s ≡ (ok tt, mirror q))

module _ (p : PaneState) (u : TerminalUpdate) (force : Bool) where
  abbrev changes : TerminalPatchChanges
  changes = patch_changes p u (updated_surface u) force

  abbrev after : PaneState
  after = (apply_terminal_update p u force).0

  pub same_frame :
      changes.styles_changed ≡ false → changes.surface_kind_changed ≡ false → IsSameFrame p after
  same_frame s k = record {
    id = (written p u force).0;
    cols = (written p u force).1;
    rows = (written p u force).2;
    surface = kept_kind p u force k;
    styles = kept_styles p u force s;
  }

  module _ (cp : IsConsistent p) where
    -- The rows are kept: the rest is taken over.
    mirror_kept :
        KeepsRows changes
        → record (moved_modes after (mirror p)) { colors = mirror_colors after.colors }
          ≡ mirror after
    unfolding mirror
    mirror_kept (r, s, k) =
        mirror_moved p after (mirror_row p) (same_frame s k)
          (λ i h. surface_of-mirror_row p after (kept_rows p u force cp.aligned r) i)

    mirror_kept_colors :
        KeepsRows changes → after.colors ≡ p.colors → moved_modes after (mirror p) ≡ mirror after
    unfolding mirror
    mirror_kept_colors r e =
        ap (λ k. record (moved_modes after (mirror p)) { colors = mirror_colors k }) (sym e)
        ∙ mirror_kept r

    mirror_kept_modes :
        KeepsRows changes
        → after.colors ≡ p.colors
        → after.modes ≡ p.modes
        → moved_cursor after (mirror p) ≡ mirror after
    unfolding mirror
    mirror_kept_modes r e m =
        ap (λ k. record (moved_cursor after (mirror p)) { modes = mirror_modes k }) (sym m)
        ∙ mirror_kept_colors r e

    -- A report that changes nothing of the surface.
    pub mirror_silent : surface_changed changes ≡ false → mirror p ≡ mirror after
    unfolding mirror
    mirror_silent h =
        let (r, e, m, c, t, d) = quiet_lem changes h in
        let cursor = kept_cursor p u force c in
        let title = kept_title p u force t in
        let directory = kept_directory p u force d in
        let version = silent p u force h in
        (λ j. record (mirror p) {
          cursor = some (mirror_cursor (sym cursor j));
          title = sym title j;
          working_directory = sym directory j;
          version = sym version j;
        })
        ∙ mirror_kept_modes r (kept_colors p u force e) (kept_modes p u force m)

    module _ (ca : IsConsistent after) (sa : IsSendable after)
        (changed : surface_changed changes ≡ true) where
      pub cursor_case :
          terminal_patch_kind changes ≡ PatchKind.cursor_only
          → Patches after p.surface_version (mirror p)
      unfolding mirror apply_update
      cursor_case k =
          let (r, e, m) = cursor_only_lem changes changed k in
          let same = kept_colors p u force e in
          (
            patch_of after PatchKind.cursor_only p.surface_version [] (mirror_colors after.colors),
            rw ((recorded p u force changed).1 ∙ k) (
                decode_cursor_patch after ca sa p.surface_version after.last_palette_diff
                  after.last_row_update_indices),
            apply_cursor_patch_lem after ca sa p.surface_version (mirror p) (written p u force).0
                  refl (ap mirror_colors same)
                ∙ ap (λ t. (ok tt, t)) (mirror_kept_modes r same (kept_modes p u force m)),
          )

      pub mode_case :
          terminal_patch_kind changes ≡ PatchKind.mode_only
          → Patches after p.surface_version (mirror p)
      unfolding mirror apply_update
      mode_case k =
          let (r, e) = mode_only_lem changes changed k in
          let same = kept_colors p u force e in
          (
            patch_of after PatchKind.mode_only p.surface_version [] (mirror_colors after.colors),
            rw ((recorded p u force changed).1 ∙ k) (
                decode_mode_patch after ca sa p.surface_version after.last_palette_diff
                  after.last_row_update_indices),
            apply_mode_patch_lem after ca sa p.surface_version (mirror p) (written p u force).0 refl
                  (ap mirror_colors same)
                ∙ ap (λ t. (ok tt, t)) (mirror_kept_colors r same),
          )

      diff_recorded :
          terminal_patch_kind changes ≡ PatchKind.color_only
          → after.last_palette_diff ≡ palette_diff p.colors.palette_rgba after.colors.palette_rgba
      unfolding PatchKind-discrete
      diff_recorded k =
          (recorded p u force changed).2
          ∙ ap
              (λ (d : PatchKind).
                if d == PatchKind.color_only
                then palette_diff p.colors.palette_rgba u.colors.palette_rgba
                else none)
              k
          ∙ ap (λ (t : TerminalColors). palette_diff p.colors.palette_rgba t.palette_rgba)
              (sym (written p u force).5)

      pub color_case :
          length p.colors.palette_rgba < 2 ^ 32
          → length p.colors.palette_rgba ≤ length after.colors.palette_rgba
          → terminal_patch_kind changes ≡ PatchKind.color_only
          → Patches after p.surface_version (mirror p)
      unfolding mirror apply_update
      color_case w grows k =
          let r = color_only_lem changes changed k in
          let diff = palette_diff p.colors.palette_rgba after.colors.palette_rgba in
          (
            patch_of after PatchKind.color_only p.surface_version [] (diff_colors after diff),
            rw ((recorded p u force changed).1 ∙ k, diff_recorded k)
                (decode_color_patch after ca sa p.surface_version diff
                  after.last_row_update_indices),
            apply_color_patch_lem after ca sa p.surface_version (mirror p) (written p u force).0
                  refl diff (materialize-palette_diff p after w grows)
                ∙ ap (λ t. (ok tt, t)) (mirror_kept r),
          )
