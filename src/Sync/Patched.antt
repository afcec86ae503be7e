-- ===== src/Sync/Patched.antt =====
-- What applying a decoded patch does to a surface of the same pane and of its base version.
use nmux.Base.{
  ℕ, ◌≡◌, ◌∙◌, refl, ap, false, Option, some, List, [], length, ≡→==, ◌!=◌, not, Option-discrete,
  ℕ-DecEq, List-DecEq, Option-DecEq, DecEq,
}
use nmux.Protocol.{PatchKind, PatchKind-DecEq, PatchKind-discrete}
use nmux.Session.{PaneState, PaletteDiff}
use nmux.Client.Surface.{
  Result, ok, err, SurfaceUpdateKind, SurfaceRowUpdate, ClientPaneSurface, TerminalColorSummary,
  TerminalColorSummary-DecEq,
}
use nmux.Client.Surface.Validate.{
  validate_patch_kind, validate_palette_diff_scope, validate_no_row_patch_payload,
  validate_row_update_terminal_enums, validate_row_update_indices, validate_row_update_style_ids,
  validate_row_update_hyperlink_ids, terminal_colors_have_palette_diff,
}
use nmux.Client.Surface.Rows.{apply_rows}
use nmux.Client.Surface.Patch.{
  apply_patch, validate_patch, apply_kind, apply_cursor_patch, apply_mode_patch, apply_color_patch,
  apply_rows_patch, materialize, Action, ◌>>=◌, modify, write_modes,
}
use nmux.Sync.Mirror.{mirror_cursor, mirror_modes, mirror_colors, IsConsistent, IsSendable}
use nmux.Sync.Snapshot.{cursor_ok, modes_ok}
use nmux.Sync.Patch.{patch_of, diff_colors, color_scope_ok}

!=-refl {ℓ} : {A : Type ℓ} ⦃e : DecEq A⦄ (a b : A) → a ≡ b → (a != b) ≡ false
!=-refl ⦃e⦄ a b h = ap not (≡→== a b h)

step :
    {A B : Type 0} (m : Action A) (f : A → Action B) (s : ClientPaneSurface) (a : A)
    (s' : ClientPaneSurface)
    → m s ≡ (ok a, s')
    → (m >>= f) s ≡ f a s'
step {A} {B} m f s a s' e =
    ap (λ (t : Result A × ClientPaneSurface). elim t.0 [ ok b ↦ f b t.1 | err k ↦ (err k, t.1) ]) e

abbrev pub moved_cursor : PaneState → ClientPaneSurface → ClientPaneSurface
moved_cursor q s = record s {
  cursor = some (mirror_cursor q.cursor);
  title = q.terminal_title;
  working_directory = q.terminal_working_directory;
  version = q.surface_version;
}

abbrev pub moved_modes : PaneState → ClientPaneSurface → ClientPaneSurface
moved_modes q s = record (moved_cursor q s) { modes = mirror_modes q.modes }

module _ (q : PaneState) (c : IsConsistent q) (a : IsSendable q) (base : ℕ) (s : ClientPaneSurface)
    (same_id : q.id ≡ s.pane_id) (same_version : base ≡ s.version) where
  checks_ok :
      (kind : PatchKind) (rows : List SurfaceRowUpdate) (colors : TerminalColorSummary)
      → validate_patch_kind kind ≡ ok tt
      → validate_palette_diff_scope SurfaceUpdateKind.patch (some kind) (some colors) ≡ ok tt
      → validate_no_row_patch_payload kind rows ≡ ok tt
      → validate_patch (patch_of q kind base rows colors) s ≡ (ok tt, s)
  unfolding validate_patch
  checks_ok kind rows colors k p r =
      rw
        (
          !=-refl q.id s.pane_id same_id,
          !=-refl (some base) (some s.version) (ap some same_version),
          k,
          p,
          cursor_ok q c a,
          modes_ok q c a,
          r,
        )
        refl

  full_scope_ok :
      (kind : PatchKind)
      → validate_palette_diff_scope SurfaceUpdateKind.patch
          (some kind)
          (some (mirror_colors q.colors))
        ≡ ok tt
  unfolding validate_palette_diff_scope terminal_colors_have_palette_diff
  full_scope_ok kind = refl

  selected :
      (kind : PatchKind) (rows : List SurfaceRowUpdate) (colors : TerminalColorSummary)
      (t : Result Unit × ClientPaneSurface)
      → validate_patch (patch_of q kind base rows colors) s ≡ (ok tt, s)
      → apply_kind (patch_of q kind base rows colors) s ≡ t
      → apply_patch (patch_of q kind base rows colors) s ≡ t
  unfolding apply_patch
  selected kind rows colors t v k =
      step (validate_patch (patch_of q kind base rows colors))
        (λ _. apply_kind (patch_of q kind base rows colors)) s tt s v
      ∙ k

  cursor_selected :
      mirror_colors q.colors ≡ s.colors
      → apply_kind (patch_of q PatchKind.cursor_only base [] (mirror_colors q.colors)) s
        ≡ (ok tt, moved_cursor q s)
  unfolding apply_kind apply_cursor_patch PatchKind-discrete Option-discrete
  cursor_selected e = rw (!=-refl (mirror_colors q.colors) s.colors e) refl

  pub apply_cursor_patch_lem :
      mirror_colors q.colors ≡ s.colors
      → apply_patch (patch_of q PatchKind.cursor_only base [] (mirror_colors q.colors)) s
        ≡ (ok tt, moved_cursor q s)
  unfolding validate_patch_kind validate_no_row_patch_payload
  apply_cursor_patch_lem e =
      selected PatchKind.cursor_only [] (mirror_colors q.colors) (ok tt, moved_cursor q s)
        (checks_ok PatchKind.cursor_only [] (mirror_colors q.colors) refl
          (full_scope_ok PatchKind.cursor_only) refl)
        (cursor_selected e)

  mode_selected :
      mirror_colors q.colors ≡ s.colors
      → apply_kind (patch_of q PatchKind.mode_only base [] (mirror_colors q.colors)) s
        ≡ (ok tt, moved_modes q s)
  unfolding apply_kind apply_mode_patch PatchKind-discrete Option-discrete
  mode_selected e = rw (!=-refl (mirror_colors q.colors) s.colors e) refl

  pub apply_mode_patch_lem :
      mirror_colors q.colors ≡ s.colors
      → apply_patch (patch_of q PatchKind.mode_only base [] (mirror_colors q.colors)) s
        ≡ (ok tt, moved_modes q s)
  unfolding validate_patch_kind validate_no_row_patch_payload
  apply_mode_patch_lem e =
      selected PatchKind.mode_only [] (mirror_colors q.colors) (ok tt, moved_modes q s)
        (checks_ok PatchKind.mode_only [] (mirror_colors q.colors) refl
          (full_scope_ok PatchKind.mode_only) refl)
        (mode_selected e)

  color_selected :
      (diff : Option PaletteDiff)
      → materialize (diff_colors q diff) s.colors ≡ ok (mirror_colors q.colors)
      → apply_kind (patch_of q PatchKind.color_only base [] (diff_colors q diff)) s
        ≡ (ok tt, record (moved_modes q s) { colors = mirror_colors q.colors })
  unfolding apply_kind apply_color_patch PatchKind-discrete Option-discrete
  color_selected diff e = rw e refl

  pub apply_color_patch_lem :
      (diff : Option PaletteDiff)
      → materialize (diff_colors q diff) s.colors ≡ ok (mirror_colors q.colors)
      → apply_patch (patch_of q PatchKind.color_only base [] (diff_colors q diff)) s
        ≡ (ok tt, record (moved_modes q s) { colors = mirror_colors q.colors })
  unfolding validate_patch_kind validate_no_row_patch_payload
  apply_color_patch_lem diff e =
      selected PatchKind.color_only [] (diff_colors q diff)
        (ok tt, record (moved_modes q s) { colors = mirror_colors q.colors })
        (checks_ok PatchKind.color_only [] (diff_colors q diff) refl
          (color_scope_ok q c a base diff [] (diff_colors q diff)) refl)
        (color_selected diff e)

  module _ (rows : List SurfaceRowUpdate) (t : ClientPaneSurface)
      (enums : validate_row_update_terminal_enums rows ≡ ok tt)
      (indices : validate_row_update_indices rows (length s.row_text) ≡ ok tt)
      (style_ids : validate_row_update_style_ids rows s.styles ≡ ok tt)
      (links : validate_row_update_hyperlink_ids rows s.hyperlinks ≡ ok tt)
      (applied : apply_rows rows s ≡ (ok tt, t)) where
    rows_selected :
        mirror_colors q.colors ≡ s.colors
        → apply_kind (patch_of q PatchKind.replace_rows base rows (mirror_colors q.colors)) s
          ≡ (ok tt, moved_modes q t)
    unfolding apply_kind apply_rows_patch PatchKind-discrete Option-discrete
    rows_selected e =
        rw (!=-refl (mirror_colors q.colors) s.colors e, enums, indices, style_ids, links)
          (step (apply_rows rows)
            (λ _.
              modify (
                write_modes (patch_of q PatchKind.replace_rows base rows (mirror_colors q.colors))))
            s tt t applied)

    pub apply_rows_patch_lem :
        mirror_colors q.colors ≡ s.colors
        → validate_no_row_patch_payload PatchKind.replace_rows rows ≡ ok tt
        → apply_patch (patch_of q PatchKind.replace_rows base rows (mirror_colors q.colors)) s
          ≡ (ok tt, moved_modes q t)
    unfolding validate_patch_kind
    apply_rows_patch_lem e payload =
        selected PatchKind.replace_rows rows (mirror_colors q.colors) (ok tt, moved_modes q t)
          (checks_ok PatchKind.replace_rows rows (mirror_colors q.colors) refl
            (full_scope_ok PatchKind.replace_rows) payload)
          (rows_selected e)
