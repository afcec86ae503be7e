-- ===== src/Client/Surface/Patch/Framed.antt =====
-- The row vectors of a surface under any update (crates/nmux-cli/src/local/surface.rs).
use nmux.Base.{
  ℕ, ◌≡◌, ◌∙◌, refl, sym, subst, Bool, true, false, some, List, [], ◌∷◌, length, if◌then◌else◌,
  ◌==◌, ◌!=◌, ℕ-DecEq, Option-DecEq, List-DecEq,
}
use nmux.Protocol.{PatchKind, PatchKind-DecEq}
use nmux.Client.Surface.{
  SurfaceError, Result, ok, err, raise_if, ok_or, TerminalColorSummary, SurfaceUpdate,
  SurfaceUpdateKind, ClientPaneSurface,
}
use nmux.Client.Surface.Validate.{
  validate_row_update_indices, validate_row_update_terminal_enums, validate_row_update_style_ids,
  validate_row_update_hyperlink_ids,
}
use nmux.Client.Surface.Rows.{apply_rows}
use nmux.Client.Surface.Rows.Parallel.{IsParallel, apply_rows-IsParallel}
use nmux.Client.Surface.Snapshot.{from_snapshot}
use nmux.Client.Surface.Patch.Clean.{all_then, validate_patch_lem}
use nmux.Client.Surface.Patch.Parallel.{from_snapshot-IsParallel}
use nmux.Client.Surface.Patch.{
  Action, ◌>>=◌, ◌>>◌, lift, modify, validate_patch, apply_kind, apply_cursor_patch,
  apply_mode_patch, apply_color_patch, apply_rows_patch, apply_patch, apply_update, colors_differ,
  write_cursor, write_modes, materialize,
}

abbrev IsFramed : ClientPaneSurface → Type 0
IsFramed s = IsParallel (length s.row_text) s

-- What a patch writes besides rows does not touch them.
write_modes-IsFramed :
    (u : SurfaceUpdate) (s : ClientPaneSurface) (colors : TerminalColorSummary) (n : ℕ)
    → IsParallel n s
    → IsFramed (record (write_modes u s) { colors = colors })
write_modes-IsFramed u s colors n p = record {
  text = refl;
  runs = p.runs ∙ sym p.text;
  dirty_hashes = p.dirty_hashes ∙ sym p.text;
  prompts = p.prompts ∙ sym p.text;
  dirty = p.dirty ∙ sym p.text;
  placeholders = p.placeholders ∙ sym p.text;
  state_hashes = p.state_hashes ∙ sym p.text;
}

write_cursor-IsFramed :
    (u : SurfaceUpdate) (s : ClientPaneSurface) → IsFramed s → IsFramed (write_cursor u s)
write_cursor-IsFramed u s p = record {
  text = refl;
  runs = p.runs;
  dirty_hashes = p.dirty_hashes;
  prompts = p.prompts;
  dirty = p.dirty;
  placeholders = p.placeholders;
  state_hashes = p.state_hashes;
}

checks_IsFramed :
    (rs : List (Result Unit)) (m : Action Unit) (s : ClientPaneSurface)
    → IsFramed s
    → IsFramed (m s).1
    → IsFramed (all_then rs m s).1
checks_IsFramed [] m s p q = q
checks_IsFramed (ok _ ∷ rs) m s p q = checks_IsFramed rs m s p q
checks_IsFramed (err e ∷ rs) m s p q = p

module _ (u : SurfaceUpdate) (s : ClientPaneSurface) (p : IsFramed s) where
  modes_kept : IsFramed (write_modes u s)
  modes_kept = write_modes-IsFramed u s s.colors (length s.row_text) p

  changed_kept :
      (r : Result TerminalColorSummary)
      → IsFramed ((lift r >>= λ d. modify (λ t. record (write_modes u t) { colors = d })) s).1
  changed_kept (ok d) = write_modes-IsFramed u s d (length s.row_text) p
  changed_kept (err e) = p

  after_rows :
      (t : Result Unit × ClientPaneSurface)
      → IsParallel (length s.row_text) t.1
      → IsFramed
          (elim t.0 as (λ _. Result Unit × ClientPaneSurface) [
            | ok _ ↦ modify (write_modes u) t.1
            | err l ↦ (err l, t.1)
          ]).1
  after_rows (ok _, t) q = write_modes-IsFramed u t t.colors (length s.row_text) q
  after_rows (err l, t) q = subst (λ n. IsParallel n t) (sym q.text) q

  color_kept :
      (a : Result TerminalColorSummary) (f : TerminalColorSummary → Result TerminalColorSummary)
      → IsFramed
          ((lift a >>= λ c.
              lift (f c) >>= λ d. modify (λ t. record (write_modes u t) { colors = d }))
            s).1
  color_kept (ok c) f = changed_kept (f c)
  color_kept (err e) f = p

  rows_kept : IsFramed ((apply_rows u.row_updates >> modify (write_modes u)) s).1
  rows_kept =
      after_rows (apply_rows u.row_updates s)
        (apply_rows-IsParallel (length s.row_text) u.row_updates s p)

  if_kept :
      (b : Bool) (m k : Action Unit)
      → IsFramed (m s).1
      → IsFramed (k s).1
      → IsFramed ((if b then m else k) s).1
  if_kept true m k x y = x
  if_kept false m k x y = y

  apply_rows_patch-IsFramed : IsFramed (apply_rows_patch u s).1
  unfolding apply_rows_patch
  apply_rows_patch-IsFramed =
      checks_IsFramed
        (raise_if (colors_differ u.colors s.colors) SurfaceError.replace_rows_colors
          ∷ validate_row_update_terminal_enums u.row_updates
          ∷ validate_row_update_indices u.row_updates (length s.row_text)
          ∷ validate_row_update_style_ids u.row_updates s.styles
          ∷ validate_row_update_hyperlink_ids u.row_updates s.hyperlinks
          ∷ [])
        (apply_rows u.row_updates >> modify (write_modes u)) s p rows_kept

  apply_cursor_patch-IsFramed : IsFramed (apply_cursor_patch u s).1
  unfolding apply_cursor_patch
  apply_cursor_patch-IsFramed =
      checks_IsFramed
        (raise_if (colors_differ u.colors s.colors) SurfaceError.cursor_only_colors ∷ [])
        (modify (write_cursor u)) s p (write_cursor-IsFramed u s p)

  apply_mode_patch-IsFramed : IsFramed (apply_mode_patch u s).1
  unfolding apply_mode_patch
  apply_mode_patch-IsFramed =
      checks_IsFramed
        (raise_if (colors_differ u.colors s.colors) SurfaceError.mode_only_colors ∷ [])
        (modify (write_modes u)) s p modes_kept

  apply_color_patch-IsFramed : IsFramed (apply_color_patch u s).1
  unfolding apply_color_patch
  apply_color_patch-IsFramed =
      color_kept (ok_or u.colors SurfaceError.missing_colors) (λ c. materialize c s.colors)

  apply_kind-IsFramed : IsFramed (apply_kind u s).1
  unfolding apply_kind
  apply_kind-IsFramed =
      let unsupported : Action Unit = lift (err SurfaceError.unsupported_patch_kind) in
      let refresh : Action Unit = lift (err SurfaceError.full_refresh_required) in
      let is = λ (kind : PatchKind). u.patch_kind == some kind in
      let rows : Action Unit =
        if u.patch_kind != some PatchKind.replace_rows then unsupported else apply_rows_patch u in
      let color : Action Unit = if is PatchKind.color_only then apply_color_patch u else rows in
      let mode : Action Unit = if is PatchKind.mode_only then apply_mode_patch u else color in
      let cursor : Action Unit = if is PatchKind.cursor_only then apply_cursor_patch u else mode in
      if_kept (is PatchKind.full_refresh_required) refresh cursor p (
        if_kept (is PatchKind.cursor_only) (apply_cursor_patch u) mode apply_cursor_patch-IsFramed (
          if_kept (is PatchKind.mode_only) (apply_mode_patch u) color apply_mode_patch-IsFramed (
            if_kept (is PatchKind.color_only) (apply_color_patch u) rows apply_color_patch-IsFramed
              (if_kept (u.patch_kind != some PatchKind.replace_rows) unsupported
                (apply_rows_patch u) p apply_rows_patch-IsFramed))))

  after_checks :
      (t : Result Unit × ClientPaneSurface) (k : Action Unit)
      → t.1 ≡ s
      → IsFramed (k s).1
      → IsFramed
          (elim t.0 as (λ _. Result Unit × ClientPaneSurface) [
            | ok _ ↦ k t.1
            | err l ↦ (err l, t.1)
          ]).1
  after_checks (ok _, t) k h q = subst (λ v. IsFramed (k v).1) (sym h) q
  after_checks (err l, t) k h q = subst IsFramed (sym h) p

  apply_patch-IsFramed : IsFramed (apply_patch u s).1
  unfolding apply_patch
  apply_patch-IsFramed =
      after_checks (validate_patch u s) (apply_kind u) (validate_patch_lem u s) apply_kind-IsFramed

  by_kind :
      (k : SurfaceUpdateKind) (m n : Action Unit)
      → IsFramed (m s).1
      → IsFramed (n s).1
      → IsFramed
          ((elim k as (λ _. Action Unit) [
            | SurfaceUpdateKind.snapshot ↦ m
            | SurfaceUpdateKind.patch ↦ n
          ])
            s).1
  by_kind SurfaceUpdateKind.snapshot m n x y = x
  by_kind SurfaceUpdateKind.patch m n x y = y

  replaced :
      (r : Result ClientPaneSurface)
      → ((t : ClientPaneSurface) → r ≡ ok t → IsFramed t)
      → IsFramed ((lift r >>= λ t. modify (λ _. t)) s).1
  replaced (ok t) h = h t refl
  replaced (err e) h = p

  -- An update, snapshot or patch, accepted or not, keeps the row vectors of a surface parallel.
  pub apply_update-IsParallel :
      IsParallel (length (apply_update u s).1.row_text) (apply_update u s).1
  unfolding apply_update
  apply_update-IsParallel =
      by_kind u.kind (lift (from_snapshot u) >>= λ t. modify (λ _. t)) (apply_patch u)
        (replaced (from_snapshot u) (from_snapshot-IsParallel u)) apply_patch-IsFramed
