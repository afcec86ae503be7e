-- ===== src/Client/Surface/Patch/Clean.antt =====
-- What an update leaves of a surface when it answers an error (crates/nmux-
-- cli/src/local/surface.rs).
use nmux.Base.{
  ℕ, ◌≡◌, ◌∙◌, refl, sym, ap, Bool, true, false, some, List, [], ◌∷◌, length, arith, All,
  if◌then◌else◌, ◌==◌, ◌!=◌, not, is_empty, ℕ-DecEq, Option-DecEq, List-DecEq,
}
use nmux.Protocol.{PatchKind, PatchKind-DecEq}
use nmux.Client.Surface.{
  SurfaceError, Result, ok, err, raise_if, SurfaceUpdate, SurfaceUpdateKind, ClientPaneSurface,
}
use nmux.Client.Surface.Validate.{
  validate_patch_kind, validate_palette_diff_scope, validate_cursor_summary,
  validate_terminal_mode_summary, validate_no_row_patch_payload, validate_row_update_indices,
  validate_row_update_terminal_enums, validate_row_update_style_ids,
  validate_row_update_hyperlink_ids,
}
use nmux.Client.Surface.Rows.{apply_rows}
use nmux.Client.Surface.Rows.Parallel.{IsParallel, AreWithin, indices-AreWithin, apply_rows_ok}
use nmux.Client.Surface.Snapshot.{from_snapshot}
use nmux.Client.Surface.Patch.{
  Action, ◌>>=◌, ◌>>◌, lift, modify, validate_patch, apply_kind, apply_cursor_patch,
  apply_mode_patch, apply_color_patch, apply_rows_patch, apply_patch, apply_update, colors_differ,
  write_cursor, write_modes, when_some,
}

-- If the action answers an error from `s`, it leaves `s`.
abbrev IsClean : {A : Type 0} → Action A → ClientPaneSurface → Type 0
IsClean m s = (e : SurfaceError) → (m s).0 ≡ err e → (m s).1 ≡ s

-- Checks in a row before an action.
abbrev pub all_then : {A : Type 0} → List (Result Unit) → Action A → Action A
all_then [] m = m
all_then (r ∷ rs) m = lift r >>= λ _. all_then rs m

checks-IsClean :
    {A : Type 0} (rs : List (Result Unit)) (m : Action A) (s : ClientPaneSurface)
    → (All (λ r. r ≡ ok tt) rs → IsClean m s)
    → IsClean (all_then rs m) s
checks-IsClean [] m s h = h tt
checks-IsClean (ok t ∷ rs) m s h = checks-IsClean rs m s (λ a. h (refl, a))
checks-IsClean (err k ∷ rs) m s h = λ e i. refl

modify-IsClean :
    (f : ClientPaneSurface → ClientPaneSurface) (s : ClientPaneSurface) → IsClean (modify f) s
modify-IsClean f s e h = cc

module _ (u : SurfaceUpdate) (s : ClientPaneSurface) where
  apply_cursor_patch-IsClean : IsClean (apply_cursor_patch u) s
  unfolding apply_cursor_patch
  apply_cursor_patch-IsClean =
      checks-IsClean
        (raise_if (colors_differ u.colors s.colors) SurfaceError.cursor_only_colors ∷ [])
        (modify (write_cursor u)) s (λ _. modify-IsClean (write_cursor u) s)

  apply_mode_patch-IsClean : IsClean (apply_mode_patch u) s
  unfolding apply_mode_patch
  apply_mode_patch-IsClean =
      checks-IsClean (raise_if (colors_differ u.colors s.colors) SurfaceError.mode_only_colors ∷ [])
        (modify (write_modes u)) s (λ _. modify-IsClean (write_modes u) s)

  apply_color_patch-IsClean : IsClean (apply_color_patch u) s
  unfolding apply_color_patch
  apply_color_patch-IsClean e h = ground arith

  rows_written :
      (n : ℕ) (f : ClientPaneSurface → ClientPaneSurface)
      → IsParallel n s
      → AreWithin n u.row_updates
      → IsClean (apply_rows u.row_updates >> modify f) s
  rows_written n f p w e h =
      let (t, a, _) = apply_rows_ok n u.row_updates s p w in
      let k =
        ap
          (λ (x : Result Unit × ClientPaneSurface).
            (elim x.0 as (λ _. Result Unit × ClientPaneSurface) [
              | ok _ ↦ modify f x.1
              | err l ↦ (err l, x.1)
            ]).0)
          a in
      cc (k, h)

  apply_rows_patch-IsClean : IsParallel (length s.row_text) s → IsClean (apply_rows_patch u) s
  unfolding apply_rows_patch
  apply_rows_patch-IsClean p =
      checks-IsClean
        (raise_if (colors_differ u.colors s.colors) SurfaceError.replace_rows_colors
          ∷ validate_row_update_terminal_enums u.row_updates
          ∷ validate_row_update_indices u.row_updates (length s.row_text)
          ∷ validate_row_update_style_ids u.row_updates s.styles
          ∷ validate_row_update_hyperlink_ids u.row_updates s.hyperlinks
          ∷ [])
        (apply_rows u.row_updates >> modify (write_modes u)) s
        (λ a.
          rows_written (length s.row_text) (write_modes u) p
            (indices-AreWithin (length s.row_text) u.row_updates a.1.1.0))

  if-IsClean :
      (b : Bool) (m k : Action Unit) → IsClean m s → IsClean k s → IsClean (if b then m else k) s
  if-IsClean true m k a c = a
  if-IsClean false m k a c = c

  apply_kind-IsClean : IsParallel (length s.row_text) s → IsClean (apply_kind u) s
  unfolding apply_kind
  apply_kind-IsClean p =
      let unsupported : Action Unit = lift (err SurfaceError.unsupported_patch_kind) in
      let refresh : Action Unit = lift (err SurfaceError.full_refresh_required) in
      let is = λ (kind : PatchKind). u.patch_kind == some kind in
      let rows : Action Unit =
        if u.patch_kind != some PatchKind.replace_rows then unsupported else apply_rows_patch u in
      let color : Action Unit = if is PatchKind.color_only then apply_color_patch u else rows in
      let mode : Action Unit = if is PatchKind.mode_only then apply_mode_patch u else color in
      let cursor : Action Unit = if is PatchKind.cursor_only then apply_cursor_patch u else mode in
      if-IsClean (is PatchKind.full_refresh_required) refresh cursor (λ e h. refl)
        (if-IsClean (is PatchKind.cursor_only) (apply_cursor_patch u) mode
          apply_cursor_patch-IsClean
          (if-IsClean (is PatchKind.mode_only) (apply_mode_patch u) color apply_mode_patch-IsClean (
            if-IsClean (is PatchKind.color_only) (apply_color_patch u) rows
              apply_color_patch-IsClean
              (if-IsClean (u.patch_kind != some PatchKind.replace_rows) unsupported
                (apply_rows_patch u) (λ e h. refl) (apply_rows_patch-IsClean p)))))

  -- The checks write nothing.
  checks_same : (rs : List (Result Unit)) (r : Result Unit) → (all_then rs (lift r) s).1 ≡ s
  checks_same [] r = refl
  checks_same (ok t ∷ rs) r = checks_same rs r
  checks_same (err k ∷ rs) r = refl

  pub validate_patch_lem : (validate_patch u s).1 ≡ s
  unfolding validate_patch
  validate_patch_lem =
      checks_same
        (raise_if (u.pane_id != s.pane_id) SurfaceError.pane_mismatch
          ∷ raise_if (u.base_version != some s.version) SurfaceError.base_version_mismatch
          ∷ when_some u.patch_kind validate_patch_kind
          ∷ validate_palette_diff_scope u.kind u.patch_kind u.colors
          ∷ validate_cursor_summary u.cursor
          ∷ validate_terminal_mode_summary u.modes
          ∷ raise_if (not (is_empty u.hyperlinks)) SurfaceError.hyperlink_table_change
          ∷ [])
        (when_some u.patch_kind (λ kind. validate_no_row_patch_payload kind u.row_updates))

  after_checks :
      (t : Result Unit × ClientPaneSurface) (k : Action Unit) (e : SurfaceError)
      → t.1 ≡ s
      → IsClean k s
      → (elim t.0 as (λ _. Result Unit × ClientPaneSurface) [
        | ok _ ↦ k t.1
        | err l ↦ (err l, t.1)
      ]).0
        ≡ err e
      → (elim t.0 as (λ _. Result Unit × ClientPaneSurface) [
        | ok _ ↦ k t.1
        | err l ↦ (err l, t.1)
      ]).1
        ≡ s
  after_checks (ok _, t) k e h c f = ap (λ v. (k v).1) h ∙ c e (ap (λ v. (k v).0) (sym h) ∙ f)
  after_checks (err l, t) k e h c f = h

  apply_patch-IsClean : IsParallel (length s.row_text) s → IsClean (apply_patch u) s
  unfolding apply_patch
  apply_patch-IsClean p e h =
      after_checks (validate_patch u s) (apply_kind u) e validate_patch_lem (apply_kind-IsClean p) h

  lift_same :
      {A : Type 0} (r : Result A) (f : A → ClientPaneSurface → ClientPaneSurface) (e : SurfaceError)
      → ((lift r >>= λ a. modify (f a)) s).0 ≡ err e
      → ((lift r >>= λ a. modify (f a)) s).1 ≡ s
  lift_same (ok a) f e h = cc
  lift_same (err k) f e h = refl

  kind-IsClean :
      (k : SurfaceUpdateKind) (m n : Action Unit)
      → IsClean m s
      → IsClean n s
      → IsClean
          (elim k as (λ _. Action Unit) [
            | SurfaceUpdateKind.snapshot ↦ m
            | SurfaceUpdateKind.patch ↦ n
          ])
          s
  kind-IsClean SurfaceUpdateKind.snapshot m n a c = a
  kind-IsClean SurfaceUpdateKind.patch m n a c = c

  -- An update, snapshot or patch, that answers an error leaves the surface as it was, if the row
  -- vectors of the surface are parallel.
  pub apply_update_err :
      (e : SurfaceError)
      → IsParallel (length s.row_text) s
      → (apply_update u s).0 ≡ err e
      → (apply_update u s).1 ≡ s
  unfolding apply_update
  apply_update_err e p h =
      kind-IsClean u.kind (lift (from_snapshot u) >>= λ t. modify (λ _. t)) (apply_patch u)
        (lift_same (from_snapshot u) (λ t _. t)) (apply_patch-IsClean p) e h
