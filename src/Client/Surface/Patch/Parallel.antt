-- ===== src/Client/Surface/Patch/Parallel.antt =====
-- The row vectors of a surface under the parts of `apply_patch` (crates/nmux-
-- cli/src/local/surface.rs).
use nmux.Base.{
  ℕ, ◌≡◌, sym, ap, subst, false, Option, none, some, [], length, length-replicate, ℕ-DecEq,
  Option-DecEq, List-DecEq,
}
use nmux.Protocol.{PatchKind-DecEq}
use nmux.Client.Surface.{
  SurfaceError, Result, ok, err, ok_or, ◌>>=◌, ◌>>◌, SurfaceUpdate, SurfaceUpdateKind,
  ClientPaneSurface,
}
use nmux.Client.Surface.Validate.{
  validate_surface_kind, validate_cursor_summary, validate_terminal_mode_summary,
  validate_hyperlink_table, validate_row_update_indices, validate_row_update_style_ids,
  validate_row_update_hyperlink_ids, validate_palette_diff_scope,
}
use nmux.Client.Surface.Rows.{apply_rows}
use nmux.Client.Surface.Rows.Parallel.{IsParallel, apply_rows-IsParallel}
use nmux.Client.Surface.Snapshot.{from_snapshot, sized_snapshot, blank_surface, finished}

blank_surface-IsParallel :
    (u : SurfaceUpdate) (cols rows : ℕ) → IsParallel rows (blank_surface u cols rows)
unfolding blank_surface
blank_surface-IsParallel u cols rows = record {
  text = length-replicate rows [];
  runs = length-replicate rows [];
  dirty_hashes = length-replicate rows 0;
  prompts = length-replicate rows _;
  dirty = length-replicate rows false;
  placeholders = length-replicate rows false;
  state_hashes = length-replicate rows 0;
}

finished-IsParallel :
    (n : ℕ) (t : Result Unit × ClientPaneSurface) (s : ClientPaneSurface)
    → IsParallel n t.1
    → finished t ≡ ok s
    → IsParallel n s
finished-IsParallel n (ok _, t) s p h =
    subst (IsParallel n) (ap (λ r. elim r [ ok x ↦ x | err e ↦ t ]) h) p
finished-IsParallel n (err e, t) s p h = cc

-- The surface of an answer, if it has one, is parallel.
abbrev Yields : Result ClientPaneSurface → Type 0
Yields r = (s : ClientPaneSurface) → r ≡ ok s → IsParallel (length s.row_text) s

checks_Yields : (r : Result Unit) (k : Result ClientPaneSurface) → Yields k → Yields (r >> k)
checks_Yields (ok _) k y s h = y s h
checks_Yields (err e) k y s h = cc

sized_Yields :
    (cols rows : Option ℕ) (f : ℕ → ℕ → Result ClientPaneSurface)
    → ((c r : ℕ) → Yields (f c r))
    → Yields (
        ok_or cols SurfaceError.missing_cols >>= λ c.
        ok_or rows SurfaceError.missing_rows >>= λ r. f c r)
sized_Yields none rows f y s h = cc
sized_Yields (some c) none f y s h = cc
sized_Yields (some c) (some r) f y s h = y c r s h

sized_snapshot-Yields : (u : SurfaceUpdate) (cols rows : ℕ) → Yields (sized_snapshot u cols rows)
unfolding sized_snapshot
sized_snapshot-Yields u cols rows =
    let b = blank_surface u cols rows in
    let written : Yields (finished (apply_rows u.row_updates b)) = λ s h.
      let p =
        finished-IsParallel rows (apply_rows u.row_updates b) s
          (apply_rows-IsParallel rows u.row_updates b (blank_surface-IsParallel u cols rows)) h in
      subst (λ n. IsParallel n s) (sym p.text) p in
    checks_Yields (validate_surface_kind b.surface) _ (
      checks_Yields (validate_cursor_summary b.cursor) _ (
        checks_Yields (validate_terminal_mode_summary b.modes) _ (
          checks_Yields (validate_hyperlink_table b.hyperlinks) _ (
            checks_Yields (validate_row_update_indices u.row_updates rows) _ (
              checks_Yields (validate_row_update_style_ids u.row_updates b.styles) _ (
                checks_Yields (validate_row_update_hyperlink_ids u.row_updates b.hyperlinks) _
                  written))))))

-- A surface that is made of a snapshot has parallel row vectors.
pub from_snapshot-IsParallel :
    (u : SurfaceUpdate) (s : ClientPaneSurface)
    → from_snapshot u ≡ ok s
    → IsParallel (length s.row_text) s
unfolding from_snapshot
from_snapshot-IsParallel u =
    checks_Yields (validate_palette_diff_scope SurfaceUpdateKind.snapshot none u.colors) _
      (sized_Yields u.cols u.rows (sized_snapshot u) (sized_snapshot-Yields u))
