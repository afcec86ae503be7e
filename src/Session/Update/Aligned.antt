-- ===== src/Session/Update/Aligned.antt =====
-- The lengths of a pane's row vectors after a report (crates/nmux-core/src/session.rs,
-- `apply_terminal_update`).
use nmux.Base.{
  ◌≡◌, ◌≤◌, ◌<◌, ◌==◌, ◌⊎◌, inl, inr, true, false, Bool, Text, List, [], ◌∷◌, All, arith, ℕ, length,
  take, length-map, length-take, length-replicate, ap, Option, subst, sym, ℕ-DecEq, if◌then◌else◌,
}
use nmux.Terminal.{
  CellRun, TerminalUpdate, plain, plain_row_semantic_prompts, plain_row_dirty_flags,
  plain_row_kitty_placeholders,
}
use nmux.Protocol.{RowSemanticPrompt, PatchKind, PatchKind-DecEq}
use nmux.Session.{PaneState, PaletteDiff}
use nmux.Session.Update.{
  Rows, record_patch, bump_scrollback, write_surface, write_scrollback, rows_for_lines, surface_of,
  scrollback_of, keep_below, apply_terminal_update, updated_surface, updated_scrollback,
  surface_changed, patch_changes, scrollback_changed,
}

abbrev pub AreAligned : Rows → Type 0
AreAligned r =
    (length r.runs ≡ length r.lines)
    × (length r.prompts ≡ length r.lines)
    × (length r.dirty ≡ length r.lines)
    × (length r.placeholders ≡ length r.lines)

pub record IsAligned (p : PaneState) : Type 0 where
  pub surface : AreAligned (surface_of p)
  pub scrollback : AreAligned (scrollback_of p)
  pub fits : length p.surface_lines ≤ p.rows
  pub indices : All (λ i. i < p.rows) p.last_row_update_indices

-- A vector of the wrong length is replaced by a plain one.
pub rows_for_lines-AreAligned :
    (lines : List Text) (runs : List (List CellRun)) (prompts : List RowSemanticPrompt)
    (dirty placeholders : List Bool)
    → AreAligned (rows_for_lines lines runs prompts dirty placeholders)
unfolding rows_for_lines plain_row_semantic_prompts plain_row_dirty_flags
    plain_row_kitty_placeholders
rows_for_lines-AreAligned lines runs prompts dirty placeholders = (
  ground (arith, length-map (λ (line : Text). plain line ∷ []) lines),
  ground (arith, length-replicate (length lines) RowSemanticPrompt.none),
  ground (arith, length-replicate (length lines) false),
  ground (arith, length-replicate (length lines) false),
)

pub keep_below-All : (n : ℕ) (is : List ℕ) → All (λ i. i < n) (keep_below n is)
unfolding keep_below
keep_below-All n [] = tt
keep_below-All n (i ∷ is) = ground (arith, keep_below-All n is)

updated_surface-AreAligned : (u : TerminalUpdate) → AreAligned (updated_surface u)
unfolding updated_surface
updated_surface-AreAligned u = rows_for_lines-AreAligned _ _ _ _ _

updated_scrollback-AreAligned : (u : TerminalUpdate) → AreAligned (updated_scrollback u)
unfolding updated_scrollback
updated_scrollback-AreAligned u = rows_for_lines-AreAligned _ _ _ _ _

-- The vectors cut to `n` rows.
abbrev pub cut : ℕ → Rows → Rows
cut n r = record {
  lines = take n r.lines;
  runs = take n r.runs;
  prompts = take n r.prompts;
  dirty = take n r.dirty;
  placeholders = take n r.placeholders;
}

cut-AreAligned : (n : ℕ) (r : Rows) → AreAligned r → AreAligned (cut n r)
cut-AreAligned n r a = omega (
  arith,
  length-take n r.lines,
  length-take n r.runs,
  length-take n r.prompts,
  length-take n r.dirty,
  length-take n r.placeholders,
)

if-All :
    (n : ℕ) (b : Bool) (is : List ℕ) → All (λ i. i < n) is → All (λ i. i < n) (if b then is else [])
if-All n true is a = a
if-All n false is a = tt

if-AreAligned :
    (b : Bool) (r s : Rows) → AreAligned r → AreAligned s → AreAligned (if b then r else s)
if-AreAligned true r s a c = a
if-AreAligned false r s a c = c

record_patch-All :
    (n : ℕ) (changed : Bool) (kind : PatchKind) (diff : Option PaletteDiff) (is : List ℕ)
    (p : PaneState)
    → p.rows ≡ n
    → (changed ≡ true) ⊎ All (λ i. i < n) p.last_row_update_indices
    → All (λ i. i < n) (record_patch changed kind diff is p).last_row_update_indices
unfolding record_patch
record_patch-All n false kind diff is p e (inl h) = cc
record_patch-All n false kind diff is p e (inr h) = h
record_patch-All n true kind diff is p e h =
    if-All n (kind == PatchKind.replace_rows) (keep_below p.rows is)
      (subst (λ m. All (λ i. i < m) (keep_below p.rows is)) e (keep_below-All p.rows is))

-- What a report leaves in the pane.
module _ (p : PaneState) (u : TerminalUpdate) (force : Bool) where
  pub surface-apply_terminal_update :
      surface_of (apply_terminal_update p u force).0 ≡ cut p.rows (updated_surface u)
  unfolding apply_terminal_update
  surface-apply_terminal_update = ground arith

  pub scrollback-apply_terminal_update :
      scrollback_of (apply_terminal_update p u force).0
      ≡ (if u.preserve_scrollback then scrollback_of p else updated_scrollback u)
  unfolding apply_terminal_update
  scrollback-apply_terminal_update = ground arith

  pub rows-apply_terminal_update : (apply_terminal_update p u force).0.rows ≡ p.rows
  unfolding apply_terminal_update
  rows-apply_terminal_update = ground arith

  surface_changed-force :
      force ≡ true → surface_changed (patch_changes p u (updated_surface u) force) ≡ true
  unfolding surface_changed patch_changes
  surface_changed-force h = ground arith

  -- The pane before its patch is recorded has the rows and the indices that it had.
  written-rows :
      (b : Bool) (new : Rows)
      → let q = bump_scrollback b (write_surface (write_scrollback p u) u new) in
        (q.rows ≡ p.rows) × (q.last_row_update_indices ≡ p.last_row_update_indices)
  unfolding bump_scrollback write_surface write_scrollback
  written-rows true new = ground arith
  written-rows false new = ground arith

  indices-apply_terminal_update :
      (force ≡ true) ⊎ All (λ i. i < p.rows) p.last_row_update_indices
      → All (λ i. i < p.rows) (apply_terminal_update p u force).0.last_row_update_indices
  unfolding apply_terminal_update
  indices-apply_terminal_update (inl h) =
      record_patch-All p.rows _ _ _ _ _
        (written-rows (scrollback_changed p u) (updated_surface u)).0
        (inl (surface_changed-force h))
  indices-apply_terminal_update (inr h) =
      let same = written-rows (scrollback_changed p u) (updated_surface u) in
      record_patch-All p.rows _ _ _ _ _ same.0 (inr (subst (All (λ i. i < p.rows)) (sym same.1) h))

  -- Whatever the engine reports to a pane whose scrollback vectors have one length, and whose last
  -- patch names rows of the pane only or the update is forced: the pane's five surface vectors then
  -- have one length, at most its rows, the scrollback vectors have one length, and the patch names
  -- rows of the pane only.
  pub apply_terminal_update-IsAligned :
      AreAligned (scrollback_of p)
      → (force ≡ true) ⊎ All (λ i. i < p.rows) p.last_row_update_indices
      → IsAligned (apply_terminal_update p u force).0
  apply_terminal_update-IsAligned sb h = record {
    surface =
        rw surface-apply_terminal_update
          (cut-AreAligned p.rows (updated_surface u) (updated_surface-AreAligned u));
    scrollback = rw scrollback-apply_terminal_update (
        if-AreAligned u.preserve_scrollback (scrollback_of p) (updated_scrollback u) sb
          (updated_scrollback-AreAligned u));
    fits = rw rows-apply_terminal_update (
        omega (
          arith,
          ap (λ (r : Rows). length r.lines) surface-apply_terminal_update,
          length-take p.rows (updated_surface u).lines,
        ));
    indices =
        subst (λ m. All (λ i. i < m) (apply_terminal_update p u force).0.last_row_update_indices)
          (sym rows-apply_terminal_update) (indices-apply_terminal_update h);
  }
