-- ===== src/Session/Update/Silent.antt =====
-- Reports that `apply_terminal_update` answers with false (crates/nmux-core/src/session.rs).
use nmux.Base.{
  ◌≡◌, ◌∙◌, sym, ap, Bool, true, false, List, arith, ℕ, take-length, none, ◌||◌, Option, !=→≡,
  List-DecEq, ℕ-DecEq, Bool-DecEq,
}
use nmux.Terminal.{TerminalUpdate, CellRun-DecEq}
use nmux.Protocol.{PatchKind, RowSemanticPrompt-DecEq}
use nmux.Session.{PaneState, PaletteDiff, of_terminal_cursor}
use nmux.Session.Update.{
  Rows, rows_for_lines, surface_of, updated_surface, rows_differ, surface_changed, patch_changes,
  rows_or_row_metadata_changed, TerminalPatchChanges, scrollback_changed, write_scrollback,
  write_surface, bump_scrollback, record_patch, apply_terminal_update,
}
use nmux.Session.Update.Aligned.{IsAligned}

-- No flag is up.
record IsQuiet (c : TerminalPatchChanges) : Type 0 where
  force : c.force_full_refresh ≡ false
  rows : c.rows_changed ≡ false
  runs : c.row_runs_changed ≡ false
  prompts : c.semantic_prompts_changed ≡ false
  dirty : c.dirty_rows_changed ≡ false
  placeholders : c.kitty_placeholders_changed ≡ false
  kind : c.surface_kind_changed ≡ false
  styles : c.styles_changed ≡ false
  cursor : c.cursor_changed ≡ false
  modes : c.modes_changed ≡ false
  title : c.title_changed ≡ false
  directory : c.working_directory_changed ≡ false
  colors : c.colors_changed ≡ false

or-false : (a b : Bool) → (a || b) ≡ false → (a ≡ false) × (b ≡ false)
or-false a b h = ground arith

pub quiet_rows :
    (c : TerminalPatchChanges)
    → rows_or_row_metadata_changed c ≡ false
    → (c.rows_changed ≡ false)
      × (c.row_runs_changed ≡ false)
      × (c.semantic_prompts_changed ≡ false)
      × (c.dirty_rows_changed ≡ false)
      × (c.kitty_placeholders_changed ≡ false)
unfolding rows_or_row_metadata_changed
quiet_rows c h = ground arith

quiet : (c : TerminalPatchChanges) → surface_changed c ≡ false → IsQuiet c
unfolding surface_changed
quiet c h = ground (arith, quiet_rows c)

-- The last steps where nothing was flagged.
untouched :
    (surface scrollback : Bool) (kind : PatchKind) (diff : Option PaletteDiff) (is : List ℕ)
    (p q : PaneState)
    → surface ≡ false
    → scrollback ≡ false
    → q ≡ p
    → record_patch surface kind diff is (bump_scrollback scrollback q)
      ≡ record p { last_palette_diff = none }
unfolding record_patch bump_scrollback
untouched false false kind diff is p q s b e = λ i. record (e i) { last_palette_diff = none }
untouched false true kind diff is p q s b e = cc
untouched true scrollback kind diff is p q s b e = cc

-- What the flags say of the report.
module _ (p : PaneState) (u : TerminalUpdate) (force : Bool) where
  abbrev new : Rows
  new = updated_surface u

  same_fields :
      IsQuiet (patch_changes p u new force)
      → (u.surface ≡ p.surface)
        × (u.modes ≡ p.modes)
        × (u.title ≡ p.terminal_title)
        × (u.working_directory ≡ p.terminal_working_directory)
        × (u.colors ≡ p.colors)
        × (u.styles ≡ p.styles)
        × (of_terminal_cursor u.cursor ≡ p.cursor)
  unfolding patch_changes
  same_fields q = ground arith

  same_rows : IsQuiet (patch_changes p u new force) → new ≡ surface_of p
  unfolding patch_changes updated_surface rows_for_lines
  same_rows q =
      let lines = !=→≡ p.surface_lines u.surface_lines q.rows in
      let runs = !=→≡ p.surface_row_runs new.runs q.runs in
      let prompts = !=→≡ p.surface_semantic_prompts new.prompts q.prompts in
      let dirty = !=→≡ p.surface_dirty_rows new.dirty q.dirty in
      let placeholders = !=→≡ p.surface_kitty_placeholders new.placeholders q.placeholders in
      λ i. record {
        lines = sym lines i;
        runs = sym runs i;
        prompts = sym prompts i;
        dirty = sym dirty i;
        placeholders = sym placeholders i;
      }

  quiet_surface : IsAligned p → IsQuiet (patch_changes p u new force) → write_surface p u new ≡ p
  unfolding write_surface
  quiet_surface a q =
      let (s0, s1, s2, s3, s4, s5, s6) = same_fields q in
      let e = same_rows q in
      ground (
        arith,
        s0,
        s1,
        s2,
        s3,
        s4,
        s5,
        s6,
        e,
        a.surface,
        a.fits,
        take-length p.rows p.surface_lines,
        take-length p.rows p.surface_row_runs,
        take-length p.rows p.surface_semantic_prompts,
        take-length p.rows p.surface_dirty_rows,
        take-length p.rows p.surface_kitty_placeholders,
      )

  quiet_scrollback : scrollback_changed p u ≡ false → write_scrollback p u ≡ p
  unfolding scrollback_changed write_scrollback rows_differ
  quiet_scrollback h = ground arith

  answer_lem :
      (apply_terminal_update p u force).1 ≡ false
      → (surface_changed (patch_changes p u new force) ≡ false) × (scrollback_changed p u ≡ false)
  unfolding apply_terminal_update
  answer_lem h = or-false _ _ h

  -- From a pane with aligned rows: if the answer is false, the update was not forced, and nothing
  -- in the pane but the last palette diff, which is dropped, differs from before.
  pub apply_terminal_update_silent :
      IsAligned p
      → (apply_terminal_update p u force).1 ≡ false
      → (force ≡ false)
        × ((apply_terminal_update p u force).0 ≡ record p { last_palette_diff = none })
  unfolding apply_terminal_update patch_changes
  apply_terminal_update_silent a h =
      let (s, b) = answer_lem h in
      let q = quiet (patch_changes p u new force) s in
      (
        q.force,
        untouched _ _ _ _ _ p _ s b
            (ap (λ w. write_surface w u new) (quiet_scrollback b) ∙ quiet_surface a q),
      )
