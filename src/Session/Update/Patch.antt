-- ===== src/Session/Update/Patch.antt =====
-- A recorded patch of rows and what it leaves out (crates/nmux-core/src/session.rs,
-- `apply_terminal_update`).
use nmux.Base.{
  ◌≡◌, refl, ◌≤◌, ◌<◌, ◌+◌, ◌^◌, ◌==◌, ◌||◌, ◌∙◌, sym, ap, subst, some, drop, ◌++◌, Bool, true,
  false, List, [], ◌∷◌, arith, ℕ, zero, suc, length, get_elem?, get_elem?-take, take, ℕ-DecEq,
}
use nmux.Protocol.{PatchKind, PatchKind-DecEq}
use nmux.Terminal.{TerminalUpdate}
use nmux.Session.{PaneState, PaletteDiff, all_row_indices, indices_from}
use nmux.Session.Update.{
  Rows, first_difference, palette_diff, surface_of, updated_surface, TerminalPatchChanges,
  terminal_patch_kind, surface_changed, patch_changes, row_changed, changed_rows,
  surface_row_update_indices, keep_below, apply_terminal_update,
}
use nmux.Session.Update.Aligned.{cut, surface-apply_terminal_update}

abbrev pub contains : ℕ → List ℕ → Bool
contains i [] = false
contains i (j ∷ js) = j == i || contains i js

-- One row of the five vectors is the same in both.
abbrev pub SameRow : Rows → Rows → ℕ → Type 0
SameRow a b i =
    (get_elem? a.lines i ≡ get_elem? b.lines i)
    × (get_elem? a.runs i ≡ get_elem? b.runs i)
    × (get_elem? a.prompts i ≡ get_elem? b.prompts i)
    × (get_elem? a.dirty i ≡ get_elem? b.dirty i)
    × (get_elem? a.placeholders i ≡ get_elem? b.placeholders i)

row_changed-SameRow : (a b : Rows) (i : ℕ) → row_changed a b i ≡ false → SameRow a b i
unfolding row_changed
row_changed-SameRow a b i h = ground arith

-- A row outside the list of the changed ones did not change.
unlisted_changed_rows :
    (a b : Rows) (i start count : ℕ)
    → start ≤ i
    → i < start + count
    → i < 2 ^ 32
    → contains i (changed_rows a b start count) ≡ false
    → row_changed a b i ≡ false
unfolding changed_rows
unlisted_changed_rows a b i start zero l h w e = absurd (omega arith)
unlisted_changed_rows a b i start (suc count) l h w e =
    ground (arith, unlisted_changed_rows a b i (start + 1) count)

pub listed_indices_from :
    (i start count : ℕ)
    → start ≤ i
    → i < start + count
    → i < 2 ^ 32
    → contains i (indices_from start count) ≡ true
listed_indices_from i start zero l h w = absurd (omega arith)
listed_indices_from i start (suc count) l h w =
    ground (arith, listed_indices_from i (start + 1) count)

contains-keep_below : (n i : ℕ) (is : List ℕ) → i < n → contains i (keep_below n is) ≡ contains i is
unfolding keep_below
contains-keep_below n i [] h = refl
contains-keep_below n i (j ∷ is) h = ground (arith, contains-keep_below n i is h)

unlisted_row_update :
    (p : PaneState) (new : Rows) (i : ℕ)
    → i < length new.lines
    → i < 2 ^ 32
    → contains i (surface_row_update_indices p new false) ≡ false
    → SameRow (surface_of p) new i
unfolding surface_row_update_indices all_row_indices
unlisted_row_update p new i h w e = row_changed-SameRow (surface_of p) new i (
    ground (
      arith,
      listed_indices_from i 0 (length new.lines),
      unlisted_changed_rows (surface_of p) new i 0 (length new.lines),
    ))

-- Rows alone: no style, colour or kind of surface changed with them.
pub replace_rows_lem :
    (c : TerminalPatchChanges)
    → surface_changed c ≡ true
    → terminal_patch_kind c ≡ PatchKind.replace_rows
    → c.row_count_changed ≡ false
    → (c.styles_changed ≡ false) × (c.colors_changed ≡ false) × (c.surface_kind_changed ≡ false)
unfolding surface_changed terminal_patch_kind
replace_rows_lem c h k r = ground arith

SameRow-cut : (a r : Rows) (n i : ℕ) → i < n → SameRow a r i → SameRow a (cut n r) i
SameRow-cut a r n i h (s0, s1, s2, s3, s4) = (
  s0 ∙ sym (get_elem?-take n i r.lines h),
  s1 ∙ sym (get_elem?-take n i r.runs h),
  s2 ∙ sym (get_elem?-take n i r.prompts h),
  s3 ∙ sym (get_elem?-take n i r.dirty h),
  s4 ∙ sym (get_elem?-take n i r.placeholders h),
)

module _ (p : PaneState) (u : TerminalUpdate) where
  abbrev changes : TerminalPatchChanges
  changes = patch_changes p u (updated_surface u) false

  abbrev after : PaneState
  after = (apply_terminal_update p u false).0

  version_moved : p.surface_version < after.surface_version → surface_changed changes ≡ true
  unfolding apply_terminal_update
  version_moved h = ground arith

  recorded :
      surface_changed changes ≡ true
      → after.last_patch_kind ≡ PatchKind.replace_rows
      → (terminal_patch_kind changes ≡ PatchKind.replace_rows)
        × (after.last_row_update_indices
            ≡ keep_below p.rows (surface_row_update_indices p (updated_surface u) false))
        × (after.styles ≡ u.styles)
        × (after.colors ≡ u.colors)
        × (after.surface ≡ u.surface)
  unfolding apply_terminal_update
  recorded c k = ground arith

  unchanged :
      (changes.styles_changed ≡ false)
      → (changes.colors_changed ≡ false)
      → (changes.surface_kind_changed ≡ false)
      → (p.styles ≡ u.styles) × (p.colors ≡ u.colors) × (p.surface ≡ u.surface)
  unfolding patch_changes
  unchanged s c k = ground arith

  -- After a report that was not forced and moved the surface version, with the patch kind
  -- ReplaceRows: the styles, the colours and the kind of surface are the old ones.
  pub replace_rows_keeps :
      p.surface_version < after.surface_version
      → after.last_patch_kind ≡ PatchKind.replace_rows
      → (after.styles ≡ p.styles) × (after.colors ≡ p.colors) × (after.surface ≡ p.surface)
  unfolding patch_changes
  replace_rows_keeps moved kind =
      let c = version_moved moved in
      let (k, is, st, co, su) = recorded c kind in
      let (no_style, no_color, no_kind) = replace_rows_lem changes c k refl in
      let (st', co', su') = unchanged no_style no_color no_kind in
      (st ∙ sym st', co ∙ sym co', su ∙ sym su')

  -- After such a report, a row that lies within the pane and within the report, and that the
  -- patch does not list, is the old one in all five row vectors.
  pub replace_rows_complete :
      (i : ℕ)
      → i < p.rows
      → i < length (updated_surface u).lines
      → i < 2 ^ 32
      → p.surface_version < after.surface_version
      → after.last_patch_kind ≡ PatchKind.replace_rows
      → contains i after.last_row_update_indices ≡ false
      → SameRow (surface_of p) (surface_of after) i
  replace_rows_complete i fits within w moved kind unlisted =
      let (k, is, st, co, su) = recorded (version_moved moved) kind in
      let all = surface_row_update_indices p (updated_surface u) false in
      subst (λ r. SameRow (surface_of p) r i) (sym (surface-apply_terminal_update p u false))
        (SameRow-cut (surface_of p) (updated_surface u) p.rows i fits (
          unlisted_row_update p (updated_surface u) i within w
            (sym (contains-keep_below p.rows i all fits) ∙ sym (ap (contains i) is) ∙ unlisted)))

-- A palette diff on top of what the palettes share is the new palette.
take-first_difference :
    (old new : List ℕ)
    → (take (first_difference old new) old ++ drop (first_difference old new) new ≡ new)
      × (first_difference old new ≤ length old)
unfolding first_difference
take-first_difference [] ys = (refl, omega arith)
take-first_difference (x ∷ xs) [] = (refl, omega arith)
take-first_difference (x ∷ xs) (y ∷ ys) = ground (arith, take-first_difference xs ys)

-- If two palettes have a diff, and the old one has fewer than 2 ^ 32 colours, then the diff starts
-- within the old palette, and its colours behind that many of the old ones are the new palette.
pub palette_diff_lem :
    (old new : List ℕ) (d : PaletteDiff)
    → length old < 2 ^ 32
    → palette_diff old new ≡ some d
    → (take d.start old ++ d.colors ≡ new) × (d.start ≤ length old)
unfolding palette_diff
palette_diff_lem old new d h e = ground (arith, take-first_difference old new)
