-- ===== src/Sync/Palette.antt =====
-- A palette diff of the server, materialized by the client on the old palette.
use nmux.Base.{
  ℕ, ◌^◌, ◌≡◌, ◌<◌, ◌≤◌, ◌∙◌, ◌++◌, refl, sym, ap, ltb, false, none, some, Option-cases, ◌⊎◌, inl,
  inr, List, [], ◌∷◌, length, take, is_empty, arith, ℕ-DecEq, List-DecEq, take-length, length-take,
  append_nil,
}
use nmux.Session.{PaneState, PaletteDiff}
use nmux.Session.Update.{palette_diff}
use nmux.Session.Update.Patch.{palette_diff_lem}
use nmux.Session.Frame.{build_terminal_colors}
use nmux.Client.Surface.{ok}
use nmux.Client.Surface.Decode.{color_summary}
use nmux.Client.Surface.Patch.{materialize}
use nmux.Sync.Mirror.{mirror_colors}
use nmux.Sync.Patch.{diff_colors}

no_diff : (old new : List ℕ) → palette_diff old new ≡ none → old ≡ new
unfolding palette_diff
no_diff old new h = ground arith

List-cases : (xs : List ℕ) → (xs ≡ []) ⊎ (is_empty xs ≡ false)
List-cases [] = inl refl
List-cases (x ∷ xs) = inr refl

same_diff : (old new : List ℕ) → old ≡ new → palette_diff old new ≡ none
unfolding palette_diff
same_diff old new h = ground arith

-- What is kept of a palette, and no more, is the whole of one that is not shorter.
all_kept :
    (old new : List ℕ) (start : ℕ) → take start old ≡ new → length old ≤ length new → old ≡ new
all_kept old new start e l =
    let n = length-take start old in
    let whole = take-length start old (omega (arith, n, ap length e, l)) in sym whole ∙ e

-- The diff of a palette that did not shrink has colours.
diff_colors_some :
    (old new : List ℕ) (d : PaletteDiff)
    → length old < 2 ^ 32
    → length old ≤ length new
    → palette_diff old new ≡ some d
    → is_empty d.colors ≡ false
diff_colors_some old new d h l e =
    let (t, s) = palette_diff_lem old new d h e in
    elim (List-cases d.colors) [
      | inl k ↦
          let same =
            all_kept old new d.start
              (sym (append_nil (take d.start old)) ∙ ap (◌++◌ (take d.start old)) (sym k) ∙ t) l in
          cc (e, same_diff old new same)
      | inr k ↦ k
    ]

module _ (p q : PaneState) where
  pub materialize-palette_diff :
      length p.colors.palette_rgba < 2 ^ 32
      → length p.colors.palette_rgba ≤ length q.colors.palette_rgba
      → materialize
          (diff_colors q (palette_diff p.colors.palette_rgba q.colors.palette_rgba))
          (mirror_colors p.colors)
        ≡ ok (mirror_colors q.colors)
  unfolding materialize color_summary build_terminal_colors
  materialize-palette_diff h l =
      elim (Option-cases (palette_diff p.colors.palette_rgba q.colors.palette_rgba)) [
        | inl e ↦ rw (e, no_diff p.colors.palette_rgba q.colors.palette_rgba e) refl
        | inr (d, e) ↦
            let (t, s) = palette_diff_lem p.colors.palette_rgba q.colors.palette_rgba d h e in
            let k = diff_colors_some p.colors.palette_rgba q.colors.palette_rgba d h l e in
            let m : ltb (length p.colors.palette_rgba) d.start ≡ false = ground arith in
            rw (e, k, m, t) refl
      ]
