-- ===== src/Sync/Shown.antt =====
-- The text that an up-to-date client shows of a pane.
use nmux.Base.{
  ℕ, zero, suc, ◌≡◌, ◌≤◌, ◌∙◌, ◌==◌, ◌&&◌, refl, ap, Bool, true, false, Text, Option, List, [], ◌∷◌,
  length, get_elem?, take, is_empty, arith, if◌then◌else◌, ℕ-DecEq, ℕ_discrete,
}
use nmux.Protocol.{RowSemanticPrompt}
use nmux.Terminal.{CellRun}
use nmux.Session.{PaneState}
use nmux.Client.Surface.Render.{visible_rows, visible_row_count, join_lines, render_text}
use nmux.Sync.Mirror.{seen_row, filled_row, mirror_row, mirror, tabulate}
use nmux.Sync.Delivery.{tabulate-cong}

-- The lines without the empty ones at the end.
unfoldable pub shown_lines : List Text → List Text
shown_lines [] = []
shown_lines (line ∷ lines) =
    let rest = shown_lines lines in if is_empty rest && is_empty line then [] else line ∷ rest

-- The line of a row, empty behind the last one.
abbrev line_at : List Text → ℕ → Text
line_at [] i = []
line_at (line ∷ lines) zero = line
line_at (line ∷ lines) (suc i) = line_at lines i

if_lem :
    (b : Bool) (n : ℕ) (line : Text) (rest : List Text)
    → ((if b then 0 else suc n) == 0) ≡ is_empty (if b then [] else line ∷ rest)
unfolding ℕ_discrete
if_lem true n line rest = refl
if_lem false n line rest = ground arith

take_if :
    (b : Bool) (n : ℕ) (line : Text) (lines rest : List Text)
    → take n lines ≡ rest
    → take (if b then 0 else suc n) (line ∷ lines) ≡ (if b then [] else line ∷ rest)
take_if true n line lines rest h = refl
take_if false n line lines rest h = ap (◌∷◌ line) h

visible_lem : (lines : List Text) → (visible_rows lines == 0) ≡ is_empty (shown_lines lines)
unfolding visible_rows shown_lines ℕ_discrete
visible_lem [] = refl
visible_lem (line ∷ lines) = rw (visible_lem lines) (
    if_lem (is_empty (shown_lines lines) && is_empty line) (visible_rows lines) line
      (shown_lines lines))

take-visible_rows : (lines : List Text) → take (visible_rows lines) lines ≡ shown_lines lines
unfolding visible_rows shown_lines
take-visible_rows [] = refl
take-visible_rows (line ∷ lines) = rw (visible_lem lines) (
    take_if (is_empty (shown_lines lines) && is_empty line) (visible_rows lines) line lines
      (shown_lines lines) (take-visible_rows lines))

-- Rows behind the lines are not shown.
shown_blank : (n : ℕ) → shown_lines (tabulate n (λ i. [])) ≡ []
unfolding shown_lines
shown_blank zero = refl
shown_blank (suc n) = rw (shown_blank n) refl

shown_padded :
    (n : ℕ) (lines : List Text)
    → length lines ≤ n
    → shown_lines (tabulate n (line_at lines)) ≡ shown_lines lines
unfolding shown_lines
shown_padded n [] h = shown_blank n
shown_padded zero (line ∷ lines) h = absurd (omega arith)
shown_padded (suc n) (line ∷ lines) h = rw (shown_padded n lines (omega arith)) refl

text-seen_row :
    (lines : List Text) (i : ℕ) (runs : Option (List CellRun)) (prompt : Option RowSemanticPrompt)
    (dirty placeholder : Option Bool)
    → (seen_row (get_elem? lines i) runs prompt dirty placeholder).text ≡ line_at lines i
unfolding seen_row filled_row
text-seen_row [] i runs prompt dirty placeholder = refl
text-seen_row (line ∷ lines) zero runs prompt dirty placeholder = refl
text-seen_row (line ∷ lines) (suc i) runs prompt dirty placeholder =
    text-seen_row lines i runs prompt dirty placeholder

text-mirror_row : (p : PaneState) (i : ℕ) → (mirror_row p i).text ≡ line_at p.surface_lines i
unfolding mirror_row
text-mirror_row p i = text-seen_row p.surface_lines i _ _ _ _

-- What an up-to-date client renders of a pane, whose lines are no more than its rows, is the
-- pane's lines, without the empty ones at the end, joined by newlines.
pub render_text-mirror :
    (p : PaneState)
    → length p.surface_lines ≤ p.rows
    → render_text (mirror p) ≡ join_lines (shown_lines p.surface_lines)
unfolding render_text visible_row_count mirror
render_text-mirror p h = ap join_lines (
    take-visible_rows (tabulate p.rows (λ i. (mirror_row p i).text))
    ∙ ap shown_lines (
        tabulate-cong p.rows (λ i. (mirror_row p i).text) (line_at p.surface_lines)
          (λ i l. text-mirror_row p i))
    ∙ shown_padded p.rows p.surface_lines h)
