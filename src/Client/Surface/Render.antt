-- ===== src/Client/Surface/Render.antt =====
-- The text that a client shows of a surface (crates/nmux-cli/src/local/surface.rs).
use nmux.Base.{
  ℕ, zero, suc, ◌+◌, ◌^◌, ◌==◌, ◌!=◌, ◌&&◌, ◌||◌, not, Bool, true, false, Text, codes, Option, none,
  some, List, [], ◌∷◌, ◌++◌, map_option, get_elem?, take, is_empty, if◌then◌else◌, ◌>>=◌, ℕ-DecEq,
  List-DecEq,
}
use nmux.Terminal.Keys.{decimal, has_bit}
use nmux.Client.StateFile.{to_be_bytes}
use nmux.Client.Surface.{ClientPaneSurface, CellRunSummary, StyleSummary}

-- The rows up to the last one that is not empty: `rposition` and one more.
unfoldable pub visible_rows : List Text → ℕ
visible_rows [] = 0
visible_rows (row ∷ rows) =
    let rest = visible_rows rows in if rest == 0 && is_empty row then 0 else suc rest

unfoldable pub visible_row_count : ClientPaneSurface → ℕ
unfolding visible_rows
visible_row_count s = visible_rows s.row_text

-- `join("\n")`.
unfoldable pub join_lines : List Text → Text
join_lines [] = []
join_lines (row ∷ []) = row
join_lines (row ∷ next ∷ rows) = row ++ 10 ∷ join_lines (next ∷ rows)

unfoldable pub render_text : ClientPaneSurface → Text
unfolding visible_row_count join_lines
render_text s = join_lines (take (visible_row_count s) s.row_text)

-- A parameter that a flag adds.
abbrev when : Bool → Text → List Text
when true p = p ∷ []
when false p = []

unfoldable pub underline_params : ℕ → List Text
unfolding has_bit
underline_params flags =
    if has_bit flags (2 ^ 8)
    then codes "4" ∷ []
    else if has_bit flags (2 ^ 9)
    then codes "21" ∷ []
    else when
        (has_bit flags (2 ^ 10)
          || has_bit flags (2 ^ 11)
          || has_bit flags (2 ^ 12)
          || has_bit flags (2 ^ 13)
          || has_bit flags (2 ^ 14))
        (codes "4")

unfoldable pub color_params : Text → ℕ → List Text
unfolding to_be_bytes decimal
color_params prefix rgba = elim (to_be_bytes rgba) [
  | r ∷ g ∷ b ∷ rest ↦
      when (rgba != 0) (prefix ++ 59 ∷ decimal r ++ 59 ∷ decimal g ++ 59 ∷ decimal b)
  | _ ↦ []
]

-- `params.join(";")`.
unfoldable pub join_params : List Text → Text
join_params [] = []
join_params (p ∷ []) = p
join_params (p ∷ next ∷ ps) = p ++ 59 ∷ join_params (next ∷ ps)

unfoldable pub style_params : StyleSummary → List Text
unfolding has_bit underline_params color_params
style_params style =
    when (has_bit style.flags (2 ^ 0)) (codes "1")
    ++ when (has_bit style.flags (2 ^ 2)) (codes "2")
    ++ when (has_bit style.flags (2 ^ 1)) (codes "3")
    ++ underline_params style.flags
    ++ when (has_bit style.flags (2 ^ 3)) (codes "5")
    ++ when (has_bit style.flags (2 ^ 4)) (codes "7")
    ++ when (has_bit style.flags (2 ^ 5)) (codes "8")
    ++ when (has_bit style.flags (2 ^ 6)) (codes "9")
    ++ when (has_bit style.flags (2 ^ 7)) (codes "53")
    ++ color_params (codes "38;2") style.fg_rgba
    ++ color_params (codes "48;2") style.bg_rgba

unfoldable pub style_to_sgr : StyleSummary → Text
unfolding style_params join_params
style_to_sgr style =
    let params = style_params style in
    if is_empty params then [] else 27 ∷ 91 ∷ join_params params ++ 109 ∷ []

unfoldable pub needs_sgr : StyleSummary → Bool
needs_sgr s = s.fg_rgba != 0 || s.bg_rgba != 0 || s.flags != 0

unfoldable pub render_run : Option StyleSummary → Text → Text
unfolding needs_sgr style_to_sgr
render_run none text = text
render_run (some style) text =
    if needs_sgr style then style_to_sgr style ++ text ++ 27 ∷ codes "[0m" else text

unfoldable pub render_runs : List StyleSummary → List CellRunSummary → Text
unfolding render_run
render_runs styles [] = []
render_runs styles (run ∷ runs) =
    render_run (get_elem? styles run.style_id) run.text ++ render_runs styles runs

-- `none` is an index out of bounds.
unfoldable pub render_styled_row : ClientPaneSurface → ℕ → Option Text
unfolding render_runs
render_styled_row s row_index = do
  runs ← get_elem? s.row_runs row_index
  if is_empty runs then get_elem? s.row_text row_index else some (render_runs s.styles runs)

-- The rows from `row_index` on.
unfoldable pub styled_rows : ClientPaneSurface → ℕ → ℕ → Option (List Text)
unfolding render_styled_row
styled_rows s row_index zero = some []
styled_rows s row_index (suc count) = do
  row ← render_styled_row s row_index
  rows ← styled_rows s (row_index + 1) count
  some (row ∷ rows)

unfoldable pub render_styled_text : ClientPaneSurface → Option Text
unfolding styled_rows visible_row_count join_lines
render_styled_text s = map_option join_lines (styled_rows s 0 (visible_row_count s))

unfoldable pub has_styled_runs : ClientPaneSurface → Bool
unfolding needs_sgr
has_styled_runs s = elim s.styles [
  | [] ↦ false
  | first ∷ rest ↦ not (is_empty rest) || needs_sgr first
]
