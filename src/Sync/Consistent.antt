-- ===== src/Sync/Consistent.antt =====
-- The text of the runs of a pane's rows after a report.
use nmux.Base.{
  ℕ, zero, suc, ◌≡◌, ◌∙◌, inr, refl, ap, Bool, true, Text, List, [], ◌∷◌, map, take, ◌++◌, arith,
  append_nil, ≡→==, ℕ-DecEq, List-DecEq,
}
use nmux.Terminal.{CellRun, TerminalUpdate, plain, cell_runs_text}
use nmux.Session.{PaneState}
use nmux.Session.Update.{
  Rows, updated_surface, rows_for_lines, row_runs_for_lines, runs_match, apply_terminal_update,
}
use nmux.Session.Update.Aligned.{surface-apply_terminal_update, apply_terminal_update-IsAligned}
use nmux.Sync.Mirror.{IsConsistent}

plain_match : (lines : List Text) → runs_match (map (λ line. plain line ∷ []) lines) lines ≡ true
unfolding runs_match plain cell_runs_text
plain_match [] = refl
plain_match (line ∷ lines) =
    let e = ≡→== (line ++ []) line (append_nil line) in rw (e, plain_match lines) refl

take_match :
    (n : ℕ) (runs : List (List CellRun)) (lines : List Text)
    → runs_match runs lines ≡ true
    → runs_match (take n runs) (take n lines) ≡ true
unfolding runs_match
take_match zero runs lines h = refl
take_match (suc n) [] lines h = refl
take_match (suc n) (r ∷ runs) [] h = h
take_match (suc n) (r ∷ runs) (l ∷ lines) h = ground (arith, take_match n runs lines)

row_runs_match :
    (lines : List Text) (runs : List (List CellRun))
    → runs_match (row_runs_for_lines lines runs) lines ≡ true
unfolding row_runs_for_lines
row_runs_match lines runs = ground (arith, plain_match lines)

updated_match :
    (u : TerminalUpdate) → runs_match (updated_surface u).runs (updated_surface u).lines ≡ true
unfolding updated_surface rows_for_lines
updated_match u = row_runs_match u.surface_lines u.surface_row_runs

-- From a consistent pane, any report leaves a consistent pane.
pub apply_terminal_update-IsConsistent :
    (p : PaneState) (u : TerminalUpdate) (force : Bool)
    → IsConsistent p
    → IsConsistent (apply_terminal_update p u force).0
apply_terminal_update-IsConsistent p u force c = record {
  aligned = apply_terminal_update-IsAligned p u force c.aligned.scrollback (inr c.aligned.indices);
  matches =
      ap (λ (r : Rows). runs_match r.runs r.lines) (surface-apply_terminal_update p u force)
      ∙ take_match p.rows (updated_surface u).runs (updated_surface u).lines (updated_match u);
}
