-- ===== src/Session/Output/Isolated.antt =====
-- The other panes at the output and the resize of a pane (crates/nmux-core/src/session.rs).
use nmux.Base.{
  ◌≡◌, ◌≢◌, ◌∙◌, refl, true, false, none, some, Option, map_option, Option-cases, inl, inr, Text,
  List, arith, ℕ, ℕ-DecEq,
}
use nmux.Terminal.{TerminalUpdate, TerminalEngine}
use nmux.Session.{PaneState, state, Session}
use nmux.Session.Tabs.{find_pane}
use nmux.Session.Update.{apply_terminal_update}
use nmux.Session.Valid.Write.{state-write_pane_ne, find_pane-id}
use nmux.Session.Output.Valid.{id-apply_terminal_update}
use nmux.Session.Output.{
  output_update, resize_update, terminal_input, apply_pane_output_with_engine,
  commit_pane_resize_with_engine,
}

module _ (s : Session) (id j : Text) (other : j ≢ id) (p : PaneState) (named : p.id ≡ id) where
  state-output_update :
      (o : Option TerminalUpdate)
      → map_option state (find_pane (output_update s id p o).0 j) ≡ map_option state (find_pane s j)
  unfolding output_update
  state-output_update none = refl
  state-output_update (some u) =
      state-write_pane_ne id (apply_terminal_update p u false).0
        (id-apply_terminal_update p u false ∙ named) s j other

  state-resize_update :
      (cols rows : ℕ) (o : Option TerminalUpdate)
      → map_option state (find_pane (resize_update s id p cols rows o).0 j)
        ≡ map_option state (find_pane s j)
  unfolding resize_update find_pane
  state-resize_update cols rows none = refl
  state-resize_update cols rows (some u) =
      let resized = record p { cols = cols; rows = rows } in
      state-write_pane_ne id (apply_terminal_update resized u true).0
        (id-apply_terminal_update resized u true ∙ named) s j other

-- Output of one pane leaves the state of every other pane as it was, whatever its engine reports.
pub state-apply_pane_output :
    (E : TerminalEngine) (s : Session) (id j : Text) (output : List ℕ) (engine : E.State)
    → j ≢ id
    → map_option state (find_pane (apply_pane_output_with_engine E s id output engine).0 j)
      ≡ map_option state (find_pane s j)
unfolding apply_pane_output_with_engine
state-apply_pane_output E s id j output engine h = elim (Option-cases (find_pane s id)) [
  | inl e ↦ ground arith
  | inr (p, e) ↦
      rw (e, apply_pane_output_with_engine)
        (state-output_update s id j h (state p) (find_pane-id s id p e) _)
]

-- So does a resize of one pane.
pub state-commit_pane_resize :
    (E : TerminalEngine) (s : Session) (id j : Text) (cols rows : ℕ) (engine : E.State)
    → j ≢ id
    → map_option state (find_pane (commit_pane_resize_with_engine E s id cols rows engine).0 j)
      ≡ map_option state (find_pane s j)
unfolding commit_pane_resize_with_engine
state-commit_pane_resize E s id j cols rows engine h = elim (Option-cases (find_pane s id)) [
  | inl e ↦ ground arith
  | inr (p, e) ↦
      let resized =
        state-resize_update s id j h (state p) (find_pane-id s id p e) cols rows
          (E.resize engine (terminal_input (state p)) cols rows).0 in
      ground arith
]
