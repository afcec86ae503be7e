-- ===== src/Session/Output/Valid.antt =====
-- The well-formedness of a session under output and resize (crates/nmux-core/src/session.rs).
use nmux.Base.{
  ◌≡◌, ◌∙◌, Bool, true, false, none, some, Option, Option-cases, inl, inr, Text, List, arith, ℕ,
}
use nmux.Terminal.{TerminalUpdate, TerminalEngine}
use nmux.Session.{PaneState, state, Session}
use nmux.Session.Tabs.{find_pane}
use nmux.Session.Update.{apply_terminal_update}
use nmux.Session.Valid.{IsValid}
use nmux.Session.Valid.Write.{write_pane-IsValid, find_pane-id}
use nmux.Session.Output.{
  output_update, resize_update, terminal_input, apply_pane_output_with_engine,
  commit_pane_resize_with_engine,
}

-- An update never renames its pane.
pub id-apply_terminal_update :
    (p : PaneState) (u : TerminalUpdate) (force : Bool)
    → (apply_terminal_update p u force).0.id ≡ p.id
unfolding apply_terminal_update
id-apply_terminal_update p u force = ground arith

output_update-IsValid :
    (s : Session) (id : Text) (p : PaneState) (o : Option TerminalUpdate)
    → p.id ≡ id
    → IsValid s
    → IsValid (output_update s id p o).0
unfolding output_update
output_update-IsValid s id p none e v = v
output_update-IsValid s id p (some u) e v =
    write_pane-IsValid id (apply_terminal_update p u false).0
      (id-apply_terminal_update p u false ∙ e) s v

resize_update-IsValid :
    (s : Session) (id : Text) (p : PaneState) (cols rows : ℕ) (o : Option TerminalUpdate)
    → p.id ≡ id
    → IsValid s
    → IsValid (resize_update s id p cols rows o).0
unfolding resize_update
resize_update-IsValid s id p cols rows none e v = v
resize_update-IsValid s id p cols rows (some u) e v =
    let resized = record p { cols = cols; rows = rows } in
    let w =
      write_pane-IsValid id (apply_terminal_update resized u true).0
        (id-apply_terminal_update resized u true ∙ e) s v in
    record { active = w.active; focused = w.focused; distinct = w.distinct }

module _ (E : TerminalEngine) (s : Session) (id : Text) (engine : E.State) (v : IsValid s) where
  pub apply_pane_output-IsValid :
      (output : List ℕ) → IsValid (apply_pane_output_with_engine E s id output engine).0
  unfolding apply_pane_output_with_engine
  apply_pane_output-IsValid output = elim (Option-cases (find_pane s id)) [
    | inl e ↦ ground arith
    | inr (p, e) ↦
        rw (e, apply_pane_output_with_engine)
          (output_update-IsValid s id (state p) _ (find_pane-id s id p e) v)
  ]

  pub commit_pane_resize-IsValid :
      (cols rows : ℕ) → IsValid (commit_pane_resize_with_engine E s id cols rows engine).0
  unfolding commit_pane_resize_with_engine
  commit_pane_resize-IsValid cols rows = elim (Option-cases (find_pane s id)) [
    | inl e ↦ ground arith
    | inr (p, e) ↦
        let resized =
          resize_update-IsValid s id (state p) cols rows
            (E.resize engine (terminal_input (state p)) cols rows).0 (find_pane-id s id p e) v in
        ground arith
  ]
