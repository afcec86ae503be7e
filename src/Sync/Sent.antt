-- ===== src/Sync/Sent.antt =====
-- The rows that the server puts in a frame, as the client decodes them.
use nmux.Base.{
  ℕ, zero, suc, ◌≡◌, ◌<◌, ◌≤◌, ◌==◌, ◌||◌, ◌∙◌, refl, ap, subst, ℕ-DecEq, true, Text, some, List,
  [], ◌∷◌, ◌++◌, map, length, get_elem?, All, arith,
}
use nmux.Protocol.{RowSemanticPrompt}
use nmux.Terminal.{CellRun, cell_runs_text}
use nmux.Session.{PaneState}
use nmux.Session.Update.{
  runs_match, row_runs_for_lines, row_semantic_prompts_for_lines, row_dirty_flags_for_lines,
  row_kitty_placeholders_for_lines,
}
use nmux.Session.Frame.{
  PaneSurface, surface_of_pane, unwrap_or, build_cell_run, build_cell_runs, build_row, row_metadata,
  patch_row,
}
use nmux.Session.Frame.Hash.{RowStateMetadata, stable_row_hash, row_state_hash}
use nmux.Client.Surface.{render_run_summaries, SurfaceRowUpdate}
use nmux.Client.Surface.Decode.{decoded_cell_run, decoded_cell_runs, decoded_surface_row}
use nmux.Client.Surface.Validate.{semantic_prompt_known}
use nmux.Client.Surface.Rows.{shown_runs}
use nmux.Sync.Mirror.{
  run_summary, filled_row, seen_row, mirror_row, IsConsistent, IsSendable, IsKnownRun,
}
use nmux.Session.Update.Patch.{contains}
use nmux.Sync.Delivery.{row_of_update, IsAccepted, IsAcceptedRun, Delivers, lists}

-- Row numbers in rising order, from `start` to below `n`.
abbrev pub IsRising : ℕ → ℕ → List ℕ → Type 0
IsRising n start [] = Unit
IsRising n start (i ∷ is) = (start ≤ i) × (i < n) × IsRising n (suc i) is

decoded_runs :
    (runs : List CellRun) → decoded_cell_runs (build_cell_runs runs) ≡ map run_summary runs
unfolding decoded_cell_runs build_cell_runs decoded_cell_run build_cell_run run_summary
decoded_runs [] = refl
decoded_runs (run ∷ runs) = ap (◌∷◌ (run_summary run)) (decoded_runs runs)

render-run_summary :
    (runs : List CellRun) → render_run_summaries (map run_summary runs) ≡ cell_runs_text runs
unfolding render_run_summaries cell_runs_text run_summary
render-run_summary [] = refl
render-run_summary (run ∷ runs) = ap (◌++◌ run.text) (render-run_summary runs)

-- A row that was built and decoded again.
decoded_row :
    (row : ℕ) (line : Text) (runs : List CellRun) (m : RowStateMetadata)
    → cell_runs_text runs ≡ line
    → row_of_update (decoded_surface_row (build_row row line runs m)) ≡ filled_row line runs m
unfolding decoded_surface_row build_row filled_row
decoded_row row line runs m e =
    let d = decoded_runs runs in
    let t = ap render_run_summaries d ∙ render-run_summary runs ∙ e in
    λ i. record {
      text = t i;
      runs = shown_runs (t i) (d i);
      dirty_hash = stable_row_hash line;
      semantic_prompt = m.semantic_prompt;
      dirty = m.dirty;
      kitty_placeholder = m.kitty_virtual_placeholder;
      state_hash = row_state_hash runs m;
    }

accepted_runs :
    (styles : ℕ) (runs : List CellRun)
    → All (IsKnownRun styles) runs
    → All (IsAcceptedRun styles) (map run_summary runs)
unfolding run_summary
accepted_runs styles [] a = tt
accepted_runs styles (run ∷ runs) ((c, l), a) = ((c, l, refl), accepted_runs styles runs a)

accepted_row :
    (styles row : ℕ) (line : Text) (runs : List CellRun) (m : RowStateMetadata)
    → semantic_prompt_known m.semantic_prompt ≡ true
    → All (IsKnownRun styles) runs
    → IsAccepted styles (decoded_surface_row (build_row row line runs m))
unfolding decoded_surface_row build_row
accepted_row styles row line runs m k a = (k, rw (decoded_runs runs) (accepted_runs styles runs a))

module _ {A : Type 0} where
  get_elem?-some : (xs : List A) (i : ℕ) → i < length xs → (x : A) × (get_elem? xs i ≡ some x)
  get_elem?-some [] i h = absurd (omega arith)
  get_elem?-some (x ∷ xs) zero h = (x, refl)
  get_elem?-some (x ∷ xs) (suc i) h = get_elem?-some xs i (omega arith)

  All-get_elem? :
      (P : A → Type 0) (xs : List A) (i : ℕ) (x : A) → All P xs → get_elem? xs i ≡ some x → P x
  All-get_elem? P [] i x a e = cc
  All-get_elem? P (y ∷ xs) zero x a e = subst P (ap (unwrap_or y) e) a.0
  All-get_elem? P (y ∷ xs) (suc i) x a e = All-get_elem? P xs i x a.1 e

matching_row :
    (runs : List (List CellRun)) (lines : List Text) (i : ℕ) (r : List CellRun) (l : Text)
    → runs_match runs lines ≡ true
    → get_elem? runs i ≡ some r
    → get_elem? lines i ≡ some l
    → cell_runs_text r ≡ l
unfolding runs_match
matching_row [] lines i r l m e f = cc
matching_row (x ∷ xs) [] i r l m e f = cc
matching_row (x ∷ xs) (y ∷ ys) zero r l m e f = ground arith
matching_row (x ∷ xs) (y ∷ ys) (suc i) r l m e f = matching_row xs ys i r l (ground arith) e f

-- The rows of a consistent pane are sent as they are stored.
pub stored :
    (p : PaneState)
    → IsConsistent p
    → (row_runs_for_lines p.surface_lines p.surface_row_runs ≡ p.surface_row_runs)
      × (row_semantic_prompts_for_lines p.surface_lines p.surface_semantic_prompts
          ≡ p.surface_semantic_prompts)
      × (row_dirty_flags_for_lines p.surface_lines p.surface_dirty_rows ≡ p.surface_dirty_rows)
      × (row_kitty_placeholders_for_lines p.surface_lines p.surface_kitty_placeholders
          ≡ p.surface_kitty_placeholders)
unfolding row_runs_for_lines row_semantic_prompts_for_lines row_dirty_flags_for_lines
    row_kitty_placeholders_for_lines
stored p c = let (a, b, d, e) = c.aligned.surface in ground (arith, a, b, d, e, c.matches)

known_default :
    (prompts : List RowSemanticPrompt) (i : ℕ)
    → All (λ k. semantic_prompt_known k ≡ true) prompts
    → semantic_prompt_known (unwrap_or RowSemanticPrompt.none (get_elem? prompts i)) ≡ true
known_default [] i a = refl
known_default (k ∷ ks) zero a = a.0
known_default (k ∷ ks) (suc i) a = known_default ks i a.1

-- The row `i` of a pane, as a client decodes it.
abbrev pub sent : PaneState → ℕ → SurfaceRowUpdate
sent p i = decoded_surface_row (patch_row (surface_of_pane p) i)

-- A pane whose rows can be sent.
module _ (p : PaneState) (c : IsConsistent p) (a : IsSendable p) where
  abbrev surface : PaneSurface
  surface = surface_of_pane p

  -- A row of the pane, with its runs as they are stored.
  module _ (i : ℕ) (line : Text) (runs : List CellRun)
      (at_line : get_elem? p.surface_lines i ≡ some line)
      (at_runs : get_elem? p.surface_row_runs i ≡ some runs) where
    patch_row_lem : patch_row surface i ≡ build_row i line runs (row_metadata surface i)
    unfolding patch_row surface_of_pane
    patch_row_lem = rw (at_line, (stored p c).0, at_runs) refl

    mirror_row_lem : mirror_row p i ≡ filled_row line runs (row_metadata surface i)
    unfolding mirror_row seen_row row_metadata surface_of_pane
    mirror_row_lem = let (_, s, d, k) = stored p c in rw (at_line, at_runs, s, d, k) refl

    known_metadata : semantic_prompt_known (row_metadata surface i).semantic_prompt ≡ true
    unfolding row_metadata surface_of_pane
    known_metadata = rw (stored p c).1 (known_default p.surface_semantic_prompts i a.prompts)

    sent_row : (row_of_update (sent p i) ≡ mirror_row p i) × IsAccepted (length p.styles) (sent p i)
    sent_row =
        let e =
          matching_row p.surface_row_runs p.surface_lines i runs line c.matches at_runs at_line in
        (
          rw (patch_row_lem, mirror_row_lem) (decoded_row i line runs (row_metadata surface i) e),
          rw patch_row_lem (
              accepted_row (length p.styles) i line runs (row_metadata surface i) known_metadata
                (All-get_elem? _ p.surface_row_runs i runs a.runs at_runs)),
        )

  pub sent-Delivers :
      (start : ℕ) (is : List ℕ)
      → IsRising (length p.surface_lines) start is
      → Delivers (length p.styles) p.rows (mirror_row p) start (map (sent p) is)
  unfolding decoded_surface_row patch_row build_row
  sent-Delivers start [] r = tt
  sent-Delivers start (i ∷ is) (lo, hi, r) =
      let (line, at_line) = get_elem?-some p.surface_lines i hi in
      let (runs, at_runs) =
        get_elem?-some p.surface_row_runs i (omega (arith, c.aligned.surface.0)) in
      let (e, k) = sent_row i line runs at_line at_runs in
      (lo, omega (arith, c.aligned.fits), e, k, sent-Delivers (suc i) is r)

-- The rows that a list of sent rows names.
pub lists-sent : (p : PaneState) (i : ℕ) (is : List ℕ) → lists i (map (sent p) is) ≡ contains i is
unfolding decoded_surface_row patch_row build_row
lists-sent p i [] = refl
lists-sent p i (j ∷ is) = ap (◌||◌ (j == i)) (lists-sent p i is)
