-- ===== src/Terminal/Interim/Merge.antt =====
-- The interim engine: text appended to the scrollback (crates/nmux-core/src/terminal.rs,
-- `merge_interim_pty_output`, `interim_text_update` and `InterimTextTerminalEngine`).
pub mod Kept
use nmux.Base.{
  ℕ, ◌-◌, ◌≤◌, ◌==◌, ◌!=◌, ◌&&◌, ◌||◌, not, ltb, leb, Bool, true, false, Text, Option, none, some,
  List, [], ◌∷◌, ◌++◌, if◌then◌else◌, is_empty, length, drop, min, u32_max, as_u32, ℕ-DecEq,
}
use nmux.Protocol.{PatchKind, SurfaceKind}
use nmux.Terminal.{
  TerminalCursor, TerminalModes, TerminalColors, TerminalInput, TerminalUpdate, update_plain,
  TerminalEngine,
}
use nmux.Terminal.Interim.{InterimAnsiState, consume}

-- `char::is_control`: the category Cc.
unfoldable pub is_control : ℕ → Bool
is_control c = ltb c 0x20 || leb 0x7f c && leb c 0x9f

-- `text.replace("\r\n", "\n").replace('\r', "\n")`.
unfoldable replace_crlf : Text → Text
replace_crlf [] = []
replace_crlf (c ∷ []) = c ∷ []
replace_crlf (c ∷ d ∷ text) =
    let skipped = replace_crlf text in
    let rest = replace_crlf (d ∷ text) in if c == 13 && d == 10 then 10 ∷ skipped else c ∷ rest

unfoldable replace_cr : Text → Text
replace_cr [] = []
replace_cr (c ∷ text) = (if c == 13 then 10 else c) ∷ replace_cr text

unfoldable pub line_width : Text → ℕ
line_width line = min (length line) u32_max

-- `lines.last()`, which the source only asks for when there is one.
unfoldable pub last_line : List Text → Text
last_line [] = []
last_line (line ∷ []) = line
last_line (line ∷ next ∷ lines) = last_line (next ∷ lines)

-- `lines.last_mut().push(ch)`.
unfoldable pub push_last : List Text → ℕ → List Text
push_last [] ch = []
push_last (line ∷ []) ch = (line ++ ch ∷ []) ∷ []
push_last (line ∷ next ∷ lines) ch = line ∷ push_last (next ∷ lines) ch

-- The local variables of the loop.
pub record MergeState : Type 0 where
  pub lines : List Text
  pub current : Text
  pub appending : Bool
  pub cursor_col : ℕ
  pub saw_output : Bool
  pub ended_with_newline : Bool

unfoldable pub merge_newline : MergeState → MergeState
merge_newline m = record m {
  lines = if m.appending then m.lines else m.lines ++ m.current ∷ [];
  current = [];
  appending = false;
  cursor_col = 0;
  saw_output = true;
  ended_with_newline = true;
}

unfoldable pub merge_text : MergeState → ℕ → MergeState
unfolding push_last last_line line_width
merge_text m ch =
    if m.appending
    then record m {
      lines = push_last m.lines ch;
      cursor_col = line_width (last_line (push_last m.lines ch));
      saw_output = true;
      ended_with_newline = false;
    }
    else record m {
      current = m.current ++ ch ∷ [];
      cursor_col = line_width (m.current ++ ch ∷ []);
      saw_output = true;
      ended_with_newline = false;
    }

unfoldable pub merge_char : MergeState → ℕ → MergeState
unfolding merge_newline merge_text is_control
merge_char m ch =
    if ch == 10
    then merge_newline m
    else if ch != 9 && is_control ch
    then record m { saw_output = true; ended_with_newline = false }
    else merge_text m ch

unfoldable pub merge_chars : MergeState → Text → MergeState
unfolding merge_char
merge_chars m [] = m
merge_chars m (ch ∷ text) = merge_chars (merge_char m ch) text

unfoldable pub merge_start : List Text → Bool → MergeState
unfolding last_line line_width
merge_start previous_lines append_to_previous_line =
    let appending = append_to_previous_line && not (is_empty previous_lines) in
    record {
      lines = previous_lines;
      current = [];
      appending = appending;
      cursor_col = if appending then line_width (last_line previous_lines) else 0;
      saw_output = false;
      ended_with_newline = false;
    }

unfoldable pub merge_end : MergeState → List Text × ℕ
merge_end m = (
  (if not m.appending && (not (is_empty m.current) || not m.saw_output && is_empty m.lines)
      then m.lines ++ m.current ∷ []
      else m.lines),
  if m.ended_with_newline then 0 else m.cursor_col,
)

-- The output is given as the text that `String::from_utf8_lossy` makes of it.
unfoldable pub merge_interim_pty_output : List Text → Bool → Text → List Text × ℕ
unfolding replace_crlf replace_cr merge_chars merge_start merge_end
merge_interim_pty_output previous_lines append_to_previous_line text = merge_end (
    merge_chars (merge_start previous_lines append_to_previous_line)
      (replace_cr (replace_crlf text)))

-- `interim_text_update`: the last `rows` lines are on the screen, the cursor in the last of them.
unfoldable pub interim_text_update :
    TerminalInput → TerminalModes → ℕ → List Text → ℕ → TerminalUpdate
unfolding update_plain
interim_text_update input modes rows scrollback_lines cursor_col =
    let surface_lines = drop (length scrollback_lines - rows) scrollback_lines in
    let cursor : TerminalCursor = record {
      row = as_u32 (length surface_lines - 1);
      col = cursor_col;
      visible = input.cursor.visible;
      shape = input.cursor.shape;
      blinking = input.cursor.blinking;
    } in
    record (update_plain PatchKind.replace_rows input.surface cursor surface_lines
      scrollback_lines) {
        modes = modes;
        title = input.title;
        working_directory = input.working_directory;
        colors = input.colors;
      }

-- The engine. Its decoder `from_utf8_lossy` is a parameter.
module _ (from_utf8_lossy : List ℕ → Text) where
  unfoldable pub interim_apply_output :
      InterimAnsiState → TerminalInput → List ℕ → Option TerminalUpdate × InterimAnsiState
  unfolding consume merge_interim_pty_output interim_text_update
  interim_apply_output state input output =
      let (state', text, modes) = consume state output input.modes in
      let (lines, cursor_col) =
        merge_interim_pty_output input.scrollback_lines (ltb 0 input.cursor.col)
          (from_utf8_lossy text) in
      (some (interim_text_update input modes input.rows lines cursor_col), state')

  unfoldable pub interim_resize :
      InterimAnsiState → TerminalInput → ℕ → ℕ → Option TerminalUpdate × InterimAnsiState
  unfolding interim_text_update
  interim_resize state input cols rows = (
    some (interim_text_update input input.modes rows input.scrollback_lines input.cursor.col),
    state,
  )

  abbrev pub interim_engine : TerminalEngine
  interim_engine = record {
    State = InterimAnsiState;
    fresh = InterimAnsiState.ground;
    apply_output = interim_apply_output;
    resize = interim_resize;
  }
