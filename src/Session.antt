-- ===== src/Session.antt =====
-- The session: a workspace of tabs, each a tree of panes (crates/nmux-core/src/session.rs).
-- A Rust `Pane` holds `children: Vec<Pane>`; here `Pane` pairs the other fields with a `Panes`.
pub mod Tree
pub mod Tabs
pub mod Update
pub mod Output
pub mod Frame
pub mod Environment
pub mod Event
pub mod Core
pub mod Scheduler
pub mod Trace
pub mod Actor
pub mod Valid
use nmux.Base.{
  ℕ, ◌+◌, suc, zero, DecEq, ℕ_discrete, Bool, true, false, Text, codes, Option, none, some, List,
  [], ◌∷◌, ◌++◌, length, replicate, as_u32,
}
use nmux.Protocol.{
  SplitAxis, SurfaceKind, CursorShape, PatchKind, ResizePolicy, RowSemanticPrompt,
  CursorShape-discrete,
}
use nmux.Host.{HostSpec, host_local, command_new}
use nmux.Terminal.{
  TerminalCursor, TerminalModes, TerminalColors, PaneStyle, CellRun, default_modes, default_colors,
  default_style, plain,
}

pub record PaletteDiff : Type 0 where
  pub start : ℕ
  pub colors : List ℕ

pub record Cursor : Type 0 where
  pub row : ℕ
  pub col : ℕ
  pub visible : Bool
  pub shape : CursorShape
  pub blinking : Bool

unfoldable pub Cursor-discrete : Discrete Cursor
Cursor-discrete = hlevel (ℕ_discrete, CursorShape-discrete)

instance abbrev pub Cursor-DecEq : DecEq Cursor
Cursor-DecEq = record { dec_eq = Cursor-discrete }

unfoldable pub to_terminal_cursor : Cursor → TerminalCursor
to_terminal_cursor c = record {
  row = c.row;
  col = c.col;
  visible = c.visible;
  shape = c.shape;
  blinking = c.blinking;
}

unfoldable pub of_terminal_cursor : TerminalCursor → Cursor
of_terminal_cursor c = record {
  row = c.row;
  col = c.col;
  visible = c.visible;
  shape = c.shape;
  blinking = c.blinking;
}

-- The fields of a `Pane` other than `children`.
pub record PaneState : Type 0 where
  pub id : Text
  pub split_axis : SplitAxis
  pub host : HostSpec
  pub surface_version : ℕ
  pub last_patch_kind : PatchKind
  pub last_row_update_indices : List ℕ
  pub scrollback_version : ℕ
  pub cols : ℕ
  pub rows : ℕ
  pub resize_policy : ResizePolicy
  pub surface : SurfaceKind
  pub cursor : Cursor
  pub modes : TerminalModes
  pub terminal_title : Text
  pub terminal_working_directory : Text
  pub colors : TerminalColors
  pub last_palette_diff : Option PaletteDiff
  pub styles : List PaneStyle
  pub surface_lines : List Text
  pub surface_row_runs : List (List CellRun)
  pub surface_semantic_prompts : List RowSemanticPrompt
  pub surface_dirty_rows : List Bool
  pub surface_kitty_placeholders : List Bool
  pub scrollback_lines : List Text
  pub scrollback_row_runs : List (List CellRun)
  pub scrollback_semantic_prompts : List RowSemanticPrompt
  pub scrollback_dirty_rows : List Bool
  pub scrollback_kitty_placeholders : List Bool

mutual
  pub data Pane : Type 0 where
    pane : PaneState → Panes → Pane

  pub data Panes : Type 0 where
    nil : Panes
    cons : Pane → Panes → Panes

abbrev pub state : Pane → PaneState
state (pane st cs) = st

pub record Tab : Type 0 where
  pub id : Text
  pub title : Text
  pub active_pane_id : Text
  pub root : Pane

pub record Session : Type 0 where
  pub id : Text
  pub version : ℕ
  pub active_tab_id : Text
  pub tabs : List Tab

-- `(start..start + count)`, as row indices.
abbrev pub indices_from : ℕ → ℕ → List ℕ
indices_from start zero = []
indices_from start (suc count) = as_u32 start ∷ indices_from (start + 1) count

unfoldable pub all_row_indices : ℕ → List ℕ
all_row_indices len = indices_from 0 len

abbrev booting : Text
booting = codes "booting nmux workspace"

abbrev server_owned : Text
server_owned = codes "server-owned terminal state"

-- A pane that runs `host`, with its two lines of greeting.
unfoldable pub new_pane_from_template : Text → HostSpec → ℕ → ℕ → Pane
new_pane_from_template id host cols rows =
    let banner = codes "nmux " ++ id in
    let surface_lines = banner ∷ server_owned ∷ [] in
    let scrollback_lines = booting ∷ banner ∷ server_owned ∷ [] in
    pane
      (record {
        id = id;
        split_axis = SplitAxis.none;
        host = record host {
          id = id;
          command = record (host.command) { initial_size = some (cols, rows) };
        };
        surface_version = 1;
        last_patch_kind = PatchKind.replace_rows;
        last_row_update_indices = all_row_indices (length surface_lines);
        scrollback_version = 1;
        cols = cols;
        rows = rows;
        resize_policy = ResizePolicy.fixed;
        surface = SurfaceKind.main;
        cursor = record {
          row = 1;
          col = 0;
          visible = true;
          shape = CursorShape.block;
          blinking = true;
        };
        modes = default_modes;
        terminal_title = [];
        terminal_working_directory = [];
        colors = default_colors;
        last_palette_diff = none;
        styles = default_style ∷ [];
        surface_lines = surface_lines;
        surface_row_runs = (plain banner ∷ []) ∷ (plain server_owned ∷ []) ∷ [];
        surface_semantic_prompts = replicate 2 RowSemanticPrompt.none;
        surface_dirty_rows = replicate 2 false;
        surface_kitty_placeholders = replicate 2 false;
        scrollback_lines = scrollback_lines;
        scrollback_row_runs =
            (plain booting ∷ []) ∷ (plain banner ∷ []) ∷ (plain server_owned ∷ []) ∷ [];
        scrollback_semantic_prompts = replicate 3 RowSemanticPrompt.none;
        scrollback_dirty_rows = replicate 3 false;
        scrollback_kitty_placeholders = replicate 3 false;
      })
      nil

-- `Session::initial`: one tab with one pane of 80 by 24.
unfoldable pub initial_pane : PaneState
unfolding all_row_indices plain
initial_pane =
    let banner = codes "nmux pane-1" in
    record {
      id = codes "pane-1";
      split_axis = SplitAxis.none;
      host = host_local (codes "local") (command_new (codes "sh"));
      surface_version = 2;
      last_patch_kind = PatchKind.replace_rows;
      last_row_update_indices = 0 ∷ 1 ∷ [];
      scrollback_version = 1;
      cols = 80;
      rows = 24;
      resize_policy = ResizePolicy.fixed;
      surface = SurfaceKind.main;
      cursor = record {
        row = 1;
        col = 0;
        visible = true;
        shape = CursorShape.block;
        blinking = true;
      };
      modes = default_modes;
      terminal_title = [];
      terminal_working_directory = [];
      colors = default_colors;
      last_palette_diff = none;
      styles = default_style ∷ [];
      surface_lines = banner ∷ server_owned ∷ [];
      surface_row_runs = (plain banner ∷ []) ∷ (plain server_owned ∷ []) ∷ [];
      surface_semantic_prompts = replicate 2 RowSemanticPrompt.none;
      surface_dirty_rows = replicate 2 false;
      surface_kitty_placeholders = replicate 2 false;
      scrollback_lines = booting ∷ banner ∷ server_owned ∷ [];
      scrollback_row_runs =
          (plain booting ∷ []) ∷ (plain banner ∷ []) ∷ (plain server_owned ∷ []) ∷ [];
      scrollback_semantic_prompts = replicate 3 RowSemanticPrompt.none;
      scrollback_dirty_rows = replicate 3 false;
      scrollback_kitty_placeholders = replicate 3 false;
    }

unfoldable pub initial : Session
unfolding initial_pane
initial = record {
  id = codes "local";
  version = 1;
  active_tab_id = codes "tab-1";
  tabs =
      record {
        id = codes "tab-1";
        title = codes "local";
        active_pane_id = codes "pane-1";
        root = pane initial_pane nil;
      }
      ∷ [];
}
