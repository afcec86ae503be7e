-- ===== src/Protocol.antt =====
-- The enumerations of the wire protocol (crates/nmux-proto/src/generated/nmux_generated.rs).
-- The generated types wrap an `i8`: a value that the schema does not name is `unknown` with its
-- byte.
use nmux.Base.{ℕ, DecEq, ℕ_discrete}

pub data SplitAxis : Type 0 where
  none horizontal vertical : SplitAxis
  unknown : ℕ → SplitAxis

unfoldable pub SplitAxis-discrete : Discrete SplitAxis
SplitAxis-discrete = hlevel ℕ_discrete

instance abbrev pub SplitAxis-DecEq : DecEq SplitAxis
SplitAxis-DecEq = record { dec_eq = SplitAxis-discrete }

pub data SurfaceKind : Type 0 where
  main alternate : SurfaceKind
  unknown : ℕ → SurfaceKind

unfoldable pub SurfaceKind-discrete : Discrete SurfaceKind
SurfaceKind-discrete = hlevel ℕ_discrete

instance abbrev pub SurfaceKind-DecEq : DecEq SurfaceKind
SurfaceKind-DecEq = record { dec_eq = SurfaceKind-discrete }

pub data CursorShape : Type 0 where
  block beam underline : CursorShape
  unknown : ℕ → CursorShape

unfoldable pub CursorShape-discrete : Discrete CursorShape
CursorShape-discrete = hlevel ℕ_discrete

instance abbrev pub CursorShape-DecEq : DecEq CursorShape
CursorShape-DecEq = record { dec_eq = CursorShape-discrete }

pub data MouseTrackingMode : Type 0 where
  none x10 normal button any : MouseTrackingMode
  unknown : ℕ → MouseTrackingMode

unfoldable pub MouseTrackingMode-discrete : Discrete MouseTrackingMode
MouseTrackingMode-discrete = hlevel ℕ_discrete

instance abbrev pub MouseTrackingMode-DecEq : DecEq MouseTrackingMode
MouseTrackingMode-DecEq = record { dec_eq = MouseTrackingMode-discrete }

pub data MouseFormat : Type 0 where
  x10 utf8 sgr urxvt sgr_pixels : MouseFormat
  unknown : ℕ → MouseFormat

unfoldable pub MouseFormat-discrete : Discrete MouseFormat
MouseFormat-discrete = hlevel ℕ_discrete

instance abbrev pub MouseFormat-DecEq : DecEq MouseFormat
MouseFormat-DecEq = record { dec_eq = MouseFormat-discrete }

pub data ResizeReason : Type 0 where
  frontend_viewport user_command attach policy : ResizeReason
  unknown : ℕ → ResizeReason

unfoldable pub ResizeReason-discrete : Discrete ResizeReason
ResizeReason-discrete = hlevel ℕ_discrete

instance abbrev pub ResizeReason-DecEq : DecEq ResizeReason
ResizeReason-DecEq = record { dec_eq = ResizeReason-discrete }

pub data ResizePolicy : Type 0 where
  fixed leader active_client manual : ResizePolicy
  unknown : ℕ → ResizePolicy

unfoldable pub ResizePolicy-discrete : Discrete ResizePolicy
ResizePolicy-discrete = hlevel ℕ_discrete

instance abbrev pub ResizePolicy-DecEq : DecEq ResizePolicy
ResizePolicy-DecEq = record { dec_eq = ResizePolicy-discrete }

pub data PatchKind : Type 0 where
  replace_rows cursor_only mode_only full_refresh_required color_only : PatchKind
  unknown : ℕ → PatchKind

unfoldable pub PatchKind-discrete : Discrete PatchKind
PatchKind-discrete = hlevel ℕ_discrete

instance abbrev pub PatchKind-DecEq : DecEq PatchKind
PatchKind-DecEq = record { dec_eq = PatchKind-discrete }

pub data AttachSurfaceState : Type 0 where
  current snapshot patch : AttachSurfaceState
  unknown : ℕ → AttachSurfaceState

unfoldable pub AttachSurfaceState-discrete : Discrete AttachSurfaceState
AttachSurfaceState-discrete = hlevel ℕ_discrete

instance abbrev pub AttachSurfaceState-DecEq : DecEq AttachSurfaceState
AttachSurfaceState-DecEq = record { dec_eq = AttachSurfaceState-discrete }

pub data RowSemanticPrompt : Type 0 where
  none prompt continuation : RowSemanticPrompt
  unknown : ℕ → RowSemanticPrompt

unfoldable pub RowSemanticPrompt-discrete : Discrete RowSemanticPrompt
RowSemanticPrompt-discrete = hlevel ℕ_discrete

instance abbrev pub RowSemanticPrompt-DecEq : DecEq RowSemanticPrompt
RowSemanticPrompt-DecEq = record { dec_eq = RowSemanticPrompt-discrete }

pub data CellSemanticContent : Type 0 where
  output input prompt : CellSemanticContent
  unknown : ℕ → CellSemanticContent

unfoldable pub CellSemanticContent-discrete : Discrete CellSemanticContent
CellSemanticContent-discrete = hlevel ℕ_discrete

instance abbrev pub CellSemanticContent-DecEq : DecEq CellSemanticContent
CellSemanticContent-DecEq = record { dec_eq = CellSemanticContent-discrete }
