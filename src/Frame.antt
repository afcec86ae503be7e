-- ===== src/Frame.antt =====
-- The tables of a surface frame (crates/nmux-proto/src/generated/nmux_generated.rs). A table is
-- what its accessors answer: an offset that was not set is `none`. The buffer that FlatBuffers
-- makes of them is a parameter.
use nmux.Base.{ℕ, Bool, Text, Option, none, some, List, ◌≡◌, ◌>>=◌}
use nmux.Protocol.{
  SurfaceKind, CursorShape, MouseTrackingMode, MouseFormat, PatchKind, RowSemanticPrompt,
  CellSemanticContent,
}

pub data EnvelopeBody : Type 0 where
  pane_surface_snapshot pane_surface_patch : EnvelopeBody
  other : ℕ → EnvelopeBody

pub record CursorStateArgs : Type 0 where
  pub row : ℕ
  pub col : ℕ
  pub visible : Bool
  pub shape : CursorShape
  pub blinking : Bool

pub record TerminalModeStateArgs : Type 0 where
  pub bracketed_paste : Bool
  pub mouse_tracking : Bool
  pub focus_reporting : Bool
  pub application_keypad : Bool
  pub application_cursor : Bool
  pub origin : Bool
  pub wraparound : Bool
  pub mouse_tracking_mode : MouseTrackingMode
  pub mouse_format : MouseFormat

pub record TerminalMetadataStateArgs : Type 0 where
  pub title : Option Text
  pub working_directory : Option Text

pub record TerminalColorStateArgs : Type 0 where
  pub default_fg_rgba : ℕ
  pub default_bg_rgba : ℕ
  pub cursor_rgba : ℕ
  pub cursor_rgba_set : Bool
  pub palette_rgba : Option (List ℕ)
  pub palette_diff_start : ℕ
  pub palette_diff_rgba : Option (List ℕ)

pub record CellRunArgs : Type 0 where
  pub text_utf8 : Option Text
  pub cell_widths : Option (List ℕ)
  pub style_id : ℕ
  pub flags : ℕ
  pub hyperlink_id : ℕ
  pub semantic_content : CellSemanticContent

-- The table `SurfaceRow` of a snapshot; the table `RowUpdate` of a patch has the same fields.
pub record SurfaceRowArgs : Type 0 where
  pub row : ℕ
  pub runs : Option (List CellRunArgs)
  pub dirty_hash : ℕ
  pub row_state_hash : ℕ
  pub semantic_prompt : RowSemanticPrompt
  pub dirty : Bool
  pub kitty_virtual_placeholder : Bool

abbrev pub RowUpdateArgs : Type 0
RowUpdateArgs = SurfaceRowArgs

pub record StyleArgs : Type 0 where
  pub fg_rgba : ℕ
  pub bg_rgba : ℕ
  pub underline_rgba : ℕ
  pub flags : ℕ

pub record HyperlinkArgs : Type 0 where
  pub id : ℕ
  pub uri : Option Text
  pub osc8_id : Option Text
  pub params : Option Text

pub record PaneSurfaceSnapshotArgs : Type 0 where
  pub pane_id : Option Text
  pub version : ℕ
  pub surface : SurfaceKind
  pub cols : ℕ
  pub rows : ℕ
  pub cursor : Option CursorStateArgs
  pub modes : Option TerminalModeStateArgs
  pub metadata : Option TerminalMetadataStateArgs
  pub colors : Option TerminalColorStateArgs
  pub styles : Option (List StyleArgs)
  pub rows_data : Option (List SurfaceRowArgs)
  pub hyperlinks : Option (List HyperlinkArgs)

pub record PaneSurfacePatchArgs : Type 0 where
  pub pane_id : Option Text
  pub base_version : ℕ
  pub version : ℕ
  pub kind : PatchKind
  pub row_updates : Option (List SurfaceRowArgs)
  pub cursor : Option CursorStateArgs
  pub modes : Option TerminalModeStateArgs
  pub metadata : Option TerminalMetadataStateArgs
  pub colors : Option TerminalColorStateArgs

-- What the union `body` holds.
pub data BodyTable : Type 0 where
  snapshot : PaneSurfaceSnapshotArgs → BodyTable
  patch : PaneSurfacePatchArgs → BodyTable

pub record EnvelopeArgs : Type 0 where
  pub protocol_version : ℕ
  pub session_id : Option Text
  pub connection_id : Option Text
  pub seq : ℕ
  pub ack : ℕ
  pub sent_at_mono_ms : ℕ
  pub body_type : EnvelopeBody
  pub body : Option BodyTable

abbrev as_snapshot : EnvelopeBody → BodyTable → Option PaneSurfaceSnapshotArgs
as_snapshot EnvelopeBody.pane_surface_snapshot (BodyTable.snapshot t) = some t
as_snapshot _ _ = none

abbrev as_patch : EnvelopeBody → BodyTable → Option PaneSurfacePatchArgs
as_patch EnvelopeBody.pane_surface_patch (BodyTable.patch t) = some t
as_patch _ _ = none

unfoldable pub body_as_pane_surface_snapshot : EnvelopeArgs → Option PaneSurfaceSnapshotArgs
body_as_pane_surface_snapshot e = e.body >>= as_snapshot e.body_type

unfoldable pub body_as_pane_surface_patch : EnvelopeArgs → Option PaneSurfacePatchArgs
body_as_pane_surface_patch e = e.body >>= as_patch e.body_type

-- The FlatBuffers library: `finish_size_prefixed_envelope_buffer` makes a buffer, and
-- `size_prefixed_root_as_envelope` verifies and reads one. It reads back the tables that were
-- written if these are within what a buffer can hold and the verifier's limits.
pub record FlatBuffers : Type 1 where
  pub Buffer : Type 0
  pub IsWithinLimits : EnvelopeArgs → Type 0
  pub finish : EnvelopeArgs → Buffer
  pub root : Buffer → Option EnvelopeArgs
  pub root-finish : (e : EnvelopeArgs) → IsWithinLimits e → root (finish e) ≡ some e
