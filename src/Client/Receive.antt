-- ===== src/Client/Receive.antt =====
-- A frame that reaches a client: `surface_update_from_frame` (crates/nmux-cli/src/local.rs), and
-- then `ClientPaneSurface::apply_update` on the surface that the client keeps of the pane.
use nmux.Base.{Option, none, some}
use nmux.Frame.{FlatBuffers}
use nmux.Client.Surface.{ok}
use nmux.Client.Surface.Decode.{surface_update_from_frame}
use nmux.Client.Surface.Patch.{Action, ◌>>=◌, lift, apply_update}

module _ (F : FlatBuffers) where
  unfoldable pub receive : F.Buffer → Action Unit
  unfolding surface_update_from_frame apply_update
  receive frame = do update ← lift (surface_update_from_frame F frame); apply_update update

  -- A frame, if one was written.
  abbrev pub receive_some : Option F.Buffer → Action Unit
  receive_some none s = (ok tt, s)
  receive_some (some frame) s = receive frame s
