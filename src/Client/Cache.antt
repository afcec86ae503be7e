-- ===== src/Client/Cache.antt =====
-- The surfaces that a client keeps (crates/nmux-cli/src/local/client_state.rs,
-- `apply_surface_update_styled`).
use nmux.Base.{
  ◌==◌, ◌&&◌, Bool, Text, Option, none, some, List, [], ◌∷◌, ◌++◌, if◌then◌else◌, ℕ-DecEq,
  List-DecEq,
}
use nmux.Client.Surface.{
  SurfaceError, Result, ok, err, ◌>>=◌, ok_or, SurfaceUpdate, SurfaceUpdateKind, ClientPaneSurface,
}
use nmux.Client.Surface.Snapshot.{from_snapshot}
use nmux.Client.Surface.Patch.{apply_update}
use nmux.Client.Surface.Render.{render_text, render_styled_text, has_styled_runs}

-- What is shown of a surface.
unfoldable pub rendered : Bool → ClientPaneSurface → Result Text
unfolding render_text render_styled_text has_styled_runs
rendered styled s =
    if styled && has_styled_runs s
    then ok_or (render_styled_text s) SurfaceError.panicked
    else ok (render_text s)

-- The first surface of the pane, if there is one, takes the update in place.
unfoldable pub update_cached :
    SurfaceUpdate → Bool → List ClientPaneSurface → Option (Result Text) × List ClientPaneSurface
unfolding apply_update rendered
update_cached u styled [] = (none, [])
update_cached u styled (s ∷ ss) =
    let (r, s') = apply_update u s in
    let (found, ss') = update_cached u styled ss in
    if s.pane_id == u.pane_id
    then (some (r >>= λ _. rendered styled s'), s' ∷ ss)
    else (found, s ∷ ss')

-- A surface that is not kept yet comes with a snapshot.
unfoldable pub push_snapshot :
    SurfaceUpdate → Bool → List ClientPaneSurface → Result Text × List ClientPaneSurface
unfolding from_snapshot rendered
push_snapshot u styled surfaces = elim (from_snapshot u) [
  | err e ↦ (err e, surfaces)
  | ok s ↦ elim (rendered styled s) [
    | err e ↦ (err e, surfaces)
    | ok text ↦ (ok text, surfaces ++ s ∷ [])
  ]
]

unfoldable pub apply_surface_update_styled :
    SurfaceUpdate → Bool → List ClientPaneSurface → Result Text × List ClientPaneSurface
unfolding update_cached push_snapshot
apply_surface_update_styled u styled surfaces =
    let (found, updated) = update_cached u styled surfaces in
    elim found [
      | some r ↦ (r, updated)
      | none ↦ elim u.kind [
        | SurfaceUpdateKind.patch ↦ (err SurfaceError.patch_without_snapshot, surfaces)
        | SurfaceUpdateKind.snapshot ↦ push_snapshot u styled surfaces
      ]
    ]
