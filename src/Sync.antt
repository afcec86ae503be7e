-- ===== src/Sync.antt =====
-- What a client is sent of the panes' surfaces (crates/nmux-cli/src/local.rs): nothing, a snapshot
-- or a patch, by the version that it knows.
pub mod Mirror
pub mod Delivery
pub mod Apply
pub mod Sent
pub mod Listed
pub mod Snapshot
pub mod Rising
pub mod Palette
pub mod Changes
pub mod Kept
pub mod Patch
pub mod Patched
pub mod Kinds
pub mod Replaced
pub mod Response
pub mod Consistent
pub mod Refines
pub mod Run
pub mod Planned
pub mod Known
pub mod Shown
use nmux.Base.{
  ℕ, ◌+◌, ◌-◌, ◌%◌, ◌^◌, ◌==◌, leb, ltb, Bool, Text, Option, none, some, List, [], ◌∷◌, ◌++◌,
  map_option, if◌then◌else◌, ◌>>=◌, u64_max, ℕ-DecEq, List-DecEq, Option-DecEq,
}
use nmux.Base.Order.{text_lt}
use nmux.Protocol.{PatchKind, AttachSurfaceState, PatchKind-DecEq}
use nmux.Frame.{FlatBuffers}
use nmux.Wire.{WireResult, ok, err, write_default_frame}
use nmux.Session.{Session, state}
use nmux.Session.Tabs.{find_pane}
use nmux.Session.Frame.{unwrap_or, pane_surface_frame_for_pane, pane_surface_patch_frame_for_pane}

pub data SurfaceResponse : Type 0 where
  snapshot : SurfaceResponse
  patch : ℕ → SurfaceResponse

unfoldable pub surface_version : Session → Text → Option ℕ
surface_version s pane_id = map_option (λ p. (state p).surface_version) (find_pane s pane_id)

unfoldable pub surface_patch_kind : Session → Text → Option PatchKind
surface_patch_kind s pane_id = map_option (λ p. (state p).last_patch_kind) (find_pane s pane_id)

unfoldable pub checked_add64 : ℕ → ℕ → Option ℕ
checked_add64 a b = if leb (a + b) u64_max then some (a + b) else none

unfoldable pub checked_sub : ℕ → ℕ → Option ℕ
checked_sub a b = if leb b a then some (a - b) else none

unfoldable pub surface_response_for_known_version : ℕ → ℕ → PatchKind → Option SurfaceResponse
unfolding checked_add64
surface_response_for_known_version current known patch_kind =
    if known == current
    then none
    else if patch_kind == PatchKind.full_refresh_required
    then some SurfaceResponse.snapshot
    else if checked_add64 known 1 == some current
    then some (SurfaceResponse.patch known)
    else some SurfaceResponse.snapshot

unfoldable pub attach_surface_state : Option SurfaceResponse → AttachSurfaceState
attach_surface_state none = AttachSurfaceState.current
attach_surface_state (some SurfaceResponse.snapshot) = AttachSurfaceState.snapshot
attach_surface_state (some (SurfaceResponse.patch base_version)) = AttachSurfaceState.patch

-- The map of known versions, in the order of its keys.
abbrev pub KnownVersions : Type 0
KnownVersions = List (Text × ℕ)

unfoldable pub known_version : Text → KnownVersions → Option ℕ
known_version pane_id [] = none
known_version pane_id ((id, version) ∷ rest) =
    if id == pane_id then some version else known_version pane_id rest

unfoldable pub insert_version : Text → ℕ → KnownVersions → KnownVersions
insert_version pane_id version [] = (pane_id, version) ∷ []
insert_version pane_id version ((id, old) ∷ rest) =
    let rest' = insert_version pane_id version rest in
    if id == pane_id
    then (pane_id, version) ∷ rest
    else if text_lt pane_id id
    then (pane_id, version) ∷ (id, old) ∷ rest
    else (id, old) ∷ rest'

abbrev pub local_client : Text
local_client = 108 ∷ 111 ∷ 99 ∷ 97 ∷ 108 ∷ 45 ∷ 99 ∷ 108 ∷ 105 ∷ 101 ∷ 110 ∷ 116 ∷ []

-- The match of `write_changed_surface_frames` on the known version.
unfoldable pub response_for_known : Session → Text → ℕ → Option ℕ → Option SurfaceResponse
unfolding surface_patch_kind surface_response_for_known_version
response_for_known s pane_id current none = some SurfaceResponse.snapshot
response_for_known s pane_id current (some known) =
    surface_response_for_known_version current known
      (unwrap_or PatchKind.replace_rows (surface_patch_kind s pane_id))

module _ (F : FlatBuffers) where
  unfoldable pub surface_response_frame : Session → Text → SurfaceResponse → ℕ → Option F.Buffer
  unfolding pane_surface_frame_for_pane pane_surface_patch_frame_for_pane
  surface_response_frame s pane_id SurfaceResponse.snapshot seq =
      pane_surface_frame_for_pane F s local_client seq pane_id
  surface_response_frame s pane_id (SurfaceResponse.patch base_version) seq =
      pane_surface_patch_frame_for_pane F s local_client seq pane_id base_version

  pub record SurfacePatchFrame : Type 0 where
    pub base_version : ℕ
    pub bytes : F.Buffer

  pub record SurfaceFrameBundle : Type 0 where
    pub version : ℕ
    pub snapshot_frame : F.Buffer
    pub patch_frame : Option SurfacePatchFrame

  -- The patch of a bundle, from the version before.
  unfoldable pub bundled_patch : Session → Text → ℕ → ℕ → Option SurfacePatchFrame
  unfolding surface_patch_kind checked_sub pane_surface_patch_frame_for_pane
  bundled_patch s pane_id seq version =
      if unwrap_or PatchKind.replace_rows (surface_patch_kind s pane_id)
        == PatchKind.full_refresh_required
      then none
      else checked_sub version 1 >>= λ base_version.
          map_option (λ bytes. record { base_version = base_version; bytes = bytes })
            (pane_surface_patch_frame_for_pane F s local_client seq pane_id base_version)

  unfoldable pub surface_frame_bundle_for_pane : Session → Text → ℕ → Option SurfaceFrameBundle
  unfolding surface_version pane_surface_frame_for_pane bundled_patch
  surface_frame_bundle_for_pane s pane_id seq = do
    version ← surface_version s pane_id
    snapshot_frame ← pane_surface_frame_for_pane F s local_client seq pane_id
    some (record {
      version = version;
      snapshot_frame = snapshot_frame;
      patch_frame = bundled_patch s pane_id seq version;
    })

  -- The frame that one pass of the loop writes, if any.
  unfoldable pub changed_surface_frame : Session → Text → ℕ → Option ℕ → ℕ → Option F.Buffer
  unfolding response_for_known surface_response_frame
  changed_surface_frame s pane_id current known seq = do
    response ← response_for_known s pane_id current known
    surface_response_frame s pane_id response seq

-- What the loop changes: the stream, the sequence number and the known versions.
pub record WriterState (W : Type 0) : Type 0 where
  pub stream : W
  pub seq : ℕ
  pub known_versions : KnownVersions

-- The bytes of a finished buffer are a parameter, and so are the accessor of a frame's protocol
-- version and `write_all` of the stream.
module _ (F : FlatBuffers) (bytes : F.Buffer → List ℕ) (envelope_version : List ℕ → Option ℕ)
    {W : Type 0} (write_all : W → List ℕ → Bool × W) where
  -- What follows the writing of a frame; an error is returned at once.
  unfoldable pub frame_written :
      Text → ℕ → WireResult Unit × W → WriterState W → WireResult Unit × WriterState W
  unfolding insert_version
  frame_written pane_id current (err e, stream) w = (err e, record w { stream = stream })
  frame_written pane_id current (ok _, stream) w = (
    ok tt,
    record {
      stream = stream;
      seq = (w.seq + 1) % 2 ^ 64;
      known_versions = insert_version pane_id current w.known_versions;
    },
  )

  -- What follows the choice of the frame.
  unfoldable pub write_surface_frame :
      Text → ℕ → Option F.Buffer → WriterState W → WireResult Unit × WriterState W
  unfolding insert_version frame_written
  write_surface_frame pane_id current none w =
      (ok tt, record w { known_versions = insert_version pane_id current w.known_versions })
  write_surface_frame pane_id current (some surface_frame) w =
      frame_written pane_id current
        (write_default_frame envelope_version write_all w.stream (bytes surface_frame)) w

  -- One pass of the loop, for a pane that has the version `current`, if the session has it.
  unfoldable pub write_changed_surface :
      Session → Text → Option ℕ → WriterState W → WireResult Unit × WriterState W
  unfolding changed_surface_frame known_version write_surface_frame
  write_changed_surface s pane_id none w = (ok tt, w)
  write_changed_surface s pane_id (some current) w =
      write_surface_frame pane_id current
        (changed_surface_frame F s pane_id current (known_version pane_id w.known_versions) w.seq) w

  -- The loop returns at the first error.
  unfoldable pub write_changed_surface_frames :
      Session → List Text → WriterState W → WireResult Unit × WriterState W
  unfolding surface_version write_changed_surface
  write_changed_surface_frames s [] w = (ok tt, w)
  write_changed_surface_frames s (pane_id ∷ pane_ids) w =
      let (written, w') = write_changed_surface s pane_id (surface_version s pane_id) w in
      elim written [ err e ↦ (err e, w') | ok _ ↦ write_changed_surface_frames s pane_ids w' ]
