-- ===== src/Sync/Refines.antt =====
-- A client's surface and the frames that the server writes after a report.
use nmux.Base.{
  ℕ, ◌^◌, ◌≡◌, ◌≢◌, ◌<◌, ◌≤◌, ◌∙◌, ◌⊎◌, inl, inr, refl, sym, ap, subst, Bool, true, false, Option,
  none, some, length, arith, u64_max, Bool-cases, ℕ-DecEq, Option-DecEq, ◌>>=◌,
}
use nmux.Protocol.{PatchKind, PatchKind-DecEq}
use nmux.Frame.{FlatBuffers, body_as_pane_surface_snapshot, body_as_pane_surface_patch}
use nmux.Terminal.{TerminalUpdate}
use nmux.Session.{Session, Panes, PaneState, pane}
use nmux.Session.Tabs.{find_pane}
use nmux.Session.Update.{
  apply_terminal_update, surface_changed, patch_changes, updated_surface, terminal_patch_kind,
  TerminalPatchChanges,
}
use nmux.Session.Frame.{
  surface_of_pane, pane_surface, snapshot_envelope, patch_envelope, build_patch,
  pane_surface_frame_for_pane, pane_surface_patch_frame_for_pane,
}
use nmux.Client.Surface.{ok, ClientPaneSurface, SurfaceUpdate}
use nmux.Client.Surface.Decode.{surface_update_from_frame, envelope_update, patch_update}
use nmux.Client.Surface.Patch.{apply_update}
use nmux.Client.Receive.{receive, receive_some}
use nmux.Sync.{
  SurfaceResponse, surface_response_frame, response_for_known, changed_surface_frame, local_client,
}
use nmux.Sync.Response.{response_none, response_snapshot, response_patch}
use nmux.Sync.Consistent.{apply_terminal_update-IsConsistent}
use nmux.Sync.Mirror.{mirror, IsConsistent, IsSendable}
use nmux.Sync.Snapshot.{snapshot_update_lem, from_snapshot_lem}
use nmux.Sync.Kinds.{Patches, mirror_silent, cursor_case, mode_case, color_case}
use nmux.Sync.Replaced.{rows_case}
use nmux.Sync.Changes.{kinds, written, recorded, silent}

module _ (F : FlatBuffers) (s : Session) (seq : ℕ) (q : PaneState) (cs : Panes)
    (found : find_pane s q.id ≡ some (pane q cs)) where
  surface_found : pane_surface s q.id ≡ some (surface_of_pane q)
  unfolding pane_surface
  surface_found = rw found refl

  snapshot_sent :
      surface_response_frame F s q.id SurfaceResponse.snapshot seq
      ≡ some (F.finish (snapshot_envelope s local_client seq (surface_of_pane q)))
  unfolding surface_response_frame pane_surface_frame_for_pane
  snapshot_sent = rw surface_found refl

  -- A snapshot of a pane makes any surface the one that shows it.
  pub receive-snapshot :
      (t : ClientPaneSurface)
      → IsConsistent q
      → IsSendable q
      → F.IsWithinLimits (snapshot_envelope s local_client seq (surface_of_pane q))
      → receive_some F (surface_response_frame F s q.id SurfaceResponse.snapshot seq) t
        ≡ (ok tt, mirror q)
  unfolding receive surface_update_from_frame envelope_update body_as_pane_surface_snapshot
      apply_update
  receive-snapshot t c a limits =
      let e = snapshot_envelope s local_client seq (surface_of_pane q) in
      rw (snapshot_sent, F.root-finish e limits, snapshot_update_lem q c a, from_snapshot_lem q c a)
        refl

  patch_sent :
      (base : ℕ)
      → surface_response_frame F s q.id (SurfaceResponse.patch base) seq
        ≡ some (F.finish (patch_envelope s local_client seq base (surface_of_pane q)))
  unfolding surface_response_frame pane_surface_patch_frame_for_pane
  patch_sent base = rw surface_found refl

  sent_update :
      (base : ℕ) (u : SurfaceUpdate)
      → patch_update (
          build_patch
            (surface_of_pane q)
            q.last_patch_kind
            q.last_row_update_indices
            q.last_palette_diff
            base)
        ≡ ok u
      → envelope_update (patch_envelope s local_client seq base (surface_of_pane q)) ≡ ok u
  unfolding envelope_update body_as_pane_surface_patch surface_of_pane
  sent_update base u e = rw found e

  -- A patch that fits the surface makes it the one that shows the pane.
  receive-patch :
      (t : ClientPaneSurface) (base : ℕ)
      → F.IsWithinLimits (patch_envelope s local_client seq base (surface_of_pane q))
      → Patches q base t
      → receive_some F (surface_response_frame F s q.id (SurfaceResponse.patch base) seq) t
        ≡ (ok tt, mirror q)
  unfolding receive surface_update_from_frame
  receive-patch t base limits (u, decoded, applied) =
      let e = patch_envelope s local_client seq base (surface_of_pane q) in
      rw (patch_sent base, F.root-finish e limits, sent_update base u decoded) applied

-- A report that patches can follow: the pane can be sent after it, its version is below the last
-- one, and neither its lines, unless the report is forced, nor its palette get fewer.
pub record IsTracked (p : PaneState) (u : TerminalUpdate) (force : Bool) : Type 0 where
  pub sendable : IsSendable (apply_terminal_update p u force).0
  pub room : p.surface_version < u64_max
  pub short : length u.surface_lines < 2 ^ 32
  pub covers : (force ≡ true) ⊎ (length p.surface_lines ≤ length u.surface_lines)
  pub palette_short : length p.colors.palette_rgba < 2 ^ 32
  pub palette_grows : length p.colors.palette_rgba ≤ length u.colors.palette_rgba

forced_lem :
    (c : TerminalPatchChanges)
    → c.force_full_refresh ≡ true
    → terminal_patch_kind c ≡ PatchKind.full_refresh_required
unfolding terminal_patch_kind
forced_lem c h = ground arith

module _ (p : PaneState) (u : TerminalUpdate) (force : Bool) where
  abbrev changes : TerminalPatchChanges
  changes = patch_changes p u (updated_surface u) force

  abbrev after : PaneState
  after = (apply_terminal_update p u force).0

  -- A change is a full refresh, or it has a patch.
  abbrev HasPatch : Type 0
  HasPatch =
      (after.last_patch_kind ≡ PatchKind.full_refresh_required)
      ⊎ (after.last_patch_kind ≢ PatchKind.full_refresh_required)
        × Patches after p.surface_version (mirror p)

-- The case of a patch of rows.
rows_after :
    (p : PaneState) (u : TerminalUpdate) (force : Bool)
    → IsConsistent p
    → IsTracked p u force
    → surface_changed (changes p u force) ≡ true
    → terminal_patch_kind (changes p u force) ≡ PatchKind.replace_rows
    → HasPatch p u force
unfolding patch_changes
rows_after p u true c t h k = inl ((recorded p u true h).1 ∙ forced_lem (changes p u true) refl)
rows_after p u false c t h k = elim t.covers [
  | inl e ↦ cc
  | inr l ↦ inr (
    λ e. cc (e, k, (recorded p u false h).1),
    rows_case p u h k t.short c (apply_terminal_update-IsConsistent p u false c) t.sendable t.room
        l,
  )
]

patches_after :
    (p : PaneState) (u : TerminalUpdate) (force : Bool)
    → IsConsistent p
    → IsTracked p u force
    → surface_changed (changes p u force) ≡ true
    → HasPatch p u force
patches_after p u force c t h =
    let kind = (recorded p u force h).1 in
    let ca = apply_terminal_update-IsConsistent p u force c in
    elim (kinds (changes p u force) h) [
      | inl k ↦ inl (kind ∙ k)
      | inr (inl k) ↦ rows_after p u force c t h k
      | inr (inr (inl k)) ↦ inr (
        λ e. cc (e, k, kind),
        color_case p u force c ca t.sendable h t.palette_short
            (subst (λ n. length p.colors.palette_rgba ≤ length n.palette_rgba)
              (sym (written p u force).5) t.palette_grows)
            k,
      )
      | inr (inr (inr (inl k))) ↦
          inr (λ e. cc (e, k, kind), mode_case p u force c ca t.sendable h k)
      | inr (inr (inr (inr k))) ↦
          inr (λ e. cc (e, k, kind), cursor_case p u force c ca t.sendable h k)
    ]

module _ (F : FlatBuffers) (s : Session) (seq : ℕ) (p : PaneState) (u : TerminalUpdate)
    (force : Bool) (cs : Panes)
    (found : find_pane s (after p u force).id ≡ some (pane (after p u force) cs)) where
  abbrev q : PaneState
  q = after p u force

  -- What the client does with the frame that a response asks for.
  responded :
      (r : Option SurfaceResponse)
      → response_for_known s q.id q.surface_version (some p.surface_version) ≡ r
      → (t : ClientPaneSurface)
      → receive_some F
          (changed_surface_frame F s q.id q.surface_version (some p.surface_version) seq)
          t
        ≡ receive_some F (r >>= λ response. surface_response_frame F s q.id response seq) t
  unfolding changed_surface_frame
  responded r e t =
      ap (λ o. receive_some F (o >>= λ response. surface_response_frame F s q.id response seq) t) e

  -- A client that shows a consistent pane and knows its version takes the frame that is written
  -- after a tracked report, if any, without an error, and then shows the pane as it is now. The
  -- session has the pane, and the frames are within the limits of FlatBuffers.
  pub changed_surface_frame-mirror :
      IsConsistent p
      → IsTracked p u force
      → F.IsWithinLimits (snapshot_envelope s local_client seq (surface_of_pane q))
      → F.IsWithinLimits (patch_envelope s local_client seq p.surface_version (surface_of_pane q))
      → receive_some F
          (changed_surface_frame F s q.id q.surface_version (some p.surface_version) seq)
          (mirror p)
        ≡ (ok tt, mirror q)
  changed_surface_frame-mirror c t ls lp =
      let known = p.surface_version in
      elim (Bool-cases (surface_changed (changes p u force))) [
        | inr h ↦
            responded none (response_none s q cs found q.surface_version known (silent p u force h))
              (mirror p)
            ∙ ap (λ m. (ok tt, m)) (mirror_silent p u force c h)
        | inl h ↦
            let version = (recorded p u force h).0 in
            elim (patches_after p u force c t h) [
              | inl k ↦
                  responded (some SurfaceResponse.snapshot)
                    (response_snapshot s q cs found q.surface_version known
                      (λ e. omega (arith, e, version, t.room)) k)
                    (mirror p)
                  ∙ receive-snapshot F s seq q cs found (mirror p)
                      (apply_terminal_update-IsConsistent p u force c) t.sendable ls
              | inr (k, patches) ↦
                  responded (some (SurfaceResponse.patch known))
                    (response_patch s q cs found q.surface_version known k t.room
                      (omega (arith, version, t.room)))
                    (mirror p)
                  ∙ receive-patch F s seq q cs found (mirror p) known lp patches
            ]
      ]
