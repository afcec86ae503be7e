-- ===== src/Sync/Response.antt =====
-- Which frame the server chooses after a report.
use nmux.Base.{
  ℕ, ◌+◌, ◌≡◌, ◌≢◌, ◌<◌, ◌∙◌, refl, sym, ap, none, some, arith, u64_max, ℕ-DecEq, Option-DecEq,
}
use nmux.Protocol.{PatchKind, PatchKind-DecEq, PatchKind-discrete}
use nmux.Session.{Session, Panes, PaneState, pane}
use nmux.Session.Tabs.{find_pane}
use nmux.Sync.{
  SurfaceResponse, surface_response_for_known_version, surface_patch_kind, response_for_known,
  checked_add64,
}

same_version :
    (current : ℕ) (kind : PatchKind)
    → surface_response_for_known_version current current kind ≡ none
unfolding surface_response_for_known_version
same_version current kind = ground arith

-- A full refresh is a snapshot.
full_refresh :
    (current known : ℕ)
    → known ≢ current
    → surface_response_for_known_version current known PatchKind.full_refresh_required
      ≡ some SurfaceResponse.snapshot
unfolding surface_response_for_known_version PatchKind-discrete
full_refresh current known h = ground arith

next_version :
    (current known : ℕ) (kind : PatchKind)
    → kind ≢ PatchKind.full_refresh_required
    → known < u64_max
    → current ≡ known + 1
    → surface_response_for_known_version current known kind ≡ some (SurfaceResponse.patch known)
unfolding surface_response_for_known_version checked_add64
next_version current known kind k h e = ground arith

module _ (s : Session) (q : PaneState) (cs : Panes) (found : find_pane s q.id ≡ some (pane q cs))
    (current known : ℕ) where
  found_response :
      response_for_known s q.id current (some known)
      ≡ surface_response_for_known_version current known q.last_patch_kind
  unfolding response_for_known surface_patch_kind
  found_response = rw found refl

  pub response_none : current ≡ known → response_for_known s q.id current (some known) ≡ none
  response_none e =
      found_response
      ∙ ap (λ n. surface_response_for_known_version current n q.last_patch_kind) (sym e)
      ∙ same_version current q.last_patch_kind

  pub response_snapshot :
      known ≢ current
      → q.last_patch_kind ≡ PatchKind.full_refresh_required
      → response_for_known s q.id current (some known) ≡ some SurfaceResponse.snapshot
  response_snapshot h k =
      found_response
      ∙ ap (surface_response_for_known_version current known) k
      ∙ full_refresh current known h

  pub response_patch :
      q.last_patch_kind ≢ PatchKind.full_refresh_required
      → known < u64_max
      → current ≡ known + 1
      → response_for_known s q.id current (some known) ≡ some (SurfaceResponse.patch known)
  response_patch k h e = found_response ∙ next_version current known q.last_patch_kind k h e
