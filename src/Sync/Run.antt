-- ===== src/Sync/Run.antt =====
-- A run of reports to a pane, each followed by the frame that the server writes for the client's
-- version.
use nmux.Base.{ℕ, ◌≡◌, ◌∙◌, refl, ap, Bool, some, List, [], ◌∷◌}
use nmux.Frame.{FlatBuffers}
use nmux.Terminal.{TerminalUpdate}
use nmux.Session.{Session, Panes, PaneState, pane}
use nmux.Session.Tabs.{find_pane}
use nmux.Session.Update.{apply_terminal_update}
use nmux.Session.Frame.{surface_of_pane, snapshot_envelope, patch_envelope}
use nmux.Client.Surface.{Result, ok, err, ClientPaneSurface}
use nmux.Client.Surface.Patch.{Action}
use nmux.Client.Receive.{receive_some}
use nmux.Sync.{changed_surface_frame, local_client}
use nmux.Sync.Mirror.{mirror, IsConsistent}
use nmux.Sync.Consistent.{apply_terminal_update-IsConsistent}
use nmux.Sync.Refines.{IsTracked, changed_surface_frame-mirror}

-- A report, the session that has the pane after it, and the number of the frame.
pub record Step : Type 0 where
  pub update : TerminalUpdate
  pub force : Bool
  pub session : Session
  pub seq : ℕ

unfoldable pub pane_after : PaneState → Step → PaneState
pane_after p step = (apply_terminal_update p step.update step.force).0

unfoldable pub run_pane : List Step → PaneState → PaneState
unfolding pane_after
run_pane [] p = p
run_pane (step ∷ steps) p = run_pane steps (pane_after p step)

module _ (F : FlatBuffers) where
  -- The client stops at the first error.
  unfoldable pub run_client : List Step → PaneState → Action Unit
  unfolding pane_after changed_surface_frame
  run_client [] p t = (ok tt, t)
  run_client (step ∷ steps) p t =
      let q = pane_after p step in
      let (r, t') =
        receive_some F
          (changed_surface_frame F step.session q.id q.surface_version (some t.version) step.seq)
          t in
      elim r [ ok _ ↦ run_client steps q t' | err e ↦ (err e, t') ]

  -- The session of a step has the pane, and its frames are within the limits of FlatBuffers.
  pub record IsServed (p q : PaneState) (step : Step) : Type 0 where
    pub children : Panes
    pub found : find_pane step.session q.id ≡ some (pane q children)
    pub snapshot :
        F.IsWithinLimits (snapshot_envelope step.session local_client step.seq (surface_of_pane q))
    pub patch :
        F.IsWithinLimits
          (patch_envelope step.session local_client step.seq p.surface_version (surface_of_pane q))

  -- Every report of the run is tracked and served.
  abbrev pub IsRun : List Step → PaneState → Type 0
  IsRun [] p = Unit
  IsRun (step ∷ steps) p =
      IsTracked p step.update step.force
      × IsServed p (pane_after p step) step
      × IsRun steps (pane_after p step)

  version-mirror : (p : PaneState) → (mirror p).version ≡ p.surface_version
  unfolding mirror
  version-mirror p = refl

  step-mirror :
      (p : PaneState) (step : Step)
      → IsConsistent p
      → IsTracked p step.update step.force
      → IsServed p (pane_after p step) step
      → receive_some F
          (changed_surface_frame F step.session
            (pane_after p step).id
            (pane_after p step).surface_version
            (some (mirror p).version)
            step.seq)
          (mirror p)
        ≡ (ok tt, mirror (pane_after p step))
  unfolding pane_after
  step-mirror p step c t s =
      let q = (apply_terminal_update p step.update step.force).0 in
      ap
        (λ v.
          receive_some F
            (changed_surface_frame F step.session q.id q.surface_version (some v) step.seq)
            (mirror p))
        (version-mirror p)
      ∙ changed_surface_frame-mirror F step.session step.seq p step.update step.force s.children
          s.found c t s.snapshot s.patch

  after-IsConsistent :
      (p : PaneState) (step : Step) → IsConsistent p → IsConsistent (pane_after p step)
  unfolding pane_after
  after-IsConsistent p step c = apply_terminal_update-IsConsistent p step.update step.force c

  -- A client that shows a consistent pane takes every frame of a run without an error, and then
  -- shows the pane as the run leaves it.
  pub run_client-mirror :
      (steps : List Step) (p : PaneState)
      → IsConsistent p
      → IsRun steps p
      → run_client steps p (mirror p) ≡ (ok tt, mirror (run_pane steps p))
  unfolding run_client run_pane
  run_client-mirror [] p c r = refl
  run_client-mirror (step ∷ steps) p c (t, s, r) =
      let q = pane_after p step in
      ap
        (λ (x : Result Unit × ClientPaneSurface). elim x.0 [
          | ok _ ↦ run_client steps q x.1
          | err e ↦ (err e, x.1)
        ])
        (step-mirror p step c t s)
      ∙ run_client-mirror steps q (after-IsConsistent p step c) r
