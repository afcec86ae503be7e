-- ===== src/Session/Core/Versions.antt =====
-- The workspace version and the effect that announces it.
use nmux.Base.{
  ◌≡◌, refl, Bool, true, false, inl, inr, ◌⊎◌, Option, Option-cases, none, some, Text, List, [],
  ◌∷◌, arith, ℕ, saturating_add64, if◌then◌else◌, ℕ-DecEq, List-DecEq,
}
use nmux.Terminal.{TerminalEngine, TerminalUpdate}
use nmux.Session.Output.{
  output_update, resize_update, terminal_input, apply_pane_output_with_engine,
  commit_pane_resize_with_engine,
}
use nmux.Protocol.{SplitAxis, ResizePolicy}
use nmux.Host.{HostSpec}
use nmux.Session.{Session, Tab, PaneState, state}
use nmux.Session.Tabs.{
  bump, add_tab, switch_tab, close_tab, with_tabs, focus_pane, split_pane, set_pane_resize_policy,
  find_tab, find_pane, change_tab, write_pane, split_in,
}
use nmux.Session.Event.{SessionEvent, SessionEffect}
use nmux.Session.Core.{
  SessionCore, workspace_effects, workspace_event, engine_mut, apply_event, apply_pane_output_event,
  apply_pane_resize_event, output_effects, resize_effects, pane_surface_effect,
}

-- What an operation that answers whether it changed the session does to the version.
abbrev pub Announces : Session → Session × Bool → Type 0
Announces s (t, changed) = t.version ≡ (if changed then saturating_add64 s.version 1 else s.version)

add_tab-Announces :
    (s : Session) (tab_id title pane_id : Text) (host : HostSpec)
    → Announces s (add_tab s tab_id title pane_id host)
unfolding add_tab bump
add_tab-Announces s tab_id title pane_id host =
    elim (Option-cases (find_tab s.active_tab_id s.tabs)) [
      | inl e ↦ ground (arith, e)
      | inr (t, e) ↦ ground (arith, e)
    ]

switch_tab-Announces : (s : Session) (id : Text) → Announces s (switch_tab s id)
unfolding switch_tab bump
switch_tab-Announces s id = ground arith

close_tab-Announces : (s : Session) (id : Text) → Announces s (close_tab s id)
unfolding close_tab bump
close_tab-Announces s id = ground arith

with_tabs-Announces : (s : Session) (tabs : Option (List Tab)) → Announces s (with_tabs s tabs)
unfolding with_tabs bump
with_tabs-Announces s none = refl
with_tabs-Announces s (some tabs) = refl

focus_pane-Announces : (s : Session) (id : Text) → Announces s (focus_pane s id)
unfolding focus_pane
focus_pane-Announces s id = with_tabs-Announces s _

split_pane-Announces :
    (s : Session) (id : Text) (axis : SplitAxis) (new : Text) (host : HostSpec)
    → Announces s (split_pane s id axis new host)
unfolding split_pane
split_pane-Announces s id axis new host =
    ground
      (arith, with_tabs-Announces s (change_tab s.active_tab_id (split_in id axis new host) s.tabs))

set_pane_resize_policy-Announces :
    (s : Session) (id : Text) (policy : ResizePolicy)
    → Announces s (set_pane_resize_policy s id policy)
unfolding set_pane_resize_policy bump write_pane
set_pane_resize_policy-Announces s id policy = ground arith

-- The version that the effects announce.
unfoldable pub announced : List SessionEffect → Option ℕ
announced [] = none
announced (SessionEffect.workspace_changed i version ∷ effects) = some version
announced (SessionEffect.pane_surface_changed i pane_id v w kind ∷ effects) = announced effects
announced (SessionEffect.pane_resized i pane_id cols rows ∷ effects) = announced effects

-- The effects announce the new version, which is the next one, or the version is the old one.
abbrev pub IsAnnounced : Session → Session → List SessionEffect → Type 0
IsAnnounced s t effects =
    ((announced effects ≡ none) × (t.version ≡ s.version))
    ⊎ ((announced effects ≡ some t.version) × (t.version ≡ saturating_add64 s.version 1))

announced-output_effects :
    (i : ℕ) (id : Text) (s : Session) (b : Bool) → announced (output_effects i id s b) ≡ none
unfolding announced output_effects pane_surface_effect
announced-output_effects i id s true = elim (Option-cases (find_pane s id)) [
  | inl e ↦ rw (e, output_effects, pane_surface_effect) refl
  | inr (p, e) ↦ rw (e, output_effects, pane_surface_effect) refl
]
announced-output_effects i id s false = refl

announced-resize_effects :
    (i : ℕ) (id : Text) (cols rows : ℕ) (s : Session)
    → announced (resize_effects i id cols rows s true) ≡ some s.version
unfolding announced resize_effects pane_surface_effect
announced-resize_effects i id cols rows s = elim (Option-cases (find_pane s id)) [
  | inl e ↦ rw (e, resize_effects, pane_surface_effect) refl
  | inr (p, e) ↦ rw (e, resize_effects, pane_surface_effect) refl
]

version-output_update :
    (s : Session) (id : Text) (p : PaneState) (o : Option TerminalUpdate)
    → (output_update s id p o).0.version ≡ s.version
unfolding output_update write_pane
version-output_update s id p none = refl
version-output_update s id p (some u) = refl

resize_update-Announces :
    (s : Session) (id : Text) (p : PaneState) (cols rows : ℕ) (o : Option TerminalUpdate)
    → Announces s (resize_update s id p cols rows o)
unfolding resize_update bump write_pane
resize_update-Announces s id p cols rows none = refl
resize_update-Announces s id p cols rows (some u) = refl

module _ (E : TerminalEngine) (s : Session) (id : Text) (engine : E.State) where
  version-apply_pane_output :
      (output : List ℕ) → (apply_pane_output_with_engine E s id output engine).0.version ≡ s.version
  unfolding apply_pane_output_with_engine
  version-apply_pane_output output = elim (Option-cases (find_pane s id)) [
    | inl e ↦ ground arith
    | inr (p, e) ↦ rw (e, apply_pane_output_with_engine) (version-output_update s id (state p) _)
  ]

  commit_pane_resize-Announces :
      (cols rows : ℕ)
      → let r = commit_pane_resize_with_engine E s id cols rows engine in Announces s (r.0, r.1)
  unfolding commit_pane_resize_with_engine
  commit_pane_resize-Announces cols rows = elim (Option-cases (find_pane s id)) [
    | inl e ↦ ground arith
    | inr (p, e) ↦
        let resized =
          resize_update-Announces s id (state p) cols rows
            (E.resize engine (terminal_input (state p)) cols rows).0 in
        ground arith
  ]

resize_effects-IsAnnounced :
    (i : ℕ) (id : Text) (cols rows : ℕ) (s t : Session) (b : Bool)
    → Announces s (t, b)
    → IsAnnounced s t (resize_effects i id cols rows t b)
unfolding announced resize_effects
resize_effects-IsAnnounced i id cols rows s t true a =
    inr (announced-resize_effects i id cols rows t, a)
resize_effects-IsAnnounced i id cols rows s t false a = inl (refl, a)

module _ (E : TerminalEngine) (c : SessionCore E) (i : ℕ) where
  workspace_event-IsAnnounced :
      (r : Session × Bool)
      → Announces c.session r
      → IsAnnounced c.session (workspace_event E c i r).0.session (workspace_event E c i r).1
  unfolding workspace_event workspace_effects announced
  workspace_event-IsAnnounced (t, true) a = inr (refl, a)
  workspace_event-IsAnnounced (t, false) a = inl (refl, a)

  output-IsAnnounced :
      (pane_id : Text) (bytes : List ℕ)
      → IsAnnounced c.session
          (apply_pane_output_event E c i pane_id bytes).0.session
          (apply_pane_output_event E c i pane_id bytes).1
  unfolding apply_pane_output_event
  output-IsAnnounced pane_id bytes =
      let engine = engine_mut E pane_id c.terminal_engines in
      inl (
        announced-output_effects i pane_id _ _,
        version-apply_pane_output E c.session pane_id engine bytes,
      )

  resize-IsAnnounced :
      (pane_id : Text) (cols rows : ℕ)
      → IsAnnounced c.session
          (apply_pane_resize_event E c i pane_id cols rows).0.session
          (apply_pane_resize_event E c i pane_id cols rows).1
  unfolding apply_pane_resize_event
  resize-IsAnnounced pane_id cols rows =
      let engine = engine_mut E pane_id c.terminal_engines in
      resize_effects-IsAnnounced i pane_id cols rows c.session _ _
        (commit_pane_resize-Announces E c.session pane_id engine cols rows)

  -- After any event, the effects announce the workspace's new version, which is the one after the
  -- old one up to saturation, or they announce none and the version is the old one.
  pub apply_event-IsAnnounced :
      (e : SessionEvent)
      → IsAnnounced c.session (apply_event E c i e).0.session (apply_event E c i e).1
  unfolding apply_event announced
  apply_event-IsAnnounced (SessionEvent.add_tab tab_id title pane_id host) =
      workspace_event-IsAnnounced _ (add_tab-Announces c.session tab_id title pane_id host)
  apply_event-IsAnnounced (SessionEvent.switch_tab tab_id) =
      workspace_event-IsAnnounced _ (switch_tab-Announces c.session tab_id)
  apply_event-IsAnnounced (SessionEvent.close_tab tab_id) =
      workspace_event-IsAnnounced _ (close_tab-Announces c.session tab_id)
  apply_event-IsAnnounced (SessionEvent.focus_pane pane_id) =
      workspace_event-IsAnnounced _ (focus_pane-Announces c.session pane_id)
  apply_event-IsAnnounced (SessionEvent.split_pane pane_id axis new_pane_id new_host) =
      workspace_event-IsAnnounced _
        (split_pane-Announces c.session pane_id axis new_pane_id new_host)
  apply_event-IsAnnounced (SessionEvent.set_pane_resize_policy pane_id policy) =
      workspace_event-IsAnnounced _ (set_pane_resize_policy-Announces c.session pane_id policy)
  apply_event-IsAnnounced (SessionEvent.pane_output pane_id bytes) =
      output-IsAnnounced pane_id bytes
  apply_event-IsAnnounced (SessionEvent.commit_pane_resize pane_id cols rows) =
      resize-IsAnnounced pane_id cols rows
  apply_event-IsAnnounced (SessionEvent.request_session_shutdown session_id) = inl (refl, refl)
  apply_event-IsAnnounced (SessionEvent.forward_pane_input pane_id input_seq bytes) =
      inl (refl, refl)
