-- ===== src/Session/Tree/LeafStates.antt =====
-- The leaves of a pane tree with their state (crates/nmux-core/src/session.rs,
-- `collect_leaf_pane_ids`).
use nmux.Base.{◌≡◌, refl, sym, List, [], ◌∷◌, ◌++◌, map}
use mathlib.Core.List.{map-append}
use nmux.Session.{Pane, Panes, pane, nil, cons, PaneState}
use nmux.Session.Tree.{collect_leaf_pane_ids, leaf_ids}

-- The leaves of a tree, from left to right.
unfoldable mutual
  pub leaves : Pane → List PaneState
  leaves (pane st nil) = st ∷ []
  leaves (pane st (cons p ps)) = leaves p ++ leaves_of ps

  pub leaves_of : Panes → List PaneState
  leaves_of nil = []
  leaves_of (cons p ps) = leaves p ++ leaves_of ps

mutual
  unfolding leaves collect_leaf_pane_ids

  pub collect_leaf_pane_ids-leaves :
      (p : Pane) → collect_leaf_pane_ids p ≡ map (λ l. l.id) (leaves p)
  collect_leaf_pane_ids-leaves (pane st nil) = refl
  collect_leaf_pane_ids-leaves (pane st (cons p ps)) =
      rw (collect_leaf_pane_ids-leaves p, leaf_ids-leaves_of ps)
        (sym (map-append (λ l. l.id) (leaves p) (leaves_of ps)))

  leaf_ids-leaves_of : (ps : Panes) → leaf_ids ps ≡ map (λ l. l.id) (leaves_of ps)
  leaf_ids-leaves_of nil = refl
  leaf_ids-leaves_of (cons p ps) =
      rw (collect_leaf_pane_ids-leaves p, leaf_ids-leaves_of ps)
        (sym (map-append (λ l. l.id) (leaves p) (leaves_of ps)))

-- `kept` is `old` but for its size, the size in its command, the version of its surface and what
-- the last patch was.
pub record IsResized (old kept : PaneState) : Type 0 where
  pub host :
      record (kept.host) {
        command = record (kept.host.command) { initial_size = old.host.command.initial_size };
      }
      ≡ old.host
  pub state :
      record kept {
        cols = old.cols;
        rows = old.rows;
        host = old.host;
        surface_version = old.surface_version;
        last_patch_kind = old.last_patch_kind;
        last_row_update_indices = old.last_row_update_indices;
        last_palette_diff = old.last_palette_diff;
      }
      ≡ old
