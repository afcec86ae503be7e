-- ===== src/Session/Tree.antt =====
-- Pane trees: finding, changing and splitting a node (crates/nmux-core/src/session.rs, the free
-- functions `pane_node` to `split_child_sizes`).
pub mod LeafStates
pub mod Leaves
pub mod Sizes
use nmux.Base.{
  ℕ, ◌-◌, ◌/◌, ◌+◌, ◌≤◌, ◌==◌, Bool, true, false, Text, codes, Option, none, some, List, [], ◌∷◌,
  ◌++◌, length, if◌then◌else◌, leb, max, or_else, map_option, saturating_add32, saturating_add64,
  ℕ-DecEq, List-DecEq,
}
use nmux.Protocol.{SplitAxis, PatchKind, SplitAxis-DecEq}
use nmux.Host.{HostSpec}
use nmux.Session.{Pane, Panes, pane, nil, cons, PaneState, all_row_indices, new_pane_from_template}

-- The first node with the id, in the order parent, first child, next children.
unfoldable mutual
  pub pane_node : Text → Pane → Option Pane
  pane_node id (pane st cs) = if st.id == id then some (pane st cs) else pane_nodes id cs

  pub pane_nodes : Text → Panes → Option Pane
  pane_nodes id nil = none
  pane_nodes id (cons p ps) = or_else (pane_node id p) (pane_nodes id ps)

-- A write through the reference that `pane_node_mut` returns; `none` where it returns none.
unfoldable mutual
  pub write_node : Text → PaneState → Pane → Option Pane
  write_node id new (pane st cs) =
      if st.id == id then some (pane new cs) else map_option (pane st) (write_nodes id new cs)

  pub write_nodes : Text → PaneState → Panes → Option Panes
  write_nodes id new nil = none
  write_nodes id new (cons p ps) = elim (write_node id new p) [
    | some q ↦ some (cons q ps)
    | none ↦ map_option (cons p) (write_nodes id new ps)
  ]

unfoldable mutual
  pub collect_leaf_pane_ids : Pane → List Text
  collect_leaf_pane_ids (pane st nil) = st.id ∷ []
  collect_leaf_pane_ids (pane st (cons p ps)) = collect_leaf_pane_ids p ++ leaf_ids ps

  pub leaf_ids : Panes → List Text
  leaf_ids nil = []
  leaf_ids (cons p ps) = collect_leaf_pane_ids p ++ leaf_ids ps

unfoldable pub split_child_sizes : ℕ → ℕ → SplitAxis → Option (ℕ × ℕ × ℕ × ℕ)
split_child_sizes cols rows SplitAxis.horizontal =
    let first_rows = rows / 2 in
    if leb 2 rows then some (cols, first_rows, cols, rows - first_rows) else none
split_child_sizes cols rows SplitAxis.vertical =
    let first_cols = cols / 2 in
    if leb 2 cols then some (first_cols, rows, cols - first_cols, rows) else none
split_child_sizes cols rows _ = none

-- The pane that keeps its content, with the first half of the room.
unfoldable pub existing_half : PaneState → ℕ → ℕ → PaneState
existing_half st cols rows = record st {
  cols = cols;
  rows = rows;
  host = record (st.host) {
    command = record (st.host.command) { initial_size = some (cols, rows) };
  };
  surface_version = saturating_add64 st.surface_version 1;
  last_patch_kind = PatchKind.full_refresh_required;
  last_row_update_indices = all_row_indices (length st.surface_lines);
  last_palette_diff = none;
}

unfoldable pub split_id : Text → Text → Text
split_id pane_id new_pane_id = codes "split-" ++ pane_id ++ codes "-" ++ new_pane_id

-- The node that takes the place of the pane, above its two halves.
unfoldable pub split_container :
    PaneState → Text → SplitAxis → Text → HostSpec → ℕ × ℕ × ℕ × ℕ → Pane
split_container st pane_id axis new_pane_id new_host (c1, r1, c2, r2) =
    let horizontal = axis == SplitAxis.horizontal in
    pane
      (record st {
        id = split_id pane_id new_pane_id;
        split_axis = axis;
        cols = if horizontal then max c1 c2 else saturating_add32 c1 c2;
        rows = if horizontal then saturating_add32 r1 r2 else max r1 r2;
        surface_version = 0;
        last_patch_kind = PatchKind.full_refresh_required;
        last_row_update_indices = [];
        last_palette_diff = none;
      })
      (cons (pane (existing_half st c1 r1) nil)
        (cons (new_pane_from_template new_pane_id new_host c2 r2) nil))

-- A node with children is not split.
unfoldable pub split_leaf : PaneState → Panes → Text → SplitAxis → Text → HostSpec → Option Pane
split_leaf st nil pane_id axis new_pane_id new_host =
    map_option (split_container st pane_id axis new_pane_id new_host)
      (split_child_sizes st.cols st.rows axis)
split_leaf st (cons _ _) pane_id axis new_pane_id new_host = none

-- `none` where the source returns false, which leaves the tree as it was.
unfoldable mutual
  pub split_pane_node : Text → SplitAxis → Text → HostSpec → Pane → Option Pane
  split_pane_node pane_id axis new_pane_id new_host (pane st cs) =
      if st.id == pane_id
      then split_leaf st cs pane_id axis new_pane_id new_host
      else map_option (pane st) (split_nodes pane_id axis new_pane_id new_host cs)

  pub split_nodes : Text → SplitAxis → Text → HostSpec → Panes → Option Panes
  split_nodes pane_id axis new_pane_id new_host nil = none
  split_nodes pane_id axis new_pane_id new_host (cons p ps) =
      elim (split_pane_node pane_id axis new_pane_id new_host p) [
        | some q ↦ some (cons q ps)
        | none ↦ map_option (cons p) (split_nodes pane_id axis new_pane_id new_host ps)
      ]
