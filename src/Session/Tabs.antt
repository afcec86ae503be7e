-- ===== src/Session/Tabs.antt =====
-- The operations on tabs and panes (crates/nmux-core/src/session.rs, `impl Session`). An operation
-- returns the session and whether it changed it.
use nmux.Base.{
  ℕ, zero, suc, ◌-◌, ◌==◌, ◌||◌, min, leb, Bool, true, false, Text, Option, none, some, List, [],
  ◌∷◌, ◌++◌, length, get_elem?, if◌then◌else◌, is_some, is_empty, or_else, map_option,
  saturating_add64, ℕ-DecEq, List-DecEq,
}
use nmux.Protocol.{
  SplitAxis, ResizePolicy, ResizeReason, ResizePolicy-DecEq, ResizeReason-DecEq, SplitAxis-DecEq,
}
use nmux.Host.{HostSpec}
use nmux.Session.{Pane, PaneState, state, Tab, Session, new_pane_from_template}
use nmux.Session.Tree.{pane_node, write_node, split_pane_node, collect_leaf_pane_ids}

-- `tabs.iter().find_map(|tab| pane_node(&tab.root, pane_id))`.
unfoldable pub pane_in_tabs : Text → List Tab → Option Pane
pane_in_tabs id [] = none
pane_in_tabs id (t ∷ ts) = or_else (pane_node id t.root) (pane_in_tabs id ts)

unfoldable pub find_pane : Session → Text → Option Pane
unfolding pane_in_tabs
find_pane s id = pane_in_tabs id s.tabs

-- A write through the reference that `pane_mut` returns.
unfoldable pub write_in_tabs : Text → PaneState → List Tab → List Tab
write_in_tabs id new [] = []
write_in_tabs id new (t ∷ ts) = elim (write_node id new t.root) [
  | some root ↦ record t { root = root } ∷ ts
  | none ↦ t ∷ write_in_tabs id new ts
]

unfoldable pub write_pane : Session → Text → PaneState → Session
unfolding write_in_tabs
write_pane s id new = record s { tabs = write_in_tabs id new s.tabs }

unfoldable pub find_tab : Text → List Tab → Option Tab
find_tab id [] = none
find_tab id (t ∷ ts) = if t.id == id then some t else find_tab id ts

-- `tabs.iter().position(|tab| tab.id == id)`.
unfoldable pub position : Text → List Tab → Option ℕ
position id [] = none
position id (t ∷ ts) = if t.id == id then some 0 else map_option suc (position id ts)

-- `tabs.remove(index)`.
unfoldable pub remove_at : ℕ → List Tab → List Tab
remove_at i [] = []
remove_at zero (t ∷ ts) = ts
remove_at (suc i) (t ∷ ts) = t ∷ remove_at i ts

unfoldable pub bump : Session → Session
bump s = record s { version = saturating_add64 s.version 1 }

unfoldable pub active_pane_id : Session → Option Text
active_pane_id s = elim (find_tab s.active_tab_id s.tabs) [
  | none ↦ none
  | some t ↦ if is_some (pane_node t.active_pane_id t.root) then some t.active_pane_id else none
]

-- The new tab has the size of the active one.
unfoldable pub added_tab : Text → Text → Text → HostSpec → Tab → Tab
added_tab tab_id title pane_id host active = record {
  id = tab_id;
  title = title;
  active_pane_id = pane_id;
  root = new_pane_from_template pane_id host (state active.root).cols (state active.root).rows;
}

unfoldable pub add_tab : Session → Text → Text → Text → HostSpec → Session × Bool
unfolding bump
add_tab s tab_id title pane_id host =
    if is_empty tab_id
      || is_empty pane_id
      || is_some (find_tab tab_id s.tabs)
      || is_some (find_pane s pane_id)
    then (s, false)
    else elim (find_tab s.active_tab_id s.tabs) [
      | none ↦ (s, false)
      | some active ↦
          let tab = added_tab tab_id title pane_id host active in
          (bump (record s { tabs = s.tabs ++ tab ∷ [] }), true)
    ]

unfoldable pub switch_tab : Session → Text → Session × Bool
unfolding bump
switch_tab s tab_id = elim (find_tab tab_id s.tabs) [
  | none ↦ (s, false)
  | some t ↦
      if is_some (pane_node t.active_pane_id t.root)
      then (if s.active_tab_id == tab_id
          then (s, false)
          else (bump (record s { active_tab_id = tab_id }), true))
      else (s, false)
]

-- The tab that takes over: the one that moves into the place of the closed one, or the last.
-- `self.tabs[next_index]` is in range, since a tab is left.
unfoldable pub active_after_close : Session → Text → ℕ → List Tab → Text
active_after_close s tab_id index left =
    if s.active_tab_id == tab_id
    then elim (get_elem? left (min index (length left - 1))) [
      | none ↦ s.active_tab_id
      | some t ↦ t.id
    ]
    else s.active_tab_id

unfoldable pub close_tab : Session → Text → Session × Bool
unfolding bump active_after_close
close_tab s tab_id = if leb (length s.tabs) 1 then (s, false) else elim (position tab_id s.tabs) [
  | none ↦ (s, false)
  | some index ↦
      let left = remove_at index s.tabs in
      (
        bump (record s { tabs = left; active_tab_id = active_after_close s tab_id index left }),
        true,
      )
]

-- The first tab with the id is replaced; `none` if there is none or the change is refused.
unfoldable pub change_tab : Text → (Tab → Option Tab) → List Tab → Option (List Tab)
change_tab id f [] = none
change_tab id f (t ∷ ts) =
    if t.id == id then map_option (λ u. u ∷ ts) (f t) else map_option (◌∷◌ t) (change_tab id f ts)

-- What an operation on the active tab answers.
unfoldable pub with_tabs : Session → Option (List Tab) → Session × Bool
unfolding bump
with_tabs s none = (s, false)
with_tabs s (some tabs) = (bump (record s { tabs = tabs }), true)

unfoldable pub focus_in : Text → Tab → Option Tab
focus_in pane_id t =
    if is_some (pane_node pane_id t.root)
    then (if t.active_pane_id == pane_id
        then none
        else some (record t { active_pane_id = pane_id }))
    else none

unfoldable pub focus_pane : Session → Text → Session × Bool
unfolding with_tabs focus_in
focus_pane s pane_id = with_tabs s (change_tab s.active_tab_id (focus_in pane_id) s.tabs)

unfoldable pub split_in : Text → SplitAxis → Text → HostSpec → Tab → Option Tab
split_in pane_id axis new_pane_id new_host t =
    map_option (λ root. record t { root = root; active_pane_id = new_pane_id })
      (split_pane_node pane_id axis new_pane_id new_host t.root)

unfoldable pub split_pane : Session → Text → SplitAxis → Text → HostSpec → Session × Bool
unfolding with_tabs split_in
split_pane s pane_id axis new_pane_id new_host =
    if axis == SplitAxis.horizontal || axis == SplitAxis.vertical
    then (if is_empty new_pane_id || is_some (find_pane s new_pane_id)
        then (s, false)
        else with_tabs s
            (change_tab s.active_tab_id (split_in pane_id axis new_pane_id new_host) s.tabs))
    else (s, false)

unfoldable pub split_active_pane : Session → SplitAxis → Text → HostSpec → Session × Bool
unfolding active_pane_id
split_active_pane s axis new_pane_id new_host = elim (active_pane_id s) [
  | none ↦ (s, false)
  | some pane_id ↦ split_pane s pane_id axis new_pane_id new_host
]

unfoldable pub set_pane_resize_policy : Session → Text → ResizePolicy → Session × Bool
unfolding bump
set_pane_resize_policy s pane_id policy = elim (find_pane s pane_id) [
  | none ↦ (s, false)
  | some p ↦
      if (state p).resize_policy == policy
      then (s, false)
      else (bump (write_pane s pane_id (record (state p) { resize_policy = policy })), true)
]

unfoldable pub resize_intent_allowed : ResizePolicy → ResizeReason → Bool
resize_intent_allowed ResizePolicy.manual reason = reason == ResizeReason.user_command
resize_intent_allowed _ reason = true

unfoldable pub leaf_pane_ids : List Tab → List Text
leaf_pane_ids [] = []
leaf_pane_ids (t ∷ ts) = collect_leaf_pane_ids t.root ++ leaf_pane_ids ts
