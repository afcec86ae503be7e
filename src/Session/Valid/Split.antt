-- ===== src/Session/Valid/Split.antt =====
-- The well-formedness of a session when a pane is split (crates/nmux-core/src/session.rs,
-- `split_pane`).
use nmux.Base.{
  ◌≡◌, true, some, is_some, Option-cases, Text, arith, ℕ, inl, inr, ℕ-DecEq, List-DecEq,
  List-discrete, ℕ_discrete,
}
use nmux.Protocol.{SplitAxis}
use nmux.Host.{HostSpec}
use nmux.Session.{Pane, Panes, pane, nil, cons, PaneState, Tab, Session}
use nmux.Session.Tree.{
  pane_node, pane_nodes, split_container, split_leaf, split_child_sizes, split_pane_node,
  split_nodes,
}
use nmux.Session.Tabs.{split_in, split_pane}
use nmux.Session.Valid.{IsFocused, IsValid}
use nmux.Session.Valid.Tabs.{template_node, with_tabs-IsValid}

module _ (id : Text) (axis : SplitAxis) (new : Text) (host : HostSpec) where
  container_finds :
      (st : PaneState) (sizes : ℕ × ℕ × ℕ × ℕ)
      → is_some (pane_node new (split_container st id axis new host sizes)) ≡ true
  unfolding pane_node split_container
  container_finds st (c1, r1, c2, r2) = ground (arith, template_node new host c2 r2)

  leaf_finds :
      (st : PaneState) (cs : Panes) (q : Pane)
      → split_leaf st cs id axis new host ≡ some q
      → is_some (pane_node new q) ≡ true
  unfolding split_leaf
  leaf_finds st nil q e = elim (Option-cases (split_child_sizes st.cols st.rows axis)) [
    | inl p ↦ ground arith
    | inr (sizes, p) ↦ ground (arith, container_finds st sizes)
  ]
  leaf_finds st (cons _ _) q e = ground arith

  mutual
    unfolding split_pane_node pane_node

    split_finds :
        (p q : Pane)
        → split_pane_node id axis new host p ≡ some q
        → is_some (pane_node new q) ≡ true
    split_finds (pane st cs) q e = elim (List-discrete ℕ_discrete st.id id) [
      | yes p ↦ leaf_finds st cs q (ground arith)
      | no p ↦ elim (Option-cases (split_nodes id axis new host cs)) [
        | inl r ↦ ground arith
        | inr (ds, r) ↦ ground (arith, splits_find cs ds r)
      ]
    ]

    splits_find :
        (ps qs : Panes)
        → split_nodes id axis new host ps ≡ some qs
        → is_some (pane_nodes new qs) ≡ true
    splits_find nil qs e = ground arith
    splits_find (cons p ps) qs e = elim (Option-cases (split_pane_node id axis new host p)) [
      | inl r ↦ elim (Option-cases (split_nodes id axis new host ps)) [
        | inl k ↦ ground arith
        | inr (ds, k) ↦ ground (arith, splits_find ps ds k)
      ]
      | inr (q, r) ↦ ground (arith, split_finds p q r)
    ]

split_in_lem :
    (id : Text) (axis : SplitAxis) (new : Text) (host : HostSpec) (t u : Tab)
    → split_in id axis new host t ≡ some u
    → (u.id ≡ t.id) × IsFocused u
unfolding split_in
split_in_lem id axis new host t u e =
    elim (Option-cases (split_pane_node id axis new host t.root)) [
      | inl p ↦ ground arith
      | inr (q, p) ↦ ground (arith, split_finds id axis new host t.root q p)
    ]

pub split_pane-IsValid :
    (s : Session) (id : Text) (axis : SplitAxis) (new : Text) (host : HostSpec)
    → IsValid s
    → IsValid (split_pane s id axis new host).0
unfolding split_pane
split_pane-IsValid s id axis new host v =
    let split =
      with_tabs-IsValid (split_in id axis new host)
        (λ t u e. (split_in_lem id axis new host t u e).0) s
        (λ t u e. (split_in_lem id axis new host t u e).1) v in
    ground (arith, split)
