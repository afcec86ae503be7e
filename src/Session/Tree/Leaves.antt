-- ===== src/Session/Tree/Leaves.antt =====
-- The leaves of a pane tree before and after a split (crates/nmux-core/src/session.rs,
-- `split_pane_node`).
use nmux.Base.{
  ◌≡◌, refl, ap, sym, subst, ◌∙◌, Text, none, some, List, [], ◌∷◌, ◌++◌, append_assoc, map, arith,
  ℕ, ℕ-DecEq, List-DecEq, Option-cases, inl, inr, ◌≢◌, List-discrete, ℕ_discrete,
}
use nmux.Protocol.{SplitAxis}
use nmux.Host.{HostSpec}
use nmux.Session.{Pane, Panes, pane, nil, cons, PaneState, state, new_pane_from_template}
use nmux.Session.Tree.LeafStates.{leaves, leaves_of, IsResized, collect_leaf_pane_ids-leaves}
use nmux.Session.Tree.{
  collect_leaf_pane_ids, split_child_sizes, existing_half, split_container, split_leaf,
  split_pane_node, split_nodes,
}

module _ (id : Text) (axis : SplitAxis) (new : Text) (host : HostSpec) where
  -- `after` is `before` with the leaf `old`, whose id is `id`, cut to the first part of a split
  -- along `axis`, and a new pane `fresh` of the second part's size put behind it.
  pub record Splits (before after : List PaneState) : Type 0 where
    pub left : List PaneState
    pub right : List PaneState
    pub old : PaneState
    pub kept : PaneState
    pub fresh : PaneState
    pub is_before : before ≡ left ++ old ∷ right
    pub is_after : after ≡ left ++ kept ∷ fresh ∷ right
    pub old_id : old.id ≡ id
    pub fresh_id : fresh.id ≡ new
    pub resized : IsResized old kept
    pub template : pane fresh nil ≡ new_pane_from_template new host fresh.cols fresh.rows
    pub sizes :
        split_child_sizes old.cols old.rows axis
        ≡ some (kept.cols, kept.rows, fresh.cols, fresh.rows)

  prepend :
      (front before after : List PaneState)
      → Splits before after
      → Splits (front ++ before) (front ++ after)
  prepend front before after s = record {
    left = front ++ s.left;
    right = s.right;
    old = s.old;
    kept = s.kept;
    fresh = s.fresh;
    is_before = ap (◌++◌ front) s.is_before ∙ sym (append_assoc front s.left (s.old ∷ s.right));
    is_after =
        ap (◌++◌ front) s.is_after ∙ sym (append_assoc front s.left (s.kept ∷ s.fresh ∷ s.right));
    old_id = s.old_id;
    fresh_id = s.fresh_id;
    resized = s.resized;
    template = s.template;
    sizes = s.sizes;
  }

  append :
      (back before after : List PaneState)
      → Splits before after
      → Splits (before ++ back) (after ++ back)
  append back before after s = record {
    left = s.left;
    right = s.right ++ back;
    old = s.old;
    kept = s.kept;
    fresh = s.fresh;
    is_before = ap (λ t. t ++ back) s.is_before ∙ append_assoc s.left (s.old ∷ s.right) back;
    is_after =
        ap (λ t. t ++ back) s.is_after ∙ append_assoc s.left (s.kept ∷ s.fresh ∷ s.right) back;
    old_id = s.old_id;
    fresh_id = s.fresh_id;
    resized = s.resized;
    template = s.template;
    sizes = s.sizes;
  }

  split_container-Splits :
      (st : PaneState) (sizes : ℕ × ℕ × ℕ × ℕ)
      → st.id ≡ id
      → split_child_sizes st.cols st.rows axis ≡ some sizes
      → Splits (st ∷ []) (leaves (split_container st id axis new host sizes))
  unfolding leaves split_container existing_half new_pane_from_template
  split_container-Splits st (c1, r1, c2, r2) i n = record {
    left = [];
    right = [];
    old = st;
    kept = existing_half st c1 r1;
    fresh = state (new_pane_from_template new host c2 r2);
    is_before = refl;
    is_after = refl;
    old_id = i;
    fresh_id = refl;
    resized = record { host = refl; state = refl };
    template = refl;
    sizes = n;
  }

  chosen :
      (st : PaneState) (q : Pane) (sizes : ℕ × ℕ × ℕ × ℕ)
      → split_child_sizes st.cols st.rows axis ≡ some sizes
      → split_leaf st nil id axis new host ≡ some q
      → split_container st id axis new host sizes ≡ q
  unfolding split_leaf
  chosen st q sizes n e = ground arith

  split_leaf-Splits :
      (st : PaneState) (cs : Panes) (q : Pane)
      → st.id ≡ id
      → split_leaf st cs id axis new host ≡ some q
      → Splits (leaves (pane st cs)) (leaves q)
  unfolding split_leaf leaves
  split_leaf-Splits st nil q i e = elim (Option-cases (split_child_sizes st.cols st.rows axis)) [
    | inl n ↦ absurd (ground (arith, e, n))
    | inr (sizes, n) ↦
        subst (λ r. Splits (st ∷ []) (leaves r)) (chosen st q sizes n e)
          (split_container-Splits st sizes i n)
  ]
  split_leaf-Splits st (cons p ps) q i e = absurd (ground arith)

  -- A node whose children were split has children before and after.
  leaves-split_nodes :
      (st : PaneState) (cs ds : Panes)
      → split_nodes id axis new host cs ≡ some ds
      → (leaves (pane st cs) ≡ leaves_of cs) × (leaves (pane st ds) ≡ leaves_of ds)
  unfolding split_nodes leaves
  leaves-split_nodes st nil ds e = absurd (ground arith)
  leaves-split_nodes st (cons p ps) ds e =
      elim (Option-cases (split_pane_node id axis new host p)) [
        | inl n ↦ elim (Option-cases (split_nodes id axis new host ps)) [
          | inl m ↦ absurd (ground (arith, e, n, m))
          | inr (qs, m) ↦ (refl, ground (arith, e, n, m))
        ]
        | inr (q, n) ↦ (refl, ground (arith, e, n))
      ]

  found :
      (st : PaneState) (cs ds : Panes) (q : Pane)
      → st.id ≢ id
      → split_nodes id axis new host cs ≡ some ds
      → split_pane_node id axis new host (pane st cs) ≡ some q
      → pane st ds ≡ q
  unfolding split_pane_node
  found st cs ds q i n e = ground arith

  found_first :
      (p q : Pane) (ps qs : Panes)
      → split_pane_node id axis new host p ≡ some q
      → split_nodes id axis new host (cons p ps) ≡ some qs
      → cons q ps ≡ qs
  unfolding split_nodes
  found_first p q ps qs n e = ground arith

  found_behind :
      (p : Pane) (ps rs qs : Panes)
      → split_pane_node id axis new host p ≡ none
      → split_nodes id axis new host ps ≡ some rs
      → split_nodes id axis new host (cons p ps) ≡ some qs
      → cons p rs ≡ qs
  unfolding split_nodes
  found_behind p ps rs qs n m e = ground arith

  mutual
    unfolding split_pane_node leaves

    split_pane_node-leaves :
        (p q : Pane) → split_pane_node id axis new host p ≡ some q → Splits (leaves p) (leaves q)
    split_pane_node-leaves (pane st cs) q e = elim (List-discrete ℕ_discrete st.id id) [
      | yes i ↦ split_leaf-Splits st cs q i (ground (arith, e, i))
      | no i ↦ elim (Option-cases (split_nodes id axis new host cs)) [
        | inl n ↦ absurd (ground (arith, e, i, n))
        | inr (ds, n) ↦
            let (b, a) = leaves-split_nodes st cs ds n in
            subst (λ r. Splits (leaves (pane st cs)) (leaves r)) (found st cs ds q i n e)
              (rw (b, a) (split_nodes-leaves cs ds n))
      ]
    ]

    split_nodes-leaves :
        (ps qs : Panes)
        → split_nodes id axis new host ps ≡ some qs
        → Splits (leaves_of ps) (leaves_of qs)
    split_nodes-leaves nil qs e = absurd (ground arith)
    split_nodes-leaves (cons p ps) qs e = elim (Option-cases (split_pane_node id axis new host p)) [
      | inl n ↦ elim (Option-cases (split_nodes id axis new host ps)) [
        | inl m ↦ absurd (ground (arith, e, n, m))
        | inr (rs, m) ↦
            subst (λ r. Splits (leaves_of (cons p ps)) (leaves_of r))
              (found_behind p ps rs qs n m e)
              (prepend (leaves p) (leaves_of ps) (leaves_of rs) (split_nodes-leaves ps rs m))
      ]
      | inr (q, n) ↦
          subst (λ r. Splits (leaves_of (cons p ps)) (leaves_of r)) (found_first p q ps qs n e)
            (append (leaves_of ps) (leaves p) (leaves q) (split_pane_node-leaves p q n))
    ]

-- A split that succeeds changes one leaf, which has the split id: it keeps all but its size, its
-- surface's version and the record of its last patch. Right behind it, from left to right, stands
-- the new pane as the template makes it, and no other leaf changes. The two have the sizes of the
-- split's parts. The leaf ids that the session collects are those of these leaves.
pub leaves-split_pane_node :
    (id : Text) (axis : SplitAxis) (new : Text) (host : HostSpec) (p q : Pane)
    → split_pane_node id axis new host p ≡ some q
    → Splits id axis new host (leaves p) (leaves q)
      × (collect_leaf_pane_ids p ≡ map (λ l. l.id) (leaves p))
      × (collect_leaf_pane_ids q ≡ map (λ l. l.id) (leaves q))
leaves-split_pane_node id axis new host p q e = (
  split_pane_node-leaves id axis new host p q e,
  collect_leaf_pane_ids-leaves p,
  collect_leaf_pane_ids-leaves q,
)
