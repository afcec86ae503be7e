-- ===== src/Session/Valid/Write.antt =====
-- Writing the state of a pane in a session (crates/nmux-core/src/session.rs).
use nmux.Base.{
  ◌≡◌, refl, ◌≢◌, ◌∙◌, true, none, some, is_some, map_option, Option-cases, Text, List, [], ◌∷◌,
  All, arith, inl, inr, ◌⊎◌, ℕ-DecEq, List-DecEq, List-discrete, ℕ_discrete,
}
use nmux.Protocol.{ResizePolicy}
use nmux.Session.{Pane, Panes, pane, nil, cons, state, PaneState, Tab, Session}
use nmux.Session.Tree.{pane_node, pane_nodes, write_node, write_nodes}
use nmux.Session.Tabs.{
  pane_in_tabs, find_pane, write_in_tabs, write_pane, find_tab, set_pane_resize_policy,
}
use nmux.Session.Valid.{IsFocused, IsDistinct, IsValid}

module _ (id : Text) (new : PaneState) (same : new.id ≡ id) where
  mutual
    unfolding write_node pane_node

    -- The state of every other node is the old one.
    state-write_node :
        (j : Text) (p q : Pane)
        → j ≢ id
        → write_node id new p ≡ some q
        → map_option state (pane_node j q) ≡ map_option state (pane_node j p)
    state-write_node j (pane st cs) q h e = elim (List-discrete ℕ_discrete st.id id) [
      | yes p ↦ ground arith
      | no p ↦ elim (Option-cases (write_nodes id new cs)) [
        | inl r ↦ ground arith
        | inr (ds, r) ↦ ground (arith, state-write_nodes j cs ds h r)
      ]
    ]

    state-write_nodes :
        (j : Text) (ps qs : Panes)
        → j ≢ id
        → write_nodes id new ps ≡ some qs
        → map_option state (pane_nodes j qs) ≡ map_option state (pane_nodes j ps)
    state-write_nodes j nil qs h e = ground arith
    state-write_nodes j (cons p ps) qs h e = elim (Option-cases (write_node id new p)) [
      | inl r ↦ elim (Option-cases (write_nodes id new ps)) [
        | inl k ↦ ground arith
        | inr (ds, k) ↦ ground (arith, state-write_nodes j ps ds h k)
      ]
      | inr (q, r) ↦ ground (arith, state-write_node j p q h r)
    ]

  -- A write happens exactly where the id is found, and puts the new state there.
  abbrev Wrote : Pane → Type 0
  Wrote p =
      ((pane_node id p ≡ none) × (write_node id new p ≡ none))
      ⊎ ((q : Pane) × (is_some (pane_node id p) ≡ true)
          × (write_node id new p ≡ some q)
          × (map_option state (pane_node id q) ≡ some new))

  abbrev WroteMany : Panes → Type 0
  WroteMany ps =
      ((pane_nodes id ps ≡ none) × (write_nodes id new ps ≡ none))
      ⊎ ((qs : Panes) × (is_some (pane_nodes id ps) ≡ true)
          × (write_nodes id new ps ≡ some qs)
          × (map_option state (pane_nodes id qs) ≡ some new))

  mutual
    unfolding write_node pane_node

    Wrote-node : (p : Pane) → Wrote p
    Wrote-node (pane st cs) = elim (List-discrete ℕ_discrete st.id id) [
      | yes p ↦ inr (pane new cs, ground arith, ground arith, ground arith)
      | no p ↦ elim (Wrote-nodes cs) [
        | inl (a, b) ↦ inl (ground arith, ground arith)
        | inr (qs, a, b, c) ↦ inr (pane st qs, ground arith, ground arith, ground arith)
      ]
    ]

    Wrote-nodes : (ps : Panes) → WroteMany ps
    Wrote-nodes nil = inl (refl, refl)
    Wrote-nodes (cons p ps) = elim (Wrote-node p) [
      | inl (a, b) ↦ elim (Wrote-nodes ps) [
        | inl (c, d) ↦ inl (ground arith, ground arith)
        | inr (qs, c, d, e) ↦ inr (cons p qs, ground arith, ground arith, ground arith)
      ]
      | inr (q, a, b, c) ↦ inr (cons q ps, ground arith, ground arith, ground arith)
    ]

  kept_node :
      (j : Text) (p q : Pane)
      → write_node id new p ≡ some q
      → is_some (pane_node j q) ≡ is_some (pane_node j p)
  kept_node j p q e = elim (List-discrete ℕ_discrete j id) [
    | yes h ↦ elim (Wrote-node p) [
      | inl (a, b) ↦ ground arith
      | inr (r, a, b, c) ↦ rw h (ground arith)
    ]
    | no h ↦ ground (arith, state-write_node j p q h e)
  ]

  state-write_in_tabs_ne :
      (j : Text) (ts : List Tab)
      → j ≢ id
      → map_option state (pane_in_tabs j (write_in_tabs id new ts))
        ≡ map_option state (pane_in_tabs j ts)
  unfolding pane_in_tabs write_in_tabs
  state-write_in_tabs_ne j [] h = refl
  state-write_in_tabs_ne j (t ∷ ts) h = elim (Option-cases (write_node id new t.root)) [
    | inl e ↦ ground (arith, state-write_in_tabs_ne j ts h)
    | inr (q, e) ↦ ground (arith, state-write_node j t.root q h e)
  ]

  state-write_in_tabs_self :
      (ts : List Tab)
      → is_some (pane_in_tabs id ts) ≡ true
      → map_option state (pane_in_tabs id (write_in_tabs id new ts)) ≡ some new
  unfolding pane_in_tabs write_in_tabs
  state-write_in_tabs_self [] h = ground arith
  state-write_in_tabs_self (t ∷ ts) h = elim (Wrote-node t.root) [
    | inl (a, b) ↦ ground (arith, state-write_in_tabs_self ts)
    | inr (q, a, b, c) ↦ ground arith
  ]

  find_tab-write_in_tabs :
      (j : Text) (ts : List Tab)
      → is_some (find_tab j (write_in_tabs id new ts)) ≡ is_some (find_tab j ts)
  unfolding find_tab write_in_tabs
  find_tab-write_in_tabs j [] = refl
  find_tab-write_in_tabs j (t ∷ ts) = ground (arith, find_tab-write_in_tabs j ts)

  write_in_tabs-IsDistinct : (ts : List Tab) → IsDistinct ts → IsDistinct (write_in_tabs id new ts)
  unfolding find_tab write_in_tabs
  write_in_tabs-IsDistinct [] d = tt
  write_in_tabs-IsDistinct (t ∷ ts) d = elim (Option-cases (write_node id new t.root)) [
    | inl e ↦ ground (arith, find_tab-write_in_tabs t.id ts, write_in_tabs-IsDistinct ts d.1)
    | inr (q, e) ↦ ground arith
  ]

  write_in_tabs-IsFocused :
      (ts : List Tab) → All IsFocused ts → All IsFocused (write_in_tabs id new ts)
  unfolding write_in_tabs
  write_in_tabs-IsFocused [] a = tt
  write_in_tabs-IsFocused (t ∷ ts) a = elim (Option-cases (write_node id new t.root)) [
    | inl e ↦ ground (arith, write_in_tabs-IsFocused ts a.1)
    | inr (q, e) ↦ ground (arith, kept_node t.active_pane_id t.root q e)
  ]

  pub write_pane-IsValid : (s : Session) → IsValid s → IsValid (write_pane s id new)
  unfolding write_pane
  write_pane-IsValid s v = record {
    active = find_tab-write_in_tabs s.active_tab_id s.tabs ∙ v.active;
    focused = write_in_tabs-IsFocused s.tabs v.focused;
    distinct = write_in_tabs-IsDistinct s.tabs v.distinct;
  }

  pub state-write_pane_self :
      (s : Session)
      → is_some (find_pane s id) ≡ true
      → map_option state (find_pane (write_pane s id new) id) ≡ some new
  unfolding write_pane find_pane
  state-write_pane_self s h = state-write_in_tabs_self s.tabs h

  pub state-write_pane_ne :
      (s : Session) (j : Text)
      → j ≢ id
      → map_option state (find_pane (write_pane s id new) j) ≡ map_option state (find_pane s j)
  unfolding write_pane find_pane
  state-write_pane_ne s j h = state-write_in_tabs_ne j s.tabs h

-- A pane that is found has the id that was asked for.
mutual
  unfolding pane_node

  pane_node-id : (id : Text) (p q : Pane) → pane_node id p ≡ some q → (state q).id ≡ id
  pane_node-id id (pane st cs) q e = ground (arith, pane_nodes-id id cs q)

  pane_nodes-id :
      (id : Text) (ps : Panes) (q : Pane) → pane_nodes id ps ≡ some q → (state q).id ≡ id
  pane_nodes-id id nil q e = ground arith
  pane_nodes-id id (cons p ps) q e = elim (Option-cases (pane_node id p)) [
    | inl r ↦ ground (arith, pane_nodes-id id ps q)
    | inr (p', r) ↦ ground (arith, pane_node-id id p p' r)
  ]

pane_in_tabs-id :
    (id : Text) (ts : List Tab) (q : Pane) → pane_in_tabs id ts ≡ some q → (state q).id ≡ id
unfolding pane_in_tabs
pane_in_tabs-id id [] q e = ground arith
pane_in_tabs-id id (t ∷ ts) q e = elim (Option-cases (pane_node id t.root)) [
  | inl r ↦ ground (arith, pane_in_tabs-id id ts q)
  | inr (p, r) ↦ ground (arith, pane_node-id id t.root p r)
]

pub find_pane-id :
    (s : Session) (id : Text) (q : Pane) → find_pane s id ≡ some q → (state q).id ≡ id
unfolding find_pane
find_pane-id s id q e = pane_in_tabs-id id s.tabs q e

pub set_pane_resize_policy-IsValid :
    (s : Session) (id : Text) (policy : ResizePolicy)
    → IsValid s
    → IsValid (set_pane_resize_policy s id policy).0
unfolding set_pane_resize_policy
set_pane_resize_policy-IsValid s id policy v = elim (Option-cases (find_pane s id)) [
  | inl e ↦ ground arith
  | inr (p, e) ↦
      let kept =
        write_pane-IsValid id (record (state p) { resize_policy = policy }) (find_pane-id s id p e)
          s v in
      ground (arith, kept)
]
