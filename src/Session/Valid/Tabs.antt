-- ===== src/Session/Valid/Tabs.antt =====
-- The well-formedness of a session when a tab is added or chosen and when a pane gets the focus
-- (crates/nmux-core/src/session.rs).
use nmux.Base.{
  ◌≡◌, refl, true, none, some, is_some, Option, Option-cases, Text, List, [], ◌∷◌, ◌++◌, All,
  All-append, arith, ℕ, inl, inr, ℕ-DecEq, List-DecEq, List-discrete, ℕ_discrete, ◌⊎◌, ◌≢◌, ◌∙◌,
  saturating_add64,
}
use nmux.Host.{HostSpec}
use nmux.Session.{Tab, Session, new_pane_from_template}
use nmux.Session.Tree.{pane_node}
use nmux.Session.Tabs.{
  find_tab, added_tab, add_tab, switch_tab, focus_pane, focus_in, change_tab, with_tabs,
}
use nmux.Session.Valid.{IsFocused, IsDistinct, IsValid}

pub find_tab-append :
    (id : Text) (ts us : List Tab)
    → is_some (find_tab id ts) ≡ true
    → is_some (find_tab id (ts ++ us)) ≡ true
unfolding find_tab
find_tab-append id [] us h = ground arith
find_tab-append id (t ∷ ts) us h = ground (arith, find_tab-append id ts us)

find_tab-append_none :
    (id : Text) (ts us : List Tab)
    → find_tab id ts ≡ none
    → find_tab id us ≡ none
    → find_tab id (ts ++ us) ≡ none
unfolding find_tab
find_tab-append_none id [] us h k = k
find_tab-append_none id (t ∷ ts) us h k = ground (arith, find_tab-append_none id ts us)

IsDistinct-append :
    (ts : List Tab) (u : Tab) → find_tab u.id ts ≡ none → IsDistinct ts → IsDistinct (ts ++ u ∷ [])
unfolding find_tab
IsDistinct-append [] u h d = (refl, tt)
IsDistinct-append (t ∷ ts) u h d = (
  find_tab-append_none t.id ts (u ∷ []) d.0 (ground arith),
  IsDistinct-append ts u (ground arith) d.1,
)

pub template_node :
    (id : Text) (host : HostSpec) (cols rows : ℕ)
    → is_some (pane_node id (new_pane_from_template id host cols rows)) ≡ true
unfolding pane_node new_pane_from_template
template_node id host cols rows = ground arith

added-IsFocused :
    (tab_id title pane_id : Text) (host : HostSpec) (active : Tab)
    → IsFocused (added_tab tab_id title pane_id host active)
unfolding added_tab
added-IsFocused tab_id title pane_id host active = template_node pane_id host _ _

-- The invariant after a tab is appended.
append-IsValid :
    (s : Session) (u : Tab) (version : ℕ)
    → IsValid s
    → find_tab u.id s.tabs ≡ none
    → IsFocused u
    → IsValid (record s { tabs = s.tabs ++ u ∷ []; version = version })
append-IsValid s u version v fresh focused = record {
  active = find_tab-append s.active_tab_id s.tabs (u ∷ []) v.active;
  focused = All-append IsFocused s.tabs (u ∷ []) v.focused (focused, tt);
  distinct = IsDistinct-append s.tabs u fresh v.distinct;
}

pub add_tab-IsValid :
    (s : Session) (tab_id title pane_id : Text) (host : HostSpec)
    → IsValid s
    → IsValid (add_tab s tab_id title pane_id host).0
unfolding add_tab added_tab
add_tab-IsValid s tab_id title pane_id host v =
    elim (Option-cases (find_tab s.active_tab_id s.tabs)) [
      | inl e ↦ ground arith
      | inr (active, e) ↦ ground (
        arith,
        added-IsFocused tab_id title pane_id host active,
        append-IsValid s (added_tab tab_id title pane_id host active)
            (saturating_add64 s.version 1),
      )
    ]

pub switch_tab-IsValid : (s : Session) (id : Text) → IsValid s → IsValid (switch_tab s id).0
unfolding switch_tab
switch_tab-IsValid s id v = ground arith

-- The two ways in which a tab is changed.
pub change_tab-cases :
    (id : Text) (f : Tab → Option Tab) (t : Tab) (ts us : List Tab)
    → change_tab id f (t ∷ ts) ≡ some us
    → ((u : Tab) × (t.id ≡ id) × (f t ≡ some u) × (us ≡ u ∷ ts))
      ⊎ ((vs : List Tab) × (t.id ≢ id) × (change_tab id f ts ≡ some vs) × (us ≡ t ∷ vs))
unfolding change_tab
change_tab-cases id f t ts us e = elim (List-discrete ℕ_discrete t.id id) [
  | yes p ↦ elim (Option-cases (f t)) [
    | inl q ↦ ground arith
    | inr (u, q) ↦ inl (u, p, q, ground arith)
  ]
  | no p ↦ elim (Option-cases (change_tab id f ts)) [
    | inl q ↦ ground arith
    | inr (vs, q) ↦ inr (vs, p, q, ground arith)
  ]
]

-- A change of one tab that keeps its id.
module _ (f : Tab → Option Tab) (keeps : (t u : Tab) → f t ≡ some u → u.id ≡ t.id) where
  find_tab-change_tab :
      (id j : Text) (ts us : List Tab)
      → change_tab id f ts ≡ some us
      → is_some (find_tab j us) ≡ is_some (find_tab j ts)
  unfolding find_tab change_tab
  find_tab-change_tab id j [] us e = ground arith
  find_tab-change_tab id j (t ∷ ts) us e = elim (change_tab-cases id f t ts us e) [
    | inl (u, p, q, r) ↦ rw r (ground (arith, keeps t u q))
    | inr (vs, p, q, r) ↦ rw r (ground (arith, find_tab-change_tab id j ts vs q))
  ]

  change_tab-IsDistinct :
      (id : Text) (ts us : List Tab) → change_tab id f ts ≡ some us → IsDistinct ts → IsDistinct us
  unfolding change_tab
  change_tab-IsDistinct id [] us e d = ground arith
  change_tab-IsDistinct id (t ∷ ts) us e d = elim (change_tab-cases id f t ts us e) [
    | inl (u, p, q, r) ↦ rw (r, keeps t u q) d
    | inr (vs, p, q, r) ↦
        rw r (
          ground (arith, find_tab-change_tab id t.id ts vs q),
          change_tab-IsDistinct id ts vs q d.1,
        )
  ]

  change_tab-All :
      (id : Text) (ts us : List Tab)
      → ((t u : Tab) → f t ≡ some u → IsFocused u)
      → change_tab id f ts ≡ some us
      → All IsFocused ts
      → All IsFocused us
  unfolding change_tab
  change_tab-All id [] us good e a = ground arith
  change_tab-All id (t ∷ ts) us good e a = elim (change_tab-cases id f t ts us e) [
    | inl (u, p, q, r) ↦ rw r (good t u q, a.1)
    | inr (vs, p, q, r) ↦ rw r (a.0, change_tab-All id ts vs good q a.1)
  ]

  -- An operation on the active tab that keeps the tab's id and leaves it focused.
  pub with_tabs-IsValid :
      (s : Session)
      → ((t u : Tab) → f t ≡ some u → IsFocused u)
      → IsValid s
      → IsValid (with_tabs s (change_tab s.active_tab_id f s.tabs)).0
  unfolding with_tabs
  with_tabs-IsValid s good v = elim (Option-cases (change_tab s.active_tab_id f s.tabs)) [
    | inl e ↦ rw e v
    | inr (us, e) ↦ rw e (record {
      active = find_tab-change_tab s.active_tab_id s.active_tab_id s.tabs us e ∙ v.active;
      focused = change_tab-All s.active_tab_id s.tabs us good e v.focused;
      distinct = change_tab-IsDistinct s.active_tab_id s.tabs us e v.distinct;
    })
  ]

focus_in_lem :
    (pane_id : Text) (t u : Tab) → focus_in pane_id t ≡ some u → (u.id ≡ t.id) × IsFocused u
unfolding focus_in
focus_in_lem pane_id t u e = ground arith

pub focus_pane-IsValid : (s : Session) (id : Text) → IsValid s → IsValid (focus_pane s id).0
unfolding focus_pane
focus_pane-IsValid s id v =
    with_tabs-IsValid (focus_in id) (λ t u e. (focus_in_lem id t u e).0) s
      (λ t u e. (focus_in_lem id t u e).1) v
