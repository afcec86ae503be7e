-- ===== src/Session/Valid/Close.antt =====
-- The well-formedness of a session and its other tabs when a tab is closed (crates/nmux-
-- core/src/session.rs, `close_tab`).
use nmux.Base.{
  ◌≡◌, refl, ◌≢◌, ◌<◌, ◌-◌, true, none, some, is_some, Option-cases, Text, List, [], ◌∷◌, All,
  arith, ℕ, zero, suc, inl, inr, length, get_elem?, min, ℕ-DecEq, List-DecEq, ◌+◌,
}
use nmux.Session.{Tab, Session}
use nmux.Session.Tabs.{find_tab, position, remove_at, active_after_close, close_tab}
use nmux.Session.Valid.{IsFocused, IsDistinct, IsValid}

position-lt : (id : Text) (ts : List Tab) (i : ℕ) → position id ts ≡ some i → i < length ts
unfolding position
position-lt id [] i e = ground arith
position-lt id (t ∷ ts) i e = elim (Option-cases (position id ts)) [
  | inl q ↦ ground arith
  | inr (j, q) ↦ ground (arith, position-lt id ts j q)
]

pub length-remove_at :
    (i : ℕ) (ts : List Tab) → i < length ts → length (remove_at i ts) + 1 ≡ length ts
unfolding remove_at
length-remove_at i [] h = absurd (omega arith)
length-remove_at zero (t ∷ ts) h = omega arith
length-remove_at (suc i) (t ∷ ts) h = omega (arith, length-remove_at i ts (omega arith))

get_elem?-lt : (i : ℕ) (ts : List Tab) → i < length ts → (t : Tab) × (get_elem? ts i ≡ some t)
get_elem?-lt i [] h = absurd (omega arith)
get_elem?-lt zero (t ∷ ts) h = (t, refl)
get_elem?-lt (suc i) (t ∷ ts) h = get_elem?-lt i ts (omega arith)

find_tab-get_elem? :
    (i : ℕ) (ts : List Tab) (t : Tab) → get_elem? ts i ≡ some t → is_some (find_tab t.id ts) ≡ true
unfolding find_tab
find_tab-get_elem? i [] t e = ground arith
find_tab-get_elem? zero (u ∷ ts) t e = ground arith
find_tab-get_elem? (suc i) (u ∷ ts) t e = ground (arith, find_tab-get_elem? i ts t e)

remove_at-All : (i : ℕ) (ts : List Tab) → All IsFocused ts → All IsFocused (remove_at i ts)
unfolding remove_at
remove_at-All i [] a = tt
remove_at-All zero (t ∷ ts) a = a.1
remove_at-All (suc i) (t ∷ ts) a = (a.0, remove_at-All i ts a.1)

find_tab-remove_at_none :
    (i : ℕ) (id : Text) (ts : List Tab)
    → find_tab id ts ≡ none
    → find_tab id (remove_at i ts) ≡ none
unfolding find_tab remove_at
find_tab-remove_at_none i id [] e = refl
find_tab-remove_at_none zero id (t ∷ ts) e = ground arith
find_tab-remove_at_none (suc i) id (t ∷ ts) e = ground (arith, find_tab-remove_at_none i id ts)

remove_at-IsDistinct : (i : ℕ) (ts : List Tab) → IsDistinct ts → IsDistinct (remove_at i ts)
unfolding remove_at
remove_at-IsDistinct i [] d = tt
remove_at-IsDistinct zero (t ∷ ts) d = d.1
remove_at-IsDistinct (suc i) (t ∷ ts) d =
    (find_tab-remove_at_none i t.id ts d.0, remove_at-IsDistinct i ts d.1)

-- A tab of another id than the closed one stays.
find_tab-remove_at :
    (id j : Text) (ts : List Tab) (i : ℕ)
    → position id ts ≡ some i
    → j ≢ id
    → find_tab j (remove_at i ts) ≡ find_tab j ts
unfolding find_tab remove_at position
find_tab-remove_at id j [] i e h = refl
find_tab-remove_at id j (t ∷ ts) i e h = elim (Option-cases (position id ts)) [
  | inl q ↦ ground arith
  | inr (k, q) ↦ ground (arith, find_tab-remove_at id j ts k q)
]

active_after_close-found :
    (s : Session) (id : Text) (i : ℕ)
    → position id s.tabs ≡ some i
    → 1 < length s.tabs
    → IsValid s
    → let left = remove_at i s.tabs in
      is_some (find_tab (active_after_close s id i left) left) ≡ true
unfolding active_after_close
active_after_close-found s id i e h v =
    let left = remove_at i s.tabs in
    let next = min i (length left - 1) in
    let fits = length-remove_at i s.tabs (position-lt id s.tabs i e) in
    let (t, q) = get_elem?-lt next left (omega (arith, fits)) in
    ground (
      arith,
      find_tab-get_elem? next left t q,
      find_tab-remove_at id s.active_tab_id s.tabs i e,
      v.active,
      q,
    )

-- Closing a tab takes no other tab away and changes none.
pub find_tab-close_tab :
    (s : Session) (id j : Text) → j ≢ id → find_tab j (close_tab s id).0.tabs ≡ find_tab j s.tabs
unfolding close_tab
find_tab-close_tab s id j h = elim (Option-cases (position id s.tabs)) [
  | inl e ↦ ground arith
  | inr (i, e) ↦ ground (arith, find_tab-remove_at id j s.tabs i e h)
]

pub close_tab-IsValid : (s : Session) (id : Text) → IsValid s → IsValid (close_tab s id).0
unfolding close_tab
close_tab-IsValid s id v = elim (Option-cases (position id s.tabs)) [
  | inl e ↦ ground arith
  | inr (i, e) ↦ ground (
    arith,
    active_after_close-found s id i e,
    remove_at-All i s.tabs v.focused,
    remove_at-IsDistinct i s.tabs v.distinct,
  )
]
