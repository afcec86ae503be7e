-- ===== src/Session/Valid.antt =====
-- The well-formedness of a session: the active tab exists, each tab's active pane is in its tree,
-- and no two tabs share an id.
pub mod Tabs
pub mod Close
pub mod Split
pub mod Write
use nmux.Base.{◌≡◌, true, none, is_some, List, [], ◌∷◌, All}
use nmux.Session.{Tab, Session}
use nmux.Session.Tree.{pane_node}
use nmux.Session.Tabs.{find_tab}

abbrev pub IsFocused : Tab → Type 0
IsFocused t = is_some (pane_node t.active_pane_id t.root) ≡ true

abbrev pub IsDistinct : List Tab → Type 0
IsDistinct [] = Unit
IsDistinct (t ∷ ts) = (find_tab t.id ts ≡ none) × IsDistinct ts

pub record IsValid (s : Session) : Type 0 where
  pub active : is_some (find_tab s.active_tab_id s.tabs) ≡ true
  pub focused : All IsFocused s.tabs
  pub distinct : IsDistinct s.tabs
