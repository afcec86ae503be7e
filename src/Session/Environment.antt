-- ===== src/Session/Environment.antt =====
-- The environment that a pane's command gets, and the session of one output
-- (crates/nmux-core/src/session.rs, `set_pane_nmux_environment` and `from_pane_output`).
pub mod Laws
use nmux.Base.{
  ℕ, ◌==◌, ◌||◌, ◌&&◌, leb, Bool, true, false, Text, codes, Option, none, some, List, [], ◌∷◌, ◌++◌,
  map_option, is_empty, if◌then◌else◌, ℕ-DecEq, List-DecEq,
}
use nmux.Terminal.Interim.Merge.{interim_engine}
use nmux.Session.{PaneState, Session, state, initial}
use nmux.Session.Tabs.{find_pane, write_pane}
use nmux.Session.Output.{apply_pane_output_with_engine}

-- `char::is_whitespace`: the code points with the property White_Space.
unfoldable pub is_whitespace : ℕ → Bool
is_whitespace c =
    (leb 9 c && leb c 13)
    || c == 32
    || c == 0x85
    || c == 0xa0
    || c == 0x1680
    || (leb 0x2000 c && leb c 0x200a)
    || c == 0x2028
    || c == 0x2029
    || c == 0x202f
    || c == 0x205f
    || c == 0x3000

unfoldable pub trim_start : Text → Text
unfolding is_whitespace
trim_start [] = []
trim_start (c ∷ cs) = let rest = trim_start cs in if is_whitespace c then rest else c ∷ cs

unfoldable pub trim_end : Text → Text
unfolding is_whitespace
trim_end [] = []
trim_end (c ∷ cs) =
    let rest = trim_end cs in if is_empty rest && is_whitespace c then [] else c ∷ rest

-- `str::trim`.
unfoldable pub trim : Text → Text
unfolding trim_start trim_end
trim value = trim_start (trim_end value)

-- `filter(|value| !value.is_empty())`.
abbrev not_empty : Option Text → Option Text
not_empty none = none
not_empty (some value) = if is_empty value then none else some value

unfoldable pub pane_origin_chain : Option Text → Text → Text
unfolding trim
pane_origin_chain parent_origin_chain origin =
    elim (not_empty (map_option trim parent_origin_chain)) [
      | some chain ↦ chain ++ 62 ∷ origin
      | none ↦ origin
    ]

unfoldable pub is_nmux_key : Text → Bool
is_nmux_key key =
    key == codes "NMUX"
    || key == codes "NMUX_SESSION_ID"
    || key == codes "NMUX_PANE_ID"
    || key == codes "NMUX_SOCKET"
    || key == codes "NMUX_ORIGIN"

-- `retain`.
unfoldable pub without_nmux_keys : List (Text × Text) → List (Text × Text)
unfolding is_nmux_key
without_nmux_keys [] = []
without_nmux_keys ((key, value) ∷ env) =
    let rest = without_nmux_keys env in if is_nmux_key key then rest else (key, value) ∷ rest

unfoldable pub nmux_environment :
    Text → Text → Text → Text → List (Text × Text) → List (Text × Text)
unfolding without_nmux_keys
nmux_environment session_id pane_id socket_endpoint origin env =
    without_nmux_keys env
    ++ (codes "NMUX", codes "1")
      ∷ (codes "NMUX_SESSION_ID", session_id)
      ∷ (codes "NMUX_PANE_ID", pane_id)
      ∷ (codes "NMUX_SOCKET", socket_endpoint)
      ∷ (codes "NMUX_ORIGIN", origin)
      ∷ []

unfoldable pub with_nmux_environment : Text → Text → Text → Option Text → PaneState → PaneState
unfolding pane_origin_chain nmux_environment
with_nmux_environment session_id pane_id socket_endpoint parent_origin_chain p =
    let origin = pane_origin_chain parent_origin_chain p.host.id in
    record p {
      host = record (p.host) {
        command = record (p.host.command) {
          env = nmux_environment session_id pane_id socket_endpoint origin p.host.command.env;
        };
      };
    }

unfoldable pub set_pane_nmux_environment : Session → Text → Text → Option Text → Session × Bool
unfolding with_nmux_environment
set_pane_nmux_environment s pane_id socket_endpoint parent_origin_chain =
    elim (find_pane s pane_id) [
      | none ↦ (s, false)
      | some p ↦ (
        write_pane s pane_id
            (with_nmux_environment s.id pane_id socket_endpoint parent_origin_chain (state p)),
        true,
      )
    ]

unfoldable pub cleared : PaneState → PaneState
cleared p = record p {
  surface_lines = [];
  surface_row_runs = [];
  surface_semantic_prompts = [];
  surface_dirty_rows = [];
  surface_kitty_placeholders = [];
  scrollback_lines = [];
  scrollback_row_runs = [];
  scrollback_semantic_prompts = [];
  scrollback_dirty_rows = [];
  scrollback_kitty_placeholders = [];
}

unfoldable pub cleared_session : Session
unfolding cleared
cleared_session = elim (find_pane initial (codes "pane-1")) [
  | none ↦ initial
  | some p ↦ write_pane initial (codes "pane-1") (cleared (state p))
]

module _ (from_utf8_lossy : List ℕ → Text) where
  unfoldable pub from_pane_output : List ℕ → Session
  unfolding cleared_session
  from_pane_output output =
      let engine = interim_engine from_utf8_lossy in
      (apply_pane_output_with_engine engine cleared_session (codes "pane-1") output engine.fresh).0
