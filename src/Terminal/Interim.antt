-- ===== src/Terminal/Interim.antt =====
-- The interim engine's parser of escape sequences, which drops them and follows the modes that they
-- set (crates/nmux-core/src/terminal.rs, `InterimAnsiParser`).
pub mod Stream
pub mod Control
pub mod Merge
use nmux.Base.{
  ℕ, ◌+◌, ◌-◌, ◌*◌, ◌≤◌, ◌==◌, ◌!=◌, ◌&&◌, ◌||◌, ltb, leb, Bool, true, false, Option, none, some,
  List, [], ◌∷◌, if◌then◌else◌, ℕ-DecEq, u32_max, get_elem?, Option-DecEq, drop, ◌++◌,
}
use nmux.Protocol.{MouseTrackingMode, MouseFormat, MouseTrackingMode-DecEq, MouseFormat-DecEq}
use nmux.Terminal.{TerminalModes}

pub data InterimAnsiState : Type 0 where
  ground escape : InterimAnsiState
  csi : List ℕ → InterimAnsiState
  osc : Bool → InterimAnsiState
  string_control : Bool → InterimAnsiState

-- `split(|byte| *byte == b';')`, which always yields one part at least.
unfoldable pub split_params : List ℕ → List (List ℕ)
split_params [] = [] ∷ []
split_params (b ∷ bs) = elim (split_params bs) [
  | [] ↦ []
  | part ∷ parts ↦ if b == 59 then [] ∷ part ∷ parts else (b ∷ part) ∷ parts
]

unfoldable parse_digits : ℕ → List ℕ → Option ℕ
parse_digits n [] = some n
parse_digits n (b ∷ bs) =
    let rest = parse_digits (n * 10 + (b - 48)) bs in
    if leb 48 b && leb b 57 && leb (n * 10 + (b - 48)) u32_max then rest else none

-- `str::parse::<u32>`: digits with a `+` in front or not, and no overflow. Bytes that are not UTF-8
-- are not digits, so that both `continue`s of the source are its `none`.
unfoldable pub parse_u32 : List ℕ → Option ℕ
unfolding parse_digits
parse_u32 [] = none
parse_u32 (b ∷ []) = if b == 43 then none else parse_digits 0 (b ∷ [])
parse_u32 (b ∷ c ∷ bs) = if b == 43 then parse_digits 0 (c ∷ bs) else parse_digits 0 (b ∷ c ∷ bs)

unfoldable pub set_interim_mouse_tracking : TerminalModes → MouseTrackingMode → Bool → TerminalModes
set_interim_mouse_tracking modes mode enabled =
    if enabled
    then record modes { mouse_tracking = true; mouse_tracking_mode = mode }
    else if modes.mouse_tracking_mode == mode
    then record modes { mouse_tracking = false; mouse_tracking_mode = MouseTrackingMode.none }
    else modes

unfoldable pub set_interim_mouse_format : TerminalModes → MouseFormat → Bool → TerminalModes
set_interim_mouse_format modes format enabled =
    if enabled
    then record modes { mouse_format = format }
    else if modes.mouse_format == format
    then record modes { mouse_format = MouseFormat.x10 }
    else modes

-- The `match` on a private mode's code.
unfoldable pub set_private_mode : TerminalModes → ℕ → Bool → TerminalModes
unfolding set_interim_mouse_tracking set_interim_mouse_format
set_private_mode modes code enabled =
    if code == 1
    then record modes { application_cursor = enabled }
    else if code == 6
    then record modes { origin = enabled }
    else if code == 7
    then record modes { wraparound = enabled }
    else if code == 1000
    then set_interim_mouse_tracking modes MouseTrackingMode.normal enabled
    else if code == 1002
    then set_interim_mouse_tracking modes MouseTrackingMode.button enabled
    else if code == 1003
    then set_interim_mouse_tracking modes MouseTrackingMode.any enabled
    else if code == 1004
    then record modes { focus_reporting = enabled }
    else if code == 1006
    then set_interim_mouse_format modes MouseFormat.sgr enabled
    else if code == 1016
    then set_interim_mouse_format modes MouseFormat.sgr_pixels enabled
    else if code == 2004
    then record modes { bracketed_paste = enabled }
    else modes

-- The loop over the parameters.
unfoldable pub set_modes : Bool → TerminalModes → List (List ℕ) → Bool → TerminalModes
unfolding parse_u32 set_private_mode
set_modes private modes [] enabled = modes
set_modes private modes (param ∷ params) enabled =
    let here : TerminalModes = elim (parse_u32 param) [
      | none ↦ modes
      | some code ↦ if private then set_private_mode modes code enabled else modes
    ] in
    set_modes private here params enabled

unfoldable pub apply_interim_mode_set : TerminalModes → List ℕ → Bool → TerminalModes
unfolding split_params set_modes
apply_interim_mode_set modes params enabled =
    let private = get_elem? params 0 == some 63 in
    set_modes private modes (split_params (if private then drop 1 params else params)) enabled

unfoldable pub apply_interim_csi : TerminalModes → List ℕ → ℕ → TerminalModes
unfolding apply_interim_mode_set
apply_interim_csi modes params final_byte =
    if final_byte == 104
    then apply_interim_mode_set modes params true
    else if final_byte == 108
    then apply_interim_mode_set modes params false
    else modes

-- One byte of the loop of `consume`: the next state, the byte if it is text, and the modes.
unfoldable pub consume_byte :
    InterimAnsiState → ℕ → TerminalModes → InterimAnsiState × List ℕ × TerminalModes
unfolding apply_interim_csi
consume_byte InterimAnsiState.ground byte modes =
    if byte == 0x1b
    then (InterimAnsiState.escape, [], modes)
    else if byte == 0x9b
    then (InterimAnsiState.csi [], [], modes)
    else (InterimAnsiState.ground, byte ∷ [], modes)
consume_byte InterimAnsiState.escape byte modes =
    if byte == 91
    then (InterimAnsiState.csi [], [], modes)
    else if byte == 93
    then (InterimAnsiState.osc false, [], modes)
    else if byte == 80 || byte == 88 || byte == 94 || byte == 95
    then (InterimAnsiState.string_control false, [], modes)
    else if byte == 61
    then (InterimAnsiState.ground, [], record modes { application_keypad = true })
    else if byte == 62
    then (InterimAnsiState.ground, [], record modes { application_keypad = false })
    else if byte == 0x1b
    then (InterimAnsiState.escape, [], modes)
    else (InterimAnsiState.ground, [], modes)
consume_byte (InterimAnsiState.csi buffer) byte modes =
    if byte == 0x1b
    then (InterimAnsiState.escape, [], modes)
    else if leb 0x40 byte && leb byte 0x7e
    then (InterimAnsiState.ground, [], apply_interim_csi modes buffer byte)
    else (InterimAnsiState.csi (buffer ++ byte ∷ []), [], modes)
consume_byte (InterimAnsiState.osc escape_pending) byte modes =
    if escape_pending
    then if byte == 92
      then (InterimAnsiState.ground, [], modes)
      else (InterimAnsiState.osc (byte == 0x1b), [], modes)
    else if byte == 0x07
    then (InterimAnsiState.ground, [], modes)
    else if byte == 0x1b
    then (InterimAnsiState.osc true, [], modes)
    else (InterimAnsiState.osc false, [], modes)
consume_byte (InterimAnsiState.string_control escape_pending) byte modes =
    if escape_pending
    then if byte == 92
      then (InterimAnsiState.ground, [], modes)
      else (InterimAnsiState.string_control (byte == 0x1b), [], modes)
    else if byte == 0x1b
    then (InterimAnsiState.string_control true, [], modes)
    else (InterimAnsiState.string_control false, [], modes)

unfoldable pub consume :
    InterimAnsiState → List ℕ → TerminalModes → InterimAnsiState × List ℕ × TerminalModes
unfolding consume_byte
consume state [] modes = (state, [], modes)
consume state (byte ∷ bytes) modes =
    let (next, text, modes') = consume_byte state byte modes in
    let (last, rest, modes'') = consume next bytes modes' in (last, text ++ rest, modes'')
