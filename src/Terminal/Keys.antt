-- ===== src/Terminal/Keys.antt =====
-- The bytes that keys and mouse events send to a pane (crates/nmux-core/src/terminal.rs,
-- `named_key_bytes`, `modified_named_key_bytes` and `encode_sgr_mouse_input`).
pub mod Complete
use nmux.Base.{
  ℕ, zero, suc, ◌+◌, ◌*◌, ◌/◌, ◌%◌, ◌==◌, ◌!=◌, ◌&&◌, ◌||◌, ltb, leb, Bool, true, false, Text,
  codes, Option, none, some, List, [], ◌∷◌, ◌++◌, if◌then◌else◌, or_else, map_option, u32_max,
  ℕ-DecEq, List-DecEq,
}
use nmux.Protocol.{MouseFormat}
use nmux.Terminal.Mouse.{MouseAction, MouseButton, MouseTerminalInput}

-- The arms of the `match` that the application keypad decides: name, normal, application.
abbrev keypad_keys : List (Text × Text × Text)
keypad_keys =
    (codes "numpad-enter", 13 ∷ [], 27 ∷ codes "OM")
    ∷ (codes "numpad-0", codes "0", 27 ∷ codes "Op")
    ∷ (codes "numpad-1", codes "1", 27 ∷ codes "Oq")
    ∷ (codes "numpad-2", codes "2", 27 ∷ codes "Or")
    ∷ (codes "numpad-3", codes "3", 27 ∷ codes "Os")
    ∷ (codes "numpad-4", codes "4", 27 ∷ codes "Ot")
    ∷ (codes "numpad-5", codes "5", 27 ∷ codes "Ou")
    ∷ (codes "numpad-6", codes "6", 27 ∷ codes "Ov")
    ∷ (codes "numpad-7", codes "7", 27 ∷ codes "Ow")
    ∷ (codes "numpad-8", codes "8", 27 ∷ codes "Ox")
    ∷ (codes "numpad-9", codes "9", 27 ∷ codes "Oy")
    ∷ []

-- The arms that the application cursor decides.
abbrev cursor_keys : List (Text × Text × Text)
cursor_keys =
    (codes "arrow-up", 27 ∷ codes "[A", 27 ∷ codes "OA")
    ∷ (codes "arrow-down", 27 ∷ codes "[B", 27 ∷ codes "OB")
    ∷ (codes "arrow-right", 27 ∷ codes "[C", 27 ∷ codes "OC")
    ∷ (codes "arrow-left", 27 ∷ codes "[D", 27 ∷ codes "OD")
    ∷ []

abbrev fixed_keys : List (Text × Text)
fixed_keys =
    (codes "enter", 13 ∷ [])
    ∷ (codes "tab", 9 ∷ [])
    ∷ (codes "space", 32 ∷ [])
    ∷ (codes "backspace", 127 ∷ [])
    ∷ (codes "escape", 27 ∷ [])
    ∷ (codes "insert", 27 ∷ codes "[2~")
    ∷ (codes "delete", 27 ∷ codes "[3~")
    ∷ (codes "home", 27 ∷ codes "[H")
    ∷ (codes "end", 27 ∷ codes "[F")
    ∷ (codes "page-up", 27 ∷ codes "[5~")
    ∷ (codes "page-down", 27 ∷ codes "[6~")
    ∷ (codes "f1", 27 ∷ codes "OP")
    ∷ (codes "f2", 27 ∷ codes "OQ")
    ∷ (codes "f3", 27 ∷ codes "OR")
    ∷ (codes "f4", 27 ∷ codes "OS")
    ∷ (codes "f5", 27 ∷ codes "[15~")
    ∷ (codes "f6", 27 ∷ codes "[17~")
    ∷ (codes "f7", 27 ∷ codes "[18~")
    ∷ (codes "f8", 27 ∷ codes "[19~")
    ∷ (codes "f9", 27 ∷ codes "[20~")
    ∷ (codes "f10", 27 ∷ codes "[21~")
    ∷ (codes "f11", 27 ∷ codes "[23~")
    ∷ (codes "f12", 27 ∷ codes "[24~")
    ∷ []

unfoldable choose_key : Text → Bool → List (Text × Text × Text) → Option Text
choose_key name application [] = none
choose_key name application ((k, normal, special) ∷ keys) =
    if name == k
    then some (if application then special else normal)
    else choose_key name application keys

unfoldable find_key : Text → List (Text × Text) → Option Text
find_key name [] = none
find_key name ((k, bytes) ∷ keys) = if name == k then some bytes else find_key name keys

unfoldable pub named_key_bytes : Text → Bool → Bool → Option Text
unfolding choose_key find_key
named_key_bytes key_name application_keypad application_cursor =
    or_else (choose_key key_name application_keypad keypad_keys)
      (or_else (choose_key key_name application_cursor cursor_keys) (find_key key_name fixed_keys))

-- A number as `format!` writes it. A `u32` has ten digits at most.
unfoldable pub digits : ℕ → ℕ → Text
digits zero n = []
digits (suc fuel) n =
    let rest = digits fuel (n / 10) in
    if ltb n 10 then (n + 48) ∷ [] else rest ++ (n % 10 + 48) ∷ []

unfoldable pub decimal : ℕ → Text
unfolding digits
decimal n = digits 10 n

-- `modifiers & 2 ^ k != 0`, for 2 ^ k.
unfoldable pub has_bit : ℕ → ℕ → Bool
has_bit modifiers bit = modifiers / bit % 2 != 0

-- The keys that take a modifier: name, first parameter and final byte.
abbrev modified_keys : List (Text × Text × ℕ)
modified_keys =
    (codes "arrow-up", codes "1", 65)
    ∷ (codes "arrow-down", codes "1", 66)
    ∷ (codes "arrow-right", codes "1", 67)
    ∷ (codes "arrow-left", codes "1", 68)
    ∷ (codes "home", codes "1", 72)
    ∷ (codes "end", codes "1", 70)
    ∷ (codes "insert", codes "2", 126)
    ∷ (codes "delete", codes "3", 126)
    ∷ (codes "page-up", codes "5", 126)
    ∷ (codes "page-down", codes "6", 126)
    ∷ (codes "f1", codes "1", 80)
    ∷ (codes "f2", codes "1", 81)
    ∷ (codes "f3", codes "1", 82)
    ∷ (codes "f4", codes "1", 83)
    ∷ (codes "f5", codes "15", 126)
    ∷ (codes "f6", codes "17", 126)
    ∷ (codes "f7", codes "18", 126)
    ∷ (codes "f8", codes "19", 126)
    ∷ (codes "f9", codes "20", 126)
    ∷ (codes "f10", codes "21", 126)
    ∷ (codes "f11", codes "23", 126)
    ∷ (codes "f12", codes "24", 126)
    ∷ []

unfoldable find_modified : Text → List (Text × Text × ℕ) → Option (Text × ℕ)
find_modified name [] = none
find_modified name ((k, number, final) ∷ keys) =
    if name == k then some (number, final) else find_modified name keys

unfoldable pub xterm_modifier_param : ℕ → ℕ
unfolding has_bit
xterm_modifier_param modifiers =
    1
    + (if has_bit modifiers 1 then 1 else 0)
    + (if has_bit modifiers 4 then 2 else 0)
    + (if has_bit modifiers 2 then 4 else 0)
    + (if has_bit modifiers 8 then 8 else 0)

-- `ESC [` first `;` second final.
unfoldable pub csi_sequence : Text → Text → ℕ → Text
csi_sequence first second final = 0x1b ∷ 91 ∷ first ++ 59 ∷ second ++ final ∷ []

unfoldable pub modified_named_key_bytes : Text → ℕ → Option Text
unfolding find_modified xterm_modifier_param decimal csi_sequence
modified_named_key_bytes key_name modifiers =
    if modifiers == 0 || ltb 0x0f modifiers
    then none
    else elim (find_modified key_name modified_keys) [
      | some (number, final) ↦
          some (csi_sequence number (decimal (xterm_modifier_param modifiers)) final)
      | none ↦ if key_name == codes "tab" && modifiers == 1 then some (0x1b ∷ codes "[Z") else none
    ]

unfoldable button_code : MouseButton → ℕ
button_code MouseButton.left = 0
button_code MouseButton.middle = 1
button_code MouseButton.right = 2
button_code MouseButton.none = 3
button_code MouseButton.wheel_up = 64
button_code MouseButton.wheel_down = 65

unfoldable is_motion : MouseAction → Bool
is_motion MouseAction.motion = true
is_motion _ = false

unfoldable pub final_byte : MouseAction → ℕ
final_byte MouseAction.release = 109
final_byte _ = 77

unfoldable pub mouse_code : MouseTerminalInput → ℕ
unfolding button_code is_motion has_bit
mouse_code input =
    button_code input.button
    + (if is_motion input.action then 32 else 0)
    + (if has_bit input.modifiers 1 then 4 else 0)
    + (if has_bit input.modifiers 4 then 8 else 0)
    + (if has_bit input.modifiers 2 then 16 else 0)

unfoldable pub checked_add32 : ℕ → ℕ → Option ℕ
checked_add32 a b = if leb (a + b) u32_max then some (a + b) else none

-- The position that the report carries: pixels, or one-based cells.
unfoldable pub mouse_position : MouseTerminalInput → Option (ℕ × ℕ)
unfolding checked_add32
mouse_position input = elim input.mouse_format [
  | MouseFormat.sgr_pixels ↦ both input.pixel_x input.pixel_y
  | _ ↦ both (checked_add32 input.col 1) (checked_add32 input.row 1)
]
  where
    both : Option ℕ → Option ℕ → Option (ℕ × ℕ)
    both (some x) (some y) = some (x, y)
    both _ _ = none

unfoldable pub is_sgr : MouseFormat → Bool
is_sgr MouseFormat.sgr = true
is_sgr MouseFormat.sgr_pixels = true
is_sgr _ = false

-- `ESC [ <` code `;` x `;` y final.
unfoldable pub sgr_report : ℕ → ℕ → ℕ → ℕ → Text
unfolding decimal
sgr_report code x y final =
    0x1b ∷ 91 ∷ 60 ∷ decimal code ++ 59 ∷ decimal x ++ 59 ∷ decimal y ++ final ∷ []

unfoldable pub encode_sgr_mouse_input : MouseTerminalInput → Option Text
unfolding is_sgr mouse_code mouse_position final_byte sgr_report
encode_sgr_mouse_input input =
    if is_sgr input.mouse_format
    then if leb input.rows input.row || leb input.cols input.col
      then none
      else map_option (λ p. sgr_report (mouse_code input) p.0 p.1 (final_byte input.action))
          (mouse_position input)
    else none
