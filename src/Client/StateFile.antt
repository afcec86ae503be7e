-- ===== src/Client/StateFile.antt =====
-- The fields of the client's state file (crates/nmux-cli/src/local/state_file.rs). A field is the
-- list of its bytes; `none` is an error of the kind `InvalidData`, the only kind there is.
pub mod RoundTrip
use nmux.Base.{
  ℕ, ◌+◌, ◌-◌, ◌*◌, ◌/◌, ◌%◌, ◌^◌, ◌==◌, ◌&&◌, leb, ltb, Bool, true, false, codes, Option, none,
  some, List, [], ◌∷◌, ◌++◌, if◌then◌else◌, is_empty, map_option, ◌>>=◌, ℕ-DecEq, List-DecEq,
}

-- `HEX[digit]`, of a digit below 16.
unfoldable pub hex_digit : ℕ → ℕ
hex_digit digit = if ltb digit 10 then digit + 48 else digit + 87

unfoldable pub hex_encode : List ℕ → List ℕ
unfolding hex_digit
hex_encode [] = []
hex_encode (byte ∷ bytes) = hex_digit (byte / 16) ∷ hex_digit (byte % 16) ∷ hex_encode bytes

unfoldable pub hex_value : ℕ → Option ℕ
hex_value byte =
    if leb 48 byte && leb byte 57
    then some (byte - 48)
    else if leb 97 byte && leb byte 102
    then some (byte - 97 + 10)
    else if leb 65 byte && leb byte 70
    then some (byte - 65 + 10)
    else none

-- A string of odd length is refused.
unfoldable pub hex_decode : List ℕ → Option (List ℕ)
unfolding hex_value
hex_decode [] = some []
hex_decode (a ∷ []) = none
hex_decode (a ∷ b ∷ rest) = do
  high ← hex_value a
  low ← hex_value b
  decoded ← hex_decode rest
  some ((high * 16 + low) ∷ decoded)

unfoldable pub state_hex_field : List ℕ → List ℕ
unfolding hex_encode
state_hex_field bytes = if is_empty bytes then codes "-" else hex_encode bytes

unfoldable pub decode_state_hex_field : List ℕ → Option (List ℕ)
unfolding hex_decode
decode_state_hex_field encoded = if encoded == codes "-" then some [] else hex_decode encoded

unfoldable pub parse_state_bool : List ℕ → Option Bool
parse_state_bool value =
    if value == codes "0" then some false else if value == codes "1" then some true else none

-- `color.to_be_bytes()`, and `u32::from_be_bytes`.
unfoldable pub to_be_bytes : ℕ → List ℕ
to_be_bytes color = color / 2 ^ 24 ∷ color / 2 ^ 16 % 256 ∷ color / 2 ^ 8 % 256 ∷ color % 256 ∷ []

-- The chunks of four bytes; `none` if some are left.
unfoldable pub from_be_chunks : List ℕ → Option (List ℕ)
from_be_chunks [] = some []
from_be_chunks (a ∷ b ∷ c ∷ d ∷ rest) =
    map_option (◌∷◌ (a * 2 ^ 24 + b * 2 ^ 16 + c * 2 ^ 8 + d)) (from_be_chunks rest)
from_be_chunks _ = none

unfoldable pub be_bytes : List ℕ → List ℕ
unfolding to_be_bytes
be_bytes [] = []
be_bytes (color ∷ colors) = to_be_bytes color ++ be_bytes colors

-- How a client writes its palette.
unfoldable pub encode_palette_rgba : List ℕ → List ℕ
unfolding be_bytes hex_encode
encode_palette_rgba palette = hex_encode (be_bytes palette)

unfoldable pub decode_palette_rgba : List ℕ → Option (List ℕ)
unfolding hex_decode from_be_chunks
decode_palette_rgba encoded = do bytes ← hex_decode encoded; from_be_chunks bytes
