-- ===== src/Client/StateFile/RoundTrip.antt =====
-- The hex fields and the palette of the state file, written and read (crates/nmux-
-- cli/src/local/state_file.rs, client_state.rs).
use nmux.Base.{
  ◌≡◌, refl, ap, ◌<◌, ◌/◌, ◌%◌, ◌^◌, some, List, [], ◌∷◌, All, arith, ℕ, ℕ-DecEq, List-DecEq,
}
use nmux.Client.StateFile.{
  hex_digit, hex_encode, hex_value, hex_decode, state_hex_field, decode_state_hex_field,
  to_be_bytes, be_bytes, from_be_chunks, encode_palette_rgba, decode_palette_rgba,
}

abbrev pub IsByte : ℕ → Type 0
IsByte b = b < 256

hex_value-hex_digit : (n : ℕ) → n < 16 → hex_value (hex_digit n) ≡ some n
unfolding hex_value hex_digit
hex_value-hex_digit n h = ground arith

hex_decode-hex_encode :
    (bytes : List ℕ) → All IsByte bytes → hex_decode (hex_encode bytes) ≡ some bytes
unfolding hex_decode hex_encode
hex_decode-hex_encode [] h = refl
hex_decode-hex_encode (b ∷ bytes) h =
    rw
      (
        hex_value-hex_digit (b / 16) (omega (arith, h.0)),
        hex_value-hex_digit (b % 16) (omega arith),
        hex_decode-hex_encode bytes h.1,
      )
      (ap (λ c. some (c ∷ bytes)) (omega arith))

-- Decoding the field of any bytes, also of none, gives the bytes.
pub decode_state_hex_field-state_hex_field :
    (bytes : List ℕ)
    → All IsByte bytes
    → decode_state_hex_field (state_hex_field bytes) ≡ some bytes
unfolding decode_state_hex_field state_hex_field hex_encode
decode_state_hex_field-state_hex_field [] h = ground arith
decode_state_hex_field-state_hex_field (b ∷ bytes) h =
    ground (arith, hex_decode-hex_encode (b ∷ bytes) h)

be_bytes-IsByte : (palette : List ℕ) → All (λ c. c < 2 ^ 32) palette → All IsByte (be_bytes palette)
unfolding be_bytes to_be_bytes
be_bytes-IsByte [] h = tt
be_bytes-IsByte (c ∷ palette) h =
    (omega (arith, h.0), (omega arith, (omega arith, (omega arith, be_bytes-IsByte palette h.1))))

from_be_chunks-be_bytes :
    (palette : List ℕ)
    → All (λ c. c < 2 ^ 32) palette
    → from_be_chunks (be_bytes palette) ≡ some palette
unfolding from_be_chunks be_bytes to_be_bytes
from_be_chunks-be_bytes [] h = refl
from_be_chunks-be_bytes (c ∷ palette) h =
    rw (from_be_chunks-be_bytes palette h.1) (ap (λ d. some (d ∷ palette)) (omega arith))

-- A palette of `u32` colours is read back as it was written.
pub decode_palette_rgba-encode_palette_rgba :
    (palette : List ℕ)
    → All (λ c. c < 2 ^ 32) palette
    → decode_palette_rgba (encode_palette_rgba palette) ≡ some palette
unfolding decode_palette_rgba encode_palette_rgba
decode_palette_rgba-encode_palette_rgba palette h =
    rw (hex_decode-hex_encode (be_bytes palette) (be_bytes-IsByte palette h))
      (from_be_chunks-be_bytes palette h)
