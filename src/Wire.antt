-- ===== src/Wire.antt =====
-- Framing of messages (crates/nmux-proto/src/wire.rs). A frame is a FlatBuffer with its length in
-- four bytes in front. The root accessor of the generated code is the parameter
-- `envelope_version`: the protocol version of the envelope in a frame, or `none` if the frame is
-- no valid FlatBuffer. A reader is the bytes that are left in it, a writer the bytes it was given.
pub mod RoundTrip
use nmux.Base.{
  ℕ, zero, suc, ◌+◌, ◌*◌, ◌^◌, ◌!=◌, ltb, leb, Bool, true, false, Option, none, some, List, [], ◌∷◌,
  ◌++◌, length, take, drop, if◌then◌else◌, ℕ-DecEq,
}

pub data WireError : Type 0 where
  io : WireError
  frame_too_large : ℕ → ℕ → WireError
  protocol_version_unsupported : ℕ → ℕ → WireError
  invalid_flatbuffer : WireError

pub data WireResult (A : Type 0) : Type 0 where
  ok : A → WireResult A
  err : WireError → WireResult A

abbrev pub protocol_version : ℕ
protocol_version = 1

abbrev pub default_max_frame_len : ℕ
default_max_frame_len = 16 * 1024 * 1024

-- `u32::from_le_bytes`, and 0 where there are not four bytes.
unfoldable pub from_le_bytes : List ℕ → ℕ
from_le_bytes (a ∷ b ∷ c ∷ d ∷ []) = a + b * 2 ^ 8 + c * 2 ^ 16 + d * 2 ^ 24
from_le_bytes _ = 0

-- `frame.get(..4)`.
unfoldable pub prefix_of : List ℕ → Option (List ℕ)
prefix_of frame = if leb 4 (length frame) then some (take 4 frame) else none

unfoldable pub payload_len_of : List ℕ → ℕ
unfolding prefix_of from_le_bytes
payload_len_of frame = elim (prefix_of frame) [ some prefix ↦ from_le_bytes prefix | none ↦ 0 ]

-- `read_exact`: a reader with too few bytes fails, and is then at its end.
unfoldable pub read_exact : ℕ → List ℕ → Option (List ℕ) × List ℕ
read_exact n reader =
    if leb n (length reader) then (some (take n reader), drop n reader) else (none, [])

module _ (envelope_version : List ℕ → Option ℕ) where
  -- `none` where the source returns `Ok(())`.
  unfoldable pub validate_protocol_version : List ℕ → Option WireError
  validate_protocol_version frame = elim (envelope_version frame) [
    | none ↦ some WireError.invalid_flatbuffer
    | some version ↦
        if version != protocol_version
        then some (WireError.protocol_version_unsupported version protocol_version)
        else none
  ]

  unfoldable pub checked : List ℕ → WireResult (List ℕ)
  unfolding validate_protocol_version
  checked frame = elim (validate_protocol_version frame) [ some e ↦ err e | none ↦ ok frame ]

  unfoldable pub read_payload : List ℕ → ℕ → List ℕ → WireResult (List ℕ) × List ℕ
  unfolding checked read_exact
  read_payload prefix max_len reader =
      let payload_len = from_le_bytes prefix in
      let (read, left) = read_exact payload_len reader in
      if ltb max_len payload_len
      then (err (WireError.frame_too_large payload_len max_len), reader)
      else elim read [
        | none ↦ (err WireError.io, left)
        | some payload ↦ (checked (prefix ++ payload), left)
      ]

  -- What follows the reading of the prefix.
  unfoldable pub read_after : ℕ → Option (List ℕ) × List ℕ → WireResult (List ℕ) × List ℕ
  unfolding read_payload
  read_after max_len (none, left) = (err WireError.io, left)
  read_after max_len (some prefix, left) = read_payload prefix max_len left

  unfoldable pub read_frame : List ℕ → ℕ → WireResult (List ℕ) × List ℕ
  unfolding read_after read_exact
  read_frame reader max_len = read_after max_len (read_exact 4 reader)

  -- The writer takes all bytes, or none if the frame is refused.
  unfoldable pub write_frame : List ℕ → List ℕ → ℕ → WireResult Unit × List ℕ
  unfolding validate_protocol_version payload_len_of
  write_frame writer frame max_len =
      if ltb max_len (payload_len_of frame)
      then (err (WireError.frame_too_large (payload_len_of frame) max_len), writer)
      else elim (validate_protocol_version frame) [
        | some e ↦ (err e, writer)
        | none ↦ (ok tt, writer ++ frame)
      ]

  -- The same for a stream of which only `write_all` is known: whether it took the bytes, and the
  -- stream after it.
  unfoldable pub write_frame_to :
      {W : Type 0} → (W → List ℕ → Bool × W) → W → List ℕ → ℕ → WireResult Unit × W
  unfolding validate_protocol_version payload_len_of
  write_frame_to write_all stream frame max_len =
      if ltb max_len (payload_len_of frame)
      then (err (WireError.frame_too_large (payload_len_of frame) max_len), stream)
      else elim (validate_protocol_version frame) [
        | some e ↦ (err e, stream)
        | none ↦
            let (taken, stream') = write_all stream frame in
            (if taken then ok tt else err WireError.io, stream')
      ]

  unfoldable pub write_default_frame :
      {W : Type 0} → (W → List ℕ → Bool × W) → W → List ℕ → WireResult Unit × W
  unfolding write_frame_to
  write_default_frame write_all stream frame =
      write_frame_to write_all stream frame default_max_frame_len
