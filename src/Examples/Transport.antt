-- ===== src/Examples/Transport.antt =====
-- Framing, the state file and the planning host, on short byte strings.
use nmux.Base.{
  is_some, false, ℕ, ◌≡◌, refl, ◌++◌, get_elem?, codes, Option, some, List, [], ◌∷◌, arith,
  ℕ_discrete,
}
use nmux.Host.{host_local, command_new}
use nmux.Host.Planning.{planning_new, running_process}
use nmux.Host.Planning.Log.{Request, serve_all, runs_by, running_process-serve_all}
use nmux.Wire.{ok, payload_len_of, prefix_of, write_frame, read_frame, from_le_bytes}
use nmux.Wire.RoundTrip.{
  IsSized, read_frame-write_frame, write_frames, read_frames, read_frames-write_frames,
}
use nmux.Client.StateFile.{
  state_hex_field, decode_state_hex_field, encode_palette_rgba, decode_palette_rgba,
}
use nmux.Client.StateFile.RoundTrip.{
  decode_state_hex_field-state_hex_field, decode_palette_rgba-encode_palette_rgba,
}

-- An envelope whose first byte is its version.
abbrev version_byte : List ℕ → Option ℕ
version_byte frame = get_elem? frame 4

abbrev short_frame : List ℕ
short_frame = 1 ∷ 0 ∷ 0 ∷ 0 ∷ 1 ∷ []

abbrev long_frame : List ℕ
long_frame = 2 ∷ 0 ∷ 0 ∷ 0 ∷ 1 ∷ 9 ∷ []

short_frame-IsSized : IsSized short_frame
unfolding payload_len_of prefix_of from_le_bytes
short_frame-IsSized = (omega arith, ground arith)

long_frame-IsSized : IsSized long_frame
unfolding payload_len_of prefix_of from_le_bytes
long_frame-IsSized = (omega arith, ground arith)

short_frame-written : write_frame version_byte [] short_frame 16 ≡ (ok tt, short_frame)
unfolding write_frame ℕ_discrete
short_frame-written = refl

read_frame-write_frame_example :
    (short_frame ≡ [] ++ short_frame)
    × (read_frame version_byte (short_frame ++ long_frame) 16 ≡ (ok short_frame, long_frame))
read_frame-write_frame_example =
    read_frame-write_frame version_byte 16 [] short_frame short_frame long_frame short_frame-IsSized
      short_frame-written

both_written :
    write_frames version_byte 16 [] (short_frame ∷ long_frame ∷ [])
    ≡ some (short_frame ++ long_frame)
unfolding write_frames write_frame ℕ_discrete
both_written = refl

read_frames-write_frames_example :
    read_frames version_byte 16 2 (short_frame ++ long_frame)
    ≡ some (short_frame ∷ long_frame ∷ [], [])
read_frames-write_frames_example =
    read_frames-write_frames version_byte 16 (short_frame ++ long_frame)
      (short_frame ∷ long_frame ∷ []) (short_frame-IsSized, (long_frame-IsSized, tt)) both_written

decode_state_hex_field-state_hex_field_example :
    decode_state_hex_field (state_hex_field (codes "sh")) ≡ some (codes "sh")
decode_state_hex_field-state_hex_field_example =
    decode_state_hex_field-state_hex_field (codes "sh") (omega arith, (omega arith, tt))

abbrev palette : List ℕ
palette = 0xff8000ff ∷ 7 ∷ []

decode_palette_rgba-encode_palette_rgba_example :
    decode_palette_rgba (encode_palette_rgba palette) ≡ some palette
decode_palette_rgba-encode_palette_rgba_example =
    decode_palette_rgba-encode_palette_rgba palette (omega arith, (omega arith, tt))

abbrev requests : List Request
requests =
    Request.start (codes "p") (host_local (codes "h") (command_new (codes "sh")))
    ∷ Request.stop (codes "p")
    ∷ Request.write (codes "p") (codes "x")
    ∷ []

running_process-serve_all_example :
    is_some (running_process (serve_all planning_new requests) (codes "p"))
    ≡ runs_by (codes "p") false (serve_all planning_new requests).events
running_process-serve_all_example = running_process-serve_all requests (codes "p")
