-- ===== src/Examples/Input.antt =====
-- The interim parser and the input encoders, on short sequences.
use nmux.Base.{
  ℕ, ℕ_discrete, ◌≡◌, refl, codes, Text, true, none, some, List, [], ◌∷◌, ◌++◌, All, get_elem?,
  arith,
}
use nmux.Protocol.{MouseFormat}
use nmux.Terminal.{default_modes}
use nmux.Terminal.Interim.{InterimAnsiState, consume}
use nmux.Terminal.Interim.Stream.{IsPlain, consume-IsPlain, consume_plain}
use nmux.Terminal.Interim.Control.{osc_bel, IsPayload, consume_reads, consume_reads-control_string}
use nmux.Terminal.Interim.Merge.{merge_interim_pty_output, is_control}
use nmux.Terminal.Interim.Merge.Kept.{
  AllShown, get_elem?-merge_interim_pty_output, merge_interim_pty_output-AllShown,
}
use nmux.Terminal.Mouse.{MouseAction, MouseButton, MouseTerminalInput}
use nmux.Terminal.Keys.{encode_sgr_mouse_input}
use nmux.Terminal.Keys.Complete.{consume-encode_sgr_mouse_input}

-- A title between two letters, cut inside its payload.
abbrev title_reads : List (List ℕ)
title_reads = (b'a' ∷ 0x1b ∷ codes "]0;vi") ∷ (codes "m" ++ 7 ∷ b'b' ∷ []) ∷ []

title-IsPayload : All (IsPayload osc_bel) (codes "0;vim")
title-IsPayload = ground arith

consume_reads-control_string_example :
    consume_reads InterimAnsiState.ground title_reads default_modes
    ≡ (InterimAnsiState.ground, codes "ab", default_modes)
consume_reads-control_string_example =
    consume_reads-control_string title_reads (codes "a") (codes "0;vim") (codes "b") osc_bel
      default_modes refl ((ground arith, ground arith), tt) title-IsPayload
      ((ground arith, ground arith), tt)

consume-IsPlain_example :
    All IsPlain (consume InterimAnsiState.escape (codes "[31mred") default_modes).1
consume-IsPlain_example = consume-IsPlain InterimAnsiState.escape (codes "[31mred") default_modes

ok-IsPlain : All IsPlain (codes "ok")
ok-IsPlain = ((ground arith, ground arith), ((ground arith, ground arith), tt))

consume_plain_example :
    consume InterimAnsiState.ground (codes "ok") default_modes
    ≡ (InterimAnsiState.ground, codes "ok", default_modes)
consume_plain_example = consume_plain (codes "ok") default_modes ok-IsPlain

abbrev screen : List Text
screen = codes "a" ∷ codes "b" ∷ []

get_elem?-merge_interim_pty_output_example :
    get_elem? (merge_interim_pty_output screen true (codes "c\nd")).0 0 ≡ get_elem? screen 0
get_elem?-merge_interim_pty_output_example =
    get_elem?-merge_interim_pty_output screen true (codes "c\nd") 0 (omega arith)

screen-AllShown : AllShown screen
unfolding is_control
screen-AllShown = ((ground arith, tt), ((ground arith, tt), tt))

merge_interim_pty_output-AllShown_example :
    AllShown (merge_interim_pty_output screen true (7 ∷ codes "c\r\nd")).0
merge_interim_pty_output-AllShown_example =
    merge_interim_pty_output-AllShown screen true (7 ∷ codes "c\r\nd") screen-AllShown

abbrev click : MouseTerminalInput
click = record {
  row = 4;
  col = 9;
  pixel_x = none;
  pixel_y = none;
  button = MouseButton.right;
  action = MouseAction.release;
  modifiers = 2;
  mouse_format = MouseFormat.sgr;
  cols = 80;
  rows = 24;
}

click-encodes : encode_sgr_mouse_input click ≡ some (0x1b ∷ codes "[<18;10;5m")
unfolding encode_sgr_mouse_input ℕ_discrete
click-encodes = refl

consume-encode_sgr_mouse_input_example :
    consume InterimAnsiState.ground (0x1b ∷ codes "[<18;10;5m") default_modes
    ≡ (InterimAnsiState.ground, [], default_modes)
consume-encode_sgr_mouse_input_example =
    consume-encode_sgr_mouse_input click (0x1b ∷ codes "[<18;10;5m") default_modes click-encodes
