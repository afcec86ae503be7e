-- ===== src/Terminal/Keys/Complete.antt =====
-- Mouse reports, as the interim parser reads them (crates/nmux-core/src/terminal.rs,
-- `encode_sgr_mouse_input`).
use nmux.Base.{
  ◌≡◌, refl, ap, ◌∙◌, subst, ◌/◌, ◌<◌, ◌≤◌, ◌==◌, ◌||◌, ltb, leb, false, Text, some, List, [], ◌∷◌,
  ◌++◌, All, All-append, append_assoc, append_nil, arith, ℕ, zero, suc, ℕ-DecEq, List-DecEq,
  Bool-cases, inl, inr, ◌⊎◌, Option-cases,
}
use nmux.Terminal.{TerminalModes}
use nmux.Terminal.Interim.{InterimAnsiState, consume, consume_byte, apply_interim_csi}
use nmux.Terminal.Mouse.{MouseTerminalInput, MouseAction}
use nmux.Terminal.Keys.{
  digits, decimal, sgr_report, encode_sgr_mouse_input, mouse_code, mouse_position, final_byte,
  is_sgr,
}

-- A parameter byte: a digit or a separator, or the mark of a private sequence.
abbrev IsParam : ℕ → Type 0
IsParam b = (0x20 ≤ b) × (b < 0x40)

digits-IsParam : (fuel n : ℕ) → All IsParam (digits fuel n)
unfolding digits
digits-IsParam zero n = tt
digits-IsParam (suc fuel) n = elim (Bool-cases (ltb n 10)) [
  | inl e ↦ rw e ((ground arith, ground arith), tt)
  | inr e ↦ rw e (
      All-append IsParam (digits fuel (n / 10)) _ (digits-IsParam fuel (n / 10))
        ((omega arith, omega arith), tt))
]

consume_byte-param :
    (buffer : Text) (p : ℕ) (modes : TerminalModes)
    → IsParam p
    → consume_byte (InterimAnsiState.csi buffer) p modes
      ≡ (InterimAnsiState.csi (buffer ++ p ∷ []), [], modes)
unfolding consume_byte
consume_byte-param buffer p modes h = ground (arith, h.0, h.1)

consume-step :
    (s s' : InterimAnsiState) (b : ℕ) (bytes : Text) (modes : TerminalModes)
    → consume_byte s b modes ≡ (s', [], modes)
    → consume s (b ∷ bytes) modes ≡ consume s' bytes modes
unfolding consume
consume-step s s' b bytes modes e =
    ap
      (λ (r : InterimAnsiState × List ℕ × TerminalModes).
        ((consume r.0 bytes r.2).0, r.1 ++ (consume r.0 bytes r.2).1, (consume r.0 bytes r.2).2))
      e

consume_csi :
    (params buffer : Text) (final : ℕ) (modes : TerminalModes)
    → All IsParam params
    → 0x40 ≤ final
    → final ≤ 0x7e
    → consume (InterimAnsiState.csi buffer) (params ++ final ∷ []) modes
      ≡ (InterimAnsiState.ground, [], apply_interim_csi modes (buffer ++ params) final)
unfolding consume consume_byte
consume_csi [] buffer final modes h lo hi = ground (arith, append_nil buffer)
consume_csi (p ∷ params) buffer final modes h lo hi =
    consume-step (InterimAnsiState.csi buffer) (InterimAnsiState.csi (buffer ++ p ∷ [])) p
      (params ++ final ∷ []) modes (consume_byte-param buffer p modes h.0)
    ∙ consume_csi params (buffer ++ p ∷ []) final modes h.1 lo hi
    ∙ ap (λ b. (InterimAnsiState.ground, [], apply_interim_csi modes b final))
        (append_assoc buffer (p ∷ []) params)

apply_interim_csi_other :
    (modes : TerminalModes) (params : Text) (final : ℕ)
    → (final == 104 || final == 108) ≡ false
    → apply_interim_csi modes params final ≡ modes
unfolding apply_interim_csi
apply_interim_csi_other modes params final h = ground arith

-- From the ground state, `ESC [`, parameter bytes and a final byte that is neither `h` nor `l`.
consume_sequence :
    (params : Text) (final : ℕ) (modes : TerminalModes)
    → All IsParam params
    → 0x40 ≤ final
    → final ≤ 0x7e
    → (final == 104 || final == 108) ≡ false
    → consume InterimAnsiState.ground (0x1b ∷ 91 ∷ params ++ final ∷ []) modes
      ≡ (InterimAnsiState.ground, [], modes)
unfolding consume_byte
consume_sequence params final modes h lo hi other =
    consume-step InterimAnsiState.ground InterimAnsiState.escape 0x1b _ modes (ground arith)
    ∙ consume-step InterimAnsiState.escape (InterimAnsiState.csi []) 91 _ modes (ground arith)
    ∙ consume_csi params [] final modes h lo hi
    ∙ ap (λ m. (InterimAnsiState.ground, [], m)) (apply_interim_csi_other modes params final other)

unfoldable sgr_params : ℕ → ℕ → ℕ → Text
sgr_params code x y = 60 ∷ decimal code ++ 59 ∷ decimal x ++ 59 ∷ decimal y

decimal-IsParam : (n : ℕ) → All IsParam (decimal n)
unfolding decimal
decimal-IsParam n = digits-IsParam 10 n

abbrev IsSgrFinal : ℕ → Type 0
IsSgrFinal final = (final ≡ 77) ⊎ (final ≡ 109)

final_byte-IsSgrFinal : (action : MouseAction) → IsSgrFinal (final_byte action)
unfolding final_byte
final_byte-IsSgrFinal MouseAction.press = inl refl
final_byte-IsSgrFinal MouseAction.release = inr refl
final_byte-IsSgrFinal MouseAction.motion = inl refl

sgr_params-IsParam : (code x y : ℕ) → All IsParam (sgr_params code x y)
unfolding sgr_params
sgr_params-IsParam code x y =
    All-append IsParam (60 ∷ decimal code ++ 59 ∷ decimal x) (59 ∷ decimal y)
      (All-append IsParam (60 ∷ decimal code) (59 ∷ decimal x)
        ((omega arith, omega arith), decimal-IsParam code)
        ((omega arith, omega arith), decimal-IsParam x))
      ((omega arith, omega arith), decimal-IsParam y)

consume-sgr_report :
    (code x y final : ℕ) (modes : TerminalModes)
    → IsSgrFinal final
    → consume InterimAnsiState.ground (sgr_report code x y final) modes
      ≡ (InterimAnsiState.ground, [], modes)
unfolding sgr_report sgr_params
consume-sgr_report code x y final modes f =
    consume_sequence (sgr_params code x y) final modes (sgr_params-IsParam code x y)
      (ground (arith, f)) (ground (arith, f)) (ground (arith, f))

-- A mouse report is one complete escape sequence: the bytes that `encode_sgr_mouse_input` gives,
-- read from the ground state, leave the parser in it with no text and the modes as they were.
pub consume-encode_sgr_mouse_input :
    (input : MouseTerminalInput) (bytes : Text) (modes : TerminalModes)
    → encode_sgr_mouse_input input ≡ some bytes
    → consume InterimAnsiState.ground bytes modes ≡ (InterimAnsiState.ground, [], modes)
unfolding encode_sgr_mouse_input
consume-encode_sgr_mouse_input input bytes modes e = elim (Bool-cases (is_sgr input.mouse_format)) [
  | inr other ↦ absurd (ground (arith, e, other))
  | inl sgr ↦ elim (Bool-cases (leb input.rows input.row || leb input.cols input.col)) [
    | inl out ↦ absurd (ground (arith, e, sgr, out))
    | inr within ↦ elim (Option-cases (mouse_position input)) [
      | inl p ↦ absurd (ground (arith, e, sgr, within, p))
      | inr (p, q) ↦
          subst
            (λ t. consume InterimAnsiState.ground t modes ≡ (InterimAnsiState.ground, [], modes))
            (ground (arith, e, sgr, within, q))
            (consume-sgr_report (mouse_code input) p.0 p.1 (final_byte input.action) modes
              (final_byte-IsSgrFinal input.action))
    ]
  ]
]
