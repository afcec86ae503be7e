-- ===== src/Terminal/Interim/Stream.antt =====
-- The interim parser on a stream of bytes, read in parts (crates/nmux-core/src/terminal.rs,
-- `InterimAnsiParser::consume`).
use nmux.Base.{
  ◌≡◌, ◌≢◌, refl, ap, ◌∙◌, sym, List, [], ◌∷◌, ◌++◌, ℕ, All, All-append, ℕ_discrete, ◌⊎◌, inl, inr,
  subst, append_assoc, arith, ℕ-DecEq,
}
use nmux.Terminal.{TerminalModes}
use nmux.Terminal.Interim.{InterimAnsiState, consume, consume_byte}

-- Two reads in a row give the state and the modes of one read of both, and the text of both reads
-- after one another: an escape sequence may be cut anywhere.
pub consume-append :
    (state : InterimAnsiState) (a b : List ℕ) (modes : TerminalModes)
    → consume state (a ++ b) modes ≡ (
        let (s, text, m) = consume state a modes in
        let (s', text', m') = consume s b m in (s', text ++ text', m'))
unfolding consume
consume-append state [] b modes = refl
consume-append state (x ∷ a) b modes =
    let (s, text, m) = consume_byte state x modes in
    let (s', text', m') = consume s a m in
    ap (λ (r : InterimAnsiState × List ℕ × TerminalModes). (r.0, text ++ r.1, r.2))
      (consume-append s a b m)
    ∙ ap (λ t. ((consume s' b m').0, t, (consume s' b m').2))
        (sym (append_assoc text text' (consume s' b m').1))

abbrev pub IsPlain : ℕ → Type 0
IsPlain b = (b ≢ 0x1b) × (b ≢ 0x9b)

-- A byte gives itself as text, if it is no escape byte, or nothing.
consume_byte-text :
    (state : InterimAnsiState) (b : ℕ) (modes : TerminalModes)
    → ((consume_byte state b modes).1 ≡ [])
      ⊎ (((consume_byte state b modes).1 ≡ b ∷ []) × IsPlain b)
unfolding consume_byte
consume_byte-text InterimAnsiState.ground b modes = elim (ℕ_discrete b 0x1b) [
  | yes e ↦ inl (ground arith)
  | no n ↦ elim (ℕ_discrete b 0x9b) [
    | yes e ↦ inl (ground arith)
    | no n' ↦ inr (ground arith, (n, n'))
  ]
]
consume_byte-text InterimAnsiState.escape b modes = inl (ground arith)
consume_byte-text (InterimAnsiState.csi buffer) b modes = inl (ground arith)
consume_byte-text (InterimAnsiState.osc pending) b modes = inl (ground arith)
consume_byte-text (InterimAnsiState.string_control pending) b modes = inl (ground arith)

consume_byte-IsPlain :
    (state : InterimAnsiState) (b : ℕ) (modes : TerminalModes)
    → All IsPlain (consume_byte state b modes).1
consume_byte-IsPlain state b modes = elim (consume_byte-text state b modes) [
  | inl e ↦ subst (All IsPlain) (sym e) tt
  | inr (e, p) ↦ subst (All IsPlain) (sym e) (p, tt)
]

-- No escape byte gets into the text, whatever the bytes and the state.
pub consume-IsPlain :
    (state : InterimAnsiState) (bytes : List ℕ) (modes : TerminalModes)
    → All IsPlain (consume state bytes modes).1
unfolding consume
consume-IsPlain state [] modes = tt
consume-IsPlain state (b ∷ bytes) modes =
    let (s, text, m) = consume_byte state b modes in
    All-append IsPlain text (consume s bytes m).1 (consume_byte-IsPlain state b modes)
      (consume-IsPlain s bytes m)

-- Bytes without an escape byte pass through the ground state unchanged, and set no mode.
pub consume_plain :
    (bytes : List ℕ) (modes : TerminalModes)
    → All IsPlain bytes
    → consume InterimAnsiState.ground bytes modes ≡ (InterimAnsiState.ground, bytes, modes)
unfolding consume consume_byte
consume_plain [] modes h = refl
consume_plain (b ∷ bytes) modes h = ground (arith, consume_plain bytes modes h.1, h.0.0, h.0.1)
