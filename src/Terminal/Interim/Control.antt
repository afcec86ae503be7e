-- ===== src/Terminal/Interim/Control.antt =====
-- Control strings in the output of a program, titles for example, as the interim parser reads them
-- (crates/nmux-core/src/terminal.rs, `InterimAnsiParser::consume`).
use nmux.Base.{
  ◌≡◌, ◌≢◌, refl, ap, sym, ◌∙◌, List, [], ◌∷◌, ◌++◌, ℕ, All, arith, ℕ-DecEq, ℕ_discrete, false,
}
use nmux.Terminal.{TerminalModes}
use nmux.Terminal.Interim.{InterimAnsiState, consume, consume_byte}
use nmux.Terminal.Interim.Stream.{IsPlain, consume-append, consume_plain}

-- The kinds of control strings by their introducers, and for an operating system command, OSC, the
-- terminator: BEL or ST.
pub data Control : Type 0 where
  osc_bel osc_st dcs sos pm apc : Control

abbrev pub introducer : Control → ℕ
introducer osc_bel = 93
introducer osc_st = 93
introducer dcs = 80
introducer sos = 88
introducer pm = 94
introducer apc = 95

abbrev pub terminator : Control → List ℕ
terminator osc_bel = 0x07 ∷ []
terminator _ = 0x1b ∷ 92 ∷ []

abbrev pub control_string : Control → List ℕ → List ℕ
control_string k payload = 0x1b ∷ introducer k ∷ (payload ++ terminator k)

-- What may stand in a control string: no escape byte, and in an OSC no BEL either.
abbrev pub IsPayload : Control → ℕ → Type 0
IsPayload osc_bel b = (b ≢ 0x1b) × (b ≢ 0x07)
IsPayload osc_st b = (b ≢ 0x1b) × (b ≢ 0x07)
IsPayload _ b = b ≢ 0x1b

-- A parser that is given the output in several reads.
abbrev pub consume_reads :
    InterimAnsiState → List (List ℕ) → TerminalModes → InterimAnsiState × List ℕ × TerminalModes
consume_reads state [] modes = (state, [], modes)
consume_reads state (read ∷ reads) modes =
    let (s, text, m) = consume state read modes in
    let (s', text', m') = consume_reads s reads m in (s', text ++ text', m')

abbrev pub concat {ℓ} : {A : Type ℓ} → List (List A) → List A
concat [] = []
concat (xs ∷ xss) = xs ++ concat xss

consume_reads-concat :
    (state : InterimAnsiState) (reads : List (List ℕ)) (modes : TerminalModes)
    → consume_reads state reads modes ≡ consume state (concat reads) modes
unfolding consume
consume_reads-concat state [] modes = refl
consume_reads-concat state (read ∷ reads) modes =
    let (s, text, m) = consume state read modes in
    ap (λ (r : InterimAnsiState × List ℕ × TerminalModes). (r.0, text ++ r.1, r.2))
      (consume_reads-concat s reads m)
    ∙ sym (consume-append state read (concat reads) modes)

-- The state in which the payload is read.
abbrev inside : Control → InterimAnsiState
inside osc_bel = InterimAnsiState.osc false
inside osc_st = InterimAnsiState.osc false
inside _ = InterimAnsiState.string_control false

consume-payload :
    (k : Control) (payload : List ℕ) (modes : TerminalModes)
    → All (IsPayload k) payload
    → consume (inside k) payload modes ≡ (inside k, [], modes)
unfolding consume consume_byte ℕ_discrete
consume-payload k [] modes h = refl
consume-payload osc_bel (b ∷ bs) modes h =
    ground (arith, consume-payload osc_bel bs modes h.1, h.0.0, h.0.1)
consume-payload osc_st (b ∷ bs) modes h =
    ground (arith, consume-payload osc_st bs modes h.1, h.0.0, h.0.1)
consume-payload dcs (b ∷ bs) modes h = ground (arith, consume-payload dcs bs modes h.1, h.0)
consume-payload sos (b ∷ bs) modes h = ground (arith, consume-payload sos bs modes h.1, h.0)
consume-payload pm (b ∷ bs) modes h = ground (arith, consume-payload pm bs modes h.1, h.0)
consume-payload apc (b ∷ bs) modes h = ground (arith, consume-payload apc bs modes h.1, h.0)

introduced :
    (k : Control) (bytes : List ℕ) (modes : TerminalModes)
    → consume InterimAnsiState.ground (0x1b ∷ introducer k ∷ bytes) modes
      ≡ consume (inside k) bytes modes
unfolding consume consume_byte ℕ_discrete
introduced osc_bel bytes modes = refl
introduced osc_st bytes modes = refl
introduced dcs bytes modes = refl
introduced sos bytes modes = refl
introduced pm bytes modes = refl
introduced apc bytes modes = refl

terminated :
    (k : Control) (modes : TerminalModes)
    → consume (inside k) (terminator k) modes ≡ (InterimAnsiState.ground, [], modes)
unfolding consume consume_byte ℕ_discrete
terminated osc_bel modes = refl
terminated osc_st modes = refl
terminated dcs modes = refl
terminated sos modes = refl
terminated pm modes = refl
terminated apc modes = refl

-- What is read before the second part, when the first one is known.
consume_known :
    (state next : InterimAnsiState) (a b text : List ℕ) (modes m : TerminalModes)
    → consume state a modes ≡ (next, text, m)
    → consume state (a ++ b) modes
      ≡ (let (s', text', m') = consume next b m in (s', text ++ text', m'))
consume_known state next a b text modes m e =
    consume-append state a b modes
    ∙ ap
        (λ (r : InterimAnsiState × List ℕ × TerminalModes).
          let (s', text', m') = consume r.0 b r.2 in (s', r.1 ++ text', m'))
        e

consume-control_string :
    (k : Control) (payload : List ℕ) (modes : TerminalModes)
    → All (IsPayload k) payload
    → consume InterimAnsiState.ground (control_string k payload) modes
      ≡ (InterimAnsiState.ground, [], modes)
consume-control_string k payload modes h =
    introduced k (payload ++ terminator k) modes
    ∙ consume_known (inside k) (inside k) payload (terminator k) [] modes modes
        (consume-payload k payload modes h)
    ∙ terminated k modes

-- A complete control string between bytes without an escape byte leaves no text and sets no mode:
-- the bytes around it pass unchanged and the parser is in its ground state again, however the
-- output is cut into reads. The string has no escape byte but those of its ends, and if it is an
-- OSC no BEL but its end.
pub consume_reads-control_string :
    (reads : List (List ℕ)) (before payload after : List ℕ) (k : Control) (modes : TerminalModes)
    → concat reads ≡ before ++ (control_string k payload ++ after)
    → All IsPlain before
    → All (IsPayload k) payload
    → All IsPlain after
    → consume_reads InterimAnsiState.ground reads modes
      ≡ (InterimAnsiState.ground, before ++ after, modes)
consume_reads-control_string reads before payload after k modes e hb hp ha =
    let g = InterimAnsiState.ground in
    consume_reads-concat g reads modes
    ∙ ap (λ bytes. consume g bytes modes) e
    ∙ consume_known g g before (control_string k payload ++ after) before modes modes
        (consume_plain before modes hb)
    ∙ ap (λ (r : InterimAnsiState × List ℕ × TerminalModes). (r.0, before ++ r.1, r.2))
        (consume_known g g (control_string k payload) after [] modes modes
            (consume-control_string k payload modes hp)
          ∙ consume_plain after modes ha)
