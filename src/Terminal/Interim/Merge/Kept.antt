-- ===== src/Terminal/Interim/Merge/Kept.antt =====
-- The lines before and after a merge of output (crates/nmux-core/src/terminal.rs,
-- `merge_interim_pty_output`).
use nmux.Base.{
  ◌≡◌, refl, ap, ◌∙◌, ◌+◌, ◌<◌, ◌≤◌, ◌==◌, ◌!=◌, ◌&&◌, Bool, true, false, Text, List, [], ◌∷◌, ◌++◌,
  if◌then◌else◌, length, length-append, get_elem?, All, All-append, arith, ℕ, zero, suc, ℕ-DecEq,
  Bool-cases, inl, inr,
}
use nmux.Terminal.Interim.Merge.{
  MergeState, is_control, push_last, merge_newline, merge_text, merge_char, merge_chars,
  merge_start, merge_end, merge_interim_pty_output, replace_crlf, replace_cr,
}

get_elem?-append :
    (xs ys : List Text) (i : ℕ) → i < length xs → get_elem? (xs ++ ys) i ≡ get_elem? xs i
get_elem?-append [] ys i h = absurd (omega arith)
get_elem?-append (x ∷ xs) ys zero h = refl
get_elem?-append (x ∷ xs) ys (suc i) h = get_elem?-append xs ys i (omega arith)

get_elem?-push_last :
    (xs : List Text) (ch i : ℕ) → i + 1 < length xs → get_elem? (push_last xs ch) i ≡ get_elem? xs i
unfolding push_last
get_elem?-push_last [] ch i h = refl
get_elem?-push_last (x ∷ []) ch i h = absurd (omega arith)
get_elem?-push_last (x ∷ y ∷ xs) ch zero h = refl
get_elem?-push_last (x ∷ y ∷ xs) ch (suc i) h = get_elem?-push_last (y ∷ xs) ch i (omega arith)

length-push_last : (xs : List Text) (ch : ℕ) → length (push_last xs ch) ≡ length xs
unfolding push_last
length-push_last [] ch = refl
length-push_last (x ∷ []) ch = refl
length-push_last (x ∷ y ∷ xs) ch = ap suc (length-push_last (y ∷ xs) ch)

length-merge_char : (m : MergeState) (ch : ℕ) → length m.lines ≤ length (merge_char m ch).lines
unfolding merge_char merge_newline merge_text
length-merge_char m ch =
    ground (arith, length-push_last m.lines ch, length-append m.lines (m.current ∷ []))

get_elem?-merge_char :
    (m : MergeState) (ch i : ℕ)
    → i + 1 < length m.lines
    → get_elem? (merge_char m ch).lines i ≡ get_elem? m.lines i
unfolding merge_char merge_newline merge_text
get_elem?-merge_char m ch i h =
    ground (arith, get_elem?-push_last m.lines ch i h, get_elem?-append m.lines (m.current ∷ []) i)

get_elem?-merge_chars :
    (m : MergeState) (text : Text) (i : ℕ)
    → i + 1 < length m.lines
    → get_elem? (merge_chars m text).lines i ≡ get_elem? m.lines i
unfolding merge_chars
get_elem?-merge_chars m [] i h = refl
get_elem?-merge_chars m (ch ∷ text) i h =
    get_elem?-merge_chars (merge_char m ch) text i (omega (arith, length-merge_char m ch))
    ∙ get_elem?-merge_char m ch i h

length-merge_chars :
    (m : MergeState) (text : Text) → length m.lines ≤ length (merge_chars m text).lines
unfolding merge_chars
length-merge_chars m [] = omega arith
length-merge_chars m (ch ∷ text) =
    omega (arith, length-merge_char m ch, length-merge_chars (merge_char m ch) text)

get_elem?-merge_end :
    (m : MergeState) (i : ℕ)
    → i < length m.lines
    → get_elem? (merge_end m).0 i ≡ get_elem? m.lines i
unfolding merge_end
get_elem?-merge_end m i h = ground (arith, get_elem?-append m.lines (m.current ∷ []) i h)

-- Merging output changes no line before the last one, whatever the output and the cursor.
pub get_elem?-merge_interim_pty_output :
    (previous_lines : List Text) (append_to_previous_line : Bool) (text : Text) (i : ℕ)
    → i + 1 < length previous_lines
    → get_elem? (merge_interim_pty_output previous_lines append_to_previous_line text).0 i
      ≡ get_elem? previous_lines i
unfolding merge_interim_pty_output merge_start
get_elem?-merge_interim_pty_output previous_lines append text i h =
    let m = merge_start previous_lines append in
    let text' = replace_cr (replace_crlf text) in
    get_elem?-merge_end (merge_chars m text') i (omega (arith, length-merge_chars m text'))
    ∙ get_elem?-merge_chars m text' i h

-- The characters that a line may hold: a tab, or no control character.
abbrev pub IsShown : ℕ → Type 0
IsShown ch = (ch != 9 && is_control ch) ≡ false

abbrev pub AllShown : List Text → Type 0
AllShown lines = All (All IsShown) lines

push_last-AllShown :
    (lines : List Text) (ch : ℕ) → AllShown lines → IsShown ch → AllShown (push_last lines ch)
unfolding push_last
push_last-AllShown [] ch h c = tt
push_last-AllShown (x ∷ []) ch h c = (All-append IsShown x (ch ∷ []) h.0 (c, tt), tt)
push_last-AllShown (x ∷ y ∷ lines) ch h c = (h.0, push_last-AllShown (y ∷ lines) ch h.1 c)

if-AllShown :
    (b : Bool) (xs ys : List Text) → AllShown xs → AllShown ys → AllShown (if b then xs else ys)
if-AllShown true xs ys hx hy = hx
if-AllShown false xs ys hx hy = hy

snoc-AllShown :
    (m : MergeState)
    → AllShown m.lines × All IsShown m.current
    → AllShown (m.lines ++ m.current ∷ [])
snoc-AllShown m h = All-append (All IsShown) m.lines (m.current ∷ []) h.0 (h.1, tt)

merge_text-AllShown :
    (m : MergeState) (ch : ℕ)
    → AllShown m.lines × All IsShown m.current
    → IsShown ch
    → AllShown (merge_text m ch).lines × All IsShown (merge_text m ch).current
unfolding merge_text
merge_text-AllShown m ch h c = elim (Bool-cases m.appending) [
  | inl e ↦ rw e (push_last-AllShown m.lines ch h.0 c, h.1)
  | inr e ↦ rw e (h.0, All-append IsShown m.current (ch ∷ []) h.1 (c, tt))
]

merge_char-AllShown :
    (m : MergeState) (ch : ℕ)
    → AllShown m.lines × All IsShown m.current
    → AllShown (merge_char m ch).lines × All IsShown (merge_char m ch).current
unfolding merge_char merge_newline
merge_char-AllShown m ch h = elim (Bool-cases (ch == 10)) [
  | inl e ↦ rw e (if-AllShown m.appending _ _ h.0 (snoc-AllShown m h), tt)
  | inr e ↦ elim (Bool-cases (ch != 9 && is_control ch)) [
    | inl c ↦ rw (e, c) h
    | inr c ↦ rw (e, c) (merge_text-AllShown m ch h c)
  ]
]

merge_chars-AllShown :
    (m : MergeState) (text : Text)
    → AllShown m.lines × All IsShown m.current
    → AllShown (merge_chars m text).lines × All IsShown (merge_chars m text).current
unfolding merge_chars
merge_chars-AllShown m [] h = h
merge_chars-AllShown m (ch ∷ text) h =
    merge_chars-AllShown (merge_char m ch) text (merge_char-AllShown m ch h)

merge_end-AllShown :
    (m : MergeState) → AllShown m.lines × All IsShown m.current → AllShown (merge_end m).0
unfolding merge_end
merge_end-AllShown m h = if-AllShown _ _ m.lines (snoc-AllShown m h) h.0

-- Merged lines hold no control character but the tab, if the previous ones hold none.
pub merge_interim_pty_output-AllShown :
    (previous_lines : List Text) (append_to_previous_line : Bool) (text : Text)
    → AllShown previous_lines
    → AllShown (merge_interim_pty_output previous_lines append_to_previous_line text).0
unfolding merge_interim_pty_output merge_start
merge_interim_pty_output-AllShown previous_lines append text h =
    let m = merge_start previous_lines append in
    let text' = replace_cr (replace_crlf text) in
    merge_end-AllShown (merge_chars m text') (merge_chars-AllShown m text' (h, tt))
