-- ===== src/Wire/RoundTrip.antt =====
-- Frames written to a stream and read from it (crates/nmux-proto/src/wire.rs).
use nmux.Base.{
  ◌≡◌, refl, ap, sym, ◌∙◌, ◌≤◌, ◌+◌, ltb, false, Bool-cases, inl, inr, ◌⊎◌, Option, Option-cases,
  none, some, List, [], ◌∷◌, ◌++◌, length, length-append, take, drop, append_assoc, append_nil,
  map_option, All, arith, ℕ, zero, suc,
}
use nmux.Wire.{
  WireError, WireResult, ok, err, from_le_bytes, prefix_of, payload_len_of, read_exact,
  validate_protocol_version, checked, read_payload, read_after, read_frame, write_frame,
}

take-append : (xs ys : List ℕ) → take (length xs) (xs ++ ys) ≡ xs
take-append [] ys = refl
take-append (x ∷ xs) ys = ap (◌∷◌ x) (take-append xs ys)

drop-append : (xs ys : List ℕ) → drop (length xs) (xs ++ ys) ≡ ys
drop-append [] ys = refl
drop-append (x ∷ xs) ys = drop-append xs ys

read_exact-append :
    (n : ℕ) (xs ys : List ℕ) → n ≡ length xs → read_exact n (xs ++ ys) ≡ (some xs, ys)
unfolding read_exact
read_exact-append n xs ys e =
    ground (arith, e, length-append xs ys, take-append xs ys, drop-append xs ys)

payload_len_of-prefix :
    (a b c d : ℕ) (payload : List ℕ)
    → payload_len_of (a ∷ b ∷ c ∷ d ∷ payload) ≡ from_le_bytes (a ∷ b ∷ c ∷ d ∷ [])
unfolding payload_len_of prefix_of
payload_len_of-prefix a b c d payload = ground arith

-- A frame as long as its prefix says, as FlatBuffers builders finish it.
abbrev pub IsSized : List ℕ → Type 0
IsSized frame = (4 ≤ length frame) × (length frame ≡ 4 + payload_len_of frame)

WireResult-cases : (r : WireResult Unit) → ((why : WireError) × (r ≡ err why)) ⊎ (r ≡ ok tt)
WireResult-cases (err why) = inl (why, refl)
WireResult-cases (ok _) = inr refl

module _ (envelope_version : List ℕ → Option ℕ) (max_len : ℕ) where
  written :
      (writer frame out : List ℕ)
      → write_frame envelope_version writer frame max_len ≡ (ok tt, out)
      → (ltb max_len (payload_len_of frame) ≡ false)
        × (validate_protocol_version envelope_version frame ≡ none)
        × (out ≡ writer ++ frame)
  unfolding write_frame
  written writer frame out e = elim (Bool-cases (ltb max_len (payload_len_of frame))) [
    | inl big ↦ absurd (ground (arith, e, big))
    | inr fits ↦ elim (Option-cases (validate_protocol_version envelope_version frame)) [
      | inr (why, v) ↦ absurd (ground (arith, e, fits, v))
      | inl v ↦ (fits, v, ground (arith, e, fits, v))
    ]
  ]

  read_payload-append :
      (prefix payload rest : List ℕ)
      → from_le_bytes prefix ≡ length payload
      → ltb max_len (from_le_bytes prefix) ≡ false
      → validate_protocol_version envelope_version (prefix ++ payload) ≡ none
      → read_payload envelope_version prefix max_len (payload ++ rest)
        ≡ (ok (prefix ++ payload), rest)
  unfolding read_payload checked
  read_payload-append prefix payload rest n fits v =
      ground (arith, read_exact-append (from_le_bytes prefix) payload rest n, fits, v)

  read_frame-append :
      (frame rest : List ℕ)
      → IsSized frame
      → ltb max_len (payload_len_of frame) ≡ false
      → validate_protocol_version envelope_version frame ≡ none
      → read_frame envelope_version (frame ++ rest) max_len ≡ (ok frame, rest)
  unfolding read_frame read_after
  read_frame-append (a ∷ b ∷ c ∷ d ∷ payload) rest s fits v =
      let prefix = a ∷ b ∷ c ∷ d ∷ [] in
      let n = payload_len_of-prefix a b c d payload in
      ap (read_after envelope_version max_len) (read_exact-append 4 prefix (payload ++ rest) refl)
      ∙ (read_payload-append prefix payload rest (omega (arith, n, s.1)) (rw (sym n) fits) v)
  read_frame-append _ rest s fits v = absurd (omega (arith, s.0))

  -- A frame that was written, with the length that its prefix says, is read back whole, and the
  -- reader stands behind it, whatever follows.
  pub read_frame-write_frame :
      (writer frame out rest : List ℕ)
      → IsSized frame
      → write_frame envelope_version writer frame max_len ≡ (ok tt, out)
      → (out ≡ writer ++ frame)
        × (read_frame envelope_version (frame ++ rest) max_len ≡ (ok frame, rest))
  read_frame-write_frame writer frame out rest s e =
      let (fits, v, w) = written writer frame out e in (w, read_frame-append frame rest s fits v)

  -- Frames written one after another; `none` if one of them is refused.
  unfoldable pub write_frames : List ℕ → List (List ℕ) → Option (List ℕ)
  write_frames writer [] = some writer
  write_frames writer (frame ∷ frames) =
      let (answer, writer') = write_frame envelope_version writer frame max_len in
      elim answer [ err e ↦ none | ok _ ↦ write_frames writer' frames ]

  -- So many frames read one after another; `none` if one of them is refused.
  unfoldable pub read_frames : ℕ → List ℕ → Option (List (List ℕ) × List ℕ)
  read_frames zero reader = some ([], reader)
  read_frames (suc n) reader =
      let (answer, left) = read_frame envelope_version reader max_len in
      elim answer [
        | err e ↦ none
        | ok frame ↦ map_option (λ x. (frame ∷ x.0, x.1)) (read_frames n left)
      ]

  read_frames-cons :
      (n : ℕ) (frame rest : List ℕ) (frames : List (List ℕ)) (left : List ℕ)
      → read_frame envelope_version (frame ++ rest) max_len ≡ (ok frame, rest)
      → read_frames n rest ≡ some (frames, left)
      → read_frames (suc n) (frame ++ rest) ≡ some (frame ∷ frames, left)
  unfolding read_frames
  read_frames-cons n frame rest frames left e h =
      ap
        (λ (x : WireResult (List ℕ) × List ℕ). elim x.0 as (λ _. Option (List (List ℕ) × List ℕ)) [
          | err why ↦ none
          | ok f ↦ map_option {B = List (List ℕ) × List ℕ} (λ y. (f ∷ y.0, y.1)) (read_frames n x.1)
        ])
        e
      ∙ ap (map_option {B = List (List ℕ) × List ℕ} (λ y. (frame ∷ y.0, y.1))) h

  write_frames-cases :
      (writer frame out : List ℕ) (frames : List (List ℕ))
      → write_frames writer (frame ∷ frames) ≡ some out
      → (w : List ℕ) × (write_frame envelope_version writer frame max_len ≡ (ok tt, w))
        × (write_frames w frames ≡ some out)
  unfolding write_frames
  write_frames-cases writer frame out frames e =
      elim (WireResult-cases (write_frame envelope_version writer frame max_len).0) [
        | inl (why, r) ↦ absurd (ground (arith, e, r))
        | inr r ↦ (
          (write_frame envelope_version writer frame max_len).1,
          ap (λ x. (x, (write_frame envelope_version writer frame max_len).1)) r,
          ground (arith, e, r),
        )
      ]

  read_frames-write_frames_tail :
      (writer out : List ℕ) (frames : List (List ℕ))
      → All IsSized frames
      → write_frames writer frames ≡ some out
      → (bytes : List ℕ) × (out ≡ writer ++ bytes)
        × (read_frames (length frames) bytes ≡ some (frames, []))
  unfolding write_frames read_frames
  read_frames-write_frames_tail writer out [] s e = ([], ground (arith, e, append_nil writer), refl)
  read_frames-write_frames_tail writer out (frame ∷ frames) s e =
      let (w, one, more) = write_frames-cases writer frame out frames e in
      let (bytes, o, r) = read_frames-write_frames_tail w out frames s.1 more in
      let (v, back) = read_frame-write_frame writer frame w bytes s.0 one in
      (
        frame ++ bytes,
        o ∙ ap (λ x. x ++ bytes) v ∙ append_assoc writer frame bytes,
        read_frames-cons (length frames) frame bytes frames [] back r,
      )

  -- A stream of frames that were written back to back, each as long as its prefix says, is read as
  -- the same frames in the same order, with nothing left.
  pub read_frames-write_frames :
      (out : List ℕ) (frames : List (List ℕ))
      → All IsSized frames
      → write_frames [] frames ≡ some out
      → read_frames (length frames) out ≡ some (frames, [])
  read_frames-write_frames out frames s e =
      let (bytes, o, r) = read_frames-write_frames_tail [] out frames s e in rw o r
