-- ===== src/Sync/Planned.antt =====
-- The frames that the loop over changed surfaces is to write, chosen before any is written
-- (crates/nmux-cli/src/local.rs, `write_changed_surface_frames`).
use nmux.Base.{ℕ, ◌+◌, ◌%◌, ◌^◌, ◌≡◌, refl, Bool, Text, Option, none, some, List, [], ◌∷◌, map}
use nmux.Frame.{FlatBuffers}
use nmux.Session.{Session}
use nmux.Wire.{WireResult, ok, err, write_default_frame}
use nmux.Sync.{
  surface_version, KnownVersions, known_version, insert_version, changed_surface_frame, WriterState,
  frame_written, write_surface_frame, write_changed_surface, write_changed_surface_frames,
}

module _ (F : FlatBuffers) (s : Session) where
  -- The frames for the panes that the session has, each for the version that is noted when its
  -- turn comes, numbered from `seq`.
  abbrev pub planned : ℕ → List Text → KnownVersions → List F.Buffer
  planned seq [] known = []
  planned seq (id ∷ ids) known = elim (surface_version s id) [
    | none ↦ planned seq ids known
    | some v ↦ elim (changed_surface_frame F s id v (known_version id known) seq) [
      | none ↦ planned seq ids (insert_version id v known)
      | some frame ↦ frame ∷ planned ((seq + 1) % 2 ^ 64) ids (insert_version id v known)
    ]
  ]

module _ (envelope_version : List ℕ → Option ℕ) {W : Type 0}
    (write_all : W → List ℕ → Bool × W) where
  -- Frames written up to the first error.
  abbrev pub write_each : W → List (List ℕ) → WireResult Unit × W
  write_each stream [] = (ok tt, stream)
  write_each stream (frame ∷ frames) =
      let (r, stream') = write_default_frame envelope_version write_all stream frame in
      elim r [ err e ↦ (err e, stream') | ok _ ↦ write_each stream' frames ]

module _ {W : Type 0} where
  -- The result and the stream.
  abbrev pub outcome : WireResult Unit × WriterState W → WireResult Unit × W
  outcome r = (r.0, r.1.stream)

  -- The loop behind one pass.
  abbrev continued :
      (WriterState W → WireResult Unit × WriterState W)
      → WireResult Unit × WriterState W
      → WireResult Unit × WriterState W
  continued next r = elim r.0 [ err e ↦ (err e, r.1) | ok _ ↦ next r.1 ]

module _ (F : FlatBuffers) (bytes : F.Buffer → List ℕ) (envelope_version : List ℕ → Option ℕ)
    {W : Type 0} (write_all : W → List ℕ → Bool × W) (s : Session) where
  -- What the plan gives for the rest of the panes.
  abbrev pub delivered : List Text → WriterState W → WireResult Unit × W
  delivered ids w =
      write_each envelope_version write_all w.stream
        (map bytes (planned F s w.seq ids w.known_versions))

  module _ (id : Text) (ids : List Text) (next : WriterState W → WireResult Unit × WriterState W)
      (ih : (w : WriterState W) → outcome (next w) ≡ delivered ids w) where
    after_frame :
        (v : ℕ) (r : WireResult Unit × W) (w : WriterState W)
        → outcome (continued next (frame_written F bytes envelope_version write_all id v r w))
          ≡ elim r.0 [
            | err e ↦ (err e, r.1)
            | ok _ ↦ write_each envelope_version write_all r.1 (
                map bytes
                  (planned F s ((w.seq + 1) % 2 ^ 64) ids (insert_version id v w.known_versions)))
          ]
    unfolding frame_written
    after_frame v (ok u, stream) w = ih _
    after_frame v (err e, stream) w = refl

    after_choice :
        (v : ℕ) (frame : Option F.Buffer) (w : WriterState W)
        → outcome
            (continued next (write_surface_frame F bytes envelope_version write_all id v frame w))
          ≡ write_each envelope_version write_all w.stream (
              map bytes (elim frame [
                | none ↦ planned F s w.seq ids (insert_version id v w.known_versions)
                | some f ↦
                    f
                    ∷ planned F s ((w.seq + 1) % 2 ^ 64) ids (insert_version id v w.known_versions)
              ]))
    unfolding write_surface_frame
    after_choice v none w = ih _
    after_choice v (some f) w =
        after_frame v (write_default_frame envelope_version write_all w.stream (bytes f)) w

    after_pass :
        (version : Option ℕ) (w : WriterState W)
        → outcome (
            continued next
              (write_changed_surface F bytes envelope_version write_all s id version w))
          ≡ write_each envelope_version write_all w.stream (
              map bytes (elim version [
                | none ↦ planned F s w.seq ids w.known_versions
                | some v ↦
                    elim (changed_surface_frame F s id v
                      (known_version id w.known_versions)
                      w.seq) [
                        | none ↦ planned F s w.seq ids (insert_version id v w.known_versions)
                        | some f ↦
                            f
                            ∷ planned F s
                                ((w.seq + 1) % 2 ^ 64)
                                ids
                                (insert_version id v w.known_versions)
                      ]
              ]))
    unfolding write_changed_surface
    after_pass none w = ih w
    after_pass (some v) w =
        after_choice v (changed_surface_frame F s id v (known_version id w.known_versions) w.seq) w

  -- The loop writes the planned frames in order, up to the first that is refused or cannot be
  -- written.
  pub outcome-write_changed_surface_frames :
      (ids : List Text) (w : WriterState W)
      → outcome (write_changed_surface_frames F bytes envelope_version write_all s ids w)
        ≡ delivered ids w
  unfolding write_changed_surface_frames
  outcome-write_changed_surface_frames [] w = refl
  outcome-write_changed_surface_frames (id ∷ ids) w =
      after_pass id ids (write_changed_surface_frames F bytes envelope_version write_all s ids)
        (outcome-write_changed_surface_frames ids) (surface_version s id) w
