-- ===== src/Sync/Known.antt =====
-- The versions that the server takes a client to know, behind the loop that writes the changed
-- surfaces.
use nmux.Base.{
  ℕ, ◌≡◌, ◌==◌, ◌||◌, Bool, false, Text, Option, or_else, List, [], ◌∷◌, ◌++◌, if◌then◌else◌,
  ℕ-DecEq, List-DecEq,
}
use nmux.Session.{Session}
use nmux.Wire.{WireResult, ok, err}
use nmux.Sync.{surface_version, known_version, WriterState}

abbrev pub names : Text → List Text → Bool
names k [] = false
names k (id ∷ ids) = id == k || names k ids

-- A loop that ended well has no item left, and one that failed at least one.
abbrev pub Ending : WireResult Unit → List Text → Type 0
Ending (ok _) rest = rest ≡ []
Ending (err e) rest = (id : Text) × (ids : List Text) × (rest ≡ id ∷ ids)

module _ {W : Type 0} where
  -- The version noted for `k`.
  abbrev pub noted : Text → WriterState W → Option ℕ
  noted k w = known_version k w.known_versions

  -- From `w` the loop over `ids` came to `r`: it passed the first of the ids, and for those that the
  -- session has it noted their versions.
  pub record Notes (s : Session) (ids : List Text) (w : WriterState W)
      (r : WireResult Unit × WriterState W) : Type 0 where
    pub passed : List Text
    pub rest : List Text
    pub parts : ids ≡ passed ++ rest
    pub ending : Ending r.0 rest
    pub versions :
        (k : Text)
        → noted k r.1
          ≡ (if names k passed then or_else (surface_version s k) (noted k w) else noted k w)

  -- After a pass for `id`; one that fails notes nothing.
  abbrev Passes : Text → Option ℕ → WriterState W → WireResult Unit × WriterState W → Type 0
  Passes id version w (ok _, w') =
      (k : Text) → noted k w' ≡ (if id == k then or_else version (noted k w) else noted k w)
  Passes id version w (err e, w') = (k : Text) → noted k w' ≡ noted k w
