-- ===== src/Client/Surface/Rows/Parallel.antt =====
-- The row vectors of a surface and the indices of `apply_rows` (crates/nmux-
-- cli/src/local/surface.rs).
use nmux.Base.{
  ℕ, zero, suc, ◌≡◌, ◌<◌, ◌∙◌, refl, ap, Bool, true, false, ltb, Option, none, some, List, [], ◌∷◌,
  length, get_elem?, set, replicate, length-replicate, arith, All, if◌then◌else◌,
}
use nmux.Client.Surface.{SurfaceError, Result, ok, err, SurfaceRowUpdate, ClientPaneSurface}
use nmux.Client.Surface.Validate.{unseen_rows, validate_row_update_indices}
use nmux.Client.Surface.Rows.{in_bounds, write_row, apply_rows}

-- The seven row vectors have one length.
pub record IsParallel (n : ℕ) (s : ClientPaneSurface) : Type 0 where
  pub text : length s.row_text ≡ n
  pub runs : length s.row_runs ≡ n
  pub dirty_hashes : length s.row_dirty_hashes ≡ n
  pub prompts : length s.row_semantic_prompts ≡ n
  pub dirty : length s.row_dirty ≡ n
  pub placeholders : length s.row_kitty_placeholders ≡ n
  pub state_hashes : length s.row_state_hashes ≡ n

pub length-set {ℓ} : {A : Type ℓ} (xs : List A) (i : ℕ) (v : A) → length (set xs i v) ≡ length xs
length-set [] i v = refl
length-set (x ∷ xs) zero v = refl
length-set (x ∷ xs) (suc i) v = ap suc (length-set xs i v)

pub write_row-IsParallel :
    (n : ℕ) (row : SurfaceRowUpdate) (s : ClientPaneSurface)
    → IsParallel n s
    → IsParallel n (write_row row s)
unfolding write_row
write_row-IsParallel n row s p = record {
  text = length-set s.row_text row.row _ ∙ p.text;
  runs = length-set s.row_runs row.row _ ∙ p.runs;
  dirty_hashes = length-set s.row_dirty_hashes row.row _ ∙ p.dirty_hashes;
  prompts = length-set s.row_semantic_prompts row.row _ ∙ p.prompts;
  dirty = length-set s.row_dirty row.row _ ∙ p.dirty;
  placeholders = length-set s.row_kitty_placeholders row.row _ ∙ p.placeholders;
  state_hashes = length-set s.row_state_hashes row.row _ ∙ p.state_hashes;
}

get_elem?-below {ℓ} :
    {A : Type ℓ} (xs : List A) (i : ℕ) (a : A) → get_elem? xs i ≡ some a → i < length xs
get_elem?-below [] i a e = cc
get_elem?-below (x ∷ xs) zero a e = omega arith
get_elem?-below (x ∷ xs) (suc i) a e = omega (arith, get_elem?-below xs i a e)

-- Rows that passed the check are rows of the surface.
abbrev pub AreWithin : ℕ → List SurfaceRowUpdate → Type 0
AreWithin n = All (λ row. row.row < n)

unseen_lem :
    (o : Option Bool) (rest : Result Unit) (i : ℕ)
    → elim o [
      | none ↦ err (SurfaceError.row_outside_surface i)
      | some b ↦ if b then err (SurfaceError.repeated_row i) else rest
    ]
      ≡ ok tt
    → (o ≡ some false) × (rest ≡ ok tt)
unseen_lem none rest i h = cc
unseen_lem (some true) rest i h = cc
unseen_lem (some false) rest i h = (refl, h)

unseen_rows-AreWithin :
    (n : ℕ) (seen : List Bool) (rows : List SurfaceRowUpdate)
    → length seen ≡ n
    → unseen_rows seen rows ≡ ok tt
    → AreWithin n rows
unfolding unseen_rows
unseen_rows-AreWithin n seen [] l h = tt
unseen_rows-AreWithin n seen (row ∷ rows) l h =
    let (e, k) =
      unseen_lem (get_elem? seen row.row) (unseen_rows (set seen row.row true) rows) row.row h in
    (
      omega (arith, l, get_elem?-below seen row.row false e),
      unseen_rows-AreWithin n (set seen row.row true) rows (length-set seen row.row true ∙ l) k,
    )

pub indices-AreWithin :
    (n : ℕ) (rows : List SurfaceRowUpdate)
    → validate_row_update_indices rows n ≡ ok tt
    → AreWithin n rows
unfolding validate_row_update_indices
indices-AreWithin n rows h =
    unseen_rows-AreWithin n (replicate n false) rows (length-replicate n false) h

in_bounds-IsParallel :
    (n i : ℕ) (s : ClientPaneSurface)
    → IsParallel n s
    → i < n
    → (ltb i (length s.row_text) ≡ true) × (in_bounds i s ≡ true)
unfolding in_bounds
in_bounds-IsParallel n i s p h = (
  rw p.text (ground arith),
  rw (p.runs, p.dirty_hashes, p.prompts, p.dirty, p.placeholders, p.state_hashes) (ground arith),
)

-- Checked rows are all written.
pub apply_rows_ok :
    (n : ℕ) (rows : List SurfaceRowUpdate) (s : ClientPaneSurface)
    → IsParallel n s
    → AreWithin n rows
    → (t : ClientPaneSurface) × (apply_rows rows s ≡ (ok tt, t)) × IsParallel n t
unfolding apply_rows
apply_rows_ok n [] s p w = (s, refl, p)
apply_rows_ok n (row ∷ rows) s p (h, w) =
    let (t, e, q) = apply_rows_ok n rows (write_row row s) (write_row-IsParallel n row s p) w in
    let (a, b) = in_bounds-IsParallel n row.row s p h in (t, rw (a, b) e, q)

either :
    (P : ClientPaneSurface → Type 0) (b : Bool) (x y : Result Unit × ClientPaneSurface)
    → P x.1
    → P y.1
    → P (if b then x else y).1
either P true x y h k = h
either P false x y h k = k

-- Written or not, the vectors stay parallel.
pub apply_rows-IsParallel :
    (n : ℕ) (rows : List SurfaceRowUpdate) (s : ClientPaneSurface)
    → IsParallel n s
    → IsParallel n (apply_rows rows s).1
unfolding apply_rows
apply_rows-IsParallel n [] s p = p
apply_rows-IsParallel n (row ∷ rows) s p =
    let rest = apply_rows-IsParallel n rows (write_row row s) (write_row-IsParallel n row s p) in
    either (IsParallel n) (ltb row.row (length s.row_text)) _ _
      (either (IsParallel n) (in_bounds row.row s) _ _ rest p) p
