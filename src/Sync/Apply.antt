-- ===== src/Sync/Apply.antt =====
-- Writing a delivered list of row updates into a surface.
use nmux.Base.{
  ℕ, suc, ◌≡◌, ◌<◌, ◌∙◌, refl, ap, subst, ltb, true, false, List, [], ◌∷◌, length, arith, ℕ-DecEq,
  ℕ_discrete,
}
use nmux.Client.Surface.{ok, SurfaceRowUpdate, ClientPaneSurface}
use nmux.Client.Surface.Rows.{in_bounds, write_row, apply_rows}
use nmux.Sync.Mirror.{ClientRow, tabulate, fill}
use nmux.Sync.Delivery.{
  Delivers, lists, row_of_update, length-tabulate, tabulate-cong, put, put_same, put_other,
  set-tabulate,
}

module _ (s : ClientPaneSurface) (n : ℕ) where
  -- One vector of rows that agree.
  column :
      {A : Type 0} (π : ClientRow → A) (f g : ℕ → ClientRow)
      → ((i : ℕ) → i < n → f i ≡ g i)
      → tabulate n (λ i. π (f i)) ≡ tabulate n (λ i. π (g i))
  column π f g h = tabulate-cong n (λ i. π (f i)) (λ i. π (g i)) (λ i l. ap π (h i l))

  pub fill-cong : (f g : ℕ → ClientRow) → ((i : ℕ) → i < n → f i ≡ g i) → fill s n f ≡ fill s n g
  fill-cong f g h i = record s {
    row_text = column (λ r. r.text) f g h i;
    row_runs = column (λ r. r.runs) f g h i;
    row_dirty_hashes = column (λ r. r.dirty_hash) f g h i;
    row_semantic_prompts = column (λ r. r.semantic_prompt) f g h i;
    row_dirty = column (λ r. r.dirty) f g h i;
    row_kitty_placeholders = column (λ r. r.kitty_placeholder) f g h i;
    row_state_hashes = column (λ r. r.state_hash) f g h i;
  }

  write_row-fill :
      (u : SurfaceRowUpdate) (g : ℕ → ClientRow)
      → write_row u (fill s n g) ≡ fill s n (put g u.row (row_of_update u))
  unfolding write_row
  write_row-fill u g i =
      let v = row_of_update u in
      record s {
        row_text = set-tabulate (λ r. r.text) n g u.row v i;
        row_runs = set-tabulate (λ r. r.runs) n g u.row v i;
        row_dirty_hashes = set-tabulate (λ r. r.dirty_hash) n g u.row v i;
        row_semantic_prompts = set-tabulate (λ r. r.semantic_prompt) n g u.row v i;
        row_dirty = set-tabulate (λ r. r.dirty) n g u.row v i;
        row_kitty_placeholders = set-tabulate (λ r. r.kitty_placeholder) n g u.row v i;
        row_state_hashes = set-tabulate (λ r. r.state_hash) n g u.row v i;
      }

  in_bounds-fill :
      (i : ℕ) (g : ℕ → ClientRow)
      → i < n
      → (ltb i (length (fill s n g).row_text) ≡ true) × (in_bounds i (fill s n g) ≡ true)
  unfolding in_bounds
  in_bounds-fill i g h = (
    rw (length-tabulate n (λ i. (g i).text)) (ground arith),
    rw
        (
          length-tabulate n (λ i. (g i).runs),
          length-tabulate n (λ i. (g i).dirty_hash),
          length-tabulate n (λ i. (g i).semantic_prompt),
          length-tabulate n (λ i. (g i).dirty),
          length-tabulate n (λ i. (g i).kitty_placeholder),
          length-tabulate n (λ i. (g i).state_hash),
        )
        (ground arith),
  )

  -- What is left to deliver after one row.
  still_same :
      (u : SurfaceRowUpdate) (us : List SurfaceRowUpdate) (f g : ℕ → ClientRow)
      → row_of_update u ≡ f u.row
      → ((i : ℕ) → i < n → lists i (u ∷ us) ≡ false → g i ≡ f i)
      → (i : ℕ) → i < n
      → lists i us ≡ false
      → put g u.row (row_of_update u) i ≡ f i
  still_same u us f g e h i l o = elim (ℕ_discrete u.row i) [
    | yes k ↦
        subst (λ j. put g u.row (row_of_update u) j ≡ f j) k
          (put_same g u.row (row_of_update u) ∙ e)
    | no k ↦ put_other g u.row i (row_of_update u) k ∙ h i l (ground arith)
  ]

  -- A delivery of the rows in which `g` differs from `f` turns the one into the other.
  pub apply_rows-fill :
      (styles start : ℕ) (us : List SurfaceRowUpdate) (f g : ℕ → ClientRow)
      → Delivers styles n f start us
      → ((i : ℕ) → i < n → lists i us ≡ false → g i ≡ f i)
      → apply_rows us (fill s n g) ≡ (ok tt, fill s n f)
  unfolding apply_rows
  apply_rows-fill styles start [] f g d h = ap (λ t. (ok tt, t)) (fill-cong g f (λ i l. h i l refl))
  apply_rows-fill styles start (u ∷ us) f g (lo, hi, e, _, d) h =
      let (t, b) = in_bounds-fill u.row g hi in
      let rest =
        apply_rows-fill styles (suc u.row) us f (put g u.row (row_of_update u)) d
          (still_same u us f g e h) in
      ground (arith, t, b, write_row-fill u g, rest)
