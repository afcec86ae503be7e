-- ===== src/Sync/Delivery.antt =====
-- Lists of row updates that pass the client's validators, and what applying them gives.
use nmux.Base.{
  ℕ, zero, suc, ◌≡◌, ◌≢◌, ◌<◌, ◌≤◌, ◌==◌, ◌∙◌, refl, ap, max, Bool, true, false, some, List, [],
  ◌∷◌, length, get_elem?, set, replicate, All, arith, ℕ-DecEq, ◌||◌,
}
use nmux.Client.Surface.{Result, ok, CellRunSummary, StyleSummary, SurfaceRowUpdate}
use nmux.Client.Surface.Validate.{
  semantic_prompt_known, semantic_content_known, unseen_rows, validate_row_update_indices, for_each,
  validate_cell_run_semantic_content, validate_row_semantic_prompt,
  validate_row_update_terminal_enums, validate_cell_run_style_ids, validate_row_update_style_ids,
  validate_cell_run_hyperlink_ids, validate_row_update_hyperlink_ids,
}
use nmux.Client.Surface.Rows.{shown_runs}
use nmux.Sync.Mirror.{ClientRow, tabulate}

abbrev pub row_of_update : SurfaceRowUpdate → ClientRow
row_of_update u = record {
  text = u.text;
  runs = shown_runs u.text u.runs;
  dirty_hash = u.dirty_hash;
  semantic_prompt = u.semantic_prompt;
  dirty = u.dirty;
  kitty_placeholder = u.kitty_virtual_placeholder;
  state_hash = u.row_state_hash;
}

abbrev pub IsAcceptedRun : ℕ → CellRunSummary → Type 0
IsAcceptedRun styles r =
    (semantic_content_known r.semantic_content ≡ true)
    × (r.style_id < max styles 1)
    × (r.hyperlink_id ≡ 0)

abbrev pub IsAccepted : ℕ → SurfaceRowUpdate → Type 0
IsAccepted styles u =
    (semantic_prompt_known u.semantic_prompt ≡ true) × All (IsAcceptedRun styles) u.runs

-- The updates are of distinct rows in rising order, from `start` to below `n`, and each is the
-- row that `f` has.
abbrev pub Delivers : ℕ → ℕ → (ℕ → ClientRow) → ℕ → List SurfaceRowUpdate → Type 0
Delivers styles n f start [] = Unit
Delivers styles n f start (u ∷ us) =
    (start ≤ u.row)
    × (u.row < n)
    × (row_of_update u ≡ f u.row)
    × IsAccepted styles u
    × Delivers styles n f (suc u.row) us

abbrev pub lists : ℕ → List SurfaceRowUpdate → Bool
lists i [] = false
lists i (u ∷ us) = u.row == i || lists i us

module _ {ℓ} {A : Type ℓ} where
  pub length-tabulate : (n : ℕ) (f : ℕ → A) → length (tabulate n f) ≡ n
  length-tabulate zero f = refl
  length-tabulate (suc n) f = ap suc (length-tabulate n (λ i. f (suc i)))

  pub tabulate-cong :
      (n : ℕ) (f g : ℕ → A) → ((i : ℕ) → i < n → f i ≡ g i) → tabulate n f ≡ tabulate n g
  tabulate-cong zero f g h = refl
  tabulate-cong (suc n) f g h =
      let first = h 0 (omega arith) in
      let rest =
        tabulate-cong n (λ i. f (suc i)) (λ i. g (suc i)) (λ i l. h (suc i) (omega arith)) in
      cc

  pub tabulate-replicate : (n : ℕ) (a : A) → tabulate n (λ i. a) ≡ replicate n a
  tabulate-replicate zero a = refl
  tabulate-replicate (suc n) a = ap (◌∷◌ a) (tabulate-replicate n a)

  get_elem?-set :
      (xs : List A) (i j : ℕ) (v : A) → i ≢ j → get_elem? (set xs i v) j ≡ get_elem? xs j
  get_elem?-set [] i j v h = refl
  get_elem?-set (x ∷ xs) zero zero v h = absurd (h refl)
  get_elem?-set (x ∷ xs) zero (suc j) v h = refl
  get_elem?-set (x ∷ xs) (suc i) zero v h = refl
  get_elem?-set (x ∷ xs) (suc i) (suc j) v h = get_elem?-set xs i j v (λ e. h (ap suc e))

  get_elem?-replicate : (n i : ℕ) (a : A) → i < n → get_elem? (replicate n a) i ≡ some a
  get_elem?-replicate zero i a h = absurd (omega arith)
  get_elem?-replicate (suc n) zero a h = refl
  get_elem?-replicate (suc n) (suc i) a h = get_elem?-replicate n i a (omega arith)

  -- A function with one value replaced.
  abbrev pub put : (ℕ → A) → ℕ → A → ℕ → A
  put f zero v zero = v
  put f zero v (suc j) = f (suc j)
  put f (suc i) v zero = f 0
  put f (suc i) v (suc j) = put (λ k. f (suc k)) i v j

  pub put_same : (f : ℕ → A) (i : ℕ) (v : A) → put f i v i ≡ v
  put_same f zero v = refl
  put_same f (suc i) v = put_same (λ k. f (suc k)) i v

  pub put_other : (f : ℕ → A) (i j : ℕ) (v : A) → i ≢ j → put f i v j ≡ f j
  put_other f zero zero v h = absurd (h refl)
  put_other f zero (suc j) v h = refl
  put_other f (suc i) zero v h = refl
  put_other f (suc i) (suc j) v h = put_other (λ k. f (suc k)) i j v (λ e. h (ap suc e))

  pub set-tabulate :
      {B : Type 0} (g : A → B) (n : ℕ) (f : ℕ → A) (i : ℕ) (v : A)
      → set (tabulate n (λ j. g (f j))) i (g v) ≡ tabulate n (λ j. g (put f i v j))
  set-tabulate g zero f i v = refl
  set-tabulate g (suc n) f zero v = refl
  set-tabulate g (suc n) f (suc i) v = ap (◌∷◌ (g (f 0))) (set-tabulate g n (λ k. f (suc k)) i v)

-- The check of the row numbers.
seen_after :
    (n i start : ℕ) (seen : List Bool)
    → start ≤ i
    → ((j : ℕ) → start ≤ j → j < n → get_elem? seen j ≡ some false)
    → (j : ℕ) → suc i ≤ j
    → j < n
    → get_elem? (set seen i true) j ≡ some false
seen_after n i start seen l h j lo hi =
    get_elem?-set seen i j true (λ e. omega (arith, e)) ∙ h j (omega arith) hi

unseen_rows-Delivers :
    (styles n : ℕ) (f : ℕ → ClientRow) (start : ℕ) (seen : List Bool) (us : List SurfaceRowUpdate)
    → ((j : ℕ) → start ≤ j → j < n → get_elem? seen j ≡ some false)
    → Delivers styles n f start us
    → unseen_rows seen us ≡ ok tt
unfolding unseen_rows
unseen_rows-Delivers styles n f start seen [] h d = refl
unseen_rows-Delivers styles n f start seen (u ∷ us) h (lo, hi, _, _, d) =
    let rest =
      unseen_rows-Delivers styles n f (suc u.row) (set seen u.row true) us
        (seen_after n u.row start seen lo h) d in
    ground (arith, rest, h u.row lo hi)

for_each_ok :
    {A : Type 0} (check : A → Result Unit) (xs : List A)
    → All (λ x. check x ≡ ok tt) xs
    → for_each check xs ≡ ok tt
unfolding for_each
for_each_ok check [] h = refl
for_each_ok check (x ∷ xs) h = rw (h.0, for_each_ok check xs h.1) refl

pub All-map :
    {A : Type 0} (P Q : A → Type 0) (xs : List A) → ((x : A) → P x → Q x) → All P xs → All Q xs
All-map P Q [] f h = tt
All-map P Q (x ∷ xs) f h = (f x h.0, All-map P Q xs f h.1)

pub All-Delivers :
    (styles n : ℕ) (f : ℕ → ClientRow) (start : ℕ) (us : List SurfaceRowUpdate)
    → Delivers styles n f start us
    → All (IsAccepted styles) us
All-Delivers styles n f start [] d = tt
All-Delivers styles n f start (u ∷ us) (_, _, _, a, d) =
    (a, All-Delivers styles n f (suc u.row) us d)

module _ (styles : List StyleSummary) where
  accepted_enums :
      (u : SurfaceRowUpdate)
      → IsAccepted (length styles) u
      → (validate_row_semantic_prompt u.semantic_prompt ≡ ok tt)
        × (validate_cell_run_semantic_content u.runs ≡ ok tt)
  unfolding validate_row_semantic_prompt validate_cell_run_semantic_content
  accepted_enums u (p, rs) = (
    rw p refl,
    for_each_ok _ u.runs (All-map (IsAcceptedRun (length styles)) _ u.runs (λ r a. rw a.0 refl) rs),
  )

  accepted_styles :
      (u : SurfaceRowUpdate)
      → IsAccepted (length styles) u
      → validate_cell_run_style_ids u.runs styles ≡ ok tt
  unfolding validate_cell_run_style_ids
  accepted_styles u (p, rs) =
      for_each_ok _ u.runs
        (All-map (IsAcceptedRun (length styles)) _ u.runs (λ r a. let b = a.1 in ground arith) rs)

  accepted_links :
      (u : SurfaceRowUpdate)
      → IsAccepted (length styles) u
      → validate_cell_run_hyperlink_ids u.runs [] ≡ ok tt
  unfolding validate_cell_run_hyperlink_ids
  accepted_links u (p, rs) =
      for_each_ok _ u.runs
        (All-map (IsAcceptedRun (length styles)) _ u.runs (λ r a. let b = a.2 in ground arith) rs)

  module _ (us : List SurfaceRowUpdate) (a : All (IsAccepted (length styles)) us) where
    pub enums_ok : validate_row_update_terminal_enums us ≡ ok tt
    unfolding validate_row_update_terminal_enums
    enums_ok = for_each_ok _ us (
        All-map (IsAccepted (length styles)) _ us
          (λ u b. let (p, c) = accepted_enums u b in rw (p, c) refl) a)

    pub style_ids_ok : validate_row_update_style_ids us styles ≡ ok tt
    unfolding validate_row_update_style_ids
    style_ids_ok = for_each_ok _ us (All-map (IsAccepted (length styles)) _ us accepted_styles a)

    pub hyperlink_ids_ok : validate_row_update_hyperlink_ids us [] ≡ ok tt
    unfolding validate_row_update_hyperlink_ids
    hyperlink_ids_ok = for_each_ok _ us (All-map (IsAccepted (length styles)) _ us accepted_links a)

pub indices_ok :
    (styles n : ℕ) (f : ℕ → ClientRow) (us : List SurfaceRowUpdate)
    → Delivers styles n f 0 us
    → validate_row_update_indices us n ≡ ok tt
unfolding validate_row_update_indices
indices_ok styles n f us d =
    unseen_rows-Delivers styles n f 0 (replicate n false) us
      (λ j lo hi. get_elem?-replicate n j false hi) d
