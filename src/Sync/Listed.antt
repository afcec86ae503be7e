-- ===== src/Sync/Listed.antt =====
-- The rows of a snapshot, and those of a patch of every row.
use nmux.Base.{
  ℕ, zero, suc, ◌+◌, ◌^◌, ◌≡◌, ◌<◌, ◌≤◌, ◌∙◌, refl, ap, subst, Text, none, some, List, [], ◌∷◌, map,
  length, get_elem?, All, arith, as_u32, max,
}
use nmux.Terminal.{CellRun, PaneStyle}
use nmux.Session.{indices_from}
use nmux.Session.Frame.{PaneSurface, snapshot_rows, patch_row, build_style}
use nmux.Client.Surface.{StyleSummary, SurfaceRowUpdate}
use nmux.Client.Surface.Decode.{decoded_surface_row, decoded_styles}
use nmux.Client.Surface.Snapshot.{styles_or_default}
use nmux.Sync.Mirror.{mirror_style}
use nmux.Sync.Delivery.{IsAccepted, IsAcceptedRun, All-map}
use nmux.Sync.Sent.{IsRising}

pub as_u32_small : (k : ℕ) → k < 2 ^ 32 → as_u32 k ≡ k
as_u32_small k h = omega arith

module _ (s : PaneSurface) where
  abbrev From : {A : Type 0} → List A → List A → ℕ → Type 0
  From xs all k = (i : ℕ) → get_elem? all (k + i) ≡ get_elem? xs i

  From-tail :
      {A : Type 0} (x : A) (xs all : List A) (k : ℕ) → From (x ∷ xs) all k → From xs all (k + 1)
  From-tail x xs all k h i = ap (get_elem? all) (omega arith) ∙ h (suc i)

  From-head :
      {A : Type 0} (x : A) (xs all : List A) (k : ℕ)
      → From (x ∷ xs) all k
      → get_elem? all k ≡ some x
  From-head x xs all k h = ap (get_elem? all) (omega arith) ∙ h 0

  -- The rows of a snapshot are the rows that a patch of every row would list.
  pub rows_of_snapshot :
      (k : ℕ) (lines : List Text) (runs : List (List CellRun))
      → From lines s.lines k
      → From runs s.row_runs k
      → length runs ≡ length lines
      → k + length lines ≤ 2 ^ 32
      → snapshot_rows s k lines runs ≡ map (patch_row s) (indices_from k (length lines))
  unfolding snapshot_rows patch_row
  rows_of_snapshot k [] runs hl hr e w = refl
  rows_of_snapshot k (line ∷ lines) [] hl hr e w = absurd (omega (arith, e))
  rows_of_snapshot k (line ∷ lines) (r ∷ runs) hl hr e w =
      let rest =
        rows_of_snapshot (k + 1) lines runs (From-tail line lines s.lines k hl)
          (From-tail r runs s.row_runs k hr) (omega (arith, e)) (omega (arith, w)) in
      rw
        (
          as_u32_small k (omega (arith, w)),
          From-head line lines s.lines k hl,
          From-head r runs s.row_runs k hr,
          rest,
        )
        refl

pub indices_from-IsRising : (m n k : ℕ) → k + n ≤ m → m ≤ 2 ^ 32 → IsRising m k (indices_from k n)
indices_from-IsRising m zero k h w = tt
indices_from-IsRising m (suc n) k h w = rw (as_u32_small k (omega (arith, h, w))) (
  omega arith,
  omega arith,
  subst (λ j. IsRising m (suc k) (indices_from j n)) (omega arith)
      (indices_from-IsRising m n (suc k) (omega arith) w),
)

pub map-decoded :
    (s : PaneSurface) (is : List ℕ)
    → map decoded_surface_row (map (patch_row s) is)
      ≡ map (λ i. decoded_surface_row (patch_row s i)) is
map-decoded s [] = refl
map-decoded s (i ∷ is) = ap (◌∷◌ (decoded_surface_row (patch_row s i))) (map-decoded s is)

pub decode-build_style :
    (styles : List PaneStyle) → decoded_styles (map build_style styles) ≡ map mirror_style styles
unfolding decoded_styles
decode-build_style [] = refl
decode-build_style (s ∷ ss) = ap (◌∷◌ (mirror_style s)) (decode-build_style ss)

pub length-styles : (styles : List PaneStyle) → length (map mirror_style styles) ≡ length styles
length-styles [] = refl
length-styles (s ∷ ss) = ap suc (length-styles ss)

pub get_elem?-none : {A : Type 0} (xs : List A) (i : ℕ) → length xs ≤ i → get_elem? xs i ≡ none
get_elem?-none [] i h = refl
get_elem?-none (x ∷ xs) zero h = absurd (omega arith)
get_elem?-none (x ∷ xs) (suc i) h = get_elem?-none xs i (omega arith)

default_bound :
    (styles : List StyleSummary) (n : ℕ)
    → n < max (length styles) 1
    → n < max (length (styles_or_default styles)) 1
default_bound [] n h = omega arith
default_bound (s ∷ ss) n h = h

-- The default table has no fewer styles.
pub accepted_default :
    (styles : List StyleSummary) (us : List SurfaceRowUpdate)
    → All (IsAccepted (length styles)) us
    → All (IsAccepted (length (styles_or_default styles))) us
accepted_default styles us a =
    All-map (IsAccepted (length styles)) (IsAccepted (length (styles_or_default styles))) us
      (λ u b. (
        b.0,
        All-map (IsAcceptedRun (length styles)) (IsAcceptedRun (length (styles_or_default styles)))
            u.runs (λ r k. (k.0, default_bound styles r.style_id k.1, k.2)) b.1,
      ))
      a
