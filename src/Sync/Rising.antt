-- ===== src/Sync/Rising.antt =====
-- The order of the rows that a patch lists.
use nmux.Base.{
  ℕ, zero, suc, ◌+◌, ◌^◌, ◌<◌, ◌!=◌, ℕ-DecEq, ◌≤◌, min, Bool, true, false, List, [], ◌∷◌, length,
  arith, as_u32, if◌then◌else◌,
}
use nmux.Session.{PaneState, indices_from, all_row_indices}
use nmux.Session.Update.{
  Rows, surface_of, row_changed, changed_rows, surface_row_update_indices, keep_below,
}
use nmux.Sync.Sent.{IsRising}
use nmux.Sync.Listed.{as_u32_small, indices_from-IsRising}

weaken : (m s t : ℕ) (is : List ℕ) → s ≤ t → IsRising m t is → IsRising m s is
weaken m s t [] h r = tt
weaken m s t (i ∷ is) h (lo, hi, r) = (omega arith, hi, r)

if_either :
    (P : List ℕ → Type 0) (b : Bool) (xs ys : List ℕ) → P xs → P ys → P (if b then xs else ys)
if_either P true xs ys x y = x
if_either P false xs ys x y = y

changed_rows-IsRising :
    (a b : Rows) (m n k : ℕ) → k + n ≤ m → m ≤ 2 ^ 32 → IsRising m k (changed_rows a b k n)
unfolding changed_rows
changed_rows-IsRising a b m zero k h w = tt
changed_rows-IsRising a b m (suc n) k h w =
    let rest = changed_rows-IsRising a b m n (k + 1) (omega arith) w in
    let after = changed_rows a b (k + 1) n in
    if_either (IsRising m k) (row_changed a b k) (as_u32 k ∷ after) after
      (rw (as_u32_small k (omega (arith, h, w)))
        (omega arith, omega arith, weaken m (suc k) (k + 1) after (omega arith) rest))
      (weaken m k (k + 1) after (omega arith) rest)

pub keep_below-IsRising :
    (n m s : ℕ) (is : List ℕ) → IsRising m s is → IsRising (min n m) s (keep_below n is)
unfolding keep_below
keep_below-IsRising n m s [] r = tt
keep_below-IsRising n m s (i ∷ is) (lo, hi, r) =
    let rest = keep_below-IsRising n m (suc i) is r in
    ground (arith, rest, weaken (min n m) s (suc i) (keep_below n is) (omega arith) rest)

pub surface_row_update_indices-IsRising :
    (p : PaneState) (new : Rows)
    → length new.lines < 2 ^ 32
    → IsRising (length new.lines) 0 (surface_row_update_indices p new false)
unfolding surface_row_update_indices all_row_indices
surface_row_update_indices-IsRising p new h =
    let n = length new.lines in
    if_either (IsRising n 0) (length p.surface_lines != n) (indices_from 0 n)
      (changed_rows (surface_of p) new 0 n)
      (indices_from-IsRising n n 0 (omega arith) (omega arith))
      (changed_rows-IsRising (surface_of p) new n n 0 (omega arith) (omega arith))
