-- ===== src/Session/Tree/Sizes.antt =====
-- The sizes of the two parts of a split (crates/nmux-core/src/session.rs, `split_child_sizes`).
use nmux.Base.{◌≡◌, ℕ, ◌<◌, ◌≤◌, ◌+◌}
use nmux.Protocol.{SplitAxis}

-- Two lengths add up to a third, neither is 0, and the second is the first or one more.
abbrev pub Halves : ℕ → ℕ → ℕ → Type 0
Halves whole first second =
    (first + second ≡ whole) × (0 < first) × (first ≤ second) × (second ≤ first + 1)

-- A horizontal split halves the rows, a vertical one the columns, and no other axis is split.
abbrev pub Fills : SplitAxis → ℕ → ℕ → ℕ → ℕ → ℕ → ℕ → Type 0
Fills SplitAxis.horizontal cols rows c1 r1 c2 r2 = (c1 ≡ cols) × (c2 ≡ cols) × Halves rows r1 r2
Fills SplitAxis.vertical cols rows c1 r1 c2 r2 = (r1 ≡ rows) × (r2 ≡ rows) × Halves cols c1 c2
Fills _ cols rows c1 r1 c2 r2 = ⊥
