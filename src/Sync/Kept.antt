-- ===== src/Sync/Kept.antt =====
-- The surface that shows a pane after a report, in terms of the one that showed it before.
use nmux.Base.{ℕ, ◌≡◌, ◌<◌, ◌∙◌, sym, ap, map, get_elem?}
use nmux.Session.{PaneState}
use nmux.Session.Update.{Rows, surface_of}
use nmux.Session.Update.Patch.{SameRow}
use nmux.Client.Surface.Snapshot.{styles_or_default}
use nmux.Sync.Mirror.{
  ClientRow, seen_row, mirror_row, mirror, mirror_frame, mirror_colors, mirror_style, fill,
}
use nmux.Sync.Apply.{fill-cong}
use nmux.Sync.Patched.{moved_modes}

pub SameRow-mirror_row :
    (p q : PaneState) (i : ℕ)
    → SameRow (surface_of p) (surface_of q) i
    → mirror_row p i ≡ mirror_row q i
unfolding mirror_row
SameRow-mirror_row p q i (a, b, c, d, e) j = seen_row (a j) (b j) (c j) (d j) (e j)

pub surface_of-mirror_row :
    (p q : PaneState) → surface_of q ≡ surface_of p → (i : ℕ) → mirror_row p i ≡ mirror_row q i
unfolding mirror_row
surface_of-mirror_row p q h i =
    ap
      (λ (r : Rows).
        seen_row (get_elem? r.lines i) (get_elem? r.runs i) (get_elem? r.prompts i)
          (get_elem? r.dirty i) (get_elem? r.placeholders i))
      (sym h)

-- The pane's name, size, styles and kind of surface are the old ones.
pub record IsSameFrame (p q : PaneState) : Type 0 where
  pub id : q.id ≡ p.id
  pub cols : q.cols ≡ p.cols
  pub rows : q.rows ≡ p.rows
  pub surface : q.surface ≡ p.surface
  pub styles : q.styles ≡ p.styles

-- With the rows `f`, a surface of the old pane that takes over the rest shows the new one.
pub mirror_moved :
    (p q : PaneState) (f : ℕ → ClientRow)
    → IsSameFrame p q
    → ((i : ℕ) → i < p.rows → f i ≡ mirror_row q i)
    → record (moved_modes q (fill (mirror_frame p) p.rows f)) { colors = mirror_colors q.colors }
      ≡ mirror q
unfolding mirror
mirror_moved p q f s h =
    ap (λ t. record (moved_modes q t) { colors = mirror_colors q.colors })
      (fill-cong (mirror_frame p) p.rows f (mirror_row q) h)
    ∙ λ j. record (fill (mirror_frame q) (sym s.rows j) (mirror_row q)) {
      pane_id = sym s.id j;
      cols = sym s.cols j;
      rows = sym s.rows j;
      surface = sym s.surface j;
      styles = styles_or_default (map mirror_style (sym s.styles j));
    }
