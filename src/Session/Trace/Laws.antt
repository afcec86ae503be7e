-- ===== src/Session/Trace/Laws.antt =====
-- The records in the ring after pushes (crates/nmux-core/src/session.rs, `SessionTraceRing`).
use nmux.Base.{
  ◌≡◌, refl, ◌≤◌, ◌<◌, ◌+◌, ◌-◌, ◌∙◌, sym, ap, List, [], ◌∷◌, ◌++◌, length, length-append,
  length-drop, drop, arith, ℕ, zero, suc, append_nil, append_assoc, subst, leb, Bool-cases, inl,
  inr, ◌==◌, ℕ-DecEq,
}
use nmux.Session.Event.{SessionTraceRecord}
use nmux.Session.Trace.{SessionTraceRing, ring_new, make_room, ring_push}

unfoldable pub push_records : SessionTraceRing → List SessionTraceRecord → SessionTraceRing
push_records ring [] = ring
push_records ring (r ∷ rs) = push_records (ring_push ring r) rs

drop-suc :
    (k n : ℕ) (r : SessionTraceRecord) (rs : List SessionTraceRecord)
    → k ≡ suc n
    → drop k (r ∷ rs) ≡ drop n rs
drop-suc zero n r rs h = absurd (omega arith)
drop-suc (suc k) n r rs h = ap (λ i. drop i rs) (omega arith)

drop-zero : (k : ℕ) (rs : List SessionTraceRecord) → k ≡ 0 → drop k rs ≡ rs
drop-zero zero rs h = refl
drop-zero (suc k) rs h = absurd (omega arith)

make_room-drop :
    (cap : ℕ) (rs : List SessionTraceRecord)
    → 0 < cap
    → make_room cap rs ≡ drop (length rs + 1 - cap) rs
unfolding make_room
make_room-drop cap [] h = sym (drop-zero (1 - cap) [] (omega arith))
make_room-drop cap (r ∷ rs) h = elim (Bool-cases (leb cap (length (r ∷ rs)))) [
  | inl e ↦
      ground
        (arith, make_room-drop cap rs h, drop-suc (length rs + 2 - cap) (length rs + 1 - cap) r rs)
  | inr e ↦ ground (arith, drop-zero (length rs + 2 - cap) (r ∷ rs))
]

drop_all : (k : ℕ) (rs : List SessionTraceRecord) → length rs ≤ k → drop k rs ≡ []
drop_all zero [] h = refl
drop_all (suc k) [] h = refl
drop_all zero (r ∷ rs) h = absurd (omega arith)
drop_all (suc k) (r ∷ rs) h = drop_all k rs (omega arith)

drop-drop : (a b : ℕ) (rs : List SessionTraceRecord) → drop a (drop b rs) ≡ drop (a + b) rs
drop-drop a zero rs = ap (λ i. drop i rs) (omega arith)
drop-drop a (suc b) [] = drop_all a [] (omega arith) ∙ sym (drop_all (a + suc b) [] (omega arith))
drop-drop a (suc b) (r ∷ rs) =
    drop-drop a b rs ∙ sym (drop-suc (a + suc b) (a + b) r rs (omega arith))

drop-append :
    (k : ℕ) (xs ys : List SessionTraceRecord) → k ≤ length xs → drop k (xs ++ ys) ≡ drop k xs ++ ys
drop-append zero xs ys h = refl
drop-append (suc k) [] ys h = absurd (omega arith)
drop-append (suc k) (x ∷ xs) ys h = drop-append k xs ys (omega arith)

next_drop : (cap n m : ℕ) → 0 < cap → m ≡ n - (n - cap) → (m + 1 - cap) + (n - cap) ≡ n + 1 - cap
next_drop cap n m h e = omega arith

-- The records behind the first `n - cap`: the last `cap`, or all of them.
abbrev last : ℕ → List SessionTraceRecord → List SessionTraceRecord
last cap rs = drop (length rs - cap) rs

ring_push-last :
    (ring : SessionTraceRing) (seen : List SessionTraceRecord) (r : SessionTraceRecord)
    → ring.records ≡ last ring.cap seen
    → (ring_push ring r).records ≡ last ring.cap (seen ++ r ∷ [])
unfolding ring_push
ring_push-last ring seen r h = elim (Bool-cases (ring.cap == 0)) [
  | inl e ↦ ground (
    arith,
    h,
    drop_all (length (seen ++ r ∷ []) - ring.cap) (seen ++ r ∷ []),
    drop_all (length seen - ring.cap) seen,
  )
  | inr e ↦ ground (
    arith,
    h,
    make_room-drop ring.cap ring.records,
    length-append seen (r ∷ []),
    length-drop (length seen - ring.cap) seen,
    drop-drop (length ring.records + 1 - ring.cap) (length seen - ring.cap) seen,
    drop-append (length seen + 1 - ring.cap) seen (r ∷ []),
    next_drop ring.cap (length seen) (length ring.records),
  )
]

cap-ring_push :
    (ring : SessionTraceRing) (r : SessionTraceRecord) → (ring_push ring r).cap ≡ ring.cap
unfolding ring_push
cap-ring_push ring r = ground arith

push_records-last :
    (ring : SessionTraceRing) (seen rs : List SessionTraceRecord)
    → ring.records ≡ last ring.cap seen
    → (push_records ring rs).records ≡ last ring.cap (seen ++ rs)
unfolding push_records
push_records-last ring seen [] h = h ∙ ap (last ring.cap) (sym (append_nil seen))
push_records-last ring seen (r ∷ rs) h = rw (sym (append_assoc seen (r ∷ []) rs)) (
    subst (λ cap. (push_records (ring_push ring r) rs).records ≡ last cap ((seen ++ r ∷ []) ++ rs))
      (cap-ring_push ring r)
      (push_records-last (ring_push ring r) (seen ++ r ∷ []) rs
        (rw (cap-ring_push ring r) (ring_push-last ring seen r h))))

-- A ring that took any records in turn holds the last `cap` of them, oldest first, or all of them
-- when they are no more than `cap`; a ring of capacity 0 holds none.
pub records-push_records :
    (cap : ℕ) (rs : List SessionTraceRecord)
    → (push_records (ring_new cap) rs).records ≡ drop (length rs - cap) rs
unfolding ring_new
records-push_records cap rs =
    push_records-last (ring_new cap) [] rs (sym (drop_all (0 - cap) [] (omega arith)))
