-- ===== src/Session/Actor/Registry.antt =====
-- The registry of actors as a map (crates/nmux-core/src/session.rs, `SessionRegistry`).
use nmux.Base.{
  ◌≡◌, refl, ◌==◌, ==→≡, Text, Option, none, some, [], ◌∷◌, if◌then◌else◌, or_else, Bool, true,
  false, Option-cases, inl, inr, arith, ℕ-DecEq, List-DecEq,
}
use nmux.Terminal.{TerminalEngine}
use nmux.Session.Actor.{SessionActor, SessionRegistry, get, insert, insert_actor}

abbrev pub is_none {ℓ} : {A : Type ℓ} → Option A → Bool
is_none none = true
is_none (some a) = false

module _ (E : TerminalEngine) where
  get-insert_actor :
      (actors : SessionRegistry E) (id k : Text) (a : SessionActor E)
      → get E k (insert_actor E id a actors) ≡ (if id == k then some a else get E k actors)
  unfolding get insert_actor
  get-insert_actor [] id k a = refl
  get-insert_actor ((j, b) ∷ rest) id k a = ground (arith, get-insert_actor rest id k a)

  -- Inserting an actor keeps every actor that the registry has, that of the same session id too;
  -- under an id that it has not, the registry then has the new actor if the id is that of its
  -- session, and else nothing. The answer is true exactly if the registry had no actor of this id.
  pub get-insert :
      (actors : SessionRegistry E) (k : Text) (a : SessionActor E)
      → (get E k (insert E actors a).0
          ≡ or_else (get E k actors) (if a.core.session.id == k then some a else none))
        × ((insert E actors a).1 ≡ is_none (get E a.core.session.id actors))
  unfolding insert
  get-insert actors k a =
      let id = a.core.session.id in
      elim (Option-cases (get E id actors)) [
        | inl n ↦ (ground (arith, get-insert_actor actors id k a, n, ==→≡ id k), ground (arith, n))
        | inr (b, n) ↦ (ground (arith, n, ==→≡ id k), ground (arith, n))
      ]
