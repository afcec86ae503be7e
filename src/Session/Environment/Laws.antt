-- ===== src/Session/Environment/Laws.antt =====
-- Setting the environment of a pane's command more than once (crates/nmux-core/src/session.rs,
-- `set_pane_nmux_environment`).
use nmux.Base.{
  ◌≡◌, ◌∙◌, refl, ap, Bool, true, false, Text, codes, List, [], ◌∷◌, ◌++◌, append_nil, arith,
  if◌then◌else◌, ℕ_discrete, List-discrete,
}
use nmux.Session.Environment.{is_nmux_key, without_nmux_keys, nmux_environment}

if_append :
    (b : Bool) (e : Text × Text) (xs ys zs : List (Text × Text))
    → zs ≡ xs ++ ys
    → (if b then zs else e ∷ zs) ≡ (if b then xs else e ∷ xs) ++ ys
if_append true e xs ys zs h = h
if_append false e xs ys zs h = ap (◌∷◌ e) h

without_nmux_keys-append :
    (xs ys : List (Text × Text))
    → without_nmux_keys (xs ++ ys) ≡ without_nmux_keys xs ++ without_nmux_keys ys
unfolding without_nmux_keys
without_nmux_keys-append [] ys = refl
without_nmux_keys-append ((key, value) ∷ xs) ys =
    if_append (is_nmux_key key) (key, value) (without_nmux_keys xs) (without_nmux_keys ys)
      (without_nmux_keys (xs ++ ys)) (without_nmux_keys-append xs ys)

without_nmux_keys_idem :
    (env : List (Text × Text)) → without_nmux_keys (without_nmux_keys env) ≡ without_nmux_keys env
unfolding without_nmux_keys
without_nmux_keys_idem [] = refl
without_nmux_keys_idem ((key, value) ∷ env) = ground (arith, without_nmux_keys_idem env)

all_dropped :
    (session_id pane_id socket origin : Text)
    → without_nmux_keys (
        (codes "NMUX", codes "1")
        ∷ (codes "NMUX_SESSION_ID", session_id)
        ∷ (codes "NMUX_PANE_ID", pane_id)
        ∷ (codes "NMUX_SOCKET", socket)
        ∷ (codes "NMUX_ORIGIN", origin)
        ∷ [])
      ≡ []
unfolding without_nmux_keys is_nmux_key ℕ_discrete List-discrete
all_dropped session_id pane_id socket origin = refl

-- Setting the environment of a pane again replaces the entries that were set before.
nmux_environment_again :
    (session_id pane_id socket origin session_id' pane_id' socket' origin' : Text)
    (env : List (Text × Text))
    → nmux_environment session_id' pane_id' socket' origin'
        (nmux_environment session_id pane_id socket origin env)
      ≡ nmux_environment session_id' pane_id' socket' origin' env
unfolding nmux_environment
nmux_environment_again session_id pane_id socket origin session_id' pane_id' socket' origin' env =
    let set =
      (codes "NMUX", codes "1")
      ∷ (codes "NMUX_SESSION_ID", session_id)
      ∷ (codes "NMUX_PANE_ID", pane_id)
      ∷ (codes "NMUX_SOCKET", socket)
      ∷ (codes "NMUX_ORIGIN", origin)
      ∷ [] in
    ap
      (λ xs.
        xs
        ++ (codes "NMUX", codes "1")
          ∷ (codes "NMUX_SESSION_ID", session_id')
          ∷ (codes "NMUX_PANE_ID", pane_id')
          ∷ (codes "NMUX_SOCKET", socket')
          ∷ (codes "NMUX_ORIGIN", origin')
          ∷ [])
      (without_nmux_keys-append (without_nmux_keys env) set
        ∙ ap (◌++◌ (without_nmux_keys (without_nmux_keys env)))
            (all_dropped session_id pane_id socket origin)
        ∙ append_nil (without_nmux_keys (without_nmux_keys env))
        ∙ without_nmux_keys_idem env)
