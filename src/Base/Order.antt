-- ===== src/Base/Order.antt =====
-- The order of Rust strings, and its laws. UTF-8 keeps the order of code points, so bytes and
-- code points compare alike.
use mathlib.Core.Path.{◌≡◌, refl}
use mathlib.Core.Logic.{◌≢◌}
use mathlib.Core.Bool.{Bool, true, false}
use mathlib.Core.List.{[], ◌∷◌}
use native.Mathlib.Omega.{arith}
use nmux.Base.Tests.{Text, ltb, if◌then◌else◌}

unfoldable pub text_lt : Text → Text → Bool
text_lt [] [] = false
text_lt [] (y ∷ ys) = true
text_lt (x ∷ xs) [] = false
text_lt (x ∷ xs) (y ∷ ys) =
    let rest = text_lt xs ys in if ltb x y then true else if ltb y x then false else rest

pub text_lt_irrefl : (a : Text) → text_lt a a ≡ false
unfolding text_lt
text_lt_irrefl [] = refl
text_lt_irrefl (x ∷ xs) = ground (arith, text_lt_irrefl xs)

pub text_lt_asymm : (a b : Text) → text_lt a b ≡ true → text_lt b a ≡ false
unfolding text_lt
text_lt_asymm [] [] h = refl
text_lt_asymm [] (y ∷ ys) h = refl
text_lt_asymm (x ∷ xs) [] h = ground arith
text_lt_asymm (x ∷ xs) (y ∷ ys) h = ground (arith, text_lt_asymm xs ys)

pub text_lt_total : (a b : Text) → a ≢ b → text_lt a b ≡ false → text_lt b a ≡ true
unfolding text_lt
text_lt_total [] [] h e = absurd (h refl)
text_lt_total [] (y ∷ ys) h e = ground arith
text_lt_total (x ∷ xs) [] h e = refl
text_lt_total (x ∷ xs) (y ∷ ys) h e = ground (arith, text_lt_total xs ys)

pub text_lt_trans : (a b c : Text) → text_lt a b ≡ true → text_lt b c ≡ true → text_lt a c ≡ true
unfolding text_lt
text_lt_trans [] [] c h k = ground arith
text_lt_trans [] (y ∷ ys) [] h k = ground arith
text_lt_trans [] (y ∷ ys) (z ∷ zs) h k = refl
text_lt_trans (x ∷ xs) [] c h k = ground arith
text_lt_trans (x ∷ xs) (y ∷ ys) [] h k = ground arith
text_lt_trans (x ∷ xs) (y ∷ ys) (z ∷ zs) h k = ground (arith, text_lt_trans xs ys zs)

pub text_lt_ntrans :
    (a b c : Text) → text_lt a b ≡ false → text_lt b c ≡ false → text_lt a c ≡ false
unfolding text_lt
text_lt_ntrans [] [] c h k = k
text_lt_ntrans [] (y ∷ ys) c h k = ground arith
text_lt_ntrans (x ∷ xs) [] [] h k = refl
text_lt_ntrans (x ∷ xs) [] (z ∷ zs) h k = ground arith
text_lt_ntrans (x ∷ xs) (y ∷ ys) [] h k = refl
text_lt_ntrans (x ∷ xs) (y ∷ ys) (z ∷ zs) h k = ground (arith, text_lt_ntrans xs ys zs)
