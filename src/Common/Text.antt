-- ===== src/Common/Text.antt =====
-- Text as the program's `std::string` and `std::string_view` hold it: a list of bytes.
use Prim.Native.Char.{code}
use Prim.Native.String.{String}
use Prim.Native.Nat.{ℕ}
use mathlib.Core.Path.{◌≡◌, refl, ap, ◌∙◌}
use mathlib.Core.Bool.{Bool, true, false, ◌&&◌}
use mathlib.Core.List.{List, [], ◌∷◌, ◌++◌}
use native.Mathlib.Omega.{arith}
use voltmod.Common.Tests.{◌==◌, dec_of_test, true_not-false}

abbrev pub Bytes : Type 0
Bytes = List ℕ

-- The bytes of an ASCII literal. `String` has its own `[]` and `∷`.
abbrev pub bytes : String → Bytes
bytes String.[] = []
bytes (String.◌∷◌ c s) = code c ∷ bytes s

-- `==` on strings.
abbrev pub text_eq : Bytes → Bytes → Bool
text_eq [] [] = true
text_eq [] (y ∷ ys) = false
text_eq (x ∷ xs) [] = false
text_eq (x ∷ xs) (y ∷ ys) = (x == y) && text_eq xs ys

pub text_eq_to : (xs ys : Bytes) → text_eq xs ys ≡ true → xs ≡ ys
text_eq_to [] [] h = refl
text_eq_to [] (y ∷ ys) h = ground arith
text_eq_to (x ∷ xs) [] h = ground arith
text_eq_to (x ∷ xs) (y ∷ ys) h = ground (arith, text_eq_to xs ys)

pub text_eq_refl : (xs : Bytes) → text_eq xs xs ≡ true
text_eq_refl [] = refl
text_eq_refl (x ∷ xs) = ground (arith, text_eq_refl xs)

pub text_differs : (xs ys : Bytes) → text_eq xs ys ≡ false → ¬ (xs ≡ ys)
text_differs xs ys h e =
    true_not-false (text_eq xs ys) (ap (λ x. text_eq x ys) e ∙ text_eq_refl ys) h

unfoldable pub bytes_discrete : Discrete Bytes
bytes_discrete xs ys = dec_of_test (text_eq xs ys) (text_eq_to xs ys) (text_differs xs ys)

-- `starts_with(prefix)`, the prefix first.
abbrev pub starts_with : Bytes → Bytes → Bool
starts_with [] s = true
starts_with (p ∷ ps) [] = false
starts_with (p ∷ ps) (c ∷ s) = (p == c) && starts_with ps s

pub starts_with-append : (p s : Bytes) → starts_with p (p ++ s) ≡ true
starts_with-append [] s = refl
starts_with-append (c ∷ p) s = ground (arith, starts_with-append p s)
