-- ===== src/Prelude/Text.antt =====
-- Text as a list of codes, with what the program uses of Go's `strings` package.
use Prim.Native.Nat.{ℕ}
use mathlib.Core.Path.{◌≡◌, refl}
use mathlib.Core.Logic.{◌↔◌, ◌≢◌}
use mathlib.Core.Bool.{Bool, true, false, ◌&&◌, ◌||◌}
use mathlib.Core.List.{List, [], ◌∷◌, ◌++◌}
use Prim.Native.Char.{code}
use Prim.Native.String.{String}
use native.Mathlib.Omega.{arith}
use arcmux.Prelude.Tests.{◌==◌, if◌then◌else◌}

abbrev pub Text : Type 0
Text = List ℕ

-- The codes of a literal.
abbrev pub codes : String → Text
codes String.[] = []
codes (String.◌∷◌ c s) = code c ∷ codes s

-- a == b
unfoldable pub text_eq : Text → Text → Bool
text_eq [] [] = true
text_eq [] (y ∷ ys) = false
text_eq (x ∷ xs) [] = false
text_eq (x ∷ xs) (y ∷ ys) = x == y && text_eq xs ys

pub text_eq_iff : (a b : Text) → (text_eq a b ≡ true) ↔ (a ≡ b)
unfolding text_eq
text_eq_iff [] [] = ((λ _. refl), (λ _. refl))
text_eq_iff [] (y ∷ ys) = ground arith
text_eq_iff (x ∷ xs) [] = ground arith
text_eq_iff (x ∷ xs) (y ∷ ys) = ground (arith, text_eq_iff xs ys)

pub text_eq_refl : (a : Text) → text_eq a a ≡ true
text_eq_refl a = (text_eq_iff a a).1 refl

pub text_ne : (a b : Text) → text_eq a b ≡ false → a ≢ b
text_ne a b h e = cc ((text_eq_iff a b).1 e)

-- strings.HasPrefix(s, p)
unfoldable pub has_prefix : Text → Text → Bool
has_prefix s [] = true
has_prefix [] (y ∷ p) = false
has_prefix (x ∷ s) (y ∷ p) = x == y && has_prefix s p

-- strings.Contains(s, p)
unfoldable pub contains : Text → Text → Bool
unfolding has_prefix
contains [] p = has_prefix [] p
contains (x ∷ s) p = has_prefix (x ∷ s) p || contains s p

-- strings.TrimLeftFunc(s, f)
unfoldable pub trim_left : (ℕ → Bool) → Text → Text
trim_left f [] = []
trim_left f (x ∷ s) = if f x then trim_left f s else x ∷ s

-- strings.TrimRightFunc(s, f): what is left of a tail decides whether its head is trailing.
unfoldable pub keep_right : (ℕ → Bool) → ℕ → Text → Text
keep_right f x [] = if f x then [] else x ∷ []
keep_right f x (y ∷ s) = x ∷ y ∷ s

unfoldable pub trim_right : (ℕ → Bool) → Text → Text
unfolding keep_right
trim_right f [] = []
trim_right f (x ∷ s) = keep_right f x (trim_right f s)

-- strings.TrimFunc(s, f), which is strings.TrimSpace where `f` is unicode.IsSpace
abbrev pub trim : (ℕ → Bool) → Text → Text
trim f s = trim_right f (trim_left f s)

-- strings.Split(s, sep) for a separator of one code; the result is never empty.
abbrev cons_first : ℕ → List Text → List Text
cons_first x [] = (x ∷ []) ∷ []
cons_first x (l ∷ ls) = (x ∷ l) ∷ ls

unfoldable pub split : ℕ → Text → List Text
split sep [] = [] ∷ []
split sep (x ∷ s) = let rest = split sep s in if x == sep then [] ∷ rest else cons_first x rest

-- strings.Join(ls, sep) for a separator of one code
unfoldable pub join : ℕ → List Text → Text
join sep [] = []
join sep (l ∷ []) = l
join sep (l ∷ m ∷ ls) = l ++ sep ∷ join sep (m ∷ ls)

abbrev flush : Text → List Text → List Text
flush [] ws = ws
flush (x ∷ w) ws = (x ∷ w) ∷ ws

-- strings.FieldsFunc(s, f), with the word read so far; strings.Fields where `f` is unicode.IsSpace
unfoldable pub fields_from : (ℕ → Bool) → Text → Text → List Text
fields_from f word [] = flush word []
fields_from f word (x ∷ s) = elim (f x) [
  | true ↦ flush word (fields_from f [] s)
  | false ↦ fields_from f (word ++ x ∷ []) s
]
