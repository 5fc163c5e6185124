-- ===== src/Base/Text.antt =====
-- Go strings as lists of bytes.
use Prim.Native.Nat.{ℕ}
use Prim.Native.Char.{code}
use Prim.Native.String.{String}
use mathlib.Core.Bool.{Bool, true, false}
use mathlib.Core.List.{List, [], ◌∷◌}
use native.Mathlib.Decide.{ℕ_discrete}
use mathlib.Core.Path.{◌≡◌}
use native.Mathlib.Omega.{arith}
use k.Base.Tests.{is_yes}
use k.Base.Lists.{any}

abbrev pub Str : Type 0
Str = List ℕ

-- The bytes of an ASCII text.
abbrev pub codes : String → Str
codes String.[] = []
codes (String.◌∷◌ c s) = code c ∷ codes s

unfoldable pub str_dec : Discrete Str
unfolding ℕ_discrete
str_dec = hlevel ℕ_discrete

abbrev pub str_eq : Str → Str → Bool
str_eq a b = is_yes (str_dec a b)

-- `utils.IsContain`, `utils.Contain`: is the string in the slice?
abbrev pub contains : Str → List Str → Bool
contains a [] = false
contains a (x ∷ xs) = elim (str_dec x a) [ yes h ↦ true | no h ↦ contains a xs ]

pub str_eq_refl : (a : Str) → str_eq a a ≡ true
str_eq_refl a = ground arith

abbrev pub contain : List Str → Str → Bool
contain ids u = any (λ v. str_eq v u) ids
