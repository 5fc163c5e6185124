-- ===== src/Base/Order.antt =====
-- Go's order of strings, byte by byte, and `sort.Strings` and `strings.Join` on two of them.
use k.Base.Tests.{ltb, ◌==◌, if◌then◌else◌, Bool-cases}
use k.Base.Text.{Str}
use Prim.Native.Nat.{ℕ}
use mathlib.Core.Path.{◌≡◌, refl}
use mathlib.Core.Bool.{Bool, true, false}
use mathlib.Core.Logic.{inl, inr}
use mathlib.Core.List.{List, [], ◌∷◌, ◌++◌}
use native.Mathlib.Omega.{arith}

-- a ≤ b
unfoldable pub str_le : Str → Str → Bool
str_le [] b = true
str_le (x ∷ a) [] = false
str_le (x ∷ a) (y ∷ b) =
    let rest = str_le a b in if ltb x y then true else if x == y then rest else false

pub str_le_total : (a b : Str) → str_le a b ≡ false → str_le b a ≡ true
unfolding str_le
str_le_total [] b h = cc
str_le_total (x ∷ a) [] h = refl
str_le_total (x ∷ a) (y ∷ b) h = ground (arith, str_le_total a b)

pub str_le_antisym : (a b : Str) → str_le a b ≡ true → str_le b a ≡ true → a ≡ b
unfolding str_le
str_le_antisym [] [] h k = refl
str_le_antisym [] (y ∷ b) h k = cc
str_le_antisym (x ∷ a) [] h k = cc
str_le_antisym (x ∷ a) (y ∷ b) h k = ground (arith, str_le_antisym a b)

insert_str : Str → List Str → List Str
insert_str a [] = a ∷ []
insert_str a (b ∷ bs) = let rest = insert_str a bs in if str_le a b then a ∷ b ∷ bs else b ∷ rest

-- `sort.Strings`: which sort it is does not matter, since equal strings are the same.
unfoldable pub sort_strings : List Str → List Str
unfolding insert_str str_le
sort_strings [] = []
sort_strings (a ∷ bs) = insert_str a (sort_strings bs)

pub sort_strings_two :
    (a b : Str) → sort_strings (a ∷ b ∷ []) ≡ (if str_le a b then a ∷ b ∷ [] else b ∷ a ∷ [])
unfolding sort_strings
sort_strings_two a b = refl

-- The order in which a pair is given does not matter.
pub sort_strings_pair : (a b : Str) → sort_strings (a ∷ b ∷ []) ≡ sort_strings (b ∷ a ∷ [])
unfolding sort_strings
sort_strings_pair a b = elim (Bool-cases (str_le a b)) [
  | inr e ↦ rw (e, str_le_total a b e) refl
  | inl e ↦ elim (Bool-cases (str_le b a)) [
    | inr f ↦ rw (e, f) refl
    | inl f ↦ rw (str_le_antisym a b e f) refl
  ]
]

-- `strings.Join(l, sep)`
unfoldable pub join : Str → List Str → Str
join sep [] = []
join sep (a ∷ []) = a
join sep (a ∷ b ∷ bs) = a ++ sep ++ join sep (b ∷ bs)

-- `strings.Split(s, sep)` at a single byte: at least one part.
unfoldable pub split_from : ℕ → Str → Str → List Str
split_from sep part [] = part ∷ []
split_from sep part (c ∷ s) =
    let cut = part ∷ split_from sep [] s in
    let on = split_from sep (part ++ c ∷ []) s in if c == sep then cut else on

unfoldable pub split : ℕ → Str → List Str
unfolding split_from
split sep s = split_from sep [] s
