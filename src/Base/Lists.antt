-- ===== src/Base/Lists.antt =====
-- Lists over the native numbers: what the library states over the unary ones.
use Prim.Native.Nat.{ℕ, zero, suc, ◌+◌, ◌≤◌}
use mathlib.Core.Path.{◌≡◌, refl, sym, subst}
use mathlib.Core.Logic.{inl, inr}
use mathlib.Core.Bool.{Bool, true, false, ◌&&◌, ◌||◌}
use mathlib.Core.Option.{Option, none, some}
use mathlib.Core.List.{List, [], ◌∷◌, ◌++◌}
use native.Mathlib.Omega.{arith}
use k.Base.Tests.{if◌then◌else◌, Bool-cases, some_eq}

module _ {ℓ} {A : Type ℓ} where
  abbrev pub length : List A → ℕ
  length [] = 0
  length (x ∷ xs) = suc (length xs)

  abbrev pub get_elem? : List A → ℕ → Option A
  get_elem? [] i = none
  get_elem? (x ∷ xs) zero = some x
  get_elem? (x ∷ xs) (suc i) = get_elem? xs i

  abbrev pub set : List A → ℕ → A → List A
  set [] i v = []
  set (x ∷ xs) zero v = v ∷ xs
  set (x ∷ xs) (suc i) v = x ∷ set xs i v

  abbrev pub replicate : ℕ → A → List A
  replicate zero a = []
  replicate (suc n) a = a ∷ replicate n a

  -- The elements that pass a Boolean test.
  abbrev pub keep : (A → Bool) → List A → List A
  keep p [] = []
  keep p (x ∷ xs) = let rest = keep p xs in if p x then x ∷ rest else rest

  abbrev pub all : (A → Bool) → List A → Bool
  all p [] = true
  all p (x ∷ xs) = p x && all p xs

  abbrev pub any : (A → Bool) → List A → Bool
  any p [] = false
  any p (x ∷ xs) = p x || any p xs

  -- A predicate on every element, by recursion.
  abbrev pub All {κ} : (A → Type κ) → List A → Type κ
  All P [] = Unit
  All P (x ∷ xs) = P x × All P xs

  -- The first row that passes a test.
  abbrev pub find : (A → Bool) → List A → Option A
  find p [] = none
  find p (x ∷ xs) = let rest = find p xs in if p x then some x else rest

  -- Changes the rows that pass a test.
  abbrev pub change : (A → Bool) → (A → A) → List A → List A
  change p f [] = []
  change p f (x ∷ xs) = let rest = change p f xs in if p x then f x ∷ rest else x ∷ rest

  pub any-append : (p : A → Bool) (xs ys : List A) → any p (xs ++ ys) ≡ (any p xs || any p ys)
  any-append p [] ys = refl
  any-append p (x ∷ xs) ys = ground (arith, any-append p xs ys)

  pub length-append : (xs ys : List A) → length (xs ++ ys) ≡ length xs + length ys
  length-append [] ys = omega arith
  length-append (x ∷ xs) ys = omega (arith, length-append xs ys)

  pub length-keep : (p : A → Bool) (xs : List A) → length (keep p xs) ≤ length xs
  length-keep p [] = omega arith
  length-keep p (x ∷ xs) = ground (arith, length-keep p xs)

  pub all-keep : (p : A → Bool) (xs : List A) → all p (keep p xs) ≡ true
  all-keep p [] = refl
  all-keep p (x ∷ xs) = ground (arith, all-keep p xs)

  pub All-append {κ} : (P : A → Type κ) (xs ys : List A) → All P xs → All P ys → All P (xs ++ ys)
  All-append P [] ys h g = g
  All-append P (x ∷ xs) ys h g = (h.0, All-append P xs ys h.1 g)

  pub keep-true :
      (p : A → Bool) (x : A) (xs : List A) → p x ≡ true → keep p (x ∷ xs) ≡ x ∷ keep p xs
  keep-true p x xs e = rw e

  pub keep-false : (p : A → Bool) (x : A) (xs : List A) → p x ≡ false → keep p (x ∷ xs) ≡ keep p xs
  keep-false p x xs e = rw e

pub head_eq {ℓ} : {A : Type ℓ} {a b : A} {x y : List A} → a ∷ x ≡ b ∷ y → a ≡ b
head_eq e = cc

pub tail_eq {ℓ} : {A : Type ℓ} {a b : A} {x y : List A} → a ∷ x ≡ b ∷ y → x ≡ y
tail_eq e = cc

module _ {ℓ} {A : Type ℓ} where
  -- A change that keeps a key, and a property of what is found by the key.
  pub find-change_kept :
      (p q good : A → Bool) (f : A → A) (xs : List A) {r : A}
      → ((x : A) → p (f x) ≡ p x)
      → ((x : A) → good x ≡ true → good (f x) ≡ true)
      → find p xs ≡ some r
      → good r ≡ true
      → (r' : A) × (find p (change q f xs) ≡ some r') × (good r' ≡ true)
  find-change_kept p q good f [] k g h e = cc
  find-change_kept p q good f (x ∷ xs) k g h e = elim (Bool-cases (p x)) [
    | inl a ↦
        let h' = some_eq (rw a at h) in
        let e' = subst (λ y. good y ≡ true) (sym h') e in
        elim (Bool-cases (q x)) [
          | inl b ↦ rw (b, k x, a) (f x, refl, g x e')
          | inr b ↦ rw (b, a) (x, refl, e')
        ]
    | inr a ↦
        let h' = rw a at h in
        let ih = find-change_kept p q good f xs k g h' e in
        elim (Bool-cases (q x)) [ inl b ↦ rw (b, k x, a) ih | inr b ↦ rw (b, a) ih ]
  ]

  -- A change that keeps a key gives what is found by it a property.
  pub find-change_new :
      (p good : A → Bool) (f : A → A) (xs : List A) {r : A}
      → ((x : A) → p (f x) ≡ p x)
      → ((x : A) → good (f x) ≡ true)
      → find p xs ≡ some r
      → (r' : A) × (find p (change p f xs) ≡ some r') × (good r' ≡ true)
  find-change_new p good f [] k g h = cc
  find-change_new p good f (x ∷ xs) k g h = elim (Bool-cases (p x)) [
    | inl a ↦ rw (a, k x, a) (f x, refl, g x)
    | inr a ↦ let h' = rw a at h in rw (a, a) (find-change_new p good f xs k g h')
  ]
