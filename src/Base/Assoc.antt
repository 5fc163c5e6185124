-- ===== src/Base/Assoc.antt =====
-- Go maps as association lists: one entry to a key.
use Prim.Native.Nat.{suc}
use mathlib.Core.Path.{◌≡◌, refl}
use mathlib.Core.Logic.{ite}
use mathlib.Core.Option.{Option, none, some}
use mathlib.Core.List.{List, [], ◌∷◌}
use native.Mathlib.Omega.{arith}
use k.Base.Lists.{length}

module _ {ℓ} {K V : Type ℓ} (dec : Discrete K) where
  unfoldable pub lookup : K → List (K × V) → Option V
  lookup k [] = none
  lookup k ((j, v) ∷ m) = ite (dec j k) (some v) (lookup k m)

  unfoldable pub store : K → V → List (K × V) → List (K × V)
  store k v [] = (k, v) ∷ []
  store k v ((j, w) ∷ m) = ite (dec j k) ((k, v) ∷ m) ((j, w) ∷ store k v m)

  unfoldable pub remove : K → List (K × V) → List (K × V)
  remove k [] = []
  remove k ((j, w) ∷ m) = ite (dec j k) (remove k m) ((j, w) ∷ remove k m)

  pub lookup-store :
      (k j : K) (v : V) (m : List (K × V))
      → lookup j (store k v m) ≡ ite (dec k j) (some v) (lookup j m)
  unfolding lookup store
  lookup-store k j v [] = refl
  lookup-store k j v ((i, w) ∷ m) = ground (arith, lookup-store k j v m)

  pub lookup-remove :
      (k j : K) (m : List (K × V)) → lookup j (remove k m) ≡ ite (dec k j) none (lookup j m)
  unfolding lookup remove
  lookup-remove k j [] = ground arith
  lookup-remove k j ((i, w) ∷ m) = ground (arith, lookup-remove k j m)

  -- No key has two entries.
  abbrev pub Distinct : List (K × V) → Type ℓ
  Distinct [] = Unit
  Distinct ((j, v) ∷ m) = (lookup j m ≡ none) × Distinct m

  pub store-Distinct : (k : K) (v : V) (m : List (K × V)) → Distinct m → Distinct (store k v m)
  unfolding store lookup
  store-Distinct k v [] d = (refl, tt)
  store-Distinct k v ((j, w) ∷ m) d = ground (arith, store-Distinct k v m d.1, lookup-store k j v m)

  pub remove-Distinct : (k : K) (m : List (K × V)) → Distinct m → Distinct (remove k m)
  unfolding remove
  remove-Distinct k [] d = tt
  remove-Distinct k ((j, w) ∷ m) d = ground (arith, remove-Distinct k m d.1, lookup-remove k j m)

  pub remove_absent : (k : K) (m : List (K × V)) → lookup k m ≡ none → remove k m ≡ m
  unfolding lookup remove
  remove_absent k [] h = refl
  remove_absent k ((j, w) ∷ m) h = ground (arith, remove_absent k m)

  pub length-store_new :
      (k : K) (v : V) (m : List (K × V)) → lookup k m ≡ none → length (store k v m) ≡ suc (length m)
  unfolding lookup store
  length-store_new k v [] h = refl
  length-store_new k v ((j, w) ∷ m) h = ground (arith, length-store_new k v m)

  pub length-store_old :
      (k : K) (v w : V) (m : List (K × V)) → lookup k m ≡ some w → length (store k v m) ≡ length m
  unfolding lookup store
  length-store_old k v w [] h = cc
  length-store_old k v w ((j, x) ∷ m) h = ground (arith, length-store_old k v w m)

  pub length-remove :
      (k : K) (w : V) (m : List (K × V))
      → Distinct m
      → lookup k m ≡ some w
      → suc (length (remove k m)) ≡ length m
  unfolding lookup remove
  length-remove k w [] d h = cc
  length-remove k w ((j, x) ∷ m) d h = ground (arith, length-remove k w m d.1, remove_absent k m)
