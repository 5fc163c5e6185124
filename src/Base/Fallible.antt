-- ===== src/Base/Fallible.antt =====
-- Results of steps that can fail, for the errors of a component.
use mathlib.Core.Bool.{Bool, true, false}
use k.Base.Tests.{if◌then◌else◌}
use mathlib.Core.Option.{Option, none, some}
use mathlib.Core.Path.{◌≡◌, refl}
use mathlib.Core.Logic.{◌⊎◌, inl, inr}

pub data Result {ℓ} (E : Type 0) (A : Type ℓ) : Type ℓ where
  err : E → Result E A
  ok : A → Result E A

infixl 5 ◌>>=◌ ◌>>◌
abbrev pub ◌>>=◌ {ℓ κ} :
    {E : Type 0} {A : Type ℓ} {B : Type κ} → Result E A → (A → Result E B) → Result E B
err e >>= next = err e
ok a >>= next = next a

abbrev pub ◌>>◌ {ℓ} : {E : Type 0} {B : Type ℓ} → Result E (Unit {0}) → Result E B → Result E B
step >> next = step >>= λ u. next

-- `if !test { return err }`
abbrev pub require : {E : Type 0} → Bool → E → Result E (Unit {0})
require false e = err e
require true e = ok tt

-- What an option gives, or an error.
abbrev pub or_err {ℓ} : {E : Type 0} {A : Type ℓ} → Option A → E → Result E A
or_err none e = err e
or_err (some a) e = ok a

-- Inversions: what a successful result says of the steps before.
pub ok_inv {ℓ} : {E : Type 0} {A : Type ℓ} {x y : A} → ◌≡◌ {A = Result E A} (ok x) (ok y) → x ≡ y
ok_inv h = cc

pub require_inv {ℓ} :
    {E : Type 0} {B : Type ℓ} (test : Bool) (e : E) (next : Unit {0} → Result E B) {r : B}
    → (require test e >>= next) ≡ ok r
    → Unit {0} × (test ≡ true) × (next tt ≡ ok r)
require_inv true e next h = (tt, refl, h)
require_inv false e next h = cc

pub or_err_inv {ℓ κ} :
    {E : Type 0} {A : Type ℓ} {B : Type κ} (o : Option A) (e : E) (next : A → Result E B) {r : B}
    → (or_err o e >>= next) ≡ ok r
    → (a : A) × (o ≡ some a) × (next a ≡ ok r)
or_err_inv none e next h = cc
or_err_inv (some a) e next h = (a, refl, h)

pub then_inv {ℓ} :
    {E : Type 0} {B : Type ℓ} (step : Result E (Unit {0})) (next : Result E B) {r : B}
    → (step >> next) ≡ ok r
    → (step ≡ ok tt) × (next ≡ ok r)
then_inv (err e) next h = cc
then_inv (ok tt) next h = (refl, h)

pub bind_inv {ℓ κ} :
    {E : Type 0} {A : Type ℓ} {B : Type κ} (step : Result E A) (next : A → Result E B) {r : B}
    → (step >>= next) ≡ ok r
    → (a : A) × (step ≡ ok a) × (next a ≡ ok r)
bind_inv (err e) next h = cc
bind_inv (ok a) next h = (a, refl, h)

pub Result-cases {ℓ} :
    {E : Type 0} {A : Type ℓ} (r : Result E A) → ((e : E) × (r ≡ err e)) ⊎ ((a : A) × (r ≡ ok a))
Result-cases (err e) = inl (e, refl)
Result-cases (ok a) = inr (a, refl)

-- A step that changes nothing: its error ends the call with the state s.
abbrev pub checked_at {ℓ} : {S : Type ℓ} {E : Type 0} → S → Option E → S × Option E → S × Option E
checked_at s none next = next
checked_at s (some e) next = (s, some e)

-- A lookup: without a row the call ends with the state s and the error e.
abbrev pub taken_at {ℓ κ} :
    {S : Type ℓ} {E : Type 0} {A : Type κ} → S → E → Option A → (A → S × Option E) → S × Option E
taken_at s e none next = (s, some e)
taken_at s e (some a) next = next a

-- Where a call ends without an error, P holds of what it leaves.
unfoldable pub Ensures : {S E : Type 0} → (S → Type 0) → S × Option E → Type 0
Ensures P out = out.1 ≡ none → P out.0

module _ {S E : Type 0} (P : S → Type 0) where
  pub ends-Ensures : (s : S) (e : Option E) → P s → Ensures P (s, e)
  unfolding Ensures
  ends-Ensures s e h n = h

  pub error-Ensures : (s : S) (e : E) → Ensures P (s, some e)
  unfolding Ensures
  error-Ensures s e h = cc

  pub checked_at-Ensures :
      (s : S) (e : Option E) (next : S × Option E)
      → Ensures P next
      → Ensures P (checked_at s e next)
  unfolding Ensures
  checked_at-Ensures s none next h k = h k
  checked_at-Ensures s (some e) next h k = cc

  pub taken_at-Ensures {κ} :
      {A : Type κ} (s : S) (e : E) (o : Option A) (next : A → S × Option E)
      → ((a : A) → o ≡ some a → Ensures P (next a))
      → Ensures P (taken_at s e o next)
  unfolding Ensures
  taken_at-Ensures s e none next h k = cc
  taken_at-Ensures s e (some a) next h k = h a refl k

  pub if-Ensures :
      (b : Bool) (x y : S × Option E) → Ensures P x → Ensures P y → Ensures P (if b then x else y)
  if-Ensures true x y h k = h
  if-Ensures false x y h k = k

  -- Where the second branch needs to know that the test failed.
  pub else-Ensures :
      (b : Bool) (x y : S × Option E)
      → Ensures P x
      → (b ≡ false → Ensures P y)
      → Ensures P (if b then x else y)
  else-Ensures true x y h k = h
  else-Ensures false x y h k = k refl

pub ensures_lem :
    {S E : Type 0} (P : S → Type 0) (out : S × Option E) → Ensures P out → out.1 ≡ none → P out.0
unfolding Ensures
ensures_lem P out h = h
