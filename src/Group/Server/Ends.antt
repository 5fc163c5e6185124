-- ===== src/Group/Server/Ends.antt =====
-- What holds of the tables that a handler leaves without an error.
use k.Base.{◌≡◌, refl, Bool, true, false, if◌then◌else◌, Option, none, some, arith}
use k.Group.Tables.{Tables, GroupError}
use k.Group.Calls.{Outcome, checked, taken, found}

unfoldable pub Ends : (Tables → Type 0) → Outcome → Type 0
Ends P out = out.1 ≡ none → P out.0

pub refused-Ends : (P : Tables → Type 0) (t : Tables) (e : GroupError) → Ends P (t, some e)
unfolding Ends
refused-Ends P t e h = ground arith

pub ok-Ends : (P : Tables → Type 0) (t : Tables) → P t → Ends P (t, none)
unfolding Ends
ok-Ends P t k h = k

pub checked-Ends :
    (P : Tables → Type 0) (t : Tables) (e : Option GroupError) (next : Outcome)
    → (e ≡ none → Ends P next)
    → Ends P (checked t e next)
unfolding Ends
checked-Ends P t none next k h = k refl h
checked-Ends P t (some e) next k h = ground arith

pub taken-Ends {ℓ} :
    {A : Type ℓ} (P : Tables → Type 0) (t : Tables) (o : Option A) (next : A → Outcome)
    → ((a : A) → o ≡ some a → Ends P (next a))
    → Ends P (taken t o next)
unfolding Ends
taken-Ends P t none next k h = ground arith
taken-Ends P t (some a) next k h = k a refl h

pub found-Ends {ℓ} :
    {A : Type ℓ} (P : Tables → Type 0) (o : Option A) (missing : Outcome) (next : A → Outcome)
    → (o ≡ none → Ends P missing)
    → ((a : A) → o ≡ some a → Ends P (next a))
    → Ends P (found o missing next)
found-Ends P none missing next k l = k refl
found-Ends P (some a) missing next k l = l a refl

pub if-Ends :
    (P : Tables → Type 0) (b : Bool) (x y : Outcome)
    → (b ≡ true → Ends P x)
    → (b ≡ false → Ends P y)
    → Ends P (if b then x else y)
if-Ends P true x y k l = k refl
if-Ends P false x y k l = l refl

pub ruleset ends = (refused-Ends, ok-Ends, checked-Ends, taken-Ends, found-Ends, if-Ends)
