-- ===== src/Group/Server/Kept.antt =====
-- Handlers that leave the tables as they are.
use k.Base.{◌≡◌, refl, Bool, true, false, if◌then◌else◌, Option, none, some}
use k.Group.Tables.{Tables, GroupError}
use k.Group.Calls.{Outcome, checked, taken}

unfoldable pub Kept : Tables → Outcome → Type 0
Kept t out = out.0 ≡ t

pub kept : (t : Tables) (e : Option GroupError) → Kept t (t, e)
unfolding Kept
kept t e = refl

pub checked-Kept :
    (t : Tables) (e : Option GroupError) (next : Outcome) → Kept t next → Kept t (checked t e next)
unfolding Kept
checked-Kept t none next h = h
checked-Kept t (some e) next h = refl

pub taken-Kept {ℓ} :
    {A : Type ℓ} (t : Tables) (o : Option A) (next : A → Outcome)
    → ((a : A) → Kept t (next a))
    → Kept t (taken t o next)
unfolding Kept
taken-Kept t none next h = refl
taken-Kept t (some a) next h = h a

pub if-Kept :
    (t : Tables) (b : Bool) (x y : Outcome) → Kept t x → Kept t y → Kept t (if b then x else y)
if-Kept t true x y h k = h
if-Kept t false x y h k = k

pub ruleset keeps = (kept, checked-Kept, taken-Kept, if-Kept)
