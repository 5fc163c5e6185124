-- ===== src/MsgGateway/UserMap/Platforms.antt =====
-- Taking the connections of one platform out of a user's slice.
use k.Base.{
  sym, subst, ◌≡◌, refl, Bool, true, false, some, List, [], ◌∷◌, ◌++◌, keep, map, All, Str,
  contains, arith, Bool-cases, inl, inr,
}
use k.MsgGateway.UserMap.{
  Client, UserMap, get_all, delete_clients, delete_clients_in, put_back, not_among,
}

abbrev pub addrs : List Client → List Str
addrs = map (λ (d : Client). d.remote_addr)

-- Every connection of `xs` that passes the test has its address among those of `ys`.
abbrev Covered : (Client → Bool) → List Client → List Client → Type 0
Covered P ys = All (λ c. P c ≡ true → contains c.remote_addr (addrs ys) ≡ true)

contains-cons : (a b : Str) (xs : List Str) → contains a xs ≡ true → contains a (b ∷ xs) ≡ true
contains-cons a b xs h = ground arith

Covered-cons :
    (P : Client → Bool) (y : Client) (ys xs : List Client) → Covered P ys xs → Covered P (y ∷ ys) xs
Covered-cons P y ys [] h = tt
Covered-cons P y ys (x ∷ xs) h =
    (λ p. contains-cons x.remote_addr y.remote_addr (addrs ys) (h.0 p), Covered-cons P y ys xs h.1)

contains-head : (a : Str) (xs : List Str) → contains a (a ∷ xs) ≡ true
contains-head a xs = ground arith

keep-hit :
    (P : Client → Bool) (x : Client) (xs : List Client)
    → P x ≡ true
    → keep P (x ∷ xs) ≡ x ∷ keep P xs
keep-hit P x xs e = rw e

keep-miss :
    (P : Client → Bool) (x : Client) (xs : List Client) → P x ≡ false → keep P (x ∷ xs) ≡ keep P xs
keep-miss P x xs e = rw e

Covered-keep : (P : Client → Bool) (xs : List Client) → Covered P (keep P xs) xs
Covered-keep P [] = tt
Covered-keep P (x ∷ xs) = elim (Bool-cases (P x)) [
  | inl e ↦
      subst (λ ys. Covered P ys (x ∷ xs)) (sym (keep-hit P x xs e))
        (
          λ _. contains-head x.remote_addr (addrs (keep P xs)),
          Covered-cons P x (keep P xs) xs (Covered-keep P xs),
        )
  | inr e ↦
      subst (λ ys. Covered P ys (x ∷ xs)) (sym (keep-miss P x xs e)) (λ p. cc, Covered-keep P xs)
]

-- Once they are taken out, none of them is left.
keep-not_among :
    (P : Client → Bool) (ys xs : List Client)
    → Covered P ys xs
    → keep P (keep (not_among ys) xs) ≡ []
keep-not_among P ys [] h = refl
keep-not_among P ys (x ∷ xs) h = ground (arith, keep-not_among P ys xs h.1)

pub keep-not_among-keep :
    (P : Client → Bool) (xs : List Client) → keep P (keep (not_among (keep P xs)) xs) ≡ []
keep-not_among-keep P xs = keep-not_among P (keep P xs) xs (Covered-keep P xs)

-- Where all of them are on the platform, nothing is left.
not_among-all :
    (P : Client → Bool) (ys xs : List Client)
    → All (λ c. P c ≡ true) xs
    → Covered P ys xs
    → keep (not_among ys) xs ≡ []
not_among-all P ys [] a h = refl
not_among-all P ys (x ∷ xs) a h = ground (arith, h.0 a.0, not_among-all P ys xs a.1 h.1)

pub delete_clients_all :
    (P : Client → Bool) (u : UserMap) (key : Str) (old : List Client)
    → get_all u key ≡ some old
    → All (λ c. P c ≡ true) old
    → (delete_clients u key (keep P old)).1 ≡ true
unfolding delete_clients delete_clients_in put_back
delete_clients_all P u key old e a =
    rw (e, delete_clients_in) (rw (not_among-all P (keep P old) old a (Covered-keep P old)) refl)

-- The connections on other platforms stay, unless they share an address with one that goes.
pub keep-append :
    (P : Client → Bool) (xs ys : List Client) → keep P (xs ++ ys) ≡ keep P xs ++ keep P ys
keep-append P [] ys = refl
keep-append P (x ∷ xs) ys = ground (arith, keep-append P xs ys)
